-- ===== src/Server/Transmit.antt =====
-- The server's transfer: ttp_accept_retransmit in tsunami-udp/server/protocol.c, and the transmission
-- loop of client_handler in tsunami-udp/server/main.c, without VSIB_REALTIME.
pub mod Laws
pub mod Rate
pub mod Genuine
use tsunami_udp.Prelude.{
  ℕ, zero, suc, ◌+◌, ◌-◌, min, Bool, true, false, not, ◌&&◌, ◌||◌, List, [], ◌∷◌, ◌++◌, ◌==◌, ltb,
  leb, if◌then◌else◌,
}
use tsunami_udp.Prelude.Words.{add32}
use tsunami_udp.Protocol.{
  Datagram, Retransmission, Status, ok, failed, request_retransmit_type, request_restart_type,
  request_stop_type, request_error_rate_type, block_original, block_terminate, block_retransmission,
}
use tsunami_udp.Server.Datagram.{Reader, build_datagram}

-- The operations on `double` that the code uses; they are a parameter of the model.
pub record Floats : Type 1 where
  pub F : Type 0
  pub of_nat : ℕ → F
  pub plus : F → F → F
  pub minus : F → F → F
  pub times : F → F → F
  pub over : F → F → F
  pub less : F → F → Bool

-- The fields of the server's `ttp_parameter_t` that the transfer uses.
pub record Parameter : Type 0 where
  pub block_size : ℕ
  pub block_count : ℕ
  pub error_rate : ℕ
  pub slower_num : ℕ
  pub slower_den : ℕ
  pub faster_num : ℕ
  pub faster_den : ℕ
  pub ipd_time : ℕ

-- What one iteration of the loop meets: whether read fails, how many bytes it gives, and the request
-- that the structure holds once it is complete; whether sendto succeeds; whether 500 ms have passed
-- since the last report, and hb_timeout since the last request.
pub record Input : Type 0 where
  pub read_fails : Bool
  pub arrived : ℕ
  pub request : Retransmission
  pub send : Bool
  pub interval_passed : Bool
  pub timed_out : Bool

-- How an iteration ends: the loop goes on; `break`; `error` ends the process.
pub data Turn : Type 0 where
  goes_on : Turn
  stops : Turn
  exits : Turn

-- sizeof(retransmission_t)
abbrev pub retransmission_size : ℕ
retransmission_size = 12

module _ (fl : Floats) (param : Parameter) where
  -- The transfer's state: the open file, the last block of the stream, the inter-packet delay, and two
  -- local variables of the loop.
  pub record Server : Type 0 where
    pub reader : Reader
    pub block : ℕ
    pub ipd_current : fl.F
    pub retransmitlen : ℕ
    pub deadconnection_counter : ℕ

  -- The macros `min` and `max` on doubles.
  fmin : fl.F → fl.F → fl.F
  fmin a b = if fl.less a b then a else b

  fmax : fl.F → fl.F → fl.F
  fmax a b = if fl.less b a then a else b

  -- The delay that an error rate asks for, before the range check.
  unfoldable pub adjusted : ℕ → fl.F → fl.F
  adjusted rate ipd =
      let one = fl.of_nat 1 in
      let allowed = fl.of_nat param.error_rate in
      if ltb param.error_rate rate
      then fl.times ipd (
          fl.plus one (
            fl.times
              (fl.minus
                (fl.over (fl.times one (fl.of_nat param.slower_num)) (fl.of_nat param.slower_den))
                one)
              (fl.over (fl.minus (fl.plus one (fl.of_nat rate)) allowed)
                (fl.minus (fl.of_nat 100000) allowed))))
      else fl.times ipd (fl.over (fl.of_nat param.faster_num) (fl.of_nat param.faster_den))

  unfoldable pub in_range : fl.F → fl.F
  unfolding fmin fmax
  in_range ipd = fmax (fmin ipd (fl.of_nat 10000)) (fl.of_nat param.ipd_time)

  -- `ttp_accept_retransmit`, with the datagrams that it sends.
  unfoldable pub accept_retransmit :
      Retransmission → Bool → Server → Status × Server × List Datagram
  unfolding adjusted in_range
  accept_retransmit m send s =
      if m.request_type == request_error_rate_type
      then (ok, record s { ipd_current = in_range (adjusted m.error_rate s.ipd_current) }, [])
      else if m.request_type == request_restart_type
      then (if m.block == 0 || ltb param.block_count m.block
          then (failed, s, [])
          else (ok, record s { block = m.block }, []))
      else if m.request_type == request_retransmit_type
      then (let (d, reader) =
            build_datagram param.block_size m.block block_retransmission s.reader in
          (if send then ok else failed, record s { reader = reader }, if send then d ∷ [] else []))
      else (failed, s, [])

  -- A part of an iteration: how it ends, whether the rest of the body runs, and what was sent.
  pub record Part : Type 0 where
    pub turn : Turn
    pub skips_rest : Bool
    pub server : Server
    pub sent : List Datagram

  -- The branch on a complete request; a failed request is only warned about.
  unfoldable pub handle_request : Input → Server → Part
  unfolding accept_retransmit
  handle_request input s =
      if input.request.request_type == request_stop_type
      then record { turn = stops; skips_rest = true; server = s; sent = [] }
      else (let (status, s', sent) = accept_retransmit input.request input.send s in
          record {
            turn = goes_on;
            skips_rest = false;
            server = record s' { retransmitlen = 0; deadconnection_counter = 0 };
            sent = sent;
          })

  -- The branch without a request: the next block of the stream.
  unfoldable pub send_block : Input → Server → Part
  send_block input s =
      let block = min (add32 s.block 1) param.block_count in
      let type = if block == param.block_count then block_terminate else block_original in
      let (d, reader) = build_datagram param.block_size block type s.reader in
      record {
        turn = goes_on;
        skips_rest = not input.send;
        server = record s { reader = reader; block = block };
        sent = if input.send then d ∷ [] else [];
      }

  -- The request that the loop makes up when the client is silent.
  abbrev pub total_loss : Retransmission
  total_loss = record { request_type = request_error_rate_type; block = 0; error_rate = 100000 }

  -- The heartbeat check at the end of the body.
  unfoldable pub heartbeat : Input → Server → Turn × Server
  heartbeat input s =
      if not (ltb 2048 s.deadconnection_counter)
      then (goes_on, record s { deadconnection_counter = s.deadconnection_counter + 1 })
      else if not input.interval_passed
      then (goes_on, record s { deadconnection_counter = 0 })
      else (let (status, s', sent) =
            accept_retransmit total_loss true (record s { deadconnection_counter = 0 }) in
          (if input.timed_out then stops else goes_on, s'))

  -- One round of the loop body.
  unfoldable pub iterate : Input → Server → Turn × Server × List Datagram
  unfolding handle_request send_block heartbeat
  iterate input s =
      let len = s.retransmitlen + input.arrived in
      let s1 : Server = record s { retransmitlen = len } in
      let idle : Part = record {
        turn = goes_on;
        skips_rest = false;
        server = record s1 { retransmitlen = 0 };
        sent = [];
      } in
      if input.read_fails
      then (exits, s, [])
      else (let part =
            if len == retransmission_size
            then handle_request input s1
            else if ltb len retransmission_size
            then send_block input s1
            else idle in
          if part.skips_rest
          then (part.turn, part.server, part.sent)
          else (let (turn, s2) = heartbeat input part.server in (turn, s2, part.sent)))

  unfoldable pub after_round :
      Turn → Server → List Datagram → Turn × Server × List Datagram → Turn × Server × List Datagram
  after_round goes_on s sent (turn, s', more) = (turn, s', sent ++ more)
  after_round stops s sent rest = (stops, s, sent)
  after_round exits s sent rest = (exits, s, sent)

  -- `while (xfer->block <= param->block_count)`, on a sequence of inputs; it has not ended when the
  -- inputs end.
  unfoldable pub run : List Input → Server → Turn × Server × List Datagram
  unfolding after_round
  run [] s = (goes_on, s, [])
  run (input ∷ inputs) s =
      let round = iterate input s in
      let rest = run inputs round.1 in
      if leb s.block param.block_count
      then after_round round.0 round.1 round.2 rest
      else (stops, s, [])
