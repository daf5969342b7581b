-- ===== src/Server/Transmit/Genuine.antt =====
-- The content of the datagrams that the transmission loop sends.
use tsunami_udp.Prelude.{
  ℕ, ◌+◌, ◌≤◌, ◌<◌, ◌^◌, ◌≡◌, refl, sym, ap, subst, ◌∙◌, Bool, true, not, ◌&&◌, ◌||◌, List, [], ◌∷◌,
  ◌++◌, ◌==◌, leb, ltb, min, if◌then◌else◌, arith, length, take, All, Bool-cases, inl, inr, if_both,
}
use tsunami_udp.Prelude.Words.{add32}
use tsunami_udp.Protocol.{
  Datagram, Retransmission, Status, request_retransmit_type, request_restart_type,
  request_error_rate_type, request_stop_type, block_retransmission, block_original, block_terminate,
}
use tsunami_udp.Server.Datagram.{Reader, build_datagram}
use tsunami_udp.Server.Datagram.Laws.{
  IsInStep, IsBuilt, block_of, build_datagram-IsBuilt, datagram_of,
}
use tsunami_udp.Server.Transmit.{
  Floats, Parameter, Input, Turn, goes_on, stops, exits, Server, Part, accept_retransmit,
  handle_request, send_block, heartbeat, iterate, run, after_round, total_loss, retransmission_size,
}

-- The payload starts with the block of the file.
abbrev pub Genuine : ℕ → List ℕ → Datagram → Type 0
Genuine block_size content d =
    let part = block_of block_size content d.block in take (length part) d.payload ≡ part

take-prefix : (xs ys : List ℕ) → take (length xs) (xs ++ ys) ≡ xs
take-prefix [] ys = refl
take-prefix (x ∷ xs) ys = ap (λ t. x ∷ t) (take-prefix xs ys)

-- A request for a block has a block number from 1 on.
abbrev pub legal : Retransmission → Bool
legal m = not (m.request_type == request_retransmit_type) || (leb 1 m.block && ltb m.block (2 ^ 32))

abbrev pub all_legal : List Input → Bool
all_legal [] = true
all_legal (i ∷ is) = legal i.request && all_legal is

module _ (fl : Floats) (param : Parameter) (content : List ℕ) (some : 1 ≤ param.block_count)
    (small : param.block_count + 1 < 2 ^ 32) where
  -- The state while the file is sent.
  pub record IsServing (s : Server fl param) : Type 0 where
    pub step : IsInStep param.block_size s.reader
    pub same_content : s.reader.content ≡ content
    pub within : s.block ≤ param.block_count

  Sends : List Datagram → Type 0
  Sends ds = All (Genuine param.block_size content) ds

  built-Genuine :
      (k type : ℕ) (f : Reader) (r : Datagram × Reader)
      → f.content ≡ content
      → 1 ≤ k
      → (lo : 1 ≤ k) (hi : k < 2 ^ 32) → IsBuilt param.block_size k type f lo hi r
      → Genuine param.block_size content r.0
  built-Genuine k type f r e one lo hi b =
      subst (Genuine param.block_size content) (sym b.datagram) (
        subst
          (λ c.
            take (length (block_of param.block_size c k))
              (datagram_of param.block_size k type f).payload
            ≡ block_of param.block_size c k)
          e (take-prefix (block_of param.block_size f.content k) _))

  block_sent :
      (k type : ℕ) (send : Bool) (s : Server fl param) (block : ℕ)
      → 1 ≤ k
      → k < 2 ^ 32
      → block ≤ param.block_count
      → IsServing s
      → let r = build_datagram param.block_size k type s.reader in
        IsServing (record s { reader = r.1; block = block }) × Sends (if send then r.0 ∷ [] else [])
  unfolding Sends
  block_sent k type send s block lo hi within v =
      let b = build_datagram-IsBuilt param.block_size k type s.reader lo hi v.step in
      (
        record { step = b.step; same_content = b.same_content ∙ v.same_content; within = within },
        if_both (λ (ds : List Datagram). Sends ds) send
            (built-Genuine k type s.reader _ v.same_content lo lo hi b, tt) tt,
      )

  -- A change of the other fields.
  same-IsServing :
      (s s' : Server fl param)
      → s'.reader ≡ s.reader
      → s'.block ≤ param.block_count
      → IsServing s
      → IsServing s'
  same-IsServing s s' e within v = record {
    step = subst (IsInStep param.block_size) (sym e) v.step;
    same_content = ap (λ r. r.content) e ∙ v.same_content;
    within = within;
  }

  abbrev Serves : Status × Server fl param × List Datagram → Type 0
  Serves r = IsServing r.1 × Sends r.2

  accept_retransmit-Serves :
      (m : Retransmission) (send : Bool) (s : Server fl param)
      → legal m ≡ true
      → IsServing s
      → Serves (accept_retransmit fl param m send s)
  unfolding accept_retransmit Sends
  accept_retransmit-Serves m send s e v =
      elim (Bool-cases (m.request_type == request_error_rate_type)) [
        | inl rate ↦ rw rate (same-IsServing s _ refl v.within v, tt)
        | inr no_rate ↦ elim (Bool-cases (m.request_type == request_restart_type)) [
          | inl restart ↦ elim (Bool-cases (m.block == 0 || ltb param.block_count m.block)) [
            | inl illegal ↦ rw (no_rate, restart, illegal) (v, tt)
            | inr inside ↦
                rw (no_rate, restart, inside) (same-IsServing s _ refl (ground arith) v, tt)
          ]
          | inr no_restart ↦ elim (Bool-cases (m.request_type == request_retransmit_type)) [
            | inl again ↦
                rw (no_rate, no_restart, again)
                  (block_sent m.block block_retransmission send s s.block (ground arith)
                    (ground arith) v.within v)
            | inr unknown ↦ rw (no_rate, no_restart, unknown) (v, tt)
          ]
        ]
      ]

  abbrev PartServes : Part fl param → Type 0
  PartServes p = IsServing p.server × Sends p.sent

  handle_request-Serves :
      (input : Input) (s : Server fl param)
      → legal input.request ≡ true
      → IsServing s
      → PartServes (handle_request fl param input s)
  unfolding handle_request Sends
  handle_request-Serves input s e v =
      let a = accept_retransmit-Serves input.request input.send s e v in
      if_both PartServes (input.request.request_type == request_stop_type) (v, tt)
        (
          same-IsServing (accept_retransmit fl param input.request input.send s).1 _ refl a.0.within
              a.0,
          a.1,
        )

  send_block-Serves :
      (input : Input) (s : Server fl param) → IsServing s → PartServes (send_block fl param input s)
  unfolding send_block
  send_block-Serves input s v =
      let k = min (add32 s.block 1) param.block_count in
      let type = if k == param.block_count then block_terminate else block_original in
      block_sent k type input.send s k (omega (arith, some, small, v.within)) (omega (arith, small))
        (omega arith) v

  heartbeat-IsServing :
      (input : Input) (s : Server fl param) → IsServing s → IsServing (heartbeat fl param input s).1
  unfolding heartbeat
  heartbeat-IsServing input s v =
      let P = λ (r : Turn × Server fl param). IsServing r.1 in
      let reset : Server fl param = record s { deadconnection_counter = 0 } in
      if_both P (not (ltb 2048 s.deadconnection_counter)) (same-IsServing s _ refl v.within v) (
        if_both P (not input.interval_passed) (same-IsServing s _ refl v.within v)
          (accept_retransmit-Serves (total_loss fl param) true reset refl
            (same-IsServing s reset refl v.within v)).0)

  abbrev RoundServes : Turn × Server fl param × List Datagram → Type 0
  RoundServes r = IsServing r.1 × Sends r.2

  -- After the branch of an iteration, the heartbeat check.
  rest-Serves :
      (input : Input) (p : Part fl param)
      → PartServes p
      → RoundServes (
          if p.skips_rest then (p.turn, p.server, p.sent) else (
            (heartbeat fl param input p.server).0,
            (heartbeat fl param input p.server).1,
            p.sent,
          ))
  rest-Serves input p v =
      if_both RoundServes p.skips_rest v (heartbeat-IsServing input p.server v.0, v.1)

  iterate-Serves :
      (input : Input) (s : Server fl param)
      → legal input.request ≡ true
      → IsServing s
      → RoundServes (iterate fl param input s)
  unfolding iterate Sends
  iterate-Serves input s e v =
      let len = s.retransmitlen + input.arrived in
      let s1 : Server fl param = record s { retransmitlen = len } in
      let v1 = same-IsServing s s1 refl v.within v in
      let s0 : Server fl param = record s1 { retransmitlen = 0 } in
      if_both RoundServes input.read_fails (v, tt)
        (rest-Serves input _ (
          if_both PartServes (len == retransmission_size) (handle_request-Serves input s1 e v1) (
            if_both PartServes (ltb len retransmission_size) (send_block-Serves input s1 v1)
              (same-IsServing s s0 refl v.within v, tt))))

  Sends-append : (xs ys : List Datagram) → Sends xs → Sends ys → Sends (xs ++ ys)
  unfolding Sends
  Sends-append [] ys v w = w
  Sends-append (d ∷ xs) ys v w = (v.0, Sends-append xs ys v.1 w)

  after_round-Serves :
      (turn : Turn) (s : Server fl param) (sent : List Datagram)
      (rest : Turn × Server fl param × List Datagram)
      → IsServing s
      → Sends sent
      → RoundServes rest
      → RoundServes (after_round fl param turn s sent rest)
  unfolding after_round
  after_round-Serves goes_on s sent rest v w r = (r.0, Sends-append sent rest.2 w r.1)
  after_round-Serves stops s sent rest v w r = (v, w)
  after_round-Serves exits s sent rest v w r = (v, w)

  run-Serves :
      (inputs : List Input) (s : Server fl param)
      → all_legal inputs ≡ true
      → IsServing s
      → RoundServes (run fl param inputs s)
  unfolding run Sends
  run-Serves [] s e v = (v, tt)
  run-Serves (i ∷ inputs) s e v =
      let one = iterate-Serves i s (ground arith) v in
      let rest = run-Serves inputs (iterate fl param i s).1 (ground arith) one.0 in
      if_both RoundServes (leb s.block param.block_count)
        (after_round-Serves (iterate fl param i s).0 (iterate fl param i s).1
          (iterate fl param i s).2 (run fl param inputs (iterate fl param i s).1) one.0 one.1 rest)
        (v, tt)

  -- For a file of at least 1 and fewer than 2^32 - 1 blocks, from a state in which the reader is in
  -- step with this file (its last_block is the block at the position of the file, so that nothing is
  -- left of a file before) and the block counter is not past the end: however requests and blocks of
  -- the stream interleave, every datagram that the server sends carries the bytes of the block that
  -- its number names, as long as the requests for single blocks name a block from 1 on.
  pub run-Genuine :
      (inputs : List Input) (s : Server fl param)
      → all_legal inputs ≡ true
      → IsServing s
      → All (Genuine param.block_size content) (run fl param inputs s).2
  unfolding Sends
  run-Genuine inputs s e v = (run-Serves inputs s e v).1
