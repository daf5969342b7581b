-- ===== src/Server/Transmit/Laws.antt =====
-- What the transmission loop sends, and the range of its block counter.
use tsunami_udp.Prelude.{
  ℕ, zero, suc, ◌+◌, ◌≤◌, ◌<◌, ◌^◌, ◌≡◌, refl, ap, ap₂, sym, ◌∙◌, Bool, true, false, not, ◌&&◌,
  List, [], ◌∷◌, ◌++◌, ◌==◌, if◌then◌else◌, arith, length, map, map-append, le→leb,
}
use tsunami_udp.Protocol.{Datagram, request_restart_type, block_original, block_terminate}
use tsunami_udp.Server.Datagram.{build_datagram}
use tsunami_udp.Server.Transmit.{
  Floats, Parameter, Input, goes_on, Server, accept_retransmit, handle_request, send_block,
  heartbeat, iterate, run, after_round, retransmission_size,
}

-- Nothing arrives from the client, sendto succeeds, and the heartbeat has not timed out.
abbrev pub quiet : Input → Bool
quiet i = not i.read_fails && i.arrived == 0 && i.send && not i.timed_out

abbrev pub all_quiet : List Input → Bool
all_quiet [] = true
all_quiet (i ∷ is) = quiet i && all_quiet is

-- Number and type of a datagram.
abbrev pub header : Datagram → ℕ × ℕ
header d = (d.block, d.type)

-- The blocks from `block + 1` on, the last block of the file marked as the end.
unfoldable pub stream : ℕ → ℕ → ℕ → List (ℕ × ℕ)
stream block_count block zero = []
stream block_count block (suc n) =
    (block + 1, if block + 1 == block_count then block_terminate else block_original)
    ∷ stream block_count (block + 1) n

module _ (fl : Floats) (param : Parameter) (u32 : param.block_count < 2 ^ 32) where
  abbrev S : Type 0
  S = Server fl param

  -- No iteration moves the block counter past the last block, so the test of the transmission loop
  -- stays true.
  pub iterate-block_le :
      (input : Input) (s : S)
      → s.block ≤ param.block_count
      → (iterate fl param input s).1.block ≤ param.block_count
  unfolding iterate accept_retransmit handle_request send_block heartbeat
  iterate-block_le input s h = ground arith

  -- One quiet iteration sends the next block.
  quiet-sends :
      (input : Input) (s : S)
      → quiet input ≡ true
      → s.retransmitlen ≡ 0
      → s.block < param.block_count
      → ((iterate fl param input s).0 ≡ goes_on)
        × ((iterate fl param input s).1.block ≡ s.block + 1)
        × ((iterate fl param input s).1.retransmitlen ≡ 0)
        × (map header (iterate fl param input s).2 ≡ stream param.block_count s.block 1)
  unfolding iterate accept_retransmit send_block heartbeat build_datagram stream
  quiet-sends input s q e h = ground arith

  restarted :
      (input : Input) (s : S)
      → input.read_fails ≡ false
      → s.retransmitlen + input.arrived ≡ retransmission_size
      → input.request.request_type ≡ request_restart_type
      → 1 ≤ input.request.block
      → input.request.block ≤ param.block_count
      → ((iterate fl param input s).0 ≡ goes_on)
        × ((iterate fl param input s).1.block ≡ input.request.block)
        × ((iterate fl param input s).1.retransmitlen ≡ 0)
        × ((iterate fl param input s).2 ≡ [])
  unfolding iterate handle_request accept_retransmit heartbeat
  restarted input s a b c d e = ground arith

  stream_step :
      (b n : ℕ)
      → stream param.block_count b (suc n)
        ≡ stream param.block_count b 1 ++ stream param.block_count (b + 1) n
  unfolding stream
  stream_step b n = refl

  -- In as many rounds as there are blocks left, or fewer, in which nothing arrives from the client,
  -- sendto works and the heartbeat has not timed out, with no part of a request pending and a block
  -- count below 2^32, the server sends the blocks after the current one in order, one a round, the
  -- last block of the file marked as the end, and goes on.
  pub run-stream :
      (inputs : List Input) (s : S)
      → all_quiet inputs ≡ true
      → s.retransmitlen ≡ 0
      → s.block + length inputs ≤ param.block_count
      → ((run fl param inputs s).0 ≡ goes_on)
        × (map header (run fl param inputs s).2 ≡ stream param.block_count s.block (length inputs))
  unfolding run after_round
  run-stream [] s q e h = (refl, unfold stream in refl)
  run-stream (i ∷ inputs) s q e h =
      let next = (iterate fl param i s).1 in
      let one = quiet-sends i s (ground arith) e (omega (arith, h)) in
      let rest = run-stream inputs next (ground arith) one.2 (omega (arith, h, one.1)) in
      rw (le→leb s.block param.block_count (omega (arith, h)), one.0)
        (
          rest.0,
          map-append header (iterate fl param i s).2 (run fl param inputs next).2
              ∙ ap₂ ◌++◌ one.3 (rest.1 ∙ ap (λ b. stream param.block_count b (length inputs)) one.1)
              ∙ sym (stream_step s.block (length inputs)),
        )

  -- After a request to restart at block `b` of the file, the stream goes on with block `b + 1`, in as
  -- many rounds as there are blocks after `b`, or fewer, in which nothing arrives, sendto works and the
  -- heartbeat has not timed out; the block count is below 2^32.
  pub run-restart :
      (input : Input) (inputs : List Input) (s : S)
      → input.read_fails ≡ false
      → s.retransmitlen + input.arrived ≡ retransmission_size
      → input.request.request_type ≡ request_restart_type
      → 1 ≤ input.request.block
      → input.request.block + length inputs ≤ param.block_count
      → s.block ≤ param.block_count
      → all_quiet inputs ≡ true
      → map header (run fl param (input ∷ inputs) s).2
        ≡ stream param.block_count input.request.block (length inputs)
  unfolding run after_round
  run-restart input inputs s a b c d e within q =
      let one = restarted input s a b c d (omega (arith, e)) in
      let rest = run-stream inputs (iterate fl param input s).1 q one.2 (omega (arith, e, one.1)) in
      rw (le→leb s.block param.block_count within, one.0, one.3)
        (rest.1 ∙ ap (λ k. stream param.block_count k (length inputs)) one.1)
