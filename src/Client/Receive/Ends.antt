-- ===== src/Client/Receive/Ends.antt =====
-- How the parts of the receive loop end.
use tsunami_udp.Prelude.{
  ℕ, ◌-◌, ◌%◌, ◌≡◌, refl, Bool, true, false, ltb, ◌==◌, ◌&&◌, ◌||◌, not, if_both, arith, List,
}
use tsunami_udp.Prelude.Words.{add32}
use tsunami_udp.Protocol.{Status, ok, failed, Retransmission}
use tsunami_udp.Client.Transfer.{Transfer}
use tsunami_udp.Client.Requests.{repeat_retransmit}
use tsunami_udp.Client.Receive.{
  Policy, Environment, Turn, Progress, ◌>>>◌, goes_on, completes, skips, aborts, stuck, or_abort,
  request_range, requests_between, queue_missing, earliest_block, hop_to, repeat_anyway,
  after_queue, move_on, ask_again, at_end, on_the_wire, control_logic, feedback_after, send_stats,
  finish,
}

-- It neither completes nor hangs in a ring call.
abbrev pub calm : Turn → Bool
calm completes = false
calm stuck = false
calm _ = true

-- If it completes a lossless transfer then no block is left.
abbrev pub ends_well : Bool → Turn → ℕ → Bool
ends_well lossless completes left = not lossless || left == 0
ends_well lossless stuck left = false
ends_well lossless _ left = true

module _ (lossless : Bool) where
  abbrev pub Well : Progress → Type 0
  Well p = ends_well lossless p.turn p.transfer.blocks_left ≡ true

  sequence_calm :
      (p : Progress) (f : Transfer → Progress)
      → calm p.turn ≡ true
      → calm (f p.transfer).turn ≡ true
      → calm (p >>> f).turn ≡ true
  sequence_calm p f c d = go p.turn c
    where
      go : (turn : Turn) → calm turn ≡ true → calm (record p { turn = turn } >>> f).turn ≡ true
      go goes_on e = d
      go skips e = e
      go completes e = e
      go aborts e = e
      go stuck e = e

  sequence-Well :
      (p : Progress) (f : Transfer → Progress)
      → calm p.turn ≡ true
      → Well (f p.transfer)
      → Well (p >>> f)
  sequence-Well p f c w = go p.turn c
    where
      go : (turn : Turn) → calm turn ≡ true → Well (record p { turn = turn } >>> f)
      go goes_on e = w
      go skips e = e
      go completes e = ground arith
      go aborts e = e
      go stuck e = e

  calm-Well : (p : Progress) → calm p.turn ≡ true → Well p
  calm-Well p c = go p.turn c
    where
      go : (turn : Turn) → calm turn ≡ true → Well (record p { turn = turn })
      go goes_on e = refl
      go skips e = refl
      go completes e = ground arith
      go aborts e = refl
      go stuck e = ground arith

requests_between-calm :
    (realloc : Bool) (from to : ℕ) (u : Transfer)
    → calm (requests_between realloc from to u).turn ≡ true
unfolding requests_between
requests_between-calm realloc from to u =
    go (request_range (to - from) realloc from u).0 (request_range (to - from) realloc from u).1
  where
    go : (s : Status) (u' : Transfer) → calm (or_abort s u').turn ≡ true
    go ok u' = unfold or_abort in refl
    go failed u' = unfold or_abort in refl

queue_missing-calm :
    (policy : Policy) (env : Environment) (block : ℕ) (u : Transfer)
    → calm (queue_missing policy env block u).turn ≡ true
unfolding queue_missing hop_to
queue_missing-calm policy env block u =
    let Q = λ (p : Progress). calm p.turn ≡ true in
    let e = earliest_block env block u in
    if_both Q (not (ltb u.next_block block)) refl (
      if_both Q policy.lossless (requests_between-calm env.realloc u.next_block block u) (
        if_both Q (policy.losswindow_ms == 0) refl (
          sequence_calm true (requests_between env.realloc e block u) (hop_to e)
            (requests_between-calm env.realloc e block u) refl)))

ask_again-calm : (env : Environment) (u : Transfer) → calm (ask_again env u).turn ≡ true
unfolding ask_again repeat_anyway
ask_again-calm env u =
    sequence_calm true (requests_between env.realloc (add32 u.gapless_to_block 1) u.block_count u)
      (repeat_anyway env)
      (requests_between-calm env.realloc (add32 u.gapless_to_block 1) u.block_count u) refl

at_end-Well :
    (policy : Policy) (env : Environment) (type : ℕ) (u : Transfer)
    → Well policy.lossless (at_end policy env type u)
unfolding at_end
at_end-Well policy env type u =
    ground (arith, calm-Well policy.lossless (ask_again env u) (ask_again-calm env u))

pub control_logic-Well :
    (policy : Policy) (env : Environment) (block type : ℕ) (u : Transfer)
    → Well policy.lossless (control_logic policy env block type u)
unfolding control_logic after_queue
control_logic-Well policy env block type u =
    if_both (Well policy.lossless) (on_the_wire block type u) refl (
      sequence-Well policy.lossless (queue_missing policy env block u)
        (after_queue policy env block type) (queue_missing-calm policy env block u)
        (at_end-Well policy env type
          (move_on block type (queue_missing policy env block u).transfer)))

send_stats-calm : (env : Environment) (u : Transfer) → calm (send_stats env u).turn ≡ true
unfolding send_stats
send_stats-calm env u =
    if_both (λ (p : Progress). calm p.turn ≡ true) (u.stats.total_blocks % 50 == 0 && env.due)
      (go (repeat_retransmit env.control u).0 (repeat_retransmit env.control u).1
        (repeat_retransmit env.control u).2)
      refl
  where
    go :
        (s : Status) (u' : Transfer) (sent : List Retransmission)
        → calm (feedback_after env s u' sent).turn ≡ true
    go ok u' sent = unfold feedback_after in refl
    go failed u' sent = unfold feedback_after in refl

pub finish-Well :
    (lossless : Bool) (env : Environment) (p : Progress)
    → Well lossless p
    → Well lossless (finish env p)
unfolding finish
finish-Well lossless env p w = go p.turn w
  where
    both : Well lossless (send_stats env p.transfer)
    both = calm-Well lossless (send_stats env p.transfer) (send_stats-calm env p.transfer)

    go :
        (turn : Turn)
        → ends_well lossless turn p.transfer.blocks_left ≡ true
        → Well lossless (finish env (record p { turn = turn }))
    go goes_on e = both
    go skips e = both
    go completes e = e
    go aborts e = e
    go stuck e = e
