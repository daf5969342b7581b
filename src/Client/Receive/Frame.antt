-- ===== src/Client/Receive/Frame.antt =====
-- The blocks of a transfer through the control logic of the receive loop.
use tsunami_udp.Prelude.{
  ℕ, zero, suc, ◌+◌, ◌-◌, ◌%◌, ◌≡◌, refl, Bool, ltb, ◌==◌, ◌&&◌, not, arith, if_both, List,
}
use tsunami_udp.Prelude.Words.{add32}
use tsunami_udp.Protocol.{Status, ok, failed, Retransmission, block_terminate}
use tsunami_udp.Client.Transfer.{Transfer}
use tsunami_udp.Client.Requests.{Control, request_retransmit, repeat_retransmit}
use tsunami_udp.Client.Receive.{
  Policy, Environment, Turn, Progress, goes_on, completes, skips, aborts, stuck, or_abort,
  range_next, request_range, requests_between, queue_missing, earliest_block, hop_to, repeat_anyway,
  after_queue, move_on, ask_again, at_end, on_the_wire, control_logic, update_stats, feedback_after,
  send_stats, finish,
}
use tsunami_udp.Client.Receive.Keep.{sequence_keeps}

-- The same file, with the same blocks received.
pub record SameFile (t t' : Transfer) : Type 0 where
  pub count : t'.block_count ≡ t.block_count
  pub received : t'.received ≡ t.received
  pub left : t'.blocks_left ≡ t.blocks_left

module _ (t : Transfer) where
  abbrev P : Transfer → Type 0
  P t' = SameFile t t'

  range_next-SameFile :
      (s : Status) (u : Transfer) (rest : Status × Transfer)
      → P u
      → P rest.1
      → P (range_next s u rest).1
  unfolding range_next
  range_next-SameFile ok u rest v w = w
  range_next-SameFile failed u rest v w = v

  request_range-SameFile :
      (rounds : ℕ) (realloc : Bool) (from : ℕ) (u : Transfer)
      → P u
      → P (request_range rounds realloc from u).1
  unfolding request_range request_retransmit
  request_range-SameFile zero realloc from u v = v
  request_range-SameFile (suc rounds) realloc from u v =
      let next : P (request_retransmit realloc u from).1 = record {
        count = v.count;
        received = v.received;
        left = v.left;
      } in
      range_next-SameFile (request_retransmit realloc u from).0
        (request_retransmit realloc u from).1
        (request_range rounds realloc (from + 1) (request_retransmit realloc u from).1) next
        (request_range-SameFile rounds realloc (from + 1) (request_retransmit realloc u from).1
          next)

  requests_between-SameFile :
      (realloc : Bool) (from to : ℕ) (u : Transfer)
      → P u
      → P (requests_between realloc from to u).transfer
  requests_between-SameFile realloc from to u v =
      unfold requests_between in
      go (request_range (to - from) realloc from u).0 (request_range (to - from) realloc from u).1
        (request_range-SameFile (to - from) realloc from u v)
    where
      go : (s : Status) (u' : Transfer) → P u' → P (or_abort s u').transfer
      go ok u' w = unfold or_abort in w
      go failed u' w = unfold or_abort in w

  pub repeat_retransmit-SameFile :
      (io : Control) (u : Transfer) → P u → P (repeat_retransmit io u).1
  unfolding repeat_retransmit
  repeat_retransmit-SameFile io u v = ground (arith, v.count, v.received, v.left)

  queue_missing-SameFile :
      (policy : Policy) (env : Environment) (block : ℕ) (u : Transfer)
      → P u
      → P (queue_missing policy env block u).transfer
  unfolding queue_missing hop_to
  queue_missing-SameFile policy env block u v =
      let Q = λ (p : Progress). P p.transfer in
      let e = earliest_block env block u in
      let semi = requests_between-SameFile env.realloc e block u v in
      if_both Q (not (ltb u.next_block block)) v (
        if_both Q policy.lossless (requests_between-SameFile env.realloc u.next_block block u v) (
          if_both Q (policy.losswindow_ms == 0)
            (record { count = v.count; received = v.received; left = v.left })
            (sequence_keeps P (requests_between env.realloc e block u) (hop_to e) semi
              (record { count = semi.count; received = semi.received; left = semi.left }))))

  ask_again-SameFile : (env : Environment) (u : Transfer) → P u → P (ask_again env u).transfer
  unfolding ask_again repeat_anyway
  ask_again-SameFile env u v =
      let asked =
        requests_between-SameFile env.realloc (add32 u.gapless_to_block 1) u.block_count u v in
      sequence_keeps P (requests_between env.realloc (add32 u.gapless_to_block 1) u.block_count u)
        (repeat_anyway env) asked
        (repeat_retransmit-SameFile env.control
          (requests_between env.realloc (add32 u.gapless_to_block 1) u.block_count u).transfer
          asked)

  after_queue-SameFile :
      (policy : Policy) (env : Environment) (block type : ℕ) (u : Transfer)
      → P u
      → P (after_queue policy env block type u).transfer
  unfolding after_queue at_end move_on
  after_queue-SameFile policy env block type u v =
      let Q = λ (p : Progress). P p.transfer in
      let w : P (move_on block type u) = record {
        count = v.count;
        received = v.received;
        left = v.left;
      } in
      let m = move_on block type u in
      if_both Q (not (type == block_terminate)) w (
        if_both Q (m.blocks_left == 0) w (
          if_both Q (not policy.lossless && m.retransmit.index_max == 0 && not m.restart_pending) w
            (ask_again-SameFile env m w)))

  pub control_logic-SameFile :
      (policy : Policy) (env : Environment) (block type : ℕ)
      → P (control_logic policy env block type t).transfer
  unfolding control_logic
  control_logic-SameFile policy env block type =
      let here : P t = record { count = refl; received = refl; left = refl } in
      let queued = queue_missing-SameFile policy env block t here in
      if_both (λ (p : Progress). P p.transfer) (on_the_wire block type t) here
        (sequence_keeps P (queue_missing policy env block t) (after_queue policy env block type)
          queued
          (after_queue-SameFile policy env block type (queue_missing policy env block t).transfer
            queued))

  send_stats-SameFile : (env : Environment) (u : Transfer) → P u → P (send_stats env u).transfer
  unfolding send_stats
  send_stats-SameFile env u v =
      if_both (λ (p : Progress). P p.transfer) (u.stats.total_blocks % 50 == 0 && env.due)
        (go (repeat_retransmit env.control u).0 (repeat_retransmit env.control u).1
          (repeat_retransmit env.control u).2 (repeat_retransmit-SameFile env.control u v))
        v
    where
      stats : (u' : Transfer) → P u' → P (update_stats env u').0
      stats u' w = unfold update_stats in ground (arith, w.count, w.received, w.left)

      go :
          (s : Status) (u' : Transfer) (sent : List Retransmission)
          → P u'
          → P (feedback_after env s u' sent).transfer
      go ok u' sent w = unfold feedback_after in stats u' w
      go failed u' sent w = unfold feedback_after in w

  pub finish-SameFile :
      (env : Environment) (p : Progress) → P p.transfer → P (finish env p).transfer
  unfolding finish
  finish-SameFile env p v = go p.turn
    where
      go : (turn : Turn) → P (finish env (record p { turn = turn })).transfer
      go goes_on = send_stats-SameFile env p.transfer v
      go skips = send_stats-SameFile env p.transfer v
      go completes = v
      go aborts = v
      go stuck = v
