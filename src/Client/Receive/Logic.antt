-- ===== src/Client/Receive/Logic.antt =====
-- The invariant of the receive loop through the control logic.
use tsunami_udp.Prelude.{
  ℕ, ◌≤◌, ◌≡◌, Bool, true, false, ltb, ◌==◌, ◌||◌, ◌&&◌, not, arith, Bool-cases, inl, inr, if_both,
  List,
}
use tsunami_udp.Prelude.Words.{add32}
use tsunami_udp.Protocol.{block_terminate}
use tsunami_udp.Bitmap.{got_block, advance}
use tsunami_udp.Bitmap.Laws.{got_block-mark, mark-IsBitmap}
use tsunami_udp.Bitmap.Count.{missing-mark, IsGapless, advance-IsGapless}
use tsunami_udp.Client.Transfer.{Transfer}
use tsunami_udp.Client.Receive.{
  Policy, Environment, Progress, accept, requests_between, queue_missing, earliest_block, hop_to,
  repeat_anyway, after_queue, move_on, ask_again, at_end, on_the_wire, control_logic,
}
use tsunami_udp.Client.Receive.Keep.{
  GaplessIf, IsSound, sequence_keeps, requests_between-IsSound, repeat_retransmit-IsSound,
}

-- A block that is not received is a block of the file.
pub got_block-le :
    (block_count n : ℕ) (r : List ℕ) → got_block block_count r n ≡ false → n ≤ block_count
unfolding got_block
got_block-le block_count n r e = ground arith

IsGapless-mark :
    (block_count n g : ℕ) (f f' : ℕ → Bool)
    → ((k : ℕ) → f' k ≡ (n == k || f k))
    → IsGapless block_count f g
    → IsGapless block_count f' g
IsGapless-mark block_count n g f f' e v = record {
  within = v.within;
  full = λ k lo hi. ground (arith, e k, v.full k lo hi);
}

GaplessIf-mark :
    (lossless : Bool) (block_count n g : ℕ) (f f' : ℕ → Bool)
    → ((k : ℕ) → f' k ≡ (n == k || f k))
    → GaplessIf lossless block_count f g
    → GaplessIf lossless block_count f' g
GaplessIf-mark true block_count n g f f' e v = IsGapless-mark block_count n g f f' e v
GaplessIf-mark false block_count n g f f' e v = tt

pub accept-IsSound :
    (lossless : Bool) (block : ℕ) (t : Transfer)
    → 1 ≤ block
    → got_block t.block_count t.received block ≡ false
    → IsSound lossless t
    → IsSound lossless (accept block t)
unfolding accept
accept-IsSound lossless block t lo new v =
    let hi = got_block-le t.block_count block t.received new in
    let fewer = missing-mark t.block_count block t.received v.bitmap lo hi new in
    record {
      small = v.small;
      bitmap = mark-IsBitmap t.block_count block t.received v.bitmap hi;
      left = ground (arith, v.left, fewer);
      table = v.table;
      gapless =
          GaplessIf-mark lossless t.block_count block t.gapless_to_block _ _
            (got_block-mark t.block_count block t.received v.bitmap hi) v.gapless;
    }

set_gapless-IsSound :
    (t : Transfer) (next gapless : ℕ)
    → IsSound false t
    → IsSound false (record t { next_block = next; gapless_to_block = gapless })
set_gapless-IsSound t next gapless v = record {
  small = v.small;
  bitmap = v.bitmap;
  left = v.left;
  table = v.table;
  gapless = tt;
}

queue_missing-IsSound :
    (lossless : Bool) (window_ms : ℕ) (env : Environment) (block : ℕ) (t : Transfer)
    → IsSound lossless t
    → IsSound lossless
        (queue_missing
          (record { lossless = lossless; losswindow_ms = window_ms })
          env
          block
          t).transfer
unfolding queue_missing hop_to
queue_missing-IsSound true window_ms env block t v = elim (Bool-cases (ltb t.next_block block)) [
  | inl ahead ↦ rw ahead (requests_between-IsSound true env.realloc t.next_block block t v)
  | inr behind ↦ rw behind v
]
queue_missing-IsSound false window_ms env block t v = elim (Bool-cases (ltb t.next_block block)) [
  | inl ahead ↦ elim (Bool-cases (window_ms == 0)) [
    | inl none_ ↦ rw (ahead, none_) (set_gapless-IsSound t t.next_block block v)
    | inr some_ ↦
        rw (ahead, some_)
          (sequence_keeps (IsSound false)
            (requests_between env.realloc (earliest_block env block t) block t) (hop_to e) semi
            (set_gapless-IsSound p.transfer e e semi))
  ]
  | inr behind ↦ rw behind v
]
  where
    e : ℕ
    e = earliest_block env block t

    p : Progress
    p = requests_between env.realloc e block t

    semi : IsSound false p.transfer
    semi = requests_between-IsSound false env.realloc (earliest_block env block t) block t v

GaplessIf-advance :
    (lossless : Bool) (block_count g : ℕ) (r : List ℕ)
    → GaplessIf lossless block_count (got_block block_count r) g
    → GaplessIf lossless block_count (got_block block_count r) (advance block_count r g)
GaplessIf-advance true block_count g r v = (advance-IsGapless block_count r g v).0
GaplessIf-advance false block_count g r v = tt

pub move_on-IsSound :
    (lossless : Bool) (block type : ℕ) (t : Transfer)
    → IsSound lossless t
    → IsSound lossless (move_on block type t)
unfolding move_on
move_on-IsSound lossless block type t v = record {
  small = v.small;
  bitmap = v.bitmap;
  left = v.left;
  table = v.table;
  gapless = GaplessIf-advance lossless t.block_count t.gapless_to_block t.received v.gapless;
}

ask_again-IsSound :
    (lossless : Bool) (env : Environment) (t : Transfer)
    → IsSound lossless t
    → IsSound lossless (ask_again env t).transfer
unfolding ask_again repeat_anyway
ask_again-IsSound lossless env t v =
    sequence_keeps (IsSound lossless)
      (requests_between env.realloc (add32 t.gapless_to_block 1) t.block_count t)
      (repeat_anyway env) requested (repeat_retransmit-IsSound lossless env.control _ requested)
  where
    requested :
        IsSound lossless
          (requests_between env.realloc (add32 t.gapless_to_block 1) t.block_count t).transfer
    requested =
        requests_between-IsSound lossless env.realloc (add32 t.gapless_to_block 1) t.block_count t v

at_end-IsSound :
    (lossless : Bool) (policy : Policy) (env : Environment) (type : ℕ) (t : Transfer)
    → IsSound lossless t
    → IsSound lossless (at_end policy env type t).transfer
unfolding at_end
at_end-IsSound lossless policy env type t v =
    let P = λ (p : Progress). IsSound lossless p.transfer in
    if_both P (not (type == block_terminate)) v (
      if_both P (t.blocks_left == 0) v (
        if_both P (not policy.lossless && t.retransmit.index_max == 0 && not t.restart_pending) v
          (ask_again-IsSound lossless env t v)))

-- The control logic keeps the invariant of the transfer, lossless or not, on every block number and
-- type: the count of the blocks left, the bitfield, the table of requests, and in a lossless transfer
-- that all blocks up to the gapless index are there.
pub control_logic-IsSound :
    (policy : Policy) (env : Environment) (block type : ℕ) (t : Transfer)
    → IsSound policy.lossless t
    → IsSound policy.lossless (control_logic policy env block type t).transfer
unfolding control_logic after_queue
control_logic-IsSound policy env block type t v = elim (Bool-cases (on_the_wire block type t)) [
  | inl wire ↦ rw wire v
  | inr on ↦ rw on (
      sequence_keeps (IsSound policy.lossless) (queue_missing policy env block t)
        (after_queue policy env block type) queued
        (at_end-IsSound policy.lossless policy env type _
          (move_on-IsSound policy.lossless block type _ queued)))
]
  where
    queued : IsSound policy.lossless (queue_missing policy env block t).transfer
    queued = queue_missing-IsSound policy.lossless policy.losswindow_ms env block t v
