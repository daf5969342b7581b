-- ===== src/Client/Receive/Keep.antt =====
-- The invariant of the receive loop of client/command.c, through its parts.
use tsunami_udp.Prelude.{
  ℕ, zero, suc, ◌+◌, ◌-◌, ◌<◌, ◌^◌, ◌≡◌, refl, Bool, true, false, arith, Bool-cases, inl, inr, ◌&&◌,
  ◌==◌, ◌%◌, List,
}
use tsunami_udp.Protocol.{Status, ok, failed, Retransmission}
use tsunami_udp.Bitmap.{got_block}
use tsunami_udp.Bitmap.Laws.{IsBitmap}
use tsunami_udp.Bitmap.Count.{missing, IsGapless}
use tsunami_udp.Client.Transfer.{Transfer}
use tsunami_udp.Client.Requests.{Control, request_retransmit, repeat_retransmit, compacted}
use tsunami_udp.Client.Requests.Table.{IsTable, request-IsTable}
use tsunami_udp.Client.Requests.Compact.{IsPurged, compacted-IsPurged}
use tsunami_udp.Client.Receive.{
  Environment, Turn, goes_on, skips, completes, aborts, stuck, Progress, ◌>>>◌, or_abort,
  count_arrival, request_range, range_next, requests_between, update_stats, feedback_after,
  send_stats, finish,
}

-- In a lossless transfer all blocks up to the gapless index are there.
abbrev pub GaplessIf : Bool → ℕ → (ℕ → Bool) → ℕ → Type 0
GaplessIf true block_count got gapless = IsGapless block_count got gapless
GaplessIf false block_count got gapless = Unit {0}

pub record IsSound (lossless : Bool) (t : Transfer) : Type 0 where
  pub small : t.block_count + 1 < 2 ^ 32
  pub bitmap : IsBitmap t.block_count t.received
  pub left : t.blocks_left ≡ missing t.block_count (got_block t.block_count t.received)
  pub table : IsTable t.retransmit
  pub gapless :
      GaplessIf lossless t.block_count (got_block t.block_count t.received) t.gapless_to_block

-- The rule for a sequence of two parts.
pub sequence_keeps :
    (P : Transfer → Type 0) (p : Progress) (f : Transfer → Progress)
    → P p.transfer
    → P (f p.transfer).transfer
    → P (p >>> f).transfer
sequence_keeps P p f first second = go p.turn
  where
    go : (turn : Turn) → P (record p { turn = turn } >>> f).transfer
    go goes_on = second
    go skips = first
    go completes = first
    go aborts = first
    go stuck = first

-- A state with the same blocks and the same gapless index.
record SameBlocks (t t' : Transfer) : Type 0 where
  count : t'.block_count ≡ t.block_count
  received : t'.received ≡ t.received
  left : t'.blocks_left ≡ t.blocks_left
  gapless : t'.gapless_to_block ≡ t.gapless_to_block

module _ (lossless : Bool) where
  same-IsSound :
      {t t' : Transfer}
      → SameBlocks t t'
      → IsTable t'.retransmit
      → IsSound lossless t
      → IsSound lossless t'
  same-IsSound {t} {t'} e table v = record {
    small = omega (arith, e.count, v.small);
    bitmap = rw (e.count, e.received) v.bitmap;
    left = rw (e.count, e.received, e.left) v.left;
    table = table;
    gapless = rw (e.count, e.received, e.gapless) v.gapless;
  }

  request_retransmit-IsSound :
      (realloc : Bool) (t : Transfer) (block : ℕ)
      → IsSound lossless t
      → IsSound lossless (request_retransmit realloc t block).1
  unfolding request_retransmit
  request_retransmit-IsSound realloc t block v =
      same-IsSound (record { count = refl; received = refl; left = refl; gapless = refl })
        (request-IsTable realloc v.table block (got_block t.block_count t.received block)).0 v

  range_next-IsSound :
      (s : Status) (t : Transfer) (rest : Status × Transfer)
      → IsSound lossless t
      → IsSound lossless rest.1
      → IsSound lossless (range_next s t rest).1
  unfolding range_next
  range_next-IsSound ok t rest v w = w
  range_next-IsSound failed t rest v w = v

  request_range-IsSound :
      (rounds : ℕ) (realloc : Bool) (from : ℕ) (t : Transfer)
      → IsSound lossless t
      → IsSound lossless (request_range rounds realloc from t).1
  unfolding request_range
  request_range-IsSound zero realloc from t v = v
  request_range-IsSound (suc rounds) realloc from t v =
      let next = request_retransmit-IsSound realloc t from v in
      range_next-IsSound (request_retransmit realloc t from).0 (request_retransmit realloc t from).1
        (request_range rounds realloc (from + 1) (request_retransmit realloc t from).1) next
        (request_range-IsSound rounds realloc (from + 1) (request_retransmit realloc t from).1 next)

  or_abort-IsSound :
      (s : Status) (t : Transfer) → IsSound lossless t → IsSound lossless (or_abort s t).transfer
  unfolding or_abort
  or_abort-IsSound ok t v = v
  or_abort-IsSound failed t v = v

  pub requests_between-IsSound :
      (realloc : Bool) (from to : ℕ) (t : Transfer)
      → IsSound lossless t
      → IsSound lossless (requests_between realloc from to t).transfer
  requests_between-IsSound realloc from to t v =
      unfold requests_between in
      or_abort-IsSound (request_range (to - from) realloc from t).0
        (request_range (to - from) realloc from t).1
        (request_range-IsSound (to - from) realloc from t v)

  repeat_retransmit-same : (io : Control) (t : Transfer) → SameBlocks t (repeat_retransmit io t).1
  unfolding repeat_retransmit
  repeat_retransmit-same io t = ground arith

  repeat_retransmit-IsTable :
      (io : Control) (t : Transfer)
      → IsTable t.retransmit
      → IsTable (repeat_retransmit io t).1.retransmit
  unfolding repeat_retransmit
  repeat_retransmit-IsTable io t v = ground (arith, purge.same_length, purge.shrinks)
    where
      purge :
          IsPurged
            (got_block t.block_count t.received)
            t.retransmit
            (compacted (got_block t.block_count t.received) t.retransmit)
      purge =
          compacted-IsPurged (got_block t.block_count t.received) t.retransmit
            (omega (arith, v.size, v.used))

  pub repeat_retransmit-IsSound :
      (io : Control) (t : Transfer)
      → IsSound lossless t
      → IsSound lossless (repeat_retransmit io t).1
  repeat_retransmit-IsSound io t v =
      same-IsSound (repeat_retransmit-same io t) (repeat_retransmit-IsTable io t v.table) v

  pub count_arrival-IsSound :
      (type : ℕ) (t : Transfer) → IsSound lossless t → IsSound lossless (count_arrival type t)
  unfolding count_arrival
  count_arrival-IsSound type t v =
      same-IsSound (record { count = refl; received = refl; left = refl; gapless = refl }) v.table v

  update_stats-IsSound :
      (env : Environment) (t : Transfer)
      → IsSound lossless t
      → IsSound lossless (update_stats env t).0
  unfolding update_stats
  update_stats-IsSound env t v = same-IsSound (ground arith) (ground (arith, v.table)) v

  feedback_after-IsSound :
      (env : Environment) (s : Status) (t : Transfer) (sent : List Retransmission)
      → IsSound lossless t
      → IsSound lossless (feedback_after env s t sent).transfer
  unfolding feedback_after
  feedback_after-IsSound env ok t sent v = update_stats-IsSound env t v
  feedback_after-IsSound env failed t sent v = v

  send_stats-IsSound :
      (env : Environment) (t : Transfer)
      → IsSound lossless t
      → IsSound lossless (send_stats env t).transfer
  unfolding send_stats
  send_stats-IsSound env t v = elim (Bool-cases (t.stats.total_blocks % 50 == 0 && env.due)) [
    | inl now ↦ rw now (
        feedback_after-IsSound env (repeat_retransmit env.control t).0
          (repeat_retransmit env.control t).1 (repeat_retransmit env.control t).2
          (repeat_retransmit-IsSound env.control t v))
    | inr later ↦ rw later v
  ]

  pub finish-IsSound :
      (env : Environment) (p : Progress)
      → IsSound lossless p.transfer
      → IsSound lossless (finish env p).transfer
  unfolding finish
  finish-IsSound env p v = go p.turn
    where
      go : (turn : Turn) → IsSound lossless (finish env (record p { turn = turn })).transfer
      go goes_on = send_stats-IsSound env p.transfer v
      go skips = send_stats-IsSound env p.transfer v
      go completes = v
      go aborts = v
      go stuck = v
