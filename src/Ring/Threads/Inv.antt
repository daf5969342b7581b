-- ===== src/Ring/Threads/Inv.antt =====
-- What holds in every state that the two threads reach.
use tsunami_udp.Prelude.{ℕ, ◌<◌, ◌≡◌, [], ◌∷◌, ◌++◌, true, false, arith, append_assoc}
use tsunami_udp.Ring.{
  Ring, done, peek, pop, confirm, next_slot, reserve_from, reserve, store, dump, list_from, Setup,
  create, wait_data, wait_space, signal_data, signal_space,
}
use tsunami_udp.Ring.Inv.{IsValid}
use tsunami_udp.Ring.Refine.{reserved_slot}
use tsunami_udp.Ring.Refine.Window.{list_from_pop, list_from_push, list_from_store_next}
use tsunami_udp.Ring.Threads.{
  Network, idle, parked, copying, copied, Disk, resting, dozing, peeked, got, System, Step, request,
  park, wake, park_again, wake_spuriously, doze, rouse, doze_again, rouse_spuriously, copy_part,
  copy, confirm_slot, peek_slot, read_slot, pop_slot, Reach, start, later,
}

-- What the place of the network thread says about the ring.
abbrev pub NetInv : {A : Type 0} → Ring A → Network A → Type 0
NetInv r idle = r.count_reserved ≡ 0
NetInv r (parked next d) = (r.count_reserved ≡ 0) × (next ≡ reserved_slot r)
NetInv r (copying slot d) = (r.count_reserved ≡ 1) × (slot ≡ reserved_slot r)
NetInv r (copied slot d) =
    (r.count_reserved ≡ 1) × (slot ≡ reserved_slot r) × (r.datagrams slot ≡ d)

-- A thread sleeps only while its flag is unset: no wake-up is lost.
abbrev pub SleepInv : {A : Type 0} → Ring A → Type 0
SleepInv r =
    (r.space_sleeper ≡ true → r.space_ready ≡ false)
    × (r.data_sleeper ≡ true → r.data_ready ≡ false)

-- What the place of the disk thread says about the ring.
abbrev pub DiskInv : {A : Type 0} → Ring A → Disk A → Type 0
DiskInv r resting = Unit {0}
DiskInv r dozing = Unit {0}
DiskInv r (peeked slot) = (0 < r.count_data) × (slot ≡ r.base_data)
DiskInv r (got d) = (0 < r.count_data) × (r.datagrams r.base_data ≡ d)

pub record Inv {A : Type 0} (s : System A) : Type 0 where
  pub valid : IsValid s.ring
  pub net : NetInv s.ring s.net
  pub disk : DiskInv s.ring s.disk
  pub asleep : SleepInv s.ring
  pub fifo : s.taken ++ dump s.ring ≡ s.sent

module _ {A : Type 0} {s t : System A} (inv : Inv s) where
  open inv use {valid}

  Step-IsValid : Step s t → IsValid t.ring
  unfolding reserve reserve_from next_slot store confirm peek pop wait_data wait_space signal_data
      signal_space
  Step-IsValid (request d at call e) = ground arith
  Step-IsValid (park d at call e) = ground arith
  Step-IsValid (wake at free call e) = ground arith
  Step-IsValid (park_again at free call e) = ground arith
  Step-IsValid (wake_spuriously at e) = ground arith
  Step-IsValid (copy_part x at e) = ground arith
  Step-IsValid (copy at e) = ground arith
  Step-IsValid (confirm_slot at call e) = ground arith
  Step-IsValid (peek_slot at call e) = ground arith
  Step-IsValid (doze at call e) = ground arith
  Step-IsValid (rouse at free call e) = ground arith
  Step-IsValid (doze_again at free call e) = ground arith
  Step-IsValid (rouse_spuriously at e) = ground arith
  Step-IsValid (read_slot at e) = ground arith
  Step-IsValid (pop_slot at call e) = ground arith

  Step-net : Step s t → NetInv t.ring t.net
  unfolding reserve reserve_from next_slot store confirm peek pop wait_data wait_space signal_data
      signal_space
  Step-net (request d at call e) = ground arith
  Step-net (park d at call e) = ground arith
  Step-net (wake at free call e) = ground arith
  Step-net (park_again at free call e) = ground arith
  Step-net (wake_spuriously at e) = ground arith
  Step-net (copy_part x at e) = ground arith
  Step-net (copy at e) = ground arith
  Step-net (confirm_slot at call e) = ground arith
  Step-net (peek_slot at call e) = ground arith
  Step-net (doze at call e) = ground arith
  Step-net (rouse at free call e) = ground arith
  Step-net (doze_again at free call e) = ground arith
  Step-net (rouse_spuriously at e) = ground arith
  Step-net (read_slot at e) = ground arith
  Step-net (pop_slot at call e) = ground arith

  Step-asleep : Step s t → SleepInv t.ring
  unfolding reserve reserve_from next_slot store confirm peek pop wait_data wait_space signal_data
      signal_space
  Step-asleep (request d at call e) = ground arith
  Step-asleep (park d at call e) = ground arith
  Step-asleep (wake at free call e) = ground arith
  Step-asleep (park_again at free call e) = ground arith
  Step-asleep (wake_spuriously at e) = ground arith
  Step-asleep (copy_part x at e) = ground arith
  Step-asleep (copy at e) = ground arith
  Step-asleep (confirm_slot at call e) = ground arith
  Step-asleep (peek_slot at call e) = ground arith
  Step-asleep (doze at call e) = ground arith
  Step-asleep (rouse at free call e) = ground arith
  Step-asleep (doze_again at free call e) = ground arith
  Step-asleep (rouse_spuriously at e) = ground arith
  Step-asleep (read_slot at e) = ground arith
  Step-asleep (pop_slot at call e) = ground arith

  Step-disk : Step s t → DiskInv t.ring t.disk
  unfolding reserve reserve_from next_slot store confirm peek pop wait_data wait_space signal_data
      signal_space
  Step-disk (request d at call e) = ground arith
  Step-disk (park d at call e) = ground arith
  Step-disk (wake at free call e) = ground arith
  Step-disk (park_again at free call e) = ground arith
  Step-disk (wake_spuriously at e) = ground arith
  Step-disk (copy_part x at e) = ground arith
  Step-disk (copy at e) = ground arith
  Step-disk (confirm_slot at call e) = ground arith
  Step-disk (peek_slot at call e) = ground arith
  Step-disk (doze at call e) = ground arith
  Step-disk (rouse at free call e) = ground arith
  Step-disk (doze_again at free call e) = ground arith
  Step-disk (rouse_spuriously at e) = ground arith
  Step-disk (read_slot at e) = ground arith
  Step-disk (pop_slot at call e) = ground arith

  Step-fifo : Step s t → t.taken ++ dump t.ring ≡ t.sent
  unfolding reserve reserve_from next_slot store confirm peek pop wait_data wait_space signal_data
      signal_space dump
  Step-fifo (request d at call e) = ground arith
  Step-fifo (park d at call e) = ground arith
  Step-fifo (wake at free call e) = ground arith
  Step-fifo (park_again at free call e) = ground arith
  Step-fifo (wake_spuriously at e) = ground arith
  Step-fifo (copy_part {slot} x at e) =
      ground
        (arith, list_from_store_next s.ring.datagrams x s.ring.base_data s.ring.count_data slot)
  Step-fifo (copy {slot} {d} at e) =
      ground
        (arith, list_from_store_next s.ring.datagrams d s.ring.base_data s.ring.count_data slot)
  Step-fifo (confirm_slot {slot} {d = d} at call e) = ground (
    arith,
    list_from_push s.ring.datagrams s.ring.base_data s.ring.count_data,
    append_assoc s.taken (dump s.ring) (d ∷ []),
  )
  Step-fifo (peek_slot at call e) = ground arith
  Step-fifo (doze at call e) = ground arith
  Step-fifo (rouse at free call e) = ground arith
  Step-fifo (doze_again at free call e) = ground arith
  Step-fifo (rouse_spuriously at e) = ground arith
  Step-fifo (read_slot at e) = ground arith
  Step-fifo (pop_slot {d = d} {r} at call e) = ground (
    arith,
    list_from_pop s.ring.datagrams s.ring.base_data s.ring.count_data,
    append_assoc s.taken (d ∷ []) (dump r),
  )

  -- Every step of either thread keeps the invariant.
  pub Step-Inv : Step s t → Inv t
  Step-Inv st = record {
    valid = Step-IsValid st;
    net = Step-net st;
    disk = Step-disk st;
    asleep = Step-asleep st;
    fifo = Step-fifo st;
  }

module _ {A : Type 0} where
  start-Inv :
      {r : Ring A} {s : System A} (setup : Setup) (garbage : ℕ → A) (size : ℕ)
      → create setup garbage size ≡ done r tt
      → s ≡ record { ring = r; net = idle; disk = resting; sent = []; taken = [] }
      → Inv s
  unfolding create dump list_from
  start-Inv setup garbage size e at = ground arith

  -- So it holds in every state that the threads reach.
  pub Reach-Inv : {s : System A} → Reach s → Inv s
  Reach-Inv (start setup garbage size e at) = start-Inv setup garbage size e at
  Reach-Inv (later r st) = Step-Inv (Reach-Inv r) st

  -- In every state that the two threads reach, the datagrams that the disk thread has taken, followed
  -- by those in the ring, are the datagrams that the network thread has put in, in order.
  pub taken-dump-eq-sent : {s : System A} → Reach s → s.taken ++ dump s.ring ≡ s.sent
  taken-dump-eq-sent r = (Reach-Inv r).fifo
