-- ===== src/Ring/Threads/Progress.antt =====
-- What the next call of each thread does: neither thread ends the process, the two never wait for
-- one another, and no wake-up is lost.
use tsunami_udp.Prelude.{ℕ, ◌≡◌, Bool, true, false, not, refl, ◌&&◌, ◌||◌, arith}
use tsunami_udp.Ring.{
  Ring, Outcome, done, waits, max_blocks_queued, peek, pop, confirm, reserve_from, reserve,
  calls_succeed,
}
use tsunami_udp.Ring.Threads.{
  Network, idle, parked, copying, copied, Disk, resting, dozing, peeked, got, System, Reach,
}
use tsunami_udp.Ring.Threads.Inv.{Inv, NetInv, DiskInv, SleepInv, Reach-Inv}
use tsunami_udp.Ring.Inv.{IsValid}

-- The call of ring.c that the network thread makes next; a copy makes none and goes on.
abbrev pub net_call : {A : Type 0} → Ring A → Network A → Outcome ℕ (Ring A)
net_call r idle = reserve calls_succeed r
net_call r (parked next d) = reserve_from calls_succeed next r
net_call r (copying slot d) = done slot r
net_call r (copied slot d) = confirm calls_succeed r

-- The call of ring.c that the disk thread makes next.
abbrev pub disk_call : {A : Type 0} → Ring A → Disk A → Outcome ℕ (Ring A)
disk_call r resting = peek calls_succeed r
disk_call r dozing = peek calls_succeed r
disk_call r (peeked slot) = done slot r
disk_call r (got d) = pop calls_succeed r

abbrev pub returns : {A : Type 0} → Outcome ℕ (Ring A) → Bool
returns (done n r) = true
returns _ = false

abbrev pub sleeps : {A : Type 0} → Outcome ℕ (Ring A) → Bool
sleeps waits = true
sleeps _ = false

-- The thread sleeps on its condition variable, and makes no step until it is signalled.
abbrev pub net_asleep : {A : Type 0} → Ring A → Network A → Bool
net_asleep r (parked next d) = r.space_sleeper
net_asleep r _ = false

abbrev pub disk_asleep : {A : Type 0} → Ring A → Disk A → Bool
disk_asleep r dozing = r.data_sleeper
disk_asleep r _ = false

module _ {A : Type 0} (r : Ring A) (v : IsValid r) where
  net_returns_or_sleeps :
      (n : Network A) → NetInv r n → (returns (net_call r n) || sleeps (net_call r n)) ≡ true
  unfolding reserve reserve_from confirm
  net_returns_or_sleeps idle h = ground arith
  net_returns_or_sleeps (parked next d) h = ground arith
  net_returns_or_sleeps (copying slot d) h = ground arith
  net_returns_or_sleeps (copied slot d) h = ground arith

  disk_returns_or_sleeps :
      (k : Disk A) → DiskInv r k → (returns (disk_call r k) || sleeps (disk_call r k)) ≡ true
  unfolding peek pop
  disk_returns_or_sleeps resting h = ground arith
  disk_returns_or_sleeps dozing h = ground arith
  disk_returns_or_sleeps (peeked slot) h = ground arith
  disk_returns_or_sleeps (got d) h = ground arith

  net_sleeps_full :
      (n : Network A) → NetInv r n → sleeps (net_call r n) ≡ true → r.count_data ≡ max_blocks_queued
  unfolding reserve reserve_from confirm
  net_sleeps_full idle h e = ground arith
  net_sleeps_full (parked next d) h e = ground arith
  net_sleeps_full (copying slot d) h e = ground arith
  net_sleeps_full (copied slot d) h e = ground arith

  disk_sleeps_empty : (k : Disk A) → DiskInv r k → sleeps (disk_call r k) ≡ true → r.count_data ≡ 0
  unfolding peek pop
  disk_sleeps_empty resting h e = ground arith
  disk_sleeps_empty dozing h e = ground arith
  disk_sleeps_empty (peeked slot) h e = ground arith
  disk_sleeps_empty (got d) h e = ground arith

  net_asleep-sleeps :
      (n : Network A) → SleepInv r → (not (net_asleep r n) || sleeps (net_call r n)) ≡ true
  unfolding reserve_from
  net_asleep-sleeps idle h = refl
  net_asleep-sleeps (parked next d) h = ground arith
  net_asleep-sleeps (copying slot d) h = refl
  net_asleep-sleeps (copied slot d) h = refl

  disk_asleep-sleeps :
      (k : Disk A) → SleepInv r → (not (disk_asleep r k) || sleeps (disk_call r k)) ≡ true
  unfolding peek
  disk_asleep-sleeps resting h = refl
  disk_asleep-sleeps dozing h = ground arith
  disk_asleep-sleeps (peeked slot) h = refl
  disk_asleep-sleeps (got d) h = refl

  -- `ring_pop` never waits.
  pop-returns : (d : A) → DiskInv r (got d) → returns (pop calls_succeed r) ≡ true
  unfolding pop
  pop-returns d h = ground arith

-- In every state that the two threads reach: the next ring call of each either returns or waits on
-- its condition variable, so neither ends the process or takes a count below 0; the two calls do not
-- both wait; and a thread that sleeps on its condition variable is one whose call would still wait,
-- so no wake-up is lost. Then one of the threads is awake, and its call returns.
pub no_deadlock :
    {A : Type 0} {s : System A}
    → Reach s
    → ((returns (net_call s.ring s.net) || sleeps (net_call s.ring s.net)) ≡ true)
      × ((returns (disk_call s.ring s.disk) || sleeps (disk_call s.ring s.disk)) ≡ true)
      × ((sleeps (net_call s.ring s.net) && sleeps (disk_call s.ring s.disk)) ≡ false)
      × ((not (net_asleep s.ring s.net) || sleeps (net_call s.ring s.net)) ≡ true)
      × ((not (disk_asleep s.ring s.disk) || sleeps (disk_call s.ring s.disk)) ≡ true)
no_deadlock {s} reached = (
  net_returns_or_sleeps s.ring inv.valid s.net inv.net,
  disk_returns_or_sleeps s.ring inv.valid s.disk inv.disk,
  ground (
    arith,
    net_sleeps_full s.ring inv.valid s.net inv.net,
    disk_sleeps_empty s.ring inv.valid s.disk inv.disk,
  ),
  net_asleep-sleeps s.ring inv.valid s.net inv.asleep,
  disk_asleep-sleeps s.ring inv.valid s.disk inv.asleep,
)
  where
    inv : Inv s
    inv = Reach-Inv reached
