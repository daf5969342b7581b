-- ===== src/Ring/Threads.antt =====
-- The network thread (client/command.c, command_get) and the disk thread (disk_thread) on one ring.
-- A call of ring.c is one step, since it holds the mutex; the copies into and out of a slot are
-- steps of their own, outside the mutex. A thread that sleeps on a condition variable goes on when
-- it is signalled, or for no reason, which POSIX allows; it then tests its flag again. `ring_pop`
-- after a peek finds data and needs no wait here (Progress.pop-returns).
pub mod Inv
pub mod Progress
use tsunami_udp.Prelude.{ℕ, ◌≡◌, List, [], ◌∷◌, ◌++◌, true, false}
use tsunami_udp.Ring.{
  Ring, Setup, Outcome, done, waits, peek, pop, confirm, next_slot, reserve_from, reserve, store,
  create, calls_succeed, wait_data, wait_space,
}

-- Where the network thread stands with the datagram `d` in hand; `parked` is in the wait of
-- `ring_reserve`.
pub data Network (A : Type 0) : Type 0 where
  idle : Network A
  parked : (next : ℕ) (d : A) → Network A
  copying : (slot : ℕ) (d : A) → Network A
  copied : (slot : ℕ) (d : A) → Network A

-- Where the disk thread stands; `dozing` is in the wait of `ring_peek`.
pub data Disk (A : Type 0) : Type 0 where
  resting : Disk A
  dozing : Disk A
  peeked : (slot : ℕ) → Disk A
  got : (d : A) → Disk A

-- `sent` and `taken` record the datagrams that the threads have put in and taken out.
pub record System (A : Type 0) : Type 0 where
  pub ring : Ring A
  pub net : Network A
  pub disk : Disk A
  pub sent : List A
  pub taken : List A

pub data Step {A : Type 0} (s t : System A) : Type 0 where
  request :
      {slot : ℕ} {r : Ring A} (d : A)
      → s.net ≡ idle
      → reserve calls_succeed s.ring ≡ done slot r
      → t ≡ record s { ring = r; net = copying slot d }
      → Step s t
  park :
      (d : A)
      → s.net ≡ idle
      → reserve calls_succeed s.ring ≡ waits
      → t ≡ record s { ring = wait_space s.ring; net = parked (next_slot s.ring) d }
      → Step s t
  wake :
      {next slot : ℕ} {d : A} {r : Ring A}
      → s.net ≡ parked next d
      → s.ring.space_sleeper ≡ false
      → reserve_from calls_succeed next s.ring ≡ done slot r
      → t ≡ record s { ring = r; net = copying slot d }
      → Step s t
  park_again :
      {next : ℕ} {d : A}
      → s.net ≡ parked next d
      → s.ring.space_sleeper ≡ false
      → reserve_from calls_succeed next s.ring ≡ waits
      → t ≡ record s { ring = wait_space s.ring }
      → Step s t
  wake_spuriously :
      {next : ℕ} {d : A}
      → s.net ≡ parked next d
      → t ≡ record s { ring = record s.ring { space_sleeper = false } }
      → Step s t
  -- memcpy has written part of the datagram, so that the slot holds anything
  copy_part :
      {slot : ℕ} {d : A} (x : A)
      → s.net ≡ copying slot d
      → t ≡ record s { ring = store slot x s.ring }
      → Step s t
  copy :
      {slot : ℕ} {d : A}
      → s.net ≡ copying slot d
      → t ≡ record s { ring = store slot d s.ring; net = copied slot d }
      → Step s t
  confirm_slot :
      {slot n : ℕ} {d : A} {r : Ring A}
      → s.net ≡ copied slot d
      → confirm calls_succeed s.ring ≡ done n r
      → t ≡ record s { ring = r; net = idle; sent = s.sent ++ d ∷ [] }
      → Step s t
  peek_slot :
      {slot : ℕ} {r : Ring A}
      → s.disk ≡ resting
      → peek calls_succeed s.ring ≡ done slot r
      → t ≡ record s { ring = r; disk = peeked slot }
      → Step s t
  doze :
      s.disk ≡ resting
      → peek calls_succeed s.ring ≡ waits
      → t ≡ record s { ring = wait_data s.ring; disk = dozing }
      → Step s t
  rouse :
      {slot : ℕ} {r : Ring A}
      → s.disk ≡ dozing
      → s.ring.data_sleeper ≡ false
      → peek calls_succeed s.ring ≡ done slot r
      → t ≡ record s { ring = r; disk = peeked slot }
      → Step s t
  doze_again :
      s.disk ≡ dozing
      → s.ring.data_sleeper ≡ false
      → peek calls_succeed s.ring ≡ waits
      → t ≡ record s { ring = wait_data s.ring }
      → Step s t
  rouse_spuriously :
      s.disk ≡ dozing → t ≡ record s { ring = record s.ring { data_sleeper = false } } → Step s t
  read_slot :
      {slot : ℕ}
      → s.disk ≡ peeked slot
      → t ≡ record s { disk = got (s.ring.datagrams slot) }
      → Step s t
  pop_slot :
      {n : ℕ} {d : A} {r : Ring A}
      → s.disk ≡ got d
      → pop calls_succeed s.ring ≡ done n r
      → t ≡ record s { ring = r; disk = resting; taken = s.taken ++ d ∷ [] }
      → Step s t

-- The states that the threads reach from a ring that `ring_create` made.
pub data Reach {A : Type 0} : System A → Type 0 where
  start :
      (setup : Setup) (garbage : ℕ → A) (size : ℕ) {r : Ring A} {s : System A}
      → create setup garbage size ≡ done r tt
      → s ≡ record { ring = r; net = idle; disk = resting; sent = []; taken = [] }
      → Reach s
  later : {s t : System A} → Reach s → Step s t → Reach t
