-- ===== src/Ring.antt =====
-- tsunami-udp/client/ring.c: the ring buffer between the network thread and the disk thread.
-- Each function runs under the ring's mutex, so a call is one step. The buffer is a function from
-- slots to datagrams. pthread and malloc are not modelled: an argument says which calls succeed. Of
-- the two condition variables the ring keeps whether a thread sleeps on them: pthread_cond_wait sets
-- the flag, pthread_cond_signal resets it.
pub mod Inv
pub mod Queue
pub mod Refine
pub mod Threads
mod Tests
use tsunami_udp.Prelude.{
  ℕ, zero, suc, ◌+◌, ◌-◌, ◌*◌, ◌%◌, ◌≡◌, Bool, true, false, not, ◌&&◌, List, [], ◌∷◌, ◌==◌, ltb,
  if◌then◌else◌,
}

-- MAX_BLOCKS_QUEUED
abbrev pub max_blocks_queued : ℕ
max_blocks_queued = 4096

-- `ring_buffer_t`. The counts are `int`s that stay at or above 0.
pub record Ring {ℓ} (A : Type ℓ) : Type ℓ where
  pub datagrams : ℕ → A
  pub datagram_size : ℕ
  pub base_data : ℕ
  pub count_data : ℕ
  pub count_reserved : ℕ
  pub data_ready : Bool
  pub space_ready : Bool
  pub data_sleeper : Bool  -- a thread waits for data_ready_cond
  pub space_sleeper : Bool  -- a thread waits for space_ready_cond

-- Which pthread calls of a function return 0.
pub record Pthread : Type 0 where
  pub lock : Bool
  pub wait : Bool
  pub signal : Bool
  pub unlock : Bool

-- How a call ends: it returns a value; it sleeps on its condition variable, the mutex released; it
-- returns NULL; `error` ends the process; or a count would fall below 0, where the model stops.
pub data Outcome {ℓ κ} (R : Type ℓ) (S : Type κ) : Type (ℓ ⊔ κ) where
  done : R → S → Outcome R S
  waits : Outcome R S
  null : Outcome R S
  exits : Outcome R S
  negative : Outcome R S

module _ {ℓ} {A : Type ℓ} where
  -- `pthread_cond_wait` puts the caller to sleep.
  unfoldable pub wait_data : Ring A → Ring A
  wait_data r = record r { data_sleeper = true }

  unfoldable pub wait_space : Ring A → Ring A
  wait_space r = record r { space_sleeper = true }

  -- `pthread_cond_signal` wakes the thread that sleeps, if there is one.
  unfoldable pub signal_data : Ring A → Ring A
  signal_data r = record r { data_sleeper = false }

  unfoldable pub signal_space : Ring A → Ring A
  signal_space r = record r { space_sleeper = false }

  -- `ring_full`
  unfoldable pub full : Pthread → Ring A → Outcome Bool (Ring A)
  full p r = if p.lock && p.unlock then done (not r.space_ready) r else exits

  -- `ring_cancel`
  unfoldable pub cancel : Pthread → Ring A → Outcome ℕ (Ring A)
  unfolding signal_space
  cancel p r =
      if not p.lock
      then exits
      else if r.count_reserved == 0
      then exits
      else if p.signal && p.unlock
      then done 0
          (signal_space (record r { count_reserved = r.count_reserved - 1; space_ready = true }))
      else exits

  -- `ring_confirm`
  unfoldable pub confirm : Pthread → Ring A → Outcome ℕ (Ring A)
  unfolding signal_data
  confirm p r =
      if not p.lock
      then exits
      else if r.count_reserved == 0
      then exits
      else if p.signal && p.unlock
      then done 0 (
          signal_data (record r {
            count_data = r.count_data + 1;
            count_reserved = r.count_reserved - 1;
            data_ready = true;
          }))
      else exits

  -- The slot at the head of the ring.
  unfoldable pub peek : Pthread → Ring A → Outcome ℕ (Ring A)
  peek p r =
      if not p.lock
      then null
      else if not r.data_ready
      then (if p.wait then waits else null)
      else if p.unlock
      then done r.base_data r
      else null

  popped : Ring A → Ring A
  popped r = record r {
    base_data = (r.base_data + 1) % max_blocks_queued;
    count_data = r.count_data - 1;
    data_ready = if r.count_data - 1 == 0 then false else r.data_ready;
    space_ready = true;
  }

  -- `ring_pop`
  unfoldable pub pop : Pthread → Ring A → Outcome ℕ (Ring A)
  unfolding popped signal_space
  pop p r =
      if not p.lock
      then exits
      else if not r.data_ready
      then (if p.wait then waits else exits)
      else if r.count_data == 0
      then negative
      else if p.signal && p.unlock
      then done 0 (signal_space (popped r))
      else exits

  -- The local variable `next` of `ring_reserve`.
  unfoldable pub next_slot : Ring A → ℕ
  next_slot r = (r.base_data + r.count_data + r.count_reserved) % max_blocks_queued

  reserved : ℕ → Ring A → Ring A
  reserved next r = record r {
    count_reserved = r.count_reserved + 1;
    space_ready = if (next + 1) % max_blocks_queued == r.base_data then false else r.space_ready;
  }

  -- `ring_reserve` from its wait on, also after a wake-up: `next` was computed before.
  unfoldable pub reserve_from : Pthread → ℕ → Ring A → Outcome ℕ (Ring A)
  unfolding reserved
  reserve_from p next r =
      if not r.space_ready
      then (if p.wait then waits else exits)
      else if ltb 0 r.count_reserved
      then exits
      else if p.unlock
      then done next (reserved next r)
      else exits

  -- `ring_reserve`
  unfoldable pub reserve : Pthread → Ring A → Outcome ℕ (Ring A)
  unfolding reserve_from next_slot
  reserve p r = if p.lock then reserve_from p (next_slot r) r else exits

  -- The caller's memcpy into the slot that `ring_reserve` gave it.
  unfoldable pub store : ℕ → A → Ring A → Ring A
  store slot d r = record r { datagrams = λ i. if i == slot then d else r.datagrams i }

  unfoldable pub list_from : (ℕ → A) → ℕ → ℕ → List A
  list_from slots index zero = []
  list_from slots index (suc n) = slots (index % max_blocks_queued) ∷ list_from slots (index + 1) n

  -- The block list that `ring_dump` prints.
  unfoldable pub dump : Ring A → List A
  unfolding list_from
  dump r = list_from r.datagrams r.base_data r.count_data

-- Which allocations and initialisations of `ring_create` succeed.
pub record Setup : Type 0 where
  pub calloc : Bool
  pub malloc : Bool
  pub mutex_init : Bool
  pub data_cond : Bool
  pub space_cond : Bool

-- `ring_create`; `garbage` is what malloc leaves in the buffer.
unfoldable pub create {ℓ} : {A : Type ℓ} → Setup → (ℕ → A) → ℕ → Outcome (Ring A) (Unit {0})
create s garbage block_size =
    if s.calloc && s.malloc && s.mutex_init && s.data_cond && s.space_cond
    then done
        (record {
          datagrams = garbage;
          datagram_size = 6 + block_size;
          base_data = 0;
          count_data = 0;
          count_reserved = 0;
          data_ready = false;
          space_ready = true;
          data_sleeper = false;
          space_sleeper = false;
        })
        tt
    else exits

-- All calls succeed.
abbrev pub calls_succeed : Pthread
calls_succeed = record { lock = true; wait = true; signal = true; unlock = true }
