-- ===== src/Ring/Tests.antt =====
-- Concrete rings and runs for the theorems on the ring.
use tsunami_udp.Prelude.{
  ℕ, ◌≡◌, refl, true, false, not, ◌&&◌, ◌||◌, List, [], ◌∷◌, ◌++◌, some, none,
}
use tsunami_udp.Ring.{
  Ring, Setup, create, done, waits, exits, reserve, reserve_from, next_slot, dump, peek, wait_data,
}
use tsunami_udp.Ring.Inv.{create-IsValid}
use tsunami_udp.Ring.Queue
use tsunami_udp.Ring.Queue.{Call, fill, confirms, cancels, peeks, pops}
use tsunami_udp.Ring.Refine.{queue_of, run, run_refines}
use tsunami_udp.Ring.Threads.{
  idle, copying, resting, System, request, Reach, start, later, dozing, doze,
}
use tsunami_udp.Ring.Threads.Inv.{taken-dump-eq-sent}
use tsunami_udp.Ring.Threads.Progress.{
  no_deadlock, net_asleep, disk_asleep, net_call, disk_call, returns, sleeps,
}

abbrev all_allocated : Setup
all_allocated = record {
  calloc = true;
  malloc = true;
  mutex_init = true;
  data_cond = true;
  space_cond = true;
}

abbrev empty : Ring ℕ
empty = record {
  datagrams = λ i. 0;
  datagram_size = 7;
  base_data = 0;
  count_data = 0;
  count_reserved = 0;
  data_ready = false;
  space_ready = true;
  data_sleeper = false;
  space_sleeper = false;
}

made : create all_allocated (λ i. 0) 1 ≡ done empty tt
unfolding create
made = refl

abbrev calls : List (Call ℕ)
calls = fill 5 ∷ confirms ∷ fill 6 ∷ cancels ∷ peeks ∷ pops ∷ pops ∷ confirms ∷ []

run_refines_example : run empty calls ≡ Queue.run (queue_of empty) calls
run_refines_example = run_refines calls (create-IsValid all_allocated (λ i. 0) 1 made)

-- The replies: the datagram comes out once, then the ring is empty, and a confirmation without a
-- reservation ends the process.
replies :
    Queue.run (queue_of empty) calls
    ≡ done none tt
      ∷ done none tt
      ∷ done none tt
      ∷ done none tt
      ∷ done (some 5) tt
      ∷ done none tt
      ∷ waits
      ∷ exits
      ∷ []
unfolding Queue.run Queue.step dump
replies = refl

abbrev at_start : System ℕ
at_start = record { ring = empty; net = idle; disk = resting; sent = []; taken = [] }

abbrev one_reserved : System ℕ
one_reserved = record at_start { ring = record empty { count_reserved = 1 }; net = copying 0 5 }

one_reserved-Reach : Reach one_reserved
unfolding reserve reserve_from next_slot
one_reserved-Reach =
    later (start all_allocated (λ i. 0) 1 made refl)
      (request {slot = 0} {r = record empty { count_reserved = 1 }} 5 refl refl refl)

taken-dump-eq-sent_example : one_reserved.taken ++ dump one_reserved.ring ≡ one_reserved.sent
taken-dump-eq-sent_example = taken-dump-eq-sent one_reserved-Reach

-- The disk thread finds the ring empty and sleeps.
abbrev asleep : System ℕ
asleep = record at_start { ring = record empty { data_sleeper = true }; disk = dozing }

asleep-Reach : Reach asleep
unfolding peek wait_data
asleep-Reach = later (start all_allocated (λ i. 0) 1 made refl) (doze refl refl refl)

no_deadlock_example :
    ((returns (net_call asleep.ring asleep.net) || sleeps (net_call asleep.ring asleep.net)) ≡ true)
    × ((returns (disk_call asleep.ring asleep.disk) || sleeps (disk_call asleep.ring asleep.disk))
        ≡ true)
    × ((sleeps (net_call asleep.ring asleep.net) && sleeps (disk_call asleep.ring asleep.disk))
        ≡ false)
    × ((not (net_asleep asleep.ring asleep.net) || sleeps (net_call asleep.ring asleep.net)) ≡ true)
    × ((not (disk_asleep asleep.ring asleep.disk) || sleeps (disk_call asleep.ring asleep.disk))
        ≡ true)
no_deadlock_example = no_deadlock asleep-Reach
