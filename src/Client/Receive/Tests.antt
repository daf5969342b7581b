-- ===== src/Client/Receive/Tests.antt =====
-- Concrete transfers for the theorems on the receive loop.
use tsunami_udp.Server.Datagram.Laws.{block_of}
use tsunami_udp.Client.Disk.{DiskCall, disk_thread}
use tsunami_udp.Client.Disk.Blocks.{block_count, target_of}
use tsunami_udp.Client.Disk.Whole.{IsBlock}
use tsunami_udp.Client.Receive.Origin.{arrivals}
use tsunami_udp.Client.Finish.{end_transfer}
use tsunami_udp.Client.File.{transfer-whole}
use tsunami_udp.Prelude.{
  true, false, ◌≡◌, ◌≢◌, refl, leb, if◌then◌else◌, List, [], ◌∷◌, some, arith, ◌+◌, ◌<◌, ◌^◌,
  length, All, ℕ,
}
use tsunami_udp.Protocol.{Datagram, block_original, block_terminate}
use tsunami_udp.Bitmap.{got_block, mark, advance, no_blocks, test_bit, set_bit}
use tsunami_udp.Ring.{
  Ring, Setup, done, create, max_blocks_queued, full, reserve, confirm, store, peek, pop,
}
use tsunami_udp.Client.Receive.{
  Policy, Environment, Turn, completes, stuck, count_arrival, accept, control_logic, on_the_wire,
  queue_missing, after_queue, move_on, at_end, finish, send_stats, ask_again,
}
use tsunami_udp.Client.Requests.{Control, repeat_retransmit, request_retransmit}
use tsunami_udp.Client.Receive.Iterate.{
  Receiver, iterate, process, is_full, put_in_ring, after_put, with_ring, after_error,
}
use tsunami_udp.Client.Receive.Session.{
  Session, Event, arrives, disk_takes, disk_take, run, after_turn, numbered, new_session,
  new_transfer,
}
use tsunami_udp.Client.Receive.Delivery.{IsDelivering, occurrences, handed_over}
use tsunami_udp.Client.Receive.Guarantees.{run-IsDelivering, run-not_stuck, run-each_block_once}

abbrev pub lossless : Policy
lossless = record { lossless = true; losswindow_ms = 0 }

abbrev working : Control
working = record { write = true; flush = true }

abbrev calm_environment : Environment
calm_environment = record {
  realloc = true;
  control = working;
  feedback = working;
  window = 0;
  due = false;
  error_rate = 0;
}

abbrev pub first_block : Datagram
first_block = record { block = 1; type = block_original; payload = 10 ∷ 11 ∷ [] }

abbrev pub last_block : Datagram
last_block = record { block = 2; type = block_terminate; payload = 12 ∷ 13 ∷ [] }

abbrev pub events : List Event
events =
    arrives calm_environment (some first_block)
    ∷ disk_takes
    ∷ arrives calm_environment (some last_block)
    ∷ []

abbrev pub all_allocated : Setup
all_allocated = record {
  calloc = true;
  malloc = true;
  mutex_init = true;
  data_cond = true;
  space_cond = true;
}

abbrev pub empty_ring : Ring Datagram
empty_ring = record {
  datagrams = λ i. first_block;
  datagram_size = 8;
  base_data = 0;
  count_data = 0;
  count_reserved = 0;
  data_ready = false;
  space_ready = true;
  data_sleeper = false;
  space_sleeper = false;
}

pub made : create all_allocated (λ i. first_block) 2 ≡ done empty_ring tt
unfolding create
made = refl

pub fair : numbered 0 events ≡ true
unfolding numbered
fair = refl

abbrev pub at_the_end : Turn × Session
at_the_end = run lossless events (new_session 2 2 2 empty_ring)

pub ends : at_the_end.0 ≡ completes
unfolding run after_turn iterate process is_full full put_in_ring reserve confirm store after_put
    with_ring after_error disk_take peek pop new_transfer count_arrival accept control_logic
    on_the_wire queue_missing after_queue move_on at_end finish send_stats ask_again
    repeat_retransmit request_retransmit got_block mark advance no_blocks test_bit set_bit
ends = refl

run-each_block_once_example : occurrences 1 (handed_over at_the_end.1) ≡ (if leb 1 2 then 1 else 0)
run-each_block_once_example =
    run-each_block_once lossless 2 2 2 all_allocated (λ i. first_block) (omega arith) made events
      fair refl ends 1 (omega arith)

run-IsDelivering_example : IsDelivering true 2 at_the_end.1
run-IsDelivering_example =
    run-IsDelivering lossless 2 2 2 all_allocated (λ i. first_block) (omega arith) made events fair

run-not_stuck_example : at_the_end.0 ≢ stuck
run-not_stuck_example =
    run-not_stuck lossless 2 2 2 all_allocated (λ i. first_block) (omega arith) made events fair

-- The receiver with the first datagram in its buffer.
abbrev with_first : Receiver
with_first = record (new_session 2 2 2 empty_ring).receiver { local = first_block }

-- The four bytes of the two blocks.
abbrev pub file : List ℕ
file = 10 ∷ 11 ∷ 12 ∷ 13 ∷ []

abbrev pub good_disk : ℕ → DiskCall
good_disk k = record { seeks = true; room = 4096 }

abbrev file_session : Session
file_session = new_session (block_count 2 (length file)) 2 2 empty_ring

file-small : block_count 2 (length file) + 1 < 2 ^ 32
unfolding block_count
file-small = omega arith

file-ends : (run lossless events file_session).0 ≡ completes
unfolding block_count
file-ends = ends

arrived : All (IsBlock 2 file (omega arith)) (arrivals events)
unfolding arrivals block_of block_count
arrived = (
  record { first = omega arith; last = omega arith; genuine = refl },
  (record { first = omega arith; last = omega arith; genuine = refl }, tt),
)

transfer-whole_example :
    (blocks : List Datagram) × (end_transfer max_blocks_queued 1 first_block
        (run lossless events file_session).1
      ≡ some blocks)
    × (disk_thread (target_of 2 file) good_disk blocks [] ≡ file)
transfer-whole_example =
    transfer-whole 2 file 2 (omega arith) file-small lossless refl all_allocated (λ i. first_block)
      made events fair arrived file-ends 1 first_block good_disk (λ k. refl) (λ k. omega arith)
