-- ===== src/Client/Disk/Tests.antt =====
-- A concrete file for the theorem on the disk thread.
use tsunami_udp.Prelude.{ℕ, zero, suc, ◌≡◌, ◌≤◌, ◌<◌, ◌^◌, refl, true, List, [], ◌∷◌, All, arith}
use tsunami_udp.Protocol.{Datagram, block_original, block_terminate, block_retransmission}
use tsunami_udp.Server.Datagram.Laws.{block_of}
use tsunami_udp.Client.Receive.Delivery.{occurrences}
use tsunami_udp.Client.Disk.{DiskCall, disk_thread}
use tsunami_udp.Client.Disk.Blocks.{block_count, target_of}
use tsunami_udp.Client.Disk.Whole.{IsBlock, disk_thread-whole}

-- Five bytes in three blocks.
abbrev file : List ℕ
file = 10 ∷ 11 ∷ 12 ∷ 13 ∷ 14 ∷ []

abbrev good_disk : ℕ → DiskCall
good_disk k = record { seeks = true; room = 4096 }

-- The blocks out of order, the second one twice, with a byte of another block after the last one.
abbrev datagrams : List Datagram
datagrams =
    record { block = 3; type = block_terminate; payload = 14 ∷ 13 ∷ [] }
    ∷ record { block = 2; type = block_retransmission; payload = 12 ∷ 13 ∷ [] }
    ∷ record { block = 1; type = block_retransmission; payload = 10 ∷ 11 ∷ [] }
    ∷ record { block = 2; type = block_original; payload = 12 ∷ 13 ∷ [] }
    ∷ []

blocks : All (IsBlock 2 file (omega arith)) datagrams
unfolding block_of block_count
blocks = (
  record { first = omega arith; last = omega arith; genuine = refl },
  (
    record { first = omega arith; last = omega arith; genuine = refl },
    (
      record { first = omega arith; last = omega arith; genuine = refl },
      (record { first = omega arith; last = omega arith; genuine = refl }, tt),
    ),
  ),
)

all_there : (k : ℕ) → 1 ≤ k → k ≤ block_count 2 5 → 1 ≤ occurrences k datagrams
unfolding occurrences block_count
all_there zero lo hi = absurd (omega arith)
all_there (suc zero) lo hi = omega arith
all_there (suc (suc zero)) lo hi = omega arith
all_there (suc (suc (suc zero))) lo hi = omega arith
all_there (suc (suc (suc (suc k)))) lo hi = absurd (omega arith)

few_blocks : block_count 2 5 < 2 ^ 32
unfolding block_count
few_blocks = omega arith

disk_thread-whole_example : disk_thread (target_of 2 file) good_disk datagrams [] ≡ file
disk_thread-whole_example =
    disk_thread-whole 2 file (omega arith) good_disk (λ k. refl) (λ k. omega arith) few_blocks
      datagrams blocks all_there
