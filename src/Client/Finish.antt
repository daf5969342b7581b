-- ===== src/Client/Finish.antt =====
-- The end of a transfer: command_get in tsunami-udp/client/command.c from the stop block to
-- pthread_join, and the loop of disk_thread up to that block.
pub mod Laws
use tsunami_udp.Prelude.{ℕ, zero, suc, ◌==◌, List, Option, none, some, if◌then◌else◌}
use tsunami_udp.Ring.{Ring, done, peek, calls_succeed}
use tsunami_udp.Client.Receive.{Datagram}
use tsunami_udp.Client.Receive.Iterate.{put_in_ring, is_full}
use tsunami_udp.Client.Receive.Session.{Session, disk_take}

-- The loop of disk_thread, with what it has taken when it finds block 0. On an empty ring it sleeps, and
-- the network thread, which waits in pthread_join, never wakes it: `none`.
unfoldable pub disk_loop : ℕ → Session → Option (List Datagram)
disk_loop zero s = none
disk_loop (suc rounds) s =
    let rest = disk_loop rounds (disk_take s) in
    elim (peek calls_succeed s.receiver.ring) [
      | done slot r ↦ if (r.datagrams slot).block == 0 then some s.taken else rest
      | other ↦ none
    ]

unfoldable pub takes : ℕ → Session → Session
takes zero s = s
takes (suc n) s = takes n (disk_take s)

-- The slot that ring_reserve gives holds an old datagram, of which only the number is set to 0.
abbrev pub stop_block : Datagram → Datagram
stop_block leftover = record leftover { block = 0 }

abbrev pub with_stop : Session → Ring Datagram → Session
with_stop s r = record s { receiver = record s.receiver { ring = r } }

-- In a full ring ring_reserve sleeps until the disk thread has taken a datagram.
unfoldable pub when_room : Session → Session
when_room s = if is_full s.receiver.ring then disk_take s else s

unfoldable pub stop_and_join : ℕ → Datagram → Session → Option (List Datagram)
stop_and_join rounds leftover s = elim (put_in_ring (stop_block leftover) s.receiver.ring) [
  | done n r ↦ disk_loop rounds (with_stop s r)
  | other ↦ none
]

-- Before the stop block the disk thread takes any number of datagrams.
unfoldable pub end_transfer : ℕ → ℕ → Datagram → Session → Option (List Datagram)
end_transfer rounds early leftover s = stop_and_join rounds leftover (when_room (takes early s))
