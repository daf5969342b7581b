-- ===== src/Client/Receive/Session.antt =====
-- The receive loop of command_get and the disk thread of tsunami-udp/client/io.c, from the start of
-- a transfer on. An event is one iteration of the loop, or one datagram that the disk thread takes;
-- Ring/Threads is about the steps inside an iteration.
use tsunami_udp.Prelude.{
  ℕ, Bool, true, false, ◌&&◌, ltb, List, [], ◌∷◌, ◌++◌, Option, none, some, replicate,
}
use tsunami_udp.Bitmap.{no_blocks}
use tsunami_udp.Ring.{Ring, done, peek, pop, calls_succeed}
use tsunami_udp.Client.Transfer.{Transfer}
use tsunami_udp.Client.Receive.{
  Datagram, Policy, Environment, Turn, goes_on, skips, completes, aborts, stuck,
}
use tsunami_udp.Client.Receive.Iterate.{Receiver, iterate}

-- DEFAULT_TABLE_SIZE
abbrev pub default_table_size : ℕ
default_table_size = 4096

-- `ttp_transfer_t` when the loop starts: after ttp_open_transfer and the start of command_get.
unfoldable pub new_transfer : ℕ → ℕ → Transfer
new_transfer block_count on_wire_estimate = record {
  block_count = block_count;
  next_block = 1;
  gapless_to_block = 0;
  retransmit = record {
    table = replicate default_table_size 0;
    table_size = default_table_size;
    index_max = 0;
  };
  stats = record {
    this_blocks = 0;
    this_retransmits = 0;
    total_blocks = 0;
    total_retransmits = 0;
    total_recvd_retransmits = 0;
    this_flow_originals = 0;
    this_flow_retransmitteds = 0;
  };
  received = no_blocks block_count;
  blocks_left = block_count;
  restart_pending = false;
  restart_lastidx = 0;
  restart_wireclearidx = 0;
  on_wire_estimate = on_wire_estimate;
}

-- The buffer that recvfrom fills, from calloc.
abbrev pub zeroed : ℕ → Datagram
zeroed block_size = record { block = 0; type = 0; payload = replicate block_size 0 }

-- `taken` is what the disk thread has taken from the ring, in order.
pub record Session : Type 0 where
  pub receiver : Receiver
  pub taken : List Datagram

abbrev pub new_session : ℕ → ℕ → ℕ → Ring Datagram → Session
new_session block_count on_wire_estimate block_size ring = record {
  receiver = record {
    transfer = new_transfer block_count on_wire_estimate;
    ring = ring;
    local = zeroed block_size;
  };
  taken = [];
}

-- An iteration, with what recvfrom gives; or the disk thread takes a datagram.
pub data Event : Type 0 where
  arrives : Environment → Option Datagram → Event
  disk_takes : Event

-- One round of the disk thread: ring_peek, the read of the slot, ring_pop. On an empty ring it waits.
unfoldable pub disk_take : Session → Session
disk_take s = elim (peek calls_succeed s.receiver.ring) [
  | done slot r ↦ elim (pop calls_succeed r) [
    | done n r' ↦ record s {
      receiver = record s.receiver { ring = r' };
      taken = s.taken ++ r.datagrams slot ∷ [];
    }
    | other ↦ s
  ]
  | other ↦ s
]

-- The loop goes on after `goes_on` and after `send_stats`.
unfoldable pub after_turn : Turn → Session → Turn × Session → Turn × Session
after_turn goes_on s rest = rest
after_turn skips s rest = rest
after_turn completes s rest = (completes, s)
after_turn aborts s rest = (aborts, s)
after_turn stuck s rest = (stuck, s)

-- The loop on a sequence of events; it has not ended when the events end.
unfoldable pub run : Policy → List Event → Session → Turn × Session
unfolding after_turn
run policy [] s = (goes_on, s)
run policy (disk_takes ∷ events) s = run policy events (disk_take s)
run policy (arrives env o ∷ events) s =
    let i = iterate policy env o s.receiver in
    let s' : Session = record s { receiver = i.receiver } in
    let rest = run policy events s' in after_turn i.turn s' rest

-- Each datagram has a block number, and so has the buffer at each failure of recvfrom: the first
-- argument is the number in the buffer.
unfoldable pub numbered : ℕ → List Event → Bool
numbered block [] = true
numbered block (disk_takes ∷ events) = numbered block events
numbered block (arrives env none ∷ events) = ltb 0 block && numbered block events
numbered block (arrives env (some d) ∷ events) = ltb 0 d.block && numbered d.block events
