-- ===== src/Client/Receive/Insert.antt =====
-- What the three ring calls of the receive loop do to a ring that is not full.
use tsunami_udp.Prelude.{
  ◌+◌, ◌-◌, ◌%◌, ◌≡◌, true, false, ltb, ◌==◌, not, if◌then◌else◌, arith, [], ◌∷◌, ◌++◌,
}
use tsunami_udp.Ring.{
  signal_data, Ring, done, max_blocks_queued, full, reserve, confirm, store, dump, next_slot,
}
use tsunami_udp.Ring.Inv.{IsValid}
use tsunami_udp.Ring.Refine.Window.{list_from_push, list_from_store_next}
use tsunami_udp.Client.Receive.{Datagram}
use tsunami_udp.Client.Receive.Iterate.{put_in_ring, is_full}

-- The ring after a datagram was put in.
pub filled : Datagram → Ring Datagram → Ring Datagram
filled d r = record r {
  datagrams = λ i. if i == next_slot r then d else r.datagrams i;
  count_data = r.count_data + 1;
  count_reserved = r.count_reserved + 1 - 1;
  data_ready = true;
  data_sleeper = false;
  space_ready =
      if (next_slot r + 1) % max_blocks_queued == r.base_data then false else r.space_ready;
}

module _ (d : Datagram) (r : Ring Datagram) (v : IsValid r) (idle : r.count_reserved ≡ 0) where
  pub is_full-eq : is_full r ≡ not (ltb r.count_data max_blocks_queued)
  unfolding is_full full
  is_full-eq = ground (arith, v.space_flag)

  module _ (room : is_full r ≡ false) where
    room_left : r.space_ready ≡ true
    unfolding is_full full
    room_left = ground arith

    -- In a ring that is not full the three calls return, and the datagram goes to the end.
    pub put_in_ring-filled : put_in_ring d r ≡ done 0 (filled d r)
    unfolding put_in_ring reserve confirm store filled signal_data
    put_in_ring-filled = ground (arith, room_left)

    pub filled-IsValid : IsValid (filled d r)
    unfolding filled next_slot
    filled-IsValid = ground (arith, room_left)

    pub filled-idle : (filled d r).count_reserved ≡ 0
    unfolding filled
    filled-idle = omega arith

    pub dump-filled : dump (filled d r) ≡ dump r ++ d ∷ []
    unfolding filled dump next_slot
    dump-filled = ground (
      arith,
      room_left,
      list_from_push (λ i. if i == next_slot r then d else r.datagrams i) r.base_data r.count_data,
      list_from_store_next r.datagrams d r.base_data r.count_data (next_slot r),
    )
