-- ===== src/Client/Requests/Tests.antt =====
-- Concrete tables for the theorems on the requests.
use tsunami_udp.Prelude.{
  ℕ, zero, suc, ap, ◌+◌, ◌<◌, ◌≤◌, ◌≡◌, refl, Bool, true, false, [], ◌∷◌, ◌++◌, replicate, get_or,
  map, if◌then◌else◌, not, ◌&&◌, leb, ltb, length, arith, length-replicate,
}
use tsunami_udp.Protocol.{ok, failed, request_restart_type}
use tsunami_udp.Bitmap.{got_block, test_bit}
use tsunami_udp.Client.Transfer.{RetransmitTable, Transfer, max_retransmission_buffer}
use tsunami_udp.Client.Requests.{Control, wanted, retransmission, repeat_retransmit, request}
use tsunami_udp.Client.Requests.Compact.{segment, keep}
use tsunami_udp.Client.Requests.Repeat.{
  still_missing, repeat_retransmit-requests, repeat_retransmit-restart,
}
use tsunami_udp.Client.Requests.Table.{
  IsTable, entries, table_limit, request-IsTable, entries-request,
}

abbrev working : Control
working = record { write = true; flush = true }

abbrev two_entries : RetransmitTable
two_entries = record { table = 3 ∷ 5 ∷ 0 ∷ []; table_size = 3; index_max = 2 }

abbrev with_table : RetransmitTable → Transfer
with_table r = record {
  block_count = 9;
  next_block = 6;
  gapless_to_block = 2;
  retransmit = r;
  stats = record {
    this_blocks = 0;
    this_retransmits = 0;
    total_blocks = 4;
    total_retransmits = 0;
    total_recvd_retransmits = 0;
    this_flow_originals = 4;
    this_flow_retransmitteds = 0;
  };
  -- blocks 1, 2, 4 and 5 are there
  received = 54 ∷ 0 ∷ 0 ∷ [];
  blocks_left = 5;
  restart_pending = false;
  restart_lastidx = 0;
  restart_wireclearidx = 0;
  on_wire_estimate = 0;
}

missing_of_two : still_missing (with_table two_entries) ≡ 3 ∷ []
unfolding still_missing segment keep got_block test_bit
missing_of_two = refl

few : length (still_missing (with_table two_entries)) < max_retransmission_buffer
few = rw missing_of_two (omega arith)

two_entries-IsTable : IsTable two_entries
two_entries-IsTable = record {
  size = refl;
  used = omega arith;
  some_room = omega arith;
  small = omega arith;
}

repeat_retransmit-requests_example :
    let (s, t', sent) = repeat_retransmit working (with_table two_entries) in
    (sent ≡ map retransmission (still_missing (with_table two_entries)))
    × (segment t'.retransmit.table 0 t'.retransmit.index_max
        ≡ still_missing (with_table two_entries))
    × (t'.restart_pending ≡ false)
    × (t'.next_block ≡ 6)
    × (s ≡ ok)
repeat_retransmit-requests_example =
    repeat_retransmit-requests working (with_table two_entries) (omega arith) refl few

request-IsTable_example :
    let (s, r') = request true false two_entries 7 in
    IsTable r'
    × (s ≡ (
        if not false
          && leb two_entries.table_size two_entries.index_max
          && ltb two_entries.index_max table_limit
          && not true
        then failed
        else ok))
request-IsTable_example = request-IsTable true two_entries-IsTable 7 false

entries-request_example :
    let (s, r') = request true false two_entries 7 in
    (s ≡ ok)
    × (entries r' ≡ (
        if false
        then entries two_entries
        else if leb two_entries.table_size two_entries.index_max
            && leb table_limit two_entries.index_max
        then entries two_entries
        else entries two_entries ++ 7 ∷ []))
entries-request_example = entries-request true two_entries-IsTable 7 false refl

-- 2048 entries for block 3.
abbrev many_entries : RetransmitTable
many_entries = record { table = replicate 2048 3; table_size = 2048; index_max = 2048 }

-- Any segment of a table of one missing block is kept.
keep-replicate :
    (got : ℕ → Bool) (m b n from : ℕ)
    → wanted got b ≡ true
    → from + n ≤ m
    → length (keep got (segment (replicate m b) from n)) ≡ n
unfolding keep segment
keep-replicate got m b zero from w h = refl
keep-replicate got m b (suc n) from w h =
    rw (entry-replicate m from (omega arith), w)
      (ap suc (keep-replicate got m b n (from + 1) w (omega arith)))
  where
    entry-replicate : (m i : ℕ) → i < m → get_or (replicate m b) i 0 ≡ b
    entry-replicate zero i lt = absurd (omega arith)
    entry-replicate (suc m) zero lt = refl
    entry-replicate (suc m) (suc i) lt = entry-replicate m i (omega arith)

many : max_retransmission_buffer ≤ length (still_missing (with_table many_entries))
unfolding still_missing got_block test_bit
many =
    omega (arith, keep-replicate (got_block 9 (54 ∷ 0 ∷ 0 ∷ [])) 2048 3 2048 0 refl (omega arith))

repeat_retransmit-restart_example :
    let (s, t', sent) = repeat_retransmit working (with_table many_entries) in
    (sent ≡ record { request_type = request_restart_type; block = 3; error_rate = 0 } ∷ [])
    × (t'.retransmit.index_max ≡ 0)
    × (t'.restart_pending ≡ true)
    × (t'.next_block ≡ 3)
    × (t'.restart_lastidx ≡ get_or (replicate 2048 3) 2047 0)
    × (s ≡ ok)
repeat_retransmit-restart_example =
    repeat_retransmit-restart working (with_table many_entries)
      (omega (arith, length-replicate {A = ℕ} 2048 3)) refl many
