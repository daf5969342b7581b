-- ===== src/Client/Requests/Table.antt =====
-- What ttp_request_retransmit does to the table of requests.
use tsunami_udp.Prelude.{
  ℕ, zero, suc, ◌+◌, ◌*◌, ◌≤◌, ◌<◌, ◌≡◌, refl, ap₂, Bool, true, List, [], ◌∷◌, ◌++◌, replicate,
  length, length-set, length-append, length-replicate, get_or-append_left, arith, if◌then◌else◌,
  leb, ltb, ◌&&◌, not,
}
use tsunami_udp.Protocol.{ok, failed}
use tsunami_udp.Client.Transfer.{RetransmitTable}
use tsunami_udp.Client.Requests.{request, grow, append}
use tsunami_udp.Client.Requests.Compact.{segment, segment-set_last}

-- The most entries that the table takes: MAX_RETRANSMISSION_BUFFER * 32.
abbrev pub table_limit : ℕ
table_limit = 65536

-- The table is as long as it says, the entries in use lie inside it, and its size stays far below
-- what a u_int32_t holds.
pub record IsTable (r : RetransmitTable) : Type 0 where
  pub size : length r.table ≡ r.table_size
  pub used : r.index_max ≤ r.table_size
  pub some_room : 0 < r.table_size
  pub small : r.table_size < 2 * table_limit

-- The entries in use.
abbrev pub entries : RetransmitTable → List ℕ
entries r = segment r.table 0 r.index_max

segment-append :
    (xs ys : List ℕ) (from n : ℕ)
    → from + n ≤ length xs
    → segment (xs ++ ys) from n ≡ segment xs from n
unfolding segment
segment-append xs ys from zero h = refl
segment-append xs ys from (suc n) h =
    ap₂ ◌∷◌ (get_or-append_left xs ys from 0 (omega arith))
      (segment-append xs ys (from + 1) n (omega arith))

module _ (realloc : Bool) {r : RetransmitTable} (v : IsTable r) (block : ℕ) (got : Bool) where
  -- A request keeps the table within its bounds. It fails exactly when the block is new, the table
  -- is full and below its limit, and realloc fails.
  pub request-IsTable :
      let (s, r') = request realloc got r block in
      IsTable r'
      × (s ≡ (
          if not got && leb r.table_size r.index_max && ltb r.index_max table_limit && not realloc
          then failed
          else ok))
  unfolding request grow append
  request-IsTable = ground (
    arith,
    length-set r.table r.index_max block,
    length-set (r.table ++ replicate r.table_size 0) r.index_max block,
    length-append r.table (replicate r.table_size 0),
    length-replicate {A = ℕ} r.table_size 0,
  )

  -- When realloc succeeds, a block that was received is not added; any other is added at the end,
  -- unless the table is full and at its limit.
  pub entries-request :
      realloc ≡ true
      → let (s, r') = request realloc got r block in
        (s ≡ ok)
        × (entries r' ≡ (
            if got
            then entries r
            else if leb r.table_size r.index_max && leb table_limit r.index_max
            then entries r
            else entries r ++ block ∷ []))
  unfolding request grow append
  entries-request e = ground (
    arith,
    segment-set_last r.table block r.index_max,
    segment-set_last (r.table ++ replicate r.table_size 0) block r.index_max,
    segment-append r.table (replicate r.table_size 0) 0 r.index_max,
    length-append r.table (replicate r.table_size 0),
    length-replicate {A = ℕ} r.table_size 0,
  )
