-- ===== src/Client/Requests.antt =====
-- The retransmission table: ttp_request_retransmit, ttp_repeat_retransmit and ttp_request_stop of
-- tsunami-udp/client/protocol.c (without RETX_REQBLOCK_SORTING, as the Makefiles build it).
-- An argument says whether realloc, fwrite and fflush succeed.
pub mod Compact
pub mod Repeat
pub mod Table
mod Tests
use tsunami_udp.Prelude.{
  ℕ, zero, suc, ◌+◌, ◌-◌, ◌*◌, ◌%◌, ◌^◌, min, Bool, true, false, not, ◌&&◌, List, [], ◌∷◌, ◌++◌,
  ltb, leb, ◌==◌, if◌then◌else◌, get_or, set, replicate, map,
}
use tsunami_udp.Prelude.Words.{add32}
use tsunami_udp.Protocol.{
  Retransmission, Status, ok, failed, request_retransmit_type, request_restart_type,
  request_stop_type,
}
use tsunami_udp.Bitmap.{got_block}
use tsunami_udp.Client.Transfer.{RetransmitTable, Statistics, Transfer, max_retransmission_buffer}

-- The table of twice the size, its new half zeroed.
grow : RetransmitTable → RetransmitTable
grow r = record r { table = r.table ++ replicate r.table_size 0; table_size = 2 * r.table_size }

append : RetransmitTable → ℕ → RetransmitTable
append r block = record r { table = set r.table r.index_max block; index_max = r.index_max + 1 }

-- `ttp_request_retransmit` on its table; `got` says whether the block was received already.
unfoldable pub request : Bool → Bool → RetransmitTable → ℕ → Status × RetransmitTable
unfolding grow append
request realloc got r block =
    if got
    then (ok, r)
    else if ltb r.index_max r.table_size
    then (ok, append r block)
    else if leb (32 * max_retransmission_buffer) r.index_max
    then (ok, r)
    else if realloc
    then (ok, append (grow r) block)
    else (failed, r)

-- `ttp_request_retransmit`
unfoldable pub request_retransmit : Bool → Transfer → ℕ → Status × Transfer
request_retransmit realloc t block =
    let (s, r) = request realloc (got_block t.block_count t.received block) t.retransmit block in
    (s, record t { retransmit = r })

-- `block && !got_block(session, block)`
abbrev pub wanted : (ℕ → Bool) → ℕ → Bool
wanted got block = not (block == 0) && not (got block)

-- The count of kept entries, the table, and the blocks of the requests.
pub record Compacted : Type 0 where
  pub count : ℕ
  pub table : List ℕ
  pub blocks : List ℕ

keep_entry : Compacted → ℕ → Compacted
keep_entry c block = record {
  count = c.count + 1;
  table = set c.table c.count block;
  blocks = c.blocks ++ block ∷ [];
}

-- The first loop of `ttp_repeat_retransmit`, with the rounds left as the first argument.
pub compact : ℕ → (ℕ → Bool) → ℕ → Compacted → Compacted
unfolding keep_entry
compact zero got entry c = c
compact (suc rounds) got entry c =
    let block = get_or c.table entry 0 in
    let next =
      compact rounds got (entry + 1) (if wanted got block then keep_entry c block else c) in
    if ltb c.count max_retransmission_buffer then next else c

pub compacted : (ℕ → Bool) → RetransmitTable → Compacted
compacted got r = compact r.index_max got 0 (record { count = 0; table = r.table; blocks = [] })

pub retransmission : ℕ → Retransmission
retransmission block = record {
  request_type = request_retransmit_type;
  block = block;
  error_rate = 0;
}

-- Which calls on the control connection succeed.
pub record Control : Type 0 where
  pub write : Bool
  pub flush : Bool

flushed : Control → Status
flushed io = if io.flush then ok else failed

-- The branch that asks for a restart; `t` has the compacted table, and `index_max` still.
restart_from : Control → Transfer → Status × Transfer × List Retransmission
unfolding flushed
restart_from io t =
    let block = min t.block_count (add32 t.gapless_to_block 1) in
    let last = get_or t.retransmit.table (t.retransmit.index_max - 1) 0 in
    if io.write
    then (
      flushed io,
      record t {
        restart_pending = true;
        restart_lastidx = last;
        restart_wireclearidx = min t.block_count (add32 last t.on_wire_estimate);
        retransmit = record t.retransmit { index_max = 0 };
        next_block = block;
        stats = record t.stats { this_retransmits = max_retransmission_buffer };
      },
      record { request_type = request_restart_type; block = block; error_rate = 0 } ∷ [],
    )
    else (failed, t, [])

-- The branch that sends the requests.
requests_from : Control → ℕ → List ℕ → Transfer → Status × Transfer × List Retransmission
unfolding flushed retransmission
requests_from io count blocks t =
    let t' : Transfer = record t {
      retransmit = record t.retransmit { index_max = count };
      stats = record t.stats {
        this_retransmits = count;
        total_retransmits = add32 t.stats.total_retransmits count;
      };
    } in
    if count == 0
    then (flushed io, t', [])
    else if io.write
    then (flushed io, t', map retransmission blocks)
    else (failed, t', [])

-- `ttp_repeat_retransmit`: its result, and the requests that it sends.
unfoldable pub repeat_retransmit : Control → Transfer → Status × Transfer × List Retransmission
unfolding restart_from requests_from
repeat_retransmit io t =
    let c = compacted (got_block t.block_count t.received) t.retransmit in
    let t' : Transfer = record t {
      retransmit = record t.retransmit { table = c.table };
      stats = record t.stats { this_retransmits = 0 };
    } in
    if leb max_retransmission_buffer c.count
    then restart_from io t'
    else requests_from io c.count c.blocks t'

-- `ttp_request_stop`
unfoldable pub request_stop : Control → Status × List Retransmission
unfolding flushed
request_stop io =
    if io.write
    then (flushed io, record { request_type = request_stop_type; block = 0; error_rate = 0 } ∷ [])
    else (failed, [])
