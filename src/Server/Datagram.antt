-- ===== src/Server/Datagram.antt =====
-- build_datagram in tsunami-udp/server/io.c, with the file that it reads.
pub mod Laws
use tsunami_udp.Prelude.{ℕ, ◌+◌, ◌*◌, Bool, List, ◌++◌, ◌==◌, if◌then◌else◌, length, take, drop}
use tsunami_udp.Prelude.Words.{add32, sub32}
use tsunami_udp.Protocol.{Datagram}

-- The open file with its position, the static variable `last_block`, and the buffer of the datagram,
-- without its header.
pub record Reader : Type 0 where
  pub content : List ℕ
  pub position : ℕ
  pub last_block : ℕ
  pub buffer : List ℕ

-- `fseeko` from the start of the file: a position past the end is allowed.
unfoldable pub seek : ℕ → Reader → Reader
seek offset f = record f { position = offset }

-- `fread`: at the end of the file it reads less, and leaves the rest of the buffer as it was.
unfoldable pub read : ℕ → Reader → Reader
read size f =
    let part = take size (drop f.position f.content) in
    record f { position = f.position + length part; buffer = part ++ drop (length part) f.buffer }

-- The seek is left out for the block that follows the last one.
unfoldable pub move_to : ℕ → ℕ → Reader → Reader
unfolding seek
move_to block_size block_index f =
    if block_index == add32 f.last_block 1 then f else seek (block_size * sub32 block_index 1) f

-- `build_datagram`; `fread` has no negative result, so it succeeds.
unfoldable pub build_datagram : ℕ → ℕ → ℕ → Reader → Datagram × Reader
unfolding move_to read
build_datagram block_size block_index block_type f =
    let f' = read block_size (move_to block_size block_index f) in
    (
      record { block = block_index; type = block_type; payload = f'.buffer },
      record f' { last_block = block_index },
    )
