-- ===== src/Client/Disk.antt =====
-- The disk side of the client: accept_block in tsunami-udp/client/io.c and disk_thread in
-- tsunami-udp/client/command.c, without VSIB_REALTIME.
pub mod Write
pub mod Blocks
pub mod Whole
mod Tests
use tsunami_udp.Prelude.{
  ℕ, zero, suc, ◌+◌, ◌*◌, ◌%◌, min, Bool, not, List, [], ◌∷◌, ltb, ◌==◌, if◌then◌else◌, take,
}
use tsunami_udp.Prelude.Words.{sub32}
use tsunami_udp.Protocol.{Datagram, Status, ok, failed}

-- The file's bytes after a write at an offset; a gap before it reads as zeros.
unfoldable pub write_at : ℕ → List ℕ → List ℕ → List ℕ
write_at (suc offset) bytes [] = 0 ∷ write_at offset bytes []
write_at (suc offset) bytes (x ∷ file) = x ∷ write_at offset bytes file
write_at zero [] file = file
write_at zero (b ∷ bytes) [] = b ∷ bytes
write_at zero (b ∷ bytes) (x ∷ file) = b ∷ write_at zero bytes file

-- What fseeko and fwrite do for a block: whether the seek succeeds, and how many bytes can be written.
pub record DiskCall : Type 0 where
  pub seeks : Bool
  pub room : ℕ

-- The fields of the transfer and its parameters that accept_block reads.
pub record Target : Type 0 where
  pub block_size : ℕ
  pub file_size : ℕ
  pub block_count : ℕ

-- How many bytes of a block to write: the last block may be shorter.
unfoldable pub write_size : Target → ℕ → ℕ
write_size target block_index =
    if block_index == target.block_count
    then (if target.file_size % target.block_size == 0
        then target.block_size
        else target.file_size % target.block_size)
    else target.block_size

-- `accept_block`, on the bytes of the file.
unfoldable pub accept_block : Target → DiskCall → ℕ → List ℕ → List ℕ → Status × List ℕ
unfolding write_at write_size
accept_block target call block_index block file =
    let size = write_size target block_index in
    let status = min size call.room in
    let file' =
      if status == 0
      then file
      else write_at (target.block_size * sub32 block_index 1) (take status block) file in
    if not call.seeks then (failed, file) else (if ltb status size then failed else ok, file')

-- After a block: the thread ends at a failure.
unfoldable pub after_block : Status × List ℕ → List ℕ → List ℕ
after_block (ok, file) rest = rest
after_block (failed, file) rest = file

-- `disk_thread`, on the datagrams that it takes from the ring: the file that it leaves. It ends at the
-- block with number 0.
unfoldable pub disk_thread : Target → (ℕ → DiskCall) → List Datagram → List ℕ → List ℕ
unfolding accept_block after_block
disk_thread target calls [] file = file
disk_thread target calls (d ∷ ds) file =
    let r = accept_block target (calls d.block) d.block d.payload file in
    let rest = disk_thread target calls ds r.1 in if d.block == 0 then file else after_block r rest
