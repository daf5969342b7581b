-- ===== src/Listing.antt =====
-- The list of the files that a server shares: command_dir in tsunami-udp/client/command.c, with
-- fread_line of tsunami-udp/common/common.c. The server's part is in Negotiation.
pub mod Digits
pub mod Agreement
mod Tests
use tsunami_udp.Prelude.{
  ℕ, zero, suc, ◌+◌, ◌-◌, ◌%◌, ◌^◌, Bool, true, false, not, List, [], ◌∷◌, ◌++◌, ◌==◌,
  if◌then◌else◌, length, drop, Option, none, some,
}
use tsunami_udp.Decimal.{atol}
use tsunami_udp.Wire.Connection.{
  Action, returned, pure, check, ◌>>=◌, ◌>>◌, full_write, fread, line_of,
}
use tsunami_udp.Negotiation.{dirlist_command}

-- The text in a buffer, up to its terminator.
unfoldable pub text_of : List ℕ → List ℕ
text_of [] = []
text_of (c ∷ buffer) = let rest = text_of buffer in if c == 0 then [] else c ∷ rest

-- What a buffer holds after some bytes were written to its start.
abbrev pub overwrite : List ℕ → List ℕ → List ℕ
overwrite bytes buffer = bytes ++ drop (length bytes) buffer

-- `fread_line` into a buffer: its callers ignore a failure, which leaves what was read.
unfoldable pub fread_line : ℕ → List ℕ → Action (List ℕ)
unfolding line_of
fread_line buffer_length buffer line = elim (line_of (buffer_length - 1) line.incoming) [
  | none ↦ record {
    sent = [];
    line = record line { incoming = [] };
    ended = returned (overwrite line.incoming buffer);
  }
  | some r ↦ record {
    sent = [];
    line = record line { incoming = r.1 };
    ended = returned (overwrite (r.0 ++ 0 ∷ []) buffer);
  }
]

-- The lines of `read_str`, with a name and a size by turns.
unfoldable pub read_entries : ℕ → List ℕ → Action (List (List ℕ × ℕ))
unfolding fread_line text_of
read_entries zero read_str = pure []
read_entries (suc files) read_str = do
  name ← fread_line 2047 read_str
  filelen ← fread_line 2047 name
  entries ← read_entries files filelen
  pure ((text_of name, atol 64 (text_of filelen)) ∷ entries)

-- `command_dir`: the writes are not checked. `read_str` is the rest of the buffer, as it was found.
unfoldable pub command_dir : List ℕ → Action (List (List ℕ × ℕ))
unfolding fread_line text_of read_entries
command_dir read_str = do
  full_write (dirlist_command ++ b'\n' ∷ [])
  result ← fread 1
  check (not (result == 8))
  text ← fread_line 2046 read_str
  entries ← read_entries (atol 16 (text_of (result ∷ text))) (result ∷ text)
  full_write (0 ∷ [])
  pure entries
