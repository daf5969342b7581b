-- ===== src/Session/Names.antt =====
-- The start of `get *` on the client: and of `get` of one file: command_get of tsunami-udp/client/command.c
-- up to the first transfer. The server's part is in Negotiation.
pub mod Fields
pub mod Agreement
pub mod Empty
use tsunami_udp.Prelude.{
  ℕ, zero, suc, List, [], ◌∷◌, ◌++◌, Option, none, some, ◌==◌, if◌then◌else◌, length, take, drop,
  get_or, Bool, true, false,
}
use tsunami_udp.Decimal.{atol}
use tsunami_udp.Wire.{Host, from_bytes}
use tsunami_udp.Wire.Connection.{
  Action, read_or, hangs, returned, failed, ends, pure, check, ◌>>=◌, ◌>>◌, send, full_write, fread,
}
use tsunami_udp.Negotiation.{Request, Opened, after_slash, same_text, client_open}
use tsunami_udp.Session.{client_open_port}
use tsunami_udp.Listing.{text_of, overwrite, fread_line}

-- `fread` of 10 characters into a buffer: how many came, and the buffer then.
unfoldable pub fread_field : List ℕ → Action (ℕ × List ℕ)
fread_field buffer line =
    let bytes = take 10 line.incoming in
    record {
      sent = [];
      line = record line { incoming = drop 10 line.incoming };
      ended = returned (length bytes, overwrite bytes buffer);
    }

-- The names of the list, each read into the same `tmpname`.
unfoldable pub read_names : ℕ → List ℕ → Action (List (List ℕ))
unfolding fread_line text_of
read_names zero tmpname = pure []
read_names (suc files) tmpname = do
  name ← fread_line 1024 tmpname
  names ← read_names files name
  pure (text_of name ∷ names)

-- `got size` and `got list`
abbrev pub got_size : List ℕ
got_size = b'g' ∷ b'o' ∷ b't' ∷ b' ' ∷ b's' ∷ b'i' ∷ b'z' ∷ b'e' ∷ []

abbrev pub got_list : List ℕ
got_list = b'g' ∷ b'o' ∷ b't' ∷ b' ' ∷ b'l' ∷ b'i' ∷ b's' ∷ b't' ∷ []

-- The list of `f_total` names; without any, a byte is read that should signal a failure. A server that
-- has announced no names waits and does not close: the read of a byte that it does not send waits for
-- ever.
unfoldable pub names_or_fail : ℕ → List ℕ → Action (List (List ℕ))
unfolding read_names
names_or_fail zero tmpname = do dummy ← read_or hangs 1 (from_bytes 0); ends failed
names_or_fail (suc files) tmpname = read_names (suc files) tmpname

-- The names that the server shares, from the request on. The buffers are on the stack, with what was
-- there. Only the result of the second `fread` is looked at.
unfoldable pub client_names : List ℕ → List ℕ → List ℕ → Action (List (List ℕ))
unfolding text_of names_or_fail
client_names filearray_size file_count tmpname = do
  full_write (b'*' ∷ b'\n' ∷ [])
  size ← fread_field filearray_size
  count ← fread_field file_count
  if count.0 == 0 then ends failed else send got_size
  names_or_fail (atol 32 (text_of count.1)) tmpname

-- `get *` up to the first transfer: `got list` goes out with the request for the first file, whose local
-- name is the remote one.
unfoldable pub get_all :
    Host → (List ℕ → Bool) → List ℕ → List ℕ → List ℕ → Request → Action (List (List ℕ) × Opened)
unfolding client_names
get_all host writable filearray_size file_count tmpname param = do
  names ← client_names filearray_size file_count tmpname
  send got_list
  opened ← client_open host writable (get_or names 0 []) (get_or names 0 []) param
  pure (names, opened)

-- The local name of a file that is asked for alone: the one that the command gives after the remote one,
-- or what follows the last `/` of the remote one.
unfoldable pub local_name : List ℕ → List (List ℕ) → List ℕ
unfolding after_slash
local_name remote (local ∷ more) = local
local_name remote [] = elim (after_slash remote) [ none ↦ remote | some t ↦ t ]

-- `get` of one file
unfoldable pub get_one :
    Host → (List ℕ → Bool) → List ℕ → List (List ℕ) → Request → Action (List (List ℕ) × Opened)
unfolding local_name
get_one host writable remote more param = do
  opened ← client_open host writable remote (local_name remote more) param
  pure (remote ∷ [], opened)

-- `command_get` up to its first transfer, in a session that is open, with the words of the command and the
-- port of the socket that create_udp_socket gives: the names of all files that are to be transferred, and what is known of the
-- first.
unfoldable pub start_get :
    Host
    → (List ℕ → Bool)
    → List ℕ
    → List ℕ
    → List ℕ
    → List (List ℕ)
    → Request
    → Option ℕ
    → Action (List (List ℕ) × Opened)
unfolding get_all get_one same_text client_open_port
start_get host writable filearray_size file_count tmpname [] param udp_port = ends failed
start_get host writable filearray_size file_count tmpname (command ∷ []) param udp_port =
    ends failed
start_get host writable filearray_size file_count tmpname (command ∷ remote ∷ more) param udp_port =
    let start =
      if same_text remote (b'*' ∷ [])
      then get_all host writable filearray_size file_count tmpname param
      else get_one host writable remote more param in
    (do started ← start; client_open_port udp_port; pure started)
