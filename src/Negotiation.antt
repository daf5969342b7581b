-- ===== src/Negotiation.antt =====
-- The negotiation of a connection and of a transfer: ttp_negotiate and ttp_open_transfer in
-- tsunami-udp/client/protocol.c and in tsunami-udp/server/protocol.c, without VSIB_REALTIME. Allocations succeed.
pub mod Revision
pub mod Accept
pub mod Epoch
pub mod Agreement
pub mod Refusal
pub mod Tests
use tsunami_udp.Prelude.{
  ℕ, zero, suc, ◌+◌, ◌-◌, ◌*◌, ◌/◌, ◌%◌, ◌^◌, min, Bool, true, false, not, ◌&&◌, List, [], ◌∷◌,
  ◌++◌, Option, none, some, ◌==◌, ltb, if◌then◌else◌, length, take, replicate, map,
}
use tsunami_udp.Decimal.{digits}
use tsunami_udp.Hook.{hook_files}
use tsunami_udp.Wire.{from_stored, htonl, to_bytes, Host, stored, htonll, ntohll}
use tsunami_udp.Wire.Connection.{
  Action, Ended, returned, failed, exits, hangs, faults, ends, pure, check, after, or_fail, ◌>>=◌,
  ◌>>◌, send, full_write, fread, fread_word64, full_read, read_or, read_line,
}

-- `ttp_negotiate` of the client
unfoldable pub client_negotiate : ℕ → Action (Unit {0})
client_negotiate client_revision = do
  send (to_bytes 4 client_revision)
  server_revision ← fread 4
  check (client_revision == server_revision)

-- `ttp_negotiate` of the server
unfoldable pub server_negotiate : ℕ → Action (Unit {0})
server_negotiate server_revision = do
  full_write (to_bytes 4 server_revision)
  client_revision ← full_read 4
  check (client_revision == server_revision)

-- The parameters that the client submits.
pub record Request : Type 0 where
  pub block_size : ℕ
  pub target_rate : ℕ
  pub error_rate : ℕ
  pub slower_num : ℕ
  pub slower_den : ℕ
  pub faster_num : ℕ
  pub faster_den : ℕ

-- What the client learns of the file, and what it works out itself.
pub record Opened : Type 0 where
  pub file_size : ℕ
  pub block_count : ℕ
  pub epoch : ℕ
  pub blocks_left : ℕ
  pub local_filename : List ℕ
  pub on_wire_estimate : ℕ

-- The part after the last `/`, as rindex finds it.
unfoldable pub after_slash : List ℕ → Option (List ℕ)
after_slash [] = none
after_slash (c ∷ name) =
    let later = after_slash name in
    elim later [ some t ↦ some t | none ↦ if c == b'/' then some name else none ]

-- The name under which the local file is opened; `writable` says which names fopen can create.
unfoldable pub local_file : (List ℕ → Bool) → List ℕ → Option (List ℕ)
unfolding after_slash
local_file writable name = if writable name then some name else elim (after_slash name) [
  | none ↦ none
  | some t ↦ if ltb 0 (length t) && writable t then some t else none
]

-- `(u_int32_t)(0.5 * target_rate / (8 * block_size))`, which a division by 0 leaves undefined.
unfoldable pub estimate : ℕ → ℕ → ℕ → Action ℕ
estimate target_rate block_size block_count =
    let wide = 8 * block_size % 2 ^ 32 in
    if wide == 0 then ends faults else pure (min block_count (target_rate / (2 * wide)))

-- A time_t has 64 bits. The client reads the 4 bytes of the epoch into the first 4 bytes of one that is
-- 0, and applies ntohl, which takes the low 32 bits.
unfoldable pub epoch_of : Host → List ℕ → ℕ
unfolding from_stored htonl
epoch_of host bytes = htonl host (from_stored host (bytes ++ 0 ∷ 0 ∷ 0 ∷ 0 ∷ []) % 2 ^ 32)

-- The server sends the first 4 bytes of a time_t that holds what htonl gives.
unfoldable pub epoch_bytes : Host → ℕ → List ℕ
unfolding stored htonl
epoch_bytes host now = take 4 (stored host 8 (htonl host (now % 2 ^ 32)))

-- `ttp_open_transfer` of the client
unfoldable pub client_open : Host → (List ℕ → Bool) → List ℕ → List ℕ → Request → Action Opened
unfolding local_file estimate epoch_of
client_open host writable remote_filename local_filename param = do
  send (remote_filename ++ b'\n' ∷ [])
  result ← fread 1
  check (result == 0)
  send (to_bytes 4 param.block_size)
  send (to_bytes 4 param.target_rate)
  send (to_bytes 4 param.error_rate)
  send (to_bytes 2 param.slower_num)
  send (to_bytes 2 param.slower_den)
  send (to_bytes 2 param.faster_num)
  send (to_bytes 2 param.faster_den)
  file_size ← fread_word64 host
  block_size ← fread 4
  check (block_size == param.block_size)
  block_count ← fread 4
  epoch ← read_or failed 4 (epoch_of host)
  name ← or_fail (local_file writable local_filename)
  on_wire ← estimate param.target_rate param.block_size block_count
  pure (record {
    file_size = file_size;
    block_count = block_count;
    epoch = epoch;
    blocks_left = block_count;
    local_filename = name;
    on_wire_estimate = on_wire;
  })

-- The files of the server: what fopen and the file give for a name; and the names and sizes that were
-- given on its command line; and what the program of the --allhook option prints, if there is one.
pub record Shared : Type 0 where
  pub content : List ℕ → Option (List ℕ)
  pub listed : List (List ℕ × ℕ)
  pub allhook : Option (List ℕ)

-- What the server has negotiated.
pub record Serving : Type 0 where
  pub filename : List ℕ
  pub content : List ℕ
  pub request : Request
  pub file_size : ℕ
  pub block_count : ℕ
  pub epoch : ℕ
  pub ipd_time : ℕ
  pub ipd_current : ℕ

-- MAX_FILENAME_LENGTH
abbrev pub max_filename_length : ℕ
max_filename_length = 1024

-- TS_DIRLIST_HACK_CMD, `!#DIR??`
abbrev pub dirlist_command : List ℕ
dirlist_command = b'!' ∷ b'#' ∷ b'D' ∷ b'I' ∷ b'R' ∷ b'?' ∷ b'?' ∷ []

unfoldable pub same_text : List ℕ → List ℕ → Bool
same_text [] [] = true
same_text [] (y ∷ ys) = false
same_text (x ∷ xs) [] = false
same_text (x ∷ xs) (y ∷ ys) = x == y && same_text xs ys

-- A string as `full_write(.., strlen(s)+1)` sends it.
abbrev pub terminated : List ℕ → List ℕ
terminated text = text ++ 0 ∷ []

-- The names and the sizes, each with its terminator; a size is printed into 20 bytes.
unfoldable pub write_listing : List (List ℕ × ℕ) → Action (Unit {0})
write_listing [] = pure tt
write_listing ((name, size) ∷ files) = do
  full_write (terminated name)
  full_write (terminated (take 19 (digits size)))
  write_listing files

unfoldable pub write_names : List (List ℕ) → Action (Unit {0})
write_names [] = pure tt
write_names (name ∷ names) = do full_write (terminated name); write_names names

-- A number printed into a field of 10 bytes that was zeroed.
unfoldable pub field : ℕ → List ℕ
field n = let text = take 9 (digits n) in text ++ replicate (10 - length text) 0

-- The answer to the request for a list, after which no transfer follows.
unfoldable pub serve_listing : Shared → Action Serving
unfolding write_listing
serve_listing shared = do
  full_write (terminated (take 9 (digits (length shared.listed))))
  write_listing shared.listed
  acknowledged ← full_read 1
  ends failed

-- The answer to `*`: the sum of the lengths, the number of files and the names; then the client requests
-- a file.
unfoldable pub serve_names : ℕ → List (List ℕ) → Action (List ℕ)
unfolding write_names field
serve_names size names = do
  full_write (field size)
  full_write (field (length names))
  got_size ← full_read 8
  write_names names
  got_list ← full_read 8
  read_line max_filename_length

-- The same with what the program for it prints; without any name the request stays `*`.
unfoldable pub serve_hook : List (List ℕ) × ℕ → Action (List ℕ)
unfolding serve_names field
serve_hook ([], size) = do
  full_write (field size)
  full_write (field 0)
  got_size ← full_read 8
  pure (b'*' ∷ [])
serve_hook (name ∷ names, size) = serve_names size (name ∷ names)

unfoldable pub serve_star : ℕ → List (List ℕ) → Option (List ℕ) → Action (List ℕ)
unfolding serve_names serve_hook
serve_star file_name_size names none = serve_names file_name_size names
serve_star file_name_size names (some output) = serve_hook (hook_files output)

-- The bytes that a failure to open the file is signalled with.
abbrev pub not_found : List ℕ
not_found = 8 ∷ []

-- The parameters, as the server reads them.
unfoldable pub read_request : Action Request
read_request = do
  block_size ← full_read 4
  target_rate ← full_read 4
  error_rate ← full_read 4
  slower_num ← full_read 2
  slower_den ← full_read 2
  faster_num ← full_read 2
  faster_den ← full_read 2
  pure (record {
    block_size = block_size;
    target_rate = target_rate;
    error_rate = error_rate;
    slower_num = slower_num;
    slower_den = slower_den;
    faster_num = faster_num;
    faster_den = faster_den;
  })

-- `block_count` is a u_int32_t.
unfoldable pub count_blocks : ℕ → ℕ → ℕ
count_blocks block_size file_size =
    (file_size / block_size + (if file_size % block_size == 0 then 0 else 1)) % 2 ^ 32

-- The inter-packet delay, which ends the negotiation; the division is a fault at 0.
unfoldable pub set_delay : ℕ → List ℕ → List ℕ → Request → Action Serving
unfolding count_blocks
set_delay now filename content r =
    let ipd_time = 8000000 * r.block_size / r.target_rate % 2 ^ 32 in
    if r.target_rate == 0
    then ends faults
    else pure (record {
      filename = filename;
      content = content;
      request = r;
      file_size = length content;
      block_count = count_blocks r.block_size (length content);
      epoch = now;
      ipd_time = ipd_time;
      ipd_current = ipd_time * 3 % 2 ^ 32;
    })

-- The answer to the parameters.
unfoldable pub respond : Host → ℕ → List ℕ → List ℕ → Request → Action Serving
unfolding count_blocks set_delay epoch_bytes
respond host now filename content r = do
  full_write (stored host 8 (htonll host (length content)))
  full_write (to_bytes 4 r.block_size)
  full_write (to_bytes 4 (count_blocks r.block_size (length content)))
  full_write (epoch_bytes host now)
  set_delay now filename content r

-- The number of blocks is worked out before: a block size of 0 is a fault.
unfoldable pub answer_if : Host → ℕ → List ℕ → List ℕ → Request → Action Serving
unfolding respond
answer_if host now filename content r =
    if r.block_size == 0 then ends faults else respond host now filename content r

-- From the opening of the file on.
unfoldable pub serve_file : Host → ℕ → Shared → List ℕ → Action Serving
unfolding read_request answer_if
serve_file host now shared filename = elim (shared.content filename) [
  | none ↦ (do full_write not_found; ends failed)
  | some content ↦ (do full_write (0 ∷ []); r ← read_request; answer_if host now filename content r)
]

-- `*`: the client then names a file.
unfoldable pub serve_all : Host → ℕ → ℕ → Shared → Action Serving
unfolding serve_star serve_file
serve_all host now file_name_size shared = do
  chosen ← serve_star file_name_size (map (λ f. f.0) shared.listed) shared.allhook
  serve_file host now shared chosen

unfoldable pub serve : Host → ℕ → ℕ → Shared → List ℕ → Action Serving
unfolding serve_listing serve_all serve_file same_text
serve host now file_name_size shared filename =
    if same_text filename dirlist_command
    then serve_listing shared
    else if same_text filename (b'*' ∷ [])
    then serve_all host now file_name_size shared
    else serve_file host now shared filename

-- `ttp_open_transfer` of the server
unfoldable pub server_open : Host → ℕ → ℕ → Shared → Action Serving
unfolding serve
server_open host now file_name_size shared = do
  filename ← read_line max_filename_length
  serve host now file_name_size shared filename
