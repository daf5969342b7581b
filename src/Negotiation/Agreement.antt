-- ===== src/Negotiation/Agreement.antt =====
-- The two sides of ttp_open_transfer over a connection that works, for a file that the server has.
use tsunami_udp.Prelude.{
  ℕ, zero, suc, ◌+◌, ◌*◌, ◌/◌, ◌%◌, ◌^◌, ◌<◌, ◌≢◌, ◌≡◌, refl, ap, ◌∙◌, min, Bool, false, List, [],
  ◌∷◌, ◌++◌, ◌==◌, ==-refl, ne→==_false, arith, length, length-append, append_assoc, some,
}
use tsunami_udp.Wire.{to_bytes, Host}
use tsunami_udp.Wire.Laws.{length-to_bytes}
use tsunami_udp.Wire.Connection.{failed, returned}
use tsunami_udp.Wire.Connection.Laws.{read-to_bytes, read-size, send-room, line_of_room}
use tsunami_udp.Wire.Connection.Lines.{IsPlain, read_byte, read_line-newline}
use tsunami_udp.Negotiation.{
  Request, Opened, Shared, count_blocks, serve, server_open, estimate, local_file, client_open,
  max_filename_length, same_text, dirlist_command,
}
use tsunami_udp.Negotiation.Epoch.{kept_epoch, kept_epoch-lt, read-epoch}
use tsunami_udp.Negotiation.Accept.{
  request_bytes, reply_bytes, IsRequest, served, serve_file-accepts,
}

-- The epoch that the client has in the end: the server's, or 0 if one of the hosts is big-endian.
abbrev pub epoch_between : (client server : Host) → ℕ → ℕ
epoch_between client server now = kept_epoch client (kept_epoch server now)

-- What the client learns.
abbrev pub opened : Request → ℕ → ℕ → ℕ → List ℕ → Opened
opened r file_size block_count epoch local = record {
  file_size = file_size;
  block_count = block_count;
  epoch = epoch;
  blocks_left = block_count;
  local_filename = local;
  on_wire_estimate = min block_count (r.target_rate / (2 * (8 * r.block_size % 2 ^ 32)));
}

module _ (host : Host) (writable : List ℕ → Bool) (r : Request) (w : IsRequest r)
    (name local chosen : List ℕ) (file_size block_count epoch room : ℕ)
    (size_fits : file_size < 2 ^ 64) (count_fits : block_count < 2 ^ 32)
    (epoch_fits : epoch < 2 ^ 32) (can_write : local_file writable local ≡ some chosen)
    (wide : (8 * r.block_size % 2 ^ 32 == 0) ≡ false) where
  -- The client on a reply that accepts the request.
  pub client_open-accepted :
      client_open host writable name local r
        (line_of_room (reply_bytes r file_size block_count epoch) (length name + 21 + room))
      ≡ record {
        sent = (name ++ b'\n' ∷ []) ++ request_bytes r [];
        line = line_of_room [] room;
        ended = returned (opened r file_size block_count (kept_epoch host epoch) chosen);
      }
  unfolding client_open
  client_open-accepted =
      let reply = reply_bytes r file_size block_count epoch in
      let rest =
        to_bytes 8 file_size
        ++ (to_bytes 4 r.block_size ++ (to_bytes 4 block_count ++ (to_bytes 4 epoch ++ []))) in
      rw
        (
          client_open,
          send-room (name ++ b'\n' ∷ []) reply (length name + 21 + room) (20 + room)
              (omega (arith, length-append name (b'\n' ∷ []))),
          read_byte failed 0 rest (20 + room),
          send-room (to_bytes 4 r.block_size) rest (20 + room) (16 + room)
              (omega (arith, length-to_bytes 4 r.block_size)),
          send-room (to_bytes 4 r.target_rate) rest (16 + room) (12 + room)
              (omega (arith, length-to_bytes 4 r.target_rate)),
          send-room (to_bytes 4 r.error_rate) rest (12 + room) (8 + room)
              (omega (arith, length-to_bytes 4 r.error_rate)),
          send-room (to_bytes 2 r.slower_num) rest (8 + room) (6 + room)
              (omega (arith, length-to_bytes 2 r.slower_num)),
          send-room (to_bytes 2 r.slower_den) rest (6 + room) (4 + room)
              (omega (arith, length-to_bytes 2 r.slower_den)),
          send-room (to_bytes 2 r.faster_num) rest (4 + room) (2 + room)
              (omega (arith, length-to_bytes 2 r.faster_num)),
          send-room (to_bytes 2 r.faster_den) rest (2 + room) room
              (omega (arith, length-to_bytes 2 r.faster_den)),
          read-size host file_size _ room size_fits,
          read-to_bytes failed 4 r.block_size _ room w.block_size_fits,
          ==-refl r.block_size,
          read-to_bytes failed 4 block_count _ room count_fits,
          read-epoch host epoch [] room epoch_fits,
          can_write,
          estimate,
          wide,
        )
        refl

-- A request for one file that the server has and can describe, over lines that let everything through.
pub record IsGood (shared : Shared) (r : Request) (name content : List ℕ) (now : ℕ) : Type 0 where
  pub plain : IsPlain name
  pub short : length name < max_filename_length
  pub no_list : same_text name dirlist_command ≡ false
  pub no_star : same_text name (b'*' ∷ []) ≡ false
  pub there : shared.content name ≡ some content
  pub words : IsRequest r
  pub block_size_wide : 8 * r.block_size % 2 ^ 32 ≢ 0
  pub target_rate_pos : 0 < r.target_rate
  pub size_fits : length content < 2 ^ 64
  pub now_fits : now < 2 ^ 32

pub block_size_pos : (n : ℕ) → 8 * n % 2 ^ 32 ≢ 0 → 0 < n
block_size_pos zero h = absurd (h refl)
block_size_pos (suc n) h = omega arith

pub count_blocks_fits : (block_size file_size : ℕ) → count_blocks block_size file_size < 2 ^ 32
unfolding count_blocks
count_blocks_fits block_size file_size = omega arith

module _ (server_host : Host) (shared : Shared) (r : Request) (name content : List ℕ)
    (now size room : ℕ) (good : IsGood shared r name content now) where
  -- The server on a good request.
  pub server_open-accepts :
      (rest : List ℕ)
      → server_open server_host now size shared
          (line_of_room (name ++ b'\n' ∷ request_bytes r rest) (21 + room))
        ≡ record {
          sent =
              reply_bytes r
                (length content)
                (count_blocks r.block_size (length content))
                (kept_epoch server_host now);
          line = line_of_room rest room;
          ended = returned (served r now name content);
        }
  unfolding server_open serve
  server_open-accepts rest =
      rw
        (
          server_open,
          read_line-newline max_filename_length name (request_bytes r rest) (21 + room) good.plain
              good.short,
          serve,
          good.no_list,
          good.no_star,
          serve_file-accepts server_host r now room name content rest
              (block_size_pos r.block_size good.block_size_wide) good.target_rate_pos good.size_fits
              good.now_fits shared good.there good.words,
        )
        refl

module _ (client_host server_host : Host) (shared : Shared) (writable : List ℕ → Bool) (r : Request)
    (name local chosen content : List ℕ) (now size room : ℕ)
    (good : IsGood shared r name content now)
    (can_write : local_file writable local ≡ some chosen) where
  -- Each side is given what the other one sends, on hosts of any byte order with a time_t of 64 bits, over a connection that
  -- works. The request is good: the name has no zero and no newline, fits the buffer of the server,
  -- is neither `*` nor the request for a list, and names a file of the server; the parameters fit
  -- their types; 8 times the block size is not 0 in 32 bits; the rate is not 0; the size of the
  -- file fits 64 bits and the time 32 bits; and the client can create its file. Then both sides
  -- succeed, each has read all that the other sent, the server holds the client's parameters, and
  -- both have the size of the file and the number of blocks in common; the epoch that the client has is
  -- that of the server if both hosts are little-endian, and 0 if one is big-endian.
  pub open-agrees :
      let block_count = count_blocks r.block_size (length content) in
      let from_client = name ++ b'\n' ∷ request_bytes r [] in
      let from_server = reply_bytes r (length content) block_count (kept_epoch server_host now) in
      let client =
        client_open client_host writable name local r
          (line_of_room from_server (length name + 21 + room)) in
      let server = server_open server_host now size shared (line_of_room from_client (21 + room)) in
      (client.sent ≡ from_client)
      × (server.sent ≡ from_server)
      × (client.line.incoming ≡ [])
      × (server.line.incoming ≡ [])
      × (client.ended
          ≡ returned (
              opened r
                (length content)
                block_count
                (epoch_between client_host server_host now)
                chosen))
      × (server.ended ≡ returned (served r now name content))
  open-agrees =
      let client =
        client_open-accepted client_host writable r good.words name local chosen (length content)
          (count_blocks r.block_size (length content)) (kept_epoch server_host now) room
          good.size_fits (count_blocks_fits r.block_size (length content))
          (kept_epoch-lt server_host now good.now_fits) can_write
          (ne→==_false _ 0 good.block_size_wide) in
      let server = server_open-accepts server_host shared r name content now size room good [] in
      (
        ap (λ o. o.sent) client ∙ append_assoc name (b'\n' ∷ []) (request_bytes r []),
        ap (λ o. o.sent) server,
        ap (λ o. o.line.incoming) client,
        ap (λ o. o.line.incoming) server,
        ap (λ o. o.ended) client,
        ap (λ o. o.ended) server,
      )
