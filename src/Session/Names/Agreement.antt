-- ===== src/Session/Names/Agreement.antt =====
-- The start of `get *` on both sides, over a connection that works.
use tsunami_udp.Prelude.{
  ℕ, ◌+◌, ◌^◌, ◌<◌, ◌≢◌, ◌≡◌, refl, ap, Bool, true, List, [], ◌∷◌, ◌++◌, ne→==_false, arith, length,
  append_assoc, append-nil, All, drop, some,
}
use tsunami_udp.Decimal.{atol}
use tsunami_udp.Decimal.RoundTrip.{atol-printed}
use tsunami_udp.Wire.{to_bytes, from_bytes, Host}
use tsunami_udp.Wire.Laws.{length-to_bytes}
use tsunami_udp.Wire.Connection.{hangs}
use tsunami_udp.Wire.Connection.Laws.{
  gives, line_of_room, full_write-room, send-room, read_or-bytes,
}
use tsunami_udp.Wire.Connection.Lines.{IsPlain, read_line-newline}
use tsunami_udp.Negotiation.{
  Request, Shared, count_blocks, field, serve_names, serve_all, serve, server_open,
  max_filename_length, local_file,
}
use tsunami_udp.Negotiation.Epoch.{kept_epoch, kept_epoch-lt}
use tsunami_udp.Negotiation.Agreement.{epoch_between}
use tsunami_udp.Negotiation.Accept.{request_bytes, reply_bytes, served, serve_file-accepts}
use tsunami_udp.Negotiation.Agreement.{
  IsGood, opened, client_open-accepted, block_size_pos, count_blocks_fits,
}
use tsunami_udp.Listing.{text_of, overwrite}
use tsunami_udp.Session.Names.{got_size, got_list, client_names, get_all}
use tsunami_udp.Session.{UdpNetwork, client_open_port, negotiate_transfer}
use tsunami_udp.Session.Serve.{open_port-reads}
use tsunami_udp.Session.Names.{start_get}
use tsunami_udp.Session.Names.Fields.{
  names_bytes, IsNamed, names_of, length-field, text_of-field, fread_field-field, read_names-bytes,
  write_names-bytes, names_or_fail-some, names_bytes-append, announced, serve_star-announced,
}

-- The two numbers that come first.
abbrev pub numbers : ℕ → List (List ℕ) → List ℕ → List ℕ
numbers size names rest = field size ++ (field (length names) ++ rest)

module _ (names : List (List ℕ)) (size : ℕ) (size_fits : size < 2 ^ 16)
    (few : length names < 2 ^ 16) where
  client_names-reads :
      (filearray_size file_count tmpname rest : List ℕ) (room : ℕ)
      → length names ≢ 0
      → All IsNamed names
      → client_names filearray_size file_count tmpname
          (line_of_room (numbers size names (names_bytes names rest)) (10 + room))
        ≡ gives (b'*' ∷ b'\n' ∷ got_size) rest room names
  unfolding client_names
  client_names-reads filearray_size file_count tmpname rest room some_files all =
      let count = length names in
      let text = names_bytes names rest in
      let number : atol 32 (text_of (overwrite (field count) file_count)) ≡ count =
        rw (text_of-field count few (drop (length (field count)) file_count))
          (atol-printed 32 count (omega (arith, few)) (omega (arith, few))) in
      rw
        (
          client_names,
          full_write-room (b'*' ∷ b'\n' ∷ []) (field size ++ (field count ++ text)) (10 + room)
              (8 + room) (omega arith),
          fread_field-field size size_fits filearray_size (field count ++ text) (8 + room),
          fread_field-field count few file_count text (8 + room),
          send-room got_size text (8 + room) room (omega arith),
          number,
          names_or_fail-some count tmpname some_files,
          read_names-bytes names tmpname rest room all,
        )
        refl

  serve_names-sends :
      (name rest : List ℕ) (room : ℕ)
      → IsPlain name
      → length name < max_filename_length
      → serve_names size names (
          line_of_room
            (got_size ++ (got_list ++ (name ++ b'\n' ∷ rest)))
            (20 + (length (names_bytes names []) + room)))
        ≡ gives (numbers size names (names_bytes names [])) rest room name
  unfolding serve_names
  serve_names-sends name rest room plain short =
      let count = length names in
      let text = length (names_bytes names []) in
      let more = got_list ++ (name ++ b'\n' ∷ rest) in
      rw
        (
          serve_names,
          full_write-room (field size) (got_size ++ more) (20 + (text + room)) (10 + (text + room))
              (omega (arith, length-field size size_fits)),
          full_write-room (field count) (got_size ++ more) (10 + (text + room)) (text + room)
              (omega (arith, length-field count few)),
          read_or-bytes hangs (from_bytes 0) got_size more (text + room),
          write_names-bytes names more room,
          read_or-bytes hangs (from_bytes 0) got_list (name ++ b'\n' ∷ rest) room,
          read_line-newline max_filename_length name rest room plain short,
          append-nil (names_bytes names []),
        )
        refl

request_bytes-append :
    (r : Request) (rest : List ℕ) → request_bytes r [] ++ rest ≡ request_bytes r rest
request_bytes-append r rest = simp append_assoc refl

module _ (client_host server_host : Host) (shared : Shared) (file_name_size size now port room : ℕ)
    (writable : List ℕ → Bool) (r : Request) (name chosen content : List ℕ) (others : List (List ℕ))
    (size_fits : size < 2 ^ 16) (port_fits : port < 2 ^ 16)
    (offers : announced file_name_size (names_of shared.listed) shared.allhook
      ≡ (name ∷ others, size))
    (few : length (name ∷ others) < 2 ^ 16) (all : All IsNamed (name ∷ others))
    (good : IsGood shared r name content now)
    (can_write : local_file writable name ≡ some chosen) where
  abbrev pub reply : List ℕ
  reply =
      reply_bytes r (length content) (count_blocks r.block_size (length content))
        (kept_epoch server_host now)

  abbrev pub request_text : List ℕ → List ℕ
  request_text rest = name ++ b'\n' ∷ request_bytes r rest

  get_all-opens :
      (filearray_size file_count tmpname : List ℕ)
      → get_all client_host writable filearray_size file_count tmpname r (
          line_of_room
            (numbers size (name ∷ others) (names_bytes (name ∷ others) reply))
            (10 + (8 + (length name + 21 + (2 + room)))))
        ≡ gives (b'*' ∷ b'\n' ∷ (got_size ++ (got_list ++ request_text []))) [] (2 + room) (
          name ∷ others,
          opened r
              (length content)
              (count_blocks r.block_size (length content))
              (epoch_between client_host server_host now)
              chosen,
        )
  unfolding get_all
  get_all-opens filearray_size file_count tmpname =
      let count = count_blocks r.block_size (length content) in
      rw
        (
          get_all,
          client_names-reads (name ∷ others) size size_fits few filearray_size file_count tmpname
              reply (8 + (length name + 21 + (2 + room))) (λ e. omega (arith, e)) all,
          send-room got_list reply (8 + (length name + 21 + (2 + room)))
              (length name + 21 + (2 + room)) (omega arith),
          client_open-accepted client_host writable r good.words name name chosen (length content)
              count (kept_epoch server_host now) (2 + room) good.size_fits
              (count_blocks_fits r.block_size (length content))
              (kept_epoch-lt server_host now good.now_fits) can_write
              (ne→==_false _ 0 good.block_size_wide),
          append-nil ((name ++ b'\n' ∷ []) ++ request_bytes r []),
          append_assoc name (b'\n' ∷ []) (request_bytes r []),
        )
        refl

  server_open-first :
      (rest : List ℕ)
      → server_open server_host now file_name_size shared (
          line_of_room
            (b'*' ∷ b'\n' ∷ (got_size ++ (got_list ++ request_text rest)))
            (20 + (length (names_bytes (name ∷ others) []) + (21 + room))))
        ≡ gives
            (numbers size (name ∷ others) (names_bytes (name ∷ others) reply))
            rest
            room
            (served r now name content)
  unfolding server_open serve serve_all
  server_open-first rest =
      let names = names_bytes (name ∷ others) [] in
      rw
        (
          server_open,
          read_line-newline max_filename_length (b'*' ∷ [])
              (got_size ++ (got_list ++ request_text rest)) (20 + (length names + (21 + room)))
              (ground arith) (omega arith),
          serve,
          serve_all,
          serve_star-announced file_name_size size (names_of shared.listed) others name
              shared.allhook offers,
          serve_names-sends (name ∷ others) size size_fits few name (request_bytes r rest)
              (21 + room) good.plain good.short,
          serve_file-accepts server_host r now room name content rest
              (block_size_pos r.block_size good.block_size_wide) good.target_rate_pos good.size_fits
              good.now_fits shared good.there good.words,
          append_assoc (field size) (field (length (name ∷ others)) ++ names) reply,
          append_assoc (field (length (name ∷ others))) names reply,
          names_bytes-append (name ∷ others) reply,
        )
        refl

  -- Each side is given what the other one sends, over a connection that works. The server has
  -- some files to announce, its own or those that its program prints, fewer than 2^16, and announces
  -- a sum of their lengths below 2^16; each name has no zero and no newline and is shorter than 1024 bytes; the first one makes a good
  -- request, as for open-agrees, and the client can create it; the port is below 2^16, and the server
  -- knows the receiver's address and can create a socket. Then `get *` gives the client the names that
  -- the server announces, in order, whatever its buffers held before; both sides have opened the first file,
  -- with the same size and number of blocks, and the epoch as for open-agrees; the server has the client's parameters and its port;
  -- and each side has read all that the other sent.
  pub get_all-agrees :
      (network : UdpNetwork)
      → network.address_known ≡ true
      → network.socket_created ≡ true
      → (filearray_size file_count tmpname command : List ℕ) (more : List (List ℕ))
      → let block_count = count_blocks r.block_size (length content) in
        let names = names_bytes (name ∷ others) [] in
        let from_server = numbers size (name ∷ others) (names_bytes (name ∷ others) reply) in
        let from_client =
          b'*' ∷ b'\n' ∷ (got_size ++ (got_list ++ request_text (to_bytes 2 port ++ []))) in
        let client =
          start_get client_host writable filearray_size file_count tmpname
            (command ∷ (b'*' ∷ []) ∷ more)
            r
            (some port)
            (line_of_room from_server (10 + (8 + (length name + 21 + (2 + room))))) in
        let server =
          negotiate_transfer server_host file_name_size shared network now
            (line_of_room from_client (20 + (length names + (21 + room)))) in
        (client
          ≡ gives from_client [] room (
            name ∷ others,
            opened r
                (length content)
                block_count
                (epoch_between client_host server_host now)
                chosen,
          ))
        × (server ≡ gives from_server [] room (some (served r now name content, port)))
  unfolding start_get client_open_port negotiate_transfer
  get_all-agrees network known created filearray_size file_count tmpname command more =
      let client = get_all-opens filearray_size file_count tmpname in
      let sent =
        send-room (to_bytes 2 port) [] (2 + room) room (omega (arith, length-to_bytes 2 port)) in
      (
        rw
            (
              start_get,
              client,
              client_open_port,
              sent,
              append_assoc name (b'\n' ∷ request_bytes r []) (to_bytes 2 port ++ []),
              request_bytes-append r (to_bytes 2 port ++ []),
            )
            refl,
        rw
            (
              negotiate_transfer,
              server_open-first (to_bytes 2 port ++ []),
              open_port-reads network known created port port_fits [] room,
            )
            (ap (λ t. gives t [] room (some (served r now name content, port)))
              (append-nil (numbers size (name ∷ others) (names_bytes (name ∷ others) reply)))),
      )
