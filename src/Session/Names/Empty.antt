-- ===== src/Session/Names/Empty.antt =====
-- `get *` at a server without files.
use tsunami_udp.Prelude.{
  ℕ, ◌+◌, ◌^◌, ◌<◌, ◌≡◌, refl, List, [], ◌∷◌, ◌++◌, arith, length, append-nil, drop, none,
}
use tsunami_udp.Decimal.{atol}
use tsunami_udp.Decimal.RoundTrip.{atol-printed}
use tsunami_udp.Wire.{from_bytes, Host}
use tsunami_udp.Wire.Connection.{hangs}
use tsunami_udp.Wire.Connection.Laws.{
  line_of_room, full_write-room, send-room, read_or-bytes, read_or-end,
}
use tsunami_udp.Wire.Connection.Lines.{read_line-newline}
use tsunami_udp.Negotiation.{
  Shared, field, write_names, serve_names, serve_star, serve_all, serve, server_open,
  max_filename_length,
}
use tsunami_udp.Listing.{text_of, overwrite}
use tsunami_udp.Session.Names.{got_size, names_or_fail, client_names}
use tsunami_udp.Session.Names.Fields.{length-field, text_of-field, fread_field-field}

-- Without a file to list and without a program, the client asks for a list, is told that there is none
-- and then waits for ever for one more byte, which the server does not send, while the server waits for
-- ever for the rest of an answer that the client does not send. Each side is given what the other one sends; the number that comes first is below 2^16.
pub get_all-deadlock :
    (shared : Shared) (size now room : ℕ) (host : Host) (filearray_size file_count tmpname : List ℕ)
    → size < 2 ^ 16
    → shared.listed ≡ []
    → shared.allhook ≡ none
    → let from_client = b'*' ∷ b'\n' ∷ got_size in
      let from_server = field size ++ (field 0 ++ []) in
      let client =
        client_names filearray_size file_count tmpname (line_of_room from_server (10 + room)) in
      let server = server_open host now size shared (line_of_room from_client (20 + room)) in
      (client ≡ record { sent = from_client; line = line_of_room [] room; ended = hangs })
      × (server ≡ record { sent = from_server; line = line_of_room [] room; ended = hangs })
unfolding client_names names_or_fail server_open serve serve_all serve_star serve_names write_names
get_all-deadlock shared size now room host filearray_size file_count tmpname fits none_listed
      no_program =
    let number : atol 32 (text_of (overwrite (field 0) file_count)) ≡ 0 =
      rw (text_of-field 0 (omega arith) (drop (length (field 0)) file_count))
        (atol-printed 32 0 (omega arith) (omega arith)) in
    (
      rw
          (
            client_names,
            full_write-room (b'*' ∷ b'\n' ∷ []) (field size ++ (field 0 ++ [])) (10 + room)
                (8 + room) (omega arith),
            fread_field-field size fits filearray_size (field 0 ++ []) (8 + room),
            fread_field-field 0 (omega arith) file_count [] (8 + room),
            send-room got_size [] (8 + room) room (omega arith),
            number,
            read_or-end hangs 0 (from_bytes 0) room,
          )
          refl,
      rw
          (
            server_open,
            read_line-newline max_filename_length (b'*' ∷ []) got_size (20 + room) (ground arith)
                (omega arith),
            serve,
            serve_all,
            no_program,
            none_listed,
            serve_star,
            serve_names,
            full_write-room (field size) got_size (20 + room) (10 + room)
                (omega (arith, length-field size fits)),
            full_write-room (field 0) got_size (10 + room) room
                (omega (arith, length-field 0 (omega arith))),
            read_or-bytes hangs (from_bytes 0) got_size [] room,
            read_or-end hangs 7 (from_bytes 0) room,
            append-nil (field size ++ (field 0 ++ [])),
          )
          refl,
    )
