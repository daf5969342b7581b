-- ===== src/Negotiation/Revision.antt =====
-- When the two sides agree on the protocol: ttp_negotiate of client and server.
use tsunami_udp.Prelude.{
  ℕ, ◌+◌, ◌^◌, ◌<◌, ◌≡◌, refl, ap, Bool, true, false, List, [], ◌++◌, ◌==◌, append-nil, arith,
  if◌then◌else◌,
}
use tsunami_udp.Wire.{to_bytes}
use tsunami_udp.Wire.Laws.{length-to_bytes}
use tsunami_udp.Wire.Connection.{Line, Ended, returned, failed, hangs, after, check}
use tsunami_udp.Wire.Connection.Laws.{read-to_bytes, full_write-room, send-room, line_of_room}
use tsunami_udp.Negotiation.{client_negotiate, server_negotiate}

-- Success or failure, by a test.
abbrev pub verdict : Bool → Ended (Unit {0})
verdict agree = if agree then returned tt else failed

check_last :
    (agree : Bool) (sent : List ℕ) (line : Line)
    → after sent (after [] (check agree line))
      ≡ record { sent = sent; line = line; ended = verdict agree }
check_last true sent line = rw (append-nil sent) refl
check_last false sent line = rw (append-nil sent) refl

module _ (client_revision server_revision room : ℕ) (c : client_revision < 2 ^ 32)
    (s : server_revision < 2 ^ 32) where
  client-verdict :
      client_negotiate client_revision (line_of_room (to_bytes 4 server_revision ++ []) (4 + room))
      ≡ record {
        sent = to_bytes 4 client_revision;
        line = line_of_room [] room;
        ended = verdict (client_revision == server_revision);
      }
  unfolding client_negotiate
  client-verdict =
      rw
        (
          client_negotiate,
          send-room (to_bytes 4 client_revision) (to_bytes 4 server_revision ++ []) (4 + room) room
              (omega (arith, length-to_bytes 4 client_revision)),
          read-to_bytes failed 4 server_revision [] room s,
        )
        (check_last (client_revision == server_revision) (to_bytes 4 client_revision)
          (line_of_room [] room))

  server-verdict :
      server_negotiate server_revision (line_of_room (to_bytes 4 client_revision ++ []) (4 + room))
      ≡ record {
        sent = to_bytes 4 server_revision;
        line = line_of_room [] room;
        ended = verdict (client_revision == server_revision);
      }
  unfolding server_negotiate
  server-verdict =
      rw
        (
          server_negotiate,
          full_write-room (to_bytes 4 server_revision) (to_bytes 4 client_revision ++ []) (4 + room)
              room (omega (arith, length-to_bytes 4 server_revision)),
          read-to_bytes hangs 4 client_revision [] room c,
        )
        (check_last (client_revision == server_revision) (to_bytes 4 server_revision)
          (line_of_room [] room))

  -- Each side given what the other sends, over a connection that works: both succeed if the revisions
  -- are the same, and both fail if they are not.
  pub negotiate-agrees :
      let client =
        client_negotiate client_revision
          (line_of_room (to_bytes 4 server_revision ++ []) (4 + room)) in
      let server =
        server_negotiate server_revision
          (line_of_room (to_bytes 4 client_revision ++ []) (4 + room)) in
      (client.sent ≡ to_bytes 4 client_revision)
      × (server.sent ≡ to_bytes 4 server_revision)
      × (client.ended ≡ verdict (client_revision == server_revision))
      × (server.ended ≡ verdict (client_revision == server_revision))
  negotiate-agrees = (
    ap (λ o. o.sent) client-verdict,
    ap (λ o. o.sent) server-verdict,
    ap (λ o. o.ended) client-verdict,
    ap (λ o. o.ended) server-verdict,
  )
