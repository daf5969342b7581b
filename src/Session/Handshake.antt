-- ===== src/Session/Handshake.antt =====
-- The start of a session: command_connect of the client and client_handler of the server up to its loop.
use tsunami_udp.Prelude.{
  ℕ, ◌+◌, ◌^◌, ◌<◌, ◌≡◌, ◌≢◌, refl, List, [], ◌∷◌, ◌++◌, ==-refl, length, arith, Option, some,
  append-nil, append_assoc,
}
use tsunami_udp.Wire.{to_bytes}
use tsunami_udp.Wire.Laws.{length-to_bytes}
use tsunami_udp.Wire.Connection.{Line, Ended, failed, hangs, fatal_ending}
use tsunami_udp.Wire.Connection.Laws.{
  gives, line_of_room, read-to_bytes, full_write-room, send-room,
}
use tsunami_udp.Authentication.{xor_secret}
use tsunami_udp.Authentication.Laws.{
  verdict, ending, client_authenticate-proves, server_authenticate-answers,
}
use tsunami_udp.Negotiation.{client_negotiate, server_negotiate}
use tsunami_udp.Console.Settings.{Parameters}
use tsunami_udp.Session.{with_server, secret_of, client_connect, command_connect, admit}

module _ (revision : ℕ) (fits : revision < 2 ^ 32) (rest : List ℕ) (room left : ℕ)
    (enough : room ≡ 4 + left) where
  client_negotiate-same :
      client_negotiate revision (line_of_room (to_bytes 4 revision ++ rest) room)
      ≡ gives (to_bytes 4 revision) rest left tt
  unfolding client_negotiate
  client_negotiate-same =
      rw
        (
          client_negotiate,
          send-room (to_bytes 4 revision) (to_bytes 4 revision ++ rest) room left
              (omega (arith, enough, length-to_bytes 4 revision)),
          read-to_bytes failed 4 revision rest left fits,
          ==-refl revision,
          append-nil (to_bytes 4 revision),
        )
        refl

  server_negotiate-same :
      server_negotiate revision (line_of_room (to_bytes 4 revision ++ rest) room)
      ≡ gives (to_bytes 4 revision) rest left tt
  unfolding server_negotiate
  server_negotiate-same =
      rw
        (
          server_negotiate,
          full_write-room (to_bytes 4 revision) (to_bytes 4 revision ++ rest) room left
              (omega (arith, enough, length-to_bytes 4 revision)),
          read-to_bytes hangs 4 revision rest left fits,
          ==-refl revision,
          append-nil (to_bytes 4 revision),
        )
        refl

-- How the server ends, whose failures end the process.
abbrev pub admitted : {P : Type 0} → Dec P → Ended (Unit {0})
admitted same = fatal_ending (ending same)

-- What the two sides send.
abbrev pub from_client : (List ℕ → List ℕ) → ℕ → List ℕ → List ℕ → List ℕ
from_client md5_digest revision secret challenge =
    to_bytes 4 revision ++ md5_digest (xor_secret secret 0 challenge)

abbrev pub from_server : ℕ → List ℕ → {P : Type 0} → Dec P → List ℕ
from_server revision challenge same = to_bytes 4 revision ++ (challenge ++ (verdict same ∷ []))

module _ (md5_digest : List ℕ → List ℕ) (sixteen : (xs : List ℕ) → length (md5_digest xs) ≡ 16)
    (revision : ℕ) (fits : revision < 2 ^ 32) (challenge : List ℕ)
    (full : length challenge ≡ 64) where
  client_connect-ends :
      (secret : List ℕ) (room : ℕ)
      → length secret ≢ 0
      → {P : Type 0} (same : Dec P)
      → client_connect md5_digest revision secret
          (line_of_room (from_server revision challenge same) (20 + room))
        ≡ record {
          sent = from_client md5_digest revision secret challenge;
          line = line_of_room [] room;
          ended = ending same;
        }
  unfolding client_connect
  client_connect-ends secret room some_secret same =
      rw
        (
          client_connect,
          client_negotiate-same revision fits (challenge ++ (verdict same ∷ [])) (20 + room)
              (16 + room) (omega arith),
          client_authenticate-proves md5_digest secret challenge some_secret full [] room
              (sixteen (xor_secret secret 0 challenge)) same,
        )
        refl

  pub admit-ends :
      (client_secret server_secret rest : List ℕ) (room : ℕ)
      → length server_secret ≢ 0
      → (same : Dec (
          md5_digest (xor_secret client_secret 0 challenge)
          ≡ md5_digest (xor_secret server_secret 0 challenge)))
      → admit md5_digest revision (some challenge) server_secret (
          line_of_room
            (from_client md5_digest revision client_secret challenge ++ rest)
            (69 + room))
        ≡ record {
          sent = from_server revision challenge same;
          line = line_of_room rest room;
          ended = admitted same;
        }
  unfolding admit
  admit-ends client_secret server_secret rest room some_secret same =
      let digest = md5_digest (xor_secret client_secret 0 challenge) in
      rw
        (
          admit,
          append_assoc (to_bytes 4 revision) digest rest,
          server_negotiate-same revision fits (digest ++ rest) (69 + room) (65 + room)
              (omega arith),
          server_authenticate-answers md5_digest server_secret challenge some_secret full digest
              rest room (sixteen (xor_secret client_secret 0 challenge)) same,
        )
        refl

  -- The words of a command name the server, or leave the one of before, and the host can be reached; the
  -- secrets of the two sides are not empty, the server has a challenge of 64 bytes and digests have 16.
  -- Each side is given what the other one sends, over a connection that works, with the same revision.
  -- Then the client sends its revision and the proof of its passphrase, or of the default; the server
  -- sends its revision, its challenge and a verdict; and both go on if the two secrets give the same
  -- digest, and else the client gives the connection up and the process of the server ends.
  pub connect-agrees :
      (words : List (List ℕ)) (p : Parameters) (server_secret : List ℕ) (room : ℕ)
      (reach : List ℕ → ℕ → Option Line)
      → let q = with_server words p in
        let secret = secret_of q.passphrase in
        length secret ≢ 0
        → length server_secret ≢ 0
        → (same : Dec (
            md5_digest (xor_secret secret 0 challenge)
            ≡ md5_digest (xor_secret server_secret 0 challenge)))
        → reach q.server_name q.server_port
          ≡ some (line_of_room (from_server revision challenge same) (20 + room))
        → (command_connect md5_digest revision reach words p ≡ (
          q,
          some (record {
            sent = from_client md5_digest revision secret challenge;
            line = line_of_room [] room;
            ended = ending same;
          }),
        ))
          × (admit md5_digest revision
                (some challenge)
                server_secret
                (line_of_room (from_client md5_digest revision secret challenge ++ []) (69 + room))
              ≡ record {
                sent = from_server revision challenge same;
                line = line_of_room [] room;
                ended = admitted same;
              })
  unfolding command_connect
  connect-agrees words p server_secret room reach some_client some_server same reached =
      let q = with_server words p in
      let secret = secret_of q.passphrase in
      (
        rw (command_connect, reached, client_connect-ends secret room some_client same) refl,
        admit-ends secret server_secret [] room some_server same,
      )
