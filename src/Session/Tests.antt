-- ===== src/Session/Tests.antt =====
-- A concrete server and a concrete client for the theorems on a session.
use tsunami_udp.Prelude.{
  ℕ, ◌+◌, ◌≡◌, ◌≢◌, refl, true, List, [], ◌∷◌, ◌++◌, Option, none, some, take, replicate, length,
  length-take, length-append, arith, map, All,
}
use tsunami_udp.Wire.{little_endian, big_endian, to_bytes}
use tsunami_udp.Wire.Connection.{hangs, Line}
use tsunami_udp.Wire.Connection.Laws.{line_of_room, gives}
use tsunami_udp.Authentication.{xor_secret}
use tsunami_udp.Authentication.Laws.{ending}
use tsunami_udp.Negotiation.{server_open, field, count_blocks, Shared}
use tsunami_udp.Negotiation.Accept.{reply_bytes, request_bytes, served}
use tsunami_udp.Negotiation.Agreement.{opened}
use tsunami_udp.Negotiation.Tests.{
  name, missing, content, files, shared, asked, anywhere, name-IsPlain, missing-IsName,
  asked-IsGood, anywhere-writable,
}
use tsunami_udp.Listing.Agreement.{IsListed}
use tsunami_udp.Console.Settings.{default_parameters}
use tsunami_udp.Session.{
  default_secret, with_server, command_connect, admit, UdpNetwork, negotiate_transfer,
  handle_requests,
}
use tsunami_udp.Session.Handshake.{from_client, from_server, admitted, connect-agrees}
use tsunami_udp.Session.Serve.{
  Errand, absent, listing, IsErrand, all_asked, all_answered, handle_requests-recovers,
}
use tsunami_udp.Session.Names.{client_names, start_get, got_size, got_list}
use tsunami_udp.Session.Names.Fields.{names_bytes, IsNamed}
use tsunami_udp.Session.Names.Agreement.{numbers, get_all-agrees}
use tsunami_udp.Session.Names.Empty.{get_all-deadlock}

-- 16 bytes in place of the digest.
abbrev first_bytes : List ℕ → List ℕ
first_bytes bytes = take 16 (bytes ++ replicate 16 0)

length-first_bytes : (bytes : List ℕ) → length (first_bytes bytes) ≡ 16
length-first_bytes bytes =
    omega (arith, length-take 16 (bytes ++ replicate 16 0), length-append bytes (replicate 16 0))

abbrev challenge : List ℕ
challenge = replicate 64 7

abbrev proof : List ℕ
proof = first_bytes (xor_secret default_secret 0 challenge)

default_secret-not_empty : length default_secret ≢ 0
default_secret-not_empty e = absurd (omega (arith, e))

-- A server that is reached wherever it is, and one with the secret of the client.
abbrev reach : List ℕ → ℕ → Option Line
reach host port =
    some (line_of_room (from_server 7 challenge {P = proof ≡ proof} (yes refl)) (20 + 0))

connect-agrees_example :
    (command_connect first_bytes 7 reach [] default_parameters ≡ (
      default_parameters,
      some (record {
        sent = from_client first_bytes 7 default_secret challenge;
        line = line_of_room [] 0;
        ended = ending {P = proof ≡ proof} (yes refl);
      }),
    ))
    × (admit first_bytes 7
          (some challenge)
          default_secret
          (line_of_room (from_client first_bytes 7 default_secret challenge ++ []) (69 + 0))
        ≡ record {
          sent = from_server 7 challenge {P = proof ≡ proof} (yes refl);
          line = line_of_room [] 0;
          ended = admitted {P = proof ≡ proof} (yes refl);
        })
unfolding with_server
connect-agrees_example =
    connect-agrees first_bytes length-first_bytes 7 (omega arith) challenge refl []
      default_parameters default_secret 0 reach default_secret-not_empty default_secret-not_empty
      (yes refl) refl

abbrev network : UdpNetwork
network = record { address_known = true; socket_created = true }

shared-IsListed : All IsListed shared.listed
shared-IsListed = ((name-IsPlain, omega arith, omega arith), tt)

-- A file that is missing, the list, and then a file.
abbrev errands : List (ℕ × Errand)
errands = (1600000000, absent missing) ∷ (1650000000, listing) ∷ []

errands-IsErrand : All (λ e. IsErrand shared e.1) errands
errands-IsErrand = ((missing-IsName, refl), (tt, tt))

handle_requests-recovers_example :
    let block_count = count_blocks 2 5 in
    let last = name ++ b'\n' ∷ request_bytes asked (to_bytes 2 46224 ++ []) in
    handle_requests little_endian 2 shared network
      (map (λ e. e.0) errands ++ 1700000000 ∷ [])
      (line_of_room (all_asked errands last) (length (all_answered shared errands) + (21 + 0)))
    ≡ gives
        (all_answered shared errands ++ reply_bytes asked 5 block_count 1700000000)
        []
        0
        (some (served asked 1700000000 name content, 46224))
handle_requests-recovers_example =
    handle_requests-recovers little_endian 2 shared shared-IsListed (omega arith) network refl refl
      asked name content 1700000000 46224 asked-IsGood (omega arith) [] 0 errands []
      errands-IsErrand

name-IsNamed : All IsNamed (name ∷ [])
name-IsNamed = ((name-IsPlain, omega arith), tt)

abbrev get_word : List ℕ
get_word = b'g' ∷ b'e' ∷ b't' ∷ []

get_all-agrees_example :
    let block_count = count_blocks 2 5 in
    let names = names_bytes (name ∷ []) [] in
    let sent =
      numbers 2
        (name ∷ [])
        (names_bytes (name ∷ []) (reply_bytes asked 5 block_count 1700000000)) in
    let received =
      b'*'
      ∷ b'\n'
      ∷ (got_size
          ++ (got_list ++ (name ++ b'\n' ∷ request_bytes asked (to_bytes 2 46224 ++ [])))) in
    let client =
      start_get little_endian anywhere [] [] []
        (get_word ∷ (b'*' ∷ []) ∷ [])
        asked
        (some 46224)
        (line_of_room sent (10 + (8 + (length name + 21 + (2 + 0))))) in
    let server =
      negotiate_transfer little_endian 2 shared network 1700000000
        (line_of_room received (20 + (length names + (21 + 0)))) in
    (client ≡ gives received [] 0 (name ∷ [], opened asked 5 block_count 1700000000 name))
    × (server ≡ gives sent [] 0 (some (served asked 1700000000 name content, 46224)))
get_all-agrees_example =
    get_all-agrees little_endian little_endian shared 2 2 1700000000 46224 0 anywhere asked name
      name content [] (omega arith) (omega arith) refl (omega arith) name-IsNamed asked-IsGood
      anywhere-writable network refl refl [] [] [] get_word []

abbrev nothing_shared : Shared
nothing_shared = record { content = files; listed = []; allhook = none }

get_all-deadlock_example :
    let asked_for = b'*' ∷ b'\n' ∷ got_size in
    let answer = field 0 ++ (field 0 ++ []) in
    (client_names [] [] [] (line_of_room answer (10 + 0))
      ≡ record { sent = asked_for; line = line_of_room [] 0; ended = hangs })
    × (server_open big_endian 1700000000 0 nothing_shared (line_of_room asked_for (20 + 0))
        ≡ record { sent = answer; line = line_of_room [] 0; ended = hangs })
get_all-deadlock_example =
    get_all-deadlock nothing_shared 0 1700000000 0 big_endian [] [] [] (omega arith) refl refl
