-- ===== src/Negotiation/Tests.antt =====
-- A concrete server, file and request for the theorems on the negotiation.
use tsunami_udp.Prelude.{
  ℕ, ◌+◌, ◌≡◌, ◌==◌, refl, Bool, true, List, [], ◌∷◌, ◌++◌, Option, none, some, arith, length, inl,
  if◌then◌else◌,
}
use tsunami_udp.Wire.{to_bytes, little_endian}
use tsunami_udp.Wire.Connection.{failed, faults, hangs, returned}
use tsunami_udp.Wire.Connection.Laws.{line_of_room}
use tsunami_udp.Wire.Connection.Lines.{IsPlain}
use tsunami_udp.Negotiation.{
  Request, Shared, client_negotiate, server_negotiate, client_open, server_open, count_blocks,
  not_found, local_file, same_text,
}
use tsunami_udp.Negotiation.Revision.{verdict, negotiate-agrees}
use tsunami_udp.Negotiation.Accept.{IsRequest, request_bytes, reply_bytes, served}
use tsunami_udp.Negotiation.Agreement.{IsGood, opened, open-agrees}
use tsunami_udp.Negotiation.Refusal.{IsName, open-refused, open-zero, open-cut_off}

-- The revision of the protocol, and an older one.
abbrev revision : ℕ
revision = 0x20061025

abbrev old_revision : ℕ
old_revision = 0x20060816

negotiate-agrees_example :
    let client = client_negotiate revision (line_of_room (to_bytes 4 old_revision ++ []) (4 + 0)) in
    let server = server_negotiate old_revision (line_of_room (to_bytes 4 revision ++ []) (4 + 0)) in
    (client.sent ≡ to_bytes 4 revision)
    × (server.sent ≡ to_bytes 4 old_revision)
    × (client.ended ≡ verdict (revision == old_revision))
    × (server.ended ≡ verdict (revision == old_revision))
negotiate-agrees_example = negotiate-agrees revision old_revision 0 (omega arith) (omega arith)

abbrev pub name : List ℕ
name = b'a' ∷ []

abbrev pub missing : List ℕ
missing = b'b' ∷ []

abbrev pub content : List ℕ
content = 1 ∷ 2 ∷ 3 ∷ 4 ∷ 5 ∷ []

abbrev pub files : List ℕ → Option (List ℕ)
files [] = none
files (c ∷ rest) = if c == b'a' then some content else none

abbrev pub shared : Shared
shared = record { content = files; listed = (name, 5) ∷ []; allhook = none }

abbrev pub asked : Request
asked = record {
  block_size = 2;
  target_rate = 650;
  error_rate = 7500;
  slower_num = 25;
  slower_den = 24;
  faster_num = 5;
  faster_den = 6;
}

abbrev zero_request : Request
zero_request = record asked { block_size = 0 }

pub name-IsPlain : IsPlain name
name-IsPlain = ((λ e. omega (arith, e)), (λ e. omega (arith, e)), tt)

missing-IsPlain : IsPlain missing
missing-IsPlain = ((λ e. omega (arith, e)), (λ e. omega (arith, e)), tt)

asked-IsRequest : IsRequest asked
asked-IsRequest = ground arith

zero_asked-IsRequest : IsRequest zero_request
zero_asked-IsRequest = ground arith

name-IsName : IsName name
unfolding same_text
name-IsName = record { plain = name-IsPlain; short = omega arith; no_list = refl; no_star = refl }

pub missing-IsName : IsName missing
unfolding same_text
missing-IsName = record {
  plain = missing-IsPlain;
  short = omega arith;
  no_list = refl;
  no_star = refl;
}

pub asked-IsGood : IsGood shared asked name content 1700000000
unfolding same_text
asked-IsGood = record {
  plain = name-IsPlain;
  short = omega arith;
  no_list = refl;
  no_star = refl;
  there = refl;
  words = asked-IsRequest;
  block_size_wide = λ e. omega (arith, e);
  target_rate_pos = omega arith;
  size_fits = omega arith;
  now_fits = omega arith;
}

abbrev pub anywhere : List ℕ → Bool
anywhere path = true

pub anywhere-writable : local_file anywhere name ≡ some name
unfolding local_file
anywhere-writable = refl

open-agrees_example :
    let block_count = count_blocks 2 5 in
    let from_client = name ++ b'\n' ∷ request_bytes asked [] in
    let from_server = reply_bytes asked 5 block_count 1700000000 in
    let client =
      client_open little_endian anywhere name name asked
        (line_of_room from_server (length name + 21 + 0)) in
    let server =
      server_open little_endian 1700000000 2 shared (line_of_room from_client (21 + 0)) in
    (client.sent ≡ from_client)
    × (server.sent ≡ from_server)
    × (client.line.incoming ≡ [])
    × (server.line.incoming ≡ [])
    × (client.ended ≡ returned (opened asked 5 block_count 1700000000 name))
    × (server.ended ≡ returned (served asked 1700000000 name content))
open-agrees_example =
    open-agrees little_endian little_endian shared anywhere asked name name name content 1700000000
      2 0 asked-IsGood anywhere-writable

open-refused_example :
    let from_client = missing ++ b'\n' ∷ [] in
    let client =
      client_open little_endian anywhere missing missing asked
        (line_of_room not_found (length missing + 1 + 0)) in
    let server = server_open little_endian 1700000000 2 shared (line_of_room from_client (1 + 0)) in
    (client.sent ≡ from_client)
    × (server.sent ≡ not_found)
    × (client.ended ≡ failed)
    × (server.ended ≡ failed)
open-refused_example =
    open-refused little_endian shared missing 1700000000 2 missing-IsName anywhere missing asked 0
      refl

open-zero_example :
    let server =
      server_open little_endian 1700000000 2 shared
        (line_of_room (name ++ b'\n' ∷ request_bytes zero_request []) (21 + 0)) in
    server.ended ≡ faults
open-zero_example =
    open-zero little_endian shared name 1700000000 2 name-IsName content refl zero_request 0
      zero_asked-IsRequest (inl refl)

-- The client goes away after 3 bytes of its parameters.
open-cut_off_example :
    (server_open little_endian 1700000000 2 shared
      (line_of_room (name ++ b'\n' ∷ (0 ∷ 0 ∷ 4 ∷ [])) (1 + 0))).ended
    ≡ hangs
open-cut_off_example =
    open-cut_off little_endian shared name 1700000000 2 name-IsName content refl (0 ∷ 0 ∷ 4 ∷ []) 0
      (omega arith)
