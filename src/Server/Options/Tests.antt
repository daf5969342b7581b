-- ===== src/Server/Options/Tests.antt =====
-- A concrete start of the server with two files.
use tsunami_udp.Prelude.{
  ℕ, ◌+◌, ◌≡◌, ◌==◌, refl, List, [], ◌∷◌, ◌++◌, Option, none, some, true, arith, length, All,
  if◌then◌else◌,
}
use tsunami_udp.Decimal.{digits, atol}
use tsunami_udp.Wire.Connection.{failed, returned}
use tsunami_udp.Wire.Connection.Laws.{line_of_room}
use tsunami_udp.Wire.Connection.Lines.{IsPlain}
use tsunami_udp.Negotiation.{serve_listing}
use tsunami_udp.Negotiation.Tests.{name, name-IsPlain}
use tsunami_udp.Listing.{command_dir}
use tsunami_udp.Listing.Agreement.{IsListed, listing_bytes}
use tsunami_udp.Server.Options.{
  Settings, default_settings, OptionGiven, v6, port, client_is, measure, process_options, starts,
  shared_of,
}
use tsunami_udp.Server.Options.Given.{settings_of}
use tsunami_udp.Server.Options.Laws.{Exists, names_of, sharing, process_options-listing}

abbrev other : List ℕ
other = b'b' ∷ b'c' ∷ []

-- `a` has 5 bytes, and `bc` has 1500.
abbrev sizes : List ℕ → Option ℕ
sizes [] = none
sizes (c ∷ rest) = if c == b'a' then some 5 else if c == b'b' then some 1500 else none

abbrev files : List (List ℕ × ℕ)
files = (name, 5) ∷ (other, 1500) ∷ []

files-Exists : All (Exists sizes) files
files-Exists = (refl, (refl, tt))

other-IsPlain : IsPlain other
other-IsPlain = ground arith

files-IsListed : All IsListed files
files-IsListed =
    ((name-IsPlain, omega arith, omega arith), ((other-IsPlain, omega arith, omega arith), tt))

abbrev options : List OptionGiven
options = v6 ∷ port (b'8' ∷ b'0' ∷ []) ∷ client_is other ∷ []

abbrev given : Settings
given = record default_settings { ipv6_yn = true; tcp_port = 80; client = some other }

options-given : settings_of options default_settings ≡ given
unfolding atol
options-given = refl

process_options-listing_example :
    let from_server = digits 2 ++ 0 ∷ listing_bytes files in
    let t = settings_of options default_settings in
    let shared = shared_of (λ file. none) (λ program. []) (sharing files t) in
    let client = command_dir [] (line_of_room from_server (9 + 0)) in
    let server = serve_listing shared (line_of_room (0 ∷ []) (length from_server + 0)) in
    (process_options sizes 77 options (names_of files) default_settings ≡ starts (sharing files t))
    × (server.sent ≡ from_server)
    × (server.ended ≡ failed)
    × (client.ended ≡ returned files)
process_options-listing_example =
    process_options-listing sizes 77 (name, 5) ((other, 1500) ∷ []) (omega arith) options
      default_settings (λ file. none) (λ program. []) [] 0 (refl, (refl, (refl, tt))) files-Exists
      files-IsListed

-- A file that does not exist is listed with the size of the one before it, and the first one with what was
-- on the stack.
missing_sizes : measure sizes 77 0 ((b'x' ∷ []) ∷ name ∷ (b'x' ∷ []) ∷ []) ≡ (77 ∷ 5 ∷ 5 ∷ [], 6)
unfolding measure
missing_sizes = refl
