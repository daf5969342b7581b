-- ===== src/Listing/Tests.antt =====
-- A server with two files, and another one with none, for the theorem on the list.
use tsunami_udp.Prelude.{◌+◌, ◌≡◌, refl, [], ◌∷◌, ◌++◌, none, arith, length, All}
use tsunami_udp.Decimal.{digits, atol}
use tsunami_udp.Wire.{from_bytes}
use tsunami_udp.Wire.Connection.{failed, returned, full_write, read_or}
use tsunami_udp.Wire.Connection.Laws.{line_of_room}
use tsunami_udp.Wire.Connection.Lines.{IsPlain}
use tsunami_udp.Negotiation.{Shared, dirlist_command, serve_listing}
use tsunami_udp.Listing.{command_dir}
use tsunami_udp.Listing.Agreement.{listing_bytes, IsListed, listing-agrees}

abbrev shared : Shared
shared = record {
  content = λ name. none;
  listed = (b'a' ∷ b'b' ∷ [], 1500) ∷ (b'c' ∷ [], 0) ∷ [];
  allhook = none;
}

first-IsPlain : IsPlain (b'a' ∷ b'b' ∷ [])
first-IsPlain = (
  (λ e. omega (arith, e)),
  (λ e. omega (arith, e)),
  ((λ e. omega (arith, e)), (λ e. omega (arith, e)), tt),
)

second-IsPlain : IsPlain (b'c' ∷ [])
second-IsPlain = ((λ e. omega (arith, e)), (λ e. omega (arith, e)), tt)

shared-IsListed : All IsListed shared.listed
shared-IsListed =
    ((first-IsPlain, omega arith, omega arith), ((second-IsPlain, omega arith, omega arith), tt))

listing-agrees_example :
    let from_server = digits 2 ++ 0 ∷ listing_bytes shared.listed in
    let client = command_dir [] (line_of_room from_server (9 + 0)) in
    let server = serve_listing shared (line_of_room (0 ∷ []) (length from_server + 0)) in
    (client.sent ≡ (dirlist_command ++ b'\n' ∷ []) ++ 0 ∷ [])
    × (server.sent ≡ from_server)
    × (client.line.incoming ≡ [])
    × (server.line.incoming ≡ [])
    × (client.ended ≡ returned shared.listed)
    × (server.ended ≡ failed)
listing-agrees_example = listing-agrees shared shared-IsListed (omega arith) [] 0

-- A server that goes away is not noticed: the client takes what its buffer holds for a file.
cut_off : (command_dir [] (line_of_room (b'1' ∷ 0 ∷ []) 9)).ended ≡ returned ((b'1' ∷ [], 1) ∷ [])
unfolding command_dir full_write read_or from_bytes atol
cut_off = refl
