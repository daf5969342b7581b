-- ===== src/Wire/Tests.antt =====
-- Concrete numbers for the theorems on the wire.
use tsunami_udp.Prelude.{◌≡◌, refl, [], ◌∷◌, arith}
use tsunami_udp.Wire.{to_bytes, from_bytes, little_endian, stored, htonll, ntohll}
use tsunami_udp.Wire.Laws.{ntohll-htonll, stored-htonll}

there_and_back : ntohll little_endian (htonll little_endian 5000000000) ≡ 5000000000
there_and_back = ntohll-htonll little_endian 5000000000 (omega arith)

stored_in_order : stored little_endian 8 (htonll little_endian 5000000000) ≡ to_bytes 8 5000000000
stored_in_order = stored-htonll little_endian 5000000000 (omega arith)

in_network_order : to_bytes 8 5000000000 ≡ 0 ∷ 0 ∷ 0 ∷ 1 ∷ 42 ∷ 5 ∷ 242 ∷ 0 ∷ []
unfolding to_bytes
in_network_order = refl

read_back : from_bytes 0 (0 ∷ 0 ∷ 0 ∷ 1 ∷ 42 ∷ 5 ∷ 242 ∷ 0 ∷ []) ≡ 5000000000
unfolding from_bytes
read_back = refl
