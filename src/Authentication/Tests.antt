-- ===== src/Authentication/Tests.antt =====
-- A concrete challenge for the theorem on the answer of the server.
use tsunami_udp.Prelude.{
  ℕ, ◌+◌, ◌≡◌, ◌≢◌, refl, List, [], ◌∷◌, ◌++◌, some, take, replicate, length, arith,
}
use tsunami_udp.Wire.Connection.Laws.{line_of_room}
use tsunami_udp.Authentication.{xor_secret, server_authenticate}
use tsunami_udp.Authentication.Laws.{verdict, ending, server_authenticate-answers}

-- The first 16 bytes in place of the digest.
abbrev first_bytes : List ℕ → List ℕ
first_bytes bytes = take 16 bytes

abbrev secret : List ℕ
secret = 107 ∷ 105 ∷ 116 ∷ 116 ∷ 101 ∷ 110 ∷ []

abbrev challenge : List ℕ
challenge = replicate 64 7

abbrev response : List ℕ
response = first_bytes (xor_secret secret 0 challenge)

secret-not_empty : length secret ≢ 0
secret-not_empty e = absurd (omega (arith, e))

sixteen : length response ≡ 16
unfolding xor_secret
sixteen = refl

server_authenticate-answers_example :
    server_authenticate first_bytes (some challenge) secret (line_of_room (response ++ []) (65 + 0))
    ≡ record {
      sent = challenge ++ (verdict {P = response ≡ response} (yes refl) ∷ []);
      line = line_of_room [] 0;
      ended = ending {P = response ≡ response} (yes refl);
    }
server_authenticate-answers_example =
    server_authenticate-answers first_bytes secret challenge secret-not_empty refl response [] 0
      sixteen (yes refl)
