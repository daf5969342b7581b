-- ===== src/Authentication/Laws.antt =====
-- Who is authenticated.
use tsunami_udp.Prelude.{
  ℕ, ◌+◌, ◌≡◌, ◌≢◌, refl, ap₂, sym, [], ◌==◌, true, false, List, [], ◌∷◌, ◌++◌, some, ne→==_false,
  length, arith, Bool-cases, inl, inr, append-nil,
}
use tsunami_udp.Wire.Connection.{Line, Ended, returned, failed, hangs, read_or, after, check}
use tsunami_udp.Wire.Connection.Laws.{
  gives, line_of_room, read_or-bytes, full_write-room, send-room,
}
use tsunami_udp.Wire.Connection.Lines.{read_byte}
use tsunami_udp.Authentication.{
  xor_secret, same_digest, as_bytes, answer, prepare_proof, client_authenticate,
  server_authenticate,
}

same_digest_refl : (xs : List ℕ) → same_digest xs xs ≡ true
unfolding same_digest
same_digest_refl [] = refl
same_digest_refl (x ∷ xs) = ground (arith, same_digest_refl xs)

same_digest→eq : (xs ys : List ℕ) → same_digest xs ys ≡ true → xs ≡ ys
unfolding same_digest
same_digest→eq [] [] h = refl
same_digest→eq [] (y ∷ ys) h = ground arith
same_digest→eq (x ∷ xs) [] h = ground arith
same_digest→eq (x ∷ xs) (y ∷ ys) h =
    ap₂ ◌∷◌ (ground (arith, h)) (same_digest→eq xs ys (ground (arith, h)))

different : (xs ys : List ℕ) → xs ≢ ys → same_digest xs ys ≡ false
different xs ys ne = elim (Bool-cases (same_digest xs ys)) [
  | inl same ↦ absurd (ne (same_digest→eq xs ys same))
  | inr other ↦ other
]

-- The byte of the answer, and how the two sides end, for a right and for a wrong digest.
abbrev pub verdict : {P : Type 0} → Dec P → ℕ
verdict (yes e) = 0
verdict (no ne) = 1

abbrev pub ending : {P : Type 0} → Dec P → Ended (Unit {0})
ending (yes e) = returned tt
ending (no ne) = failed

abbrev read_bytes :
    (short : Ended (List ℕ)) (n : ℕ) (bytes rest : List ℕ) (room : ℕ)
    → length bytes ≡ n
    → read_or short n as_bytes (line_of_room (bytes ++ rest) room) ≡ gives [] rest room bytes
read_bytes short n bytes rest room e = rw (sym e) (read_or-bytes short as_bytes bytes rest room)

last_check :
    (sent : List ℕ) (line : Line) {P : Type 0} (same : Dec P)
    → after sent (after [] (check (verdict same == 0) line))
      ≡ record { sent = sent; line = line; ended = ending same }
last_check sent line (yes e) = rw (append-nil sent) refl
last_check sent line (no ne) = rw (append-nil sent) refl

-- With a secret that is not empty the proof is the digest of the challenge with the secret over it.
proof :
    (md5_digest : List ℕ → List ℕ) (secret : List ℕ)
    → length secret ≢ 0
    → (challenge : List ℕ) → length challenge ≡ 64
    → prepare_proof md5_digest secret challenge ≡ some (md5_digest (xor_secret secret 0 challenge))
unfolding prepare_proof
proof md5_digest secret some_secret [] h = absurd (omega arith)
proof md5_digest secret some_secret (b ∷ challenge) h =
    rw (ne→==_false (length secret) 0 some_secret) refl

module _ (md5_digest : List ℕ → List ℕ) (secret challenge : List ℕ)
    (some_secret : length secret ≢ 0) (full : length challenge ≡ 64) where
  answers :
      (rest client_digest : List ℕ) (room : ℕ)
      → (same : Dec (client_digest ≡ md5_digest (xor_secret secret 0 challenge)))
      → answer
          (same_digest client_digest (md5_digest (xor_secret secret 0 challenge)))
          (line_of_room rest (1 + room))
        ≡ record { sent = verdict same ∷ []; line = line_of_room rest room; ended = ending same }
  unfolding answer
  answers rest client_digest room (yes e) =
      rw (e, same_digest_refl (md5_digest (xor_secret secret 0 challenge)))
        (full_write-room (0 ∷ []) rest (1 + room) room refl)
  answers rest client_digest room (no ne) =
      rw
        (
          different client_digest (md5_digest (xor_secret secret 0 challenge)) ne,
          full_write-room (1 ∷ []) rest (1 + room) room refl,
        )
        refl

  -- With a secret that is not empty and a challenge of 64 bytes, over a connection that works, the
  -- server sends its challenge, reads 16 bytes and accepts exactly the digest of the challenge with
  -- the secret over it; it answers 0 to it, and 1 to anything else, at which it fails.
  pub server_authenticate-answers :
      (client_digest rest : List ℕ) (room : ℕ)
      → length client_digest ≡ 16
      → (same : Dec (client_digest ≡ md5_digest (xor_secret secret 0 challenge)))
      → server_authenticate md5_digest
          (some challenge)
          secret
          (line_of_room (client_digest ++ rest) (65 + room))
        ≡ record {
          sent = challenge ++ (verdict same ∷ []);
          line = line_of_room rest room;
          ended = ending same;
        }
  unfolding server_authenticate
  server_authenticate-answers client_digest rest room h same =
      rw
        (
          server_authenticate,
          full_write-room challenge (client_digest ++ rest) (65 + room) (1 + room)
              (omega (arith, full)),
          read_bytes hangs 16 client_digest rest (1 + room) h,
          proof md5_digest secret some_secret challenge full,
          answers rest client_digest room same,
        )
        refl

  -- The client on a challenge and an answer.
  pub client_authenticate-proves :
      (rest : List ℕ) (room : ℕ)
      → length (md5_digest (xor_secret secret 0 challenge)) ≡ 16
      → {P : Type 0} (same : Dec P)
      → client_authenticate md5_digest secret
          (line_of_room (challenge ++ verdict same ∷ rest) (16 + room))
        ≡ record {
          sent = md5_digest (xor_secret secret 0 challenge);
          line = line_of_room rest room;
          ended = ending same;
        }
  unfolding client_authenticate
  client_authenticate-proves rest room h same =
      let digest = md5_digest (xor_secret secret 0 challenge) in
      rw
        (
          client_authenticate,
          read_bytes failed 64 challenge (verdict same ∷ rest) (16 + room) full,
          proof md5_digest secret some_secret challenge full,
          send-room digest (verdict same ∷ rest) (16 + room) room (omega (arith, h)),
          read_byte failed (verdict same) rest room,
        )
        (last_check digest (line_of_room rest room) same)
