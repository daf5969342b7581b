-- ===== src/Negotiation/Epoch.antt =====
-- The epoch on the wire, with a time_t of 64 bits.
use tsunami_udp.Prelude.{ℕ, ◌%◌, ◌^◌, ◌<◌, ◌≡◌, ap, ap₂, ◌∙◌, List, [], ◌∷◌, ◌++◌, arith}
use tsunami_udp.Wire.{
  to_bytes, from_bytes, stored, from_stored, swap32, htonl, Host, little_endian, big_endian,
}
use tsunami_udp.Wire.Laws.{swap32_bytes}
use tsunami_udp.Wire.Connection.{failed, read_or}
use tsunami_udp.Wire.Connection.Laws.{read_or-bytes, line_of_room, gives}
use tsunami_udp.Negotiation.{epoch_of, epoch_bytes}

-- What a host passes on of the epoch: a big-endian one deals with the wrong half, which is 0.
abbrev pub kept_epoch : Host → ℕ → ℕ
kept_epoch little_endian n = n
kept_epoch big_endian n = 0

pub kept_epoch-lt : (host : Host) (n : ℕ) → n < 2 ^ 32 → kept_epoch host n < 2 ^ 32
kept_epoch-lt little_endian n h = h
kept_epoch-lt big_endian n h = omega arith

four :
    {a b c d a' b' c' d' : ℕ}
    → a ≡ a'
    → b ≡ b'
    → c ≡ c'
    → d ≡ d'
    → (a ∷ b ∷ c ∷ d ∷ []) ≡ (a' ∷ b' ∷ c' ∷ d' ∷ [])
four p q r s = ap₂ ◌∷◌ p (ap₂ ◌∷◌ q (ap₂ ◌∷◌ r (ap (λ x. x ∷ []) s)))

pub epoch_bytes-eq :
    (host : Host) (now : ℕ) → now < 2 ^ 32 → epoch_bytes host now ≡ to_bytes 4 (kept_epoch host now)
unfolding epoch_bytes stored htonl to_bytes
epoch_bytes-eq little_endian now h =
    let b = swap32_bytes (now % 2 ^ 32) in
    four (omega (arith, b.0, h)) (omega (arith, b.1, h)) (omega (arith, b.2, h))
      (omega (arith, b.3, h))
epoch_bytes-eq big_endian now h =
    four (omega (arith, h)) (omega (arith, h)) (omega (arith, h)) (omega (arith, h))

pub epoch_of-to_bytes :
    (host : Host) (n : ℕ) → n < 2 ^ 32 → epoch_of host (to_bytes 4 n) ≡ kept_epoch host n
unfolding epoch_of from_stored from_bytes htonl swap32 to_bytes
epoch_of-to_bytes little_endian n h = omega (arith, h)
epoch_of-to_bytes big_endian n h = omega (arith, h)

pub read-epoch :
    (host : Host) (n : ℕ) (rest : List ℕ) (room : ℕ)
    → n < 2 ^ 32
    → read_or failed 4 (epoch_of host) (line_of_room (to_bytes 4 n ++ rest) room)
      ≡ gives [] rest room (kept_epoch host n)
unfolding to_bytes
read-epoch host n rest room h =
    read_or-bytes failed (epoch_of host) (to_bytes 4 n) rest room
    ∙ ap (λ v. gives [] rest room v) (epoch_of-to_bytes host n h)
