-- ===== src/Wire/Laws.antt =====
-- Conversions between numbers and their bytes.
use native.Mathlib.Nat.{pow-suc}
use tsunami_udp.Prelude.{
  ℕ, zero, suc, ◌+◌, ◌*◌, ◌/◌, ◌%◌, ◌^◌, ◌<◌, ◌≡◌, refl, ap, ap₂, ◌∙◌, List, [], ◌∷◌, ◌++◌, arith,
  length, length-append,
}
use tsunami_udp.Wire.{
  to_bytes, from_bytes, from_stored, Host, little_endian, big_endian, stored, swap32, htonl, htonll,
  ntohll,
}

swap32-lt : (n : ℕ) → swap32 n < 2 ^ 32
unfolding swap32
swap32-lt n = omega arith

swap32-swap32 : (n : ℕ) → n < 2 ^ 32 → swap32 (swap32 n) ≡ n
unfolding swap32
swap32-swap32 n h = omega arith

-- A 64-bit number survives the way to network byte order and back, on a host of either byte order.
pub ntohll-htonll :
    (host : Host) (value : ℕ) → value < 2 ^ 64 → ntohll host (htonll host value) ≡ value
unfolding ntohll htonll htonl
ntohll-htonll big_endian value h = refl
ntohll-htonll little_endian value h =
    let a = swap32-lt (value % 2 ^ 32) in
    let b = swap32-lt (value / 2 ^ 32) in
    let low : (swap32 (value % 2 ^ 32) * 2 ^ 32 + swap32 (value / 2 ^ 32)) % 2 ^ 32
        ≡ swap32 (value / 2 ^ 32) =
      omega (arith, b) in
    let high : (swap32 (value % 2 ^ 32) * 2 ^ 32 + swap32 (value / 2 ^ 32)) / 2 ^ 32
        ≡ swap32 (value % 2 ^ 32) =
      omega (arith, b) in
    rw
      (
        low,
        high,
        swap32-swap32 (value % 2 ^ 32) (omega arith),
        swap32-swap32 (value / 2 ^ 32) (omega (arith, h)),
      )
      (omega arith)

from_bytes-append :
    (before : ℕ) (xs : List ℕ) (b : ℕ)
    → from_bytes before (xs ++ b ∷ []) ≡ from_bytes before xs * 256 + b
unfolding from_bytes
from_bytes-append before [] b = refl
from_bytes-append before (x ∷ xs) b = from_bytes-append (before * 256 + x) xs b

-- The bytes of a number that fits stand for it.
pub from_bytes-to_bytes : (k n : ℕ) → n < 256 ^ k → from_bytes 0 (to_bytes k n) ≡ n
unfolding to_bytes from_bytes
from_bytes-to_bytes zero n h = let e : 256 ^ 0 ≡ 1 = refl in omega (arith, h, e)
from_bytes-to_bytes (suc k) n h =
    let rest = from_bytes-to_bytes k (n / 256) (omega (arith, h, pow-suc 256 k)) in
    from_bytes-append 0 (to_bytes k (n / 256)) (n % 256) ∙ omega (arith, rest)

pub length-to_bytes : (k n : ℕ) → length (to_bytes k n) ≡ k
unfolding to_bytes
length-to_bytes zero n = refl
length-to_bytes (suc k) n =
    omega (arith, length-append (to_bytes k (n / 256)) (n % 256 ∷ []), length-to_bytes k (n / 256))

-- The bytes of a swapped number, from the least significant one on.
pub swap32_bytes :
    (n : ℕ)
    → (swap32 n % 256 ≡ n / 256 / 256 / 256 % 256)
      × (swap32 n / 256 % 256 ≡ n / 256 / 256 % 256)
      × (swap32 n / 256 / 256 % 256 ≡ n / 256 % 256)
      × (swap32 n / 256 / 256 / 256 % 256 ≡ n % 256)
unfolding swap32
swap32_bytes n = (omega arith, omega arith, omega arith, omega arith)

eight :
    {a b c d e f g h a' b' c' d' e' f' g' h' : ℕ}
    → (a ≡ a') × (b ≡ b') × (c ≡ c') × (d ≡ d')
    → (e ≡ e') × (f ≡ f') × (g ≡ g') × (h ≡ h')
    → (a ∷ b ∷ c ∷ d ∷ e ∷ f ∷ g ∷ h ∷ []) ≡ (a' ∷ b' ∷ c' ∷ d' ∷ e' ∷ f' ∷ g' ∷ h' ∷ [])
eight (p, q, r, s) (t, u, v, w) =
    ap₂ ◌∷◌ p
      (ap₂ ◌∷◌ q (ap₂ ◌∷◌ r (ap₂ ◌∷◌ s (ap₂ ◌∷◌ t (ap₂ ◌∷◌ u (ap₂ ◌∷◌ v (ap (λ x. x ∷ []) w)))))))

-- What htonll leaves in the memory of the host are the bytes in network order, on a host of either
-- byte order.
pub stored-htonll :
    (host : Host) (value : ℕ)
    → value < 2 ^ 64
    → stored host 8 (htonll host value) ≡ to_bytes 8 value
unfolding stored htonll htonl to_bytes
stored-htonll big_endian value small = refl
stored-htonll little_endian value small =
    let high = value / 2 ^ 32 in
    let low = value % 2 ^ 32 in
    let b = swap32_bytes high in
    let a = swap32_bytes low in
    let l = swap32-lt high in
    eight
      (omega (arith, b.0, l), omega (arith, b.1, l), omega (arith, b.2, l), omega (arith, b.3, l))
      (omega (arith, a.0, l), omega (arith, a.1, l), omega (arith, a.2, l), omega (arith, a.3, l))

from_stored-stored : (host : Host) (k n : ℕ) → n < 256 ^ k → from_stored host (stored host k n) ≡ n
unfolding from_stored stored
from_stored-stored big_endian k n h = from_bytes-to_bytes k n h
from_stored-stored little_endian zero n h = let e : 256 ^ 0 ≡ 1 = refl in omega (arith, h, e)
from_stored-stored little_endian (suc k) n h =
    omega (arith, from_stored-stored little_endian k (n / 256) (omega (arith, h, pow-suc 256 k)))

htonll-lt : (host : Host) (value : ℕ) → value < 2 ^ 64 → htonll host value < 2 ^ 64
unfolding htonll htonl
htonll-lt big_endian value small = small
htonll-lt little_endian value small =
    omega (arith, swap32-lt (value % 2 ^ 32), swap32-lt (value / 2 ^ 32))

-- What a host of either byte order makes of 8 bytes in network order.
pub ntohll-from_stored :
    (host : Host) (value : ℕ)
    → value < 2 ^ 64
    → ntohll host (from_stored host (to_bytes 8 value)) ≡ value
ntohll-from_stored host value small =
    rw
      (
        ← stored-htonll host value small,
        from_stored-stored host 8 (htonll host value) (htonll-lt host value small),
      )
      (ntohll-htonll host value small)
