-- ===== src/Client/Disk/Write.antt =====
-- What a write at an offset does to a file.
use tsunami_udp.Prelude.{
  ℕ, zero, suc, ◌+◌, ◌-◌, ◌≡◌, max, List, [], ◌∷◌, ltb, if◌then◌else◌, get_or, get_or_out, length,
  arith,
}
use tsunami_udp.Client.Disk.{write_at}

pub length-write_at :
    (o : ℕ) (bytes file : List ℕ)
    → length (write_at o bytes file) ≡ max (length file) (o + length bytes)
unfolding write_at
length-write_at (suc o) bytes [] = omega (arith, length-write_at o bytes [])
length-write_at (suc o) bytes (x ∷ file) = omega (arith, length-write_at o bytes file)
length-write_at zero [] file = omega arith
length-write_at zero (b ∷ bytes) [] = omega arith
length-write_at zero (b ∷ bytes) (x ∷ file) = omega (arith, length-write_at zero bytes file)

-- The written bytes stand at the offset, and the others are as before.
pub get_or-write_at :
    (o : ℕ) (bytes file : List ℕ) (i : ℕ)
    → get_or (write_at o bytes file) i 0 ≡ (
        if ltb i o
        then get_or file i 0
        else if ltb i (o + length bytes)
        then get_or bytes (i - o) 0
        else get_or file i 0)
unfolding write_at
get_or-write_at (suc o) bytes [] zero = ground arith
get_or-write_at (suc o) bytes [] (suc i) = ground (arith, get_or-write_at o bytes [] i)
get_or-write_at (suc o) bytes (x ∷ file) zero = ground arith
get_or-write_at (suc o) bytes (x ∷ file) (suc i) = ground (arith, get_or-write_at o bytes file i)
get_or-write_at zero [] file i = ground arith
get_or-write_at zero (b ∷ bytes) [] i =
    let e : i - 0 ≡ i = omega arith in rw e (ground (arith, get_or_out (b ∷ bytes) i 0))
get_or-write_at zero (b ∷ bytes) (x ∷ file) zero = ground arith
get_or-write_at zero (b ∷ bytes) (x ∷ file) (suc i) =
    ground (arith, get_or-write_at zero bytes file i)
