-- ===== src/Listing/Digits.antt =====
-- The digits that are printed: how many there are, and that they go through as a line.

use tsunami_udp.Prelude.{
  ℕ, zero, suc, ◌+◌, ◌/◌, ◌%◌, List, [], ◌∷◌, ◌++◌, ltb, ltb→lt, arith, Bool-cases, inl, inr,
}
use tsunami_udp.Decimal.{digits_from, digits}
use tsunami_udp.Wire.Connection.Lines.{IsPlain}

IsPlain-append : (xs ys : List ℕ) → IsPlain xs → IsPlain ys → IsPlain (xs ++ ys)
IsPlain-append [] ys p q = q
IsPlain-append (x ∷ xs) ys (a, b, p) q = (a, b, IsPlain-append xs ys p q)

digits_from-IsPlain : (fuel n : ℕ) → IsPlain (digits_from fuel n)
unfolding digits_from
digits_from-IsPlain zero n = tt
digits_from-IsPlain (suc fuel) n = elim (Bool-cases (ltb n 10)) [
  | inl small ↦ rw small ((λ e. omega (arith, e)), (λ e. omega (arith, e, ltb→lt n 10 small)), tt)
  | inr big ↦ rw big (
      IsPlain-append (digits_from fuel (n / 10)) ((b'0' + n % 10) ∷ [])
        (digits_from-IsPlain fuel (n / 10)) ((λ e. omega (arith, e)), (λ e. omega (arith, e)), tt))
]

pub digits-IsPlain : (n : ℕ) → IsPlain (digits n)
unfolding digits
digits-IsPlain n = digits_from-IsPlain (suc n) n
