-- ===== src/Decimal/RoundTrip.antt =====
-- Numbers survive printing and reading.
use native.Mathlib.Nat.{pow-suc}
use tsunami_udp.Prelude.{
  ℕ, zero, suc, ◌+◌, ◌-◌, ◌*◌, ◌/◌, ◌%◌, ◌^◌, ◌≤◌, ◌<◌, ◌≡◌, refl, ap, sym, ◌∙◌, min, Bool, true,
  false, List, [], ◌∷◌, ◌++◌, ltb, arith, length, length-append, append_assoc, append-nil,
  Bool-cases, inl, inr, not, le→leb, ltb→lt,
}
use tsunami_udp.Decimal.{
  digits_from, digits, is_space, is_digit, number_from, skip_space, as_word, signed_number, atol,
}

-- Text that does not go on with a digit.
abbrev pub ends_number : List ℕ → Bool
ends_number [] = true
ends_number (c ∷ text) = not (is_digit c)

number_from-stops :
    (value : ℕ) (text : List ℕ) → ends_number text ≡ true → number_from value text ≡ value
unfolding number_from
number_from-stops value [] h = refl
number_from-stops value (c ∷ text) h = ground (arith, h)

number_from-digit :
    (value d : ℕ) (text : List ℕ)
    → d < 10
    → number_from value ((b'0' + d) ∷ text) ≡ number_from (value * 10 + d) text
unfolding number_from is_digit
number_from-digit value d text h =
    let e : b'0' + d - b'0' ≡ d = omega arith in
    rw (le→leb 48 (48 + d) (omega arith), le→leb (48 + d) 57 (omega arith), e) refl

number_from-digits_from :
    (fuel n : ℕ) (text : List ℕ)
    → n < fuel
    → number_from 0 (digits_from fuel n ++ text) ≡ number_from n text
unfolding digits_from
number_from-digits_from zero n text h = absurd (omega arith)
number_from-digits_from (suc fuel) n text h = elim (Bool-cases (ltb n 10)) [
  | inl small ↦
      rw small (
        number_from-digit 0 n text (ltb→lt n 10 small) ∙ ap (λ v. number_from v text) (omega arith))
  | inr big ↦
      rw (big, append_assoc (digits_from fuel (n / 10)) ((b'0' + n % 10) ∷ []) text)
        (number_from-digits_from fuel (n / 10) ((b'0' + n % 10) ∷ text) (ground (arith, big, h))
          ∙ number_from-digit (n / 10) (n % 10) text (omega arith)
          ∙ ap (λ v. number_from v text) (omega arith))
]

-- A text that starts with a digit.
abbrev Starts : List ℕ → Type 0
Starts [] = ⊥
Starts (c ∷ text) = (b'0' ≤ c) × (c ≤ b'9')

digits_from-Starts : (fuel n : ℕ) (text : List ℕ) → n < fuel → Starts (digits_from fuel n ++ text)
unfolding digits_from
digits_from-Starts zero n text h = absurd (omega arith)
digits_from-Starts (suc fuel) n text h = elim (Bool-cases (ltb n 10)) [
  | inl small ↦ rw small (ground (arith, small))
  | inr big ↦
      rw (big, append_assoc (digits_from fuel (n / 10)) ((b'0' + n % 10) ∷ []) text)
        (digits_from-Starts fuel (n / 10) ((b'0' + n % 10) ∷ text) (ground (arith, big, h)))
]

signed_number-Starts :
    (width : ℕ) (text : List ℕ)
    → Starts text
    → atol width text ≡ as_word width false (number_from 0 text)
unfolding atol signed_number skip_space is_space
signed_number-Starts width [] s = absurd s
signed_number-Starts width (c ∷ text) (lo, hi) = ground (arith, lo, hi)

-- What `%u` prints is read again by atoi and atol as the same number, reduced to the width of the
-- variable that it goes into, whatever follows that is not a digit.
pub atol-digits :
    (width n : ℕ) (text : List ℕ)
    → n < 2 ^ 63
    → ends_number text ≡ true
    → atol width (digits n ++ text) ≡ n % 2 ^ width
unfolding digits as_word
atol-digits width n text small ends =
    signed_number-Starts width (digits_from (suc n) n ++ text)
      (digits_from-Starts (suc n) n text (omega arith))
    ∙ ap (λ v. min v (2 ^ 63 - 1) % 2 ^ width)
        (number_from-digits_from (suc n) n text (omega arith) ∙ number_from-stops n text ends)
    ∙ ap (λ v. v % 2 ^ width) (omega (arith, small))

-- A number in a text of its own.
pub atol-printed : (width n : ℕ) → n < 2 ^ 63 → n % 2 ^ width ≡ n → atol width (digits n) ≡ n
atol-printed width n h fits =
    ap (atol width) (sym (append-nil (digits n))) ∙ atol-digits width n [] h refl ∙ fits

length-digits_from : (fuel n k : ℕ) → n < 10 ^ suc k → length (digits_from fuel n) ≤ suc k
unfolding digits_from
length-digits_from zero n k h = omega arith
length-digits_from (suc fuel) n zero h = let e : 10 ^ 1 ≡ 10 = refl in ground (arith, h, e)
length-digits_from (suc fuel) n (suc k) h = elim (Bool-cases (ltb n 10)) [
  | inl small ↦ rw small (omega arith)
  | inr big ↦ rw big (
      omega (
        arith,
        length-append (digits_from fuel (n / 10)) ((b'0' + n % 10) ∷ []),
        length-digits_from fuel (n / 10) k (omega (arith, h, pow-suc 10 (suc k))),
      ))
]

pub length-digits : (n k : ℕ) → n < 10 ^ suc k → length (digits n) ≤ suc k
unfolding digits
length-digits n k h = length-digits_from (suc n) n k h

digits_from-cons :
    (fuel n : ℕ)
    → n < fuel
    → (c : ℕ) × (rest : List ℕ) × (digits_from fuel n ≡ c ∷ rest) × (b'0' ≤ c)
unfolding digits_from
digits_from-cons zero n h = absurd (omega arith)
digits_from-cons (suc fuel) n h = elim (Bool-cases (ltb n 10)) [
  | inl small ↦ (b'0' + n, [], rw small refl, omega arith)
  | inr big ↦
      let more = digits_from-cons fuel (n / 10) (ground (arith, big, h)) in
      (more.0, more.1 ++ (b'0' + n % 10) ∷ [], rw (big, more.2) refl, more.3)
]

-- The first digit, which the client reads before the rest.
pub digits-cons : (n : ℕ) → (c : ℕ) × (rest : List ℕ) × (digits n ≡ c ∷ rest) × (b'0' ≤ c)
unfolding digits
digits-cons n = digits_from-cons (suc n) n (omega arith)
