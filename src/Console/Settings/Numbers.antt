-- ===== src/Console/Settings/Numbers.antt =====
-- Numbers, rates and fractions as they are typed after `set`.
use tsunami_udp.Prelude.{
  ℕ, zero, suc, ◌+◌, ◌-◌, ◌*◌, ◌/◌, ◌%◌, ◌^◌, ◌<◌, ◌≤◌, ◌≡◌, ◌≢◌, refl, ap, false, List, [], ◌∷◌,
  ◌++◌, some, inl, inr, ltb, lt→ltb, le→ltb_false, ltb→lt, ne→==_false, Bool-cases, arith, length,
  length-append,
}
use tsunami_udp.Decimal.{digits, digits_from, is_digit}
use tsunami_udp.Decimal.RoundTrip.{atol-digits, atol-printed, length-digits, digits-cons}
use tsunami_udp.Console.Name
use tsunami_udp.Console.Settings.{
  Parameters, Field, server, port, udpport, buffer, blocksize, rate, history, losswindow, fields,
  field_name, suffix, denominator, parse_fraction, parse_rate, set_field, number, field_value,
  as_signed, minus, report, command_set,
}
use tsunami_udp.Console.Settings.Laws.{find_field-field_name, set_field-other}

-- The digits of a number are characters up to `9`.
abbrev Digits : List ℕ → Type 0
Digits [] = Unit
Digits (c ∷ text) = (b'0' ≤ c) × (c ≤ b'9') × Digits text

Digits-append : (xs ys : List ℕ) → Digits xs → Digits ys → Digits (xs ++ ys)
Digits-append [] ys p q = q
Digits-append (x ∷ xs) ys (a, b, p) q = (a, b, Digits-append xs ys p q)

digits_from-Digits : (fuel n : ℕ) → Digits (digits_from fuel n)
unfolding digits_from
digits_from-Digits zero n = tt
digits_from-Digits (suc fuel) n = elim (Bool-cases (ltb n 10)) [
  | inl small ↦ rw small (omega arith, omega (arith, ltb→lt n 10 small), tt)
  | inr big ↦ rw big (
      Digits-append (digits_from fuel (n / 10)) ((b'0' + n % 10) ∷ [])
        (digits_from-Digits fuel (n / 10)) (omega arith, omega arith, tt))
]

digits-Digits : (n : ℕ) → Digits (digits n)
unfolding digits
digits-Digits n = digits_from-Digits (suc n) n

suffix-Digits : (text : List ℕ) → Digits text → suffix text ≡ (1, text)
unfolding suffix
suffix-Digits [] d = refl
suffix-Digits (c ∷ []) d = refl
suffix-Digits (c ∷ e ∷ []) d = ground (arith, d)
suffix-Digits (c ∷ e ∷ g ∷ text) d = rw (suffix-Digits (e ∷ g ∷ text) d.2) refl

suffix-letter :
    (c : ℕ) (text : List ℕ) (letter multiplier : ℕ)
    → ((d : ℕ) → suffix (d ∷ letter ∷ []) ≡ (multiplier, d ∷ []))
    → suffix ((c ∷ text) ++ letter ∷ []) ≡ (multiplier, c ∷ text)
unfolding suffix
suffix-letter c [] letter multiplier h = h c
suffix-letter c (d ∷ []) letter multiplier h = rw (suffix-letter d [] letter multiplier h) refl
suffix-letter c (d ∷ e ∷ text) letter multiplier h =
    rw (suffix-letter d (e ∷ text) letter multiplier h) refl

denominator-Digits :
    (text rest : List ℕ) → Digits text → denominator (text ++ b'/' ∷ rest) ≡ some rest
unfolding denominator
denominator-Digits [] rest d = refl
denominator-Digits (c ∷ text) rest (lo, hi, d) =
    rw (ne→==_false c b'/' (λ e. omega (arith, e, lo)), denominator-Digits text rest d) refl

rate_letter :
    (n letter multiplier : ℕ)
    → n < 2 ^ 32
    → ((d : ℕ) → suffix (d ∷ letter ∷ []) ≡ (multiplier, d ∷ []))
    → parse_rate (digits n ++ letter ∷ []) ≡ some (multiplier * n % 2 ^ 32)
unfolding parse_rate
rate_letter n letter multiplier h is =
    let (c, rest, e, digit) = digits-cons n in
    let text : suffix (digits n ++ letter ∷ []) ≡ (multiplier, digits n) =
      rw e (suffix-letter c rest letter multiplier is) in
    let short = length-digits n 9 (omega (arith, h)) in
    let fits =
      lt→ltb (length (digits n ++ letter ∷ [])) 256
        (omega (arith, short, length-append (digits n) (letter ∷ []))) in
    rw (parse_rate, text, fits, atol-printed 32 n (omega (arith, h)) (omega (arith, h))) refl

m_multiplier : (d : ℕ) → suffix (d ∷ b'M' ∷ []) ≡ (1000000, d ∷ [])
unfolding suffix
m_multiplier d = refl

g_multiplier : (d : ℕ) → suffix (d ∷ b'G' ∷ []) ≡ (1000000000, d ∷ [])
unfolding suffix
g_multiplier d = refl

rate_digits : (n : ℕ) → n < 2 ^ 32 → parse_rate (digits n) ≡ some n
unfolding parse_rate
rate_digits n h =
    let short = length-digits n 9 (omega (arith, h)) in
    rw
      (
        parse_rate,
        suffix-Digits (digits n) (digits-Digits n),
        atol-printed 32 n (omega (arith, h)) (omega (arith, h)),
        lt→ltb (length (digits n)) 256 (omega (arith, short)),
      )
      (ap some (omega (arith, h)))

-- The numbers that a field holds and reports as they are; none, where it holds something else. The
-- loss window holds numbers below 2^32, but is printed as an int.
abbrev pub limit : Field → ℕ
limit port = 2 ^ 16
limit udpport = 2 ^ 16
limit buffer = 2 ^ 32
limit blocksize = 2 ^ 32
limit rate = 2 ^ 32
limit history = 2 ^ 16
limit losswindow = 2 ^ 31
limit f = 0

set_field-number :
    (percent : List ℕ → ℕ) (f : Field) (n : ℕ) (p : Parameters)
    → n < limit f
    → (q : Parameters) × (set_field percent f (digits n) p ≡ some q) × (field_value f q ≡ number n)
unfolding set_field field_value as_signed
set_field-number percent port n p h = (
  record p { server_port = n },
  rw (atol-printed 16 n (omega (arith, h)) (omega (arith, h))) refl,
  refl,
)
set_field-number percent udpport n p h = (
  record p { client_port = n },
  rw (atol-printed 16 n (omega (arith, h)) (omega (arith, h))) refl,
  refl,
)
set_field-number percent buffer n p h = (
  record p { udp_buffer = n },
  rw (atol-printed 32 n (omega (arith, h)) (omega (arith, h))) refl,
  refl,
)
set_field-number percent blocksize n p h = (
  record p { block_size = n },
  rw (atol-printed 32 n (omega (arith, h)) (omega (arith, h))) refl,
  refl,
)
set_field-number percent history n p h = (
  record p { history = n },
  rw (atol-printed 16 n (omega (arith, h)) (omega (arith, h))) refl,
  refl,
)
set_field-number percent losswindow n p h = (
  record p { losswindow_ms = n },
  rw (atol-printed 32 n (omega (arith, h)) (omega (arith, h))) refl,
  rw (lt→ltb n (2 ^ 31) h) refl,
)
set_field-number percent rate n p h =
    (record p { target_rate = n }, rw (set_field, rate_digits n h) refl, refl)
set_field-number percent f n p h = absurd (omega (arith, h))

report-alone :
    (f : Field) (p : Parameters) → report false (field_name f) fields p ≡ (f, field_value f p) ∷ []
unfolding report
report-alone server p = refl
report-alone f p = refl

-- `set` of a field that holds numbers, with the digits of a number below its limit (2^31 for the loss
-- window, else the limit of the variable), sets the field to that number, reports this and nothing else, and leaves the value of every other field as it was.
pub command_set-number :
    (percent : List ℕ → ℕ) (f g : Field) (n : ℕ) (p : Parameters)
    → n < limit f
    → g ≢ f
    → (q : Parameters) × (command_set percent (Name.set ∷ field_name f ∷ digits n ∷ []) p
        ≡ some (q, (f, number n) ∷ []))
      × (field_value f q ≡ number n)
      × (field_value g q ≡ field_value g p)
unfolding command_set
command_set-number percent f g n p h other =
    let (q, done, value) = set_field-number percent f n p h in
    (
      q,
      rw (command_set, find_field-field_name f, done, report-alone f q, value) refl,
      value,
      set_field-other percent f g (digits n) p q other done,
    )

-- From 2^31 on, the loss window that was set is reported as a negative number.
losswindow_negative :
    (p : Parameters) (n : ℕ)
    → 2 ^ 31 ≤ n
    → field_value losswindow (record p { losswindow_ms = n }) ≡ minus (2 ^ 32 - n)
unfolding field_value as_signed
losswindow_negative p n h = rw (le→ltb_false n (2 ^ 31) h) refl

-- A rate that is typed as a number with M or G is that many millions or thousands of millions of bits, in
-- 32 bits; a fraction that is typed with a slash has both its numbers. The numbers fit their variables.
pub parsed_numbers :
    (n num den : ℕ)
    → n < 2 ^ 32
    → num < 2 ^ 16
    → den < 2 ^ 16
    → (parse_rate (digits n ++ b'M' ∷ []) ≡ some (1000000 * n % 2 ^ 32))
      × (parse_rate (digits n ++ b'G' ∷ []) ≡ some (1000000000 * n % 2 ^ 32))
      × (parse_fraction (digits num ++ b'/' ∷ digits den) ≡ some (num, den))
unfolding parse_fraction is_digit
parsed_numbers n num den h a b = (
  rate_letter n b'M' 1000000 h m_multiplier,
  rate_letter n b'G' 1000000000 h g_multiplier,
  rw
      (
        parse_fraction,
        denominator-Digits (digits num) (digits den) (digits-Digits num),
        atol-printed 16 den (omega (arith, b)) (omega (arith, b)),
        atol-digits 16 num (b'/' ∷ digits den) (omega (arith, a)) refl,
      )
      (ap (λ v. some (v, den)) (omega (arith, a))),
)
