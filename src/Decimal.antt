-- ===== src/Decimal.antt =====
-- The decimal numbers of the C library that the program uses: `%u` of snprintf, and atoi and atol.
pub mod RoundTrip
mod Tests
use tsunami_udp.Prelude.{
  ℕ, zero, suc, ◌+◌, ◌-◌, ◌*◌, ◌/◌, ◌%◌, ◌^◌, min, Bool, true, false, ◌&&◌, ◌||◌, List, [], ◌∷◌,
  ◌++◌, ◌==◌, ltb, leb, if◌then◌else◌,
}

-- The digits of a number, on fuel.
unfoldable pub digits_from : ℕ → ℕ → List ℕ
digits_from zero n = []
digits_from (suc fuel) n =
    let more = digits_from fuel (n / 10) in
    if ltb n 10 then (b'0' + n) ∷ [] else more ++ (b'0' + n % 10) ∷ []

-- `%u`: a number has fewer digits than its successor says.
unfoldable pub digits : ℕ → List ℕ
unfolding digits_from
digits n = digits_from (suc n) n

-- `isspace` in the C locale.
unfoldable pub is_space : ℕ → Bool
is_space c = c == b' ' || leb 9 c && leb c 13

unfoldable pub is_digit : ℕ → Bool
is_digit c = leb b'0' c && leb c b'9'

-- The number at the start of a text, after the value of the digits before.
unfoldable pub number_from : ℕ → List ℕ → ℕ
unfolding is_digit
number_from value [] = value
number_from value (c ∷ text) =
    let more = number_from (value * 10 + (c - b'0')) text in if is_digit c then more else value

unfoldable pub skip_space : List ℕ → List ℕ
unfolding is_space
skip_space [] = []
skip_space (c ∷ text) = let more = skip_space text in if is_space c then more else c ∷ text

-- A value between the limits of a `long`, as an unsigned number of `width` bits.
unfoldable pub as_word : ℕ → Bool → ℕ → ℕ
as_word width false value = min value (2 ^ 63 - 1) % 2 ^ width
as_word width true value = (2 ^ width - min value (2 ^ 63) % 2 ^ width) % 2 ^ width

unfoldable pub signed_number : ℕ → List ℕ → ℕ
unfolding number_from as_word
signed_number width [] = 0
signed_number width (c ∷ text) =
    if c == b'-'
    then as_word width true (number_from 0 text)
    else if c == b'+'
    then as_word width false (number_from 0 text)
    else as_word width false (number_from 0 (c ∷ text))

-- `atoi` and `atol`, converted to an unsigned type of `width` bits.
unfoldable pub atol : ℕ → List ℕ → ℕ
unfolding skip_space signed_number
atol width text = signed_number width (skip_space text)
