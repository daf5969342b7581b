-- ===== src/UdpErrors.antt =====
-- The count of receive errors: get_udp_in_errors of tsunami-udp/common/common.c. What the file
-- /proc/net/snmp holds is an argument.
pub mod Laws
mod Tests
use tsunami_udp.Prelude.{
  ℕ, zero, suc, Bool, true, false, ◌&&◌, ◌||◌, List, [], ◌∷◌, Option, none, some, ◌==◌, ltb,
  if◌then◌else◌, length,
}
use tsunami_udp.Decimal.{atol}
use tsunami_udp.Hook.{fgets}

unfoldable pub starts_with : List ℕ → List ℕ → Bool
starts_with [] text = true
starts_with (p ∷ pattern) [] = false
starts_with (p ∷ pattern) (c ∷ text) = p == c && starts_with pattern text

-- Whether `strstr` finds a pattern.
unfoldable pub contains : List ℕ → List ℕ → Bool
unfolding starts_with
contains pattern [] = starts_with pattern []
contains pattern (c ∷ text) = starts_with pattern (c ∷ text) || contains pattern text

-- The text after the first space that `strchr` finds.
unfoldable pub after_space : List ℕ → Option (List ℕ)
after_space [] = none
after_space (c ∷ text) = let later = after_space text in if c == b' ' then some text else later

-- Whether a pointer, by the text that it points at, is before the last character of the buffer.
abbrev pub inside : List ℕ → Bool
inside p = ltb 1 (length p)

-- The loop over the fields. When strchr finds nothing, `p++` makes the null pointer an address that the
-- tests let through, and that is read next: a fault.
unfoldable pub skip_fields : ℕ → List ℕ → Option (List ℕ)
unfolding after_space
skip_fields zero p = some p
skip_fields (suc fields) p =
    let next : Option (List ℕ) = elim (after_space p) [
      | none ↦ none
      | some q ↦ skip_fields fields q
    ] in
    if inside p then next else some p

-- The number in a line of values, or a fault.
unfoldable pub third_value : List ℕ → Option ℕ
third_value line = elim (skip_fields 3 line) [
  | none ↦ none
  | some p ↦ some (if inside p then atol 64 p else 0)
]

-- `Udp:` and `InErrors`
abbrev pub is_header : List ℕ → Bool
is_header line =
    contains (b'U' ∷ b'd' ∷ b'p' ∷ b':' ∷ []) line
    && contains (b'I' ∷ b'n' ∷ b'E' ∷ b'r' ∷ b'r' ∷ b'o' ∷ b'r' ∷ b's' ∷ []) line

-- What is read after the header.
unfoldable pub value_line : List ℕ → Option ℕ
value_line [] = some 0
value_line (c ∷ input) = third_value (fgets 510 (c ∷ input)).0

-- The loop over the lines, with rounds for it; `none` is a fault.
unfoldable pub search : ℕ → List ℕ → Option ℕ
search zero input = some 0
search (suc rounds) [] = some 0
search (suc rounds) (c ∷ input) =
    let line = fgets 510 (c ∷ input) in
    let later = search rounds line.1 in if is_header line.0 then value_line line.1 else later

-- `get_udp_in_errors`, on what the file holds if it can be opened. A round takes at least one character.
unfoldable pub get_udp_in_errors : Option (List ℕ) → Option ℕ
get_udp_in_errors none = some 0
get_udp_in_errors (some input) = search (length input) input
