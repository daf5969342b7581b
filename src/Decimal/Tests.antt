-- ===== src/Decimal/Tests.antt =====
-- Concrete numbers for the theorem on decimal numbers.
use tsunami_udp.Prelude.{◌≡◌, ◌%◌, ◌^◌, refl, [], ◌∷◌, ◌++◌, arith}
use tsunami_udp.Decimal.{digits, atol, is_digit}
use tsunami_udp.Decimal.RoundTrip.{atol-digits}

-- A rate followed by a letter, for a variable of 32 bits.
rate_read : atol 32 (digits 650 ++ b'M' ∷ []) ≡ 650 % 2 ^ 32
unfolding is_digit
rate_read = atol-digits 32 650 (b'M' ∷ []) (omega arith) refl

signed : atol 16 (b' ' ∷ b'-' ∷ b'1' ∷ []) ≡ 65535
unfolding atol
signed = refl
