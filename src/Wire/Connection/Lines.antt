-- ===== src/Wire/Connection/Lines.antt =====
-- Lines and single bytes on the control connection: read_line of tsunami-udp/common/common.c.
use tsunami_udp.Prelude.{
  ℕ, zero, suc, ◌-◌, ◌<◌, ◌≤◌, ◌≢◌, ◌≡◌, refl, true, ◌||◌, List, [], ◌∷◌, ◌++◌, ◌==◌, ne→==_false,
  arith, length, some,
}
use tsunami_udp.Wire.{from_bytes}
use tsunami_udp.Wire.Connection.{Ended, read_or, line_of, read_line}
use tsunami_udp.Wire.Connection.Laws.{line_of_room, gives}

pub read_byte :
    (short : Ended ℕ) (b : ℕ) (rest : List ℕ) (room : ℕ)
    → read_or short 1 (from_bytes 0) (line_of_room (b ∷ rest) room) ≡ gives [] rest room b
unfolding read_or from_bytes
read_byte short b rest room = ground arith

-- A name that goes through in one line: no zero, no newline, and room for the terminator.
abbrev pub IsPlain : List ℕ → Type 0
IsPlain [] = Unit
IsPlain (c ∷ name) = (c ≢ 0) × (c ≢ b'\n') × IsPlain name

-- A line that ends in a newline or in a zero.
pub line_of-stop :
    (stop space : ℕ) (name rest : List ℕ)
    → (stop == 0 || stop == b'\n') ≡ true
    → IsPlain name
    → length name ≤ space
    → line_of space (name ++ stop ∷ rest) ≡ some (name, rest)
unfolding line_of
line_of-stop stop zero [] rest e p h = refl
line_of-stop stop (suc space) [] rest e p h = rw e refl
line_of-stop stop zero (c ∷ name) rest e p h = absurd (omega arith)
line_of-stop stop (suc space) (c ∷ name) rest e (nonzero, other, p) h =
    rw
      (
        ne→==_false c 0 nonzero,
        ne→==_false c b'\n' other,
        line_of-stop stop space name rest e p (omega (arith, h)),
      )
      refl

pub read_line-newline :
    (size : ℕ) (name rest : List ℕ) (room : ℕ)
    → IsPlain name
    → length name < size
    → read_line size (line_of_room (name ++ b'\n' ∷ rest) room) ≡ gives [] rest room name
unfolding read_line
read_line-newline size name rest room p h =
    rw (read_line, line_of-stop b'\n' (size - 1) name rest refl p (omega (arith, h))) refl
