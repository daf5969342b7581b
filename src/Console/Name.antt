-- ===== src/Console/Name.antt =====
-- The names of the commands, in tsunami-udp/client/main.c.
use tsunami_udp.Prelude.{ℕ, List, [], ◌∷◌}

abbrev pub close : List ℕ
close = b'c' ∷ b'l' ∷ b'o' ∷ b's' ∷ b'e' ∷ []

abbrev pub connect : List ℕ
connect = b'c' ∷ b'o' ∷ b'n' ∷ b'n' ∷ b'e' ∷ b'c' ∷ b't' ∷ []

abbrev pub get : List ℕ
get = b'g' ∷ b'e' ∷ b't' ∷ []

abbrev pub dir : List ℕ
dir = b'd' ∷ b'i' ∷ b'r' ∷ []

abbrev pub help : List ℕ
help = b'h' ∷ b'e' ∷ b'l' ∷ b'p' ∷ []

abbrev pub quit : List ℕ
quit = b'q' ∷ b'u' ∷ b'i' ∷ b't' ∷ []

abbrev pub exit : List ℕ
exit = b'e' ∷ b'x' ∷ b'i' ∷ b't' ∷ []

abbrev pub bye : List ℕ
bye = b'b' ∷ b'y' ∷ b'e' ∷ []

abbrev pub set : List ℕ
set = b's' ∷ b'e' ∷ b't' ∷ []
