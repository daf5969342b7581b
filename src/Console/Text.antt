-- ===== src/Console/Text.antt =====
-- Comparing words as the C library's strcasecmp does.
use tsunami_udp.Prelude.{ℕ, ◌+◌, Bool, true, false, ◌&&◌, List, [], ◌∷◌, ◌==◌, leb, if◌then◌else◌}

-- `tolower` in the C locale.
unfoldable pub to_lower : ℕ → ℕ
to_lower c = if leb b'A' c && leb c b'Z' then c + 32 else c

-- Whether `strcasecmp` gives 0.
unfoldable pub same_word : List ℕ → List ℕ → Bool
unfolding to_lower
same_word [] [] = true
same_word [] (d ∷ ds) = false
same_word (c ∷ cs) [] = false
same_word (c ∷ cs) (d ∷ ds) = to_lower c == to_lower d && same_word cs ds
