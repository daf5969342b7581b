-- ===== src/Console/Settings/Laws.antt =====
-- What `set` changes, and what it does not.
use tsunami_udp.Prelude.{ℕ, ◌≡◌, ◌≢◌, refl, List, some, arith}
use tsunami_udp.Console.Settings.{
  Parameters, Field, server, fields, field_name, find_field, set_field, field_value,
}

pub find_field-field_name : (f : Field) → find_field fields (field_name f) ≡ some f
unfolding find_field
find_field-field_name server = refl
find_field-field_name f = refl

pub set_field-other :
    (percent : List ℕ → ℕ) (f g : Field) (text : List ℕ) (p q : Parameters)
    → g ≢ f
    → set_field percent f text p ≡ some q
    → field_value g q ≡ field_value g p
unfolding set_field field_value
set_field-other percent server server text p q h e = absurd (h refl)
set_field-other percent f g text p q h e = ground (arith, h, e)
