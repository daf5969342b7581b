-- ===== src/EvnFilename/Tests.antt =====
-- `gre53_Ef_s35_154124310_dl=9.vsi`, with a clock that reads texts of nine characters.
use tsunami_udp.Prelude.{
  ℕ, ◌≡◌, ◌==◌, refl, List, [], ◌∷◌, ◌++◌, Option, none, some, arith, length, if◌then◌else◌, All,
}
use tsunami_udp.EvnFilename.{get_aux_entry, parse_evn_filename}
use tsunami_udp.EvnFilename.Laws.{IsToken, IsEvn, join, described, parse_evn_filename-join}

abbrev clock : List ℕ → Option ℕ
clock text = if length text == 9 then some 7 else none

abbrev experiment : List ℕ
experiment = b'g' ∷ b'5' ∷ b'3' ∷ []

abbrev station : List ℕ
station = b'E' ∷ b'f' ∷ []

abbrev scan : List ℕ
scan = b's' ∷ b'3' ∷ b'5' ∷ []

abbrev file_type : List ℕ
file_type = b'v' ∷ b's' ∷ b'i' ∷ []

abbrev start : List ℕ
start = b'1' ∷ b'5' ∷ b'4' ∷ b'1' ∷ b'2' ∷ b'4' ∷ b'3' ∷ b'1' ∷ b'0' ∷ []

abbrev size_key : List ℕ
size_key = b'd' ∷ b'l' ∷ []

abbrev size_entry : List ℕ
size_entry = size_key ++ b'=' ∷ (b'9' ∷ [])

abbrev extra : List (List ℕ)
extra = start ∷ size_entry ∷ []

tokens : All IsToken extra
tokens = ground arith

parts : IsEvn experiment station scan file_type extra
parts = record {
  experiment_token = ground arith;
  experiment_short = omega arith;
  station_token = ground arith;
  station_long = omega arith;
  scan_token = ground arith;
  scan_short = omega arith;
  extra_tokens = tokens;
  type_token = ground arith;
  type_no_dot = ground arith;
  type_long = omega arith;
}

parse_evn_filename-join_example :
    parse_evn_filename clock (join (experiment ∷ station ∷ scan ∷ extra) ++ b'.' ∷ file_type)
    ≡ described clock experiment station scan file_type extra
parse_evn_filename-join_example =
    parse_evn_filename-join clock experiment station scan file_type extra parts (omega arith)

size_found : get_aux_entry size_key (size_entry ∷ []) ≡ some (b'9' ∷ [])
unfolding get_aux_entry
size_found = refl
