-- ===== src/EvnFilename.antt =====
-- The names of VLBI recordings: tsunami-udp/rtserver/parse_evn_filename.c, which the server calls when it
-- is built with VSIB_REALTIME. parse_time, which reads clocks and calendars, is a parameter.
pub mod Laws
mod Tests
use tsunami_udp.Prelude.{
  ℕ, zero, suc, Bool, true, false, List, [], ◌∷◌, ◌++◌, Option, none, some, ◌==◌, ltb,
  if◌then◌else◌, length,
}

-- `struct evn_filename`: the start time has the type of what parse_time gives.
pub record Evn (Time : Type 0) : Type 0 where
  pub valid : Bool
  pub exp_name : Option (List ℕ)
  pub station_code : Option (List ℕ)
  pub scan_name : Option (List ℕ)
  pub data_start_time_ascii : Option (List ℕ)
  pub data_start_time : Option Time
  pub auxinfo : List (List ℕ)
  pub file_type : Option (List ℕ)

-- The text before and after the first underscore; without one, all of it and nothing.
unfoldable pub at_underscore : List ℕ → List ℕ × List ℕ
at_underscore [] = ([], [])
at_underscore (c ∷ text) =
    let (token, rest) = at_underscore text in if c == b'_' then ([], text) else (c ∷ token, rest)

-- `get_token`: the token, and where the next one starts.
unfoldable pub get_token : List ℕ → Option (List ℕ) × List ℕ
get_token [] = (none, [])
get_token (c ∷ text) = let (token, rest) = at_underscore (c ∷ text) in (some token, rest)

-- The text before and after the last dot, as strrchr finds it.
unfoldable pub at_last_dot : List ℕ → Option (List ℕ × List ℕ)
at_last_dot [] = none
at_last_dot (c ∷ text) =
    let later = at_last_dot text in
    elim later [
      | some (before, after) ↦ some (c ∷ before, after)
      | none ↦ if c == b'.' then some ([], text) else none
    ]

-- `get_aux_entry`: an entry is longer than the key, starts with it, and goes on with `=`.
unfoldable pub after_key : List ℕ → List ℕ → Option (List ℕ)
after_key [] [] = none
after_key [] (c ∷ entry) = if c == b'=' then some entry else none
after_key (k ∷ key) [] = none
after_key (k ∷ key) (c ∷ entry) = let rest = after_key key entry in if k == c then rest else none

unfoldable pub get_aux_entry : List ℕ → List (List ℕ) → Option (List ℕ)
unfolding after_key
get_aux_entry key [] = none
get_aux_entry key (entry ∷ entries) =
    let later = get_aux_entry key entries in
    elim (after_key key entry) [ some value ↦ some value | none ↦ later ]

-- The loop over the tokens that are left, each longer than its part of the text: so many rounds.
unfoldable pub aux_entries : ℕ → List ℕ → List (List ℕ)
unfolding get_token
aux_entries zero text = []
aux_entries (suc rounds) [] = []
aux_entries (suc rounds) (c ∷ text) =
    let (token, rest) = at_underscore (c ∷ text) in token ∷ aux_entries rounds rest

module _ {Time : Type 0} (parse_time : List ℕ → Option Time) where
  abbrev pub no_parts : Evn Time
  no_parts = record {
    valid = true;
    exp_name = none;
    station_code = none;
    scan_name = none;
    data_start_time_ascii = none;
    data_start_time = none;
    auxinfo = [];
    file_type = none;
  }

  abbrev pub invalid : Evn Time → Evn Time
  invalid ef = record ef { valid = false }

  -- The loop that adds auxiliary entries to those before.
  unfoldable pub with_aux : Evn Time → List ℕ → Evn Time
  with_aux ef rest = record ef { auxinfo = ef.auxinfo ++ aux_entries (length rest) rest }

  -- A start time, or else a first auxiliary entry.
  unfoldable pub with_time : Evn Time → Option (List ℕ) × List ℕ → Evn Time
  unfolding with_aux
  with_time ef (none, rest) = with_aux ef rest
  with_time ef (some token, rest) =
      if ltb (length token) 2 then invalid ef else elim (parse_time token) [
        | none ↦ with_aux (record ef { auxinfo = token ∷ [] }) rest
        | some time ↦
            with_aux (record ef { data_start_time_ascii = some token; data_start_time = some time })
              rest
      ]

  unfoldable pub with_scan : Evn Time → Option (List ℕ) × List ℕ → Evn Time
  with_scan ef (none, rest) = invalid ef
  with_scan ef (some token, rest) =
      let named = record ef { scan_name = some token } in
      if ltb 16 (length token) then invalid named else with_time named (get_token rest)

  unfoldable pub with_station : Evn Time → Option (List ℕ) × List ℕ → Evn Time
  with_station ef (none, rest) = invalid ef
  with_station ef (some token, rest) =
      let named = record ef { station_code = some token } in
      if ltb (length token) 2 then invalid named else with_scan named (get_token rest)

  unfoldable pub with_experiment : Evn Time → Option (List ℕ) × List ℕ → Evn Time
  with_experiment ef (none, rest) = invalid ef
  with_experiment ef (some token, rest) =
      let named = record ef { exp_name = some token } in
      if ltb 6 (length token) then invalid named else with_station named (get_token rest)

  unfoldable pub with_type : Option (List ℕ) → List ℕ → Evn Time
  with_type none name = invalid no_parts
  with_type (some token) name =
      let typed : Evn Time = record no_parts { file_type = some token } in
      if ltb (length token) 2 then invalid typed else with_experiment typed (get_token name)

  -- `parse_evn_filename`
  unfoldable pub parse_evn_filename : List ℕ → Evn Time
  parse_evn_filename filename = elim (at_last_dot filename) [
    | none ↦ invalid no_parts
    | some (name, after) ↦ with_type (get_token after).0 name
  ]
