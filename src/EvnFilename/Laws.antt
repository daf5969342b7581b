-- ===== src/EvnFilename/Laws.antt =====
-- A name that is put together by the convention is taken apart again.
use tsunami_udp.Prelude.{
  ℕ, zero, suc, ◌≤◌, ◌≡◌, ◌≢◌, refl, ap, sym, ◌∙◌, true, false, List, [], ◌∷◌, ◌++◌, Option, none,
  some, Option-cases, inl, inr, ne→==_false, le→ltb_false, ltb, arith, length, length-append,
  append-nil, All,
}
use tsunami_udp.EvnFilename.{
  Evn, at_underscore, get_token, at_last_dot, aux_entries, with_time, with_scan, with_station,
  with_experiment, with_type, parse_evn_filename,
}

abbrev pub Lacks : ℕ → List ℕ → Type 0
Lacks stop [] = Unit
Lacks stop (c ∷ text) = (c ≢ stop) × Lacks stop text

abbrev pub IsToken : List ℕ → Type 0
IsToken [] = ⊥
IsToken (c ∷ text) = Lacks b'_' (c ∷ text)

-- Tokens, each after an underscore.
abbrev pub tail : List (List ℕ) → List ℕ
tail [] = []
tail (token ∷ tokens) = b'_' ∷ (token ++ tail tokens)

-- Tokens with underscores between them.
abbrev pub join : List (List ℕ) → List ℕ
join [] = []
join (token ∷ tokens) = token ++ tail tokens

at_underscore-join :
    (token : List ℕ) (tokens : List (List ℕ))
    → Lacks b'_' token
    → at_underscore (token ++ tail tokens) ≡ (token, join tokens)
unfolding at_underscore
at_underscore-join [] [] l = refl
at_underscore-join [] (t ∷ tokens) l = refl
at_underscore-join (c ∷ token) tokens (other, l) =
    rw (ne→==_false c b'_' other, at_underscore-join token tokens l) refl

get_token-join :
    (token : List ℕ) (tokens : List (List ℕ))
    → IsToken token
    → get_token (token ++ tail tokens) ≡ (some token, join tokens)
unfolding get_token
get_token-join [] tokens l = absurd l
get_token-join (c ∷ token) tokens l = rw (at_underscore-join (c ∷ token) tokens l) refl

aux_entries-join :
    (rounds : ℕ) (tokens : List (List ℕ))
    → All IsToken tokens
    → length (join tokens) ≤ rounds
    → aux_entries rounds (join tokens) ≡ tokens
unfolding aux_entries
aux_entries-join zero [] all h = refl
aux_entries-join (suc rounds) [] all h = refl
aux_entries-join rounds ([] ∷ tokens) all h = absurd all.0
aux_entries-join zero ((c ∷ token) ∷ tokens) all h = absurd (omega arith)
aux_entries-join (suc rounds) ((c ∷ token) ∷ tokens) (l, all) h =
    rw
      (
        at_underscore-join (c ∷ token) tokens l,
        aux_entries-join rounds tokens all
            (omega (arith, h, length-append token (tail tokens), length_join_le tokens)),
      )
      refl
  where
    length_join_le : (tokens : List (List ℕ)) → length (join tokens) ≤ length (tail tokens)
    length_join_le [] = omega arith
    length_join_le (t ∷ ts) = omega arith

Lacks-dot : (text : List ℕ) → Lacks b'.' text → at_last_dot text ≡ none
unfolding at_last_dot
Lacks-dot [] l = refl
Lacks-dot (c ∷ text) (other, l) = rw (Lacks-dot text l, ne→==_false c b'.' other) refl

at_last_dot-append :
    (name file_type : List ℕ)
    → Lacks b'.' file_type
    → at_last_dot (name ++ b'.' ∷ file_type) ≡ some (name, file_type)
unfolding at_last_dot
at_last_dot-append [] file_type l = rw (Lacks-dot file_type l) refl
at_last_dot-append (c ∷ name) file_type l = rw (at_last_dot-append name file_type l) refl

-- The parts of a name that follows the convention.
pub record IsEvn (experiment station scan file_type : List ℕ) (extra : List (List ℕ)) : Type 0 where
  pub experiment_token : IsToken experiment
  pub experiment_short : length experiment ≤ 6
  pub station_token : IsToken station
  pub station_long : 2 ≤ length station
  pub scan_token : IsToken scan
  pub scan_short : length scan ≤ 16
  pub extra_tokens : All IsToken extra
  pub type_token : IsToken file_type
  pub type_no_dot : Lacks b'.' file_type
  pub type_long : 2 ≤ length file_type

-- The first of the tokens that are left has two characters.
abbrev pub FirstLong : List (List ℕ) → Type 0
FirstLong [] = Unit
FirstLong (token ∷ tokens) = 2 ≤ length token

module _ {Time : Type 0} (parse_time : List ℕ → Option Time) where
  -- What the parts say: the first of the tokens that are left is the start time, if it is one.
  abbrev pub described : List ℕ → List ℕ → List ℕ → List ℕ → List (List ℕ) → Evn Time
  described experiment station scan file_type extra =
      let named : Evn Time = record {
        valid = true;
        exp_name = some experiment;
        station_code = some station;
        scan_name = some scan;
        data_start_time_ascii = none;
        data_start_time = none;
        auxinfo = extra;
        file_type = some file_type;
      } in
      elim extra [
        | [] ↦ named
        | token ∷ tokens ↦ (elim (parse_time token) [
          | none ↦ named
          | some time ↦ record named {
            data_start_time_ascii = some token;
            data_start_time = some time;
            auxinfo = tokens;
          }
        ])
      ]

  with_time-described :
      (experiment station scan file_type : List ℕ) (extra : List (List ℕ))
      → All IsToken extra
      → FirstLong extra
      → with_time parse_time
          (described experiment station scan file_type [])
          (get_token (join extra))
        ≡ described experiment station scan file_type extra
  unfolding with_time get_token aux_entries
  with_time-described experiment station scan file_type [] all first = refl
  with_time-described experiment station scan file_type (token ∷ tokens) all first =
      elim (Option-cases (parse_time token)) [
        | inl no_time ↦ rw (at, with_time, long, described, no_time, entries) refl
        | inr (time, timed) ↦ rw (at, with_time, long, described, timed, entries) refl
      ]
    where
      at : get_token (token ++ tail tokens) ≡ (some token, join tokens)
      at = get_token-join token tokens all.0

      long : ltb (length token) 2 ≡ false
      long = le→ltb_false (length token) 2 first

      entries : aux_entries (length (join tokens)) (join tokens) ≡ tokens
      entries = aux_entries-join (length (join tokens)) tokens all.1 (omega arith)

  -- A name that is put together of an experiment, a station, a scan and further tokens, with underscores
  -- between them, and of a file type after a dot, gives its parts back: the first of the further
  -- tokens is the start time if parse_time reads it, and the others are the auxiliary entries. The
  -- parts are not empty and have no underscore, their lengths are as the convention has them, and the
  -- file type has no dot.
  pub parse_evn_filename-join :
      (experiment station scan file_type : List ℕ) (extra : List (List ℕ))
      → IsEvn experiment station scan file_type extra
      → FirstLong extra
      → parse_evn_filename parse_time
          (join (experiment ∷ station ∷ scan ∷ extra) ++ b'.' ∷ file_type)
        ≡ described experiment station scan file_type extra
  unfolding parse_evn_filename with_type with_experiment with_station with_scan
  parse_evn_filename-join experiment station scan file_type extra evn first =
      rw
        (
          parse_evn_filename,
          at_last_dot-append (join (experiment ∷ station ∷ scan ∷ extra)) file_type evn.type_no_dot,
          type_alone,
          with_type,
          le→ltb_false (length file_type) 2 evn.type_long,
          get_token-join experiment (station ∷ scan ∷ extra) evn.experiment_token,
          with_experiment,
          le→ltb_false 6 (length experiment) evn.experiment_short,
          get_token-join station (scan ∷ extra) evn.station_token,
          with_station,
          le→ltb_false (length station) 2 evn.station_long,
          get_token-join scan extra evn.scan_token,
          with_scan,
          le→ltb_false 16 (length scan) evn.scan_short,
        )
        (with_time-described experiment station scan file_type extra evn.extra_tokens first)
    where
      type_alone : get_token file_type ≡ (some file_type, [])
      type_alone =
          ap get_token (sym (append-nil file_type)) ∙ get_token-join file_type [] evn.type_token
