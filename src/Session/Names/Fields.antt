-- ===== src/Session/Names/Fields.antt =====
-- The two numbers and the names of `get *` on a connection that works.
use tsunami_udp.Prelude.{
  ℕ, zero, suc, ◌+◌, ◌-◌, ◌^◌, ◌≤◌, ◌<◌, ◌≢◌, ◌≡◌, refl, ap, sym, ◌∙◌, List, [], ◌∷◌, ◌++◌, arith,
  length, length-append, length-replicate, append_assoc, map, All, take, drop, replicate, Option,
  none, some,
}
use tsunami_udp.Decimal.{digits}
use tsunami_udp.Decimal.RoundTrip.{length-digits}
use tsunami_udp.Wire.Connection.Laws.{
  gives, line_of_room, take_all, take-append, drop-append, full_write-room,
}
use tsunami_udp.Wire.Connection.Lines.{IsPlain}
use tsunami_udp.Negotiation.{terminated, field, write_names, serve_names, serve_star, serve_hook}
use tsunami_udp.Listing.{text_of, overwrite}
use tsunami_udp.Listing.Digits.{digits-IsPlain}
use tsunami_udp.Listing.Agreement.{read_text, text_of-terminated}
use tsunami_udp.Hook.{hook_files}
use tsunami_udp.Session.Names.{fread_field, read_names, names_or_fail}

-- The names as they are sent.
abbrev pub names_bytes : List (List ℕ) → List ℕ → List ℕ
names_bytes [] rest = rest
names_bytes (name ∷ names) rest = name ++ 0 ∷ names_bytes names rest

-- A name of one line that fits `tmpname`.
abbrev pub IsNamed : List ℕ → Type 0
IsNamed name = IsPlain name × (length name < 1024)

abbrev pub names_of : List (List ℕ × ℕ) → List (List ℕ)
names_of files = map (λ f. f.0) files

-- What the server announces: its files, or those that the program prints, and the sum of the lengths.
abbrev pub announced : ℕ → List (List ℕ) → Option (List ℕ) → List (List ℕ) × ℕ
announced file_name_size names none = (names, file_name_size)
announced file_name_size names (some output) = hook_files output

module _ (n : ℕ) (small : n < 2 ^ 16) where
  short_digits : length (digits n) ≤ 5
  short_digits = length-digits n 4 (omega (arith, small))

  field_cells : field n ≡ digits n ++ replicate (10 - length (digits n)) 0
  unfolding field
  field_cells = rw (take_all 9 (digits n) (omega (arith, short_digits))) refl

  pub length-field : length (field n) ≡ 10
  length-field =
      rw
        (
          field_cells,
          length-append (digits n) (replicate (10 - length (digits n)) 0),
          length-replicate {A = ℕ} (10 - length (digits n)) 0,
        )
        (omega (arith, short_digits))

  pub text_of-field : (rest : List ℕ) → text_of (field n ++ rest) ≡ digits n
  text_of-field rest =
      let zeros : List ℕ = replicate (9 - length (digits n)) 0 in
      let one_more : 10 - length (digits n) ≡ suc (9 - length (digits n)) =
        omega (arith, short_digits) in
      rw (field_cells, one_more)
        (ap (λ t. text_of (t ++ rest)) (sym (append_assoc (digits n) (0 ∷ []) zeros))
          ∙ ap (λ t. text_of t) (append_assoc (digits n ++ 0 ∷ []) zeros rest)
          ∙ text_of-terminated (digits n) (zeros ++ rest) (digits-IsPlain n))

  pub fread_field-field :
      (buffer rest : List ℕ) (room : ℕ)
      → fread_field buffer (line_of_room (field n ++ rest) room)
        ≡ gives [] rest room (10, overwrite (field n) buffer)
  unfolding fread_field
  fread_field-field buffer rest room =
      let start : take 10 (field n ++ rest) ≡ field n =
        ap (λ m. take m (field n ++ rest)) (sym length-field) ∙ take-append (field n) rest in
      let end : drop 10 (field n ++ rest) ≡ rest =
        ap (λ m. drop m (field n ++ rest)) (sym length-field) ∙ drop-append (field n) rest in
      rw (fread_field, start, end, length-field) refl

pub read_names-bytes :
    (names : List (List ℕ)) (tmpname rest : List ℕ) (room : ℕ)
    → All IsNamed names
    → read_names (length names) tmpname (line_of_room (names_bytes names rest) room)
      ≡ gives [] rest room (names)
unfolding read_names
read_names-bytes [] tmpname rest room all = refl
read_names-bytes (name ∷ names) tmpname rest room ((plain, short), all) =
    let named = overwrite (name ++ 0 ∷ []) tmpname in
    rw
      (
        read_names,
        read_text 1024 name (names_bytes names rest) tmpname room plain short,
        read_names-bytes names named rest room all,
        text_of-terminated name (drop (length (name ++ 0 ∷ [])) tmpname) plain,
      )
      refl

pub write_names-bytes :
    (names : List (List ℕ)) (incoming : List ℕ) (room : ℕ)
    → write_names names (line_of_room incoming (length (names_bytes names []) + room))
      ≡ gives (names_bytes names []) incoming room tt
unfolding write_names
write_names-bytes [] incoming room = let e : 0 + room ≡ room = omega arith in rw e refl
write_names-bytes (name ∷ names) incoming room =
    let rest = names_bytes names [] in
    rw
      (
        write_names,
        full_write-room (terminated name) incoming (length (names_bytes (name ∷ names) []) + room)
            (length rest + room)
            (omega (arith, length-append name (0 ∷ []), length-append name (0 ∷ rest))),
        write_names-bytes names incoming room,
        append_assoc name (0 ∷ []) rest,
      )
      refl

pub names_or_fail-some :
    (files : ℕ) (tmpname : List ℕ)
    → files ≢ 0
    → names_or_fail files tmpname ≡ read_names files tmpname
unfolding names_or_fail
names_or_fail-some zero tmpname h = absurd (h refl)
names_or_fail-some (suc files) tmpname h = refl

pub names_bytes-append :
    (names : List (List ℕ)) (rest : List ℕ) → names_bytes names [] ++ rest ≡ names_bytes names rest
names_bytes-append [] rest = refl
names_bytes-append (name ∷ names) rest =
    append_assoc name (0 ∷ names_bytes names []) rest
    ∙ ap (λ t. name ++ 0 ∷ t) (names_bytes-append names rest)

-- Whatever it announces, if it is something, is sent in the same way.
pub serve_star-announced :
    (file_name_size size : ℕ) (listed others : List (List ℕ)) (first : List ℕ)
    (allhook : Option (List ℕ))
    → announced file_name_size listed allhook ≡ (first ∷ others, size)
    → serve_star file_name_size listed allhook ≡ serve_names size (first ∷ others)
unfolding serve_star serve_hook
serve_star-announced file_name_size size listed others first none e =
    ap (λ a. serve_names a.1 a.0) e
serve_star-announced file_name_size size listed others first (some output) e = rw e refl
