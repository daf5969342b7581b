-- ===== src/UdpErrors/Laws.antt =====
-- The number that is found.
use tsunami_udp.Prelude.{
  ℕ, zero, suc, ◌^◌, ◌≤◌, ◌<◌, ◌≢◌, ◌≡◌, refl, ap, ◌∙◌, true, false, List, [], ◌∷◌, ◌++◌,
  ne→==_false, lt→ltb, if◌then◌else◌, arith, length, length-append, append_assoc, All, some, none,
}
use tsunami_udp.Decimal.{digits, atol}
use tsunami_udp.Decimal.RoundTrip.{atol-digits, digits-cons}
use tsunami_udp.Hook.Laws.{IsPrintable, fgets-line}
use tsunami_udp.UdpErrors.{
  after_space, inside, skip_fields, third_value, is_header, value_line, search, get_udp_in_errors,
}

-- A line that the buffer holds, with its newline.
abbrev pub IsLine : List ℕ → Type 0
IsLine line = All IsPrintable line × (length line < 510)

-- A line before the header.
abbrev pub IsOther : List ℕ → Type 0
IsOther line = IsLine line × (is_header (line ++ b'\n' ∷ []) ≡ false)

abbrev pub lines : List (List ℕ) → List ℕ → List ℕ
lines [] rest = rest
lines (line ∷ more) rest = line ++ b'\n' ∷ lines more rest

-- One word of a line, which has no space.
abbrev pub IsWord : List ℕ → Type 0
IsWord word = All (λ c. c ≢ b' ') word

after_space-word :
    (word rest : List ℕ) → IsWord word → after_space (word ++ b' ' ∷ rest) ≡ some rest
unfolding after_space
after_space-word [] rest w = refl
after_space-word (c ∷ word) rest (other, w) =
    rw (ne→==_false c b' ' other, after_space-word word rest w) refl

after_space-none : (word : List ℕ) → IsWord word → after_space word ≡ none
unfolding after_space
after_space-none [] w = refl
after_space-none (c ∷ word) (other, w) = rw (ne→==_false c b' ' other, after_space-none word w) refl

skip_fields-word :
    (fields : ℕ) (word rest : List ℕ)
    → IsWord word
    → 1 ≤ length rest
    → skip_fields (suc fields) (word ++ b' ' ∷ rest) ≡ skip_fields fields rest
unfolding skip_fields
skip_fields-word fields word rest w long =
    let in_buffer : inside (word ++ b' ' ∷ rest) ≡ true =
      lt→ltb 1 (length (word ++ b' ' ∷ rest))
        (omega (arith, length-append word (b' ' ∷ rest), long)) in
    rw (skip_fields, in_buffer, after_space-word word rest w) refl

search-line :
    (rounds : ℕ) (line rest : List ℕ)
    → IsLine line
    → search (suc rounds) (line ++ b'\n' ∷ rest)
      ≡ (if is_header (line ++ b'\n' ∷ []) then value_line rest else search rounds rest)
unfolding search
search-line rounds [] rest (p, short) = rw (search, fgets-line 510 [] rest p short) refl
search-line rounds (c ∷ line) rest (p, short) =
    rw (search, fgets-line 510 (c ∷ line) rest p short) refl

search-others :
    (others : List (List ℕ)) (rounds : ℕ) (header rest : List ℕ)
    → All IsOther others
    → IsLine header
    → is_header (header ++ b'\n' ∷ []) ≡ true
    → length (lines others (header ++ b'\n' ∷ rest)) ≤ rounds
    → search rounds (lines others (header ++ b'\n' ∷ rest)) ≡ value_line rest
search-others [] zero header rest all fits found enough =
    absurd (omega (arith, enough, length-append header (b'\n' ∷ rest)))
search-others [] (suc rounds) header rest all fits found enough =
    rw (search-line rounds header rest fits, found) refl
search-others (line ∷ others) zero header rest all fits found enough =
    absurd
      (omega (arith, enough, length-append line (b'\n' ∷ lines others (header ++ b'\n' ∷ rest))))
search-others (line ∷ others) (suc rounds) header rest ((fine, other), all) fits found enough =
    let more = lines others (header ++ b'\n' ∷ rest) in
    rw (search-line rounds line more fine, other)
      (search-others others rounds header rest all fits found
        (omega (arith, enough, length-append line (b'\n' ∷ more))))

-- The words of a line of values, and what follows them.
abbrev pub values : List ℕ → List ℕ → List ℕ → ℕ → List ℕ → List ℕ
values label first second errors more =
    label ++ b' ' ∷ (first ++ b' ' ∷ (second ++ b' ' ∷ (digits errors ++ b' ' ∷ more)))

third_value-values :
    (label first second more : List ℕ) (errors : ℕ)
    → IsWord label
    → IsWord first
    → IsWord second
    → errors < 2 ^ 63
    → third_value (values label first second errors more) ≡ some errors
unfolding third_value tsunami_udp.Decimal.is_digit skip_fields
third_value-values label first second more errors l f s small =
    let (c, rest, e, digit) = digits-cons errors in
    let number = digits errors ++ b' ' ∷ more in
    let three = second ++ b' ' ∷ number in
    let two = first ++ b' ' ∷ three in
    let long : 2 ≤ length number =
      omega (arith, ap (λ t. length t) e, length-append (digits errors) (b' ' ∷ more)) in
    rw
      (
        third_value,
        skip_fields-word 2 label two l (omega (arith, length-append first (b' ' ∷ three))),
        skip_fields-word 1 first three f (omega (arith, length-append second (b' ' ∷ number))),
        skip_fields-word 0 second number s (omega (arith, long)),
        lt→ltb 1 (length number) (omega (arith, long)),
        atol-digits 64 errors (b' ' ∷ more) small refl,
      )
      (ap some (omega (arith, small)))

value_line-line :
    (line rest : List ℕ)
    → IsLine line
    → value_line (line ++ b'\n' ∷ rest) ≡ third_value (line ++ b'\n' ∷ [])
unfolding value_line
value_line-line [] rest (p, short) = rw (fgets-line 510 [] rest p short) refl
value_line-line (c ∷ line) rest (p, short) = rw (fgets-line 510 (c ∷ line) rest p short) refl

values-append :
    (label first second : List ℕ) (errors : ℕ) (more rest : List ℕ)
    → values label first second errors more ++ rest
      ≡ values label first second errors (more ++ rest)
values-append label first second errors more rest = simp append_assoc refl

-- The file has lines of printable ASCII characters that fit the buffer: any that are no header of the
-- counts, then one that is, and then the counts, of which the third one is below 2^63. Then this count is
-- found, within the rounds that the model gives the loop, and nothing is read through a bad pointer.
pub get_udp_in_errors-values :
    (others : List (List ℕ)) (header label first second more rest : List ℕ) (errors : ℕ)
    → All IsOther others
    → IsLine header
    → is_header (header ++ b'\n' ∷ []) ≡ true
    → IsWord label
    → IsWord first
    → IsWord second
    → errors < 2 ^ 63
    → let line = values label first second errors more in
      IsLine line
      → get_udp_in_errors (some (lines others (header ++ b'\n' ∷ (line ++ b'\n' ∷ rest))))
        ≡ some errors
unfolding get_udp_in_errors
get_udp_in_errors-values others header label first second more rest errors all h found l f s small
      fits =
    let line = values label first second errors more in
    let input = lines others (header ++ b'\n' ∷ (line ++ b'\n' ∷ rest)) in
    search-others others (length input) header (line ++ b'\n' ∷ rest) all h found (omega arith)
    ∙ value_line-line line rest fits
    ∙ ap third_value (values-append label first second errors more (b'\n' ∷ []))
    ∙ third_value-values label first second (more ++ b'\n' ∷ []) errors l f s small

-- A line of values that has fewer than three spaces makes the process read through a bad pointer.
pub third_value-short :
    (first second : List ℕ)
    → IsWord first
    → IsWord second
    → 2 ≤ length second
    → third_value (first ++ b' ' ∷ second) ≡ none
unfolding third_value skip_fields
third_value-short first second f s long =
    let none_left : skip_fields 2 second ≡ none =
      rw (skip_fields, lt→ltb 1 (length second) (omega (arith, long)), after_space-none second s)
        refl in
    rw (third_value, skip_fields-word 2 first second f (omega (arith, long)), none_left) refl
