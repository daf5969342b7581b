-- ===== src/Console/Words.antt =====
-- The words that parse_command finds, and what it leaves in the buffer.
use tsunami_udp.Prelude.{
  ℕ, zero, suc, ◌≡◌, ◌≢◌, refl, ap, ◌∙◌, true, false, List, [], ◌∷◌, ◌++◌, ne→==_false, arith,
  length, map, take, replicate, append-nil,
}
use tsunami_udp.Decimal.{is_space, skip_space}
use tsunami_udp.Listing.{text_of}
use tsunami_udp.Console.{max_command_words, word_end, convert, parse_words, leading, parse_command}

abbrev pub AllSpace : List ℕ → Type 0
AllSpace [] = Unit
AllSpace (c ∷ text) = (is_space c ≡ true) × AllSpace text

abbrev pub NoSpace : List ℕ → Type 0
NoSpace [] = Unit
NoSpace (c ∷ text) = (is_space c ≡ false) × (c ≢ 0) × NoSpace text

abbrev pub IsWord : List ℕ → Type 0
IsWord [] = ⊥
IsWord (c ∷ text) = NoSpace (c ∷ text)

-- Words, each with the whitespace that follows it.
abbrev pub text_of_words : List (List ℕ × List ℕ) → List ℕ
text_of_words [] = []
text_of_words ((word, gap) ∷ more) = word ++ (gap ++ text_of_words more)

-- Only the last word can have nothing after it.
abbrev Separates : List ℕ → List (List ℕ × List ℕ) → Type 0
Separates gap [] = Unit
Separates [] (m ∷ more) = ⊥
Separates (c ∷ gap) (m ∷ more) = Unit

abbrev pub IsLine : List (List ℕ × List ℕ) → Type 0
IsLine [] = Unit
IsLine ((word, gap) ∷ more) = IsWord word × AllSpace gap × Separates gap more × IsLine more

-- Text that a word, or whitespace, does not go on in.
abbrev NoLetter : List ℕ → Type 0
NoLetter [] = Unit
NoLetter (c ∷ text) = is_space c ≡ true

abbrev NoGap : List ℕ → Type 0
NoGap [] = Unit
NoGap (c ∷ text) = is_space c ≡ false

word_end-append :
    (word rest : List ℕ) → NoSpace word → NoLetter rest → word_end (word ++ rest) ≡ (word, rest)
unfolding word_end
word_end-append [] [] n b = refl
word_end-append [] (c ∷ rest) n b = rw b refl
word_end-append (c ∷ word) rest (letter, nonzero, n) b =
    rw (letter, word_end-append word rest n b) refl

convert-append :
    (gap rest : List ℕ) → AllSpace gap → NoGap rest → convert (gap ++ rest) ≡ (length gap, rest)
unfolding convert
convert-append [] [] a b = refl
convert-append [] (c ∷ rest) a b = rw b refl
convert-append (c ∷ gap) rest (space, a) b =
    rw (space, convert-append gap rest a b) (ap (λ n. (n, rest)) (omega arith))

NoGap-line : (line : List (List ℕ × List ℕ)) → IsLine line → NoGap (text_of_words line)
NoGap-line [] l = tt
NoGap-line (([], gap) ∷ more) l = absurd l.0
NoGap-line ((c ∷ word, gap) ∷ more) l = l.0.0

NoLetter-gap :
    (gap : List ℕ) (more : List (List ℕ × List ℕ))
    → AllSpace gap
    → Separates gap more
    → NoLetter (gap ++ text_of_words more)
NoLetter-gap [] [] a s = tt
NoLetter-gap [] (m ∷ more) a s = absurd s
NoLetter-gap (c ∷ gap) more a s = a.0

-- What is left in the buffer when so many words are taken.
abbrev buffer_after : ℕ → List (List ℕ × List ℕ) → List ℕ
buffer_after zero line = text_of_words line
buffer_after (suc room) [] = []
buffer_after (suc room) ((word, gap) ∷ more) =
    word ++ (replicate (length gap) 0 ++ buffer_after room more)

parse_words-line :
    (room : ℕ) (line : List (List ℕ × List ℕ))
    → IsLine line
    → parse_words room (text_of_words line)
      ≡ record { words = take room (map (λ w. w.0) line); buffer = buffer_after room line }
unfolding parse_words
parse_words-line zero line l = refl
parse_words-line (suc room) [] l = refl
parse_words-line (suc room) (([], gap) ∷ more) l = absurd l.0
parse_words-line (suc room) ((c ∷ word, gap) ∷ more) (w, a, s, l) =
    rw
      (
        word_end-append (c ∷ word) (gap ++ text_of_words more) w (NoLetter-gap gap more a s),
        convert-append gap (text_of_words more) a (NoGap-line more l),
        parse_words-line room more l,
      )
      refl

skip_space-append :
    (lead rest : List ℕ) → AllSpace lead → NoGap rest → skip_space (lead ++ rest) ≡ rest
unfolding skip_space
skip_space-append [] [] a b = refl
skip_space-append [] (c ∷ rest) a b = rw b refl
skip_space-append (c ∷ lead) rest (space, a) b = rw (space, skip_space-append lead rest a b) refl

leading-append : (lead rest : List ℕ) → AllSpace lead → NoGap rest → leading (lead ++ rest) ≡ lead
unfolding leading
leading-append [] [] a b = refl
leading-append [] (c ∷ rest) a b = rw b refl
leading-append (c ∷ lead) rest (space, a) b = rw (space, leading-append lead rest a b) refl

parse_command-line :
    (lead : List ℕ) (line : List (List ℕ × List ℕ))
    → AllSpace lead
    → IsLine line
    → parse_command (lead ++ text_of_words line) ≡ record {
      words = take max_command_words (map (λ w. w.0) line);
      buffer = lead ++ buffer_after max_command_words line;
    }
unfolding parse_command
parse_command-line lead line a l =
    rw
      (
        parse_command,
        skip_space-append lead (text_of_words line) a (NoGap-line line l),
        leading-append lead (text_of_words line) a (NoGap-line line l),
        parse_words-line max_command_words line l,
      )
      refl

-- parse_command finds the words of a command, however much whitespace stands before, between and after
-- them: all of them, or the first 10 if there are more.
pub parse_command-words :
    (lead : List ℕ) (line : List (List ℕ × List ℕ))
    → AllSpace lead
    → IsLine line
    → (parse_command (lead ++ text_of_words line)).words
      ≡ take max_command_words (map (λ w. w.0) line)
parse_command-words lead line a l = ap (λ p. p.words) (parse_command-line lead line a l)

text_of-letters :
    (word rest : List ℕ) → NoSpace word → text_of (word ++ rest) ≡ word ++ text_of rest
unfolding text_of
text_of-letters [] rest n = refl
text_of-letters (c ∷ word) rest (letter, nonzero, n) =
    rw (ne→==_false c 0 nonzero, text_of-letters word rest n) refl

space_ne_zero : (c : ℕ) → is_space c ≡ true → c ≢ 0
unfolding is_space
space_ne_zero c h e = ground (arith, h, e)

text_of-spaces : (gap rest : List ℕ) → AllSpace gap → text_of (gap ++ rest) ≡ gap ++ text_of rest
unfolding text_of
text_of-spaces [] rest a = refl
text_of-spaces (c ∷ gap) rest (space, a) =
    rw (ne→==_false c 0 (space_ne_zero c space), text_of-spaces gap rest a) refl

-- What is left of a command in its buffer: what stands before the second word.
pub text_of-parsed :
    (lead word gap : List ℕ) (more : List (List ℕ × List ℕ))
    → AllSpace lead
    → IsLine ((word, gap) ∷ more)
    → text_of (parse_command (lead ++ text_of_words ((word, gap) ∷ more))).buffer ≡ lead ++ word
unfolding text_of
text_of-parsed lead [] gap more a l = absurd l.0
text_of-parsed lead (c ∷ word) gap more a (w, g, s, l) =
    ap (λ p. text_of p.buffer) (parse_command-line lead ((c ∷ word, gap) ∷ more) a (w, g, s, l))
    ∙ text_of-spaces lead _ a
    ∙ ap (λ t. lead ++ t) (text_of-letters (c ∷ word) _ w ∙ nothing_after gap more s)
  where
    nothing_after :
        (gap : List ℕ) (more : List (List ℕ × List ℕ))
        → Separates gap more
        → (c ∷ word) ++ text_of (replicate (length gap) 0 ++ buffer_after 9 more) ≡ c ∷ word
    nothing_after [] [] s = append-nil (c ∷ word)
    nothing_after [] (m ∷ more) s = absurd s
    nothing_after (d ∷ gap) more s = append-nil (c ∷ word)
