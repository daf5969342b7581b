-- ===== src/Console/Arguments.antt =====
-- Commands from the arguments of the program: the loop of main in tsunami-udp/client/main.c.
use tsunami_udp.Prelude.{
  ℕ, ◌+◌, ◌≡◌, ◌<◌, refl, ap, sym, ◌∙◌, false, List, [], ◌∷◌, ◌++◌, append-nil, arith, length,
  length-append, map, take, Option, some, lt→ltb, All,
}
use tsunami_udp.Listing.{text_of}
use tsunami_udp.Decimal.{is_space}
use tsunami_udp.Console.{
  max_command_words, max_command_length, parse_command, takes_none, takes_one, takes_two, assemble,
  taken, next_text, next_round,
}
use tsunami_udp.Console.Name
use tsunami_udp.Console.Words.{
  AllSpace, IsWord, IsLine, text_of_words, parse_command-words, text_of-parsed,
}

-- An argument that is no command.
abbrev pub IsUnknown : List ℕ → Type 0
IsUnknown word = (takes_none word ≡ false) × (takes_one word ≡ false) × (takes_two word ≡ false)

assemble-unknown :
    (args : List (List ℕ)) (old : List ℕ) → All IsUnknown args → assemble args old ≡ taken old []
unfolding assemble
assemble-unknown [] old u = refl
assemble-unknown (word ∷ args) old ((none, one, two), u) =
    rw (none, one, two, assemble-unknown args old u) refl

-- When arguments are left and none of them is a command, the client reads no line but runs a command
-- again: its last one, cut off after the first word. The last command was any line with at least one
-- word.
pub next_round-stale :
    (input : Option (List ℕ)) (lead word gap : List ℕ) (more : List (List ℕ × List ℕ))
    (arg : List ℕ) (args : List (List ℕ))
    → AllSpace lead
    → IsLine ((word, gap) ∷ more)
    → All IsUnknown (arg ∷ args)
    → let last = parse_command (lead ++ text_of_words ((word, gap) ∷ more)) in
      next_round input (arg ∷ args) (text_of last.buffer)
      ≡ some (record { words = word ∷ []; command_text = lead ++ word; args = [] })
unfolding next_round next_text
next_round-stale input lead word gap more arg args a l u =
    let alone : IsLine ((word, []) ∷ []) = (l.0, tt, tt, tt) in
    let text = ap (λ t. lead ++ t) (append-nil word) in
    let words : (parse_command (lead ++ word)).words ≡ word ∷ [] =
      ap (λ t. (parse_command t).words) (sym text)
      ∙ parse_command-words lead ((word, []) ∷ []) a alone in
    let buffer : text_of (parse_command (lead ++ word)).buffer ≡ lead ++ word =
      ap (λ t. text_of (parse_command t).buffer) (sym text)
      ∙ text_of-parsed lead word [] [] a alone in
    rw
      (
        next_round,
        text_of-parsed lead word gap more a l,
        assemble-unknown (arg ∷ args) (lead ++ word) u,
        words,
        buffer,
      )
      refl

one_space : AllSpace (b' ' ∷ [])
unfolding is_space
one_space = (refl, tt)

get-IsWord : IsWord Name.get
unfolding is_space
get-IsWord = ground arith

set-IsWord : IsWord Name.set
unfolding is_space
set-IsWord = ground arith

-- What is parsed, where a text stands for such a line.
next_round-line :
    (input : Option (List ℕ)) (arg : List ℕ) (args rest : List (List ℕ))
    (old word gap text : List ℕ) (more : List (List ℕ × List ℕ))
    → assemble (arg ∷ args) old ≡ taken text rest
    → text_of_words ((word, gap) ∷ more) ≡ text
    → IsLine ((word, gap) ∷ more)
    → next_round input (arg ∷ args) old
      ≡ some (record {
        words = take max_command_words (map (λ w. w.0) ((word, gap) ∷ more));
        command_text = word;
        args = rest;
      })
unfolding next_round next_text
next_round-line input arg args rest old word gap text more e t l =
    let words : (parse_command text).words
        ≡ take max_command_words (map (λ w. w.0) ((word, gap) ∷ more)) =
      ap (λ t. (parse_command t).words) (sym t)
      ∙ parse_command-words [] ((word, gap) ∷ more) tt l in
    let buffer : text_of (parse_command text).buffer ≡ word =
      ap (λ t. text_of (parse_command t).buffer) (sym t) ∙ text_of-parsed [] word gap more tt l in
    rw (next_round, e, words, buffer) refl

assemble-get :
    (a : List ℕ) (args : List (List ℕ)) (old : List ℕ)
    → length a + 4 < max_command_length
    → assemble (Name.get ∷ a ∷ args) old ≡ taken (Name.get ++ b' ' ∷ a) args
unfolding assemble
assemble-get a args old fits =
    rw (lt→ltb (length (Name.get ++ b' ' ∷ a)) max_command_length (omega (arith, fits))) refl

assemble-set :
    (a b : List ℕ) (args : List (List ℕ)) (old : List ℕ)
    → length a + length b + 5 < max_command_length
    → assemble (Name.set ∷ a ∷ b ∷ args) old ≡ taken (Name.set ++ b' ' ∷ (a ++ b' ' ∷ b)) args
unfolding assemble
assemble-set a b args old fits =
    rw
      (lt→ltb (length (Name.set ++ b' ' ∷ (a ++ b' ' ∷ b))) max_command_length
        (omega (arith, fits, length-append a (b' ' ∷ b))))
      refl

-- Arguments of `get` and `set` on the command line, without whitespace and short enough for the buffer,
-- are the words of the command, whatever the buffer held before, and the arguments after them are left.
pub next_round-arguments :
    (input : Option (List ℕ)) (a b : List ℕ) (args : List (List ℕ)) (old : List ℕ)
    → IsWord a
    → IsWord b
    → length a + length b + 5 < max_command_length
    → (next_round input (Name.get ∷ a ∷ args) old
        ≡ some (record { words = Name.get ∷ a ∷ []; command_text = Name.get; args = args }))
      × (next_round input (Name.set ∷ a ∷ b ∷ args) old
          ≡ some (record { words = Name.set ∷ a ∷ b ∷ []; command_text = Name.set; args = args }))
next_round-arguments input a b args old wa wb fits = (
  next_round-line input Name.get (a ∷ args) args old Name.get (b' ' ∷ []) (Name.get ++ b' ' ∷ a)
      ((a, []) ∷ []) (assemble-get a args old (omega (arith, fits)))
      (ap (λ t. Name.get ++ b' ' ∷ t) (append-nil a)) (get-IsWord, one_space, tt, (wa, tt, tt, tt)),
  next_round-line input Name.set (a ∷ b ∷ args) args old Name.set (b' ' ∷ [])
      (Name.set ++ b' ' ∷ (a ++ b' ' ∷ b)) ((a, b' ' ∷ []) ∷ (b, []) ∷ [])
      (assemble-set a b args old fits) (ap (λ t. Name.set ++ b' ' ∷ (a ++ b' ' ∷ t)) (append-nil b))
      (set-IsWord, one_space, tt, (wa, one_space, tt, (wb, tt, tt, tt))),
)
