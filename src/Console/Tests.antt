-- ===== src/Console/Tests.antt =====
-- Concrete commands and arguments for the theorems on the console.
use tsunami_udp.Prelude.{ℕ, ◌≡◌, refl, List, [], ◌∷◌, ◌++◌, some, arith, map, take, All, none}
use tsunami_udp.Decimal.{digits, is_space, skip_space, atol}
use tsunami_udp.Listing.{text_of}
use tsunami_udp.Console.{
  max_command_words, parse_command, parse_words, word_end, convert, leading, dispatch, connect,
  next_round, takes_none, takes_one, takes_two,
}
use tsunami_udp.Console.Name
use tsunami_udp.Console.Words.{AllSpace, IsWord, IsLine, text_of_words, parse_command-words}
use tsunami_udp.Console.Arguments.{IsUnknown, next_round-stale}
use tsunami_udp.Console.Settings.{
  Parameters, default_parameters, rate, history, field_value, number, command_set,
}
use tsunami_udp.Console.Settings.Numbers.{command_set-number}

abbrev host : List ℕ
host = b'e' ∷ b'v' ∷ b'n' ∷ []

abbrev one_space : List ℕ
one_space = b' ' ∷ []

abbrev newline : List ℕ
newline = b'\n' ∷ []

host-IsWord : IsWord host
unfolding is_space
host-IsWord = ground arith

connect-IsWord : IsWord Name.connect
unfolding is_space
connect-IsWord = ground arith

one_space-AllSpace : AllSpace one_space
unfolding is_space
one_space-AllSpace = (refl, tt)

newline-AllSpace : AllSpace newline
unfolding is_space
newline-AllSpace = (refl, tt)

-- ` connect evn`, with a newline as fgets leaves it.
abbrev line : List (List ℕ × List ℕ)
line = (Name.connect, one_space) ∷ (host, newline) ∷ []

line-IsLine : IsLine line
line-IsLine = (connect-IsWord, one_space-AllSpace, tt, (host-IsWord, newline-AllSpace, tt, tt))

parse_command-words_example :
    (parse_command (one_space ++ text_of_words line)).words
    ≡ take max_command_words (map (λ w. w.0) line)
parse_command-words_example = parse_command-words one_space line one_space-AllSpace line-IsLine

parsed : parse_command (one_space ++ text_of_words line) ≡ record {
  words = Name.connect ∷ host ∷ [];
  buffer = one_space ++ (Name.connect ++ 0 ∷ (host ++ 0 ∷ []));
}
unfolding parse_command parse_words word_end convert leading skip_space
parsed = refl

-- `tsunami connect evn foo`: the client connects once more, without the name of the host.
abbrev foo : List ℕ
foo = b'f' ∷ b'o' ∷ b'o' ∷ []

foo-IsUnknown : All IsUnknown (foo ∷ [])
unfolding takes_none takes_one takes_two
foo-IsUnknown = ((refl, refl, refl), tt)

next_round-stale_example :
    let last = parse_command ([] ++ text_of_words ((Name.connect, one_space) ∷ (host, []) ∷ [])) in
    next_round none (foo ∷ []) (text_of last.buffer)
    ≡ some (record { words = Name.connect ∷ []; command_text = [] ++ Name.connect; args = [] })
next_round-stale_example =
    next_round-stale none [] Name.connect one_space ((host, []) ∷ []) foo [] tt
      (connect-IsWord, one_space-AllSpace, tt, (host-IsWord, tt, tt, tt)) foo-IsUnknown

dispatched : dispatch Name.connect ≡ connect
unfolding dispatch
dispatched = refl

abbrev no_percent : List ℕ → ℕ
no_percent text = 0

abbrev rate_word : List ℕ
rate_word = b'R' ∷ b'a' ∷ b't' ∷ b'e' ∷ []

abbrev five_m : List ℕ
five_m = b'5' ∷ b'm' ∷ []

abbrev slowed : Parameters
slowed = record default_parameters { target_rate = 5000000 }

rate-set :
    command_set no_percent (Name.set ∷ rate_word ∷ five_m ∷ []) default_parameters
    ≡ some (slowed, (rate, number 5000000) ∷ [])
unfolding command_set atol
rate-set = refl

history-ne-rate : (history ≡ rate) → ⊥
history-ne-rate e = cc

command_set-number_example :
    (q : Parameters) × (command_set no_percent
        (Name.set ∷ (b'r' ∷ b'a' ∷ b't' ∷ b'e' ∷ []) ∷ digits 300 ∷ [])
        default_parameters
      ≡ some (q, (rate, number 300) ∷ []))
    × (field_value rate q ≡ number 300)
    × (field_value history q ≡ field_value history default_parameters)
command_set-number_example =
    command_set-number no_percent rate history 300 default_parameters (omega arith) history-ne-rate
