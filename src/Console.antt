-- ===== src/Console.antt =====
-- The commands of the client: main and parse_command of tsunami-udp/client/main.c.
pub mod Name
pub mod Text
pub mod Words
pub mod Arguments
pub mod Settings
mod Tests
use tsunami_udp.Prelude.{
  ℕ, zero, suc, ◌+◌, Bool, true, false, ◌&&◌, ◌||◌, List, [], ◌∷◌, ◌++◌, Option, none, some, ◌==◌,
  ltb, leb, if◌then◌else◌, length, replicate,
}
use tsunami_udp.Decimal.{is_space, skip_space}
use tsunami_udp.Listing.{text_of}
use tsunami_udp.Console.Name
use tsunami_udp.Console.Text.{same_word}

-- MAX_COMMAND_WORDS
abbrev pub max_command_words : ℕ
max_command_words = 10

-- MAX_COMMAND_LENGTH
abbrev pub max_command_length : ℕ
max_command_length = 1024

-- A word and what follows it: the loop to the next whitespace.
unfoldable pub word_end : List ℕ → List ℕ × List ℕ
unfolding is_space
word_end [] = ([], [])
word_end (c ∷ buffer) =
    let (word, rest) = word_end buffer in if is_space c then ([], c ∷ buffer) else (c ∷ word, rest)

-- How much whitespace is converted to terminators, and what follows.
unfoldable pub convert : List ℕ → ℕ × List ℕ
unfolding is_space
convert [] = (0, [])
convert (c ∷ buffer) =
    let (spaces, rest) = convert buffer in
    if is_space c then (spaces + 1, rest) else (0, c ∷ buffer)

-- The words, and the buffer after the call: a terminator in each place where whitespace was converted.
pub record Parsed : Type 0 where
  pub words : List (List ℕ)
  pub buffer : List ℕ

-- The loop over the words, with the number of words that are still taken.
unfoldable pub parse_words : ℕ → List ℕ → Parsed
parse_words zero buffer = record { words = []; buffer = buffer }
parse_words (suc room) [] = record { words = []; buffer = [] }
parse_words (suc room) (c ∷ buffer) =
    let (word, after) = word_end (c ∷ buffer) in
    let (spaces, rest) = convert after in
    let more = parse_words room rest in
    record { words = word ∷ more.words; buffer = word ++ (replicate spaces 0 ++ more.buffer) }

-- The whitespace that is skipped at the start.
unfoldable pub leading : List ℕ → List ℕ
unfolding is_space
leading [] = []
leading (c ∷ buffer) = let more = leading buffer in if is_space c then c ∷ more else []

-- `parse_command`, on the text up to its terminator.
unfoldable pub parse_command : List ℕ → Parsed
parse_command text =
    let parsed = parse_words max_command_words (skip_space text) in
    record { words = parsed.words; buffer = leading text ++ parsed.buffer }

pub data Command : Type 0 where
  close : Command
  connect : Command
  get : Command
  dir : Command
  help : Command
  quit : Command
  set : Command
  unrecognized : Command

-- The dispatch on the first word.
unfoldable pub dispatch : List ℕ → Command
unfolding same_word
dispatch word =
    if same_word word Name.close
    then close
    else if same_word word Name.connect
    then connect
    else if same_word word Name.get
    then get
    else if same_word word Name.dir
    then dir
    else if same_word word Name.help
    then help
    else if same_word word Name.quit || same_word word Name.exit || same_word word Name.bye
    then quit
    else if same_word word Name.set
    then set
    else unrecognized

-- The next command from the arguments of the program: its text and the arguments that are left; the
-- program ends because an argument is missing; or the text does not fit its buffer.
pub data Next : Type 0 where
  taken : List ℕ → List (List ℕ) → Next
  exits : Next
  overflows : Next

unfoldable pub copy_text : List ℕ → List (List ℕ) → Next
copy_text text args = if ltb (length text) max_command_length then taken text args else overflows

-- `connect` and `get`: one argument.
unfoldable pub with_one : List ℕ → List (List ℕ) → Next
unfolding copy_text
with_one word [] = exits
with_one word (a ∷ args) = copy_text (word ++ b' ' ∷ a) args

-- `set`: two arguments.
unfoldable pub with_two : List ℕ → List (List ℕ) → Next
unfolding copy_text
with_two word [] = exits
with_two word (a ∷ []) = exits
with_two word (a ∷ b ∷ args) = copy_text (word ++ b' ' ∷ (a ++ b' ' ∷ b)) args

unfoldable pub takes_none : List ℕ → Bool
unfolding same_word
takes_none word =
    same_word word Name.close
    || same_word word Name.quit
    || same_word word Name.exit
    || same_word word Name.bye
    || same_word word Name.help
    || same_word word Name.dir

unfoldable pub takes_one : List ℕ → Bool
unfolding same_word
takes_one word = same_word word Name.connect || same_word word Name.get

unfoldable pub takes_two : List ℕ → Bool
unfolding same_word
takes_two word = same_word word Name.set

-- The loop over the arguments: one that is no command is skipped; at the end, the buffer has its old text.
unfoldable pub assemble : List (List ℕ) → List ℕ → Next
unfolding takes_none takes_one takes_two with_one with_two copy_text
assemble [] command_text = taken command_text []
assemble (word ∷ args) command_text =
    let later = assemble args command_text in
    if takes_none word
    then copy_text word args
    else if takes_one word
    then with_one word args
    else if takes_two word
    then with_two word args
    else later

-- The words of the next command, the text that is left in the buffer, and the arguments that are left.
pub record Round : Type 0 where
  pub words : List (List ℕ)
  pub command_text : List ℕ
  pub args : List (List ℕ)

-- The text of the next command: the line that fgets reads after the prompt when no argument is left,
-- where the program ends if there is none; else from the arguments.
unfoldable pub next_text : Option (List ℕ) → List (List ℕ) → List ℕ → Next
unfolding assemble
next_text none [] command_text = exits
next_text (some line) [] command_text = taken line []
next_text input (word ∷ args) command_text = assemble (word ∷ args) command_text

-- The loop of main up to the dispatch; `input` is the result of fgets.
unfoldable pub next_round : Option (List ℕ) → List (List ℕ) → List ℕ → Option Round
unfolding next_text parse_command text_of
next_round input args command_text = elim (next_text input args command_text) [
  | taken text rest ↦
      let parsed = parse_command text in
      some (record { words = parsed.words; command_text = text_of parsed.buffer; args = rest })
  | exits ↦ none
  | overflows ↦ none
]
