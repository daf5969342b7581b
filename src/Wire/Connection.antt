-- ===== src/Wire/Connection.antt =====
-- The control connection as one side uses it: full_read, full_write and read_line of
-- tsunami-udp/common/common.c on the server, stdio on the client.
pub mod Laws
pub mod Lines
use tsunami_udp.Prelude.{
  ℕ, zero, suc, ◌+◌, ◌-◌, Bool, true, false, ◌||◌, ◌==◌, ltb, List, [], ◌∷◌, ◌++◌, if◌then◌else◌,
  length, take, drop, Option, none, some,
}
use tsunami_udp.Wire.{from_bytes, from_stored, Host, ntohll}

-- What comes in before the other side closes, and how many bytes can be written before the
-- connection breaks.
pub record Line : Type 0 where
  pub incoming : List ℕ
  pub room : ℕ

-- How a part of the negotiation ends: with a value; with a failure; `error` ends the process; a read is
-- repeated for ever; or a division by 0.
pub data Ended {ℓ} (A : Type ℓ) : Type ℓ where
  returned : A → Ended A
  failed : Ended A
  exits : Ended A
  hangs : Ended A
  faults : Ended A

pub record Outcome {ℓ} (A : Type ℓ) : Type ℓ where
  pub sent : List ℕ
  pub line : Line
  pub ended : Ended A

abbrev pub Action {ℓ} : Type ℓ → Type ℓ
Action A = Line → Outcome A

abbrev pub ends {ℓ} : {A : Type ℓ} → Ended A → Action A
ends e line = record { sent = []; line = line; ended = e }

abbrev pub pure {ℓ} : {A : Type ℓ} → A → Action A
pure a = ends (returned a)

-- What was sent before stays sent.
abbrev pub after {ℓ} : {A : Type ℓ} → List ℕ → Outcome A → Outcome A
after sent o = record { sent = sent ++ o.sent; line = o.line; ended = o.ended }

-- What follows a part that returned; a part that ends otherwise ends it all.
abbrev pub then_with {ℓ κ} : {A : Type ℓ} {B : Type κ} → Outcome A → (A → Action B) → Outcome B
then_with o f = elim o.ended [
  | returned a ↦ after o.sent (f a o.line)
  | failed ↦ after o.sent (ends failed o.line)
  | exits ↦ after o.sent (ends exits o.line)
  | hangs ↦ after o.sent (ends hangs o.line)
  | faults ↦ after o.sent (ends faults o.line)
]

infixl 5 ◌>>=◌ ◌>>◌
abbrev pub ◌>>=◌ {ℓ κ} : {A : Type ℓ} {B : Type κ} → Action A → (A → Action B) → Action B
◌>>=◌ m f line = then_with (m line) f

abbrev pub ◌>>◌ {ℓ} : {B : Type ℓ} → Action (Unit {0}) → Action B → Action B
m >> k = m >>= λ _. k

abbrev pub check : Bool → Action (Unit {0})
check true = pure tt
check false = ends failed

-- A failure, and a division by 0, that a call may end in.
abbrev pub or_fail {ℓ} : {A : Type ℓ} → Option A → Action A
or_fail none = ends failed
or_fail (some a) = pure a

abbrev pub or_fault {ℓ} : {A : Type ℓ} → Option A → Action A
or_fault none = ends faults
or_fault (some a) = pure a

-- A failure at which the caller ends the process.
abbrev pub fatal_ending {ℓ} : {A : Type ℓ} → Ended A → Ended A
fatal_ending failed = exits
fatal_ending e = e

abbrev pub fatal {ℓ} : {A : Type ℓ} → Action A → Action A
fatal m line =
    let o = m line in record { sent = o.sent; line = o.line; ended = fatal_ending o.ended }

-- After a failure the caller goes on with something else.
abbrev pub or_else {ℓ} : {A : Type ℓ} → Action A → Action A → Action A
or_else m next line =
    let o = m line in
    elim o.ended [
      | returned a ↦ o
      | failed ↦ after o.sent (next o.line)
      | exits ↦ o
      | hangs ↦ o
      | faults ↦ o
    ]

-- `fwrite` and `fflush` on the client, which notices that the connection is broken.
unfoldable pub send : List ℕ → Action (Unit {0})
send bytes line = record {
  sent = take line.room bytes;
  line = record line { room = line.room - length bytes };
  ended = if ltb line.room (length bytes) then failed else returned tt;
}

-- `full_write` on the server: its result is never negative, so that a broken connection goes unnoticed.
unfoldable pub full_write : List ℕ → Action (Unit {0})
full_write bytes line = record {
  sent = take line.room bytes;
  line = record line { room = line.room - length bytes };
  ended = returned tt;
}

-- A read of so many bytes, and how it ends when the other side closes before.
unfoldable pub read_or {ℓ} : {A : Type ℓ} → Ended A → ℕ → (List ℕ → A) → Action A
read_or short count f line =
    if ltb (length line.incoming) count
    then record { sent = []; line = record line { incoming = [] }; ended = short }
    else record {
      sent = [];
      line = record line { incoming = drop count line.incoming };
      ended = returned (f (take count line.incoming));
    }

-- A number of so many bytes on the client: `fread` fails.
abbrev pub fread : ℕ → Action ℕ
fread count = read_or failed count (from_bytes 0)

-- The 64-bit number that the client turns over with ntohll.
abbrev pub fread_word64 : Host → Action ℕ
fread_word64 host = read_or failed 8 (λ bytes. ntohll host (from_stored host bytes))

-- On the server: `full_read` goes on while read gives 0.
abbrev pub full_read : ℕ → Action ℕ
full_read count = read_or hangs count (from_bytes 0)

-- `read_line`, with the number of characters that fit before the terminator: the line, without the
-- newline, the zero or the last character that ends it, and the rest.
unfoldable pub line_of : ℕ → List ℕ → Option (List ℕ × List ℕ)
line_of room [] = none
line_of zero (c ∷ input) = some ([], input)
line_of (suc room) (c ∷ input) =
    let rest = line_of room input in
    if c == 0 || c == b'\n'
    then some ([], input)
    else elim rest [ none ↦ none | some r ↦ some (c ∷ r.0, r.1) ]

-- `read_line`: the calls in ttp_open_transfer end the process at a failure.
unfoldable pub read_line : ℕ → Action (List ℕ)
unfolding line_of
read_line buffer_length line = elim (line_of (buffer_length - 1) line.incoming) [
  | none ↦ record { sent = []; line = record line { incoming = [] }; ended = exits }
  | some r ↦ record { sent = []; line = record line { incoming = r.1 }; ended = returned r.0 }
]
