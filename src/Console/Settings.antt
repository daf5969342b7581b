-- ===== src/Console/Settings.antt =====
-- The settings of the client: command_set and parse_fraction of tsunami-udp/client/command.c, and
-- reset_client of tsunami-udp/client/config.c. Allocations succeed.
pub mod Laws
pub mod Numbers
use tsunami_udp.Prelude.{
  ℕ, zero, suc, ◌+◌, ◌-◌, ◌*◌, ◌%◌, ◌^◌, Bool, true, false, not, ◌&&◌, ◌||◌, List, [], ◌∷◌, ◌++◌,
  Option, none, some, ◌==◌, ltb, leb, if◌then◌else◌, length,
}
use tsunami_udp.Decimal.{atol}
use tsunami_udp.Negotiation.{same_text}
use tsunami_udp.Console.Text.{same_word}

-- `ttp_parameter_t`, without the ring buffer of the real-time client. A passphrase that is not set is
-- `none`.
pub record Parameters : Type 0 where
  pub server_name : List ℕ
  pub server_port : ℕ
  pub client_port : ℕ
  pub udp_buffer : ℕ
  pub verbose_yn : Bool
  pub transcript_yn : Bool
  pub ipv6_yn : Bool
  pub screen_mode : Bool
  pub block_size : ℕ
  pub target_rate : ℕ
  pub rate_adjust : Bool
  pub error_rate : ℕ
  pub slower_num : ℕ
  pub slower_den : ℕ
  pub faster_num : ℕ
  pub faster_den : ℕ
  pub history : ℕ
  pub lossless : Bool
  pub losswindow_ms : ℕ
  pub blockdump : Bool
  pub passphrase : Option (List ℕ)

-- `reset_client`
abbrev pub default_parameters : Parameters
default_parameters = record {
  server_name = b'l' ∷ b'o' ∷ b'c' ∷ b'a' ∷ b'l' ∷ b'h' ∷ b'o' ∷ b's' ∷ b't' ∷ [];
  server_port = 46224;
  client_port = 46224;
  udp_buffer = 20000000;
  verbose_yn = true;
  transcript_yn = false;
  ipv6_yn = false;
  screen_mode = false;
  block_size = 1024;
  target_rate = 650000000;
  rate_adjust = false;
  error_rate = 7500;
  slower_num = 25;
  slower_den = 24;
  faster_num = 5;
  faster_den = 6;
  history = 25;
  lossless = true;
  losswindow_ms = 1000;
  blockdump = false;
  passphrase = none;
}

pub data Field : Type 0 where
  server : Field
  port : Field
  udpport : Field
  buffer : Field
  blocksize : Field
  verbose : Field
  transcript : Field
  ip : Field
  output : Field
  rateadjust : Field
  rate : Field
  error : Field
  slowdown : Field
  speedup : Field
  history : Field
  lossless : Field
  losswindow : Field
  blockdump : Field
  passphrase : Field

-- In the order of the report; the names differ, so that the order of the comparisons does not matter.
abbrev pub fields : List Field
fields =
    server ∷ port ∷ udpport ∷ buffer ∷ blocksize ∷ verbose ∷ transcript ∷ ip ∷ output ∷ rate
    ∷ rateadjust ∷ error ∷ slowdown ∷ speedup ∷ history ∷ lossless ∷ losswindow ∷ blockdump
    ∷ passphrase ∷ []

abbrev pub field_name : Field → List ℕ
field_name server = b's' ∷ b'e' ∷ b'r' ∷ b'v' ∷ b'e' ∷ b'r' ∷ []
field_name port = b'p' ∷ b'o' ∷ b'r' ∷ b't' ∷ []
field_name udpport = b'u' ∷ b'd' ∷ b'p' ∷ b'p' ∷ b'o' ∷ b'r' ∷ b't' ∷ []
field_name buffer = b'b' ∷ b'u' ∷ b'f' ∷ b'f' ∷ b'e' ∷ b'r' ∷ []
field_name blocksize = b'b' ∷ b'l' ∷ b'o' ∷ b'c' ∷ b'k' ∷ b's' ∷ b'i' ∷ b'z' ∷ b'e' ∷ []
field_name verbose = b'v' ∷ b'e' ∷ b'r' ∷ b'b' ∷ b'o' ∷ b's' ∷ b'e' ∷ []
field_name transcript = b't' ∷ b'r' ∷ b'a' ∷ b'n' ∷ b's' ∷ b'c' ∷ b'r' ∷ b'i' ∷ b'p' ∷ b't' ∷ []
field_name ip = b'i' ∷ b'p' ∷ []
field_name output = b'o' ∷ b'u' ∷ b't' ∷ b'p' ∷ b'u' ∷ b't' ∷ []
field_name rateadjust = b'r' ∷ b'a' ∷ b't' ∷ b'e' ∷ b'a' ∷ b'd' ∷ b'j' ∷ b'u' ∷ b's' ∷ b't' ∷ []
field_name rate = b'r' ∷ b'a' ∷ b't' ∷ b'e' ∷ []
field_name error = b'e' ∷ b'r' ∷ b'r' ∷ b'o' ∷ b'r' ∷ []
field_name slowdown = b's' ∷ b'l' ∷ b'o' ∷ b'w' ∷ b'd' ∷ b'o' ∷ b'w' ∷ b'n' ∷ []
field_name speedup = b's' ∷ b'p' ∷ b'e' ∷ b'e' ∷ b'd' ∷ b'u' ∷ b'p' ∷ []
field_name history = b'h' ∷ b'i' ∷ b's' ∷ b't' ∷ b'o' ∷ b'r' ∷ b'y' ∷ []
field_name lossless = b'l' ∷ b'o' ∷ b's' ∷ b's' ∷ b'l' ∷ b'e' ∷ b's' ∷ b's' ∷ []
field_name losswindow = b'l' ∷ b'o' ∷ b's' ∷ b's' ∷ b'w' ∷ b'i' ∷ b'n' ∷ b'd' ∷ b'o' ∷ b'w' ∷ []
field_name blockdump = b'b' ∷ b'l' ∷ b'o' ∷ b'c' ∷ b'k' ∷ b'd' ∷ b'u' ∷ b'm' ∷ b'p' ∷ []
field_name passphrase = b'p' ∷ b'a' ∷ b's' ∷ b's' ∷ b'p' ∷ b'h' ∷ b'r' ∷ b'a' ∷ b's' ∷ b'e' ∷ []

unfoldable pub find_field : List Field → List ℕ → Option Field
unfolding same_word
find_field [] word = none
find_field (f ∷ fs) word =
    let later = find_field fs word in if same_word word (field_name f) then some f else later

-- The text after the first `/`, as strchr finds it.
unfoldable pub denominator : List ℕ → Option (List ℕ)
denominator [] = none
denominator (c ∷ text) = let later = denominator text in if c == b'/' then some text else later

-- `parse_fraction`: the two numbers, or a failure that leaves them as they were.
unfoldable pub parse_fraction : List ℕ → Option (ℕ × ℕ)
unfolding denominator
parse_fraction text = elim (denominator text) [
  | none ↦ none
  | some rest ↦ some (atol 16 text, atol 16 rest)
]

-- The multiplier that the last letter stands for, and the text before it; a text of one letter has none.
unfoldable pub suffix : List ℕ → ℕ × List ℕ
suffix [] = (1, [])
suffix (c ∷ []) = (1, c ∷ [])
suffix (c ∷ d ∷ []) =
    if d == b'm' || d == b'M'
    then (1000000, c ∷ [])
    else if d == b'g' || d == b'G'
    then (1000000000, c ∷ [])
    else (1, c ∷ d ∷ [])
suffix (c ∷ d ∷ e ∷ text) = let (multiplier, rest) = suffix (d ∷ e ∷ text) in (multiplier, c ∷ rest)

-- A rate: a text that does not fit the 256 bytes of `cpy` is written past its end. The product wraps.
unfoldable pub parse_rate : List ℕ → Option ℕ
unfolding suffix
parse_rate text =
    let (multiplier, digits) = suffix text in
    if ltb (length text) 256 then some (multiplier * atol 32 digits % 2 ^ 32) else none

abbrev pub yes_text : List ℕ
yes_text = b'y' ∷ b'e' ∷ b's' ∷ []

abbrev pub v6_text : List ℕ
v6_text = b'v' ∷ b'6' ∷ []

abbrev pub screen_text : List ℕ
screen_text = b's' ∷ b'c' ∷ b'r' ∷ b'e' ∷ b'e' ∷ b'n' ∷ []

-- The assignment to a field; `percent` is `atof` of the text times 1000.0, converted.
unfoldable pub set_field : (List ℕ → ℕ) → Field → List ℕ → Parameters → Option Parameters
unfolding parse_rate parse_fraction same_text
set_field percent server text p = some (record p { server_name = text })
set_field percent port text p = some (record p { server_port = atol 16 text })
set_field percent udpport text p = some (record p { client_port = atol 16 text })
set_field percent buffer text p = some (record p { udp_buffer = atol 32 text })
set_field percent blocksize text p = some (record p { block_size = atol 32 text })
set_field percent verbose text p = some (record p { verbose_yn = same_text text yes_text })
set_field percent transcript text p = some (record p { transcript_yn = same_text text yes_text })
set_field percent ip text p = some (record p { ipv6_yn = same_text text v6_text })
set_field percent output text p = some (record p { screen_mode = same_text text screen_text })
set_field percent rateadjust text p = some (record p { rate_adjust = same_text text yes_text })
set_field percent rate text p = elim (parse_rate text) [
  | none ↦ none
  | some r ↦ some (record p { target_rate = r })
]
set_field percent error text p = some (record p { error_rate = percent text })
set_field percent slowdown text p = elim (parse_fraction text) [
  | none ↦ some p
  | some (num, den) ↦ some (record p { slower_num = num; slower_den = den })
]
set_field percent speedup text p = elim (parse_fraction text) [
  | none ↦ some p
  | some (num, den) ↦ some (record p { faster_num = num; faster_den = den })
]
set_field percent history text p = some (record p { history = atol 16 text })
set_field percent lossless text p = some (record p { lossless = same_text text yes_text })
set_field percent losswindow text p = some (record p { losswindow_ms = atol 32 text })
set_field percent blockdump text p = some (record p { blockdump = same_text text yes_text })
set_field percent passphrase text p = some (record p { passphrase = some text })

-- What is reported of a field; of a passphrase, only whether it was specified. A number is printed
-- with its sign; the error rate stands here before its division by 1000.
pub data Value : Type 0 where
  number : ℕ → Value
  minus : ℕ → Value
  words : List ℕ → Value
  flag : Bool → Value
  fraction : ℕ → ℕ → Value

unfoldable pub specified : Option (List ℕ) → Bool
specified none = false
specified (some text) = true

-- A u_int32_t that is printed with %d.
unfoldable pub as_signed : ℕ → Value
as_signed n = if ltb n (2 ^ 31) then number n else minus (2 ^ 32 - n)

unfoldable pub field_value : Field → Parameters → Value
unfolding specified as_signed
field_value server p = words p.server_name
field_value port p = number p.server_port
field_value udpport p = number p.client_port
field_value buffer p = number p.udp_buffer
field_value blocksize p = number p.block_size
field_value verbose p = flag p.verbose_yn
field_value transcript p = flag p.transcript_yn
field_value ip p = flag p.ipv6_yn
field_value output p = flag p.screen_mode
field_value rateadjust p = flag p.rate_adjust
field_value rate p = number p.target_rate
field_value error p = number p.error_rate
field_value slowdown p = fraction p.slower_num p.slower_den
field_value speedup p = fraction p.faster_num p.faster_den
field_value history p = number p.history
field_value lossless p = flag p.lossless
field_value losswindow p = as_signed p.losswindow_ms
field_value blockdump p = flag p.blockdump
field_value passphrase p = flag (specified p.passphrase)

-- The fields that are reported: all, or those with the name.
unfoldable pub report : Bool → List ℕ → List Field → Parameters → List (Field × Value)
unfolding same_word field_value
report do_all word [] p = []
report do_all word (f ∷ fs) p =
    let later = report do_all word fs p in
    if do_all || same_word word (field_name f) then (f, field_value f p) ∷ later else later

-- The parameters after `command_set`, and its report, in the order of `fields`; `none` is a rate that
-- does not fit its buffer. The command has at least one word.
unfoldable pub command_set :
    (List ℕ → ℕ) → List (List ℕ) → Parameters → Option (Parameters × List (Field × Value))
unfolding find_field set_field report
command_set percent [] p = some (p, [])
command_set percent (set ∷ []) p = some (p, report true [] fields p)
command_set percent (set ∷ word ∷ []) p = some (p, report false word fields p)
command_set percent (set ∷ word ∷ text ∷ []) p = elim (find_field fields word) [
  | none ↦ some (p, report false word fields p)
  | some f ↦ (elim (set_field percent f text p) [
    | none ↦ none
    | some q ↦ some (q, report false word fields q)
  ])
]
command_set percent (set ∷ word ∷ text ∷ more ∷ rest) p = some (p, report false word fields p)
