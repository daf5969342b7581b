-- ===== src/Server/Options/Given.antt =====
-- What the options of the server stand for, setting by setting.
use tsunami_udp.Prelude.{
  ℕ, ◌≡◌, refl, Bool, true, false, List, [], ◌∷◌, Option, none, some, All, arith,
}
use tsunami_udp.Decimal.{atol}
use tsunami_udp.Server.Options.{
  Settings, OptionGiven, verbose, transcript, v6, port, secret_is, client_is, finishhook_is,
  allhook_is, buffer, hbtimeout, unknown, set_option, set_options,
}

abbrev pub is_known : OptionGiven → Bool
is_known unknown = false
is_known _ = true

abbrev pub IsKnown : OptionGiven → Type 0
IsKnown o = is_known o ≡ true

-- The value of the last option that gives one; without any, the value of before.
abbrev pub last_given : {A : Type 0} → (OptionGiven → Option A) → List OptionGiven → A → A
last_given pick [] old = old
last_given pick (o ∷ options) old =
    last_given pick options (elim (pick o) [ none ↦ old | some new ↦ new ])

abbrev pub verbose_of : OptionGiven → Option Bool
verbose_of verbose = some true
verbose_of _ = none

abbrev pub transcript_of : OptionGiven → Option Bool
transcript_of transcript = some true
transcript_of _ = none

abbrev pub v6_of : OptionGiven → Option Bool
v6_of v6 = some true
v6_of _ = none

abbrev pub port_of : OptionGiven → Option ℕ
port_of (port text) = some (atol 16 text)
port_of _ = none

abbrev pub secret_text_of : OptionGiven → Option (List ℕ)
secret_text_of (secret_is text) = some text
secret_text_of _ = none

abbrev pub client_of : OptionGiven → Option (Option (List ℕ))
client_of (client_is text) = some (some text)
client_of _ = none

abbrev pub finishhook_of : OptionGiven → Option (Option (List ℕ))
finishhook_of (finishhook_is text) = some (some text)
finishhook_of _ = none

abbrev pub allhook_of : OptionGiven → Option (Option (List ℕ))
allhook_of (allhook_is text) = some (some text)
allhook_of _ = none

abbrev pub buffer_of : OptionGiven → Option ℕ
buffer_of (buffer text) = some (atol 32 text)
buffer_of _ = none

abbrev pub hbtimeout_of : OptionGiven → Option ℕ
hbtimeout_of (hbtimeout text) = some (atol 16 text)
hbtimeout_of _ = none

-- Each setting has the value of the last option for it.
abbrev pub settings_of : List OptionGiven → Settings → Settings
settings_of options s = record s {
  verbose_yn = last_given verbose_of options s.verbose_yn;
  transcript_yn = last_given transcript_of options s.transcript_yn;
  ipv6_yn = last_given v6_of options s.ipv6_yn;
  tcp_port = last_given port_of options s.tcp_port;
  secret = last_given secret_text_of options s.secret;
  client = last_given client_of options s.client;
  finishhook = last_given finishhook_of options s.finishhook;
  allhook = last_given allhook_of options s.allhook;
  udp_buffer = last_given buffer_of options s.udp_buffer;
  hb_timeout = last_given hbtimeout_of options s.hb_timeout;
}

-- Known options leave each setting with the value of the last option for it.
pub set_options-known :
    (options : List OptionGiven) (s : Settings)
    → All IsKnown options
    → set_options options s ≡ some (settings_of options s)
unfolding set_options set_option
set_options-known [] s known = refl
set_options-known (verbose ∷ options) s (_, known) =
    set_options-known options (record s { verbose_yn = true }) known
set_options-known (transcript ∷ options) s (_, known) =
    set_options-known options (record s { transcript_yn = true }) known
set_options-known (v6 ∷ options) s (_, known) =
    set_options-known options (record s { ipv6_yn = true }) known
set_options-known ((port text) ∷ options) s (_, known) =
    set_options-known options (record s { tcp_port = (atol 16 text) }) known
set_options-known ((secret_is text) ∷ options) s (_, known) =
    set_options-known options (record s { secret = text }) known
set_options-known ((client_is text) ∷ options) s (_, known) =
    set_options-known options (record s { client = (some text) }) known
set_options-known ((finishhook_is text) ∷ options) s (_, known) =
    set_options-known options (record s { finishhook = (some text) }) known
set_options-known ((allhook_is text) ∷ options) s (_, known) =
    set_options-known options (record s { allhook = (some text) }) known
set_options-known ((buffer text) ∷ options) s (_, known) =
    set_options-known options (record s { udp_buffer = (atol 32 text) }) known
set_options-known ((hbtimeout text) ∷ options) s (_, known) =
    set_options-known options (record s { hb_timeout = (atol 16 text) }) known
set_options-known (unknown ∷ options) s (bad, known) = absurd (ground (arith, bad))
