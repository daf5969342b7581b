-- ===== src/Server/Options.antt =====
-- The start of the server: reset_server of tsunami-udp/server/config.c, and process_options of
-- tsunami-udp/server/main.c, without VSIB_REALTIME. The options come as getopt_long gives them.
pub mod Given
pub mod Laws
mod Tests
use tsunami_udp.Prelude.{
  ℕ, zero, suc, ◌+◌, ◌%◌, ◌^◌, Bool, true, false, List, [], ◌∷◌, Option, none, some, ltb, length,
  if◌then◌else◌, take,
}
use tsunami_udp.Decimal.{atol}
use tsunami_udp.Negotiation.{Shared}
use tsunami_udp.Session.{default_secret}

-- The fields of `ttp_parameter_t` that are set before a client comes. A pointer may be NULL.
pub record Settings : Type 0 where
  pub block_size : ℕ
  pub secret : List ℕ
  pub client : Option (List ℕ)
  pub tcp_port : ℕ
  pub udp_buffer : ℕ
  pub hb_timeout : ℕ
  pub verbose_yn : Bool
  pub transcript_yn : Bool
  pub ipv6_yn : Bool
  pub finishhook : Option (List ℕ)
  pub allhook : Option (List ℕ)
  pub file_names : List (List ℕ)
  pub file_sizes : List ℕ
  pub file_name_size : ℕ
  pub total_files : ℕ

-- `reset_server`
abbrev pub default_settings : Settings
default_settings = record {
  block_size = 1024;
  secret = default_secret;
  client = none;
  tcp_port = 46224;
  udp_buffer = 20000000;
  hb_timeout = 15;
  verbose_yn = true;
  transcript_yn = false;
  ipv6_yn = false;
  finishhook = none;
  allhook = none;
  file_names = [];
  file_sizes = [];
  file_name_size = 0;
  total_files = 0;
}

-- The options, with `optarg`; `unknown` is any other result of getopt_long above 0.
pub data OptionGiven : Type 0 where
  verbose : OptionGiven
  transcript : OptionGiven
  v6 : OptionGiven
  port : List ℕ → OptionGiven
  secret_is : List ℕ → OptionGiven
  client_is : List ℕ → OptionGiven
  finishhook_is : List ℕ → OptionGiven
  allhook_is : List ℕ → OptionGiven
  buffer : List ℕ → OptionGiven
  hbtimeout : List ℕ → OptionGiven
  unknown : OptionGiven

-- The switch: an unknown option prints the usage and ends the process.
unfoldable pub set_option : OptionGiven → Settings → Option Settings
set_option verbose s = some (record s { verbose_yn = true })
set_option transcript s = some (record s { transcript_yn = true })
set_option v6 s = some (record s { ipv6_yn = true })
set_option (port text) s = some (record s { tcp_port = atol 16 text })
set_option (secret_is text) s = some (record s { secret = text })
set_option (client_is text) s = some (record s { client = some text })
set_option (finishhook_is text) s = some (record s { finishhook = some text })
set_option (allhook_is text) s = some (record s { allhook = some text })
set_option (buffer text) s = some (record s { udp_buffer = atol 32 text })
set_option (hbtimeout text) s = some (record s { hb_timeout = atol 16 text })
set_option unknown s = none

unfoldable pub set_options : List OptionGiven → Settings → Option Settings
unfolding set_option
set_options [] s = some s
set_options (o ∷ options) s = elim (set_option o s) [ none ↦ none | some t ↦ set_options options t ]

-- The loop over the files: the sizes and the sum of the lengths, with terminators. `stat` that fails
-- leaves `filestat` as it was, with the size of an earlier file or what was on the stack.
unfoldable pub measure : (List ℕ → Option ℕ) → ℕ → ℕ → List (List ℕ) → List ℕ × ℕ
measure stat st_size file_name_size [] = ([], file_name_size)
measure stat st_size file_name_size (name ∷ names) =
    let size : ℕ = elim (stat name) [ none ↦ st_size | some size ↦ size ] in
    let rest = measure stat size ((file_name_size + (length name + 1)) % 2 ^ 16) names in
    (size ∷ rest.0, rest.1)

-- How the start ends: with the settings; with the usage; or with a write past the end of `file_sizes`,
-- which has as many entries as `total_files`, a u_int16_t, says.
pub data Started : Type 0 where
  starts : Settings → Started
  usage : Started
  overruns : Started

unfoldable pub share_files : (List ℕ → Option ℕ) → ℕ → List (List ℕ) → Settings → Started
share_files stat st_size [] s = starts s
share_files stat st_size (name ∷ names) s =
    let total_files = length (name ∷ names) % 2 ^ 16 in
    let measured = measure stat st_size 0 (name ∷ names) in
    if ltb total_files (length (name ∷ names))
    then overruns
    else starts (record s {
      file_names = name ∷ names;
      file_sizes = measured.0;
      file_name_size = measured.1;
      total_files = total_files;
    })

-- `process_options`, with the options, the arguments after them, and what is on the stack.
unfoldable pub process_options :
    (List ℕ → Option ℕ) → ℕ → List OptionGiven → List (List ℕ) → Settings → Started
unfolding set_options share_files
process_options stat st_size options names s = elim (set_options options s) [
  | none ↦ usage
  | some t ↦ share_files stat st_size names t
]

-- The names with the sizes beside them.
unfoldable pub listed_files : List (List ℕ) → List ℕ → List (List ℕ × ℕ)
listed_files [] sizes = []
listed_files (name ∷ names) [] = []
listed_files (name ∷ names) (size ∷ sizes) = (name, size) ∷ listed_files names sizes

-- What the negotiations with a client see of the settings: `content` is what fopen gives for a name, and
-- `prints` what a program prints.
unfoldable pub shared_of : (List ℕ → Option (List ℕ)) → (List ℕ → List ℕ) → Settings → Shared
shared_of content prints s = record {
  content = content;
  listed = take s.total_files (listed_files s.file_names s.file_sizes);
  allhook = elim s.allhook [ none ↦ none | some program ↦ some (prints program) ];
}
