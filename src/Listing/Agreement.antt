-- ===== src/Listing/Agreement.antt =====
-- The list that the server sends and the client reads, over a connection that works.
use tsunami_udp.Prelude.{
  ℕ, ◌+◌, ◌-◌, ◌^◌, ◌≤◌, ◌<◌, ◌≡◌, refl, ap, subst, List, [], ◌∷◌, ◌++◌, ne→==_false, arith, length,
  length-append, append_assoc, append-nil, drop, All,
}
use tsunami_udp.Decimal.{digits, atol}
use tsunami_udp.Decimal.RoundTrip.{atol-printed, length-digits, digits-cons}
use tsunami_udp.Wire.Connection.{failed, hangs, returned}
use tsunami_udp.Wire.Connection.Laws.{take_all, full_write-room, line_of_room, gives}
use tsunami_udp.Wire.Connection.Lines.{IsPlain, line_of-stop, read_byte}
use tsunami_udp.Negotiation.{Shared, dirlist_command, terminated, write_listing, serve_listing}
use tsunami_udp.Listing.{text_of, overwrite, fread_line, read_entries, command_dir}
use tsunami_udp.Listing.Digits.{digits-IsPlain}

-- Names and sizes as they are sent.
abbrev pub listing_bytes : List (List ℕ × ℕ) → List ℕ
listing_bytes [] = []
listing_bytes ((name, size) ∷ files) = name ++ 0 ∷ (digits size ++ 0 ∷ listing_bytes files)

-- A file that goes through: a name of one line that fits the buffer, and a size that atol reads.
abbrev pub IsListed : List ℕ × ℕ → Type 0
IsListed (name, size) = IsPlain name × (length name < 2047) × (size < 2 ^ 63)

pub read_text :
    (size : ℕ) (name rest buffer : List ℕ) (room : ℕ)
    → IsPlain name
    → length name < size
    → fread_line size buffer (line_of_room (name ++ 0 ∷ rest) room)
      ≡ gives [] rest room (overwrite (name ++ 0 ∷ []) buffer)
unfolding fread_line
read_text size name rest buffer room p h =
    rw (fread_line, line_of-stop 0 (size - 1) name rest refl p (omega (arith, h))) refl

pub text_of-terminated :
    (name rest : List ℕ) → IsPlain name → text_of ((name ++ 0 ∷ []) ++ rest) ≡ name
unfolding text_of
text_of-terminated [] rest p = refl
text_of-terminated (c ∷ name) rest (nonzero, other, p) =
    rw (ne→==_false c 0 nonzero, text_of-terminated name rest p) refl

small_digits : (size : ℕ) → size < 2 ^ 63 → length (digits size) ≤ 19
small_digits size h = length-digits size 18 (omega (arith, h))

read_entries-listing :
    (files : List (List ℕ × ℕ)) (buffer : List ℕ) (room : ℕ)
    → All IsListed files
    → read_entries (length files) buffer (line_of_room (listing_bytes files) room)
      ≡ gives [] [] room files
unfolding read_entries
read_entries-listing [] buffer room all = refl
read_entries-listing ((name, size) ∷ files) buffer room ((plain, short, small), all) =
    let rest = listing_bytes files in
    let named = overwrite (name ++ 0 ∷ []) buffer in
    let sized = overwrite (digits size ++ 0 ∷ []) named in
    rw
      (
        read_entries,
        read_text 2047 name (digits size ++ 0 ∷ rest) buffer room plain short,
        read_text 2047 (digits size) rest named room (digits-IsPlain size)
            (omega (arith, small_digits size small)),
        read_entries-listing files sized room all,
        text_of-terminated name (drop (length (name ++ 0 ∷ [])) buffer) plain,
        text_of-terminated (digits size) (drop (length (digits size ++ 0 ∷ [])) named)
            (digits-IsPlain size),
        atol-printed 64 size small (omega (arith, small)),
      )
      refl

write_listing-bytes :
    (files : List (List ℕ × ℕ)) (incoming : List ℕ) (room : ℕ)
    → All IsListed files
    → write_listing files (line_of_room incoming (length (listing_bytes files) + room))
      ≡ gives (listing_bytes files) incoming room tt
unfolding write_listing
write_listing-bytes [] incoming room all = let e : 0 + room ≡ room = omega arith in rw e refl
write_listing-bytes ((name, size) ∷ files) incoming room ((plain, short, small), all) =
    let rest = listing_bytes files in
    let left = length rest + room in
    let middle = length (terminated (digits size)) + left in
    rw
      (
        write_listing,
        take_all 19 (digits size) (small_digits size small),
        full_write-room (terminated name) incoming
            (length (listing_bytes ((name, size) ∷ files)) + room) middle
            (omega (
              arith,
              length-append name (0 ∷ []),
              length-append (digits size) (0 ∷ []),
              length-append name (0 ∷ (digits size ++ 0 ∷ rest)),
              length-append (digits size) (0 ∷ rest),
            )),
        full_write-room (terminated (digits size)) incoming middle left refl,
        write_listing-bytes files incoming room all,
        append_assoc (digits size) (0 ∷ []) rest,
        append_assoc name (0 ∷ []) (digits size ++ 0 ∷ rest),
      )
      refl

module _ (shared : Shared) (all : All IsListed shared.listed)
    (few : length shared.listed < 2 ^ 16) where
  pub serve_listing-sends :
      (incoming : List ℕ) (room : ℕ)
      → let from_server = digits (length shared.listed) ++ 0 ∷ listing_bytes shared.listed in
        serve_listing shared (line_of_room (0 ∷ incoming) (length from_server + room))
        ≡ record { sent = from_server; line = line_of_room incoming room; ended = failed }
  unfolding serve_listing
  serve_listing-sends incoming room =
      let count = digits (length shared.listed) in
      let rest = listing_bytes shared.listed in
      let short = length-digits (length shared.listed) 8 (omega (arith, few)) in
      rw
        (
          serve_listing,
          take_all 9 count short,
          full_write-room (terminated count) (0 ∷ incoming) (length (count ++ 0 ∷ rest) + room)
              (length rest + room)
              (omega (arith, length-append count (0 ∷ []), length-append count (0 ∷ rest))),
          write_listing-bytes shared.listed (0 ∷ incoming) room all,
          read_byte hangs 0 incoming room,
          append-nil rest,
          append_assoc count (0 ∷ []) rest,
        )
        refl

  -- The client takes the first digit of the number of files for the answer.
  command_dir-reads :
      (read_str : List ℕ) (room c : ℕ) (rest : List ℕ)
      → digits (length shared.listed) ≡ c ∷ rest
      → b'0' ≤ c
      → command_dir read_str
          (line_of_room (c ∷ (rest ++ 0 ∷ listing_bytes shared.listed)) (9 + room))
        ≡ record {
          sent = (dirlist_command ++ b'\n' ∷ []) ++ 0 ∷ [];
          line = line_of_room [] room;
          ended = returned shared.listed;
        }
  unfolding command_dir
  command_dir-reads read_str room c rest e digit =
      let listing = listing_bytes shared.listed in
      let count = length shared.listed in
      let plain = subst IsPlain e (digits-IsPlain count) in
      let short = length-digits count 4 (omega (arith, few)) in
      let text = overwrite (rest ++ 0 ∷ []) read_str in
      let number : atol 16 (text_of (c ∷ text)) ≡ count =
        rw (text_of-terminated (c ∷ rest) (drop (length (rest ++ 0 ∷ [])) read_str) plain, ← e)
          (atol-printed 16 count (omega (arith, few)) (omega (arith, few))) in
      rw
        (
          command_dir,
          full_write-room (dirlist_command ++ b'\n' ∷ []) (c ∷ (rest ++ 0 ∷ listing)) (9 + room)
              (1 + room) (omega arith),
          read_byte failed c (rest ++ 0 ∷ listing) (1 + room),
          ne→==_false c 8 (λ h. omega (arith, h, digit)),
          read_text 2046 rest listing read_str (1 + room) plain.2
              (omega (arith, short, ap (λ t. length t) e)),
          number,
          read_entries-listing shared.listed (c ∷ text) (1 + room) all,
          full_write-room (0 ∷ []) [] (1 + room) room (omega arith),
        )
        refl

  -- Each side is given what the other one sends, over a connection that works. The server shares fewer
  -- than 2^16 files; their names have no zero and no newline and are shorter than 2047 bytes, and their
  -- sizes are below 2^63. Then the client gets exactly the names and the sizes, in order, whatever its
  -- buffer held before; each side has read all that the other sent; and the server goes on without a
  -- transfer.
  pub listing-agrees :
      (read_str : List ℕ) (room : ℕ)
      → let from_server = digits (length shared.listed) ++ 0 ∷ listing_bytes shared.listed in
        let client = command_dir read_str (line_of_room from_server (9 + room)) in
        let server = serve_listing shared (line_of_room (0 ∷ []) (length from_server + room)) in
        (client.sent ≡ (dirlist_command ++ b'\n' ∷ []) ++ 0 ∷ [])
        × (server.sent ≡ from_server)
        × (client.line.incoming ≡ [])
        × (server.line.incoming ≡ [])
        × (client.ended ≡ returned shared.listed)
        × (server.ended ≡ failed)
  listing-agrees read_str room =
      let (c, rest, e, digit) = digits-cons (length shared.listed) in
      let client = command_dir-reads read_str room c rest e digit in
      let server = serve_listing-sends [] room in
      (
        rw (e, client) refl,
        ap (λ o. o.sent) server,
        rw (e, client) refl,
        ap (λ o. o.line.incoming) server,
        rw (e, client) refl,
        ap (λ o. o.ended) server,
      )
