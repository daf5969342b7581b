-- ===== src/Server/Options/Laws.antt =====
-- What a server that was started with some files lists.
use tsunami_udp.Server.Options.Given.{IsKnown, settings_of, set_options-known}
use tsunami_udp.Prelude.{
  ℕ, suc, ◌+◌, ◌%◌, ◌^◌, ◌<◌, ◌≡◌, refl, ap, ap₂, subst, sym, List, [], ◌∷◌, ◌++◌, arith, length,
  map, All, le→ltb_false, Option, some, ◌∙◌,
}
use tsunami_udp.Decimal.{digits}
use tsunami_udp.Wire.Connection.{returned, failed}
use tsunami_udp.Wire.Connection.Laws.{take_all, line_of_room}
use tsunami_udp.Negotiation.{Shared, serve_listing}
use tsunami_udp.Listing.{command_dir}
use tsunami_udp.Listing.Agreement.{IsListed, listing_bytes, listing-agrees}
use tsunami_udp.Server.Options.{
  Settings, OptionGiven, measure, starts, share_files, process_options, listed_files, shared_of,
}

-- A file that exists, by its name and its size.
abbrev pub Exists : (List ℕ → Option ℕ) → List ℕ × ℕ → Type 0
Exists stat (name, size) = stat name ≡ some size

abbrev pub names_of : List (List ℕ × ℕ) → List (List ℕ)
names_of files = map (λ f. f.0) files

-- The bytes of the names, each with its terminator.
abbrev pub name_bytes : List (List ℕ × ℕ) → ℕ
name_bytes [] = 0
name_bytes ((name, size) ∷ files) = length name + 1 + name_bytes files

measure-Exists :
    (stat : List ℕ → Option ℕ) (st_size before : ℕ) (files : List (List ℕ × ℕ))
    → All (Exists stat) files
    → before < 2 ^ 16
    → measure stat st_size before (names_of files)
      ≡ (map (λ f. f.1) files, (before + name_bytes files) % 2 ^ 16)
unfolding measure
measure-Exists stat st_size before [] all fits = ap₂ (λ a b. (a, b)) refl (omega (arith, fits))
measure-Exists stat st_size before ((name, size) ∷ files) (there, all) fits =
    let now = (before + (length name + 1)) % 2 ^ 16 in
    let e : (now + name_bytes files) % 2 ^ 16
        ≡ (before + (length name + 1 + name_bytes files)) % 2 ^ 16 =
      omega arith in
    rw (there, measure-Exists stat size now files all (omega arith), e) refl

listed_files-zip :
    (files : List (List ℕ × ℕ)) → listed_files (names_of files) (map (λ f. f.1) files) ≡ files
unfolding listed_files
listed_files-zip [] = refl
listed_files-zip ((name, size) ∷ files) = ap (λ t. (name, size) ∷ t) (listed_files-zip files)

length-names_of : (files : List (List ℕ × ℕ)) → length (names_of files) ≡ length files
length-names_of [] = refl
length-names_of (f ∷ files) = ap suc (length-names_of files)

-- The settings with the files.
abbrev pub sharing : List (List ℕ × ℕ) → Settings → Settings
sharing files s = record s {
  file_names = names_of files;
  file_sizes = map (λ f. f.1) files;
  file_name_size = name_bytes files % 2 ^ 16;
  total_files = length files;
}

module _ (stat : List ℕ → Option ℕ) (st_size : ℕ) (first : List ℕ × ℕ) (others : List (List ℕ × ℕ))
    (few : length (first ∷ others) < 2 ^ 16) where
  share_files-exist :
      (s : Settings)
      → All (Exists stat) (first ∷ others)
      → share_files stat st_size (names_of (first ∷ others)) s ≡ starts (sharing (first ∷ others) s)
  unfolding share_files
  share_files-exist s all =
      let files = first ∷ others in
      let count : length (names_of files) % 2 ^ 16 ≡ length files =
        omega (arith, length-names_of files, few) in
      let measured : measure stat st_size 0 (names_of files)
          ≡ (map (λ f. f.1) files, name_bytes files % 2 ^ 16) =
        measure-Exists stat st_size 0 files all (omega arith)
        ∙ ap (λ n. (map (λ f. f.1) files, n)) (omega arith) in
      rw
        (
          share_files,
          measured,
          count,
          le→ltb_false (length files) (length (names_of files))
              (omega (arith, length-names_of files)),
        )
        refl

  listed-sharing :
      (content : List ℕ → Option (List ℕ)) (prints : List ℕ → List ℕ) (s : Settings)
      → (shared_of content prints (sharing (first ∷ others) s)).listed ≡ first ∷ others
  unfolding shared_of
  listed-sharing content prints s =
      let files = first ∷ others in
      rw (shared_of, listed_files-zip files) (take_all (length files) files (omega arith))

  -- What both sides of a listing come to.
  abbrev Lists : Shared → List ℕ → ℕ → List (List ℕ × ℕ) → Type 0
  Lists shared read_str room files =
      let from_server = digits (length files) ++ 0 ∷ listing_bytes files in
      let client = command_dir read_str (line_of_room from_server (9 + room)) in
      let server = serve_listing shared (line_of_room (0 ∷ []) (length from_server + room)) in
      (server.sent ≡ from_server) × (server.ended ≡ failed) × (client.ended ≡ returned files)

  -- No option is unknown, and the files that follow them, at least one and fewer than 2^16, exist,
  -- their names have no zero and no newline and are shorter than 2047 bytes, and their sizes are below
  -- 2^63. Then the server starts, whatever is on its stack, with these files and with each setting as
  -- the last option for it gives it, or as it was before; and to the request for a list, over a connection that works, it sends what makes the
  -- client know exactly the names, in order, with the sizes that the files have.
  pub process_options-listing :
      (options : List OptionGiven) (s : Settings) (content : List ℕ → Option (List ℕ))
      (prints : List ℕ → List ℕ) (read_str : List ℕ) (room : ℕ)
      → All IsKnown options
      → All (Exists stat) (first ∷ others)
      → All IsListed (first ∷ others)
      → let files = first ∷ others in
        let from_server = digits (length files) ++ 0 ∷ listing_bytes files in
        let t = settings_of options s in
        let shared = shared_of content prints (sharing files t) in
        let client = command_dir read_str (line_of_room from_server (9 + room)) in
        let server = serve_listing shared (line_of_room (0 ∷ []) (length from_server + room)) in
        (process_options stat st_size options (names_of files) s ≡ starts (sharing files t))
        × (server.sent ≡ from_server)
        × (server.ended ≡ failed)
        × (client.ended ≡ returned files)
  unfolding process_options
  process_options-listing options s content prints read_str room known exist fit =
      let files = first ∷ others in
      let t = settings_of options s in
      let given = set_options-known options s known in
      let shared = shared_of content prints (sharing files t) in
      let listed = listed-sharing content prints t in
      let (client_sent, server_sent, client_read, server_read, client_ended, server_ended) =
        listing-agrees shared (subst (All IsListed) (sym listed) fit)
          (subst (λ l. length l < 2 ^ 16) (sym listed) few) read_str room in
      let (sent, server_fails, listed_all) =
        subst (Lists shared read_str room) listed (server_sent, server_ended, client_ended) in
      (rw (process_options, given) (share_files-exist t exist), sent, server_fails, listed_all)
