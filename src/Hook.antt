-- ===== src/Hook.antt =====
-- `fgets`, and the list of files that a program gives: the branch for `allhook` of ttp_open_transfer in
-- tsunami-udp/server/protocol.c. The program is a parameter, by what it prints; popen succeeds.
pub mod Laws
mod Tests
use tsunami_udp.Prelude.{
  ℕ, zero, suc, ◌+◌, Bool, true, false, ◌&&◌, List, [], ◌∷◌, ◌==◌, ltb, leb, if◌then◌else◌, length,
}

-- `fgets` with room for so many characters before the terminator, on input that is not at its end: what it
-- reads, and the rest.
unfoldable pub fgets : ℕ → List ℕ → List ℕ × List ℕ
fgets room [] = ([], [])
fgets zero (c ∷ input) = ([], c ∷ input)
fgets (suc room) (c ∷ input) =
    let rest = fgets room input in if c == b'\n' then (c ∷ [], input) else (c ∷ rest.0, rest.1)

-- The characters before the first one below ` `; a char is signed.
unfoldable pub printable : List ℕ → List ℕ
printable [] = []
printable (c ∷ text) = let rest = printable text in if leb b' ' c && ltb c 128 then c ∷ rest else []

-- MaxFileListLength
abbrev pub max_file_list_length : ℕ
max_file_list_length = 32768

-- The loop over the lines, each read into the 20 bytes of `message`, with rounds for it: the names that are
-- put into `fileList`, and the sum of their lengths, with terminators.
unfoldable pub collect : ℕ → List ℕ → ℕ → List (List ℕ) × ℕ
unfolding fgets printable
collect zero output total = ([], total)
collect (suc rounds) [] total = ([], total)
collect (suc rounds) (c ∷ output) total =
    let line = fgets 19 (c ∷ output) in
    let name = printable line.0 in
    let rest = collect rounds line.1 (total + (length name + 1)) in
    if leb max_file_list_length (length name + total) then ([], total) else (name ∷ rest.0, rest.1)

-- A round takes at least one character.
unfoldable pub hook_files : List ℕ → List (List ℕ) × ℕ
hook_files output = collect (length output) output 0
