-- ===== src/Hook/Laws.antt =====
-- The names that a program prints, one to a line.
use tsunami_udp.Prelude.{
  ℕ, zero, suc, ◌+◌, ◌≤◌, ◌<◌, ◌≡◌, refl, ap, ◌∙◌, true, false, List, [], ◌∷◌, ◌++◌, ◌==◌, ◌&&◌,
  ltb, leb, arith, length, length-append, length-take, length-drop, ◌-◌, take, drop, All,
}
use tsunami_udp.Hook.{fgets, printable, collect, hook_files, max_file_list_length}

-- A printable character of ASCII.
abbrev pub IsPrintable : ℕ → Type 0
IsPrintable c = (b' ' ≤ c) × (c < 128)

abbrev pub lines : List (List ℕ) → List ℕ
lines [] = []
lines (name ∷ names) = name ++ b'\n' ∷ lines names

-- The bytes of the names, each with its terminator.
abbrev pub name_bytes : List (List ℕ) → ℕ
name_bytes [] = 0
name_bytes (name ∷ names) = length name + 1 + name_bytes names

-- A name that fits into `message` with its newline.
abbrev pub IsShort : List ℕ → Type 0
IsShort name = All IsPrintable name × (length name < 19)

pub fgets-line :
    (room : ℕ) (name rest : List ℕ)
    → All IsPrintable name
    → length name < room
    → fgets room (name ++ b'\n' ∷ rest) ≡ (name ++ b'\n' ∷ [], rest)
unfolding fgets
fgets-line zero name rest p h = absurd (omega (arith, h))
fgets-line (suc room) [] rest p h = refl
fgets-line (suc room) (c ∷ name) rest (char, p) h =
    let other : (c == b'\n') ≡ false = ground (arith, char) in
    rw (other, fgets-line room name rest p (omega (arith, h))) refl

-- A line that is too long is cut off.
fgets-long :
    (room : ℕ) (name rest : List ℕ)
    → All IsPrintable name
    → room ≤ length name
    → fgets room (name ++ rest) ≡ (take room name, drop room name ++ rest)
unfolding fgets
fgets-long zero [] [] p h = refl
fgets-long zero [] (c ∷ rest) p h = refl
fgets-long zero (c ∷ name) rest p h = refl
fgets-long (suc room) [] rest p h = absurd (omega arith)
fgets-long (suc room) (c ∷ name) rest (char, p) h =
    let other : (c == b'\n') ≡ false = ground (arith, char) in
    rw (other, fgets-long room name rest p (omega (arith, h))) refl

printable-line :
    (name rest : List ℕ) → All IsPrintable name → printable (name ++ b'\n' ∷ rest) ≡ name
unfolding printable
printable-line [] rest p = refl
printable-line (c ∷ name) rest (char, p) =
    let fine : (leb b' ' c && ltb c 128) ≡ true = ground (arith, char) in
    rw (fine, printable-line name rest p) refl

printable-all : (name : List ℕ) → All IsPrintable name → printable name ≡ name
unfolding printable
printable-all [] p = refl
printable-all (c ∷ name) (char, p) =
    let fine : (leb b' ' c && ltb c 128) ≡ true = ground (arith, char) in
    rw (fine, printable-all name p) refl

-- A round, by what `fgets` gives.
collect-round :
    (rounds total c : ℕ) (output line rest name : List ℕ)
    → fgets 19 (c ∷ output) ≡ (line, rest)
    → printable line ≡ name
    → length name + total < max_file_list_length
    → collect (suc rounds) (c ∷ output) total ≡ (
      name ∷ (collect rounds rest (total + (length name + 1))).0,
      (collect rounds rest (total + (length name + 1))).1,
    )
unfolding collect
collect-round rounds total c output line rest name read kept fits =
    let less : leb max_file_list_length (length name + total) ≡ false = ground (arith, fits) in
    rw (collect, read, kept, less) refl

collect-line :
    (rounds total : ℕ) (name rest : List ℕ)
    → IsShort name
    → length name + total < max_file_list_length
    → collect (suc rounds) (name ++ b'\n' ∷ rest) total ≡ (
      name ∷ (collect rounds rest (total + (length name + 1))).0,
      (collect rounds rest (total + (length name + 1))).1,
    )
collect-line rounds total [] rest (p, short) fits =
    collect-round rounds total b'\n' rest (b'\n' ∷ []) rest [] (fgets-line 19 [] rest p short)
      (printable-line [] [] p) fits
collect-line rounds total (c ∷ name) rest (p, short) fits =
    collect-round rounds total c (name ++ b'\n' ∷ rest) (c ∷ name ++ b'\n' ∷ []) rest (c ∷ name)
      (fgets-line 19 (c ∷ name) rest p short) (printable-line (c ∷ name) [] p) fits

collect-lines :
    (rounds total : ℕ) (names : List (List ℕ))
    → All IsShort names
    → total + name_bytes names ≤ max_file_list_length
    → length (lines names) ≤ rounds
    → collect rounds (lines names) total ≡ (names, total + name_bytes names)
unfolding collect
collect-lines zero total [] all fits enough = ap (λ n. ([], n)) (omega arith)
collect-lines (suc rounds) total [] all fits enough = ap (λ n. ([], n)) (omega arith)
collect-lines zero total (name ∷ names) all fits enough =
    absurd (omega (arith, enough, length-append name (b'\n' ∷ lines names)))
collect-lines (suc rounds) total (name ∷ names) (short, all) fits enough =
    rw
      (
        collect-line rounds total name (lines names) short (omega (arith, fits)),
        collect-lines rounds (total + (length name + 1)) names all (omega (arith, fits))
            (omega (arith, enough, length-append name (b'\n' ∷ lines names))),
      )
      (ap (λ n. (name ∷ names, n)) (omega arith))

-- A program prints names, each on a line of its own, of printable ASCII characters and shorter than 19
-- bytes, and with terminators they are not longer than the buffer. Then the server takes exactly these
-- names, in order, and the sum of their lengths, within the rounds that the model gives the loop.
pub hook_files-lines :
    (names : List (List ℕ))
    → All IsShort names
    → name_bytes names ≤ max_file_list_length
    → hook_files (lines names) ≡ (names, name_bytes names)
unfolding hook_files
hook_files-lines names all fits =
    collect-lines (length (lines names)) 0 names all (omega (arith, fits)) (omega arith)
    ∙ ap (λ n. (names, n)) (omega arith)

IsPrintable-parts :
    (n : ℕ) (xs : List ℕ)
    → All IsPrintable xs
    → All IsPrintable (take n xs) × All IsPrintable (drop n xs)
IsPrintable-parts zero xs p = (tt, p)
IsPrintable-parts (suc n) [] p = (tt, tt)
IsPrintable-parts (suc n) (x ∷ xs) (c, p) =
    let (start, end) = IsPrintable-parts n xs p in ((c, start), end)

-- A file whose name, of printable ASCII characters, has 19 to 37 bytes becomes two: its first 19 bytes,
-- and the rest of it, which is empty for a name of 19.
pub hook_files-long :
    (name : List ℕ)
    → All IsPrintable name
    → 19 ≤ length name
    → length name < 38
    → hook_files (name ++ b'\n' ∷ []) ≡ (take 19 name ∷ drop 19 name ∷ [], length name + 2)
unfolding hook_files
hook_files-long [] p long short = absurd (omega arith)
hook_files-long (c ∷ name) p long short =
    let (start, end) = IsPrintable-parts 19 (c ∷ name) p in
    let front = take 19 (c ∷ name) in
    let back = drop 19 (c ∷ name) in
    let rounds = length (name ++ b'\n' ∷ []) in
    let front_length : length front ≡ 19 = omega (arith, length-take 19 (c ∷ name), long) in
    let back_length : length back ≡ length (c ∷ name) - 19 = length-drop 19 (c ∷ name) in
    let first =
      collect-round rounds 0 c (name ++ b'\n' ∷ []) front (back ++ b'\n' ∷ []) front
        (fgets-long 19 (c ∷ name) (b'\n' ∷ []) p long) (printable-all front start)
        (omega (arith, front_length)) in
    let second =
      collect-lines rounds (0 + (length front + 1)) (back ∷ [])
        ((end, omega (arith, back_length, short)), tt)
        (omega (arith, front_length, back_length, short))
        (omega (
          arith,
          length-append back (b'\n' ∷ []),
          length-append name (b'\n' ∷ []),
          back_length,
          long,
        )) in
    let total : 0 + (length front + 1) + (length back + 1 + 0) ≡ length (c ∷ name) + 2 =
      omega (arith, front_length, back_length, long) in
    rw (hook_files, first, second) (ap (λ n. (front ∷ back ∷ [], n)) total)
