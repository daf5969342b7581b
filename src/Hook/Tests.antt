-- ===== src/Hook/Tests.antt =====
-- What a concrete program prints.
use tsunami_udp.Prelude.{
  ℕ, ◌+◌, ◌≡◌, List, [], ◌∷◌, ◌++◌, arith, length, take, drop, replicate, All,
}
use tsunami_udp.Hook.{hook_files}
use tsunami_udp.Hook.Laws.{
  lines, name_bytes, IsShort, IsPrintable, hook_files-lines, hook_files-long,
}

abbrev names : List (List ℕ)
names = (b'a' ∷ b'b' ∷ []) ∷ (b'c' ∷ []) ∷ []

names-IsShort : All IsShort names
names-IsShort = ground arith

hook_files-lines_example : hook_files (lines names) ≡ (names, name_bytes names)
hook_files-lines_example = hook_files-lines names names-IsShort (omega arith)

-- 21 letters.
abbrev long_name : List ℕ
long_name = replicate 21 b'x'

long_name-IsPrintable : All IsPrintable long_name
long_name-IsPrintable = ground arith

hook_files-long_example :
    hook_files (long_name ++ b'\n' ∷ [])
    ≡ (take 19 long_name ∷ drop 19 long_name ∷ [], length long_name + 2)
hook_files-long_example =
    hook_files-long long_name long_name-IsPrintable (omega arith) (omega arith)
