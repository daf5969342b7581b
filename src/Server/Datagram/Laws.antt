-- ===== src/Server/Datagram/Laws.antt =====
-- What build_datagram puts into a datagram.
use tsunami_udp.Prelude.{
  ℕ, zero, suc, ◌+◌, ◌-◌, ◌*◌, ◌≤◌, ◌<◌, ◌^◌, ◌≡◌, refl, ap, ◌∙◌, sym, List, [], ◌∷◌, ◌++◌, ◌==◌,
  arith, length, take, drop, length-take, length-drop, length-append, Bool-cases, inl, inr,
}
use tsunami_udp.Prelude.Words.{add32, sub32}
use tsunami_udp.Protocol.{Datagram}
use tsunami_udp.Server.Datagram.{Reader, seek, read, move_to, build_datagram}

drop-nil : (n : ℕ) → drop {A = ℕ} n [] ≡ []
drop-nil zero = refl
drop-nil (suc n) = refl

drop-drop : (m n : ℕ) (xs : List ℕ) → drop m (drop n xs) ≡ drop (n + m) xs
drop-drop m zero xs = ap (λ k. drop k xs) (omega arith)
drop-drop m (suc n) [] = drop-nil m ∙ sym (drop-nil (suc n + m))
drop-drop m (suc n) (x ∷ xs) =
    drop-drop m n xs ∙ ap (λ k. drop k (x ∷ xs)) {x = suc (n + m)} {y = suc n + m} (omega arith)

drop-all : (n : ℕ) (xs : List ℕ) → length xs ≤ n → drop n xs ≡ []
drop-all zero [] h = refl
drop-all zero (x ∷ xs) h = absurd (omega arith)
drop-all (suc n) [] h = refl
drop-all (suc n) (x ∷ xs) h = drop-all n xs (omega arith)

-- What is left after a read of `size`, at the end of the list or not.
drop-read : (size : ℕ) (xs : List ℕ) → drop (length (take size xs)) xs ≡ drop size xs
drop-read zero xs = refl
drop-read (suc size) [] = refl
drop-read (suc size) (x ∷ xs) = drop-read size xs

pub times_pred : (b k : ℕ) → 1 ≤ k → b * (k - 1) + b ≡ b * k
times_pred b k lo = let e : k ≡ k - 1 + 1 = omega arith in times (k - 1) ∙ ap (λ j. b * j) (sym e)
  where
    times : (j : ℕ) → b * j + b ≡ b * (j + 1)
    times j = grind arith

-- Block `k` of a file; the last one may be shorter.
unfoldable pub block_of : ℕ → List ℕ → ℕ → List ℕ
block_of block_size content k = take block_size (drop (block_size * (k - 1)) content)

-- The position is where `last_block` says, or both are past the end of the file.
pub record IsInStep (block_size : ℕ) (f : Reader) : Type 0 where
  pub at : drop f.position f.content ≡ drop (block_size * f.last_block) f.content
  pub room : length f.buffer ≡ block_size
  pub word : f.last_block < 2 ^ 32

-- A datagram with block `k`: the bytes of the block, then what the buffer held.
abbrev pub datagram_of : ℕ → ℕ → ℕ → Reader → Datagram
datagram_of block_size k type f = record {
  block = k;
  type = type;
  payload =
      block_of block_size f.content k ++ drop (length (block_of block_size f.content k)) f.buffer;
}

module _ (block_size k type : ℕ) (f : Reader) (lo : 1 ≤ k) (hi : k < 2 ^ 32) where
  -- After the move the rest of the file starts with the block.
  Moved : Reader → Type 0
  Moved g =
      (drop g.position g.content ≡ drop (block_size * (k - 1)) f.content)
      × (g.content ≡ f.content)
      × (g.buffer ≡ f.buffer)

  move_to-Moved : IsInStep block_size f → Moved (move_to block_size k f)
  unfolding move_to seek Moved
  move_to-Moved v = elim (Bool-cases (k == add32 f.last_block 1)) [
    | inl next ↦
        let e : k - 1 ≡ f.last_block = ground (arith, v.word) in rw (next, e) (v.at, refl, refl)
    | inr jump ↦ let e : sub32 k 1 ≡ k - 1 = omega arith in rw (jump, e) (refl, refl, refl)
  ]

  -- A file that was just opened, whatever block of another file was read last.
  opened-Moved : k ≡ 1 → f.position ≡ 0 → f.last_block < 2 ^ 32 → Moved (move_to block_size k f)
  unfolding move_to seek Moved
  opened-Moved one start word = elim (Bool-cases (k == add32 f.last_block 1)) [
    | inl next ↦
        let e : block_size * (k - 1) ≡ f.position =
          ap (λ j. block_size * (j - 1)) one ∙ grind arith ∙ sym start in
        rw (next, e) (refl, refl, refl)
    | inr jump ↦ let e : sub32 k 1 ≡ k - 1 = omega arith in rw (jump, e) (refl, refl, refl)
  ]

  -- The result of build_datagram, and the state that it leaves.
  pub record IsBuilt (r : Datagram × Reader) : Type 0 where
    pub datagram : r.0 ≡ datagram_of block_size k type f
    pub same_content : r.1.content ≡ f.content
    pub step : IsInStep block_size r.1

  read-IsBuilt :
      (g : Reader)
      → Moved g
      → length f.buffer ≡ block_size
      → IsBuilt (
        record { block = k; type = type; payload = (read block_size g).buffer },
        record (read block_size g) { last_block = k },
      )
  unfolding read Moved block_of
  read-IsBuilt g (at, content, buffer) room = record {
    datagram = rw (at, buffer) refl;
    same_content = content;
    step = record {
      at =
          sym
            (drop-drop (length (take block_size (drop g.position g.content))) g.position g.content)
          ∙ drop-read block_size (drop g.position g.content)
          ∙ ap (drop block_size) at
          ∙ drop-drop block_size (block_size * (k - 1)) f.content
          ∙ ap (λ m. drop m f.content) (times_pred block_size k lo)
          ∙ ap (drop (block_size * k)) (sym content);
      room =
          let part = take block_size (drop g.position g.content) in
          let short : length part ≤ block_size =
            omega (arith, length-take block_size (drop g.position g.content)) in
          let filled = length-append part (drop (length part) g.buffer) in
          let rest = length-drop (length part) g.buffer in
          let wide : length g.buffer ≡ block_size = ap length buffer ∙ room in
          omega (arith, filled, rest, wide, short);
      word = hi;
    };
  }

  -- With the file position in step, build_datagram gives the requested block of the file, whether it
  -- seeks or not, and leaves the position in step.
  pub build_datagram-IsBuilt : IsInStep block_size f → IsBuilt (build_datagram block_size k type f)
  unfolding build_datagram
  build_datagram-IsBuilt v = read-IsBuilt (move_to block_size k f) (move_to-Moved v) v.room

  -- On a file that was just opened a read of block 1 gives block 1, whatever block of an earlier
  -- file was read last, and leaves the position in step.
  pub build_datagram-first :
      k ≡ 1
      → f.position ≡ 0
      → f.last_block < 2 ^ 32
      → length f.buffer ≡ block_size
      → IsBuilt (build_datagram block_size k type f)
  unfolding build_datagram
  build_datagram-first one start word room =
      read-IsBuilt (move_to block_size k f) (opened-Moved one start word) room
