-- ===== src/Bitmap/Count.antt =====
-- The two loops over the bitfield: the gapless prefix and the final count of lost blocks.
use tsunami_udp.Prelude.{
  ℕ, zero, suc, ◌+◌, ◌≤◌, ◌<◌, ◌≡◌, inl, inr, refl, Bool, true, false, ltb, ◌==◌, ◌||◌, ◌&&◌, sym,
  if◌then◌else◌, arith, Bool-cases, ap, ◌∙◌, ℕ_discrete,
}
use tsunami_udp.Bitmap.{
  Received, got_block, mark, lost_from, total_lost, advance_from, advance, no_blocks,
}
use tsunami_udp.Bitmap.Laws.{IsBitmap, got_block-mark, got_block-no_blocks}

-- How many of the blocks 1 to `n` are not received.
pub missing : ℕ → (ℕ → Bool) → ℕ
missing zero got = 0
missing (suc n) got = missing n got + (if got (suc n) then 0 else 1)

missing_ext : (n : ℕ) (f g : ℕ → Bool) → ((i : ℕ) → i ≤ n → f i ≡ g i) → missing n f ≡ missing n g
unfolding missing
missing_ext zero f g h = refl
missing_ext (suc n) f g h = ground (arith, missing_ext n f g (λ i p. h i (omega arith)), h (suc n))

-- One more block of the range that was missing.
missing-insert :
    (n k : ℕ) (f : ℕ → Bool)
    → 1 ≤ k
    → k ≤ n
    → f k ≡ false
    → missing n f ≡ missing n (λ i. k == i || f i) + 1
unfolding missing
missing-insert zero k f lo hi e = absurd (omega arith)
missing-insert (suc n) k f lo hi e = elim (Bool-cases (k == suc n)) [
  | inl at ↦ ground (arith, missing_ext n f (λ i. k == i || f i) (λ i p. ground arith))
  | inr below ↦ ground (arith, missing-insert n k f lo)
]

pub missing_zero : (n : ℕ) (f : ℕ → Bool) → missing n f ≡ 0 → (k : ℕ) → 1 ≤ k → k ≤ n → f k ≡ true
unfolding missing
missing_zero zero f e k lo hi = absurd (omega arith)
missing_zero (suc n) f e k lo hi = elim (ℕ_discrete k (suc n)) [
  | yes at ↦ rw at (ground arith)
  | no ne ↦ missing_zero n f (ground arith) k lo (omega arith)
]

pub missing-all : (n : ℕ) (f : ℕ → Bool) → ((k : ℕ) → 1 ≤ k → k ≤ n → f k ≡ true) → missing n f ≡ 0
unfolding missing
missing-all zero f h = refl
missing-all (suc n) f h =
    ground (arith, missing-all n f (λ k lo hi. h k lo (omega arith)), h (suc n))

missing_none : (n : ℕ) (f : ℕ → Bool) → ((k : ℕ) → k ≤ n → f k ≡ false) → missing n f ≡ n
unfolding missing
missing_none zero f h = refl
missing_none (suc n) f h = ground (arith, missing_none n f (λ k hi. h k (omega arith)), h (suc n))

lost_from-missing :
    (rounds m j : ℕ) (got : ℕ → Bool) (lost : ℕ)
    → m + rounds ≡ j
    → lost_from rounds got (m + 1) lost + missing m got ≡ lost + missing j got
unfolding lost_from
lost_from-missing zero m j got lost e = let e' : m ≡ j = omega arith in rw e' (omega arith)
lost_from-missing (suc rounds) m j got lost e =
    let ih =
      lost_from-missing rounds (m + 1) j got (if got (m + 1) then lost else lost + 1)
        (omega arith) in
    let one : missing (m + 1) got ≡ missing m got + (if got (m + 1) then 0 else 1) =
      (let e' : m + 1 ≡ suc m = omega arith in rw e' (unfold missing in refl)) in
    ground (arith, ih, one)

-- The loop that counts the lost blocks counts the missing ones.
pub total_lost-eq-missing :
    (block_count : ℕ) (r : Received)
    → total_lost block_count r ≡ missing block_count (got_block block_count r)
unfolding total_lost missing
total_lost-eq-missing n r = omega (arith, lost_from-missing n 0 n (got_block n r) 0 (omega arith))

module _ (block_count : ℕ) where
  pub missing-no_blocks :
      missing block_count (got_block block_count (no_blocks block_count)) ≡ block_count
  missing-no_blocks = missing_none block_count _ (λ k h. got_block-no_blocks block_count k h)

  -- Marking a missing block of the file leaves one block less to receive.
  pub missing-mark :
      (n : ℕ) (r : Received)
      → IsBitmap block_count r
      → 1 ≤ n
      → n ≤ block_count
      → got_block block_count r n ≡ false
      → missing block_count (got_block block_count r)
        ≡ missing block_count (got_block block_count (mark r n)) + 1
  missing-mark n r v lo hi e =
      missing-insert block_count n (got_block block_count r) lo hi e
      ∙ ap (λ t. t + 1)
          (missing_ext block_count _ _ (λ i h. sym (got_block-mark block_count n r v hi i)))

-- All blocks up to `gapless` are there.
pub record IsGapless (block_count : ℕ) (got : ℕ → Bool) (gapless : ℕ) : Type 0 where
  pub within : gapless ≤ block_count
  pub full : (k : ℕ) → 1 ≤ k → k ≤ gapless → got k ≡ true

advance_from-IsGapless :
    (fuel block_count : ℕ) (got : ℕ → Bool) (g : ℕ)
    → IsGapless block_count got g
    → IsGapless block_count got (advance_from fuel block_count got g)
unfolding advance_from
advance_from-IsGapless zero n got g v = v
advance_from-IsGapless (suc fuel) n got g v = elim (Bool-cases (got (g + 1))) [
  | inl here ↦ elim (Bool-cases (ltb g n)) [
    | inl below ↦
        rw (here, below)
          (advance_from-IsGapless fuel n got (g + 1) (record {
            within = ground arith;
            full = λ k lo hi. elim (ℕ_discrete k (g + 1)) [
              | yes at ↦ rw at here
              | no ne ↦ v.full k lo (omega arith)
            ];
          }))
    | inr at_end ↦ rw (here, at_end) v
  ]
  | inr gap ↦ rw gap v
]

advance_from-stops :
    (fuel block_count : ℕ) (got : ℕ → Bool) (g : ℕ)
    → g ≤ block_count
    → block_count < g + fuel
    → let g' = advance_from fuel block_count got g in (got (g' + 1) && ltb g' block_count) ≡ false
unfolding advance_from
advance_from-stops zero n got g le h = absurd (omega arith)
advance_from-stops (suc fuel) n got g le h = ground (arith, advance_from-stops fuel n got (g + 1))

advance_from-le :
    (fuel block_count : ℕ) (got : ℕ → Bool) (g : ℕ) → g ≤ advance_from fuel block_count got g
unfolding advance_from
advance_from-le zero n got g = omega arith
advance_from-le (suc fuel) n got g = ground (arith, advance_from-le fuel n got (g + 1))

-- The advance of the gapless index moves it over received blocks only, never back, and stops by its
-- own test: at the end of the file or before a missing block.
pub advance-IsGapless :
    (block_count : ℕ) (r : Received) (g : ℕ)
    → IsGapless block_count (got_block block_count r) g
    → let g' = advance block_count r g in
      IsGapless block_count (got_block block_count r) g'
      × (g ≤ g')
      × ((got_block block_count r (g' + 1) && ltb g' block_count) ≡ false)
unfolding advance
advance-IsGapless n r g v = (
  advance_from-IsGapless (suc n) n (got_block n r) g v,
  advance_from-le (suc n) n (got_block n r) g,
  advance_from-stops (suc n) n (got_block n r) g v.within (omega arith),
)
