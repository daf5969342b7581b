-- ===== src/Bitmap/Laws.antt =====
-- The bitfield holds a set of block numbers: marking one adds it and no other.
use Prim.Native.Nat.{bit_and, bit_and-bitwise}
use tsunami_udp.Prelude.{
  ℕ, zero, suc, ◌+◌, ◌/◌, ◌%◌, ◌^◌, ◌≤◌, ◌<◌, ◌≡◌, refl, Bool, true, false, not, ◌&&◌, ◌||◌, ◌==◌,
  get_or, length, length-set, length-replicate, get_or-set_self, get_or-set_ne, get_or-replicate,
  le→ltb_false, arith, ◌∙◌, ℕ_discrete,
}
use tsunami_udp.Bitmap.{Received, no_blocks, test_bit, got_block, set_bit, mark}

-- What holds of the bitfield of a transfer of `block_count` blocks.
pub record IsBitmap (block_count : ℕ) (r : Received) : Type 0 where
  pub size : length r ≡ block_count / 8 + 2
  pub bytes : (i : ℕ) → get_or r i 0 < 256

-- Every access of the bitfield for a block of the file is in bounds.
pub index-lt :
    (block_count n : ℕ) (r : Received) → IsBitmap block_count r → n ≤ block_count → n / 8 < length r
index-lt block_count n r v h = omega (arith, v.size)

-- A test on all numbers below a bound, from the bound down.
tests : (ℕ → Bool) → ℕ → Bool
tests p zero = true
tests p (suc bound) = tests p bound && p bound

tests-at : (p : ℕ → Bool) (bound : ℕ) → tests p bound ≡ true → (i : ℕ) → i < bound → p i ≡ true
unfolding tests
tests-at p zero passed i below = absurd (omega arith)
tests-at p (suc bound) passed i below = elim (ℕ_discrete i bound) [
  | yes last ↦ rw last (ground (arith, passed))
  | no other ↦ tests-at p bound (ground (arith, passed)) i (omega (arith, below))
]

abbrev same : Bool → Bool → Bool
same true b = b
same false b = not b

same→eq : (a b : Bool) → same a b ≡ true → a ≡ b
same→eq true b h = ground arith
same→eq false b h = ground arith

abbrev bit_row : ℕ → ℕ → ℕ → Bool
bit_row b k j = same (test_bit (set_bit b k) j) (k == j || test_bit b j)

abbrev bit_rows : ℕ → ℕ → Bool
bit_rows b k = tests (bit_row b k) 8

abbrev bit_pages : ℕ → Bool
bit_pages b = tests (bit_rows b) 8

-- Over a byte, all cases are checked.
bit_table : tests bit_pages 256 ≡ true
unfolding tests test_bit set_bit
bit_table = refl

test_bit-set_bit :
    (b k j : ℕ) → b < 256 → k < 8 → j < 8 → test_bit (set_bit b k) j ≡ (k == j || test_bit b j)
test_bit-set_bit b k j hb hk hj =
    let page = tests-at bit_pages 256 bit_table b hb in
    let rows = tests-at (bit_rows b) 8 page k hk in same→eq _ _ (tests-at (bit_row b k) 8 rows j hj)

test_bit-zero : (k : ℕ) → test_bit 0 k ≡ false
unfolding test_bit
test_bit-zero k = let e : bit_and 0 (2 ^ k) ≡ 0 = bit_and-bitwise 0 (2 ^ k) in rw e

pub no_blocks-IsBitmap : (block_count : ℕ) → IsBitmap block_count (no_blocks block_count)
unfolding no_blocks
no_blocks-IsBitmap n = record {
  size = length-replicate (n / 8 + 2) 0;
  bytes = λ i. rw (get_or-replicate {A = ℕ} (n / 8 + 2) 0 i) (omega arith);
}

pub got_block-no_blocks :
    (block_count n : ℕ) → n ≤ block_count → got_block block_count (no_blocks block_count) n ≡ false
unfolding no_blocks got_block
got_block-no_blocks block_count n h =
    rw (le→ltb_false block_count n h, get_or-replicate {A = ℕ} (block_count / 8 + 2) 0 (n / 8))
      (test_bit-zero (n % 8))

module _ (block_count n : ℕ) (r : Received) (v : IsBitmap block_count r) (h : n ≤ block_count) where
  pub mark-IsBitmap : IsBitmap block_count (mark r n)
  unfolding mark set_bit
  mark-IsBitmap = record {
    size = length-set r (n / 8) _ ∙ v.size;
    bytes = λ i. elim (ℕ_discrete (n / 8) i) [
      | yes e ↦ rw (← e, get_or-set_self r (n / 8) _ 0 (index-lt block_count n r v h)) (omega arith)
      | no ne ↦ rw (get_or-set_ne r (n / 8) i _ 0 ne) (v.bytes i)
    ];
  }

  -- Marking a block of the file makes it received, and changes nothing for another block.
  pub got_block-mark :
      (m : ℕ) → got_block block_count (mark r n) m ≡ (n == m || got_block block_count r m)
  unfolding got_block mark
  got_block-mark m = elim (ℕ_discrete (n / 8) (m / 8)) [
    | yes e ↦ ground (
      arith,
      get_or-set_self r (n / 8) (set_bit (get_or r (n / 8) 0) (n % 8)) 0
          (index-lt block_count n r v h),
      test_bit-set_bit (get_or r (n / 8) 0) (n % 8) (m % 8) (v.bytes (n / 8)),
    )
    | no ne ↦
        ground (arith, get_or-set_ne r (n / 8) (m / 8) (set_bit (get_or r (n / 8) 0) (n % 8)) 0 ne)
  ]
