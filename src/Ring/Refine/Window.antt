-- ===== src/Ring/Refine/Window.antt =====
-- The live part of the ring, from the base on and round the end of the buffer.
use tsunami_udp.Prelude.{
  ℕ, zero, suc, ◌+◌, ◌-◌, ◌%◌, ◌<◌, ◌≡◌, ◌≢◌, refl, ap, ap₂, ◌∙◌, [], ◌∷◌, ◌++◌, arith, length,
  ◌==◌, if◌then◌else◌, ne→==_false,
}
use tsunami_udp.Ring.{Ring, max_blocks_queued, list_from, dump}

module _ {ℓ} {A : Type ℓ} where
  list_from-mod :
      (slots : ℕ → A) (i j n : ℕ)
      → i % max_blocks_queued ≡ j % max_blocks_queued
      → list_from slots i n ≡ list_from slots j n
  unfolding list_from
  list_from-mod slots i j zero h = refl
  list_from-mod slots i j (suc n) h =
      ap₂ ◌∷◌ (ap slots h) (list_from-mod slots (i + 1) (j + 1) n (omega arith))

  list_from-snoc :
      (slots : ℕ → A) (i n : ℕ)
      → list_from slots i (suc n) ≡ list_from slots i n ++ slots ((i + n) % max_blocks_queued) ∷ []
  unfolding list_from
  list_from-snoc slots i zero = ap (λ k. slots k ∷ []) (omega arith)
  list_from-snoc slots i (suc n) =
      ap (λ t. slots (i % max_blocks_queued) ∷ t)
        (rw (list_from-snoc slots (i + 1) n)
          (ap (λ k. list_from slots (i + 1) n ++ slots k ∷ []) (omega arith)))

  -- A write to a slot that the window does not reach.
  list_from-store :
      (slots : ℕ → A) (d : A) (i n s k : ℕ)
      → s ≡ (i + n + k) % max_blocks_queued
      → n + k < max_blocks_queued
      → list_from (λ j. if j == s then d else slots j) i n ≡ list_from slots i n
  unfolding list_from
  list_from-store slots d i zero s k e h = refl
  list_from-store slots d i (suc n) s k e h =
      ap₂ ◌∷◌ (rw (ne→==_false (i % max_blocks_queued) s (omega arith)))
        (list_from-store slots d (i + 1) n s k (omega arith) (omega arith))

  length-list_from : (slots : ℕ → A) (i n : ℕ) → length (list_from slots i n) ≡ n
  unfolding list_from
  length-list_from slots i zero = refl
  length-list_from slots i (suc n) = ap suc (length-list_from slots (i + 1) n)

  pub length-dump : (r : Ring A) → length (dump r) ≡ r.count_data
  unfolding dump
  length-dump r = length-list_from r.datagrams r.base_data r.count_data

  -- At a number of datagrams that is not 0 the window starts with the base slot, and goes on as the
  -- window of the popped ring.
  pub list_from_pop :
      (slots : ℕ → A) (b n : ℕ)
      → b < max_blocks_queued
      → n ≢ 0
      → list_from slots b n ≡ slots b ∷ list_from slots ((b + 1) % max_blocks_queued) (n - 1)
  unfolding list_from
  list_from_pop slots b zero lt ne = absurd (ne refl)
  list_from_pop slots b (suc n) lt ne = ap₂ ◌∷◌ (ap slots (omega arith)) (
      list_from-mod slots (b + 1) ((b + 1) % max_blocks_queued) n (omega arith)
      ∙ ap (list_from slots ((b + 1) % max_blocks_queued)) (omega arith))

  pub list_from_push :
      (slots : ℕ → A) (b n : ℕ)
      → list_from slots b (n + 1) ≡ list_from slots b n ++ slots ((b + n) % max_blocks_queued) ∷ []
  list_from_push slots b n = let e : n + 1 ≡ suc n = omega arith in rw e (list_from-snoc slots b n)

  pub list_from_store_next :
      (slots : ℕ → A) (d : A) (b n s : ℕ)
      → n < max_blocks_queued
      → s ≡ (b + n) % max_blocks_queued
      → list_from (λ j. if j == s then d else slots j) b n ≡ list_from slots b n
  list_from_store_next slots d b n s h e =
      list_from-store slots d b n s 0 (omega arith) (omega arith)
