-- ===== src/Ring/Queue.antt =====
-- What the ring promises: a first-in first-out queue of at most `max_blocks_queued` datagrams, and
-- room for one more that is being filled.
use tsunami_udp.Prelude.{
  ℕ, Option, none, some, List, [], ◌∷◌, ◌++◌, ◌==◌, length, if◌then◌else◌, ◌+◌,
}
use tsunami_udp.Ring.{Outcome, done, waits, null, exits, negative, max_blocks_queued}

pub record Queue {ℓ} (A : Type ℓ) : Type ℓ where
  pub items : List A
  pub pending : Option A

-- The calls of the two threads. `fill d` reserves a slot and copies `d` into it.
pub data Call {ℓ} (A : Type ℓ) : Type ℓ where
  fill : A → Call A
  confirms : Call A
  cancels : Call A
  peeks : Call A
  pops : Call A

module _ {ℓ} {A : Type ℓ} where
  abbrev pub pending_count : Option A → ℕ
  pending_count none = 0
  pending_count (some d) = 1

  fill_from : Queue A → A → Option A → Outcome (Option A) (Queue A)
  fill_from q d none = done none (record q { pending = some d })
  fill_from q d (some _) = exits

  confirm_from : Queue A → Option A → Outcome (Option A) (Queue A)
  confirm_from q none = exits
  confirm_from q (some d) = done none (record { items = q.items ++ d ∷ []; pending = none })

  cancel_from : Queue A → Option A → Outcome (Option A) (Queue A)
  cancel_from q none = exits
  cancel_from q (some d) = done none (record q { pending = none })

  peek_from : Queue A → List A → Outcome (Option A) (Queue A)
  peek_from q [] = waits
  peek_from q (x ∷ xs) = done (some x) q

  pop_from : Queue A → List A → Outcome (Option A) (Queue A)
  pop_from q [] = waits
  pop_from q (x ∷ xs) = done none (record q { items = xs })

  unfoldable pub step : Queue A → Call A → Outcome (Option A) (Queue A)
  unfolding fill_from confirm_from cancel_from peek_from pop_from
  step q (fill d) =
      if length q.items + pending_count q.pending == max_blocks_queued
      then waits
      else fill_from q d q.pending
  step q confirms = confirm_from q q.pending
  step q cancels = cancel_from q q.pending
  step q peeks = peek_from q q.items
  step q pops = pop_from q q.items

  -- What a caller sees of a call, then of the rest; a call that sleeps changes nothing, and an exit
  -- ends it all.
  abbrev pub reply {κ} :
      {S : Type κ}
      → Outcome (Option A) S
      → (S → List (Outcome (Option A) (Unit {0})))
      → List (Outcome (Option A) (Unit {0}))
      → List (Outcome (Option A) (Unit {0}))
  reply (done o s) after same = done o tt ∷ after s
  reply waits after same = waits ∷ same
  reply null after same = null ∷ same
  reply exits after same = exits ∷ []
  reply negative after same = negative ∷ []

  -- The replies to a sequence of calls.
  unfoldable pub run : Queue A → List (Call A) → List (Outcome (Option A) (Unit {0}))
  run q [] = []
  run q (c ∷ cs) = let same = run q cs in reply (step q c) (λ q'. run q' cs) same
