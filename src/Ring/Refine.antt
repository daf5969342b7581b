-- ===== src/Ring/Refine.antt =====
-- A valid ring behaves as the bounded queue of the datagrams that it holds.
pub mod Window
use Window.{list_from_pop, list_from_push, list_from_store_next, length-dump}
use tsunami_udp.Prelude.{
  ℕ, ◌+◌, ◌%◌, ◌≡◌, refl, ap, Option, none, some, List, [], ◌∷◌, ◌==◌, if◌then◌else◌, arith,
}
use tsunami_udp.Ring.{
  Ring, Outcome, done, waits, null, exits, negative, max_blocks_queued, cancel, confirm, peek, pop,
  reserve, store, list_from, dump, calls_succeed,
}
use tsunami_udp.Ring.Inv.{IsValid}
use tsunami_udp.Ring.Queue
use tsunami_udp.Ring.Queue.{Queue, Call, fill, confirms, cancels, peeks, pops, reply}

module _ {A : Type 0} where
  -- The slot that is reserved, if one is.
  abbrev pub reserved_slot : Ring A → ℕ
  reserved_slot r = (r.base_data + r.count_data) % max_blocks_queued

  abbrev pub pending_of : Ring A → Option A
  pending_of r = if r.count_reserved == 0 then none else some (r.datagrams (reserved_slot r))

  abbrev pub queue_of : Ring A → Queue A
  queue_of r = record { items = dump r; pending = pending_of r }

  -- A call on the ring, with what the caller gets to see.
  fill_ring : Ring A → A → Outcome (Option A) (Ring A)
  fill_ring r d = elim (reserve calls_succeed r) [
    | done slot r' ↦ done none (store slot d r')
    | waits ↦ waits
    | null ↦ null
    | exits ↦ exits
    | negative ↦ negative
  ]

  abbrev quiet : Outcome ℕ (Ring A) → Outcome (Option A) (Ring A)
  quiet (done n r) = done none r
  quiet waits = waits
  quiet null = null
  quiet exits = exits
  quiet negative = negative

  abbrev look : Ring A → Outcome ℕ (Ring A) → Outcome (Option A) (Ring A)
  look r (done slot r') = done (some (r.datagrams slot)) r'
  look r waits = waits
  look r null = null
  look r exits = exits
  look r negative = negative

  pub step : Ring A → Call A → Outcome (Option A) (Ring A)
  unfolding fill_ring
  step r (fill d) = fill_ring r d
  step r confirms = quiet (confirm calls_succeed r)
  step r cancels = quiet (cancel calls_succeed r)
  step r peeks = look r (peek calls_succeed r)
  step r pops = quiet (pop calls_succeed r)

  abbrev pub seen : Outcome (Option A) (Ring A) → Outcome (Option A) (Queue A)
  seen (done o r) = done o (queue_of r)
  seen waits = waits
  seen null = null
  seen exits = exits
  seen negative = negative

  module _ {r : Ring A} (v : IsValid r) where
    fill_refines : (d : A) → seen (step r (fill d)) ≡ Queue.step (queue_of r) (fill d)
    unfolding step Queue.step reserve store dump
    fill_refines d = ground (
      arith,
      length-dump r,
      list_from_store_next r.datagrams d r.base_data r.count_data (reserved_slot r),
    )

    confirms_refines : seen (step r confirms) ≡ Queue.step (queue_of r) confirms
    unfolding step Queue.step confirm dump
    confirms_refines = ground (arith, list_from_push r.datagrams r.base_data r.count_data)

    cancels_refines : seen (step r cancels) ≡ Queue.step (queue_of r) cancels
    unfolding step Queue.step cancel dump
    cancels_refines = ground arith

    peeks_refines : seen (step r peeks) ≡ Queue.step (queue_of r) peeks
    unfolding step Queue.step peek dump list_from
    peeks_refines = ground (arith, list_from_pop r.datagrams r.base_data r.count_data)

    pops_refines : seen (step r pops) ≡ Queue.step (queue_of r) pops
    unfolding step Queue.step pop dump list_from
    pops_refines = ground (arith, list_from_pop r.datagrams r.base_data r.count_data)

    -- Every call on a valid ring ends as the call on its queue does, and leaves a ring that holds the
    -- queue which that call leaves.
    pub step_refines : (c : Call A) → seen (step r c) ≡ Queue.step (queue_of r) c
    step_refines (fill d) = fill_refines d
    step_refines confirms = confirms_refines
    step_refines cancels = cancels_refines
    step_refines peeks = peeks_refines
    step_refines pops = pops_refines

    step-IsValid : (c : Call A) {o : Option A} {r' : Ring A} → step r c ≡ done o r' → IsValid r'
    unfolding step reserve confirm cancel peek pop store
    step-IsValid (fill d) e = ground arith
    step-IsValid confirms e = ground arith
    step-IsValid cancels e = ground arith
    step-IsValid peeks e = ground arith
    step-IsValid pops e = ground arith

  -- The replies to a sequence of calls of the two threads.
  pub run : Ring A → List (Call A) → List (Outcome (Option A) (Unit {0}))
  run r [] = []
  run r (c ∷ cs) = let same = run r cs in reply (step r c) (λ r'. run r' cs) same

  reply-seen :
      (o : Outcome (Option A) (Ring A)) (f : Ring A → List (Outcome (Option A) (Unit {0})))
      (g : Queue A → List (Outcome (Option A) (Unit {0})))
      {same same' : List (Outcome (Option A) (Unit {0}))}
      → same ≡ same'
      → ((a : Option A) (r : Ring A) → o ≡ done a r → f r ≡ g (queue_of r))
      → reply o f same ≡ reply (seen o) g same'
  reply-seen (done a r) f g e h = ap (λ t. done a tt ∷ t) (h a r refl)
  reply-seen waits f g e h = ap (λ t. waits ∷ t) e
  reply-seen null f g e h = ap (λ t. null ∷ t) e
  reply-seen exits f g e h = refl
  reply-seen negative f g e h = refl

  -- No sequence of calls tells a valid ring from the bounded queue of the datagrams that it holds.
  pub run_refines :
      (cs : List (Call A)) {r : Ring A} → IsValid r → run r cs ≡ Queue.run (queue_of r) cs
  unfolding run Queue.run
  run_refines [] v = refl
  run_refines (c ∷ cs) {r} v = rw (← step_refines v c) (
      reply-seen (step r c) (λ r'. run r' cs) (λ q. Queue.run q cs) (run_refines cs v)
        (λ a r' e. run_refines cs (step-IsValid v c e)))
