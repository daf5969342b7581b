-- ===== src/Client/Requests/Compact.antt =====
-- The in-place purge of the retransmission table computes a filter.
use tsunami_udp.Prelude.{
  ℕ, zero, suc, ◌+◌, ◌-◌, ◌≤◌, ◌<◌, ◌≡◌, refl, ap, ◌∙◌, sym, min, Bool, true, false, List, [], ◌∷◌,
  ◌++◌, ltb, if◌then◌else◌, get_or, set, take, take-nil, take-zero, ltb→lt, length, length-set,
  get_or-set_self, get_or-set_ne, append_assoc, append-nil, arith, Bool-cases, ◌⊎◌, inl, inr,
  take-cons, ℕ_discrete,
}
use tsunami_udp.Client.Transfer.{RetransmitTable, max_retransmission_buffer}
use tsunami_udp.Client.Requests.{wanted, Compacted, keep_entry, compact, compacted}

-- The entries `from` .. `from + n - 1` of a table.
unfoldable pub segment : List ℕ → ℕ → ℕ → List ℕ
segment table from zero = []
segment table from (suc n) = get_or table from 0 ∷ segment table (from + 1) n

-- The entries that are block numbers still missing.
unfoldable pub keep : (ℕ → Bool) → List ℕ → List ℕ
keep got [] = []
keep got (b ∷ bs) = if wanted got b then b ∷ keep got bs else keep got bs

-- A write outside of the segment.
segment-set :
    (table : List ℕ) (i b from n : ℕ)
    → (i < from) ⊎ (from + n ≤ i)
    → segment (set table i b) from n ≡ segment table from n
unfolding segment
segment-set table i b from zero h = refl
segment-set table i b from (suc n) h =
    rw (
      get_or-set_ne table i from b 0 (omega arith),
      segment-set table i b (from + 1) n (omega arith),
    )

segment-snoc :
    (table : List ℕ) (from n j : ℕ)
    → j ≡ from + n
    → segment table from (suc n) ≡ segment table from n ++ get_or table j 0 ∷ []
unfolding segment
segment-snoc table from zero j e = let e' : j ≡ from = omega arith in rw e'
segment-snoc table from (suc n) j e =
    ap (λ t. get_or table from 0 ∷ t) (segment-snoc table (from + 1) n j (omega arith))

pub segment-set_last :
    (table : List ℕ) (b n : ℕ)
    → n < length table
    → segment (set table n b) 0 (n + 1) ≡ segment table 0 n ++ b ∷ []
segment-set_last table b n h =
    let e : n + 1 ≡ suc n = omega arith in
    rw (
      e,
      segment-snoc (set table n b) 0 n n (omega arith),
      segment-set table n b 0 n (omega arith),
      get_or-set_self table n b 0 h,
    )

-- What the loop has done when it stops: it kept the first of the wanted entries, as many as the
-- buffer holds, in order and at the front of the table.
record IsCompacted (got : ℕ → Bool) (entry rounds : ℕ) (c out : Compacted) : Type 0 where
  same_length : length out.table ≡ length c.table
  blocks :
      out.blocks
      ≡ c.blocks
        ++ take (max_retransmission_buffer - c.count) (keep got (segment c.table entry rounds))
  count :
      out.count
      ≡ c.count
        + min
            (max_retransmission_buffer - c.count)
            (length (keep got (segment c.table entry rounds)))
  front : segment c.table 0 c.count ≡ c.blocks → segment out.table 0 out.count ≡ out.blocks
  last : (k : ℕ) → entry + rounds ≡ suc k → get_or out.table k 0 ≡ get_or c.table k 0

module _ (got : ℕ → Bool) (entry rounds : ℕ) (c : Compacted) (le : c.count ≤ entry) where
  abbrev block : ℕ
  block = get_or c.table entry 0

  IsCompacted-keep :
      {out : Compacted}
      → c.count < max_retransmission_buffer
      → entry < length c.table
      → wanted got block ≡ true
      → IsCompacted got (entry + 1) rounds (keep_entry c block) out
      → IsCompacted got entry (suc rounds) c out
  unfolding keep_entry segment keep
  IsCompacted-keep {out} room fits want rest = record {
    same_length = rest.same_length ∙ length-set c.table c.count block;
    blocks =
        ground (arith, rest.blocks, want, moved, tail, append_assoc c.blocks (block ∷ []) more);
    count = ground (arith, rest.count, want, moved);
    front = λ h.
        rest.front
          (segment-set_last c.table block c.count (omega arith) ∙ ap (λ t. t ++ block ∷ []) h);
    last = λ k e. rest.last k (omega arith) ∙ same_last k (omega arith);
  }
    where
      moved :
          segment (set c.table c.count block) (entry + 1) rounds
          ≡ segment c.table (entry + 1) rounds
      moved = segment-set c.table c.count block (entry + 1) rounds (omega arith)

      more : List ℕ
      more =
          take (max_retransmission_buffer - (c.count + 1))
            (keep got (segment c.table (entry + 1) rounds))

      tail :
          take
            (max_retransmission_buffer - c.count)
            (block ∷ keep got (segment c.table (entry + 1) rounds))
          ≡ block ∷ more
      tail =
          take-cons (max_retransmission_buffer - c.count)
            (max_retransmission_buffer - (c.count + 1)) block _ (omega arith)

      same_last : (k : ℕ) → entry ≤ k → get_or (set c.table c.count block) k 0 ≡ get_or c.table k 0
      same_last k h = elim (ℕ_discrete c.count k) [
        | yes at ↦
            let here : entry ≡ k = omega arith in
            rw (← at) (
              get_or-set_self c.table c.count block 0 (omega arith)
              ∙ ap (λ j. get_or c.table j 0) (omega arith))
        | no ne ↦ get_or-set_ne c.table c.count k block 0 ne
      ]

  IsCompacted-drop :
      {out : Compacted}
      → wanted got block ≡ false
      → IsCompacted got (entry + 1) rounds c out
      → IsCompacted got entry (suc rounds) c out
  unfolding segment keep
  IsCompacted-drop drop rest = record {
    same_length = rest.same_length;
    blocks = ground (arith, rest.blocks);
    count = ground (arith, rest.count);
    front = rest.front;
    last = λ k e. rest.last k (omega arith);
  }

  IsCompacted-full : c.count ≡ max_retransmission_buffer → IsCompacted got entry rounds c c
  IsCompacted-full full = record {
    same_length = refl;
    blocks = rw (full, take-zero) (sym (append-nil c.blocks));
    count = omega arith;
    front = λ h. h;
    last = λ k e. refl;
  }

compact-IsCompacted :
    (rounds : ℕ) (got : ℕ → Bool) (entry : ℕ) (c : Compacted)
    → c.count ≤ entry
    → c.count ≤ max_retransmission_buffer
    → entry + rounds ≤ length c.table
    → IsCompacted got entry rounds c (compact rounds got entry c)
unfolding compact
compact-IsCompacted zero got entry c le small fits = record {
  same_length = refl;
  blocks =
      unfold segment keep in
      rw (take-nil {A = ℕ} (max_retransmission_buffer - c.count)) (sym (append-nil c.blocks));
  count = unfold segment keep in omega arith;
  front = λ h. h;
  last = λ k e. refl;
}
compact-IsCompacted (suc rounds) got entry c le small fits =
    elim (Bool-cases (ltb c.count max_retransmission_buffer)) [
      | inr full ↦ rw full (IsCompacted-full got entry (suc rounds) c le (ground arith))
      | inl room ↦ elim (Bool-cases (wanted got (get_or c.table entry 0))) [
        | inl want ↦
            rw (room, want)
              (IsCompacted-keep got entry rounds c le (ltb→lt _ _ room) (omega arith) want (
                compact-IsCompacted rounds got (entry + 1) (keep_entry c (get_or c.table entry 0))
                  (unfold keep_entry in omega arith)
                  (unfold keep_entry in omega (arith, ltb→lt _ _ room))
                  (unfold keep_entry in
                    omega (arith, length-set c.table c.count (get_or c.table entry 0)))))
        | inr drop ↦
            rw (room, drop)
              (IsCompacted-drop got entry rounds c le drop
                (compact-IsCompacted rounds got (entry + 1) c (omega arith) small (omega arith)))
      ]
    ]

length-keep :
    (got : ℕ → Bool) (table : List ℕ) (from n : ℕ) → length (keep got (segment table from n)) ≤ n
unfolding keep segment
length-keep got table from zero = omega arith
length-keep got table from (suc n) = ground (arith, length-keep got table (from + 1) n)

-- The purge of a table: it keeps the first of the wanted entries, as many as the buffer holds, in
-- order and at the front of the table, and leaves the last entry in its place.
pub record IsPurged (got : ℕ → Bool) (r : RetransmitTable) (out : Compacted) : Type 0 where
  pub same_length : length out.table ≡ length r.table
  pub blocks :
      out.blocks ≡ take max_retransmission_buffer (keep got (segment r.table 0 r.index_max))
  pub count :
      out.count ≡ min max_retransmission_buffer (length (keep got (segment r.table 0 r.index_max)))
  pub shrinks : out.count ≤ r.index_max
  pub front : segment out.table 0 out.count ≡ out.blocks
  pub last : get_or out.table (r.index_max - 1) 0 ≡ get_or r.table (r.index_max - 1) 0

pub compacted-IsPurged :
    (got : ℕ → Bool) (r : RetransmitTable)
    → r.index_max ≤ length r.table
    → IsPurged got r (compacted got r)
unfolding compacted
compacted-IsPurged got r fits = record {
  same_length = done.same_length;
  blocks = done.blocks;
  count = omega (arith, done.count);
  shrinks = omega (arith, done.count, length-keep got r.table 0 r.index_max);
  front = done.front (unfold segment in refl);
  last = last_of (r.index_max) refl;
}
  where
    begin : Compacted
    begin = record { count = 0; table = r.table; blocks = [] }

    done : IsCompacted got 0 r.index_max begin (compact r.index_max got 0 begin)
    done = compact-IsCompacted r.index_max got 0 begin (omega arith) (omega arith) (omega arith)

    last_of :
        (n : ℕ)
        → r.index_max ≡ n
        → get_or (compact r.index_max got 0 begin).table (r.index_max - 1) 0
          ≡ get_or r.table (r.index_max - 1) 0
    last_of zero e = rw e (unfold compact in refl)
    last_of (suc n) e = done.last (r.index_max - 1) (omega arith)
