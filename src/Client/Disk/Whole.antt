-- ===== src/Client/Disk/Whole.antt =====
-- The file that the disk thread leaves: tsunami-udp/client/io.c with the disk_thread of
-- tsunami-udp/client/command.c.
use native.Mathlib.Nat.{div-add-mod, mod-lt, mul-le-mul_left, lt_of_mul-lt-mul_left}
use tsunami_udp.Prelude.{
  ℕ, ◌+◌, ◌-◌, ◌*◌, ◌/◌, ◌%◌, ◌≡◌, ◌≤◌, ◌<◌, ◌^◌, ◌≢◌, refl, ap, sym, ◌∙◌, subst, true, List, [],
  ◌∷◌, ltb, ◌==◌, get_or, get_or_ext, length, arith, Bool-cases, inl, inr, ne→==_false,
  le→ltb_false, lt→ltb, ltb→lt, ◌⊎◌, ℕ_discrete, All,
}
use tsunami_udp.Protocol.{Datagram}
use tsunami_udp.Server.Datagram.Laws.{block_of, times_pred}
use tsunami_udp.Server.Transmit.Genuine.{Genuine}
use tsunami_udp.Client.Receive.Delivery.{occurrences}
use tsunami_udp.Client.Disk.{write_at, DiskCall, after_block, disk_thread}
use tsunami_udp.Client.Disk.Write.{length-write_at, get_or-write_at}
use tsunami_udp.Client.Disk.Blocks.{
  block_count, target_of, block_bounds, length-block_of, get_or-block_of, accept_block-writes,
}

module _ (bs : ℕ) (content : List ℕ) (positive : 0 < bs) where
  abbrev n : ℕ
  n = block_count bs (length content)

  abbrev part : ℕ → List ℕ
  part k = block_of bs content k

  -- The bytes of block `k` are in the file.
  record Holds (k : ℕ) (file : List ℕ) : Type 0 where
    long : bs * (k - 1) + length (part k) ≤ length file
    bytes : (i : ℕ) → i < length (part k) → get_or file (bs * (k - 1) + i) 0 ≡ get_or (part k) i 0

  write : ℕ → List ℕ → List ℕ
  write k file = write_at (bs * (k - 1)) (part k) file

  -- Blocks do not overlap.
  apart : (j k : ℕ) → 1 ≤ j → j < k → bs * (j - 1) + bs ≤ bs * (k - 1)
  apart j k lo lt =
      let le = mul-le-mul_left {m = j} {n = k - 1} bs (omega arith) in
      omega (arith, times_pred bs j lo, le)

  write-Holds : (k : ℕ) (file : List ℕ) → Holds k (write k file)
  unfolding write
  write-Holds k file = record {
    long = omega (arith, length-write_at (bs * (k - 1)) (part k) file);
    bytes = λ i h.
        let e : bs * (k - 1) + i - bs * (k - 1) ≡ i = omega arith in
        get_or-write_at (bs * (k - 1)) (part k) file (bs * (k - 1) + i)
        ∙ rw
            (
              le→ltb_false (bs * (k - 1) + i) (bs * (k - 1)) (omega arith),
              lt→ltb (bs * (k - 1) + i) (bs * (k - 1) + length (part k)) (omega (arith, h)),
              e,
            )
            refl;
  }

  outside :
      (o : ℕ) (bytes file : List ℕ) (i : ℕ)
      → (i < o) ⊎ (o + length bytes ≤ i)
      → get_or (write_at o bytes file) i 0 ≡ get_or file i 0
  outside o bytes file i h = ground (arith, get_or-write_at o bytes file i, h)

  keep-Holds :
      (j k : ℕ) (file : List ℕ)
      → 1 ≤ j
      → j ≤ n
      → 1 ≤ k
      → k ≤ n
      → Holds j file
      → Holds j (write k file)
  unfolding write
  keep-Holds j k file lj hj lk hk v = elim (ℕ_discrete j k) [
    | yes e ↦ rw e (write-Holds k file)
    | no ne ↦ record {
      long = omega (arith, v.long, length-write_at (bs * (k - 1)) (part k) file);
      bytes = λ i h.
          outside (bs * (k - 1)) (part k) file (bs * (j - 1) + i) (side i h ne) ∙ v.bytes i h;
    }
  ]
    where
      side :
          (i : ℕ)
          → i < length (part j)
          → j ≢ k
          → (bs * (j - 1) + i < bs * (k - 1)) ⊎ (bs * (k - 1) + length (part k) ≤ bs * (j - 1) + i)
      side i h ne = elim (Bool-cases (ltb j k)) [
        | inl before ↦ inl (
            omega (
              arith,
              apart j k lj (ltb→lt j k before),
              length-block_of bs content positive j lj hj,
            ))
        | inr after ↦ inr (
            omega (
              arith,
              apart k j lk (ground (arith, after, ne)),
              length-block_of bs content positive k lk hk,
            ))
      ]

  write-bounded :
      (k : ℕ) (file : List ℕ)
      → 1 ≤ k
      → k ≤ n
      → length file ≤ length content
      → length (write k file) ≤ length content
  unfolding write
  write-bounded k file lk hk h = omega (
    arith,
    length-write_at (bs * (k - 1)) (part k) file,
    length-block_of bs content positive k lk hk,
    (block_bounds bs content positive k lk hk).0,
  )

  -- A datagram of the file.
  pub record IsBlock (d : Datagram) : Type 0 where
    pub first : 1 ≤ d.block
    pub last : d.block ≤ n
    pub genuine : Genuine bs content d

  module _ (calls : ℕ → DiskCall) (seeks : (k : ℕ) → (calls k).seeks ≡ true)
      (room : (k : ℕ) → bs ≤ (calls k).room) (small : n < 2 ^ 32) where
    abbrev thread : List Datagram → List ℕ → List ℕ
    thread = disk_thread (target_of bs content) calls

    -- One datagram is written.
    thread-cons :
        (d : Datagram) (ds : List Datagram) (file : List ℕ)
        → IsBlock d
        → thread (d ∷ ds) file ≡ thread ds (write d.block file)
    unfolding disk_thread after_block write
    thread-cons d ds file v =
        let e =
          accept_block-writes bs content positive d.block v.first v.last (calls d.block) d.payload
            file (seeks d.block) (room d.block) (omega (arith, v.last, small)) v.genuine in
        rw (ne→==_false d.block 0 (omega (arith, v.first)), e) refl

    thread-bounded :
        (ds : List Datagram) (file : List ℕ)
        → All IsBlock ds
        → length file ≤ length content
        → length (thread ds file) ≤ length content
    unfolding disk_thread
    thread-bounded [] file v h = h
    thread-bounded (d ∷ ds) file v h =
        subst (λ f. length f ≤ length content) (sym (thread-cons d ds file v.0))
          (thread-bounded ds (write d.block file) v.1
            (write-bounded d.block file v.0.first v.0.last h))

    thread-keeps :
        (j : ℕ) (ds : List Datagram) (file : List ℕ)
        → 1 ≤ j
        → j ≤ n
        → All IsBlock ds
        → Holds j file
        → Holds j (thread ds file)
    unfolding disk_thread
    thread-keeps j [] file lj hj v h = h
    thread-keeps j (d ∷ ds) file lj hj v h = subst (Holds j) (sym (thread-cons d ds file v.0)) (
        thread-keeps j ds (write d.block file) lj hj v.1
          (keep-Holds j d.block file lj hj v.0.first v.0.last h))

    -- A block that occurs is in the file at the end.
    thread-Holds :
        (j : ℕ) (ds : List Datagram) (file : List ℕ)
        → 1 ≤ j
        → j ≤ n
        → All IsBlock ds
        → 1 ≤ occurrences j ds
        → Holds j (thread ds file)
    unfolding occurrences
    thread-Holds j [] file lj hj v h = absurd (omega arith)
    thread-Holds j (d ∷ ds) file lj hj v h =
        subst (Holds j) (sym (thread-cons d ds file v.0)) (elim (ℕ_discrete d.block j) [
          | yes e ↦
              thread-keeps j ds (write d.block file) lj hj v.1
                (subst (λ k. Holds k (write d.block file)) e (write-Holds d.block file))
          | no ne ↦
              thread-Holds j ds (write d.block file) lj hj v.1
                (ground (arith, h, ne→==_false d.block j ne))
        ])

  -- The block that a byte of the file lies in.
  home-le : (i : ℕ) → i < length content → i / bs + 1 ≤ n
  unfolding block_count
  home-le i h =
      let whole = div-add-mod (length content) bs in
      let here = div-add-mod i bs in
      let rest = mod-lt (length content) positive in
      let next = times_pred bs (length content / bs + 1) (omega arith) in
      let e =
        ap (λ j. bs * j) {x = length content / bs + 1 - 1} {y = length content / bs}
          (omega arith) in
      elim (Bool-cases (length content % bs == 0)) [
        | inl even ↦
            let lt =
              lt_of_mul-lt-mul_left bs {m = i / bs} {n = length content / bs}
                (ground (arith, even, whole, here, h)) in
            ground (arith, even, lt)
        | inr odd ↦
            let lt =
              lt_of_mul-lt-mul_left bs {m = i / bs} {n = length content / bs + 1}
                (omega (arith, whole, here, rest, next, e, h)) in
            ground (arith, odd, lt)
      ]

  -- What the file has at a byte, once its block is written.
  Holds-byte :
      (i : ℕ) (file : List ℕ)
      → i < length content
      → Holds (i / bs + 1) file
      → (i < length file) × (get_or file i 0 ≡ get_or content i 0)
  Holds-byte i file h v =
      let k = i / bs + 1 in
      let hi = home-le i h in
      let e = ap (λ j. bs * j) {x = k - 1} {y = i / bs} (omega arith) in
      let at : bs * (k - 1) + i % bs ≡ i = omega (arith, e, div-add-mod i bs) in
      let inside : i % bs < length (part k) =
        omega (
          arith,
          at,
          h,
          mod-lt i positive,
          length-block_of bs content positive k (omega arith) hi,
        ) in
      (
        omega (arith, at, inside, v.long),
        ap (λ p. get_or file p 0) (sym at)
            ∙ v.bytes (i % bs) inside
            ∙ get_or-block_of bs content positive k (omega arith) hi (i % bs) inside
            ∙ ap (λ p. get_or content p 0) at,
      )

  -- On a disk that works: when the disk thread takes datagrams that carry blocks of the file, in any
  -- order and any number of times, and every block is among them, it leaves exactly the file of the
  -- server.
  pub disk_thread-whole :
      (calls : ℕ → DiskCall)
      → ((k : ℕ) → (calls k).seeks ≡ true)
      → ((k : ℕ) → bs ≤ (calls k).room)
      → n < 2 ^ 32
      → (ds : List Datagram) → All IsBlock ds
      → ((k : ℕ) → 1 ≤ k → k ≤ n → 1 ≤ occurrences k ds)
      → disk_thread (target_of bs content) calls ds [] ≡ content
  disk_thread-whole calls seeks room small ds blocks all_there =
      get_or_ext 0 file content (omega (arith, bounded, filled))
        (λ i h. (byte i (omega (arith, h, bounded))).1)
    where
      file : List ℕ
      file = disk_thread (target_of bs content) calls ds []

      bounded : length file ≤ length content
      bounded = thread-bounded calls seeks room small ds [] blocks (omega arith)

      byte :
          (i : ℕ) → i < length content → (i < length file) × (get_or file i 0 ≡ get_or content i 0)
      byte i h = Holds-byte i file h (
          thread-Holds calls seeks room small (i / bs + 1) ds [] (omega arith) (home-le i h) blocks
            (all_there (i / bs + 1) (omega arith) (home-le i h)))

      filled : length content ≤ length file
      filled = elim (ℕ_discrete (length content) 0) [
        | yes none_ ↦ omega (arith, none_)
        | no some_ ↦ omega (arith, (byte (length content - 1) (omega (arith, some_))).0)
      ]
