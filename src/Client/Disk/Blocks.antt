-- ===== src/Client/Disk/Blocks.antt =====
-- The blocks of a file, and what accept_block writes for each.
use native.Mathlib.Nat.{div-add-mod, mod-lt, mul-le-mul_left}
use tsunami_udp.Prelude.{
  ℕ, ◌+◌, ◌-◌, ◌*◌, ◌/◌, ◌%◌, ◌≡◌, ◌≤◌, ◌<◌, ◌^◌, ◌≢◌, refl, ap, sym, ◌∙◌, min, true, List, ◌==◌,
  if◌then◌else◌, get_or, get_or-take, get_or-drop, length, length-take, length-drop, take, drop,
  arith, Bool-cases, inl, inr, ne→==_false, le→ltb_false,
}
use tsunami_udp.Prelude.Words.{sub32}
use tsunami_udp.Protocol.{ok}
use tsunami_udp.Server.Datagram.Laws.{block_of, times_pred}
use tsunami_udp.Client.Disk.{write_at, DiskCall, Target, write_size, accept_block}

-- The number of blocks, as ttp_open_transfer of tsunami-udp/server/protocol.c computes it.
unfoldable pub block_count : ℕ → ℕ → ℕ
block_count block_size file_size =
    file_size / block_size + (if file_size % block_size == 0 then 0 else 1)

abbrev pub target_of : ℕ → List ℕ → Target
target_of block_size content = record {
  block_size = block_size;
  file_size = length content;
  block_count = block_count block_size (length content);
}

module _ (bs : ℕ) (content : List ℕ) (positive : 0 < bs) (k : ℕ) (lo : 1 ≤ k)
    (hi : k ≤ block_count bs (length content)) where
  abbrev size : ℕ
  size = length content

  -- A block starts before the end of the file; only the last one is shorter.
  pub block_bounds :
      (bs * (k - 1) < size) × (write_size (target_of bs content) k ≡ min bs (size - bs * (k - 1)))
  unfolding write_size block_count
  block_bounds =
      let whole = div-add-mod size bs in
      let rest = mod-lt size positive in
      let here = times_pred bs k lo in
      elim (Bool-cases (size % bs == 0)) [
        | inl even ↦
            let below = mul-le-mul_left {m = k} {n = size / bs} bs (ground (arith, hi)) in
            ground (arith, even, whole, rest, here, below)
        | inr odd ↦ elim (Bool-cases (k == size / bs + 1)) [
          | inl last ↦
              let at = ap (λ j. bs * j) {x = k - 1} {y = size / bs} (ground (arith, last)) in
              ground (arith, odd, last, whole, rest, at)
          | inr inner ↦
              let below =
                mul-le-mul_left {m = k} {n = size / bs} bs (ground (arith, hi, odd, inner)) in
              ground (arith, odd, inner, whole, rest, here, below)
        ]
      ]

  pub length-block_of : length (block_of bs content k) ≡ min bs (size - bs * (k - 1))
  unfolding block_of
  length-block_of =
      omega
        (arith, length-take bs (drop (bs * (k - 1)) content), length-drop (bs * (k - 1)) content)

  -- The bytes of a block are those of the file from its start on.
  pub get_or-block_of :
      (i : ℕ)
      → i < length (block_of bs content k)
      → get_or (block_of bs content k) i 0 ≡ get_or content (bs * (k - 1) + i) 0
  get_or-block_of i h =
      let short : i < bs = omega (arith, length-block_of) in
      unfold block_of in
      (get_or-take bs (drop (bs * (k - 1)) content) i 0 short
        ∙ get_or-drop (bs * (k - 1)) content i (bs * (k - 1) + i) 0 refl)

  -- On a disk that works, accept_block writes the block of the file at its place.
  pub accept_block-writes :
      (call : DiskCall) (payload file : List ℕ)
      → call.seeks ≡ true
      → bs ≤ call.room
      → k < 2 ^ 32
      → take (length (block_of bs content k)) payload ≡ block_of bs content k
      → accept_block (target_of bs content) call k payload file
        ≡ (ok, write_at (bs * (k - 1)) (block_of bs content k) file)
  unfolding accept_block
  accept_block-writes call payload file seeks room small genuine =
      let size_is : write_size (target_of bs content) k ≡ length (block_of bs content k) =
        block_bounds.1 ∙ sym length-block_of in
      let long : length (block_of bs content k) ≢ 0 =
        omega (arith, length-block_of, block_bounds.0) in
      let fits : min (length (block_of bs content k)) call.room ≡ length (block_of bs content k) =
        omega (arith, length-block_of) in
      let place : sub32 k 1 ≡ k - 1 = omega arith in
      rw
        (
          size_is,
          fits,
          seeks,
          place,
          ne→==_false (length (block_of bs content k)) 0 long,
          le→ltb_false (length (block_of bs content k)) (length (block_of bs content k))
              (omega arith),
          genuine,
        )
        refl
