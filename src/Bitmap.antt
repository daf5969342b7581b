-- ===== src/Bitmap.antt =====
-- The bitfield of received blocks: got_block and its users in tsunami-udp/client/command.c.
-- Block numbers are u_int32_t values; `1 << k` is `2 ^ k`.
pub mod Laws
pub mod Count
mod Tests
use Prim.Native.Nat.{bit_and, bit_or}
use tsunami_udp.Prelude.{
  ℕ, zero, suc, ◌+◌, ◌/◌, ◌%◌, ◌^◌, Bool, true, false, not, List, [], ◌∷◌, ltb, ◌==◌, if◌then◌else◌,
  get_or, set, replicate,
}

abbrev pub Received : Type 0
Received = List ℕ

-- The calloc of command_get.
unfoldable pub no_blocks : ℕ → Received
no_blocks block_count = replicate (block_count / 8 + 2) 0

unfoldable pub test_bit : ℕ → ℕ → Bool
test_bit byte k = not (bit_and byte (2 ^ k) == 0)

-- `got_block`: a number past the last block counts as received.
unfoldable pub got_block : ℕ → Received → ℕ → Bool
got_block block_count received blocknr =
    if ltb block_count blocknr
    then true
    else test_bit (get_or received (blocknr / 8) 0) (blocknr % 8)

unfoldable pub set_bit : ℕ → ℕ → ℕ
set_bit byte k = bit_or byte (2 ^ k) % 256

-- `received[this_block / 8] |= (1 << (this_block % 8))`
unfoldable pub mark : Received → ℕ → Received
mark received n = set received (n / 8) (set_bit (get_or received (n / 8) 0) (n % 8))

-- `for (block=1; block <= block_count; block++) if (!got_block(..)) total_lost++`, with the rounds
-- left as the first argument.
lost_from : ℕ → (ℕ → Bool) → ℕ → ℕ → ℕ
lost_from zero got block lost = lost
lost_from (suc rounds) got block lost =
    lost_from rounds got (block + 1) (if got block then lost else lost + 1)

-- The final count of command_get.
unfoldable pub total_lost : ℕ → Received → ℕ
unfolding lost_from
total_lost block_count received = lost_from block_count (got_block block_count received) 1 0

-- `while (got_block(gapless + 1) && gapless < block_count) gapless++`, on fuel.
advance_from : ℕ → ℕ → (ℕ → Bool) → ℕ → ℕ
advance_from zero block_count got gapless = gapless
advance_from (suc fuel) block_count got gapless =
    let rest = advance_from fuel block_count got (gapless + 1) in
    if got (gapless + 1) then (if ltb gapless block_count then rest else gapless) else gapless

-- Enough fuel: the loop stops at `block_count`.
unfoldable pub advance : ℕ → Received → ℕ → ℕ
unfolding advance_from
advance block_count received gapless =
    advance_from (suc block_count) block_count (got_block block_count received) gapless
