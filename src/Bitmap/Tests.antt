-- ===== src/Bitmap/Tests.antt =====
-- Concrete bitfields for the theorems on the bitfield.
use tsunami_udp.Prelude.{◌≡◌, ◌≤◌, false, ◌&&◌, ltb, arith, ◌+◌}
use tsunami_udp.Bitmap.{no_blocks, got_block, mark, advance}
use tsunami_udp.Bitmap.Count.{IsGapless, advance-IsGapless}

none_yet : IsGapless 9 (got_block 9 (mark (no_blocks 9) 1)) 0
none_yet = record { within = omega arith; full = λ k lo hi. absurd (omega arith) }

advance-IsGapless_example :
    let g' = advance 9 (mark (no_blocks 9) 1) 0 in
    IsGapless 9 (got_block 9 (mark (no_blocks 9) 1)) g'
    × (0 ≤ g')
    × ((got_block 9 (mark (no_blocks 9) 1) (g' + 1) && ltb g' 9) ≡ false)
advance-IsGapless_example = advance-IsGapless 9 (mark (no_blocks 9) 1) 0 none_yet
