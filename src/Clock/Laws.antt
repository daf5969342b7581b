-- ===== src/Clock/Laws.antt =====
-- The loop over the seconds is the multiplication that it replaces.
use tsunami_udp.Prelude.{
  ℕ, zero, suc, ◌+◌, ◌-◌, ◌*◌, ◌%◌, ◌^◌, ◌≤◌, ◌<◌, ◌≡◌, ◌∙◌, lt→ltb, le→ltb_false, arith,
}
use tsunami_udp.Clock.{Time, count_seconds, get_usec_since}

-- Fuel for each second is enough.
count_seconds-eq :
    (ahead fuel old_sec now_sec result : ℕ)
    → now_sec ≡ old_sec + ahead
    → ahead ≤ fuel
    → result + 1000000 * ahead < 2 ^ 64
    → count_seconds fuel old_sec now_sec result ≡ result + 1000000 * ahead
unfolding count_seconds
count_seconds-eq zero zero old_sec now_sec result e f h = omega arith
count_seconds-eq zero (suc fuel) old_sec now_sec result e f h =
    rw (le→ltb_false old_sec now_sec (omega (arith, e))) (omega arith)
count_seconds-eq (suc ahead) zero old_sec now_sec result e f h = absurd (omega arith)
count_seconds-eq (suc ahead) (suc fuel) old_sec now_sec result e f h =
    let small : (result + 1000000) % 2 ^ 64 ≡ result + 1000000 = omega (arith, h) in
    rw (lt→ltb old_sec now_sec (omega (arith, e)), small)
      (count_seconds-eq ahead fuel old_sec (now_sec - 1) (result + 1000000) (omega (arith, e))
          (omega (arith, f)) (omega (arith, h))
        ∙ omega arith)

-- When the clock has not gone back, and the time fits 64 bits of microseconds, get_usec_since gives the
-- microseconds that have passed: the loop ends by its own test, and its result is that of the formula in
-- the comment of the function.
pub get_usec_since-eq :
    (old_time now : Time)
    → now.tv_usec < 1000000
    → old_time.tv_usec < 1000000
    → now.tv_sec * 1000000 + now.tv_usec < 2 ^ 64
    → old_time.tv_sec * 1000000 + old_time.tv_usec ≤ now.tv_sec * 1000000 + now.tv_usec
    → get_usec_since old_time now + (old_time.tv_sec * 1000000 + old_time.tv_usec)
      ≡ now.tv_sec * 1000000 + now.tv_usec
unfolding get_usec_since
get_usec_since-eq old_time now u v fits later =
    let ahead = now.tv_sec - old_time.tv_sec in
    let e : now.tv_sec ≡ old_time.tv_sec + ahead = omega (arith, u, v, later) in
    let seconds =
      count_seconds-eq ahead now.tv_sec old_time.tv_sec now.tv_sec 0 e (omega arith)
        (omega (arith, fits)) in
    rw seconds (omega (arith, u, v, fits, later, e))
