-- ===== src/Clock.antt =====
-- Elapsed time: get_usec_since of tsunami-udp/common/common.c. What gettimeofday gives is an argument.
pub mod Laws
mod Tests
use tsunami_udp.Prelude.{ℕ, zero, suc, ◌+◌, ◌-◌, ◌%◌, ◌^◌, ltb, if◌then◌else◌}

-- `struct timeval`, of a time after the epoch.
pub record Time : Type 0 where
  pub tv_sec : ℕ
  pub tv_usec : ℕ

-- The loop, on fuel: `result` is a u_int64_t.
unfoldable pub count_seconds : ℕ → ℕ → ℕ → ℕ → ℕ
count_seconds zero old_sec now_sec result = result
count_seconds (suc fuel) old_sec now_sec result =
    let rest = count_seconds fuel old_sec (now_sec - 1) ((result + 1000000) % 2 ^ 64) in
    if ltb old_sec now_sec then rest else result

-- `get_usec_since`: the difference of the microseconds may be negative, and is added in 64 bits. The
-- loop has at most as many rounds as there are seconds now.
unfoldable pub get_usec_since : Time → Time → ℕ
unfolding count_seconds
get_usec_since old_time now =
    (count_seconds now.tv_sec old_time.tv_sec now.tv_sec 0
      + now.tv_usec
      + 2 ^ 64
      - old_time.tv_usec)
    % 2 ^ 64
