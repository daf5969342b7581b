-- ===== src/Clock/Tests.antt =====
-- Two concrete times, for the theorem on elapsed time.
use tsunami_udp.Prelude.{◌+◌, ◌*◌, ◌≡◌, refl, arith}
use tsunami_udp.Clock.{Time, get_usec_since}
use tsunami_udp.Clock.Laws.{get_usec_since-eq}

abbrev old_time : Time
old_time = record { tv_sec = 3; tv_usec = 900000 }

abbrev later : Time
later = record { tv_sec = 5; tv_usec = 100000 }

get_usec_since-eq_example :
    get_usec_since old_time later + (3 * 1000000 + 900000) ≡ 5 * 1000000 + 100000
get_usec_since-eq_example =
    get_usec_since-eq old_time later (omega arith) (omega arith) (omega arith) (omega arith)

-- When the clock went back by two seconds, the seconds are left out.
gone_back : get_usec_since later old_time ≡ 800000
unfolding get_usec_since
gone_back = refl
