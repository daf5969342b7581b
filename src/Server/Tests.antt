-- ===== src/Server/Tests.antt =====
-- A concrete transfer for the theorems on the server.
use tsunami_udp.Prelude.{
  ℕ, ◌≡◌, ◌*◌, ◌-◌, ◌+◌, ◌/◌, refl, true, false, ltb, List, [], ◌∷◌, All, map, arith, ◌⊎◌,
}
use tsunami_udp.Protocol.{
  Retransmission, request_restart_type, request_retransmit_type, request_error_rate_type,
  block_retransmission,
}
use tsunami_udp.Server.Datagram.{Reader, build_datagram, move_to, read, seek}
use tsunami_udp.Server.Datagram.Laws.{IsInStep, IsBuilt, build_datagram-IsBuilt}
use tsunami_udp.Server.Transmit.{Floats, Parameter, Input, goes_on, Server, accept_retransmit, run}
use tsunami_udp.Server.Transmit.Laws.{header, stream, run-stream, run-restart}
use tsunami_udp.Server.Transmit.Rate.{accept_retransmit-ipd}
use tsunami_udp.Server.Transmit.Genuine.{Genuine, IsServing, run-Genuine}

-- Natural numbers in place of doubles.
abbrev pub naturals : Floats
naturals = record {
  F = ℕ;
  of_nat = λ n. n;
  plus = λ a b. a + b;
  minus = λ a b. a - b;
  times = λ a b. a * b;
  over = λ a b. a / b;
  less = ltb;
}

-- A file of five bytes in three blocks.
abbrev parameter : Parameter
parameter = record {
  block_size = 2;
  block_count = 3;
  error_rate = 7500;
  slower_num = 25;
  slower_den = 24;
  faster_num = 5;
  faster_den = 6;
  ipd_time = 20;
}

abbrev file : List ℕ
file = 10 ∷ 11 ∷ 12 ∷ 13 ∷ 14 ∷ []

abbrev opened : Reader
opened = record { content = file; position = 0; last_block = 0; buffer = 0 ∷ 0 ∷ [] }

opened-IsInStep : IsInStep 2 opened
opened-IsInStep = record { at = refl; room = refl; word = omega arith }

build_datagram-IsBuilt_example :
    IsBuilt 2 3 block_retransmission opened
      (omega arith)
      (omega arith)
      (build_datagram 2 3 block_retransmission opened)
build_datagram-IsBuilt_example =
    build_datagram-IsBuilt 2 3 block_retransmission opened (omega arith) (omega arith)
      opened-IsInStep

-- The same file, opened after another file whose block 7 was read last.
abbrev reopened : Reader
reopened = record opened { last_block = 7 }

-- A read of block 8 does not seek then, and gives the first bytes of the file.
stale : (build_datagram 2 8 block_retransmission reopened).0.payload ≡ 10 ∷ 11 ∷ []
unfolding build_datagram move_to read seek
stale = refl

abbrev server : Server naturals parameter
server = record {
  reader = opened;
  block = 0;
  ipd_current = 20;
  retransmitlen = 0;
  deadconnection_counter = 0;
}

server-IsServing : IsServing naturals parameter file (omega arith) (omega arith) server
server-IsServing = record { step = opened-IsInStep; same_content = refl; within = omega arith }

abbrev pub nothing : Input
nothing = record {
  read_fails = false;
  arrived = 0;
  request = record { request_type = request_restart_type; block = 0; error_rate = 0 };
  send = true;
  interval_passed = false;
  timed_out = false;
}

abbrev asks : Retransmission → Input
asks m = record nothing { arrived = 12; request = m }

abbrev wants_two : Input
wants_two = asks (record { request_type = request_retransmit_type; block = 2; error_rate = 0 })

abbrev restarts_at_one : Input
restarts_at_one = asks (record { request_type = request_restart_type; block = 1; error_rate = 0 })

run-Genuine_example :
    All
      (Genuine 2 file)
      (run naturals parameter (nothing ∷ wants_two ∷ nothing ∷ nothing ∷ []) server).2
run-Genuine_example =
    run-Genuine naturals parameter file (omega arith) (omega arith)
      (nothing ∷ wants_two ∷ nothing ∷ nothing ∷ []) server refl server-IsServing

run-stream_example :
    ((run naturals parameter (nothing ∷ nothing ∷ nothing ∷ []) server).0 ≡ goes_on)
    × (map header (run naturals parameter (nothing ∷ nothing ∷ nothing ∷ []) server).2
        ≡ stream 3 0 3)
run-stream_example =
    run-stream naturals parameter (omega arith) (nothing ∷ nothing ∷ nothing ∷ []) server refl refl
      (omega arith)

run-restart_example :
    map header (run naturals parameter (restarts_at_one ∷ nothing ∷ nothing ∷ []) server).2
    ≡ stream 3 1 2
run-restart_example =
    run-restart naturals parameter (omega arith) restarts_at_one (nothing ∷ nothing ∷ []) server
      refl refl refl (omega arith) (omega arith) (omega arith) refl

ltb-asymmetric : (a b : ℕ) → ltb a b ≡ true → ltb b a ≡ false
ltb-asymmetric a b h = ground arith

abbrev half_lost : Retransmission
half_lost = record { request_type = request_error_rate_type; block = 0; error_rate = 50000 }

accept_retransmit-ipd_example :
    let ipd = (accept_retransmit naturals parameter half_lost true server).1.ipd_current in
    (ltb ipd 20 ≡ false) × ((ltb 10000 ipd ≡ false) ⊎ (ipd ≡ 20))
accept_retransmit-ipd_example =
    accept_retransmit-ipd naturals parameter ltb-asymmetric half_lost true server refl
