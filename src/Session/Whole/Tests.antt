-- ===== src/Session/Whole/Tests.antt =====
-- A file of four bytes, from the server to the client.
use mathlib.Core.List.{Memᴰ}
use mathlib.Core.List.Memᴰ.{head, tail}
use tsunami_udp.Prelude.{
  ◌+◌, ◌^◌, ◌≡◌, ◌<◌, ◌≤◌, refl, sym, subst, List, [], ◌∷◌, ◌++◌, none, some, arith, length, All,
}
use tsunami_udp.Protocol.{Datagram}
use tsunami_udp.Wire.{little_endian}
use tsunami_udp.Wire.Connection.{returned}
use tsunami_udp.Wire.Connection.Laws.{line_of_room}
use tsunami_udp.Negotiation.{
  Opened, Shared, Serving, client_open, server_open, same_text, count_blocks,
}
use tsunami_udp.Negotiation.Accept.{request_bytes, reply_bytes, served}
use tsunami_udp.Negotiation.Agreement.{IsGood, opened}
use tsunami_udp.Negotiation.Tests.{name, name-IsPlain, asked, anywhere, anywhere-writable}
use tsunami_udp.Server.Datagram.{build_datagram, move_to, read, seek}
use tsunami_udp.Server.Transmit.{Input, send_block, heartbeat, after_round}
use tsunami_udp.Server as Server_side
use tsunami_udp.Server.Tests.{naturals, nothing}
use tsunami_udp.Ring.{max_blocks_queued}
use tsunami_udp.Client.Receive.{completes}
use tsunami_udp.Client.Receive.Session.{run, new_session}
use tsunami_udp.Client.Receive.Origin.{arrivals}
use tsunami_udp.Client.Receive.Tests.{
  lossless, first_block, last_block, events, all_allocated, empty_ring, file, good_disk, made, fair,
  ends,
}
use tsunami_udp.Client.Finish.{end_transfer}
use tsunami_udp.Client.Disk.{disk_thread}
use tsunami_udp.Client.Disk.Blocks.{block_count}
use tsunami_udp.Session.Whole.{parameter_of, start_of, target_opened, IsSent, get-whole}

abbrev shared : Shared
shared = record { content = λ path. some file; listed = []; allhook = none }

file-IsGood : IsGood shared asked name file 1700000000
unfolding same_text
file-IsGood = record {
  plain = name-IsPlain;
  short = omega arith;
  no_list = refl;
  no_star = refl;
  there = refl;
  words = ground arith;
  block_size_wide = λ e. omega (arith, e);
  target_rate_pos = omega arith;
  size_fits = omega arith;
  now_fits = omega arith;
}

abbrev o : Opened
o = opened asked 4 (count_blocks 2 4) 1700000000 name

abbrev v : Serving
v = served asked 1700000000 name file

-- The server meets no request and sends both blocks.
abbrev inputs : List Input
inputs = nothing ∷ nothing ∷ []

abbrev sent : List Datagram
sent =
    (Server_side.Transmit.run naturals (parameter_of v) inputs (start_of naturals v (0 ∷ 0 ∷ []))).2

sent-blocks : sent ≡ first_block ∷ last_block ∷ []
unfolding Server_side.Transmit.run Server_side.Transmit.iterate send_block heartbeat after_round
    build_datagram move_to read seek count_blocks
sent-blocks = refl

some_blocks : 1 ≤ count_blocks 2 4
unfolding count_blocks
some_blocks = omega arith

few_blocks : block_count 2 4 + 1 < 2 ^ 32
unfolding block_count
few_blocks = omega arith

first-IsSent : IsSent (count_blocks 2 4) sent first_block
unfolding count_blocks
first-IsSent = (subst (Memᴰ first_block) (sym sent-blocks) (head refl), omega arith, omega arith)

last-IsSent : IsSent (count_blocks 2 4) sent last_block
unfolding count_blocks
last-IsSent =
    (subst (Memᴰ last_block) (sym sent-blocks) (tail (head refl)), omega arith, omega arith)

arrived : All (IsSent o.block_count sent) (arrivals events)
unfolding arrivals
arrived = (first-IsSent, (last-IsSent, tt))

received-completes :
    (run lossless events (new_session o.block_count o.on_wire_estimate 2 empty_ring)).0 ≡ completes
unfolding count_blocks
received-completes = ends

get-whole_example :
    let from_client = name ++ b'\n' ∷ request_bytes asked [] in
    let from_server = reply_bytes asked 4 o.block_count 1700000000 in
    let client =
      client_open little_endian anywhere name name asked
        (line_of_room from_server (length name + 21 + 0)) in
    let server =
      server_open little_endian 1700000000 0 shared (line_of_room from_client (21 + 0)) in
    (client.ended ≡ returned o)
    × (server.ended ≡ returned v)
    × (blocks : List Datagram) × (end_transfer max_blocks_queued 1 first_block
          (run lossless events (new_session o.block_count o.on_wire_estimate 2 empty_ring)).1
        ≡ some blocks)
    × (disk_thread (target_opened asked o) good_disk blocks [] ≡ file)
get-whole_example =
    get-whole little_endian little_endian shared anywhere asked name name name file 1700000000 0 0
      file-IsGood anywhere-writable some_blocks few_blocks naturals inputs (0 ∷ 0 ∷ []) refl refl
      lossless refl all_allocated (λ i. first_block) made events fair arrived received-completes 1
      first_block good_disk (λ k. refl) (λ k. omega arith)
