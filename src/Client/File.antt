-- ===== src/Client/File.antt =====
-- A whole transfer, from the datagrams that arrive to the file on disk: command_get and disk_thread in
-- tsunami-udp/client/command.c, and accept_block in tsunami-udp/client/io.c.
use tsunami_udp.Prelude.{ℕ, ◌+◌, ◌≤◌, ◌<◌, ◌^◌, ◌≡◌, true, arith, List, [], ◌∷◌, some, length, All}
use tsunami_udp.Protocol.{Datagram}
use tsunami_udp.Ring.{Ring, Setup, done, create, max_blocks_queued}
use tsunami_udp.Client.Receive.{Policy, completes}
use tsunami_udp.Client.Receive.Session.{Session, Event, run, numbered, new_session}
use tsunami_udp.Client.Receive.Delivery.{handed_over, occurrences}
use tsunami_udp.Client.Receive.Guarantees.{
  run-each_block_once, run-IsDelivering, new_session-IsDelivering, create-dump,
}
use tsunami_udp.Client.Receive.Origin.{arrivals, run-handed}
use tsunami_udp.Client.Finish.{end_transfer}
use tsunami_udp.Client.Finish.Laws.{IsQuiet, end_transfer-takes}
use tsunami_udp.Client.Disk.{DiskCall, disk_thread}
use tsunami_udp.Client.Disk.Blocks.{block_count, target_of}
use tsunami_udp.Client.Disk.Whole.{IsBlock, disk_thread-whole}

module _ (bs : ℕ) (content : List ℕ) (wire : ℕ) (positive : 0 < bs)
    (small : block_count bs (length content) + 1 < 2 ^ 32) (policy : Policy)
    (lossless : policy.lossless ≡ true) (setup : Setup) (garbage : ℕ → Datagram)
    {ring : Ring Datagram} (made : create setup garbage bs ≡ done ring tt) where
  abbrev begin : Session
  begin = new_session (block_count bs (length content)) wire bs ring

  handed-IsBlock :
      (events : List Event)
      → numbered 0 events ≡ true
      → All (IsBlock bs content positive) (arrivals events)
      → All (IsBlock bs content positive) (handed_over (run policy events begin).1)
  handed-IsBlock events fair genuine =
      run-handed policy (block_count bs (length content)) (IsBlock bs content positive) events begin
        fair genuine
        (new_session-IsDelivering policy (block_count bs (length content)) wire bs setup garbage
          small made)
        (record {
          handed =
              rw
                (create-dump policy (block_count bs (length content)) wire bs setup garbage small
                  made)
                tt;
          held = λ h. absurd (omega (arith, h));
        })

  numbered_blocks :
      (ds : List Datagram) → All (IsBlock bs content positive) ds → All (λ d. 1 ≤ d.block) ds
  numbered_blocks [] all = tt
  numbered_blocks (d ∷ ds) all = (all.0.first, numbered_blocks ds all.1)

  -- When a lossless transfer of a file completes, and each datagram that arrived was a block of the
  -- file, with its number and its bytes, in any order, with losses and duplicates, and receive
  -- errors come only after the first datagram, then the disk thread ends at the stop block, whatever it
  -- took before the stop block was put in, and what it has taken until then leaves exactly the file,
  -- on a disk that works.
  pub transfer-whole :
      (events : List Event)
      → numbered 0 events ≡ true
      → All (IsBlock bs content positive) (arrivals events)
      → (run policy events begin).0 ≡ completes
      → (early : ℕ) (leftover : Datagram) (calls : ℕ → DiskCall)
      → ((k : ℕ) → (calls k).seeks ≡ true)
      → ((k : ℕ) → bs ≤ (calls k).room)
      → (blocks : List Datagram) × (end_transfer max_blocks_queued early leftover
            (run policy events begin).1
          ≡ some blocks)
        × (disk_thread (target_of bs content) calls blocks [] ≡ content)
  transfer-whole events fair genuine complete early leftover calls seeks room = (
    handed_over (run policy events begin).1,
    end_transfer-takes max_blocks_queued early leftover (run policy events begin).1 quiet
        (numbered_blocks (handed_over (run policy events begin).1)
          (handed-IsBlock events fair genuine))
        (omega arith),
    disk_thread-whole bs content positive calls seeks room (omega (arith, small))
        (handed_over (run policy events begin).1) (handed-IsBlock events fair genuine) all_there,
  )
    where
      quiet : IsQuiet (run policy events begin).1
      quiet =
          let kept =
            run-IsDelivering policy (block_count bs (length content)) wire bs setup garbage small
              made events fair in
          record { ring = kept.receiving.ring; idle = kept.receiving.idle }

      all_there :
          (k : ℕ)
          → 1 ≤ k
          → k ≤ block_count bs (length content)
          → 1 ≤ occurrences k (handed_over (run policy events begin).1)
      all_there k lo hi =
          let once =
            run-each_block_once policy (block_count bs (length content)) wire bs setup garbage small
              made events fair lossless complete k lo in
          ground (arith, once, hi)
