-- ===== src/Client/Receive/Guarantees.antt =====
-- What a transfer guarantees, from its start on: command_get in tsunami-udp/client/command.c.
use tsunami_udp.Prelude.{
  ℕ, ◌+◌, ◌≤◌, ◌<◌, ◌^◌, ◌≡◌, ◌≢◌, refl, sym, subst, ◌∙◌, Bool, true, false, leb, if◌then◌else◌,
  arith, List, [], length-replicate,
}
use tsunami_udp.Bitmap.{got_block, total_lost, no_blocks}
use tsunami_udp.Bitmap.Laws.{no_blocks-IsBitmap, got_block-no_blocks}
use tsunami_udp.Bitmap.Count.{missing, missing_zero, missing-no_blocks, total_lost-eq-missing}
use tsunami_udp.Ring.{Ring, done, create, Setup, dump, list_from}
use tsunami_udp.Ring.Inv.{create-IsValid}
use tsunami_udp.Client.Receive.{Policy, Datagram, Turn, completes, stuck}
use tsunami_udp.Client.Receive.Ends.{ends_well}
use tsunami_udp.Client.Receive.Keep.{IsSound, GaplessIf}
use tsunami_udp.Client.Receive.Session.{
  Session, Event, run, numbered, new_session, new_transfer, default_table_size,
}
use tsunami_udp.Client.Receive.Delivery.{IsDelivering, Ran, run-Ran, occurrences, handed_over}

new_transfer-GaplessIf :
    (lossless : Bool) (n : ℕ) → GaplessIf lossless n (got_block n (no_blocks n)) 0
new_transfer-GaplessIf true n = record {
  within = omega arith;
  full = λ k lo hi. absurd (omega arith);
}
new_transfer-GaplessIf false n = tt

new_transfer-IsSound :
    (lossless : Bool) (n wire : ℕ) → n + 1 < 2 ^ 32 → IsSound lossless (new_transfer n wire)
unfolding new_transfer
new_transfer-IsSound lossless n wire small = record {
  small = small;
  bitmap = no_blocks-IsBitmap n;
  left = sym (missing-no_blocks n);
  table = record {
    size = length-replicate {A = ℕ} default_table_size 0;
    used = omega arith;
    some_room = omega arith;
    small = omega arith;
  };
  gapless = new_transfer-GaplessIf lossless n;
}

module _ (policy : Policy) (n wire size : ℕ) (setup : Setup) (garbage : ℕ → Datagram)
    {ring : Ring Datagram} (small : n + 1 < 2 ^ 32)
    (made : create setup garbage size ≡ done ring tt) where
  pub create-dump : dump ring ≡ []
  unfolding create dump list_from
  create-dump = ground arith

  create-idle : ring.count_reserved ≡ 0
  unfolding create
  create-idle = ground arith

  pub new_session-IsDelivering : IsDelivering policy.lossless n (new_session n wire size ring)
  unfolding new_transfer
  new_session-IsDelivering = record {
    receiving = record {
      sound = new_transfer-IsSound policy.lossless n wire small;
      ring = create-IsValid setup garbage size made;
      idle = create-idle;
    };
    count = refl;
    once = λ k. rw create-dump (unfold occurrences in ground (arith, got_block-no_blocks n k));
  }

  module _ (events : List Event) (fair : numbered 0 events ≡ true) where
    abbrev end : Turn × Session
    end = run policy events (new_session n wire size ring)

    ran : Ran policy n end
    unfolding numbered
    ran = run-Ran policy n events (new_session n wire size ring) fair new_session-IsDelivering

    -- At every point of a transfer whose datagrams all have a block number of at least 1, and in which
    -- no receive error comes before the first datagram, the state keeps its invariant, and the ring
    -- and the disk thread together have had each received block of the file exactly once and nothing
    -- else.
    pub run-IsDelivering : IsDelivering policy.lossless n end.1
    run-IsDelivering = ran.delivers

    -- In a transfer whose datagrams all have a block number of at least 1, and in which no receive
    -- error comes before the first datagram, no call of the ring that the receive loop makes sleeps or
    -- ends the process, when the disk thread runs between the iterations.
    pub run-not_stuck : end.0 ≢ stuck
    run-not_stuck e =
        let w =
          subst (λ t. ends_well policy.lossless t end.1.receiver.transfer.blocks_left ≡ true) e
            ran.ends in
        ground (arith, w)

    module _ (lossless : policy.lossless ≡ true) (complete : end.0 ≡ completes) where
      none_left : end.1.receiver.transfer.blocks_left ≡ 0
      none_left =
          let w =
            subst (λ t. ends_well policy.lossless t end.1.receiver.transfer.blocks_left ≡ true)
              complete ran.ends in
          ground (arith, w)

      none_missing : missing n (got_block n end.1.receiver.transfer.received) ≡ 0
      none_missing =
          let sound = ran.delivers.receiving.sound in
          subst (λ m. missing m (got_block m end.1.receiver.transfer.received) ≡ 0)
            ran.delivers.count (omega (arith, sound.left, none_left))

      -- When a lossless transfer completes whose datagrams all have a block number of at least 1, and
      -- in which no receive error comes before the first datagram, each block of the file was handed
      -- to the disk thread exactly once, and no block above the last.
      pub run-each_block_once :
          (k : ℕ) → 1 ≤ k → occurrences k (handed_over end.1) ≡ (if leb k n then 1 else 0)
      run-each_block_once k lo = ground (
        arith,
        ran.delivers.once k,
        missing_zero n (got_block n end.1.receiver.transfer.received) none_missing k lo,
      )

      -- When such a transfer is lossless and completes, the final count of lost blocks is 0.
      pub run-total_lost : total_lost n end.1.receiver.transfer.received ≡ 0
      run-total_lost = total_lost-eq-missing n end.1.receiver.transfer.received ∙ none_missing
