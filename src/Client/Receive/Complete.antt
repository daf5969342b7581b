-- ===== src/Client/Receive/Complete.antt =====
-- The receive loop of client/command.c as a whole: the start, one iteration, and the end.
use tsunami_udp.Prelude.{
  ◌≤◌, ◌≡◌, refl, Bool, true, false, not, ◌&&◌, ◌||◌, ◌==◌, if◌then◌else◌, [], ◌∷◌, ◌++◌,
  Bool-cases, inl, inr, if_both, subst, sym,
}
use tsunami_udp.Protocol.{block_terminate}
use tsunami_udp.Bitmap.{got_block, mark}
use tsunami_udp.Ring.{Ring, dump}
use tsunami_udp.Ring.Inv.{IsValid}
use tsunami_udp.Client.Transfer.{Transfer}
use tsunami_udp.Client.Receive.{
  Datagram, Policy, Environment, goes_on, Progress, quietly, count_arrival, accept, control_logic,
  finish,
}
use tsunami_udp.Client.Receive.Iterate.{
  Receiver, Iteration, is_full, with_ring, after_put, insert_block, process,
}
use tsunami_udp.Client.Receive.Keep.{IsSound, count_arrival-IsSound, finish-IsSound}
use tsunami_udp.Client.Receive.Logic.{accept-IsSound, control_logic-IsSound}
use tsunami_udp.Client.Receive.Frame.{SameFile, control_logic-SameFile, finish-SameFile}
use tsunami_udp.Client.Receive.Insert.{
  filled, put_in_ring-filled, filled-IsValid, filled-idle, dump-filled,
}
use tsunami_udp.Client.Receive.Ends.{ends_well, control_logic-Well, finish-Well}

-- The invariant between two iterations.
pub record IsReceiving (lossless : Bool) (r : Receiver) : Type 0 where
  pub sound : IsSound lossless r.transfer
  pub ring : IsValid r.ring
  pub idle : r.ring.count_reserved ≡ 0

-- The datagram is stored: there is room in the ring, and its block is not there yet.
abbrev pub stores : Receiver → Bool
stores r =
    not (is_full r.ring) && not (got_block r.transfer.block_count r.transfer.received r.local.block)

-- What an iteration with the datagram in the buffer does: the invariant, the bitfield, the ring, and
-- the end.
pub record IsProcessed (lossless : Bool) (r : Receiver) (i : Iteration) : Type 0 where
  pub keeps : IsReceiving lossless i.receiver
  pub count : i.receiver.transfer.block_count ≡ r.transfer.block_count
  pub received :
      i.receiver.transfer.received
      ≡ (if stores r then mark r.transfer.received r.local.block else r.transfer.received)
  pub queue : dump i.receiver.ring ≡ (if stores r then dump r.ring ++ r.local ∷ [] else dump r.ring)
  pub ends : ends_well lossless i.turn i.receiver.transfer.blocks_left ≡ true

-- The part after the insertion, on a transfer that holds the blocks of `u`.
module _ (policy : Policy) (env : Environment) (r : Receiver) (ring : Ring Datagram) where
  finish-IsProcessed :
      (u : Transfer) (p : Progress)
      → IsSound policy.lossless u
      → IsSound policy.lossless p.transfer
      → SameFile u p.transfer
      → ends_well policy.lossless p.turn p.transfer.blocks_left ≡ true
      → IsValid ring
      → ring.count_reserved ≡ 0
      → u.block_count ≡ r.transfer.block_count
      → u.received
        ≡ (if stores r then mark r.transfer.received r.local.block else r.transfer.received)
      → dump ring ≡ (if stores r then dump r.ring ++ r.local ∷ [] else dump r.ring)
      → IsProcessed policy.lossless r (with_ring r ring (finish env p))
  unfolding with_ring
  finish-IsProcessed u p su sp same w valid idle count received queue =
      let f = finish-SameFile u env p same in
      record {
        keeps = record {
          sound = finish-IsSound policy.lossless env p sp;
          ring = valid;
          idle = idle;
        };
        count = rw f.count count;
        received = rw f.received received;
        queue = queue;
        ends = finish-Well policy.lossless env p w;
      }

module _ (policy : Policy) (env : Environment) (r : Receiver)
    (v : IsReceiving policy.lossless r) where
  abbrev counted : Transfer
  counted = count_arrival r.local.type r.transfer

  counted-IsSound : IsSound policy.lossless counted
  counted-IsSound = count_arrival-IsSound policy.lossless r.local.type r.transfer v.sound

  -- The block is not stored, and no control logic runs.
  unchanged :
      stores r ≡ false
      → IsProcessed policy.lossless r (with_ring r r.ring (finish env (quietly goes_on counted)))
  unfolding count_arrival
  unchanged skip =
      finish-IsProcessed policy env r r.ring counted (quietly goes_on counted) counted-IsSound
        counted-IsSound (record { count = refl; received = refl; left = refl }) refl v.ring v.idle
        refl (rw skip refl) (rw skip refl)

  -- The block is not stored, but the control logic runs.
  controlled :
      stores r ≡ false
      → IsProcessed policy.lossless r (
          with_ring r r.ring
            (finish env (control_logic policy env r.local.block r.local.type counted)))
  unfolding count_arrival
  controlled skip =
      finish-IsProcessed policy env r r.ring counted
        (control_logic policy env r.local.block r.local.type counted) counted-IsSound
        (control_logic-IsSound policy env r.local.block r.local.type counted counted-IsSound)
        (control_logic-SameFile counted policy env r.local.block r.local.type)
        (control_logic-Well policy env r.local.block r.local.type counted) v.ring v.idle refl
        (rw skip refl) (rw skip refl)

  -- The block is stored.
  inserted :
      1 ≤ r.local.block
      → is_full r.ring ≡ false
      → got_block r.transfer.block_count r.transfer.received r.local.block ≡ false
      → IsProcessed policy.lossless r (insert_block policy env r counted)
  unfolding after_put count_arrival accept
  inserted lo room new =
      let u = accept r.local.block counted in
      let su = accept-IsSound policy.lossless r.local.block counted lo new counted-IsSound in
      let logic = control_logic policy env r.local.block r.local.type u in
      subst (λ o. IsProcessed policy.lossless r (after_put policy env r counted o))
        (sym (put_in_ring-filled r.local r.ring v.ring v.idle room))
        (finish-IsProcessed policy env r (filled r.local r.ring) u logic su
          (control_logic-IsSound policy env r.local.block r.local.type u su)
          (control_logic-SameFile u policy env r.local.block r.local.type)
          (control_logic-Well policy env r.local.block r.local.type u)
          (filled-IsValid r.local r.ring v.ring v.idle room)
          (filled-idle r.local r.ring v.ring v.idle room) refl (rw (room, new) refl)
          (rw (room, new) (dump-filled r.local r.ring v.ring v.idle room)))

  pub process-IsProcessed : 1 ≤ r.local.block → IsProcessed policy.lossless r (process policy env r)
  unfolding process count_arrival
  process-IsProcessed lo = elim (Bool-cases (is_full r.ring)) [
    | inl full_ ↦ rw full_ (unchanged (rw full_ refl))
    | inr room ↦
        elim (Bool-cases (got_block r.transfer.block_count r.transfer.received r.local.block)) [
          | inr new ↦ rw (room, new) (inserted lo room new)
          | inl got ↦
              rw (room, got)
                (if_both (IsProcessed policy.lossless r)
                  (r.local.type == block_terminate || r.transfer.restart_pending)
                  (controlled (rw (room, got) refl)) (unchanged (rw (room, got) refl)))
        ]
  ]
