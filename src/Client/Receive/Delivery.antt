-- ===== src/Client/Receive/Delivery.antt =====
-- What a whole transfer delivers: the receive loop and the disk thread on any sequence of events.
use tsunami_udp.Prelude.{
  ℕ, ◌+◌, ◌-◌, ◌%◌, ◌≤◌, ◌≡◌, refl, ◌∙◌, subst, Bool, true, false, not, ◌&&◌, ◌||◌, ◌==◌, leb,
  if◌then◌else◌, arith, if_both, List, [], ◌∷◌, ◌++◌, append_assoc, Option, none, some,
}
use tsunami_udp.Protocol.{Status, ok, failed, Retransmission, block_terminate}
use tsunami_udp.Bitmap.{got_block, mark}
use tsunami_udp.Bitmap.Laws.{IsBitmap, got_block-mark}
use tsunami_udp.Ring.{
  Ring, Outcome, done, waits, null, exits, negative, max_blocks_queued, dump, list_from, peek, pop,
}
use tsunami_udp.Ring.Inv.{IsValid}
use tsunami_udp.Ring.Refine.Window.{list_from_pop}
use tsunami_udp.Client.Transfer.{Transfer}
use tsunami_udp.Client.Requests.{repeat_retransmit}
use tsunami_udp.Client.Receive.{
  Datagram, Policy, Environment, Turn, goes_on, skips, completes, aborts, stuck, count_arrival,
}
use tsunami_udp.Client.Receive.Iterate.{
  Receiver, Iteration, with_ring, after_put, put_in_ring, is_full, process, after_error, iterate,
}
use tsunami_udp.Client.Receive.Keep.{repeat_retransmit-IsSound}
use tsunami_udp.Client.Receive.Logic.{got_block-le}
use tsunami_udp.Client.Receive.Frame.{repeat_retransmit-SameFile}
use tsunami_udp.Client.Receive.Ends.{ends_well}
use tsunami_udp.Client.Receive.Complete.{IsReceiving, stores, process-IsProcessed}
use tsunami_udp.Client.Receive.Session.{
  Session, Event, arrives, disk_takes, disk_take, after_turn, run, numbered,
}

-- How many of the datagrams have the block number `k`.
unfoldable pub occurrences : ℕ → List Datagram → ℕ
occurrences k [] = 0
occurrences k (d ∷ ds) = (if d.block == k then 1 else 0) + occurrences k ds

occurrences-append :
    (k : ℕ) (xs ys : List Datagram) → occurrences k (xs ++ ys) ≡ occurrences k xs + occurrences k ys
unfolding occurrences
occurrences-append k [] ys = omega arith
occurrences-append k (d ∷ xs) ys = omega (arith, occurrences-append k xs ys)

-- All datagrams that were put into the ring: those that the disk thread took, and those still there.
abbrev pub handed_over : Session → List Datagram
handed_over s = s.taken ++ dump s.receiver.ring

-- Each received block of the file was handed over once, and nothing else was.
abbrev pub Once : ℕ → List Datagram → List ℕ → Type 0
Once n ds received =
    (k : ℕ) → occurrences k ds ≡ (if leb k n && got_block n received k then 1 else 0)

pub record IsDelivering (lossless : Bool) (n : ℕ) (s : Session) : Type 0 where
  pub receiving : IsReceiving lossless s.receiver
  pub count : s.receiver.transfer.block_count ≡ n
  pub once : Once n (handed_over s) s.receiver.transfer.received

Once-push :
    (n : ℕ) (ds : List Datagram) (d : Datagram) (received : List ℕ)
    → IsBitmap n received
    → got_block n received d.block ≡ false
    → Once n ds received
    → Once n (ds ++ d ∷ []) (mark received d.block)
Once-push n ds d received v new once k =
    let le = got_block-le n d.block received new in
    let e : d.block ≡ k → got_block n received k ≡ false =
      λ e. subst (λ j. got_block n received j ≡ false) e new in
    unfold occurrences in
    ground (
      arith,
      occurrences-append k ds (d ∷ []),
      once k,
      got_block-mark n d.block received v le k,
      e,
      le,
    )

Once-store :
    (n : ℕ) (taken ds : List Datagram) (d : Datagram) (received : List ℕ) (b : Bool)
    → IsBitmap n received
    → (b ≡ true → got_block n received d.block ≡ false)
    → Once n (taken ++ ds) received
    → Once n
        (taken ++ (if b then ds ++ d ∷ [] else ds))
        (if b then mark received d.block else received)
Once-store n taken ds d received false v new once = once
Once-store n taken ds d received true v new once =
    rw (← append_assoc taken ds (d ∷ [])) (Once-push n (taken ++ ds) d received v (new refl) once)

disk_take-transfer : (s : Session) → (disk_take s).receiver.transfer ≡ s.receiver.transfer
unfolding disk_take peek pop
disk_take-transfer s = ground arith

pub disk_take-ring : (s : Session) → IsValid s.receiver.ring → IsValid (disk_take s).receiver.ring
unfolding disk_take peek pop
disk_take-ring s v = ground (arith, v)

pub disk_take-idle :
    (s : Session)
    → s.receiver.ring.count_reserved ≡ 0
    → (disk_take s).receiver.ring.count_reserved ≡ 0
unfolding disk_take peek pop
disk_take-idle s e = ground arith

-- The disk thread takes from the front.
pub disk_take-handed_over :
    (s : Session) → IsValid s.receiver.ring → handed_over (disk_take s) ≡ handed_over s
unfolding disk_take peek pop dump
disk_take-handed_over s v =
    let r = s.receiver.ring in
    ground (
      arith,
      v.data_flag,
      v.base_in,
      list_from_pop r.datagrams r.base_data r.count_data,
      append_assoc s.taken (r.datagrams r.base_data ∷ [])
          (list_from r.datagrams ((r.base_data + 1) % max_blocks_queued) (r.count_data - 1)),
    )

module _ (policy : Policy) (n : ℕ) where
  abbrev pub J : Session → Type 0
  J s = IsDelivering policy.lossless n s

  pub disk_take-J : (s : Session) → J s → J (disk_take s)
  disk_take-J s v = record {
    receiving = record {
      sound = rw (disk_take-transfer s) v.receiving.sound;
      ring = disk_take-ring s v.receiving.ring;
      idle = disk_take-idle s v.receiving.idle;
    };
    count = rw (disk_take-transfer s) v.count;
    once = rw (disk_take-transfer s, disk_take-handed_over s v.receiving.ring) v.once;
  }

  pub process-J :
      (env : Environment) (s : Session)
      → 1 ≤ s.receiver.local.block
      → J s
      → J (record s { receiver = (process policy env s.receiver).receiver })
  process-J env s lo v =
      let p = process-IsProcessed policy env s.receiver v.receiving lo in
      record {
        receiving = p.keeps;
        count = p.count ∙ v.count;
        once = rw (p.queue, p.received) stored;
      }
    where
      t : Transfer
      t = s.receiver.transfer

      stored :
          Once n
            (s.taken
              ++ (if stores s.receiver
                  then dump s.receiver.ring ++ s.receiver.local ∷ []
                  else dump s.receiver.ring))
            (if stores s.receiver then mark t.received s.receiver.local.block else t.received)
      stored =
          Once-store n s.taken (dump s.receiver.ring) s.receiver.local t.received
            (stores s.receiver)
            (subst (λ m. IsBitmap m t.received) v.count v.receiving.sound.bitmap)
            (λ e.
              subst (λ m. got_block m t.received s.receiver.local.block ≡ false) v.count
                (ground arith))
            v.once

  pub receive-J :
      (d : Datagram) (s : Session)
      → J s
      → J (record s { receiver = record s.receiver { local = d } })
  receive-J d s v = record {
    receiving = record {
      sound = v.receiving.sound;
      ring = v.receiving.ring;
      idle = v.receiving.idle;
    };
    count = v.count;
    once = v.once;
  }

  -- A failed recvfrom first repeats the requests.
  pub repeat-J :
      (env : Environment) (s : Session)
      → J s
      → J (record s {
        receiver = record s.receiver {
          transfer = (repeat_retransmit env.control s.receiver.transfer).1;
        };
      })
  repeat-J env s v =
      let t = s.receiver.transfer in
      let same =
        repeat_retransmit-SameFile t env.control t
          (record { count = refl; received = refl; left = refl }) in
      record {
        receiving = record {
          sound = repeat_retransmit-IsSound policy.lossless env.control t v.receiving.sound;
          ring = v.receiving.ring;
          idle = v.receiving.idle;
        };
        count = same.count ∙ v.count;
        once = rw same.received v.once;
      }

  -- What an iteration leaves: the invariant; and at the end of a lossless transfer, no block.
  pub record Iterated (s : Session) (i : Iteration) : Type 0 where
    pub keeps : J (record s { receiver = i.receiver })
    pub ends : ends_well policy.lossless i.turn i.receiver.transfer.blocks_left ≡ true

  process-Iterated :
      (env : Environment) (s : Session)
      → 1 ≤ s.receiver.local.block
      → J s
      → Iterated s (process policy env s.receiver)
  process-Iterated env s lo v = record {
    keeps = process-J env s lo v;
    ends = (process-IsProcessed policy env s.receiver v.receiving lo).ends;
  }

  after_error-Iterated :
      (env : Environment) (s : Session) (status : Status) (t : Transfer)
      (sent : List Retransmission)
      → 1 ≤ s.receiver.local.block
      → J (record s { receiver = record s.receiver { transfer = t } })
      → Iterated s (after_error policy env s.receiver status t sent)
  unfolding after_error
  after_error-Iterated env s ok t sent lo v =
      let p =
        process-Iterated env (record s { receiver = record s.receiver { transfer = t } }) lo v in
      record { keeps = p.keeps; ends = p.ends }
  after_error-Iterated env s failed t sent lo v = record { keeps = v; ends = refl }

  pub iterate-Iterated :
      (env : Environment) (s : Session) (o : Option Datagram) (events : List Event)
      → numbered s.receiver.local.block (arrives env o ∷ events) ≡ true
      → J s
      → Iterated s (iterate policy env o s.receiver)
  unfolding iterate numbered
  iterate-Iterated env s (some d) events e v =
      let p =
        process-Iterated env (record s { receiver = record s.receiver { local = d } })
          (ground arith) (receive-J d s v) in
      record { keeps = p.keeps; ends = p.ends }
  iterate-Iterated env s none events e v =
      let again = repeat_retransmit env.control s.receiver.transfer in
      after_error-Iterated env s again.0 again.1 again.2 (ground arith) (repeat-J env s v)

  after_put-local :
      (env : Environment) (r : Receiver) (t : Transfer) (o : Outcome ℕ (Ring Datagram))
      → (after_put policy env r t o).receiver.local ≡ r.local
  unfolding after_put with_ring
  after_put-local env r t (done m ring) = refl
  after_put-local env r t waits = refl
  after_put-local env r t null = refl
  after_put-local env r t exits = refl
  after_put-local env r t negative = refl

  pub process-local :
      (env : Environment) (r : Receiver) → (process policy env r).receiver.local ≡ r.local
  unfolding process with_ring
  process-local env r =
      let t = count_arrival r.local.type r.transfer in
      let P = λ (i : Iteration). i.receiver.local ≡ r.local in
      if_both P (is_full r.ring) refl (
        if_both P (not (got_block t.block_count t.received r.local.block))
          (after_put-local env r t (put_in_ring r.local r.ring))
          (if_both P (r.local.type == block_terminate || t.restart_pending) refl refl))

  pub after_error-local :
      (env : Environment) (r : Receiver) (s : Status) (t : Transfer) (sent : List Retransmission)
      → (after_error policy env r s t sent).receiver.local ≡ r.local
  unfolding after_error
  after_error-local env r ok t sent = process-local env (record r { transfer = t })
  after_error-local env r failed t sent = refl

  -- The number in the buffer after an iteration is that of the datagram.
  pub numbered-rest :
      (env : Environment) (s : Session) (o : Option Datagram) (events : List Event)
      → numbered s.receiver.local.block (arrives env o ∷ events) ≡ true
      → numbered (iterate policy env o s.receiver).receiver.local.block events ≡ true
  unfolding numbered iterate
  numbered-rest env s (some d) events e =
      rw (process-local env (record s.receiver { local = d })) (ground arith)
  numbered-rest env s none events e =
      let again = repeat_retransmit env.control s.receiver.transfer in
      rw (after_error-local env s.receiver again.0 again.1 again.2) (ground arith)

  pub disk_take-local : (s : Session) → (disk_take s).receiver.local ≡ s.receiver.local
  unfolding disk_take peek pop
  disk_take-local s = ground arith

  -- What the loop leaves when it has ended, or the events have.
  pub record Ran (end : Turn × Session) : Type 0 where
    pub delivers : J end.1
    pub ends : ends_well policy.lossless end.0 end.1.receiver.transfer.blocks_left ≡ true

  after_turn-Ran :
      (turn : Turn) (s : Session) (rest : Turn × Session)
      → J s
      → ends_well policy.lossless turn s.receiver.transfer.blocks_left ≡ true
      → Ran rest
      → Ran (after_turn turn s rest)
  unfolding after_turn
  after_turn-Ran goes_on s rest v e w = w
  after_turn-Ran skips s rest v e w = w
  after_turn-Ran completes s rest v e w = record { delivers = v; ends = e }
  after_turn-Ran aborts s rest v e w = record { delivers = v; ends = e }
  after_turn-Ran stuck s rest v e w = record { delivers = v; ends = e }

  pub run-Ran :
      (events : List Event) (s : Session)
      → numbered s.receiver.local.block events ≡ true
      → J s
      → Ran (run policy events s)
  unfolding run numbered
  run-Ran [] s e v = record { delivers = v; ends = refl }
  run-Ran (disk_takes ∷ events) s e v =
      run-Ran events (disk_take s) (rw (disk_take-local s) e) (disk_take-J s v)
  run-Ran (arrives env o ∷ events) s e v =
      let i = iterate-Iterated env s o events e v in
      after_turn-Ran (iterate policy env o s.receiver).turn _ _ i.keeps i.ends (
        run-Ran events (record s { receiver = (iterate policy env o s.receiver).receiver })
          (numbered-rest env s o events e) i.keeps)
