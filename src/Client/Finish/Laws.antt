-- ===== src/Client/Finish/Laws.antt =====
-- The disk thread ends at the stop block, and has taken all that was put into the ring.
use tsunami_udp.Prelude.{
  ℕ, zero, suc, ◌+◌, ◌-◌, ◌%◌, ◌≤◌, ◌<◌, ◌≡◌, ◌≢◌, refl, ap, sym, subst, ◌∙◌, false, ne→==_false,
  Bool-cases, inl, inr, if_both, arith, List, [], ◌∷◌, ◌++◌, append_assoc, append-nil, length, All,
  some,
}
use tsunami_udp.Ring.{Ring, done, peek, pop, dump, list_from, calls_succeed, max_blocks_queued}
use tsunami_udp.Ring.Inv.{IsValid}
use tsunami_udp.Ring.Refine.Window.{list_from_pop, length-dump}
use tsunami_udp.Client.Receive.{Datagram}
use tsunami_udp.Client.Receive.Iterate.{is_full}
use tsunami_udp.Client.Receive.Insert.{
  filled, is_full-eq, put_in_ring-filled, filled-IsValid, dump-filled,
}
use tsunami_udp.Client.Receive.Session.{Session, disk_take}
use tsunami_udp.Client.Receive.Delivery.{
  handed_over, disk_take-handed_over, disk_take-ring, disk_take-idle,
}
use tsunami_udp.Client.Finish.{
  disk_loop, takes, stop_block, with_stop, when_room, stop_and_join, end_transfer,
}

dump-cons :
    (r : Ring Datagram)
    → IsValid r
    → r.count_data ≢ 0
    → dump r
      ≡ r.datagrams r.base_data
        ∷ list_from r.datagrams ((r.base_data + 1) % max_blocks_queued) (r.count_data - 1)
unfolding dump
dump-cons r v n = list_from_pop r.datagrams r.base_data r.count_data v.base_in n

peek-returns :
    (r : Ring Datagram) → IsValid r → r.count_data ≢ 0 → peek calls_succeed r ≡ done r.base_data r
unfolding peek
peek-returns r v n = ground (arith, v.data_flag, n)

disk_take-taken :
    (s : Session)
    → IsValid s.receiver.ring
    → s.receiver.ring.count_data ≢ 0
    → ((disk_take s).taken ≡ s.taken ++ s.receiver.ring.datagrams s.receiver.ring.base_data ∷ [])
      × (dump (disk_take s).receiver.ring
          ≡ list_from s.receiver.ring.datagrams
              ((s.receiver.ring.base_data + 1) % max_blocks_queued)
              (s.receiver.ring.count_data - 1))
unfolding disk_take peek pop dump
disk_take-taken s v n = ground (arith, v.data_flag, n)

-- The disk thread on a ring that ends in the stop block.
disk_loop-stop :
    (ds : List Datagram) (rounds : ℕ) (s : Session) (stop : Datagram)
    → IsValid s.receiver.ring
    → dump s.receiver.ring ≡ ds ++ stop ∷ []
    → All (λ d. 1 ≤ d.block) ds
    → stop.block ≡ 0
    → length ds < rounds
    → disk_loop rounds s ≡ some (s.taken ++ ds)
unfolding disk_loop
disk_loop-stop ds zero s stop v e all z h = absurd (omega arith)
disk_loop-stop [] (suc rounds) s stop v e all z h =
    let r = s.receiver.ring in
    let n : r.count_data ≢ 0 = λ m. omega (arith, m, length-dump r, ap (λ t. length t) e) in
    let c = sym (dump-cons r v n) ∙ e in
    let first : (r.datagrams r.base_data).block ≡ 0 = ap (λ t. head_block t) c ∙ z in
    rw (disk_loop, peek-returns r v n, first, append-nil s.taken) refl
  where
    head_block : List Datagram → ℕ
    head_block [] = 0
    head_block (d ∷ ds) = d.block
disk_loop-stop (d ∷ ds) (suc rounds) s stop v e (lo, all) z h =
    let r = s.receiver.ring in
    let n : r.count_data ≢ 0 = λ m. omega (arith, m, length-dump r, ap (λ t. length t) e) in
    let c : r.datagrams r.base_data
          ∷ list_from r.datagrams ((r.base_data + 1) % max_blocks_queued) (r.count_data - 1)
        ≡ d ∷ (ds ++ stop ∷ []) =
      sym (dump-cons r v n) ∙ e in
    let first : r.datagrams r.base_data ≡ d = cc in
    let t = disk_take-taken s v n in
    let rest : dump (disk_take s).receiver.ring ≡ ds ++ stop ∷ [] = cc (t.1) in
    let ih =
      disk_loop-stop ds rounds (disk_take s) stop (disk_take-ring s v) rest all z
        (omega (arith, h)) in
    rw
      (
        disk_loop,
        peek-returns r v n,
        first,
        ne→==_false d.block 0 (λ m. omega (arith, m, lo)),
        ih,
        t.0,
        first,
        append_assoc s.taken (d ∷ []) ds,
      )
      refl

-- A session whose ring is in order, with no slot reserved.
pub record IsQuiet (s : Session) : Type 0 where
  pub ring : IsValid s.receiver.ring
  pub idle : s.receiver.ring.count_reserved ≡ 0

disk_take-IsQuiet : (s : Session) → IsQuiet s → IsQuiet (disk_take s)
disk_take-IsQuiet s q = record { ring = disk_take-ring s q.ring; idle = disk_take-idle s q.idle }

takes-IsQuiet : (n : ℕ) (s : Session) → IsQuiet s → IsQuiet (takes n s)
unfolding takes
takes-IsQuiet zero s q = q
takes-IsQuiet (suc n) s q = takes-IsQuiet n (disk_take s) (disk_take-IsQuiet s q)

takes-handed_over : (n : ℕ) (s : Session) → IsQuiet s → handed_over (takes n s) ≡ handed_over s
unfolding takes
takes-handed_over zero s q = refl
takes-handed_over (suc n) s q =
    takes-handed_over n (disk_take s) (disk_take-IsQuiet s q) ∙ disk_take-handed_over s q.ring

when_room-IsQuiet : (s : Session) → IsQuiet s → IsQuiet (when_room s)
unfolding when_room
when_room-IsQuiet s q = if_both IsQuiet (is_full s.receiver.ring) (disk_take-IsQuiet s q) q

when_room-handed_over : (s : Session) → IsQuiet s → handed_over (when_room s) ≡ handed_over s
unfolding when_room
when_room-handed_over s q =
    if_both (λ t. handed_over t ≡ handed_over s) (is_full s.receiver.ring)
      (disk_take-handed_over s q.ring) refl

disk_take-count :
    (s : Session)
    → IsQuiet s
    → (disk_take s).receiver.ring.count_data ≡ s.receiver.ring.count_data - 1
unfolding disk_take peek pop
disk_take-count s q = ground (arith, q.ring.data_flag)

-- A ring is full when it holds as many datagrams as it has slots.
room_left :
    (s : Session)
    → IsQuiet s
    → is_full s.receiver.ring ≡ false
    → s.receiver.ring.count_data < max_blocks_queued
room_left s q room =
    let e = sym (is_full-eq s.receiver.local s.receiver.ring q.ring q.idle) ∙ room in
    ground (arith, e)

disk_take-room : (s : Session) → IsQuiet s → is_full (disk_take s).receiver.ring ≡ false
disk_take-room s q =
    let t = disk_take-IsQuiet s q in
    is_full-eq s.receiver.local (disk_take s).receiver.ring t.ring t.idle
    ∙ ground (arith, disk_take-count s q, q.ring.fits)

when_room-room : (s : Session) → IsQuiet s → is_full (when_room s).receiver.ring ≡ false
unfolding when_room
when_room-room s q = elim (Bool-cases (is_full s.receiver.ring)) [
  | inl full ↦ rw full (disk_take-room s q)
  | inr room ↦ rw (room, room) refl
]

positive_right :
    (xs ys : List Datagram) → All (λ d. 1 ≤ d.block) (xs ++ ys) → All (λ d. 1 ≤ d.block) ys
positive_right [] ys all = all
positive_right (x ∷ xs) ys all = positive_right xs ys all.1

stop_and_join-takes :
    (rounds : ℕ) (leftover : Datagram) (s : Session)
    → IsQuiet s
    → is_full s.receiver.ring ≡ false
    → All (λ d. 1 ≤ d.block) (handed_over s)
    → max_blocks_queued ≤ rounds
    → stop_and_join rounds leftover s ≡ some (handed_over s)
unfolding stop_and_join
stop_and_join-takes rounds leftover s q room all h =
    let r = s.receiver.ring in
    let stop = stop_block leftover in
    rw (stop_and_join, put_in_ring-filled stop r q.ring q.idle room)
      (disk_loop-stop (dump r) rounds (with_stop s (filled stop r)) stop
        (filled-IsValid stop r q.ring q.idle room) (dump-filled stop r q.ring q.idle room)
        (positive_right s.taken (dump r) all) refl
        (omega (arith, h, room_left s q room, length-dump r)))

-- What the disk thread has taken when it ends: all that was put into the ring, in order. It ends within
-- as many rounds as the ring has slots.
pub end_transfer-takes :
    (rounds early : ℕ) (leftover : Datagram) (s : Session)
    → IsQuiet s
    → All (λ d. 1 ≤ d.block) (handed_over s)
    → max_blocks_queued ≤ rounds
    → end_transfer rounds early leftover s ≡ some (handed_over s)
unfolding end_transfer
end_transfer-takes rounds early leftover s q all h =
    let t = takes early s in
    let tq = takes-IsQuiet early s q in
    let same = when_room-handed_over t tq ∙ takes-handed_over early s q in
    stop_and_join-takes rounds leftover (when_room t) (when_room-IsQuiet t tq) (when_room-room t tq)
      (subst (λ ds. All (λ d. 1 ≤ d.block) ds) (sym same) all) h
    ∙ ap some same
