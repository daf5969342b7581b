-- ===== src/Client/Receive/Iterate.antt =====
-- One iteration of the receive loop, with the ring and the datagram buffer.
use tsunami_udp.Prelude.{
  ℕ, Bool, false, not, ◌||◌, List, ◌++◌, ◌==◌, if◌then◌else◌, Option, none, some,
}
use tsunami_udp.Protocol.{Retransmission, Status, ok, failed, block_terminate}
use tsunami_udp.Bitmap.{got_block}
use tsunami_udp.Ring.{
  Ring, Outcome, done, waits, null, exits, negative, full, reserve, confirm, store, calls_succeed,
}
use tsunami_udp.Client.Transfer.{Transfer}
use tsunami_udp.Client.Requests.{repeat_retransmit}
use tsunami_udp.Client.Receive.{
  Datagram, Policy, Environment, Turn, goes_on, aborts, stuck, Progress, quietly, count_arrival,
  accept, control_logic, finish,
}

-- `ring_reserve`, memcpy, `ring_confirm`.
unfoldable pub put_in_ring : Datagram → Ring Datagram → Outcome ℕ (Ring Datagram)
put_in_ring d r = elim (reserve calls_succeed r) [
  | done slot r' ↦ confirm calls_succeed (store slot d r')
  | waits ↦ waits
  | null ↦ null
  | exits ↦ exits
  | negative ↦ negative
]

-- `ring_full`, whose result is false on the calls that do not return.
unfoldable pub is_full : Ring Datagram → Bool
is_full r = elim (full calls_succeed r) [ done b r' ↦ b | other ↦ false ]

-- The state of the loop: `local` is the buffer that recvfrom fills.
pub record Receiver : Type 0 where
  pub transfer : Transfer
  pub ring : Ring Datagram
  pub local : Datagram

pub record Iteration : Type 0 where
  pub turn : Turn
  pub receiver : Receiver
  pub sent : List Retransmission

unfoldable pub with_ring : Receiver → Ring Datagram → Progress → Iteration
with_ring r ring p = record {
  turn = p.turn;
  receiver = record r { transfer = p.transfer; ring = ring };
  sent = p.sent;
}

unfoldable pub after_put :
    Policy → Environment → Receiver → Transfer → Outcome ℕ (Ring Datagram) → Iteration
unfolding with_ring
after_put policy env r t (done n ring) =
    let d = r.local in
    with_ring r ring (finish env (control_logic policy env d.block d.type (accept d.block t)))
after_put policy env r t waits = with_ring r r.ring (quietly stuck t)
after_put policy env r t null = with_ring r r.ring (quietly stuck t)
after_put policy env r t exits = with_ring r r.ring (quietly stuck t)
after_put policy env r t negative = with_ring r r.ring (quietly aborts t)

-- A block that is not there yet goes into the ring.
abbrev pub insert_block : Policy → Environment → Receiver → Transfer → Iteration
insert_block policy env r t = after_put policy env r t (put_in_ring r.local r.ring)

-- The loop body from the block number and type in the buffer on.
unfoldable pub process : Policy → Environment → Receiver → Iteration
unfolding with_ring
process policy env r =
    let d = r.local in
    let t = count_arrival d.type r.transfer in
    let got = got_block t.block_count t.received d.block in
    if is_full r.ring
    then with_ring r r.ring (finish env (quietly goes_on t))
    else if not got
    then insert_block policy env r t
    else if d.type == block_terminate || t.restart_pending
    then with_ring r r.ring (finish env (control_logic policy env d.block d.type t))
    else with_ring r r.ring (finish env (quietly goes_on t))

unfoldable pub after_error :
    Policy → Environment → Receiver → Status → Transfer → List Retransmission → Iteration
after_error policy env r failed t sent = record {
  turn = aborts;
  receiver = record r { transfer = t };
  sent = sent;
}
after_error policy env r ok t sent =
    let p = process policy env (record r { transfer = t }) in record p { sent = sent ++ p.sent }

-- One iteration: recvfrom gives a datagram, or fails. After a failure the requests are repeated, and
-- the loop goes on with what the buffer holds.
unfoldable pub iterate : Policy → Environment → Option Datagram → Receiver → Iteration
unfolding after_error
iterate policy env (some d) r = process policy env (record r { local = d })
iterate policy env none r =
    let (s, t, sent) = repeat_retransmit env.control r.transfer in after_error policy env r s t sent
