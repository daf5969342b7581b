-- ===== src/Client/Receive.antt =====
-- The receive loop of command_get in tsunami-udp/client/command.c, one iteration as one function.
pub mod Iterate
pub mod Keep
pub mod Logic
pub mod Frame
pub mod Insert
pub mod Ends
pub mod Complete
pub mod Session
pub mod Delivery
pub mod Guarantees
pub mod Origin
pub mod Tests
use tsunami_udp.Prelude.{
  ℕ, zero, suc, ◌+◌, ◌-◌, ◌%◌, min, Bool, true, false, not, ◌&&◌, List, [], ◌∷◌, ◌++◌, ltb, leb,
  ◌==◌, if◌then◌else◌,
}
use tsunami_udp.Prelude.Words.{add32, sub32}
use tsunami_udp.Protocol.{
  Retransmission, Status, ok, failed, block_original, block_terminate, block_retransmission,
  request_error_rate_type,
}
pub use tsunami_udp.Protocol.{Datagram}
use tsunami_udp.Bitmap.{got_block, mark, advance}
use tsunami_udp.Client.Transfer.{Transfer}
use tsunami_udp.Client.Requests.{Control, request_retransmit, repeat_retransmit}

-- The parameters that the loop reads.
pub record Policy : Type 0 where
  pub lossless : Bool
  pub losswindow_ms : ℕ

-- What the environment decides in one iteration: whether realloc succeeds; the two uses of the
-- control connection; the blocks inside the loss window, from rates in floating point, rounded up;
-- whether UPDATE_PERIOD has passed; and the error rate, rounded down.
pub record Environment : Type 0 where
  pub realloc : Bool
  pub control : Control
  pub feedback : Control
  pub window : ℕ
  pub due : Bool
  pub error_rate : ℕ

-- How a part of the loop ends: it goes on; `goto send_stats`; `break`; `goto abort`; or a call of
-- ring.c does not return.
pub data Turn : Type 0 where
  goes_on : Turn
  skips : Turn
  completes : Turn
  aborts : Turn
  stuck : Turn

pub record Progress : Type 0 where
  pub turn : Turn
  pub transfer : Transfer
  pub sent : List Retransmission

abbrev on_turn : Turn → Progress → Progress → Progress
on_turn goes_on p q = q
on_turn skips p q = p
on_turn completes p q = p
on_turn aborts p q = p
on_turn stuck p q = p

-- The next part of the loop, if the first goes on.
infixl 5 ◌>>>◌
abbrev pub ◌>>>◌ : Progress → (Transfer → Progress) → Progress
p >>> f =
    let q = f p.transfer in
    on_turn p.turn p (record { turn = q.turn; transfer = q.transfer; sent = p.sent ++ q.sent })

abbrev pub quietly : Turn → Transfer → Progress
quietly turn t = record { turn = turn; transfer = t; sent = [] }

or_abort : Status → Transfer → Progress
or_abort ok t = quietly goes_on t
or_abort failed t = quietly aborts t

-- The statistics on received blocks.
pub count_arrival : ℕ → Transfer → Transfer
count_arrival type t = record t {
  stats =
      if type == block_retransmission
      then record t.stats {
        total_blocks = add32 t.stats.total_blocks 1;
        this_flow_retransmitteds = add32 t.stats.this_flow_retransmitteds 1;
        total_recvd_retransmits = add32 t.stats.total_recvd_retransmits 1;
      }
      else record t.stats {
        total_blocks = add32 t.stats.total_blocks 1;
        this_flow_originals = add32 t.stats.this_flow_originals 1;
      };
}

-- Marks the block as received.
pub accept : ℕ → Transfer → Transfer
accept block t = record t {
  received = mark t.received block;
  blocks_left = if ltb 0 t.blocks_left then t.blocks_left - 1 else t.blocks_left;
}

range_next : Status → Transfer → Status × Transfer → Status × Transfer
range_next ok t rest = rest
range_next failed t rest = (failed, t)

-- `for (block = from; block < to; ++block) ttp_request_retransmit(..)`, with the rounds left as the
-- first argument.
pub request_range : ℕ → Bool → ℕ → Transfer → Status × Transfer
unfolding range_next
request_range zero realloc from t = (ok, t)
request_range (suc rounds) realloc from t =
    let (s, t') = request_retransmit realloc t from in
    let rest = request_range rounds realloc (from + 1) t' in range_next s t' rest

pub requests_between : Bool → ℕ → ℕ → Transfer → Progress
unfolding or_abort
requests_between realloc from to t =
    let (s, t') = request_range (to - from) realloc from t in or_abort s t'

-- The first block inside the loss window.
pub earliest_block : Environment → ℕ → Transfer → ℕ
earliest_block env this_block t =
    sub32 this_block (min env.window (sub32 this_block t.gapless_to_block))

-- Hop over the missing section.
pub hop_to : ℕ → Transfer → Progress
hop_to block t = quietly goes_on (record t { next_block = block; gapless_to_block = block })

-- Queue the retransmits that a jump ahead calls for.
pub queue_missing : Policy → Environment → ℕ → Transfer → Progress
queue_missing policy env this_block t =
    if not (ltb t.next_block this_block)
    then quietly goes_on t
    else if policy.lossless
    then requests_between env.realloc t.next_block this_block t
    else if policy.losswindow_ms == 0
    then quietly goes_on (record t { gapless_to_block = this_block })
    else (requests_between env.realloc (earliest_block env this_block t) this_block t
        >>> hop_to (earliest_block env this_block t))

-- The gapless part, the next block, and the end of a restart.
pub move_on : ℕ → ℕ → Transfer → Transfer
move_on this_block type t =
    let next = if type == block_original then add32 this_block 1 else t.next_block in
    record t {
      gapless_to_block = advance t.block_count t.received t.gapless_to_block;
      next_block = next;
      restart_pending =
          if t.restart_pending && leb t.restart_lastidx next then false else t.restart_pending;
    }

-- The list of requests is sent; its result is not looked at.
pub repeat_anyway : Environment → Transfer → Progress
repeat_anyway env t =
    let (s, t', sent) = repeat_retransmit env.control t in
    record { turn = goes_on; transfer = t'; sent = sent }

-- Ask again for what is missing when the server has sent the last block.
pub ask_again : Environment → Transfer → Progress
ask_again env t =
    requests_between env.realloc (add32 t.gapless_to_block 1) t.block_count t >>> repeat_anyway env

-- The end of the transmission.
pub at_end : Policy → Environment → ℕ → Transfer → Progress
at_end policy env type t =
    if not (type == block_terminate)
    then quietly goes_on t
    else if t.blocks_left == 0
    then quietly completes t
    else if not policy.lossless && t.retransmit.index_max == 0 && not t.restart_pending
    then quietly completes t
    else ask_again env t

-- After a restart request: a block that was still on the wire.
pub on_the_wire : ℕ → ℕ → Transfer → Bool
on_the_wire this_block type t =
    t.restart_pending
    && not (type == block_terminate)
    && ltb t.restart_lastidx this_block
    && leb this_block t.restart_wireclearidx

pub after_queue : Policy → Environment → ℕ → ℕ → Transfer → Progress
after_queue policy env this_block type t = at_end policy env type (move_on this_block type t)

-- The transfer control logic, from the insertion of the block on.
pub control_logic : Policy → Environment → ℕ → ℕ → Transfer → Progress
control_logic policy env this_block type t =
    if on_the_wire this_block type t
    then quietly skips t
    else (queue_missing policy env this_block t >>> after_queue policy env this_block type)

-- `ttp_update_stats`: the error rate to the server, and new counters for the next interval.
pub update_stats : Environment → Transfer → Transfer × List Retransmission
update_stats env t =
    let message : Retransmission = record {
      request_type = request_error_rate_type;
      block = 0;
      error_rate = env.error_rate;
    } in
    if not env.feedback.write
    then (t, [])
    else if not env.feedback.flush
    then (t, message ∷ [])
    else (
      record t {
        stats = record t.stats {
          this_blocks = t.stats.total_blocks;
          this_retransmits = 0;
          this_flow_originals = 0;
          this_flow_retransmitteds = 0;
        };
      },
      message ∷ [],
    )

feedback_after : Environment → Status → Transfer → List Retransmission → Progress
feedback_after env failed t sent = record { turn = aborts; transfer = t; sent = sent }
feedback_after env ok t sent =
    let (t', message) = update_stats env t in
    record { turn = goes_on; transfer = t'; sent = sent ++ message }

-- `send_stats:`
pub send_stats : Environment → Transfer → Progress
unfolding feedback_after
send_stats env t =
    if t.stats.total_blocks % 50 == 0 && env.due
    then (let (s, t', sent) = repeat_retransmit env.control t in feedback_after env s t' sent)
    else quietly goes_on t

-- The control logic, then `send_stats` unless the loop was left.
pub finish : Environment → Progress → Progress
finish env p =
    let q = send_stats env p.transfer in
    let both : Progress = record {
      turn = q.turn;
      transfer = q.transfer;
      sent = p.sent ++ q.sent;
    } in
    elim p.turn [ goes_on ↦ both | skips ↦ both | completes ↦ p | aborts ↦ p | stuck ↦ p ]
