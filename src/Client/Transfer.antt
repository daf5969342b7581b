-- ===== src/Client/Transfer.antt =====
-- The client's state of a transfer: the structures of tsunami-udp/include/tsunami-client.h.
-- Left out: the file handles, the names, the times, and the rates in floating point.
use tsunami_udp.Prelude.{ℕ, Bool, List}

-- `retransmit_t`
pub record RetransmitTable : Type 0 where
  pub table : List ℕ
  pub table_size : ℕ
  pub index_max : ℕ

-- The counters of `statistics_t`.
pub record Statistics : Type 0 where
  pub this_blocks : ℕ
  pub this_retransmits : ℕ
  pub total_blocks : ℕ
  pub total_retransmits : ℕ
  pub total_recvd_retransmits : ℕ
  pub this_flow_originals : ℕ
  pub this_flow_retransmitteds : ℕ

-- `ttp_transfer_t`, without its ring buffer.
pub record Transfer : Type 0 where
  pub block_count : ℕ
  pub next_block : ℕ
  pub gapless_to_block : ℕ
  pub retransmit : RetransmitTable
  pub stats : Statistics
  pub received : List ℕ
  pub blocks_left : ℕ
  pub restart_pending : Bool
  pub restart_lastidx : ℕ
  pub restart_wireclearidx : ℕ
  pub on_wire_estimate : ℕ

-- MAX_RETRANSMISSION_BUFFER
abbrev pub max_retransmission_buffer : ℕ
max_retransmission_buffer = 2048
