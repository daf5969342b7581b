-- ===== src/Protocol.antt =====
-- What client and server share: tsunami-udp/include/tsunami.h and common/common.c.
use tsunami_udp.Prelude.{ℕ, List}

-- REQUEST_RETRANSMIT, REQUEST_RESTART, REQUEST_STOP, REQUEST_ERROR_RATE
abbrev pub request_retransmit_type : ℕ
request_retransmit_type = 0

abbrev pub request_restart_type : ℕ
request_restart_type = 1

abbrev pub request_stop_type : ℕ
request_stop_type = 2

abbrev pub request_error_rate_type : ℕ
request_error_rate_type = 3

-- TS_BLOCK_ORIGINAL, TS_BLOCK_TERMINATE, TS_BLOCK_RETRANSMISSION
abbrev pub block_original : ℕ
block_original = b'O'

abbrev pub block_terminate : ℕ
block_terminate = b'X'

abbrev pub block_retransmission : ℕ
block_retransmission = b'R'

-- `retransmission_t`, in host byte order.
pub record Retransmission : Type 0 where
  pub request_type : ℕ
  pub block : ℕ
  pub error_rate : ℕ

-- 0 and -1, the results of the functions that call `warn`.
pub data Status : Type 0 where
  ok : Status
  failed : Status

-- A block as it travels: number, type, and the bytes of `block_size`.
pub record Datagram : Type 0 where
  pub block : ℕ
  pub type : ℕ
  pub payload : List ℕ
