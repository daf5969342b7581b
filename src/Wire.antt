-- ===== src/Wire.antt =====
-- Numbers on the wire: htonll and ntohll of tsunami-udp/common/common.c, on a host of either byte
-- order. htonl is the C library's: network byte order is big-endian.
pub mod Laws
pub mod Connection
mod Tests
use tsunami_udp.Prelude.{
  ℕ, zero, suc, ◌+◌, ◌*◌, ◌/◌, ◌%◌, ◌^◌, Bool, true, false, List, [], ◌∷◌, ◌++◌, if◌then◌else◌,
}

-- The bytes of a number, the most significant first.
unfoldable pub to_bytes : ℕ → ℕ → List ℕ
to_bytes zero n = []
to_bytes (suc k) n = to_bytes k (n / 256) ++ n % 256 ∷ []

-- The number that such bytes stand for, after those that were read before.
unfoldable pub from_bytes : ℕ → List ℕ → ℕ
from_bytes before [] = before
from_bytes before (b ∷ bytes) = from_bytes (before * 256 + b) bytes

pub data Host : Type 0 where
  little_endian : Host
  big_endian : Host

-- The bytes of a number in the memory of the host.
unfoldable pub stored : Host → ℕ → ℕ → List ℕ
stored big_endian k n = to_bytes k n
stored little_endian zero n = []
stored little_endian (suc k) n = n % 256 ∷ stored little_endian k (n / 256)

-- The number that the bytes in the memory of the host stand for.
unfoldable pub from_stored : Host → List ℕ → ℕ
unfolding from_bytes
from_stored big_endian bytes = from_bytes 0 bytes
from_stored little_endian [] = 0
from_stored little_endian (b ∷ bytes) = b + 256 * from_stored little_endian bytes

unfoldable pub swap32 : ℕ → ℕ
swap32 n = n % 256 * 2 ^ 24 + n / 2 ^ 8 % 256 * 2 ^ 16 + n / 2 ^ 16 % 256 * 2 ^ 8 + n / 2 ^ 24 % 256

-- `htonl`
unfoldable pub htonl : Host → ℕ → ℕ
unfolding swap32
htonl little_endian n = swap32 n
htonl big_endian n = n

-- `htonll`: `necessary` is true on a little-endian host. The two halves do not overlap, so that `|` is
-- `+`; `& 0xffffffff` and `>> 32` are `%` and `/`.
unfoldable pub htonll : Host → ℕ → ℕ
unfolding htonl
htonll little_endian value =
    htonl little_endian (value % 2 ^ 32) * 2 ^ 32 + htonl little_endian (value / 2 ^ 32)
htonll big_endian value = value

-- `ntohll`
unfoldable pub ntohll : Host → ℕ → ℕ
unfolding htonll
ntohll host value = htonll host value
