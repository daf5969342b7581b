-- ===== src/Authentication.antt =====
-- The authentication of the client: prepare_proof in tsunami-udp/common/common.c, and the two
-- functions ttp_authenticate, in tsunami-udp/client/protocol.c and tsunami-udp/server/protocol.c.
-- MD5 is a parameter. Strings are without their final zero.
pub mod Laws
mod Tests
use Prim.Native.Nat.{bit_xor}
use tsunami_udp.Prelude.{
  ℕ, zero, suc, ◌+◌, ◌%◌, Bool, true, false, ◌&&◌, List, [], ◌∷◌, Option, none, some, ◌==◌,
  if◌then◌else◌, get_or, length,
}
use tsunami_udp.Wire.Connection.{
  Action, failed, hangs, ends, check, or_fail, or_fault, ◌>>=◌, ◌>>◌, send, full_write, read_or,
  fread,
}

-- The secret, repeated, XORed over the buffer from an offset on.
unfoldable pub xor_secret : List ℕ → ℕ → List ℕ → List ℕ
xor_secret secret offset [] = []
xor_secret secret offset (b ∷ buffer) =
    bit_xor b (get_or secret (offset % length secret) 0) ∷ xor_secret secret (offset + 1) buffer

-- The comparison of the digests, byte by byte.
unfoldable pub same_digest : List ℕ → List ℕ → Bool
same_digest [] [] = true
same_digest [] (y ∷ ys) = false
same_digest (x ∷ xs) [] = false
same_digest (x ∷ xs) (y ∷ ys) = x == y && same_digest xs ys

-- So many bytes as they come.
abbrev pub as_bytes : List ℕ → List ℕ
as_bytes bytes = bytes

-- The answer of the server: the byte 0, or the byte 1 and a failure.
unfoldable pub answer : Bool → Action (Unit {0})
answer same = if same then full_write (0 ∷ []) else full_write (1 ∷ []) >> ends failed

module _ (md5_digest : List ℕ → List ℕ) where
  -- `prepare_proof`; the remainder by the length of an empty secret is a fault.
  unfoldable pub prepare_proof : List ℕ → List ℕ → Option (List ℕ)
  unfolding xor_secret
  prepare_proof secret [] = some (md5_digest [])
  prepare_proof secret (b ∷ buffer) =
      if length secret == 0 then none else some (md5_digest (xor_secret secret 0 (b ∷ buffer)))

  -- `ttp_authenticate` of the client
  unfoldable pub client_authenticate : List ℕ → Action (Unit {0})
  unfolding prepare_proof
  client_authenticate secret = do
    random ← read_or failed 64 as_bytes
    digest ← or_fault (prepare_proof secret random)
    send digest
    result ← fread 1
    check (result == 0)

  -- `ttp_authenticate` of the server, with what get_random_data gives.
  unfoldable pub server_authenticate : Option (List ℕ) → List ℕ → Action (Unit {0})
  unfolding prepare_proof same_digest answer
  server_authenticate random_data secret = do
    random ← or_fail random_data
    full_write random
    client_digest ← read_or hangs 16 as_bytes
    server_digest ← or_fault (prepare_proof secret random)
    answer (same_digest client_digest server_digest)
