-- ===== src/Ring/Inv.antt =====
-- The representation invariant of the ring, for the functions of client/ring.c.
use tsunami_udp.Prelude.{ℕ, ◌+◌, ◌≤◌, ◌<◌, ◌≡◌, ltb, arith}
use tsunami_udp.Ring.{
  Ring, Pthread, done, Setup, max_blocks_queued, cancel, confirm, pop, reserve_from, next_slot,
  store, create,
}

-- The flags say what the counts say, and one slot at most is reserved.
pub record IsValid {ℓ} {A : Type ℓ} (r : Ring A) : Type ℓ where
  pub base_in : r.base_data < max_blocks_queued
  pub fits : r.count_data + r.count_reserved ≤ max_blocks_queued
  pub one_reserved : r.count_reserved ≤ 1
  pub data_flag : r.data_ready ≡ ltb 0 r.count_data
  pub space_flag : r.space_ready ≡ ltb (r.count_data + r.count_reserved) max_blocks_queued

pub create-IsValid {ℓ} :
    {A : Type ℓ} (s : Setup) (garbage : ℕ → A) (size : ℕ) {r : Ring A}
    → create s garbage size ≡ done r tt
    → IsValid r
unfolding create
create-IsValid s garbage size e = ground arith

module _ {ℓ} {A : Type ℓ} where
  pub cancel-IsValid :
      (p : Pthread) {n : ℕ} {r r' : Ring A} → IsValid r → cancel p r ≡ done n r' → IsValid r'
  unfolding cancel
  cancel-IsValid p v e = ground arith

  pub confirm-IsValid :
      (p : Pthread) {n : ℕ} {r r' : Ring A} → IsValid r → confirm p r ≡ done n r' → IsValid r'
  unfolding confirm
  confirm-IsValid p v e = ground arith

  pub pop-IsValid :
      (p : Pthread) {n : ℕ} {r r' : Ring A} → IsValid r → pop p r ≡ done n r' → IsValid r'
  unfolding pop
  pop-IsValid p v e = ground arith

  pub reserve_from-IsValid :
      (p : Pthread) {n : ℕ} {r r' : Ring A}
      → IsValid r
      → reserve_from p (next_slot r) r ≡ done n r'
      → IsValid r'
  unfolding reserve_from next_slot
  reserve_from-IsValid p v e = ground arith

  pub store-IsValid : (n : ℕ) (d : A) {r : Ring A} → IsValid r → IsValid (store n d r)
  unfolding store
  store-IsValid n d v = ground arith
