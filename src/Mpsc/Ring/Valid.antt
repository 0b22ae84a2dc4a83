-- ===== src/Mpsc/Ring/Valid.antt =====
-- The invariant of the ring, under wrap-around: the head lies at most a capacity behind the tail,
-- the producer's copy of the head between a capacity behind and the head itself, and the
-- consumer's copy of the tail between the head and the tail.
use Prim.Native.Nat.{◌∣◌}
use principal_katas.Prelude.{ℕ, ◌^◌, ◌≤◌, ◌<◌, arith, sub64}
use principal_katas.Mpsc.Ring.{Ring, try_push, pop_batch, empty_now, new_ring}

-- `Capacity` is a power of two that fits 64 bits, so it divides 2^64.
pub record IsCapacity (capacity : ℕ) : Type 0 where
  pub large : 2 ≤ capacity
  pub small : capacity ≤ 2 ^ 63
  pub divides : capacity ∣ 2 ^ 64

module _ {ℓ} {A : Type ℓ} (capacity : ℕ) where
  pub record IsValid (r : Ring A) : Type 0 where
    pub tail_in : r.tail < 2 ^ 64
    pub head_in : r.head < 2 ^ 64
    pub cached_head_in : r.cached_head < 2 ^ 64
    pub cached_tail_in : r.cached_tail < 2 ^ 64
    pub behind : sub64 r.tail r.head ≤ sub64 r.tail r.cached_head
    pub bounded : sub64 r.tail r.cached_head ≤ capacity
    pub ahead : sub64 r.cached_tail r.head ≤ sub64 r.tail r.head

  pub new_ring-IsValid : (slots : ℕ → A) → IsValid (new_ring slots)
  new_ring-IsValid slots = omega arith

  module _ (cap_ok : IsCapacity capacity) where
    pub try_push-IsValid : {r : Ring A} (v : A) → IsValid r → IsValid (try_push capacity v r).1
    unfolding try_push
    try_push-IsValid v h = ground arith

    pub pop_batch-IsValid : {r : Ring A} (n : ℕ) → IsValid r → IsValid (pop_batch capacity n r).2
    unfolding pop_batch
    pop_batch-IsValid n h = ground arith

    pub empty_now-IsValid : {r : Ring A} → IsValid r → IsValid (empty_now r).1
    unfolding empty_now
    empty_now-IsValid h = ground arith
