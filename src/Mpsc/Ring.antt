-- ===== src/Mpsc/Ring.antt =====
-- mpsc-event-pipeline-kata/cpp/src/spsc_ring.hpp: `SpscRing<T, Capacity>`. Its 64-bit indices run
-- freely and wrap; `& kMask` is the remainder by the capacity. The array of slots is a function of
-- the index.
pub mod Valid
pub mod Refine
pub mod Race
use principal_katas.Prelude.{
  ℕ, zero, suc, ◌+◌, ◌%◌, ◌^◌, ◌≤◌, ◌<◌, ◌≡◌, Bool, true, false, ◌&&◌, List, [], ◌∷◌, ◌==◌, add64,
  sub64, min, put_at, if◌then◌else◌,
}
use Prim.Native.Nat.{◌∣◌}

pub record Ring {ℓ} (A : Type ℓ) : Type ℓ where
  pub tail : ℕ
  pub cached_head : ℕ
  pub head : ℕ
  pub cached_tail : ℕ
  pub slots : ℕ → A

module _ {ℓ} {A : Type ℓ} (capacity : ℕ) where
  -- the producer's second look, taken only if its own view says full
  abbrev pub refresh_head : Ring A → Ring A
  refresh_head r =
      if sub64 r.tail r.cached_head == capacity then record r { cached_head = r.head } else r

  unfoldable pub try_push : A → Ring A → Bool × Ring A
  try_push value r =
      let r' = refresh_head r in
      if sub64 r'.tail r'.cached_head == capacity then (false, r') else (
        true,
        record r' { slots = put_at r'.slots (r'.tail % capacity) value; tail = add64 r'.tail 1 },
      )

  -- the consumer's second look, taken only if its own view says empty
  abbrev pub refresh_tail : Ring A → Ring A
  refresh_tail r = if r.head == r.cached_tail then record r { cached_tail = r.tail } else r

  -- `for (i = 0; i < n; ++i) out[i] = slots_[(h + i) & kMask]`, from round `i` for `left` rounds
  unfoldable pub copy_out : (ℕ → A) → ℕ → ℕ → ℕ → List A
  copy_out slots h i zero = []
  copy_out slots h i (suc left) = slots (add64 h i % capacity) ∷ copy_out slots h (i + 1) left

  -- The list is what is written to `out`, as many as are returned.
  unfoldable pub pop_batch : ℕ → Ring A → ℕ × List A × Ring A
  unfolding copy_out
  pop_batch max_items r =
      let r' = refresh_tail r in
      if r'.head == r'.cached_tail
      then (0, [], r')
      else let n = min max_items (sub64 r'.cached_tail r'.head) in
        (n, copy_out r'.slots r'.head 0 n, record r' { head = add64 r'.head n })

module _ {ℓ} {A : Type ℓ} where
  unfoldable pub producer_size_hint : Ring A → ℕ
  producer_size_hint r = sub64 r.tail r.cached_head

  unfoldable pub empty_now : Ring A → Bool × Ring A
  empty_now r = let r' = record r { cached_tail = r.tail } in (r'.head == r'.cached_tail, r')

  unfoldable pub size_now : Ring A → ℕ
  size_now r = sub64 r.tail r.head

  -- a ring as constructed, over value-initialized slots
  abbrev pub new_ring : (ℕ → A) → Ring A
  new_ring slots = record { tail = 0; cached_head = 0; head = 0; cached_tail = 0; slots = slots }
