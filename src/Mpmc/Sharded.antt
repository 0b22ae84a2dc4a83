-- ===== src/Mpmc/Sharded.antt =====
-- mpmc-work-queue-kata/cpp/src/sharded_queue.hpp: `ShardedQueue<T, N, P, C>`, its rings and what is
-- done to them; child Calls has the calls of the queue. A push is two steps, up to its publication
-- and from there, since a close may come between them.
pub mod Calls
pub mod Blocking
pub mod Valid
pub mod Lane
pub mod Known
pub mod Sides
pub mod Lossless
pub mod Turns
pub mod Robin
pub mod Drained
pub mod Returns
use principal_katas.Prelude.{
  ℕ, ◌+◌, ◌*◌, ◌/◌, ◌%◌, ◌≡◌, ◌⊎◌, inl, inr, Bool, true, false, Option, none, some, ◌==◌, leb,
  add64, sub64, put_at, if◌then◌else◌,
}
use principal_katas.Mpmc.Api.{Push, OpStats}
use principal_katas.Mpmc.EventCount.{EventCount, new_count, notify_one}

pub record Ring (A : Type 0) : Type 0 where
  pub tail : ℕ  -- (next position << 1) | closed
  pub cached_head : ℕ
  pub head : ℕ
  pub cached_tail : ℕ
  pub not_full : EventCount
  pub slots : ℕ → A

pub record Consumer : Type 0 where
  pub not_empty : EventCount
  pub next : ℕ

pub record Queue (A : Type 0) : Type 0 where
  pub rings : ℕ → Ring A
  pub consumers : ℕ → Consumer

abbrev pub new_ring : {A : Type 0} → (ℕ → A) → Ring A
new_ring slots = record {
  tail = 0;
  cached_head = 0;
  head = 0;
  cached_tail = 0;
  not_full = new_count;
  slots = slots;
}

-- the constructor, with what the slots of each ring hold at first
abbrev pub new_queue : {A : Type 0} → (ℕ → ℕ → A) → Queue A
new_queue slots = record {
  rings = λ p. new_ring (slots p);
  consumers = λ c. record { not_empty = new_count; next = 0 };
}

-- `word & kClosed` and `word >> 1`
abbrev pub is_closed : ℕ → Bool
is_closed word = word % 2 == 1

abbrev pub position : ℕ → ℕ
position word = word / 2

-- `kFullWakeEvery`
abbrev pub full_wake_every : ℕ → ℕ
full_wake_every ring_slots = if leb 128 ring_slots then 64 else ring_slots / 2

module _ {A : Type 0} where
  -- `fetch_or(kClosed)`
  unfoldable pub close_ring : Ring A → Ring A
  close_ring r = record r { tail = if is_closed r.tail then r.tail else r.tail + 1 }

  -- the compare-and-swap that publishes
  unfoldable pub commit : ℕ → Ring A → Bool × Ring A
  commit word r = if r.tail == word then (true, record r { tail = add64 word 2 }) else (false, r)

  -- the consumer's second look, taken only if its own view says empty
  abbrev pub refresh_tail : Ring A → Ring A
  refresh_tail r = if r.head == r.cached_tail then record r { cached_tail = position r.tail } else r

module _ {A : Type 0} (ring_slots : ℕ) where
  -- the producer's second look, taken only if its own view says full
  abbrev pub refresh_head : Ring A → Ring A
  refresh_head r =
      if sub64 (position r.tail) r.cached_head == ring_slots
      then record r { cached_head = r.head }
      else r

  -- `try_push` up to its compare-and-swap: refused, or the word that it is to be made on
  unfoldable pub push_begin : A → Ring A → (Push ⊎ ℕ) × Ring A
  push_begin v r =
      let r' = refresh_head r in
      let pos = position r.tail in
      if is_closed r.tail
      then (inl Push.closed, r)
      else if sub64 pos r'.cached_head == ring_slots
      then (inl Push.full, r')
      else (inr r.tail, record r' { slots = put_at r'.slots (pos % ring_slots) v })

  -- `pop_ring`: the event moved out, whether it woke the producer, and the ring
  unfoldable pub pop_ring : Ring A → Option A × Bool × Ring A
  unfolding notify_one
  pop_ring r =
      let r' = refresh_tail r in
      let h = r'.head in
      if h == r'.cached_tail
      then (none, false, r')
      else let taken : Ring A = record r' { head = add64 h 1 } in
        let (woke, wakes, ec) = notify_one true r'.not_full in
        if h % full_wake_every ring_slots == 0
        then (some (r'.slots (h % ring_slots)), woke, record taken { not_full = ec })
        else (some (r'.slots (h % ring_slots)), false, taken)
