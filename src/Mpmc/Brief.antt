-- ===== src/Mpmc/Brief.antt =====
-- mpmc-work-queue-kata/cpp/src/brief_queue.hpp: `MPMCQueue<T, N>` of the brief, which is kept to be
-- broken. A push is two accesses that others may come between.
use principal_katas.Prelude.{
  ℕ, ◌+◌, ◌%◌, ◌^◌, ◌<◌, ◌≡◌, refl, ap, ◌∙◌, Bool, true, Option, none, some, ◌==◌, arith, add64,
  put_at, if◌then◌else◌,
}
use native.Mathlib.Nat.{add-mod_right}

pub record Queue (A : Type 0) : Type 0 where
  pub buffer : ℕ → A
  pub head : ℕ
  pub tail : ℕ

module _ {A : Type 0} (n_slots : ℕ) where
  -- `tail_.fetch_add(1)`, and the write that follows
  unfoldable pub reserve : Queue A → ℕ × Queue A
  reserve q = (q.tail, record q { tail = add64 q.tail 1 })

  unfoldable pub write : ℕ → A → Queue A → Queue A
  write pos v q = record q { buffer = put_at q.buffer (pos % n_slots) v }

  unfoldable pub push : A → Queue A → Bool × Queue A
  unfolding reserve write
  push v q = let (pos, q') = reserve q in (true, write pos v q')

  unfoldable pub pop : Queue A → Option A × Queue A
  pop q =
      if q.head == q.tail
      then (none, q)
      else (some (q.buffer (q.head % n_slots)), record q { head = add64 q.head 1 })

  -- In a queue that holds its number of slots, with positions below 2^63, a push is accepted all the
  -- same, and the next pop returns the pushed event: the oldest is lost.
  pub full_push_loses :
      (v : A) (q : Queue A)
      → q.tail ≡ q.head + n_slots
      → q.tail < 2 ^ 63
      → let (ok, q') = push v q in (ok ≡ true) × ((pop q').0 ≡ some v)
  unfolding push pop
  full_push_loses v q full small =
      (refl, ground (arith, ap (λ t. t % n_slots) full ∙ add-mod_right q.head n_slots))

  -- In an empty queue, with positions below 2^63, a pop between a push's reservation and its write
  -- returns what the slot held before, and the queue is then empty: the pushed event is not
  -- delivered.
  pub hole_is_read :
      (v : A) (q : Queue A)
      → q.head ≡ q.tail
      → q.tail < 2 ^ 63
      → let (pos, reserved) = reserve q in
        let (got, popped) = pop reserved in
        (got ≡ some (q.buffer (q.head % n_slots))) × ((pop (write pos v popped)).0 ≡ none)
  unfolding reserve write pop
  hole_is_read v q empty small = (ground arith, ground arith)
