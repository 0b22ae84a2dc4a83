-- ===== src/Mpmc/Turnstile.antt =====
-- mpmc-work-queue-kata/cpp/src/mpmc_queue.hpp: `Queue<T, N, O, Hooks>`, without its event counts.
-- What a thread does between two accesses that others can see is one step. The 64-bit positions do not reach 2^62.
pub mod Valid
pub mod Steps
pub mod Entries
pub mod Decide
pub mod Exclusive
pub mod Threads
pub mod Owned
pub mod Reached
pub mod Undisturbed
pub mod Calls
pub mod Quiet
pub mod Alone
pub mod Producer
pub mod Consumer
pub mod Answers
use principal_katas.Prelude.{
  ℕ, zero, suc, ◌+◌, ◌-◌, ◌*◌, ◌/◌, ◌%◌, ◌^◌, ◌≤◌, ◌<◌, ◌≡◌, ◌⊎◌, inl, inr, Bool, true, false, not,
  ◌&&◌, Option, none, some, ◌==◌, leb, sub64, add64, put_at, if◌then◌else◌,
}
use principal_katas.Mpmc.Api.{Push, Pop, OpStats}

-- `kDead`
abbrev pub dead_bit : ℕ
dead_bit = 2 ^ 63

-- `tail_`, which is (next position << 1) | closed, `head_`, and the slots' `seq` and `storage`
pub record Queue (A : Type 0) : Type 0 where
  pub tail : ℕ
  pub head : ℕ
  pub seq : ℕ → ℕ
  pub storage : ℕ → A

-- the constructor
abbrev pub new_queue : {A : Type 0} → (ℕ → A) → Queue A
new_queue storage = record { tail = 0; head = 0; seq = λ i. i; storage = storage }

-- `word & kClosed`, `word >> 1`, and `raw & ~kDead`
abbrev pub is_closed : ℕ → Bool
is_closed word = word % 2 == 1

abbrev pub position : ℕ → ℕ
position word = word / 2

abbrev pub undead : ℕ → ℕ
undead raw = raw % dead_bit

-- `(pos + 1) | kDead` for a position below 2^62
abbrev pub tombstone : ℕ → ℕ
tombstone pos = pos + 1 + dead_bit

-- `++st.retries`
abbrev pub retried : OpStats → OpStats
retried st = record st { retries = add64 st.retries 1 }

-- what a look at the slot of a position tells: the call is over, or the position is to be taken
-- by a compare-and-swap, or what was read of the tail or the head is out of date
pub data PushLook : Type 0 where
  stopped : Push → PushLook
  tries stale : PushLook

pub data PopLook : Type 0 where
  nothing : PopLook
  tries : Bool → PopLook  -- whether it is a tombstone
  stale : PopLook

-- how a round of the loop of `try_push` ends
pub data PushRound : Type 0 where
  refused : Push → PushRound
  reserved : ℕ → PushRound  -- the position is this producer's
  again : ℕ → PushRound  -- with the tail word read anew

-- how a round of the loop of `try_pop` ends
pub data PopRound : Type 0 where
  empty : PopRound
  claimed : ℕ → PopRound
  claimed_dead : ℕ → PopRound  -- a tombstone, to be released and passed over
  again : ℕ → PopRound  -- with the head read anew

module _ {A : Type 0} (n_slots : ℕ) where
  abbrev pub seq_of : Queue A → ℕ → ℕ
  seq_of q pos = q.seq (pos % n_slots)

  -- The look of a round of `try_push`, with the tail word read at an earlier time.
  unfoldable pub push_look : ℕ → Queue A → PushLook
  push_look word q =
      let pos = position word in
      let dif = sub64 (undead (seq_of q pos)) pos in
      if is_closed word
      then stopped Push.closed
      else if dif == 0
      then PushLook.tries
      else if leb dead_bit dif
      then stopped Push.full
      else PushLook.stale

  -- `tail_.compare_exchange_weak(word, word + 2)`, which may also fail for no reason
  unfoldable pub push_claim : Bool → ℕ → Queue A → PushRound × Queue A
  push_claim spurious word q =
      if q.tail == word && not spurious
      then (reserved (position word), record q { tail = word + 2 })
      else (again q.tail, q)

  -- A round of the loop of `try_push` in which no other thread comes between.
  unfoldable pub push_round : Bool → ℕ → Queue A → PushRound × Queue A
  push_round spurious word q = elim (push_look word q) [
    | stopped p ↦ (refused p, q)
    | PushLook.tries ↦ push_claim spurious word q
    | PushLook.stale ↦ (PushRound.again q.tail, q)
  ]

  -- `tail_.fetch_add(2)` of a ticket push: the word it returns
  unfoldable pub take_ticket : Queue A → ℕ × Queue A
  take_ticket q = (q.tail, record q { tail = q.tail + 2 })

  -- what `await_turn` waits for
  abbrev pub is_turn : ℕ → Queue A → Bool
  is_turn pos q = seq_of q pos == pos

  -- `publish`
  unfoldable pub publish : ℕ → A → Queue A → Queue A
  publish pos v q = record q {
    seq = put_at q.seq (pos % n_slots) (pos + 1);
    storage = put_at q.storage (pos % n_slots) v;
  }

  -- The end of a ticket push, when its turn has come: closed before the ticket, it pays with a
  -- tombstone and is refused.
  unfoldable pub pay_ticket : ℕ → A → Queue A → Push × Queue A
  unfolding publish
  pay_ticket word v q =
      let pos = position word in
      if is_closed word
      then (Push.closed, record q { seq = put_at q.seq (pos % n_slots) (tombstone pos) })
      else (Push.ok, publish pos v q)

  -- The look of a round of `try_pop`, with the head read at an earlier time.
  unfoldable pub pop_look : ℕ → Queue A → PopLook
  pop_look pos q =
      let raw = seq_of q pos in
      let dif = sub64 (undead raw) (pos + 1) in
      if dif == 0
      then PopLook.tries (leb dead_bit raw)
      else if leb dead_bit dif
      then nothing
      else PopLook.stale

  -- `head_.compare_exchange_weak(pos, pos + 1)`, which may also fail for no reason
  unfoldable pub pop_claim : Bool → Bool → ℕ → Queue A → PopRound × Queue A
  pop_claim spurious dead pos q =
      if q.head == pos && not spurious
      then (if dead then claimed_dead pos else claimed pos, record q { head = pos + 1 })
      else (again q.head, q)

  -- A round of the loop of `try_pop` in which no other thread comes between.
  unfoldable pub pop_round : Bool → ℕ → Queue A → PopRound × Queue A
  pop_round spurious pos q = elim (pop_look pos q) [
    | nothing ↦ (PopRound.empty, q)
    | PopLook.tries dead ↦ pop_claim spurious dead pos q
    | PopLook.stale ↦ (PopRound.again q.head, q)
  ]

  -- `slot(pos).seq.store(pos + N)` of `release`
  unfoldable pub release : ℕ → Queue A → Queue A
  release pos q = record q { seq = put_at q.seq (pos % n_slots) (pos + n_slots) }

  -- `consume`
  unfoldable pub consume : ℕ → Queue A → A × Queue A
  unfolding release
  consume pos q = (q.storage (pos % n_slots), release pos q)

  -- `head_published()`
  unfoldable pub head_published : Queue A → Bool
  head_published q = undead (seq_of q q.head) == q.head + 1

  -- the test of `chain_full_wake`
  unfoldable pub has_room : Queue A → Bool
  has_room q = undead (seq_of q (position q.tail)) == position q.tail

-- `close()`: `fetch_or(kClosed)`
unfoldable pub close : {A : Type 0} → Queue A → Queue A
close q = record q { tail = if is_closed q.tail then q.tail else q.tail + 1 }

module _ {A : Type 0} (n_slots : ℕ) where
  -- What the threads do to the queue, given that a position is published in its turn, claimed when
  -- it is published, and released after that. `Threads` has the threads, which see to it.
  pub data Step (q : Queue A) : Queue A → Type 0 where
    reserve : (spurious : Bool) (word : ℕ) → Step q (push_claim n_slots spurious word q).1
    ticket : Step q (take_ticket n_slots q).1
    pay :
        (word : ℕ) (v : A)
        → position word < position q.tail
        → seq_of n_slots q (position word) ≡ position word
        → Step q (pay_ticket n_slots word v q).1
    claim :
        (spurious dead : Bool) (pos : ℕ)
        → (q.head ≡ pos → undead (seq_of n_slots q pos) ≡ pos + 1)
        → Step q (pop_claim n_slots spurious dead pos q).1
    finish :
        (pos : ℕ)
        → pos < q.head
        → undead (seq_of n_slots q pos) ≡ pos + 1
        → Step q (consume n_slots pos q).1
    shut : Step q (close q)
