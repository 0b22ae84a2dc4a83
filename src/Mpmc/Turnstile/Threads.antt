-- ===== src/Mpmc/Turnstile/Threads.antt =====
-- mpmc-work-queue-kata/cpp/src/mpmc_queue.hpp: the queue with all its threads. A look at a slot, the
-- compare-and-swap after it, a ticket, a publication, a release and a close are each a step, and
-- whatever the other threads do may come between any two of them.
use principal_katas.Prelude.{ℕ, ◌≤◌, ◌≡◌, Bool, true, false, put_at}
use principal_katas.Mpmc.Turnstile.{
  Queue, new_queue, position, PushLook, PopLook, PushRound, refused, reserved, PopRound, claimed,
  claimed_dead, push_look, push_claim, take_ticket, is_turn, publish, pay_ticket, pop_look,
  pop_claim, consume, close,
}
use principal_katas.Mpmc.Turnstile.Valid.{InRange}

-- The queue, and where the threads are: the tail words at which a producer has seen a free slot, the
-- positions that producers hold by a compare-and-swap, the words of the tickets that are not paid,
-- the heads at which a consumer has seen a published slot, and the positions that consumers hold.
pub record System (A : Type 0) : Type 0 where
  pub queue : Queue A
  pub looked : ℕ → Bool
  pub held : ℕ → Bool
  pub tickets : ℕ → Bool
  pub seen : ℕ → Bool
  pub claims : ℕ → Bool

abbrev pub at_rest : {A : Type 0} → (ℕ → A) → System A
at_rest storage = record {
  queue = new_queue storage;
  looked = λ i. false;
  held = λ i. false;
  tickets = λ i. false;
  seen = λ i. false;
  claims = λ i. false;
}

-- the positions held after a round of a producer, and of a consumer
abbrev pub held_after : PushRound → (ℕ → Bool) → ℕ → Bool
held_after (refused p) f = f
held_after (reserved pos) f = put_at f pos true
held_after (PushRound.again word) f = f

abbrev pub claims_after : PopRound → (ℕ → Bool) → ℕ → Bool
claims_after PopRound.empty f = f
claims_after (claimed pos) f = put_at f pos true
claims_after (claimed_dead pos) f = put_at f pos true
claims_after (PopRound.again pos) f = f

module _ {A : Type 0} (n_slots : ℕ) where
  -- A word of the tail, or a head, may have been read at any earlier time.
  pub data Move (s : System A) : System A → Type 0 where
    look :
        (word : ℕ)
        → word ≤ s.queue.tail
        → push_look n_slots word s.queue ≡ PushLook.tries
        → Move s (record s { looked = put_at s.looked word true })
    reserve :
        (spurious : Bool) (word : ℕ)
        → s.looked word ≡ true
        → Move s (record s {
          queue = (push_claim n_slots spurious word s.queue).1;
          held = held_after (push_claim n_slots spurious word s.queue).0 s.held;
        })
    fill :
        (pos : ℕ) (v : A)
        → s.held pos ≡ true
        → Move s
            (record s { queue = publish n_slots pos v s.queue; held = put_at s.held pos false })
    ticket : Move s (record s {
      queue = (take_ticket n_slots s.queue).1;
      tickets = put_at s.tickets (take_ticket n_slots s.queue).0 true;
    })
    pay :
        (word : ℕ) (v : A)
        → s.tickets word ≡ true
        → is_turn n_slots (position word) s.queue ≡ true
        → Move s (record s {
          queue = (pay_ticket n_slots word v s.queue).1;
          tickets = put_at s.tickets word false;
        })
    see :
        (pos : ℕ) (dead : Bool)
        → pos ≤ s.queue.head
        → pop_look n_slots pos s.queue ≡ PopLook.tries dead
        → Move s (record s { seen = put_at s.seen pos true })
    claim :
        (spurious dead : Bool) (pos : ℕ)
        → s.seen pos ≡ true
        → Move s (record s {
          queue = (pop_claim n_slots spurious dead pos s.queue).1;
          claims = claims_after (pop_claim n_slots spurious dead pos s.queue).0 s.claims;
        })
    finish :
        (pos : ℕ)
        → s.claims pos ≡ true
        → Move s (record s {
          queue = (consume n_slots pos s.queue).1;
          claims = put_at s.claims pos false;
        })
    shut : Move s (record s { queue = close s.queue })

  -- What can be reached, while the positions stay below 2^62.
  pub data Reach (storage : ℕ → A) : System A → Type 0 where
    start : Reach storage (at_rest storage)
    next :
        {s s' : System A} → Reach storage s → InRange n_slots s.queue → Move s s' → Reach storage s'
