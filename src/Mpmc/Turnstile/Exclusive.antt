-- ===== src/Mpmc/Turnstile/Exclusive.antt =====
-- What it is to have a slot, and which steps leave one alone.
use principal_katas.Prelude.{ℕ, ◌+◌, ◌%◌, ◌<◌, ◌≡◌, ◌≢◌, refl, ap, Bool, arith}
use principal_katas.Mpmc.Turnstile.{
  Queue, position, undead, seq_of, push_claim, take_ticket, publish, pay_ticket, pop_claim, release,
  consume, close,
}

module _ {A : Type 0} (n_slots : ℕ) where
  -- the slot of `pos` is as it was
  pub record Kept (q q' : Queue A) (pos : ℕ) : Type 0 where
    pub seq_kept : seq_of n_slots q' pos ≡ seq_of n_slots q pos
    pub storage_kept : q'.storage (pos % n_slots) ≡ q.storage (pos % n_slots)

  -- a producer whose turn it is, and a consumer that has yet to release
  pub record HasTurn (q : Queue A) (pos : ℕ) : Type 0 where
    pub is_reserved : pos < position q.tail
    pub is_free : seq_of n_slots q pos ≡ pos

  pub record HasClaim (q : Queue A) (pos : ℕ) : Type 0 where
    pub is_passed : pos < q.head
    pub is_published : undead (seq_of n_slots q pos) ≡ pos + 1

  Kept-same : (q q' : Queue A) (pos : ℕ) → q'.seq ≡ q.seq → q'.storage ≡ q.storage → Kept q q' pos
  Kept-same q q' pos e f = record {
    seq_kept = ap (λ g. g (pos % n_slots)) e;
    storage_kept = ap (λ g. g (pos % n_slots)) f;
  }

  pub Kept-push :
      (spurious : Bool) (word : ℕ) (q : Queue A) (pos : ℕ)
      → Kept q (push_claim n_slots spurious word q).1 pos
  unfolding push_claim
  Kept-push spurious word q pos =
      Kept-same q (push_claim n_slots spurious word q).1 pos (ground arith) (ground arith)

  pub Kept-pop :
      (spurious dead : Bool) (p : ℕ) (q : Queue A) (pos : ℕ)
      → Kept q (pop_claim n_slots spurious dead p q).1 pos
  unfolding pop_claim
  Kept-pop spurious dead p q pos =
      Kept-same q (pop_claim n_slots spurious dead p q).1 pos (ground arith) (ground arith)

  pub Kept-rest :
      (q : Queue A) (pos : ℕ) → Kept q (take_ticket n_slots q).1 pos × Kept q (close q) pos
  unfolding take_ticket close
  Kept-rest q pos = (
    record { seq_kept = refl; storage_kept = refl },
    record { seq_kept = refl; storage_kept = refl },
  )

  pub Kept-pay :
      (word : ℕ) (v : A) (q : Queue A) (pos : ℕ)
      → position word % n_slots ≢ pos % n_slots
      → Kept q (pay_ticket n_slots word v q).1 pos
  unfolding pay_ticket publish
  Kept-pay word v q pos ne = record {
    seq_kept = ground (arith, ne);
    storage_kept = ground (arith, ne);
  }

  pub Kept-finish :
      (p : ℕ) (q : Queue A) (pos : ℕ)
      → p % n_slots ≢ pos % n_slots
      → Kept q (consume n_slots p q).1 pos
  unfolding consume release
  Kept-finish p q pos ne = record { seq_kept = ground (arith, ne); storage_kept = refl }
