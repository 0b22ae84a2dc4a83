-- ===== src/Mpsc/Ring/Race/Reach.antt =====
-- Every interleaving of pushes and batches, from a new ring.
use native.Mathlib.Nat.{mod-lt, mod-add-mod}
use principal_katas.Prelude.{
  ℕ, suc, ◌+◌, ◌-◌, ◌%◌, ◌≤◌, ◌<◌, ◌≡◌, ◌≢◌, refl, sym, ap, subst, ◌∙◌, inl, inr, ◌⊎◌, List, [],
  ◌∷◌, ◌++◌, arith, sub64, length, step-ne, window,
}
use principal_katas.Mpsc.Ring.Valid.{IsCapacity, new_ring-IsValid}
use principal_katas.Mpsc.Ring.Refine.{contents, length-contents, tail_slot}
use principal_katas.Mpsc.Ring.Race.{
  Producer, checked, written, Consumer, copying, State, Action, check, write, publish, start, copy,
  free, produce, consume, step, run, new_state,
}
use principal_katas.Mpsc.Ring.Race.Safe.{
  Inv, ProducerOk, ConsumerOk, producer_view, consumer_view, check-Inv, write-Inv, publish-Inv,
  start-Inv, copy-Inv, free-Inv,
}

-- Fewer than `capacity` places on is another slot.
other_slot :
    (capacity : ℕ) (c : IsCapacity capacity) (h j m : ℕ)
    → j < m
    → m < capacity
    → (h % capacity + m) % capacity ≢ (h + j) % capacity
other_slot capacity c h j m lt room e =
    step-ne {size = capacity} {h = (h + j) % capacity} {k = m - j - 1}
      (mod-lt (h + j) (omega (arith, c.large))) (omega arith)
      (mod-add-mod (h + j) capacity (suc (m - j - 1))
        ∙ ap (λ k. k % capacity) (omega arith)
        ∙ sym (mod-add-mod h capacity m)
        ∙ e)

module _ {ℓ} {A : Type ℓ} (capacity : ℕ) (c : IsCapacity capacity) where
  produce-Inv :
      (p : Producer A) (a : Action A) (s : State A)
      → s.producer ≡ p
      → Inv capacity s
      → Inv capacity (produce capacity p a s)
  unfolding produce
  produce-Inv Producer.idle (check v) s e inv = check-Inv capacity c v s inv
  produce-Inv (checked v) write s e inv =
      write-Inv capacity c v s
        (subst (λ p. ProducerOk capacity p s.ring.slots s.ring.tail (producer_view capacity s.ring))
          e inv.producer_ok).0
        inv
  produce-Inv (written v) publish s e inv =
      let ok =
        subst (λ p. ProducerOk capacity p s.ring.slots s.ring.tail (producer_view capacity s.ring))
          e inv.producer_ok in
      publish-Inv capacity c v s ok.0 ok.1 inv
  produce-Inv p a s e inv = inv

  consume-Inv :
      (p : Consumer A) (a : Action A) (s : State A)
      → s.consumer ≡ p
      → Inv capacity s
      → Inv capacity (consume capacity p a s)
  unfolding consume
  consume-Inv Consumer.idle (start n) s e inv = start-Inv capacity c n s inv
  consume-Inv (copying n i out) copy s e inv =
      copy-Inv capacity c n i out s e
        (subst (λ p. ConsumerOk capacity p s.ring.slots s.ring.head (consumer_view capacity s.ring))
          e inv.consumer_ok)
        inv
  consume-Inv (copying n i out) free s e inv =
      free-Inv capacity c n i out s e
        (subst (λ p. ConsumerOk capacity p s.ring.slots s.ring.head (consumer_view capacity s.ring))
          e inv.consumer_ok)
        inv
  consume-Inv p a s e inv = inv

  step-Inv : (a : Action A) (s : State A) → Inv capacity s → Inv capacity (step capacity a s)
  unfolding step
  step-Inv (check v) s inv = produce-Inv s.producer (check v) s refl inv
  step-Inv write s inv = produce-Inv s.producer write s refl inv
  step-Inv publish s inv = produce-Inv s.producer publish s refl inv
  step-Inv (start n) s inv = consume-Inv s.consumer (start n) s refl inv
  step-Inv copy s inv = consume-Inv s.consumer copy s refl inv
  step-Inv free s inv = consume-Inv s.consumer free s refl inv

  pub run-Inv :
      (l : List (Action A)) (s : State A) → Inv capacity s → Inv capacity (run capacity l s)
  unfolding run
  run-Inv [] s inv = inv
  run-Inv (a ∷ l) s inv = run-Inv l (step capacity a s) (step-Inv a s inv)

  new_state-Inv : (slots : ℕ → A) → Inv capacity (new_state slots)
  unfolding window
  new_state-Inv slots = record {
    valid = new_ring-IsValid capacity slots;
    producer_ok = tt;
    consumer_ok = tt;
    history = refl;
  }

  -- For a capacity of at least two that divides 2^64: however the accesses of one producer and one
  -- consumer interleave, wrap-around included, the events delivered, followed by those that the
  -- ring holds, are the events accepted, in order; and the ring holds at most `capacity`.
  pub race_lossless :
      (l : List (Action A)) (slots : ℕ → A)
      → let s = run capacity l (new_state slots) in
        (s.pushed ≡ s.popped ++ contents capacity s.ring)
        × (length (contents capacity s.ring) ≤ capacity)
  race_lossless l slots =
      let inv = run-Inv l (new_state slots) (new_state-Inv slots) in
      let s = run capacity l (new_state slots) in
      (inv.history, omega (arith, inv.valid, length-contents capacity s.ring))

  has_room :
      (p : Producer A) (slots : ℕ → A) (tail view : ℕ) (v : A)
      → (p ≡ checked v) ⊎ (p ≡ written v)
      → ProducerOk capacity p slots tail view
      → view < capacity
  has_room Producer.idle slots tail view v (inl e) ok = cc
  has_room Producer.idle slots tail view v (inr e) ok = cc
  has_room (checked x) slots tail view v e ok = ok.0
  has_room (written x) slots tail view v e ok = ok.0

  -- For a capacity of at least two that divides 2^64, after any interleaving: while the producer
  -- stands before or after its write, the slot that it owns is none of those that the consumer
  -- copies or has copied in its batch.
  pub race_disjoint :
      (l : List (Action A)) (slots : ℕ → A) (v : A) (n i : ℕ) (out : List A) (j : ℕ)
      → ((run capacity l (new_state slots)).producer ≡ checked v)
        ⊎ ((run capacity l (new_state slots)).producer ≡ written v)
      → (run capacity l (new_state slots)).consumer ≡ copying n i out
      → j < n
      → (run capacity l (new_state slots)).ring.tail % capacity
        ≢ ((run capacity l (new_state slots)).ring.head + j) % capacity
  race_disjoint l slots v n i out j p q lt =
      let s = run capacity l (new_state slots) in
      let inv = run-Inv l (new_state slots) (new_state-Inv slots) in
      let view = has_room s.producer s.ring.slots s.ring.tail _ v p inv.producer_ok in
      let ok =
        subst (λ b. ConsumerOk capacity b s.ring.slots s.ring.head (consumer_view capacity s.ring))
          q inv.consumer_ok in
      λ e.
        other_slot capacity c s.ring.head j (sub64 s.ring.tail s.ring.head)
          (omega (arith, inv.valid, ok.1)) (omega (arith, inv.valid, view))
          (sym (tail_slot capacity c s.ring inv.valid) ∙ e)
