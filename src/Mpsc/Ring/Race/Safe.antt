-- ===== src/Mpsc/Ring/Race/Safe.antt =====
-- What holds in every state that the two sides can reach.
use native.Mathlib.Nat.{mod-add-mod, mod-lt}
use principal_katas.Prelude.{
  ℕ, suc, ◌+◌, ◌%◌, ◌≤◌, ◌<◌, ◌≡◌, refl, sym, ap, ap₂, ◌∙◌, inl, inr, List, [], ◌∷◌, ◌++◌, arith,
  ◌==◌, ltb, add64, sub64, append_assoc, put_at, window, window-put_far, window-snoc, Bool-cases,
}
use principal_katas.Mpsc.Ring.{Ring, copy_out}
use principal_katas.Mpsc.Ring.Valid.{IsCapacity, IsValid}
use principal_katas.Mpsc.Ring.Refine.{contents, wrap_slot, tail_slot, taken, copy_out-window}
use principal_katas.Mpsc.Ring.Race.{
  Producer, checked, written, Consumer, copying, State, producer_check, producer_write,
  producer_publish, consumer_start, consumer_copy, consumer_free,
}

module _ {ℓ} {A : Type ℓ} (capacity : ℕ) where
  abbrev pub held : Ring A → ℕ
  held r = sub64 r.tail r.head

  -- The number of events held as the producer and as the consumer see it.
  abbrev pub producer_view : Ring A → ℕ
  producer_view r = sub64 r.tail r.cached_head

  abbrev pub consumer_view : Ring A → ℕ
  consumer_view r = sub64 r.cached_tail r.head

  -- What the producer's place says of slots, tail and the number that it sees: room, and once
  -- written the event in its slot.
  abbrev pub ProducerOk : Producer A → (ℕ → A) → ℕ → ℕ → Type ℓ
  ProducerOk Producer.idle slots tail n = Unit
  ProducerOk (checked v) slots tail n = (n < capacity) × Unit {ℓ}
  ProducerOk (written v) slots tail n = (n < capacity) × (slots (tail % capacity) ≡ v)

  -- What the consumer's place says of slots, head and the number that it sees: the ring holds the
  -- batch, and the copy is its beginning.
  abbrev pub ConsumerOk : Consumer A → (ℕ → A) → ℕ → ℕ → Type ℓ
  ConsumerOk Consumer.idle slots head k = Unit
  ConsumerOk (copying n i out) slots head k =
      (i ≤ n) × (n ≤ k) × (out ≡ window slots capacity (head % capacity) i)

  pub record Inv (s : State A) : Type ℓ where
    pub valid : IsValid capacity s.ring
    pub producer_ok : ProducerOk s.producer s.ring.slots s.ring.tail (producer_view s.ring)
    pub consumer_ok : ConsumerOk s.consumer s.ring.slots s.ring.head (consumer_view s.ring)
    pub history : s.pushed ≡ s.popped ++ contents capacity s.ring

  module _ (c : IsCapacity capacity) where
    head_in : (r : Ring A) → r.head % capacity < capacity
    head_in r = mod-lt r.head (omega (arith, c.large))

    pub check-Inv : (v : A) (s : State A) → Inv s → Inv (producer_check capacity v s)
    unfolding producer_check
    check-Inv v s inv = elim (Bool-cases (sub64 s.ring.tail s.ring.cached_head == capacity)) [
      | inl stale ↦ elim (Bool-cases (sub64 s.ring.tail s.ring.head == capacity)) [
        | inl full ↦
            rw (stale, full)
              (record {
                valid = ground (arith, inv.valid);
                producer_ok = tt;
                consumer_ok = inv.consumer_ok;
                history = inv.history;
              })
        | inr room ↦
            rw (stale, room)
              (record {
                valid = ground (arith, inv.valid);
                producer_ok = (ground (arith, inv.valid), tt);
                consumer_ok = inv.consumer_ok;
                history = inv.history;
              })
      ]
      | inr known ↦
          rw (known, known)
            (record {
              valid = inv.valid;
              producer_ok = (ground (arith, inv.valid), tt);
              consumer_ok = inv.consumer_ok;
              history = inv.history;
            })
    ]

    -- The consumer's copy is not disturbed by the write.
    write-ConsumerOk :
        (p : Consumer A) (v : A) (r : Ring A)
        → IsValid capacity r
        → held r < capacity
        → ConsumerOk p r.slots r.head (consumer_view r)
        → ConsumerOk p (put_at r.slots (r.tail % capacity) v) r.head (consumer_view r)
    write-ConsumerOk Consumer.idle v r valid room ok = tt
    write-ConsumerOk (copying n i out) v r valid room ok = (
      ok.0,
      ok.1,
      ok.2
          ∙ sym (
              window-put_far r.slots capacity (r.head % capacity) i (held r) (r.tail % capacity) v
                (head_in r) (omega (arith, valid)) room (tail_slot capacity c r valid)),
    )

    pub write-Inv :
        (v : A) (s : State A)
        → producer_view s.ring < capacity
        → Inv s
        → Inv (producer_write capacity v s)
    unfolding producer_write
    write-Inv v s view inv =
        let room : held s.ring < capacity = omega (arith, inv.valid) in
        record {
          valid = ground (arith, inv.valid);
          producer_ok = (view, ground arith);
          consumer_ok = write-ConsumerOk s.consumer v s.ring inv.valid room inv.consumer_ok;
          history =
              inv.history
              ∙ ap (λ l. s.popped ++ l)
                  (sym (
                    window-put_far s.ring.slots capacity (s.ring.head % capacity) (held s.ring)
                      (held s.ring) (s.ring.tail % capacity) v (head_in s.ring) (omega arith) room
                      (tail_slot capacity c s.ring inv.valid)));
        }

    pub publish-Inv :
        (v : A) (s : State A)
        → producer_view s.ring < capacity
        → s.ring.slots (s.ring.tail % capacity) ≡ v
        → Inv s
        → Inv (producer_publish capacity v s)
    unfolding producer_publish
    publish-Inv v s room here inv = record {
      valid = ground (arith, inv.valid);
      producer_ok = tt;
      consumer_ok = inv.consumer_ok;
      history =
          let more : sub64 (add64 s.ring.tail 1) s.ring.head ≡ suc (held s.ring) =
            ground (arith, inv.valid) in
          let longer =
            window-snoc s.ring.slots capacity (s.ring.head % capacity) (held s.ring)
              (head_in s.ring) in
          let at_tail : s.ring.slots ((s.ring.head % capacity + held s.ring) % capacity) ≡ v =
            ap s.ring.slots (sym (tail_slot capacity c s.ring inv.valid)) ∙ here in
          ap (λ l. l ++ v ∷ []) inv.history
          ∙ append_assoc s.popped (contents capacity s.ring) (v ∷ [])
          ∙ ap (λ l. s.popped ++ l)
              (sym (
                ap (window s.ring.slots capacity (s.ring.head % capacity)) more
                ∙ longer
                ∙ ap (λ x. contents capacity s.ring ++ x ∷ []) at_tail));
    }

    pub start-Inv : (n : ℕ) (s : State A) → Inv s → Inv (consumer_start capacity n s)
    unfolding consumer_start window
    start-Inv n s inv = elim (Bool-cases (s.ring.head == s.ring.cached_tail)) [
      | inl stale ↦ elim (Bool-cases (s.ring.head == s.ring.tail)) [
        | inl empty ↦
            rw (stale, empty)
              (record {
                valid = ground (arith, inv.valid);
                producer_ok = inv.producer_ok;
                consumer_ok = tt;
                history = inv.history;
              })
        | inr some_held ↦
            rw (stale, some_held)
              (record {
                valid = ground (arith, inv.valid);
                producer_ok = inv.producer_ok;
                consumer_ok = (omega arith, omega arith, refl);
                history = inv.history;
              })
      ]
      | inr known ↦
          rw (known, known)
            (record {
              valid = inv.valid;
              producer_ok = inv.producer_ok;
              consumer_ok = (omega arith, ground (arith, inv.valid), refl);
              history = inv.history;
            })
    ]

    pub copy-Inv :
        (n i : ℕ) (out : List A) (s : State A)
        → s.consumer ≡ copying n i out
        → ConsumerOk (copying n i out) s.ring.slots s.ring.head (consumer_view s.ring)
        → Inv s
        → Inv (consumer_copy capacity n i out s)
    unfolding consumer_copy
    copy-Inv n i out s e ok inv = elim (Bool-cases (ltb i n)) [
      | inr done ↦ rw done inv
      | inl more ↦
          let next : window s.ring.slots capacity (s.ring.head % capacity) (i + 1)
              ≡ out ++ s.ring.slots (add64 s.ring.head i % capacity) ∷ [] =
            ap (window s.ring.slots capacity (s.ring.head % capacity)) (omega arith)
            ∙ window-snoc s.ring.slots capacity (s.ring.head % capacity) i (head_in s.ring)
            ∙ ap₂ (λ l x. l ++ x ∷ []) (sym ok.2)
                (ap s.ring.slots (
                  mod-add-mod s.ring.head capacity i
                  ∙ sym (wrap_slot capacity (s.ring.head + i) c))) in
          rw more (record {
            valid = inv.valid;
            producer_ok = inv.producer_ok;
            consumer_ok = (ground arith, ok.1, sym next);
            history = inv.history;
          })
    ]

    pub free-Inv :
        (n i : ℕ) (out : List A) (s : State A)
        → s.consumer ≡ copying n i out
        → ConsumerOk (copying n i out) s.ring.slots s.ring.head (consumer_view s.ring)
        → Inv s
        → Inv (consumer_free capacity n i out s)
    unfolding consumer_free
    free-Inv n i out s e ok inv = elim (Bool-cases (ltb i n)) [
      | inl more ↦ rw more inv
      | inr done ↦
          let all : i ≡ n = ground arith in
          rw done (record {
            valid = ground (arith, inv.valid);
            producer_ok = inv.producer_ok;
            consumer_ok = tt;
            history =
                inv.history
                ∙ ap (λ l. s.popped ++ l)
                    (taken capacity c s.ring n inv.valid (omega (arith, inv.valid)))
                ∙ sym (append_assoc s.popped (copy_out capacity s.ring.slots s.ring.head 0 n) _)
                ∙ ap
                    (λ l.
                      (s.popped ++ l)
                      ++ contents capacity (record s.ring { head = add64 s.ring.head n }))
                    (copy_out-window capacity c s.ring.slots s.ring.head 0 n
                      ∙ ap₂ (window s.ring.slots capacity) (ap (λ k. k % capacity) (omega arith))
                          (sym all)
                      ∙ sym ok.2);
          })
    ]
