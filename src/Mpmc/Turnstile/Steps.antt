-- ===== src/Mpmc/Turnstile/Steps.antt =====
-- Every step keeps the invariant of the sequence numbers.
use native.Mathlib.Nat.{add-mod_right}
use principal_katas.Prelude.{
  ℕ, ◌+◌, ◌%◌, ◌^◌, ◌≤◌, ◌<◌, ◌≡◌, refl, sym, subst, inl, inr, Bool, true, not, ◌&&◌, ◌==◌, put_at,
  arith, Bool-cases,
}
use principal_katas.Mpmc.Turnstile.{
  Queue, position, undead, tombstone, is_closed, seq_of, push_claim, take_ticket, publish,
  pay_ticket, pop_claim, release, consume, close, Step,
}
use principal_katas.Mpmc.Turnstile.Valid.{
  SlotOk, free, published, draining, weaken, IsValid, InRange, put_lap, turn_in_lap, held_before,
}

module _ {A : Type 0} (n_slots : ℕ) where
  module _ (large : 2 ≤ n_slots) where
    push_claim-IsValid :
        (spurious : Bool) (word : ℕ) (q : Queue A)
        → IsValid n_slots q
        → IsValid n_slots (push_claim n_slots spurious word q).1
    unfolding push_claim
    push_claim-IsValid spurious word q v = elim (Bool-cases (q.tail == word && not spurious)) [
      | inl e ↦ rw e (record {
        behind = ground (arith, v.behind);
        lap = λ i lo hi. weaken (ground arith) (v.lap i lo hi);
      })
      | inr e ↦ rw e v
    ]

    pay_ticket-IsValid :
        (word : ℕ) (a : A) (q : Queue A)
        → IsValid n_slots q
        → InRange n_slots q
        → position word < position q.tail
        → seq_of n_slots q (position word) ≡ position word
        → IsValid n_slots (pay_ticket n_slots word a q).1
    unfolding pay_ticket publish
    pay_ticket-IsValid word a q v r below turn =
        let pos = position word in
        let (lo, hi) = turn_in_lap n_slots large q pos v (omega (arith, r.positions)) turn in
        elim (Bool-cases (is_closed word)) [
          | inl c ↦ rw c (record {
            behind = v.behind;
            lap =
                put_lap n_slots large q pos (tombstone pos) (position q.tail) v (omega arith) lo hi
                  (published below (omega (arith, r.positions)) (omega (arith, r.positions)));
          })
          | inr c ↦ rw c (record {
            behind = v.behind;
            lap =
                put_lap n_slots large q pos (pos + 1) (position q.tail) v (omega arith) lo hi
                  (published below (omega (arith, r.positions)) (omega (arith, r.positions)));
          })
        ]

    consume-IsValid :
        (pos : ℕ) (q : Queue A)
        → IsValid n_slots q
        → InRange n_slots q
        → pos < q.head
        → undead (seq_of n_slots q pos) ≡ pos + 1
        → IsValid n_slots (consume n_slots pos q).1
    unfolding consume release
    consume-IsValid pos q v r gone held =
        let near = held_before n_slots large q pos v gone held r.positions r.fits in
        record {
          behind = v.behind;
          lap = λ i lo hi.
              subst
                (λ k.
                  SlotOk n_slots (position q.tail) i (put_at q.seq k (pos + n_slots) (i % n_slots)))
                (add-mod_right pos n_slots)
                (put_lap n_slots large q (pos + n_slots) (pos + n_slots) (position q.tail) v
                  (omega arith) near (omega arith) (free refl) i lo hi);
        }

    claim-IsValid :
        (q : Queue A)
        → IsValid n_slots q
        → InRange n_slots q
        → undead (seq_of n_slots q q.head) ≡ q.head + 1
        → IsValid n_slots (record q { head = q.head + 1 })
    claim-IsValid q v r held = record {
      behind = owed (v.lap q.head (omega arith) (omega arith));
      lap = λ i lo hi. elim (Bool-cases (i == q.head + n_slots)) [
        | inl e ↦ rw (==→≡ i (q.head + n_slots) e) (
            subst (λ k. SlotOk n_slots (position q.tail) (q.head + n_slots) (q.seq k))
              (sym (add-mod_right q.head n_slots))
              (draining (omega arith) (omega arith)
                (raw_small (v.lap q.head (omega arith) (omega arith)))))
        | inr e ↦ v.lap i (omega arith) (ground arith)
      ];
    }
      where
        owed :
            SlotOk n_slots (position q.tail) q.head (seq_of n_slots q q.head)
            → q.head + 1 ≤ position q.tail
        owed (free f) = absurd (omega (arith, r.positions, v.behind))
        owed (published lt f b) = omega arith
        owed (draining le f b) = absurd (omega arith)

        raw_small :
            SlotOk n_slots (position q.tail) q.head (seq_of n_slots q q.head)
            → seq_of n_slots q q.head < 2 ^ 64
        raw_small (free f) = omega (arith, r.positions, v.behind)
        raw_small (published lt f b) = b
        raw_small (draining le f b) = b

        ==→≡ : (i j : ℕ) → (i == j) ≡ true → i ≡ j
        ==→≡ i j e = ground arith

    pop_claim-IsValid :
        (spurious dead : Bool) (pos : ℕ) (q : Queue A)
        → IsValid n_slots q
        → InRange n_slots q
        → (q.head ≡ pos → undead (seq_of n_slots q pos) ≡ pos + 1)
        → IsValid n_slots (pop_claim n_slots spurious dead pos q).1
    unfolding pop_claim
    pop_claim-IsValid spurious dead pos q v r held =
        elim (Bool-cases (q.head == pos && not spurious)) [
          | inl e ↦
              let at : q.head ≡ pos = ground arith in
              rw e (
                subst (λ k. IsValid n_slots (record q { head = k + 1 })) at
                  (claim-IsValid q v r
                    (subst (λ k. undead (seq_of n_slots q k) ≡ k + 1) (sym at) (held at))))
          | inr e ↦ rw e v
        ]

    close-IsValid : (q : Queue A) → IsValid n_slots q → IsValid n_slots (close q)
    unfolding close
    close-IsValid q v = elim (Bool-cases (is_closed q.tail)) [
      | inl c ↦ rw c v
      | inr c ↦ rw c (record {
        behind = ground (arith, v.behind);
        lap = λ i lo hi. weaken (ground arith) (v.lap i lo hi);
      })
    ]

    ticket-IsValid : (q : Queue A) → IsValid n_slots q → IsValid n_slots (take_ticket n_slots q).1
    unfolding take_ticket
    ticket-IsValid q v = record {
      behind = omega (arith, v.behind);
      lap = λ i lo hi. weaken (omega arith) (v.lap i lo hi);
    }

    -- Every step keeps the invariant: the head is not past the tail, and each slot of the current
    -- lap is free, published, or still held by the consumer of the lap before.
    pub step-IsValid :
        {q q' : Queue A}
        → IsValid n_slots q
        → InRange n_slots q
        → Step n_slots q q'
        → IsValid n_slots q'
    step-IsValid v r (Step.reserve spurious word) = push_claim-IsValid spurious word _ v
    step-IsValid v r Step.ticket = ticket-IsValid _ v
    step-IsValid v r (Step.pay word a below turn) = pay_ticket-IsValid word a _ v r below turn
    step-IsValid v r (Step.claim spurious dead pos held) =
        pop_claim-IsValid spurious dead pos _ v r held
    step-IsValid v r (Step.finish pos gone held) = consume-IsValid pos _ v r gone held
    step-IsValid v r Step.shut = close-IsValid _ v
