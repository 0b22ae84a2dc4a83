-- ===== src/Mpmc/Turnstile/Entries.antt =====
-- What the positions between the head and the tail hold: an event, a tombstone, or a hole, reserved
-- and not yet published. Each step of the threads read on them.
use principal_katas.Prelude.{
  ℕ, ◌+◌, ◌%◌, ◌^◌, ◌≤◌, ◌<◌, ◌≡◌, ◌≢◌, refl, sym, ap, ◌∙◌, inl, inr, Bool, true, false, ◌==◌,
  arith, Bool-cases, if◌then◌else◌,
}
use principal_katas.Mpmc.Turnstile.{
  Queue, position, undead, tombstone, is_closed, seq_of, take_ticket, publish, pay_ticket, PopRound,
  claimed, claimed_dead,
}
use principal_katas.Mpmc.Turnstile.Valid.{
  free, published, draining, in_lap, apart_next, IsValid, InRange,
}

pub data Entry (A : Type 0) : Type 0 where
  hole dead : Entry A
  event : A → Entry A

-- what `try_pop` makes of the entry at the head, by whether its compare-and-swap fails
unfoldable pub answer : {A : Type 0} → Bool → Entry A → Queue A → PopRound × Queue A
answer spurious hole q = (PopRound.empty, q)
answer spurious dead q =
    if spurious
    then (PopRound.again q.head, q)
    else (claimed_dead q.head, record q { head = q.head + 1 })
answer spurious (event v) q =
    if spurious
    then (PopRound.again q.head, q)
    else (claimed q.head, record q { head = q.head + 1 })

-- the entry that a producer publishes
unfoldable pub paid : {A : Type 0} → ℕ → A → Entry A
paid word v = if is_closed word then dead else event v

pub ==_refl : (n : ℕ) → (n == n) ≡ true
==_refl n = ground arith

module _ {A : Type 0} (n_slots : ℕ) where
  unfoldable pub entry : Queue A → ℕ → Entry A
  entry q i =
      if seq_of n_slots q i == i + 1
      then event (q.storage (i % n_slots))
      else if seq_of n_slots q i == tombstone i
      then dead
      else hole

  pub hole_lem :
      (q : Queue A) (i : ℕ) → i < 2 ^ 62 → undead (seq_of n_slots q i) ≢ i + 1 → entry q i ≡ hole
  unfolding entry
  hole_lem q i small ne =
      let e1 : (seq_of n_slots q i == i + 1) ≡ false = ground (arith, ne) in
      let e2 : (seq_of n_slots q i == tombstone i) ≡ false = ground (arith, ne) in rw (e1, e2) refl

  pub event_lem :
      (q : Queue A) (i : ℕ)
      → seq_of n_slots q i ≡ i + 1
      → entry q i ≡ event (q.storage (i % n_slots))
  unfolding entry
  event_lem q i e = let e1 : (seq_of n_slots q i == i + 1) ≡ true = ground arith in rw e1 refl

  pub dead_lem : (q : Queue A) (i : ℕ) → seq_of n_slots q i ≡ tombstone i → entry q i ≡ dead
  unfolding entry
  dead_lem q i e =
      let e1 : (seq_of n_slots q i == i + 1) ≡ false = ground arith in
      let e2 : (seq_of n_slots q i == tombstone i) ≡ true = ground arith in rw (e1, e2) refl

  -- An entry depends on its own slot only.
  pub entry_same :
      (q q' : Queue A) (i : ℕ)
      → q'.seq (i % n_slots) ≡ q.seq (i % n_slots)
      → q'.storage (i % n_slots) ≡ q.storage (i % n_slots)
      → entry q' i ≡ entry q i
  unfolding entry
  entry_same q q' i e f = rw (e, f) refl

  module _ (large : 2 ≤ n_slots) where
    -- A position that no producer has reserved is not published.
    pub unreserved_ne :
        (q : Queue A) (i : ℕ)
        → IsValid n_slots q
        → InRange n_slots q
        → position q.tail ≤ i
        → undead (seq_of n_slots q i) ≢ i + 1
    unreserved_ne q i v r past held = go (in_lap n_slots q.head i (omega arith))
      where
        go : ((j : ℕ) × (q.head ≤ j) × (j < q.head + n_slots) × (j % n_slots ≡ i % n_slots)) → ⊥
        go (j, lo, hi, e) =
            let same : seq_of n_slots q j ≡ seq_of n_slots q i = ap q.seq e in
            elim (v.lap j lo hi) [
              | free f ↦
                  apart_next n_slots i j large (sym e)
                    (omega (arith, r.positions, r.fits, v.behind))
              | published lt f b ↦ omega arith
              | draining le f b ↦ omega (arith, v.behind)
            ]

    -- In a valid queue of two slots or more, with positions below 2^62, a ticket moves the tail on
    -- by one position, which is a hole, and changes no entry.
    pub reserve-entry :
        (q : Queue A)
        → IsValid n_slots q
        → InRange n_slots q
        → let q' = (take_ticket n_slots q).1 in
          (position q'.tail ≡ position q.tail + 1)
          × (entry q' (position q.tail) ≡ hole)
          × ((i : ℕ) → entry q' i ≡ entry q i)
    unfolding take_ticket
    reserve-entry q v r =
        let kept : (i : ℕ) → entry (record q { tail = q.tail + 2 }) i ≡ entry q i =
          λ i. entry_same q (record q { tail = q.tail + 2 }) i refl refl in
        (
          omega arith,
          kept (position q.tail)
              ∙ hole_lem q (position q.tail) r.positions
                  (unreserved_ne q (position q.tail) v r (omega arith)),
          kept,
        )

    same_slot :
        (q : Queue A) (i p : ℕ)
        → i % n_slots ≡ p % n_slots
        → seq_of n_slots q i ≡ seq_of n_slots q p
    same_slot q i p e = ap q.seq e

    -- With two slots or more and positions below 2^62, a producer in its turn turns its own hole
    -- into its event, or a tombstone if its ticket came after the close, and changes no other
    -- entry.
    pub pay-entry :
        (word : ℕ) (a : A) (q : Queue A) (i : ℕ)
        → position word < 2 ^ 62
        → i < 2 ^ 62
        → seq_of n_slots q (position word) ≡ position word
        → entry (pay_ticket n_slots word a q).1 i
          ≡ (if position word == i then paid word a else entry q i)
    unfolding pay_ticket publish paid
    pay-entry word a q i small small' turn = elim (Bool-cases (position word == i)) [
      | inl same ↦ own i (ground arith)
      | inr other ↦ elim (Bool-cases (position word % n_slots == i % n_slots)) [
        | inl slot ↦
            let e : i % n_slots ≡ position word % n_slots = ground arith in
            let was : seq_of n_slots q i ≡ position word = ap q.seq e ∙ turn in
            rw other (
              hole_lem (pay_ticket n_slots word a q).1 i small' (after e slot (ground arith))
              ∙ sym (
                  hole_lem q i small'
                    (λ h. apart_next n_slots i (position word) large e (omega arith))))
        | inr slot ↦
            rw other (entry_same q (pay_ticket n_slots word a q).1 i (ground arith) (ground arith))
      ]
    ]
      where
        own :
            (j : ℕ)
            → j ≡ position word
            → entry (pay_ticket n_slots word a q).1 j
              ≡ (if position word == j then paid word a else entry q j)
        own j e = elim (Bool-cases (is_closed word)) [
          | inl c ↦
              rw (e, ==_refl (position word))
                (dead_lem (pay_ticket n_slots word a q).1 (position word) (ground arith)
                  ∙ ground arith)
          | inr c ↦
              rw (e, ==_refl (position word))
                (event_lem (pay_ticket n_slots word a q).1 (position word) (ground arith)
                  ∙ ground arith)
        ]

        after :
            i % n_slots ≡ position word % n_slots
            → (position word % n_slots == i % n_slots) ≡ true
            → position word ≢ i
            → undead (seq_of n_slots (pay_ticket n_slots word a q).1 i) ≢ i + 1
        after e slot ne h = ground arith
