-- ===== src/Mpmc/Turnstile/Decide.antt =====
-- What the threads' rounds decide, by the entries.
use principal_katas.Prelude.{
  ℕ, ◌+◌, ◌%◌, ◌^◌, ◌≤◌, ◌<◌, ◌≡◌, ◌≢◌, refl, sym, subst, ap, ◌∙◌, inl, inr, Bool, true, false,
  ◌==◌, leb, sub64, arith, Bool-cases, if◌then◌else◌,
}
use principal_katas.Mpmc.Api.{Push}
use principal_katas.Mpmc.Turnstile.{
  Queue, position, undead, dead_bit, is_closed, seq_of, push_look, push_claim, push_round, pop_look,
  pop_claim, pop_round, release, consume, refused, reserved, PushRound, PopRound, PushLook, PopLook,
  stopped, nothing, claimed, claimed_dead,
}
use principal_katas.Mpmc.Turnstile.Valid.{
  SlotOk, slots-ne, free, published, draining, in_lap, apart_next, apart_lap, IsValid, InRange,
}
use principal_katas.Mpmc.Turnstile.Entries.{
  entry, answer, hole_lem, event_lem, dead_lem, entry_same, ==_refl,
}

module _ {A : Type 0} (n_slots : ℕ) where
  -- a round, by what its look tells
  abbrev pop_after : Bool → ℕ → Queue A → PopLook → PopRound × Queue A
  pop_after spurious pos q l = elim l [
    | nothing ↦ (PopRound.empty, q)
    | PopLook.tries d ↦ pop_claim n_slots spurious d pos q
    | PopLook.stale ↦ (PopRound.again q.head, q)
  ]

  abbrev push_after : Bool → ℕ → Queue A → PushLook → PushRound × Queue A
  push_after spurious word q l = elim l [
    | stopped p ↦ (refused p, q)
    | PushLook.tries ↦ push_claim n_slots spurious word q
    | PushLook.stale ↦ (PushRound.again q.tail, q)
  ]

  pop_round-look :
      (spurious : Bool) (pos : ℕ) (q : Queue A) (l : PopLook)
      → pop_look n_slots pos q ≡ l
      → pop_round n_slots spurious pos q ≡ pop_after spurious pos q l
  unfolding pop_round
  pop_round-look spurious pos q l e = ap (pop_after spurious pos q) e

  push_round-look :
      (spurious : Bool) (word : ℕ) (q : Queue A) (l : PushLook)
      → push_look n_slots word q ≡ l
      → push_round n_slots spurious word q ≡ push_after spurious word q l
  unfolding push_round
  push_round-look spurious word q l e = ap (push_after spurious word q) e

  -- the claims of a head, and of a tail word, that are not out of date
  pub claim_here :
      (spurious d : Bool) (q : Queue A)
      → pop_claim n_slots spurious d q.head q ≡ (
          if spurious
          then (PopRound.again q.head, q)
          else (if d then claimed_dead q.head else claimed q.head, record q { head = q.head + 1 }))
  unfolding pop_claim
  claim_here spurious d q = rw (==_refl q.head) (ground arith)

  reserve_here :
      (spurious : Bool) (q : Queue A)
      → push_claim n_slots spurious q.tail q ≡ (
          if spurious
          then (PushRound.again q.tail, q)
          else (reserved (position q.tail), record q { tail = q.tail + 2 }))
  unfolding push_claim
  reserve_here spurious q = rw (==_refl q.tail) (ground arith)

  module _ (large : 2 ≤ n_slots) where
    -- With two slots or more and fewer than 2^62, a consumer that releases a published slot changes
    -- no entry of a later position below 2^62.
    pub finish-entry :
        (pos : ℕ) (q : Queue A) (i : ℕ)
        → pos < i
        → i < 2 ^ 62
        → n_slots < 2 ^ 62
        → undead (seq_of n_slots q pos) ≡ pos + 1
        → entry n_slots (consume n_slots pos q).1 i ≡ entry n_slots q i
    unfolding consume release
    finish-entry pos q i later small fits held = elim (Bool-cases (pos % n_slots == i % n_slots)) [
      | inl slot ↦
          let e : i % n_slots ≡ pos % n_slots = ground arith in
          let was : seq_of n_slots q i ≡ seq_of n_slots q pos = ap q.seq e in
          hole_lem n_slots (consume n_slots pos q).1 i small (after e slot)
          ∙ sym (hole_lem n_slots q i small (λ h. omega arith))
      | inr slot ↦ entry_same n_slots q (consume n_slots pos q).1 i (ground arith) refl
    ]
      where
        after :
            i % n_slots ≡ pos % n_slots
            → (pos % n_slots == i % n_slots) ≡ true
            → undead (seq_of n_slots (consume n_slots pos q).1 i) ≢ i + 1
        after e slot h = apart_lap n_slots i pos large e (ground arith)

    -- In a valid queue of two slots or more, with positions below 2^62, a consumer that looks at
    -- the head with the head's own value decides by the entry there: a hole or nothing is empty,
    -- whatever is published behind it, a tombstone is passed over, and an event is claimed, unless
    -- its compare-and-swap fails for no reason, when it looks again at the same head. No other thread
    -- comes between its look and its compare-and-swap.
    pub pop_round_decided :
        (spurious : Bool) (q : Queue A)
        → IsValid n_slots q
        → InRange n_slots q
        → pop_round n_slots spurious q.head q ≡ answer spurious (entry n_slots q q.head) q
    unfolding pop_look answer
    pop_round_decided spurious q v r = go (v.lap q.head (omega arith) (omega arith))
      where
        raw : ℕ
        raw = seq_of n_slots q q.head

        none_there :
            undead raw < q.head + 1
            → pop_round n_slots spurious q.head q ≡ answer spurious (entry n_slots q q.head) q
        none_there lt =
            let e1 : (sub64 (undead raw) (q.head + 1) == 0) ≡ false =
              ground (arith, r.positions, v.behind) in
            let e2 : leb dead_bit (sub64 (undead raw) (q.head + 1)) ≡ true =
              ground (arith, r.positions, v.behind) in
            pop_round-look spurious q.head q nothing (rw (e1, e2) refl)
            ∙ ap (λ e. answer spurious e q)
                (sym (
                  hole_lem n_slots q q.head (omega (arith, r.positions, v.behind))
                    (λ h. omega arith)))

        go :
            SlotOk n_slots (position q.tail) q.head raw
            → pop_round n_slots spurious q.head q ≡ answer spurious (entry n_slots q q.head) q
        go (free f) = none_there (omega (arith, r.positions, v.behind))
        go (draining le f b) = none_there (omega arith)
        go (published lt f b) =
            let e1 : (sub64 (undead raw) (q.head + 1) == 0) ≡ true = ground arith in
            elim (Bool-cases (leb dead_bit raw)) [
              | inl d ↦
                  pop_round-look spurious q.head q (PopLook.tries true) (rw (e1, d) refl)
                  ∙ claim_here spurious true q
                  ∙ ap (λ e. answer spurious e q) (sym (dead_lem n_slots q q.head (ground arith)))
              | inr d ↦
                  pop_round-look spurious q.head q (PopLook.tries false) (rw (e1, d) refl)
                  ∙ claim_here spurious false q
                  ∙ ap (λ e. answer spurious e q) (sym (event_lem n_slots q q.head (ground arith)))
            ]

    -- In a valid queue of two slots or more, with positions below 2^62, a producer that looks with
    -- the tail's own word is refused if the queue is closed, gets the position if its slot is free,
    -- unless its compare-and-swap fails for no reason, when it looks again at the same word, and
    -- otherwise finds the queue full. No other thread comes between its look and its
    -- compare-and-swap.
    pub push_round_decided :
        (spurious : Bool) (q : Queue A)
        → IsValid n_slots q
        → InRange n_slots q
        → push_round n_slots spurious q.tail q ≡ (
            if is_closed q.tail
            then (refused Push.closed, q)
            else if seq_of n_slots q (position q.tail) == position q.tail
            then if spurious
              then (PushRound.again q.tail, q)
              else (reserved (position q.tail), record q { tail = q.tail + 2 })
            else (refused Push.full, q))
    unfolding push_look
    push_round_decided spurious q v r = go (in_lap n_slots q.head (position q.tail) (omega arith))
      where
        pos : ℕ
        pos = position q.tail

        raw : ℕ
        raw = seq_of n_slots q pos

        Goal : Type 0
        Goal = push_round n_slots spurious q.tail q ≡ (
            if is_closed q.tail
            then (refused Push.closed, q)
            else if raw == pos
            then if spurious
              then (PushRound.again q.tail, q)
              else (reserved pos, record q { tail = q.tail + 2 })
            else (refused Push.full, q))

        Decided : Bool → Type 0
        Decided free_slot = push_round n_slots spurious q.tail q ≡ (
            if is_closed q.tail
            then (refused Push.closed, q)
            else if free_slot
            then if spurious
              then (PushRound.again q.tail, q)
              else (reserved pos, record q { tail = q.tail + 2 })
            else (refused Push.full, q))

        shut : (b : Bool) → is_closed q.tail ≡ true → Decided b
        shut b c = rw c (push_round-look spurious q.tail q (stopped Push.closed) (rw c refl))

        room : raw ≡ pos → Goal
        room f =
            let e1 : (sub64 (undead raw) pos == 0) ≡ true = ground (arith, r.positions) in
            let e2 : (raw == pos) ≡ true = ground arith in
            subst Decided (sym e2) (elim (Bool-cases (is_closed q.tail)) [
              | inl c ↦ shut true c
              | inr c ↦ rw c (
                  push_round-look spurious q.tail q PushLook.tries (rw (c, e1) refl)
                  ∙ reserve_here spurious q)
            ])

        stuck : undead raw < pos → Goal
        stuck lt =
            let e1 : (sub64 (undead raw) pos == 0) ≡ false = ground (arith, r.positions) in
            let e2 : leb dead_bit (sub64 (undead raw) pos) ≡ true = ground (arith, r.positions) in
            let e3 : (raw == pos) ≡ false = ground (arith, r.positions) in
            subst Decided (sym e3) (elim (Bool-cases (is_closed q.tail)) [
              | inl c ↦ shut false c
              | inr c ↦
                  rw c (push_round-look spurious q.tail q (stopped Push.full) (rw (c, e1, e2) refl))
            ])

        go :
            ((j : ℕ) × (q.head ≤ j) × (j < q.head + n_slots) × (j % n_slots ≡ pos % n_slots)) → Goal
        go (j, lo, hi, e) =
            let same : seq_of n_slots q j ≡ raw = ap q.seq e in
            let not_after : j ≤ pos = elim (Bool-cases (leb j pos)) [
              | inl le ↦ ground arith
              | inr gt ↦ absurd (slots-ne n_slots pos j (ground arith) (omega (arith, v.behind)) e)
            ] in
            elim (v.lap j lo hi) [
              | free f ↦ elim (Bool-cases (j == pos)) [
                | inl at ↦ room (ground arith)
                | inr before ↦ stuck (ground (arith, r.positions))
              ]
              | published lt f b ↦ stuck (omega (arith, apart_next n_slots j pos large e))
              | draining le f b ↦ stuck (omega arith)
            ]
