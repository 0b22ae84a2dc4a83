-- ===== src/Mpmc/Turnstile/Undisturbed.antt =====
-- A slot is left alone by all threads but the one that has it.
use principal_katas.Prelude.{
  ℕ, ◌%◌, ◌≤◌, ◌<◌, ◌≡◌, ◌≢◌, refl, sym, ap, ◌∙◌, ◌⊎◌, inl, inr, Bool, true, false, ◌==◌, put_at,
  arith, Bool-cases,
}
use principal_katas.Mpmc.Turnstile.{
  Queue, PushRound, PopRound, position, undead, seq_of, publish, consume,
}
use principal_katas.Mpmc.Turnstile.Valid.{InRange, apart_next}
use principal_katas.Mpmc.Turnstile.Exclusive.{
  Kept, HasTurn, HasClaim, Kept-push, Kept-pop, Kept-rest, Kept-pay, Kept-finish,
}
use principal_katas.Mpmc.Turnstile.Threads.{System, held_after, claims_after, Move, Reach}
use principal_katas.Mpmc.Turnstile.Owned.{Owned}
use principal_katas.Mpmc.Turnstile.Reached.{reach-Owned}

set_kept : (f : ℕ → Bool) (i p : ℕ) → f p ≡ true → put_at f i true p ≡ true
set_kept f i p e = ground arith

unset_kept : (f : ℕ → Bool) (i p : ℕ) → i ≢ p → f p ≡ true → put_at f i false p ≡ true
unset_kept f i p ne e = ground arith

unset_at : (f : ℕ → Bool) (i : ℕ) → put_at f i false i ≡ false
unset_at f i = ground arith

held_stays : (r : PushRound) (f : ℕ → Bool) (p : ℕ) → f p ≡ true → held_after r f p ≡ true
held_stays (PushRound.refused x) f p e = e
held_stays (PushRound.reserved pos) f p e = set_kept f pos p e
held_stays (PushRound.again w) f p e = e

claims_stay : (r : PopRound) (f : ℕ → Bool) (p : ℕ) → f p ≡ true → claims_after r f p ≡ true
claims_stay PopRound.empty f p e = e
claims_stay (PopRound.claimed pos) f p e = set_kept f pos p e
claims_stay (PopRound.claimed_dead pos) f p e = set_kept f pos p e
claims_stay (PopRound.again w) f p e = e

==→≡ : (i j : ℕ) → (i == j) ≡ true → i ≡ j
==→≡ i j e = ground arith

module _ {A : Type 0} (n_slots : ℕ) where
  Kept-refl : (q : Queue A) (pos : ℕ) → Kept n_slots q q pos
  Kept-refl q pos = record { seq_kept = refl; storage_kept = refl }

  Kept-publish :
      (p : ℕ) (v : A) (q : Queue A) (pos : ℕ)
      → p % n_slots ≢ pos % n_slots
      → Kept n_slots q (publish n_slots p v q) pos
  unfolding publish
  Kept-publish p v q pos ne = record {
    seq_kept = ground (arith, ne);
    storage_kept = ground (arith, ne);
  }

  module _ (large : 2 ≤ n_slots) where
    -- the slots of two turns, of two claims, and of a turn and a claim
    turns_ne :
        (q : Queue A) (p pos : ℕ)
        → seq_of n_slots q p ≡ p
        → HasTurn n_slots q pos
        → p ≢ pos
        → p % n_slots ≢ pos % n_slots
    turns_ne q p pos f t ne e =
        let same : seq_of n_slots q p ≡ seq_of n_slots q pos = ap q.seq e in
        ne (sym f ∙ same ∙ t.is_free)

    claims_ne :
        (q : Queue A) (p pos : ℕ)
        → HasClaim n_slots q p
        → HasClaim n_slots q pos
        → p ≢ pos
        → p % n_slots ≢ pos % n_slots
    claims_ne q p pos c c' ne e =
        let same : seq_of n_slots q p ≡ seq_of n_slots q pos = ap q.seq e in
        ne (omega (arith, ap undead same, c.is_published, c'.is_published))

    turn_claim_slots :
        (q : Queue A) (p pos : ℕ)
        → InRange n_slots q
        → seq_of n_slots q p ≡ p
        → p < position q.tail
        → HasClaim n_slots q pos
        → p % n_slots ≢ pos % n_slots
    turn_claim_slots q p pos r f lt c e =
        let same : seq_of n_slots q p ≡ seq_of n_slots q pos = ap q.seq e in
        apart_next n_slots pos p large (sym e)
          (omega (arith, same, f, lt, c.is_published, r.positions))

    -- With two slots or more, and as long as the positions stay below 2^62, after any moves of any
    -- threads: while a consumer has claimed a position, every move leaves the slot and the event in
    -- it alone, and the claim stands, but for the release of that same position.
    pub claim_undisturbed :
        {storage : ℕ → A} {s s' : System A} (pos : ℕ)
        → Reach n_slots storage s
        → InRange n_slots s.queue
        → s.claims pos ≡ true
        → Move n_slots s s'
        → (Kept n_slots s.queue s'.queue pos × (s'.claims pos ≡ true))
          ⊎ ((s'.queue ≡ (consume n_slots pos s.queue).1) × (s'.claims pos ≡ false))
    claim_undisturbed {s = s} pos reach r h m = go (reach-Owned n_slots large reach) m
      where
        go :
            {s' : System A}
            → Owned n_slots s
            → Move n_slots s s'
            → (Kept n_slots s.queue s'.queue pos × (s'.claims pos ≡ true))
              ⊎ ((s'.queue ≡ (consume n_slots pos s.queue).1) × (s'.claims pos ≡ false))
        go o (Move.look word le e) = inl (Kept-refl s.queue pos, h)
        go o (Move.see p d le e) = inl (Kept-refl s.queue pos, h)
        go o (Move.reserve spurious word l) = inl (Kept-push n_slots spurious word s.queue pos, h)
        go o (Move.claim spurious d p l) =
            inl (Kept-pop n_slots spurious d p s.queue pos, claims_stay _ s.claims pos h)
        go o Move.ticket = inl ((Kept-rest n_slots s.queue pos).0, h)
        go o Move.shut = inl ((Kept-rest n_slots s.queue pos).1, h)
        go o (Move.fill p v held) =
            let t = o.held_ok p held in
            inl (
              Kept-publish p v s.queue pos
                  (turn_claim_slots s.queue p pos r t.is_free t.is_reserved (o.claim_ok pos h)),
              h,
            )
        go o (Move.pay word v ticket turn) = inl (
          Kept-pay n_slots word v s.queue pos (
              turn_claim_slots s.queue (position word) pos r (ground arith)
                (o.ticket_ok word ticket).0 (o.claim_ok pos h)),
          h,
        )
        go o (Move.finish p claimed) = elim (Bool-cases (p == pos)) [
          | inl same ↦ inr (
            ap (λ k. (consume n_slots k s.queue).1) (==→≡ p pos same),
            ap (λ k. put_at s.claims k false pos) (==→≡ p pos same) ∙ unset_at s.claims pos,
          )
          | inr other ↦
              let ne : p ≢ pos = ground arith in
              inl (
                Kept-finish n_slots p s.queue pos
                    (claims_ne s.queue p pos (o.claim_ok p claimed) (o.claim_ok pos h) ne),
                unset_kept s.claims p pos ne h,
              )
        ]

    -- In the same runs, while a producer has a position by its compare-and-swap, every move leaves
    -- the slot alone, and the position is still its own, but for its publication of that same
    -- position, which waits for nothing.
    pub hold_undisturbed :
        {storage : ℕ → A} {s s' : System A} (pos : ℕ)
        → Reach n_slots storage s
        → InRange n_slots s.queue
        → s.held pos ≡ true
        → Move n_slots s s'
        → (Kept n_slots s.queue s'.queue pos × (s'.held pos ≡ true))
          ⊎ ((v : A) × (s'.queue ≡ publish n_slots pos v s.queue) × (s'.held pos ≡ false))
    hold_undisturbed {s = s} pos reach r h m = go (reach-Owned n_slots large reach) m
      where
        go :
            {s' : System A}
            → Owned n_slots s
            → Move n_slots s s'
            → (Kept n_slots s.queue s'.queue pos × (s'.held pos ≡ true))
              ⊎ ((v : A) × (s'.queue ≡ publish n_slots pos v s.queue) × (s'.held pos ≡ false))
        go o (Move.look word le e) = inl (Kept-refl s.queue pos, h)
        go o (Move.see p d le e) = inl (Kept-refl s.queue pos, h)
        go o (Move.reserve spurious word l) =
            inl (Kept-push n_slots spurious word s.queue pos, held_stays _ s.held pos h)
        go o (Move.claim spurious d p l) = inl (Kept-pop n_slots spurious d p s.queue pos, h)
        go o Move.ticket = inl ((Kept-rest n_slots s.queue pos).0, h)
        go o Move.shut = inl ((Kept-rest n_slots s.queue pos).1, h)
        go o (Move.fill p v held) = elim (Bool-cases (p == pos)) [
          | inl same ↦ inr (
            v,
            ap (λ k. publish n_slots k v s.queue) (==→≡ p pos same),
            ap (λ k. put_at s.held k false pos) (==→≡ p pos same) ∙ unset_at s.held pos,
          )
          | inr other ↦
              let ne : p ≢ pos = ground arith in
              inl (
                Kept-publish p v s.queue pos
                    (turns_ne s.queue p pos (o.held_ok p held).is_free (o.held_ok pos h) ne),
                unset_kept s.held p pos ne h,
              )
        ]
        go o (Move.pay word v ticket turn) = inl (
          Kept-pay n_slots word v s.queue pos (
              turns_ne s.queue (position word) pos (ground arith) (o.held_ok pos h) (λ e.
                let at : s.held (position word) ≡ s.held pos = ap s.held e in
                ground (arith, at, (o.ticket_ok word ticket).1))),
          h,
        )
        go o (Move.finish p claimed) =
            let t = o.held_ok pos h in
            inl (
              Kept-finish n_slots p s.queue pos (λ e.
                  turn_claim_slots s.queue pos p r t.is_free t.is_reserved (o.claim_ok p claimed)
                    (sym e)),
              h,
            )
