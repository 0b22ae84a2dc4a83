-- ===== src/Mpmc/Turnstile/Reached.antt =====
-- Whatever the threads do, in any order, no thread writes a slot that another has.
use principal_katas.Prelude.{
  ℕ, ◌+◌, ◌*◌, ◌%◌, ◌≤◌, ◌<◌, ◌≡◌, ◌≢◌, refl, sym, subst, ap, ◌∙◌, inl, inr, Bool, true, false, not,
  ◌&&◌, ◌==◌, put_at, arith, Bool-cases, if◌then◌else◌,
}
use principal_katas.Mpmc.Turnstile.{
  Queue, PushLook, PopLook, reserved, claimed, claimed_dead, position, undead, tombstone, seq_of,
  is_closed, push_look, push_claim, take_ticket, is_turn, publish, pay_ticket, pop_look, pop_claim,
  consume, release, close, Step,
}
use principal_katas.Mpmc.Turnstile.Valid.{
  IsValid, InRange, new_queue-IsValid, free, published, draining, in_lap, apart_next, apart_lap,
}
use principal_katas.Mpmc.Turnstile.Steps.{step-IsValid}
use principal_katas.Mpmc.Turnstile.Exclusive.{HasTurn, HasClaim}
use principal_katas.Mpmc.Turnstile.Threads.{System, held_after, claims_after, Move, Reach}
use principal_katas.Mpmc.Turnstile.Owned.{
  Owned, Grows, each_set, each_kept, Grows-Owned, turn-Writes, claim-Writes, Writes-Owned,
}

put_false : (f : ℕ → Bool) (i : ℕ) (p : ℕ) → put_at f i false p ≡ true → (f p ≡ true) × (i ≢ p)
put_false f i = each_kept (λ p. (f p ≡ true) × (i ≢ p)) f i (λ j ne e. (e, ne))

put_false_rest : (f : ℕ → Bool) (i p : ℕ) → f p ≡ false → put_at f i false p ≡ false
put_false_rest f i p e = ground arith

module _ {A : Type 0} (n_slots : ℕ) where
  same-Grows : (q : Queue A) → Grows q q
  same-Grows q = record { same_seq = refl; tail_on = omega arith; head_on = omega arith }

  module _ (large : 2 ≤ n_slots) where
    -- A look that finds a slot free finds its sequence at the position.
    free_look :
        (word : ℕ) (q : Queue A)
        → IsValid n_slots q
        → InRange n_slots q
        → word ≤ q.tail
        → push_look n_slots word q ≡ PushLook.tries
        → seq_of n_slots q (position word) ≡ position word
    unfolding push_look
    free_look word q v r le e = go (in_lap n_slots q.head (position word) (omega arith))
      where
        at : undead (seq_of n_slots q (position word)) ≡ position word
        at = ground (arith, e, r.positions)

        go :
            ((i : ℕ) × (q.head ≤ i)
              × (i < q.head + n_slots)
              × (i % n_slots ≡ position word % n_slots))
            → seq_of n_slots q (position word) ≡ position word
        go (i, lo, hi, slot) =
            let same : seq_of n_slots q i ≡ seq_of n_slots q (position word) = ap q.seq slot in
            elim (v.lap i lo hi) [
              | free f ↦ omega (arith, same, f, at, hi, v.behind, r.positions, r.fits)
              | published lt f b ↦ absurd (
                  apart_next n_slots i (position word) large slot
                    (omega (arith, ap undead same, f, at)))
              | draining le' f b ↦ absurd (
                  apart_lap n_slots i (position word) large slot
                    (omega (arith, ap undead same, f, at)))
            ]

    full_look :
        (pos : ℕ) (d : Bool) (q : Queue A)
        → InRange n_slots q
        → pos ≤ q.head
        → q.head ≤ position q.tail
        → pop_look n_slots pos q ≡ PopLook.tries d
        → undead (seq_of n_slots q pos) ≡ pos + 1
    unfolding pop_look
    full_look pos d q r le le' e = ground (arith, e, r.positions)

    reserve-Owned :
        (spurious : Bool) (word : ℕ) (s : System A)
        → Owned n_slots s
        → InRange n_slots s.queue
        → s.looked word ≡ true
        → Owned n_slots (record s {
          queue = (push_claim n_slots spurious word s.queue).1;
          held = held_after (push_claim n_slots spurious word s.queue).0 s.held;
        })
    unfolding push_claim
    reserve-Owned spurious word s o r l = elim (Bool-cases (s.queue.tail == word && not spurious)) [
      | inr lost ↦ rw lost o
      | inl won ↦
          let at : s.queue.tail ≡ word = ground arith in
          let q' : Queue A = record s.queue { tail = word + 2 } in
          let step : push_claim n_slots spurious word s.queue ≡ (reserved (position word), q') =
            rw won refl in
          rw won (
            Grows-Owned n_slots large s
              (record s { queue = q'; held = put_at s.held (position word) true }) o
              (record { same_seq = refl; tail_on = omega arith; head_on = omega arith })
              (subst (λ x. IsValid n_slots x.1) step
                (step-IsValid n_slots large o.valid r (Step.reserve spurious word)))
              (λ w e. inl e)
              (each_set _ s.held (position word) (λ p e. inl e)
                (inr (record { is_reserved = omega arith; is_free = (o.looked_ok word l).1 at })))
              (λ w e.
                let (lt, none_held) = o.ticket_ok w e in
                (omega (arith, lt, at), apart w (omega (arith, lt, at)) none_held))
              (λ p e. inl e) (λ p e. inl e))
    ]
      where
        apart :
            (w : ℕ)
            → position w < position word
            → s.held (position w) ≡ false
            → put_at s.held (position word) true (position w) ≡ false
        apart w lt none_held = ground (arith, lt)

    claim-Owned :
        (spurious d : Bool) (pos : ℕ) (s : System A)
        → Owned n_slots s
        → InRange n_slots s.queue
        → s.seen pos ≡ true
        → Owned n_slots (record s {
          queue = (pop_claim n_slots spurious d pos s.queue).1;
          claims = claims_after (pop_claim n_slots spurious d pos s.queue).0 s.claims;
        })
    unfolding pop_claim
    claim-Owned spurious d pos s o r l = elim (Bool-cases (s.queue.head == pos && not spurious)) [
      | inr lost ↦ rw lost o
      | inl won ↦
          let at : s.queue.head ≡ pos = ground arith in
          let full = (o.seen_ok pos l).1 in
          let q' : Queue A = record s.queue { head = pos + 1 } in
          let step : pop_claim n_slots spurious d pos s.queue
              ≡ (if d then claimed_dead pos else claimed pos, q') =
            rw won refl in
          rw (won, same_claims d)
            (Grows-Owned n_slots large s
              (record s { queue = q'; claims = put_at s.claims pos true }) o
              (record { same_seq = refl; tail_on = omega arith; head_on = omega arith })
              (subst (λ x. IsValid n_slots x.1) step
                (step-IsValid n_slots large o.valid r (Step.claim spurious d pos full)))
              (λ w e. inl e) (λ p e. inl e) (λ w e. o.ticket_ok w e) (λ p e. inl e)
              (each_set _ s.claims pos (λ p e. inl e)
                (inr (record { is_passed = omega arith; is_published = full at }))))
    ]
      where
        same_claims :
            (d : Bool)
            → claims_after (if d then claimed_dead pos else claimed pos) s.claims
              ≡ put_at s.claims pos true
        same_claims true = refl
        same_claims false = refl

    -- a turn and a claim are not of one position
    pub turn_claim_ne :
        (q : Queue A) (pos p : ℕ)
        → InRange n_slots q
        → HasTurn n_slots q pos
        → HasClaim n_slots q p
        → pos ≢ p
    turn_claim_ne q pos p r t c e =
        let same : seq_of n_slots q pos ≡ seq_of n_slots q p = ap (seq_of n_slots q) e in
        omega (arith, same, e, t.is_free, t.is_reserved, c.is_published, r.positions)

    publish-Step :
        (pos : ℕ) (v : A) (q : Queue A)
        → HasTurn n_slots q pos
        → Step n_slots q (publish n_slots pos v q)
    unfolding pay_ticket
    publish-Step pos v q t =
        let at : position (2 * pos) ≡ pos = omega arith in
        let open_word : is_closed (2 * pos) ≡ false = ground arith in
        let same : (pay_ticket n_slots (2 * pos) v q).1 ≡ publish n_slots pos v q =
          rw open_word (ap (λ k. publish n_slots k v q) at) in
        subst (Step n_slots q) same (
          Step.pay (2 * pos) v (omega (arith, at, t.is_reserved))
            (ap (seq_of n_slots q) at ∙ t.is_free ∙ sym at))

    fill-Owned :
        (pos : ℕ) (v : A) (s : System A)
        → Owned n_slots s
        → InRange n_slots s.queue
        → s.held pos ≡ true
        → Owned n_slots
            (record s { queue = publish n_slots pos v s.queue; held = put_at s.held pos false })
    unfolding publish
    fill-Owned pos v s o r h =
        let t = o.held_ok pos h in
        let q' = publish n_slots pos v s.queue in
        Writes-Owned n_slots large s (record s { queue = q'; held = put_at s.held pos false }) pos o
          r (turn-Writes n_slots large s.queue q' pos (pos + 1) r t refl refl refl)
          (step-IsValid n_slots large o.valid r (publish-Step pos v s.queue t)) refl refl
          t.is_reserved (inr t.is_free) (put_false s.held pos) (λ w e. e)
          (put_false_rest s.held pos) (λ p e. (e, turn_claim_ne s.queue pos p r t (o.claim_ok p e)))

    pay-Owned :
        (word : ℕ) (v : A) (s : System A)
        → Owned n_slots s
        → InRange n_slots s.queue
        → s.tickets word ≡ true
        → is_turn n_slots (position word) s.queue ≡ true
        → Owned n_slots (record s {
          queue = (pay_ticket n_slots word v s.queue).1;
          tickets = put_at s.tickets word false;
        })
    unfolding pay_ticket publish
    pay-Owned word v s o r h turn =
        let pos = position word in
        let (lt, none_held) = o.ticket_ok word h in
        let free : seq_of n_slots s.queue pos ≡ pos = ground arith in
        let t : HasTurn n_slots s.queue pos = record { is_reserved = lt; is_free = free } in
        let q' = (pay_ticket n_slots word v s.queue).1 in
        Writes-Owned n_slots large s
          (record s { queue = q'; tickets = put_at s.tickets word false }) pos o r
          (turn-Writes n_slots large s.queue q' pos
            (if is_closed word then tombstone pos else pos + 1) r t (ground arith) (ground arith)
            (ground arith))
          (step-IsValid n_slots large o.valid r (Step.pay word v lt free)) refl refl lt (inr free)
          (λ p e. (e, apart p none_held e)) (λ w e. (put_false s.tickets word w e).0) (λ p e. e)
          (λ p e. (e, turn_claim_ne s.queue pos p r t (o.claim_ok p e)))
      where
        apart : (p : ℕ) → s.held (position word) ≡ false → s.held p ≡ true → position word ≢ p
        apart p none_held e same =
            let at : s.held (position word) ≡ s.held p = ap s.held same in ground (arith, at)

    finish-Owned :
        (pos : ℕ) (s : System A)
        → Owned n_slots s
        → InRange n_slots s.queue
        → s.claims pos ≡ true
        → Owned n_slots (record s {
          queue = (consume n_slots pos s.queue).1;
          claims = put_at s.claims pos false;
        })
    unfolding consume release
    finish-Owned pos s o r h =
        let c = o.claim_ok pos h in
        let q' = (consume n_slots pos s.queue).1 in
        Writes-Owned n_slots large s (record s { queue = q'; claims = put_at s.claims pos false })
          pos o r (claim-Writes n_slots large s.queue q' pos (pos + n_slots) c refl refl refl)
          (step-IsValid n_slots large o.valid r (Step.finish pos c.is_passed c.is_published)) refl
          refl (omega (arith, c.is_passed, o.valid.behind))
          (inl (λ e. omega (arith, c.is_passed, e)))
          (λ p e. (e, λ same. turn_claim_ne s.queue p pos r (o.held_ok p e) c (sym same)))
          (λ w e. e) (λ p e. e) (put_false s.claims pos)

    moves-Owned :
        (s : System A) (q' : Queue A) (f : ℕ → Bool)
        → Owned n_slots s
        → Grows s.queue q'
        → IsValid n_slots q'
        → ((w : ℕ) → f w ≡ true → (position w < position q'.tail) × (s.held (position w) ≡ false))
        → Owned n_slots (record s { queue = q'; tickets = f })
    moves-Owned s q' f o g v tickets =
        Grows-Owned n_slots large s (record s { queue = q'; tickets = f }) o g v (λ w e. inl e)
          (λ p e. inl e) tickets (λ p e. inl e) (λ p e. inl e)

    ticket-Owned :
        (s : System A)
        → Owned n_slots s
        → InRange n_slots s.queue
        → Owned n_slots (record s {
          queue = (take_ticket n_slots s.queue).1;
          tickets = put_at s.tickets (take_ticket n_slots s.queue).0 true;
        })
    unfolding take_ticket
    ticket-Owned s o r =
        moves-Owned s (take_ticket n_slots s.queue).1
          (put_at s.tickets (take_ticket n_slots s.queue).0 true) o
          (record { same_seq = refl; tail_on = omega arith; head_on = omega arith })
          (step-IsValid n_slots large o.valid r Step.ticket)
          (each_set _ s.tickets s.queue.tail
            (λ w e. let (lt, none_held) = o.ticket_ok w e in (omega (arith, lt), none_held))
            (
              omega arith,
              elim (Bool-cases (s.held (position s.queue.tail))) [
                | inr no_hold ↦ no_hold
                | inl hold ↦
                    absurd (omega (arith, (o.held_ok (position s.queue.tail) hold).is_reserved))
              ],
            ))

    close-Owned :
        (s : System A)
        → Owned n_slots s
        → InRange n_slots s.queue
        → Owned n_slots (record s { queue = close s.queue })
    unfolding close
    close-Owned s o r =
        moves-Owned s (close s.queue) s.tickets o
          (record { same_seq = refl; tail_on = ground arith; head_on = omega arith })
          (step-IsValid n_slots large o.valid r Step.shut)
          (λ w e. let (lt, none_held) = o.ticket_ok w e in (ground (arith, lt), none_held))

    move-Owned :
        {s s' : System A}
        → Owned n_slots s
        → InRange n_slots s.queue
        → Move n_slots s s'
        → Owned n_slots s'
    move-Owned {s} o r (Move.look word le e) =
        Grows-Owned n_slots large s (record s { looked = put_at s.looked word true }) o
          (same-Grows s.queue) o.valid
          (each_set _ s.looked word (λ w h. inl h)
            (inr (le, free_look word s.queue o.valid r le e)))
          (λ p h. inl h) (λ w h. o.ticket_ok w h) (λ p h. inl h) (λ p h. inl h)
    move-Owned {s} o r (Move.reserve spurious word l) = reserve-Owned spurious word s o r l
    move-Owned {s} o r (Move.fill pos v h) = fill-Owned pos v s o r h
    move-Owned {s} o r Move.ticket = ticket-Owned s o r
    move-Owned {s} o r (Move.pay word v h turn) = pay-Owned word v s o r h turn
    move-Owned {s} o r (Move.see pos d le e) =
        Grows-Owned n_slots large s (record s { seen = put_at s.seen pos true }) o
          (same-Grows s.queue) o.valid (λ w h. inl h) (λ p h. inl h) (λ w h. o.ticket_ok w h)
          (each_set _ s.seen pos (λ p h. inl h)
            (inr (le, full_look pos d s.queue r le o.valid.behind e)))
          (λ p h. inl h)
    move-Owned {s} o r (Move.claim spurious d pos l) = claim-Owned spurious d pos s o r l
    move-Owned {s} o r (Move.finish pos h) = finish-Owned pos s o r h
    move-Owned {s} o r Move.shut = close-Owned s o r

    pub reach-Owned : {storage : ℕ → A} {s : System A} → Reach n_slots storage s → Owned n_slots s
    reach-Owned {storage} Reach.start = record {
      valid = new_queue-IsValid n_slots large storage;
      looked_ok = λ w e. absurd (ground (arith, e));
      held_ok = λ p e. absurd (ground (arith, e));
      ticket_ok = λ w e. absurd (ground (arith, e));
      seen_ok = λ p e. absurd (ground (arith, e));
      claim_ok = λ p e. absurd (ground (arith, e));
    }
    reach-Owned (Reach.next r small m) = move-Owned (reach-Owned r) small m
