-- ===== src/Mpmc/Locked/Fifo.antt =====
-- The batch loops of the locked ring, and what a sequence of its calls does to the order of events.
use principal_katas.Prelude.{
  ℕ, zero, suc, ◌-◌, ◌≤◌, ◌<◌, ◌≡◌, refl, sym, ap, ◌∙◌, inl, inr, ◌⊎◌, Bool, true, false, ◌||◌,
  Option, none, some, List, [], ◌∷◌, ◌++◌, arith, ◌==◌, ltb, min, length, append_assoc, snoc-append,
  window, Bool-cases, if◌then◌else◌,
}
use principal_katas.Mpmc.Api.{Push, Pop, no_stats}
use principal_katas.Mpmc.Locked.{
  Queue, Outcome, put, take, try_push, try_pop, put_all, take_up_to, close, new_queue,
}
use principal_katas.Mpmc.Locked.Valid.{
  IsValid, contents, length-contents, put_lem, take_lem, closed-put, closed-take,
  locked_push_refines, locked_pop_refines,
}

module _ {A : Type 0} (n_slots : ℕ) where
  -- what `put_all` does: it accepts a prefix of the items, and stops early only at a full queue
  pub record PutAll (vs : List A) (q : Queue A) (out : List A × Queue A) : Type 0 where
    pub valid : IsValid n_slots out.1
    pub order : contents n_slots out.1 ++ out.0 ≡ contents n_slots q ++ vs
    pub stops : (out.0 ≡ []) ⊎ (out.1.size ≡ n_slots)
    pub same_closed : out.1.closed ≡ q.closed

  pub put_all-PutAll :
      (vs : List A) (q : Queue A) → IsValid n_slots q → PutAll vs q (put_all n_slots vs q)
  unfolding put_all
  put_all-PutAll [] q h = record { valid = h; order = refl; stops = inl refl; same_closed = refl }
  put_all-PutAll (v ∷ vs) q h = elim (Bool-cases (ltb q.size n_slots)) [
    | inl room ↦
        let (valid, appended) = put_lem n_slots v q h (ground arith) in
        let ih = put_all-PutAll vs (put n_slots v q) valid in
        rw room (record {
          valid = ih.valid;
          order = ih.order ∙ ap (λ l. l ++ vs) appended ∙ snoc-append (contents n_slots q) v vs;
          stops = ih.stops;
          same_closed = ih.same_closed ∙ closed-put n_slots v q;
        })
    | inr no_room ↦ rw no_room (record {
      valid = h;
      order = refl;
      stops = inr (ground (arith, h.size_in));
      same_closed = refl;
    })
  ]

  -- what `take_up_to` does: it takes the oldest events, in order, as many as there are up to `max`
  pub record TakeUpTo (max : ℕ) (q : Queue A) (out : List A × Queue A) : Type 0 where
    pub valid : IsValid n_slots out.1
    pub order : contents n_slots q ≡ out.0 ++ contents n_slots out.1
    pub count : length out.0 ≡ min max q.size
    pub same_closed : out.1.closed ≡ q.closed

  size-take : (q : Queue A) → (take n_slots q).1.size ≡ q.size - 1
  unfolding take
  size-take q = refl

  pub take_up_to-TakeUpTo :
      (max : ℕ) (q : Queue A) → IsValid n_slots q → TakeUpTo max q (take_up_to n_slots max q)
  unfolding take_up_to
  take_up_to-TakeUpTo zero q h = record {
    valid = h;
    order = refl;
    count = omega arith;
    same_closed = refl;
  }
  take_up_to-TakeUpTo (suc max) q h = elim (Bool-cases (q.size == 0)) [
    | inl empty ↦
        rw empty (record { valid = h; order = refl; count = ground arith; same_closed = refl })
    | inr some_held ↦
        let (valid, taken) = take_lem n_slots q h (ground arith) in
        let ih = take_up_to-TakeUpTo max (take n_slots q).1 valid in
        rw some_held (record {
          valid = ih.valid;
          order = taken ∙ ap (λ l. (take n_slots q).0 ∷ l) ih.order;
          count = ground (arith, ih.count, size-take q);
          same_closed = ih.same_closed ∙ closed-take n_slots q;
        })
  ]

-- A client's calls, each a critical section.
pub data Call (A : Type 0) : Type 0 where
  push : A → Call A
  pop : Call A
  pop_some : ℕ → Call A
  shut : Call A

-- The queue, the events accepted and the events delivered so far.
pub record Log (A : Type 0) : Type 0 where
  pub queue : Queue A
  pub accepted : List A
  pub delivered : List A

module _ {A : Type 0} (n_slots : ℕ) where
  accept : Push → A → List A → List A
  accept Push.ok v l = l ++ v ∷ []
  accept r v l = l

  deliver : Option A → List A → List A
  deliver (some v) l = l ++ v ∷ []
  deliver none l = l

  pub call : Call A → Log A → Log A
  unfolding accept deliver
  call (push v) l =
      let o = try_push n_slots v no_stats l.queue in
      record l { queue = o.queue; accepted = accept o.result v l.accepted }
  call pop l =
      let o = try_pop n_slots no_stats l.queue in
      record l { queue = o.queue; delivered = deliver o.result.1 l.delivered }
  call (pop_some n) l =
      let (vs, q) = take_up_to n_slots n l.queue in
      record l { queue = q; delivered = l.delivered ++ vs }
  call shut l = record l { queue = (close l.queue).0 }

  pub calls : List (Call A) → Log A → Log A
  calls [] l = l
  calls (c ∷ cs) l = calls cs (call c l)

  record Inv (l : Log A) : Type 0 where
    valid : IsValid n_slots l.queue
    history : l.accepted ≡ l.delivered ++ contents n_slots l.queue

  push-Inv : (v : A) (l : Log A) → Inv l → Inv (call (push v) l)
  unfolding call
  push-Inv v l inv =
      let r = locked_push_refines n_slots v no_stats l.queue inv.valid in
      record { valid = r.0; history = go _ _ _ r.1 r.2 }
    where
      go :
          (res : Push) (c f : Bool)
          → res ≡ (if c then Push.closed else if f then Push.full else Push.ok)
          → contents n_slots (try_push n_slots v no_stats l.queue).queue
            ≡ (if c || f then contents n_slots l.queue else contents n_slots l.queue ++ v ∷ [])
          → accept res v l.accepted
            ≡ l.delivered ++ contents n_slots (try_push n_slots v no_stats l.queue).queue
      go res true f e k = rw (e, k) inv.history
      go res false true e k = rw (e, k) inv.history
      go res false false e k =
          rw (e, k)
            (ap (λ h. h ++ v ∷ []) inv.history
              ∙ append_assoc l.delivered (contents n_slots l.queue) (v ∷ []))

  pop-Inv : (l : Log A) → Inv l → Inv (call pop l)
  unfolding call deliver
  pop-Inv l inv =
      let r = locked_pop_refines n_slots no_stats l.queue inv.valid in
      record { valid = r.0; history = go r.2 }
    where
      out : Outcome (Pop × Option A) A
      out = try_pop n_slots no_stats l.queue

      go :
          ((out.result ≡ (Pop.empty, none))
              × (contents n_slots l.queue ≡ [])
              × (out.queue ≡ l.queue))
            ⊎ ((v : A) × (out.result ≡ (Pop.ok, some v))
                × (contents n_slots l.queue ≡ v ∷ contents n_slots out.queue))
          → l.accepted ≡ deliver out.result.1 l.delivered ++ contents n_slots out.queue
      go (inl (e, k, same)) = rw (e, same) inv.history
      go (inr (v, e, k)) = rw e (
          inv.history
          ∙ ap (λ h. l.delivered ++ h) k
          ∙ sym (snoc-append l.delivered v (contents n_slots out.queue)))

  call-Inv : (c : Call A) (l : Log A) → Inv l → Inv (call c l)
  unfolding call close
  call-Inv (push v) l inv = push-Inv v l inv
  call-Inv pop l inv = pop-Inv l inv
  call-Inv (pop_some n) l inv =
      let t = take_up_to-TakeUpTo n_slots n l.queue inv.valid in
      record {
        valid = t.valid;
        history =
            inv.history
            ∙ ap (λ h. l.delivered ++ h) t.order
            ∙ sym (append_assoc l.delivered (take_up_to n_slots n l.queue).0 _);
      }
  call-Inv shut l inv = record {
    valid = record { head_in = inv.valid.head_in; size_in = inv.valid.size_in };
    history = inv.history;
  }

  calls-Inv : (cs : List (Call A)) (l : Log A) → Inv l → Inv (calls cs l)
  unfolding calls
  calls-Inv [] l inv = inv
  calls-Inv (c ∷ cs) l inv = calls-Inv cs (call c l) (call-Inv c l inv)

  -- Whatever calls of `try_push`, of `try_pop`, of the part of `pop_batch` that takes events, and of
  -- `close` follow one another on a new queue of at least one slot, its events are those accepted
  -- and not yet delivered, in the order of acceptance, and at most as many as it has slots: none is
  -- lost, doubled or overtaken.
  pub calls_lossless :
      (cs : List (Call A)) (ring : ℕ → A)
      → 0 < n_slots
      → let l = calls cs (record { queue = new_queue ring; accepted = []; delivered = [] }) in
        (l.accepted ≡ l.delivered ++ contents n_slots l.queue)
        × (length (contents n_slots l.queue) ≤ n_slots)
  unfolding window
  calls_lossless cs ring h =
      let l0 : Log A = record { queue = new_queue ring; accepted = []; delivered = [] } in
      let inv = calls-Inv cs l0 (record { valid = omega arith; history = refl }) in
      (inv.history, omega (arith, inv.valid, length-contents n_slots (calls cs l0).queue))
