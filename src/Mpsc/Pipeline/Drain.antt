-- ===== src/Mpsc/Pipeline/Drain.antt =====
-- The loop of `drain_ring`, to its end.
use principal_katas.Prelude.{
  ℕ, zero, suc, ◌+◌, ◌-◌, ◌≤◌, ◌<◌, ◌≡◌, ◌≢◌, refl, sym, subst, ap, ◌∙◌, ◌⊎◌, inl, inr, List, [],
  ◌∷◌, ◌++◌, arith, ◌==◌, ltb, add64, min, length, length-append, append-nil, append_assoc, put_at,
  Bool-cases, if◌then◌else◌, ltb→lt,
}
use principal_katas.Mpsc.Config.{Limits}
use principal_katas.Mpsc.Ring.{pop_batch}
use principal_katas.Mpsc.Ring.Valid.{IsValid, pop_batch-IsValid}
use principal_katas.Mpsc.Ring.Refine.{contents, pop_batch_refines}
use principal_katas.Mpsc.Pipeline.{Pipeline}
use principal_katas.Mpsc.Pipeline.Consumer.{set_ring, flush_if_full, drain_loop, drain_ring}
use principal_katas.Mpsc.Pipeline.Stream.{
  concat, IsLimits, stream, Drained, Drained-none, Drained-trans, Drained-flush, flush_staged,
}

pub put_same : {A : Type 0} (f : ℕ → A) (i : ℕ) (v : A) → put_at f i v i ≡ v
put_same f i v = ground arith

pub put_other : {A : Type 0} (f : ℕ → A) (i : ℕ) (v : A) (j : ℕ) → i ≢ j → put_at f i v j ≡ f j
put_other f i v j ne = ground (arith, ne)

room_ne : {a b c d : ℕ} → a < b → c < d → min (b - a) (d - c) ≢ 0
room_ne h k e = omega arith

pub length-none : {A : Type 0} (l : List A) → length l ≡ 0 → l ≡ []
length-none [] e = refl
length-none (x ∷ l) e = absurd (omega arith)

module _ {E : Type 0} (lim : Limits) where
  -- the pipeline after a batch went from ring `i` to the stage
  abbrev pub popped : ℕ → ℕ → Pipeline E → Pipeline E
  popped i room p =
      let (n, out, r) = pop_batch lim.ring_capacity room (p.slots i).ring in
      record (set_ring i r p) { staged = p.staged ++ out }

  abbrev pub batch : ℕ → ℕ → Pipeline E → List E
  batch i room p = (pop_batch lim.ring_capacity room (p.slots i).ring).1

  popped_none :
      (i room : ℕ) (p : Pipeline E)
      → batch i room p ≡ []
      → popped i room p ≡ set_ring i (pop_batch lim.ring_capacity room (p.slots i).ring).2 p
  popped_none i room p e =
      ap
        (λ l. record (set_ring i (pop_batch lim.ring_capacity room (p.slots i).ring).2 p) {
          staged = l;
        })
        (ap (λ l. p.staged ++ l) e ∙ append-nil p.staged)

  module _ (ok : IsLimits lim) where
    Drained-pop :
        (i room : ℕ) (p : Pipeline E)
        → IsValid lim.ring_capacity (p.slots i).ring
        → length p.staged + room ≤ lim.stage_events
        → Drained lim i p (batch i room p) (popped i room p)
    unfolding stream
    Drained-pop i room p v f =
        let (split, count, le, none_left) =
          pop_batch_refines lim.ring_capacity ok.capacity room v in
        let after : (popped i room p).slots i
            ≡ record (p.slots i) { ring = (pop_batch lim.ring_capacity room (p.slots i).ring).2 } =
          put_same p.slots i _ in
        record {
          valid = rw after (pop_batch-IsValid lim.ring_capacity ok.capacity room v);
          held = rw after split;
          streamed = sym (append_assoc (concat p.written) p.staged (batch i room p));
          fits = omega (arith, length-append p.staged (batch i room p));
          others = λ j ne. put_other p.slots i _ j ne;
          same_state = rw after refl;
          same_pushed = rw after refl;
          same_bits = refl;
          same_consumed = refl;
          same_retired = refl;
        }

    room_left :
        (p : Pipeline E)
        → length p.staged ≤ lim.stage_events
        → length (flush_if_full lim p).staged < lim.stage_events
    room_left p f = elim (Bool-cases (length p.staged == lim.stage_events)) [
      | inl full ↦ rw full (omega (arith, flush_staged p, ok.some_stage))
      | inr room ↦ rw room (ground arith)
    ]

    empty_after :
        (i : ℕ) (p : Pipeline E) (room : ℕ)
        → IsValid lim.ring_capacity (p.slots i).ring
        → batch i room p ≡ []
        → (room ≡ 0) ⊎ (contents lim.ring_capacity (p.slots i).ring ≡ [])
        → room ≢ 0
        → contents lim.ring_capacity
            ((set_ring i (pop_batch lim.ring_capacity room (p.slots i).ring).2 p).slots i).ring
          ≡ []
    empty_after i p room v nothing (inl z) ne = absurd (ne z)
    empty_after i p room v nothing (inr e) ne =
        let (split, c2, c3, c4) = pop_batch_refines lim.ring_capacity ok.capacity room v in
        rw
          (put_same p.slots i
            (record (p.slots i) { ring = (pop_batch lim.ring_capacity room (p.slots i).ring).2 }))
          (sym (
              ap
                (λ l.
                  l
                  ++ contents lim.ring_capacity
                      (pop_batch lim.ring_capacity room (p.slots i).ring).2)
                nothing)
            ∙ sym split
            ∙ e)

    -- What the loop does from `got` on: it ends with a full batch, or with the ring empty.
    pub record LoopEnd (i got : ℕ) (p : Pipeline E) (out : ℕ × Pipeline E) : Type 0 where
      pub events : List E
      pub drained : Drained lim i p events out.1
      pub count : out.0 ≡ got + length events
      pub capped : out.0 ≤ lim.drain_batch
      pub ends : (out.0 ≡ lim.drain_batch) ⊎ (contents lim.ring_capacity (out.1.slots i).ring ≡ [])

    pub drain_loop-LoopEnd :
        (i rounds got : ℕ) (p : Pipeline E)
        → IsValid lim.ring_capacity (p.slots i).ring
        → length p.staged ≤ lim.stage_events
        → got ≤ lim.drain_batch
        → lim.drain_batch ≤ got + rounds
        → LoopEnd i got p (drain_loop lim i rounds got p)
    unfolding drain_loop
    drain_loop-LoopEnd i zero got p v f le enough = record {
      events = [];
      drained = Drained-none lim i p v f;
      count = omega arith;
      capped = le;
      ends = inl (omega arith);
    }
    drain_loop-LoopEnd i (suc rounds) got p v f le enough =
        elim (Bool-cases (ltb got lim.drain_batch)) [
          | inr done ↦ rw done (record {
            events = [];
            drained = Drained-none lim i p v f;
            count = omega arith;
            capped = le;
            ends = inl (ground arith);
          })
          | inl more ↦
              let p1 = flush_if_full lim p in
              let d1 = Drained-flush lim i p v f in
              let room = min (lim.stage_events - length p1.staged) (lim.drain_batch - got) in
              let d2 = Drained-pop i room p1 d1.valid (omega (arith, d1.fits)) in
              let (split, count, le2, none_left) =
                pop_batch_refines lim.ring_capacity ok.capacity room d1.valid in
              let ih : (n : ℕ)
                  → n ≡ length (batch i room p1)
                  → got + n ≤ lim.drain_batch
                  → n ≢ 0
                  → LoopEnd i (got + n) (popped i room p1)
                      (drain_loop lim i rounds (got + n) (popped i room p1)) =
                λ n e le3 ne.
                  drain_loop-LoopEnd i rounds (got + n) (popped i room p1) d2.valid d2.fits le3
                    (omega (arith, ne)) in
              let n = (pop_batch lim.ring_capacity room (p1.slots i).ring).0 in
              elim (Bool-cases (n == 0)) [
                | inl z ↦
                    let nothing : batch i room p1 ≡ [] =
                      length-none (batch i room p1) (ground arith) in
                    rw (more, z)
                      (record {
                        events = [];
                        drained = subst (Drained lim i p []) (popped_none i room p1 nothing) (
                            subst (λ l. Drained lim i p l (popped i room p1)) nothing
                              (Drained-trans lim i d1 d2));
                        count = omega arith;
                        capped = le;
                        ends = inr (
                            empty_after i p1 room d1.valid nothing (none_left (ground arith))
                              (room_ne (room_left p f) (ltb→lt got lim.drain_batch more)));
                      })
                | inr some_taken ↦
                    let rest = ih n count (omega arith) (ground arith) in
                    rw (more, some_taken)
                      (record {
                        events = batch i room p1 ++ rest.events;
                        drained = Drained-trans lim i (Drained-trans lim i d1 d2) rest.drained;
                        count =
                            omega (
                              arith,
                              rest.count,
                              count,
                              length-append (batch i room p1) rest.events,
                            );
                        capped = rest.capped;
                        ends = rest.ends;
                      })
              ]
        ]

    -- With limits above zero and a ring capacity that divides 2^64, if the ring is valid and the
    -- stage has not overflowed: draining a ring sends its oldest events, in order, to the sink's
    -- stream, counts them, touches no other slot, takes at most a batch, and stops only at a full
    -- batch or an empty ring.
    pub drain_ring_lem :
        (i : ℕ) (p : Pipeline E)
        → IsValid lim.ring_capacity (p.slots i).ring
        → length p.staged ≤ lim.stage_events
        → let (got, p') = drain_ring lim i p in
          (out : List E) × (contents lim.ring_capacity (p.slots i).ring
            ≡ out ++ contents lim.ring_capacity (p'.slots i).ring)
          × (stream p' ≡ stream p ++ out)
          × ((j : ℕ) → p'.slots j ≡ (if i == j then p'.slots i else p.slots j))
          × (got ≡ length out)
          × (got ≤ lim.drain_batch)
          × (p'.consumed ≡ add64 p.consumed got)
          × ((got ≡ lim.drain_batch) ⊎ (contents lim.ring_capacity (p'.slots i).ring ≡ []))
    unfolding drain_ring stream
    drain_ring_lem i p v f =
        let e = drain_loop-LoopEnd i lim.drain_batch 0 p v f (omega arith) (omega arith) in
        (
          e.events,
          e.drained.held,
          e.drained.streamed,
          λ j. others (drain_loop lim i lim.drain_batch 0 p).1 j (e.drained.others j),
          omega (arith, e.count),
          e.capped,
          ap (λ k. add64 k (drain_loop lim i lim.drain_batch 0 p).0) e.drained.same_consumed,
          e.ends,
        )
      where
        others :
            (p' : Pipeline E) (j : ℕ)
            → (i ≢ j → p'.slots j ≡ p.slots j)
            → p'.slots j ≡ (if i == j then p'.slots i else p.slots j)
        others p' j h = elim (Bool-cases (i == j)) [
          | inl same ↦ rw same (ap p'.slots (ground arith))
          | inr other ↦ rw other (h (ground arith))
        ]
