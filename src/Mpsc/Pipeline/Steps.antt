-- ===== src/Mpsc/Pipeline/Steps.antt =====
-- Every call of the pipeline keeps the bitmap right; what follows for the consumer that goes to
-- sleep.
use principal_katas.Prelude.{
  ℕ, zero, suc, ◌+◌, ◌≡◌, refl, sym, ap, ◌∙◌, inl, inr, Bool, true, false, arith, ◌==◌, sub64,
  Bool-cases, if◌then◌else◌,
}
use principal_katas.Mpsc.Config.{Limits}
use principal_katas.Mpsc.Ring.{Ring, empty_now}
use principal_katas.Mpsc.Ring.Valid.{IsValid, empty_now-IsValid}
use principal_katas.Mpsc.Pipeline.{SlotState, ProducerSlot, Pipeline, is_free, is_retiring}
use principal_katas.Mpsc.Pipeline.Consumer.{set_ring, clear_bit, clear_from, reclaim, reclaim_from}
use principal_katas.Mpsc.Pipeline.Stream.{IsLimits}
use principal_katas.Mpsc.Pipeline.Drain.{put_same, put_other}
use principal_katas.Mpsc.Pipeline.Signalled.{subst₂, SlotOk, changed_at}
use principal_katas.Mpsc.Pipeline.Draining.{Inv}

module _ {E : Type 0} (lim : Limits) where
  module _ (ok : IsLimits lim) where
    -- what `clear_bit` does at its own slot
    cleared_ring :
        (i : ℕ) (p : Pipeline E)
        → ((clear_bit lim i p).slots i).ring ≡ (empty_now (p.slots i).ring).1
    unfolding clear_bit empty_now
    cleared_ring i p = ground arith

    cleared_state :
        (i : ℕ) (p : Pipeline E) → ((clear_bit lim i p).slots i).state ≡ (p.slots i).state
    unfolding clear_bit empty_now
    cleared_state i p = ground arith

    cleared_bit :
        (i : ℕ) (p : Pipeline E)
        → (clear_bit lim i p).active_bits i ≡ (
            if (p.slots i).ring.head == (p.slots i).ring.tail
            then is_retiring (p.slots i).state
            else p.active_bits i)
    unfolding clear_bit empty_now
    cleared_bit i p = ground arith

    empty_size :
        (r : Ring E)
        → IsValid lim.ring_capacity r
        → ((r.head == r.tail) ≡ true)
        → sub64 r.tail r.head ≡ 0
    empty_size r v h = ground (arith, v.tail_in)

    clear_bit-Inv : (i : ℕ) (p : Pipeline E) → Inv lim p → Inv lim (clear_bit lim i p)
    unfolding clear_bit empty_now
    clear_bit-Inv i p inv =
        let s = inv.signalled.slot_ok i in
        record {
          stage_fits = ground (arith, inv.stage_fits);
          signalled =
              changed_at lim p (clear_bit lim i p) i inv.signalled
                (record {
                  valid =
                      rw (cleared_ring i p)
                        (empty_now-IsValid lim.ring_capacity ok.capacity s.valid);
                  free_empty = λ h.
                      rw (cleared_ring i p)
                        (s.free_empty (sym (ap is_free (cleared_state i p)) ∙ h));
                  held_bit = λ h.
                      elim (Bool-cases ((p.slots i).ring.head == (p.slots i).ring.tail)) [
                        | inl e ↦
                            absurd
                              (h (rw (cleared_ring i p) (empty_size (p.slots i).ring s.valid e)))
                        | inr e ↦ cleared_bit i p ∙ rw e (s.held_bit (λ z. ground (arith, s.valid)))
                      ];
                  retiring_bit = λ h.
                      let leaving : is_retiring (p.slots i).state ≡ true =
                        sym (ap is_retiring (cleared_state i p)) ∙ h in
                      cleared_bit i p ∙ ground (arith, s.retiring_bit leaving);
                })
                (λ j ne. (ground (arith, ne), ground (arith, ne)));
        }

    pub clear_from-Inv :
        (snapshot : ℕ → Bool) (i left : ℕ) (p : Pipeline E)
        → Inv lim p
        → Inv lim (clear_from lim snapshot i left p)
    unfolding clear_from
    clear_from-Inv snapshot i zero p inv = inv
    clear_from-Inv snapshot i (suc left) p inv = elim (Bool-cases (snapshot i)) [
      | inl b ↦
          rw b (clear_from-Inv snapshot (i + 1) left (clear_bit lim i p) (clear_bit-Inv i p inv))
      | inr b ↦ rw b (clear_from-Inv snapshot (i + 1) left p inv)
    ]

    -- what `reclaim` leaves in a slot that it keeps, and in one that it frees
    reclaimed :
        (s : ProducerSlot E) (bit : Bool)
        → SlotOk lim s bit
        → SlotOk lim (record s { ring = (empty_now s.ring).1 }) bit
    unfolding empty_now
    reclaimed s bit h = record {
      valid = empty_now-IsValid lim.ring_capacity ok.capacity h.valid;
      free_empty = h.free_empty;
      held_bit = h.held_bit;
      retiring_bit = h.retiring_bit;
    }

    freed :
        (s : ProducerSlot E)
        → IsValid lim.ring_capacity s.ring
        → (empty_now s.ring).0 ≡ true
        → SlotOk lim
            (record s {
              ring = (empty_now s.ring).1;
              state = SlotState.free;
              pushed = 0;
              dropped = 0;
            })
            false
    unfolding empty_now
    freed s v e = record {
      valid = empty_now-IsValid lim.ring_capacity ok.capacity v;
      free_empty = λ h. empty_size s.ring v e;
      held_bit = λ h. absurd (h (empty_size s.ring v e));
      retiring_bit = λ h. absurd (ground arith);
    }

    reclaim-Inv : (i : ℕ) (p : Pipeline E) → Inv lim p → Inv lim (reclaim lim i p)
    unfolding reclaim
    reclaim-Inv i p inv =
        let s = p.slots i in
        let r = (empty_now s.ring).1 in
        let s' : ProducerSlot E = record s {
          ring = r;
          state = SlotState.free;
          pushed = 0;
          dropped = 0;
        } in
        let h = inv.signalled.slot_ok i in
        elim (Bool-cases (is_retiring s.state)) [
          | inr stays ↦ rw stays inv
          | inl leaving ↦ elim (Bool-cases (empty_now s.ring).0) [
            | inr held ↦
                rw (leaving, held)
                  (record {
                    stage_fits = inv.stage_fits;
                    signalled =
                        changed_at lim p (set_ring i r p) i inv.signalled
                          (rw (put_same p.slots i (record s { ring = r }))
                            (reclaimed s (p.active_bits i) h))
                          (λ j ne. (put_other p.slots i (record s { ring = r }) j ne, refl));
                  })
            | inl drained ↦
                rw (leaving, drained)
                  (record {
                    stage_fits = inv.stage_fits;
                    signalled =
                        changed_at lim p _ i inv.signalled
                          (subst₂ (SlotOk lim) (sym (put_same p.slots i s'))
                            (sym (put_same p.active_bits i false)) (freed s h.valid drained))
                          (λ j ne.
                            (put_other p.slots i s' j ne, put_other p.active_bits i false j ne));
                  })
          ]
        ]

    pub reclaim_from-Inv :
        (i left : ℕ) (p : Pipeline E) → Inv lim p → Inv lim (reclaim_from lim i left p)
    unfolding reclaim_from
    reclaim_from-Inv i zero p inv = inv
    reclaim_from-Inv i (suc left) p inv =
        reclaim_from-Inv (i + 1) left (reclaim lim i p) (reclaim-Inv i p inv)
