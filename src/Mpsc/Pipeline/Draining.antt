-- ===== src/Mpsc/Pipeline/Draining.antt =====
-- What draining does to the invariant of the slots and the bitmap.
use principal_katas.Prelude.{
  ℕ, zero, suc, ◌+◌, ◌%◌, ◌≤◌, ◌≡◌, refl, sym, ap, ◌∙◌, inl, inr, Bool, List, ◌++◌, arith, ◌==◌,
  ltb, add64, sub64, length, length-append, Bool-cases, if◌then◌else◌,
}
use principal_katas.Mpsc.Config.{Limits}
use principal_katas.Mpsc.Ring.{Ring}
use principal_katas.Mpsc.Ring.Refine.{contents, length-contents}
use principal_katas.Mpsc.Pipeline.{Pipeline, is_free, is_retiring}
use principal_katas.Mpsc.Pipeline.Consumer.{flush, drain_ring, probe, scan, drain_loop}
use principal_katas.Mpsc.Pipeline.Stream.{IsLimits, flush_slots, flush_bits, flush_staged, Drained}
use principal_katas.Mpsc.Pipeline.Drain.{drain_loop-LoopEnd}
use principal_katas.Mpsc.Pipeline.Signalled.{subst₂, SlotOk, IsSignalled, changed_at}

module _ {E : Type 0} (lim : Limits) where
  -- the invariant, with a stage that has not overflowed
  pub record Inv (p : Pipeline E) : Type 0 where
    pub signalled : IsSignalled lim p
    pub stage_fits : length p.staged ≤ lim.stage_events

  shrinks :
      (r r' : Ring E) (out : List E)
      → contents lim.ring_capacity r ≡ out ++ contents lim.ring_capacity r'
      → sub64 r'.tail r'.head ≤ sub64 r.tail r.head
  shrinks r r' out e =
      let lengths : length (contents lim.ring_capacity r)
          ≡ length out + length (contents lim.ring_capacity r') =
        ap length e ∙ length-append out (contents lim.ring_capacity r') in
      omega
        (arith, lengths, length-contents lim.ring_capacity r, length-contents lim.ring_capacity r')

  module _ (ok : IsLimits lim) where
    -- A drain empties a ring in part; its bit stays.
    Drained-Inv :
        (i : ℕ) (p : Pipeline E) (out : List E) (p' : Pipeline E)
        → Inv p
        → Drained lim i p out p'
        → Inv p'
    Drained-Inv i p out p' inv d =
        let s = inv.signalled.slot_ok i in
        let less = shrinks (p.slots i).ring (p'.slots i).ring out d.held in
        let bit : p'.active_bits i ≡ p.active_bits i = ap (λ f. f i) d.same_bits in
        record {
          stage_fits = d.fits;
          signalled =
              changed_at lim p p' i inv.signalled
                (record {
                  valid = d.valid;
                  free_empty =
                      λ h. let z = s.free_empty (sym (ap is_free d.same_state) ∙ h) in omega arith;
                  held_bit = λ h. bit ∙ s.held_bit (λ z. h (omega arith));
                  retiring_bit = λ h. bit ∙ s.retiring_bit (sym (ap is_retiring d.same_state) ∙ h);
                })
                (λ j ne. (d.others j ne, ap (λ f. f j) d.same_bits));
        }

    pub same_slots-Inv :
        (p p' : Pipeline E)
        → Inv p
        → p'.slots ≡ p.slots
        → p'.active_bits ≡ p.active_bits
        → length p'.staged ≤ lim.stage_events
        → Inv p'
    same_slots-Inv p p' inv e f g = record {
      stage_fits = g;
      signalled = record {
        slot_ok = λ i.
            subst₂ (SlotOk lim) (sym (ap (λ h. h i) e)) (sym (ap (λ h. h i) f))
              (inv.signalled.slot_ok i);
      };
    }

    pub drain_ring-Inv : (i : ℕ) (p : Pipeline E) → Inv p → Inv (drain_ring lim i p).1
    unfolding drain_ring
    drain_ring-Inv i p inv =
        let e =
          drain_loop-LoopEnd lim ok i lim.drain_batch 0 p (inv.signalled.slot_ok i).valid
            inv.stage_fits (omega arith) (omega arith) in
        let after =
          Drained-Inv i p e.events (drain_loop lim i lim.drain_batch 0 p).1 inv e.drained in
        same_slots-Inv (drain_loop lim i lim.drain_batch 0 p).1 _ after refl refl after.stage_fits

    pub probe-Inv : (i : ℕ) (p : Pipeline E) → Inv p → Inv (probe lim i p).1
    unfolding probe
    probe-Inv i p inv =
        let counted : Pipeline E = record p { rings_probed = add64 p.rings_probed 1 } in
        let after =
          drain_ring-Inv i counted (same_slots-Inv p counted inv refl refl inv.stage_fits) in
        elim (Bool-cases ((drain_ring lim i counted).0 == 0)) [
          | inl z ↦
              rw z (same_slots-Inv (drain_ring lim i counted).1 _ after refl refl after.stage_fits)
          | inr z ↦ rw z after
        ]

    pub scan-Inv :
        (visit : ℕ → Pipeline E → Bool) (rotate k left : ℕ) (p : Pipeline E)
        → Inv p
        → Inv (scan lim visit rotate k left p).1
    unfolding scan
    scan-Inv visit rotate k zero p inv = inv
    scan-Inv visit rotate k (suc left) p inv =
        let i = (k + rotate) % lim.max_producers in
        elim (Bool-cases (visit i p)) [
          | inl yes_bit ↦
              rw yes_bit (scan-Inv visit rotate (k + 1) left (probe lim i p).1 (probe-Inv i p inv))
          | inr no_bit ↦ rw no_bit (scan-Inv visit rotate (k + 1) left p inv)
        ]

    pub flush-Inv : (p : Pipeline E) → Inv p → Inv (flush p)
    flush-Inv p inv =
        same_slots-Inv p (flush p) inv (flush_slots p) (flush_bits p)
          (omega (arith, flush_staged p))

    pub flush_some-Inv :
        (total : ℕ) (p : Pipeline E) → Inv p → Inv (if ltb 0 total then flush p else p)
    flush_some-Inv total p inv = elim (Bool-cases (ltb 0 total)) [
      | inl y ↦ rw y (flush-Inv p inv)
      | inr n ↦ rw n inv
    ]
