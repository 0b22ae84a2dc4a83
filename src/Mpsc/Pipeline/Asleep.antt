-- ===== src/Mpsc/Pipeline/Asleep.antt =====
-- The pipeline under the bitmap policy, as its calls follow one another, and its consumer that goes
-- to sleep.
use principal_katas.Prelude.{
  ℕ, zero, suc, ◌+◌, ◌≤◌, ◌<◌, ◌≡◌, refl, sym, subst, ap, ◌∙◌, inl, inr, Bool, true, false, not,
  List, [], ◌∷◌, arith, ◌==◌, add64, sub64, length, Bool-cases,
}
use principal_katas.Mpsc.Config.{Limits, Config, ScanPolicy}
use principal_katas.Mpsc.Ring.{Ring}
use principal_katas.Mpsc.Ring.Valid.{new_ring-IsValid}
use principal_katas.Mpsc.Ring.Refine.{contents, length-contents}
use principal_katas.Mpsc.Pipeline.{
  SlotState, Pipeline, is_free, no_bits, new_pipeline, register_from, register_producer, push,
  retire, start,
}
use principal_katas.Mpsc.Pipeline.Consumer.{
  flush, scan, drain_full, drain_bitmap, clear_empty_bits, reclaim_retired, park, unpark,
}
use principal_katas.Mpsc.Pipeline.Stream.{IsLimits}
use principal_katas.Mpsc.Pipeline.Signalled.{
  push-IsSignalled, retire-IsSignalled, register_from-IsSignalled,
}
use principal_katas.Mpsc.Pipeline.Draining.{
  Inv, same_slots-Inv, scan-Inv, flush-Inv, flush_some-Inv,
}
use principal_katas.Mpsc.Pipeline.Steps.{clear_from-Inv, reclaim_from-Inv}

pub no_bits_lem : (n : ℕ) (bits : ℕ → Bool) (i : ℕ) → no_bits n bits ≡ true → i < n → bits i ≡ false
unfolding no_bits
no_bits_lem zero bits i h lt = absurd (omega arith)
no_bits_lem (suc n) bits i h lt = elim (Bool-cases (i == n)) [
  | inl at ↦ rw (eq_of i n at) (ground arith)
  | inr before ↦ no_bits_lem n bits i (ground arith) (ground arith)
]
  where
    eq_of : (i n : ℕ) → (i == n) ≡ true → i ≡ n
    eq_of i n e = ground arith

module _ {E : Type 0} (lim : Limits) (cfg : Config) where
  -- A call of a producer, on the slot of its handle, or of the consumer.
  pub data Step (p : Pipeline E) : Pipeline E → Type 0 where
    begin : Step p (start p)
    register : Step p (register_producer lim cfg p).1
    push_event :
        (id : ℕ) (e : E) → is_free (p.slots id).state ≡ false → Step p (push lim cfg id e p).1
    leave : (id : ℕ) → Step p (retire lim cfg id p)
    full_scan : (rotate : ℕ) → Step p (drain_full lim rotate p).1
    bitmap_scan : (rotate : ℕ) → Step p (drain_bitmap lim rotate p).1
    clear : Step p (clear_empty_bits lim p)
    reclaim_all : Step p (reclaim_retired lim p)
    write_stage : Step p (flush p)
    sleep : Step p (park lim p).1
    wake : Step p (unpark lim p)
    count_pass : Step p (record p { passes = add64 p.passes 1 })
    take_pending : Step p (record p { retire_pending = false })
    refuse : Step p (record p { accepting = false })
    halt : Step p (record p { running = false })

  pub data Reach (blank : ℕ → E) : Pipeline E → Type 0 where
    new : Reach blank (new_pipeline blank)
    next : {p p' : Pipeline E} → Reach blank p → Step p p' → Reach blank p'

  module _ (ok : IsLimits lim) (policy : cfg.scan ≡ ScanPolicy.bitmap) where
    push_staged : (id : ℕ) (e : E) (p : Pipeline E) → (push lim cfg id e p).1.staged ≡ p.staged
    unfolding push
    push_staged id e p = ground arith

    retire_staged : (id : ℕ) (p : Pipeline E) → (retire lim cfg id p).staged ≡ p.staged
    unfolding retire
    retire_staged id p = ground arith

    register_staged :
        (left i : ℕ) (p : Pipeline E) → (register_from lim cfg i left p).1.staged ≡ p.staged
    unfolding register_from
    register_staged zero i p = refl
    register_staged (suc left) i p = ground (arith, register_staged left (i + 1) p)

    drain_full-Inv : (rotate : ℕ) (p : Pipeline E) → Inv lim p → Inv lim (drain_full lim rotate p).1
    unfolding drain_full
    drain_full-Inv rotate p inv =
        let visit : ℕ → Pipeline E → Bool = λ i q. not (is_free (q.slots i).state) in
        flush_some-Inv lim ok (scan lim visit rotate 0 lim.max_producers p).0 _
          (scan-Inv lim ok visit rotate 0 lim.max_producers p inv)

    drain_bitmap-Inv :
        (rotate : ℕ) (p : Pipeline E) → Inv lim p → Inv lim (drain_bitmap lim rotate p).1
    unfolding drain_bitmap
    drain_bitmap-Inv rotate p inv =
        let visit : ℕ → Pipeline E → Bool = λ i q. p.active_bits i in
        flush_some-Inv lim ok (scan lim visit rotate 0 lim.max_producers p).0 _
          (scan-Inv lim ok visit rotate 0 lim.max_producers p inv)

    pub step-Inv : {p p' : Pipeline E} → Inv lim p → Step p p' → Inv lim p'
    unfolding start register_producer clear_empty_bits reclaim_retired park unpark
    step-Inv {p} inv begin = same_slots-Inv lim ok p _ inv refl refl inv.stage_fits
    step-Inv {p} inv register = record {
      signalled = register_from-IsSignalled lim cfg ok lim.max_producers 0 p inv.signalled;
      stage_fits =
          subst (λ l. length l ≤ lim.stage_events) (sym (register_staged lim.max_producers 0 p))
            inv.stage_fits;
    }
    step-Inv {p} inv (push_event id e busy) = record {
      signalled = push-IsSignalled lim cfg ok id e p policy busy inv.signalled;
      stage_fits =
          subst (λ l. length l ≤ lim.stage_events) (sym (push_staged id e p)) inv.stage_fits;
    }
    step-Inv {p} inv (leave id) = record {
      signalled = retire-IsSignalled lim cfg ok id p policy inv.signalled;
      stage_fits =
          subst (λ l. length l ≤ lim.stage_events) (sym (retire_staged id p)) inv.stage_fits;
    }
    step-Inv {p} inv (full_scan rotate) = drain_full-Inv rotate p inv
    step-Inv {p} inv (bitmap_scan rotate) = drain_bitmap-Inv rotate p inv
    step-Inv {p} inv clear = clear_from-Inv lim ok p.active_bits 0 lim.max_producers p inv
    step-Inv {p} inv reclaim_all = reclaim_from-Inv lim ok 0 lim.max_producers p inv
    step-Inv {p} inv write_stage = flush-Inv lim ok p inv
    step-Inv {p} inv wake = same_slots-Inv lim ok p _ inv refl refl inv.stage_fits
    step-Inv {p} inv count_pass = same_slots-Inv lim ok p _ inv refl refl inv.stage_fits
    step-Inv {p} inv take_pending = same_slots-Inv lim ok p _ inv refl refl inv.stage_fits
    step-Inv {p} inv refuse = same_slots-Inv lim ok p _ inv refl refl inv.stage_fits
    step-Inv {p} inv halt = same_slots-Inv lim ok p _ inv refl refl inv.stage_fits
    step-Inv {p} inv sleep = same_slots-Inv lim ok p _ inv refl refl inv.stage_fits

    pub reach-Inv : (blank : ℕ → E) (p : Pipeline E) → Reach blank p → Inv lim p
    unfolding new_pipeline
    reach-Inv blank p new = record {
      signalled = record {
        slot_ok = λ i. record {
          valid = new_ring-IsValid lim.ring_capacity blank;
          free_empty = λ h. omega arith;
          held_bit = λ h. absurd (h (omega arith));
          retiring_bit = λ h. absurd (ground arith);
        };
      };
      stage_fits = omega arith;
    }
    reach-Inv blank p (next r s) = step-Inv (reach-Inv blank _ r) s

    pub none_held : (r : Ring E) → sub64 r.tail r.head ≡ 0 → contents lim.ring_capacity r ≡ []
    none_held r z = nil_of (contents lim.ring_capacity r) (length-contents lim.ring_capacity r ∙ z)
      where
        nil_of : (l : List E) → length l ≡ 0 → l ≡ []
        nil_of [] h = refl
        nil_of (x ∷ l) h = absurd (omega arith)

    -- Under the bitmap policy, with limits above zero and a ring capacity that divides 2^64, after
    -- any sequence of calls on a new pipeline: when the consumer goes to sleep, no ring holds an
    -- event, so that none is stranded behind a bit that is clear.
    pub none_stranded :
        (blank : ℕ → E) (p : Pipeline E) (i : ℕ)
        → Reach blank p
        → (park lim p).0 ≡ true
        → i < lim.max_producers
        → contents lim.ring_capacity (p.slots i).ring ≡ []
    unfolding park
    none_stranded blank p i r asleep lt =
        let clear_bit : p.active_bits i ≡ false =
          no_bits_lem lim.max_producers p.active_bits i (ground arith) lt in
        let s = (reach-Inv blank p r).signalled.slot_ok i in
        none_held (p.slots i).ring (ground (arith, s.held_bit))

    -- Under the bitmap policy, with limits above zero and a ring capacity that divides 2^64, after
    -- any sequence of calls on a new pipeline: a slot that is free has an empty ring, so that
    -- whoever registers next finds none of its predecessor's events there.
    pub free_is_drained :
        (blank : ℕ → E) (p : Pipeline E) (i : ℕ)
        → Reach blank p
        → (p.slots i).state ≡ SlotState.free
        → contents lim.ring_capacity (p.slots i).ring ≡ []
    free_is_drained blank p i r f =
        none_held (p.slots i).ring
          (((reach-Inv blank p r).signalled.slot_ok i).free_empty (ap is_free f))
