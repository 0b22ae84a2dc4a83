-- ===== src/Mpsc/Pipeline/Signalled.antt =====
-- The invariant of the slots and the bitmap under the bitmap policy: a ring that holds events, or
-- whose producer is leaving, has its bit set, and a free slot's ring is empty.
use principal_katas.Prelude.{
  ℕ, zero, suc, ◌+◌, ◌≡◌, ◌≢◌, refl, sym, subst, ap, ap₂, ◌∙◌, inl, inr, Bool, true, false, not,
  ◌&&◌, arith, ◌==◌, sub64, put_at, Bool-cases, if◌then◌else◌,
}
use principal_katas.Mpsc.Config.{Limits, Config, FullPolicy, ScanPolicy}
use principal_katas.Mpsc.Ring.{Ring, try_push}
use principal_katas.Mpsc.Ring.Valid.{IsValid, try_push-IsValid}
use principal_katas.Mpsc.Pipeline.{
  SlotState, ProducerSlot, Pipeline, set_slot, is_free, is_retiring, is_bitmap, register_from,
  signal, spin_push, attempt, count_push, push, retire,
}
use principal_katas.Mpsc.Pipeline.Stream.{IsLimits}
use principal_katas.Mpsc.Pipeline.Drain.{put_same, put_other}

pub subst₂ :
    {A B : Type 0} (P : A → B → Type 0) {a a' : A} {b b' : B} → a ≡ a' → b ≡ b' → P a b → P a' b'
subst₂ P {a} {b' = b'} e f x = subst (λ k. P k b') e (subst (P a) f x)

module _ {E : Type 0} (lim : Limits) where
  pub record SlotOk (s : ProducerSlot E) (bit : Bool) : Type 0 where
    pub valid : IsValid lim.ring_capacity s.ring
    pub free_empty : is_free s.state ≡ true → sub64 s.ring.tail s.ring.head ≡ 0
    pub held_bit : sub64 s.ring.tail s.ring.head ≢ 0 → bit ≡ true
    pub retiring_bit : is_retiring s.state ≡ true → bit ≡ true

  pub record IsSignalled (p : Pipeline E) : Type 0 where
    pub slot_ok : (i : ℕ) → SlotOk (p.slots i) (p.active_bits i)

  -- Whatever changes one slot and its bit need only keep that one right.
  pub changed_at :
      (p p' : Pipeline E) (i : ℕ)
      → IsSignalled p
      → SlotOk (p'.slots i) (p'.active_bits i)
      → ((j : ℕ) → i ≢ j → (p'.slots j ≡ p.slots j) × (p'.active_bits j ≡ p.active_bits j))
      → IsSignalled p'
  changed_at p p' i inv ok others = record {
    slot_ok = λ j. elim (Bool-cases (i == j)) [
      | inl same ↦ subst (λ k. SlotOk (p'.slots k) (p'.active_bits k)) (ground arith) ok
      | inr other ↦ let (e, f) = others j (ground arith) in rw (e, f) (inv.slot_ok j)
    ];
  }

  -- With its bit set, a slot needs only a valid ring, and not to be free.
  with_bit :
      (s : ProducerSlot E)
      → IsValid lim.ring_capacity s.ring
      → is_free s.state ≡ false
      → SlotOk s true
  with_bit s v busy = record {
    valid = v;
    free_empty = λ e. absurd (ground arith);
    held_bit = λ h. refl;
    retiring_bit = λ h. refl;
  }

  module _ (cfg : Config) (ok : IsLimits lim) where
    pub signal_bit : (id : ℕ) (p : Pipeline E) → (signal lim cfg id p).active_bits id ≡ true
    unfolding signal
    signal_bit id p = ground arith

    pub signal_slots : (id : ℕ) (p : Pipeline E) → (signal lim cfg id p).slots ≡ p.slots
    unfolding signal
    signal_slots id p = ground arith

    pub signal_others :
        (id : ℕ) (p : Pipeline E) (j : ℕ)
        → id ≢ j
        → (signal lim cfg id p).active_bits j ≡ p.active_bits j
    unfolding signal
    signal_others id p j ne = ground (arith, ne)

    spin_push-IsValid :
        (left : ℕ) (e : E) (b : Bool) (r : Ring E)
        → IsValid lim.ring_capacity r
        → IsValid lim.ring_capacity (spin_push lim cfg left e (b, r)).1
    unfolding spin_push
    spin_push-IsValid zero e b r v = v
    spin_push-IsValid (suc left) e true r v = v
    spin_push-IsValid (suc left) e false r v =
        spin_push-IsValid left e (try_push lim.ring_capacity e r).0
          (try_push lim.ring_capacity e r).1 (try_push-IsValid lim.ring_capacity ok.capacity e v)

    pub attempt-IsValid :
        (full : FullPolicy) (e : E) (r : Ring E)
        → IsValid lim.ring_capacity r
        → IsValid lim.ring_capacity (attempt lim cfg full e r).1
    unfolding attempt
    attempt-IsValid FullPolicy.drop_newest e r v =
        try_push-IsValid lim.ring_capacity ok.capacity e v
    attempt-IsValid FullPolicy.spin_then_drop e r v =
        spin_push-IsValid cfg.push_spin e (try_push lim.ring_capacity e r).0
          (try_push lim.ring_capacity e r).1 (try_push-IsValid lim.ring_capacity ok.capacity e v)

    try_refused :
        (e : E) (r : Ring E)
        → (try_push lim.ring_capacity e r).0 ≡ false
        → ((try_push lim.ring_capacity e r).1.tail ≡ r.tail)
          × ((try_push lim.ring_capacity e r).1.head ≡ r.head)
    unfolding try_push
    try_refused e r h = ground arith

    -- A spin that starts with an accepted push ends with it.
    spun : (n : ℕ) (e : E) (r : Ring E) → (spin_push lim cfg n e (true, r)).0 ≢ false
    unfolding spin_push
    spun zero e r h = ground arith
    spun (suc n) e r h = ground arith

    spin_refused :
        (left : ℕ) (e : E) (b : Bool) (r : Ring E)
        → (spin_push lim cfg left e (b, r)).0 ≡ false
        → ((spin_push lim cfg left e (b, r)).1.tail ≡ r.tail)
          × ((spin_push lim cfg left e (b, r)).1.head ≡ r.head)
    unfolding spin_push
    spin_refused zero e b r h = (refl, refl)
    spin_refused (suc left) e true r h = (refl, refl)
    spin_refused (suc left) e false r h =
        let r' = try_push lim.ring_capacity e r in
        let (t, d) = spin_refused left e r'.0 r'.1 h in
        elim (Bool-cases r'.0) [
          | inr kept ↦ let (t', d') = try_refused e r kept in (t ∙ t', d ∙ d')
          | inl took ↦
              absurd
                (spun left e r'.1 (sym (ap (λ b. (spin_push lim cfg left e (b, r'.1)).0) took) ∙ h))
        ]

    -- A refused push leaves the ring's events.
    pub attempt_refused :
        (full : FullPolicy) (e : E) (r : Ring E)
        → (attempt lim cfg full e r).0 ≡ false
        → ((attempt lim cfg full e r).1.tail ≡ r.tail)
          × ((attempt lim cfg full e r).1.head ≡ r.head)
    unfolding attempt
    attempt_refused FullPolicy.drop_newest e r h = try_refused e r h
    attempt_refused FullPolicy.spin_then_drop e r h =
        let r' = try_push lim.ring_capacity e r in
        let (t, d) = spin_refused cfg.push_spin e r'.0 r'.1 h in
        elim (Bool-cases r'.0) [
          | inr kept ↦ let (t', d') = try_refused e r kept in (t ∙ t', d ∙ d')
          | inl took ↦ absurd (
              spun cfg.push_spin e r'.1
                (sym (ap (λ b. (spin_push lim cfg cfg.push_spin e (b, r'.1)).0) took) ∙ h))
        ]

    pub push-IsSignalled :
        (id : ℕ) (e : E) (p : Pipeline E)
        → cfg.scan ≡ ScanPolicy.bitmap
        → is_free (p.slots id).state ≡ false
        → IsSignalled p
        → IsSignalled (push lim cfg id e p).1
    unfolding push count_push
    push-IsSignalled id e p policy busy inv = elim (Bool-cases p.accepting) [
      | inr shut ↦ simp (shut) inv
      | inl started ↦
          let s = p.slots id in
          let out = attempt lim cfg cfg.full e s.ring in
          let v = attempt-IsValid cfg.full e s.ring (inv.slot_ok id).valid in
          let pushed_slot : Bool → Pipeline E = λ b. set_slot id (count_push lim cfg b out.1 s) p in
          let ends : Bool → ScanPolicy → Pipeline E =
            λ b c. if b && is_bitmap c then signal lim cfg id (pushed_slot b) else pushed_slot b in
          let begun : (push lim cfg id e p).1 ≡ ends out.0 cfg.scan =
            ap
              (λ (a : Bool).
                (if◌then◌else◌ {A = Bool × Pipeline E} (not a) (false, p)
                  (out.0, ends out.0 cfg.scan)).1)
              started in
          elim (Bool-cases out.0) [
            | inl pushed ↦ subst IsSignalled (sym (begun ∙ ap₂ ends pushed policy)) (
                changed_at p (signal lim cfg id (pushed_slot true)) id inv
                  (subst₂ SlotOk
                    (sym
                      (ap (λ f. f id) (signal_slots id (pushed_slot true)) ∙ put_same p.slots id _))
                    (sym (signal_bit id (pushed_slot true)))
                    (with_bit (count_push lim cfg true out.1 s) v busy))
                  (λ j ne. (
                    ap (λ f. f j) (signal_slots id (pushed_slot true))
                        ∙ put_other p.slots id _ j ne,
                    signal_others id (pushed_slot true) j ne,
                  )))
            | inr refused ↦
                let (t, d) = attempt_refused cfg.full e s.ring refused in
                subst IsSignalled (sym (begun ∙ ap (λ b. ends b cfg.scan) refused)) (
                  changed_at p (pushed_slot false) id inv
                    (rw (put_same p.slots id (count_push lim cfg false out.1 s)) (record {
                      valid = v;
                      free_empty = λ h. absurd (ground arith);
                      held_bit = λ h. (inv.slot_ok id).held_bit (λ z. h (ap₂ sub64 t d ∙ z));
                      retiring_bit = (inv.slot_ok id).retiring_bit;
                    }))
                    (λ j ne. (put_other p.slots id _ j ne, refl)))
          ]
    ]

    pub retire-IsSignalled :
        (id : ℕ) (p : Pipeline E)
        → cfg.scan ≡ ScanPolicy.bitmap
        → IsSignalled p
        → IsSignalled (retire lim cfg id p)
    unfolding retire
    retire-IsSignalled id p policy inv =
        let s : ProducerSlot E = record (p.slots id) { state = SlotState.retiring } in
        let p' : Pipeline E = record p { slots = put_at p.slots id s; retire_pending = true } in
        rw policy (
          changed_at p (signal lim cfg id p') id inv
            (subst₂ SlotOk (sym (ap (λ f. f id) (signal_slots id p') ∙ put_same p.slots id s))
              (sym (signal_bit id p')) (with_bit s (inv.slot_ok id).valid refl))
            (λ j ne. (
              ap (λ f. f j) (signal_slots id p') ∙ put_other p.slots id s j ne,
              signal_others id p' j ne,
            )))

    pub register_from-IsSignalled :
        (left i : ℕ) (p : Pipeline E)
        → IsSignalled p
        → IsSignalled (register_from lim cfg i left p).1
    unfolding register_from
    register_from-IsSignalled zero i p inv = inv
    register_from-IsSignalled (suc left) i p inv = elim (Bool-cases (is_free (p.slots i).state)) [
      | inr busy ↦ rw busy (register_from-IsSignalled left (i + 1) p inv)
      | inl idle ↦
          let s : ProducerSlot E = record (p.slots i) {
            state = SlotState.active;
            pushed = 0;
            dropped = 0;
            high_water = 0;
          } in
          rw idle (
            changed_at p (set_slot i s p) i inv
              (rw (put_same p.slots i s) (record {
                valid = (inv.slot_ok i).valid;
                free_empty = λ h. (inv.slot_ok i).free_empty idle;
                held_bit = (inv.slot_ok i).held_bit;
                retiring_bit = λ h. absurd (ground arith);
              }))
              (λ j ne. (put_other p.slots i s j ne, refl)))
    ]
