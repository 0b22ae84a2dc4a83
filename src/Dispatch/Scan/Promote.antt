-- ===== src/Dispatch/Scan/Promote.antt =====
-- `ScanMoveToFront`: a hit moves the handler up by one.
use principal_katas.Prelude.{
  ℕ, suc, ◌+◌, ◌-◌, ◌≤◌, ◌≡◌, refl, ap, inl, inr, Bool-cases, sym, ◌∙◌, Bool, true, false, List, [],
  ◌∷◌, ◌++◌, arith, ltb, length, length-append, snoc-append, snoc-cases, get_elem?-middle,
  get_elem?-second, set-middle, set-second, if◌then◌else◌,
}
use principal_katas.Dispatch.Packet.{Packet}
use principal_katas.Dispatch.Handler.{Declaring}
use principal_katas.Dispatch.Scan.{Scan, probe, run, swap, mtf_loop, mtf_run}
use principal_katas.Dispatch.Scan.Order.{matching, selected, run_loop-selected}

module _ {W : Type 0} where
  -- Two orders of the handlers that no packet with one match tells apart.
  pub record SameChoice (hs hs' : List (Declaring W)) : Type 0 where
    pub count : (p : Packet) → matching hs' p ≡ matching hs p
    pub choice : (p : Packet) (w : W) → matching hs p ≤ 1 → selected hs' p w ≡ selected hs p w

  SameChoice-refl : (hs : List (Declaring W)) → SameChoice hs hs
  SameChoice-refl hs = record { count = λ p. refl; choice = λ p w h. refl }

  matching-swapped :
      (xs : List (Declaring W)) (a b : Declaring W) (ys : List (Declaring W)) (p : Packet)
      → matching (xs ++ b ∷ a ∷ ys) p ≡ matching (xs ++ a ∷ b ∷ ys) p
  matching-swapped [] a b ys p = omega arith
  matching-swapped (x ∷ xs) a b ys p = omega (arith, matching-swapped xs a b ys p)

  selected-swapped :
      (xs : List (Declaring W)) (a b : Declaring W) (ys : List (Declaring W)) (p : Packet) (w : W)
      → matching (xs ++ a ∷ b ∷ ys) p ≤ 1
      → selected (xs ++ b ∷ a ∷ ys) p w ≡ selected (xs ++ a ∷ b ∷ ys) p w
  unfolding selected
  selected-swapped [] a b ys p w h = ground arith
  selected-swapped (x ∷ xs) a b ys p w h = ground (arith, selected-swapped xs a b ys p w)

  swap-middle :
      (xs : List (Declaring W)) (a b : Declaring W) (ys : List (Declaring W))
      → swap (xs ++ a ∷ b ∷ ys) (suc (length xs)) (length xs) ≡ xs ++ b ∷ a ∷ ys
  unfolding swap
  swap-middle xs a b ys = rw (
    get_elem?-second xs a b ys,
    get_elem?-middle xs a (b ∷ ys),
    set-second xs a b a ys,
    set-middle xs a b (a ∷ ys),
  )

  SameChoice-swap :
      (xs : List (Declaring W)) (a b : Declaring W) (ys hs : List (Declaring W))
      → hs ≡ xs ++ a ∷ b ∷ ys
      → SameChoice hs (swap hs (suc (length xs)) (length xs))
  SameChoice-swap xs a b ys hs e = record {
    count = λ p. rw (e, swap-middle xs a b ys) (matching-swapped xs a b ys p);
    choice = λ p w. rw (e, swap-middle xs a b ys) (selected-swapped xs a b ys p w);
  }

  -- What a hit at index `i` leaves.
  moved-SameChoice :
      (xs : List (Declaring W)) (h : Declaring W) (ys hs : List (Declaring W)) (i : ℕ)
      → hs ≡ xs ++ h ∷ ys
      → i ≡ length xs
      → SameChoice hs (if ltb 0 i then swap hs i (i - 1) else hs)
  moved-SameChoice xs h ys hs i e ei = elim (snoc-cases xs) [
    | inl nil ↦
        let first : ltb 0 i ≡ false = ground (arith, ap length nil) in rw first (SameChoice-refl hs)
    | inr (zs, z, ez) ↦
        let l : length xs ≡ length zs + 1 =
          omega (arith, ap length ez, length-append zs (z ∷ [])) in
        let later : ltb 0 i ≡ true = ground arith in
        let here : i ≡ suc (length zs) = omega arith in
        let back : i - 1 ≡ length zs = omega arith in
        rw (later, back, here)
          (SameChoice-swap zs z h ys hs (e ∙ ap (λ l. l ++ h ∷ ys) ez ∙ snoc-append zs z (h ∷ ys)))
  ]

  mtf_loop-agrees :
      (c : Bool) (rest xs : List (Declaring W)) (s : Scan W) (i : ℕ) (p : Packet) (w : W)
      → s.handlers ≡ xs ++ rest
      → i ≡ length xs
      → let (r, t, v) = mtf_loop c s rest i p w in
        ((r ≡ (selected rest p w).0) × (v ≡ (selected rest p w).1))
        × SameChoice s.handlers t.handlers
  unfolding mtf_loop selected
  mtf_loop-agrees c [] xs s i p w e ei = ((refl, refl), SameChoice-refl s.handlers)
  mtf_loop-agrees c (h ∷ rest) xs s i p w e ei = elim (Bool-cases (h.matches p)) [
    | inl hit ↦ rw hit ((refl, refl), moved-SameChoice xs h rest s.handlers i e ei)
    | inr miss ↦ rw miss (
        mtf_loop-agrees c rest (xs ++ h ∷ []) (record s { probes = probe c s.probes }) (i + 1) p w
          (e ∙ sym (snoc-append xs h rest)) (omega (arith, length-append xs (h ∷ []))))
  ]

  -- The self-organizing scan returns what the plain scan of its current order returns, counted or
  -- not, leaves the handlers in the same state, and goes over to an order that no packet with at
  -- most one matching handler tells from the one before.
  pub mtf_agrees :
      (c : Bool) (s : Scan W) (p : Packet) (w : W)
      → let (r, t, v) = mtf_run c s p w in
        let (r', s', v') = run c s p w in ((r ≡ r') × (v ≡ v')) × SameChoice s.handlers t.handlers
  unfolding mtf_run run
  mtf_agrees c s p w =
      let (same, choice) = mtf_loop-agrees c s.handlers [] s 0 p w refl refl in
      (ground (arith, same, run_loop-selected c s.handlers p s.probes w), choice)
