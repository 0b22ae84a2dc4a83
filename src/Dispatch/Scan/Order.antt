-- ===== src/Dispatch/Scan/Order.antt =====
-- When the order of the handlers may change: at most one of them matches the packet.
use principal_katas.Prelude.{
  ℕ, ◌+◌, ◌≤◌, ◌<◌, ◌≡◌, refl, ap, subst, snoc-append, get_elem?-middle, inl, inr, Bool, true,
  false, List, [], ◌∷◌, ◌++◌, arith, add64, ◌^◌, length, length-append, get_elem?, Option-cases,
  if◌then◌else◌,
}
use principal_katas.Dispatch.Packet.{Packet, Result, unsupported}
use principal_katas.Dispatch.Handler.{Declaring}
use principal_katas.Dispatch.Scan.{
  Scan, probe, run_loop, dispatch, dispatch_counted, insert_by, sort_by, indices, gather,
  scan_ordered,
}

module _ {W : Type 0} where
  -- how many handlers match
  abbrev pub matching : List (Declaring W) → Packet → ℕ
  matching [] p = 0
  matching (h ∷ hs) p = (if h.matches p then 1 else 0) + matching hs p

  -- What a scan returns, without the count: the result and the handlers' state.
  unfoldable pub selected : List (Declaring W) → Packet → W → Result × W
  selected [] p w = (unsupported, w)
  selected (h ∷ hs) p w = if h.matches p then h.process p w else selected hs p w

  pub run_loop-selected :
      (c : Bool) (hs : List (Declaring W)) (p : Packet) (n : ℕ) (w : W)
      → let (r, n', w') = run_loop c hs p n w in (r, w') ≡ selected hs p w
  unfolding run_loop selected
  run_loop-selected c [] p n w = refl
  run_loop-selected c (h ∷ hs) p n w = ground (arith, run_loop-selected c hs p (probe c n) w)

  selected-swap :
      (a b : Declaring W) (hs : List (Declaring W)) (p : Packet) (w : W)
      → matching (a ∷ b ∷ hs) p ≤ 1
      → selected (a ∷ b ∷ hs) p w ≡ selected (b ∷ a ∷ hs) p w
  unfolding selected
  selected-swap a b hs p w h = ground arith

  module _ (freq : List ℕ) (hs : List (Declaring W)) (p : Packet) (w : W) where
    matching-insert :
        (i : ℕ) (is : List ℕ)
        → matching (gather hs (insert_by freq i is)) p ≡ matching (gather hs (i ∷ is)) p
    unfolding gather insert_by
    matching-insert i [] = refl
    matching-insert i (j ∷ js) = ground (arith, matching-insert i js)

    matching-sort :
        (is : List ℕ) → matching (gather hs (sort_by freq is)) p ≡ matching (gather hs is) p
    unfolding sort_by gather
    matching-sort [] = refl
    matching-sort (i ∷ is) = elim (Option-cases (get_elem? hs i)) [
      | inl e ↦ ground (arith, matching-insert i (sort_by freq is), matching-sort is)
      | inr e ↦ ground (arith, matching-insert i (sort_by freq is), matching-sort is)
    ]

    selected-insert :
        (i : ℕ) (is : List ℕ)
        → matching (gather hs (i ∷ is)) p ≤ 1
        → selected (gather hs (insert_by freq i is)) p w ≡ selected (gather hs (i ∷ is)) p w
    unfolding gather insert_by selected
    selected-insert i [] h = refl
    selected-insert i (j ∷ js) h = ground (arith, selected-insert i js)

    selected-sort :
        (is : List ℕ)
        → matching (gather hs is) p ≤ 1
        → selected (gather hs (sort_by freq is)) p w ≡ selected (gather hs is) p w
    unfolding sort_by gather selected
    selected-sort [] h = refl
    selected-sort (i ∷ is) h =
        ground (arith, selected-insert i (sort_by freq is), matching-sort is, selected-sort is)

  gather-indices :
      (xs ys : List (Declaring W)) (k : ℕ)
      → k ≡ length xs
      → gather (xs ++ ys) (indices k (length ys)) ≡ ys
  unfolding gather indices
  gather-indices xs [] k e = refl
  gather-indices xs (y ∷ ys) k e =
      rw (e, get_elem?-middle xs y ys)
        (ap (λ l. y ∷ l)
          (subst (λ l. gather l (indices (length xs + 1) (length ys)) ≡ ys) (snoc-append xs y ys)
            (gather-indices (xs ++ y ∷ []) ys (length xs + 1)
              (omega (arith, length-append xs (y ∷ []))))))

  gather_all : (hs : List (Declaring W)) → gather hs (indices 0 (length hs)) ≡ hs
  gather_all hs = gather-indices [] hs 0 refl

  -- The frequency-ordered scan returns the result of the unordered one, and leaves the handlers in
  -- the same state, for each packet that at most one handler matches.
  pub ordered_agrees :
      (hs : List (Declaring W)) (freq : List ℕ) (p : Packet) (w : W)
      → matching hs p ≤ 1
      → let (r, s, v) = dispatch (scan_ordered hs freq) p w in
        let (r', s', v') = dispatch (record { handlers = hs; probes = 0 }) p w in
        (r ≡ r') × (v ≡ v')
  unfolding dispatch scan_ordered
  ordered_agrees hs freq p w h = ground (
    arith,
    run_loop-selected false (gather hs (sort_by freq (indices 0 (length hs)))) p 0 w,
    selected-sort freq hs p w (indices 0 (length hs)) (rw (gather_all hs) h),
    gather_all hs,
    run_loop-selected false hs p 0 w,
  )

  -- the handlers that a scan tests
  abbrev pub probed : List (Declaring W) → Packet → ℕ
  probed [] p = 0
  probed (h ∷ hs) p = if h.matches p then 1 else probed hs p + 1

  run_loop-probes :
      (hs : List (Declaring W)) (p : Packet) (n : ℕ) (w : W)
      → n < 2 ^ 64
      → ((run_loop true hs p n w).1 ≡ add64 n (probed hs p)) × ((run_loop false hs p n w).1 ≡ n)
  unfolding run_loop
  run_loop-probes [] p n w h = omega arith
  run_loop-probes (x ∷ hs) p n w h =
      ground (arith, run_loop-probes hs p (add64 n 1) w, run_loop-probes hs p n w)

  -- With a probe count below 2^64, the timed and the counted dispatch return the same result and
  -- leave the handlers in the same state; the timed one counts nothing, and the counted one the
  -- handlers up to the first match, modulo 2^64.
  pub counted_agrees :
      (s : Scan W) (p : Packet) (w : W)
      → s.probes < 2 ^ 64
      → let (r, t, v) = dispatch s p w in
        let (r', t', v') = dispatch_counted s p w in
        (r ≡ r')
        × (v ≡ v')
        × (t ≡ s)
        × (t' ≡ record s { probes = add64 s.probes (probed s.handlers p) })
  unfolding dispatch dispatch_counted
  counted_agrees s p w h = ground (
    arith,
    run_loop-selected false s.handlers p s.probes w,
    run_loop-selected true s.handlers p s.probes w,
    run_loop-probes s.handlers p s.probes w h,
  )
