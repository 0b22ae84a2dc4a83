-- ===== src/Dispatch/Table/Direct.antt =====
-- `TableDirect16` selects what the scan selects.
use principal_katas.Prelude.{
  ℕ, ◌+◌, ◌*◌, ◌^◌, ◌≤◌, ◌<◌, ◌≡◌, refl, sym, ap, subst, ◌∙◌, ◌⊎◌, inl, inr, Bool, true, false,
  none, List, [], ◌∷◌, ◌++◌, arith, ◌==◌, length, length-append, Bool-cases,
}
use principal_katas.Dispatch.Packet.{Packet}
use principal_katas.Dispatch.Handler.{Declaring, AllHonest}
use principal_katas.Dispatch.Scan.{probe, run}
use principal_katas.Dispatch.Scan.Order.{selected, run_loop-selected}
use principal_katas.Dispatch.Table.{
  Slot, TableDirect16, empty_slot, entries, distinct_keys, contains, candidates, all_pure,
  fill_slot, fill_direct, table_direct16, update, run_slot, direct_run,
}
use principal_katas.Dispatch.Table.Candidates.{
  outcome, Represents, Represents-append, fill_slot-Represents, run_slot-selected, run_slot-empty,
  length-candidates, length-distinct_keys, selected_absent,
}

module _ {W : Type 0} (hs : List (Declaring W)) where
  -- A slot is untouched, or holds the candidates of its key.
  abbrev Filled : TableDirect16 W → ℕ → Type 0
  Filled t k = Represents t.cand (t.tbl k) (candidates (entries hs) k) (all_pure (entries hs) k)

  abbrev Touched : TableDirect16 W → ℕ → Type 0
  Touched t k = (t.tbl k ≡ empty_slot W) ⊎ Filled t k

  refillable :
      (t : TableDirect16 W) (k : ℕ)
      → Touched t k
      → ((t.tbl k).only ≡ none)
        ⊎ ((length (candidates (entries hs) k) ≡ 1) × (all_pure (entries hs) k ≡ true))
  refillable t k (inl e) = inl (ap (λ (s : Slot W). s.only) e)
  refillable t k (inr (Represents.lone h eo ec ep)) = inr (ap length ec, ep)
  refillable t k (inr (Represents.range before after eo ec eb en)) = inl eo

  -- one round of the constructor's loop
  abbrev filled : TableDirect16 W → ℕ → Slot W × List (Declaring W)
  filled t j = fill_slot (candidates (entries hs) j) (all_pure (entries hs) j) (t.tbl j) t.cand

  abbrev next : TableDirect16 W → ℕ → TableDirect16 W
  next t j = record t { tbl = update t.tbl j (filled t j).0; cand = (filled t j).1 }

  module _ (few : length hs < 2 ^ 16) where
    round :
        (t : TableDirect16 W) (j : ℕ)
        → length t.cand < 2 ^ 32
        → Touched t j
        → Represents
            (filled t j).1
            (filled t j).0
            (candidates (entries hs) j)
            (all_pure (entries hs) j)
          × ((more : List (Declaring W)) × ((filled t j).1 ≡ t.cand ++ more)
              × (length more ≤ length (candidates (entries hs) j)))
    round t j room touched =
        fill_slot-Represents (candidates (entries hs) j) (all_pure (entries hs) j) (t.tbl j) t.cand
          (omega (arith, length-candidates hs j)) room (refillable t j touched)

    next-Filled_self :
        (t : TableDirect16 W) (j : ℕ)
        → length t.cand < 2 ^ 32
        → Touched t j
        → (k : ℕ) → (j == k) ≡ true
        → Filled (next t j) k
    next-Filled_self t j room touched k same = rw same (
        subst
          (λ i.
            Represents (filled t j).1 (filled t j).0 (candidates (entries hs) i)
              (all_pure (entries hs) i))
          (ground arith) (round t j room touched).0)

    next-Filled :
        (t : TableDirect16 W) (j k : ℕ)
        → length t.cand < 2 ^ 32
        → Touched t j
        → Filled t k
        → Filled (next t j) k
    next-Filled t j k room touched f = elim (Bool-cases (j == k)) [
      | inl same ↦ next-Filled_self t j room touched k same
      | inr other ↦
          let (more, e, l) = (round t j room touched).1 in rw (other, e) (Represents-append more f)
    ]

    next-Touched :
        (t : TableDirect16 W) (j : ℕ)
        → length t.cand < 2 ^ 32
        → ((k : ℕ) → Touched t k)
        → (k : ℕ) → Touched (next t j) k
    next-Touched t j room touched k = elim (Bool-cases (j == k)) [
      | inl same ↦ inr (next-Filled_self t j room (touched j) k same)
      | inr other ↦ elim (touched k) [
        | inl e ↦ inl (rw other e)
        | inr f ↦ inr (next-Filled t j k room (touched j) f)
      ]
    ]

    fill_direct-Filled :
        (ks : List ℕ) (t : TableDirect16 W)
        → length t.cand + 2 ^ 16 * length ks < 2 ^ 32
        → ((k : ℕ) → Touched t k)
        → (k : ℕ) → Filled t k ⊎ (contains ks k ≡ true)
        → Filled (fill_direct (entries hs) ks t) k
    unfolding fill_direct
    fill_direct-Filled [] t room touched k (inl f) = f
    fill_direct-Filled [] t room touched k (inr c) = cc
    fill_direct-Filled (j ∷ ks) t room touched k now =
        fill_direct-Filled ks (next t j) room' (next-Touched t j room_now touched) k (later now)
      where
        room_now : length t.cand < 2 ^ 32
        room_now = omega arith

        room' : length (filled t j).1 + 2 ^ 16 * length ks < 2 ^ 32
        room' =
            let (more, e, l) = (round t j room_now (touched j)).1 in
            omega (arith, ap length e, length-append t.cand more, length-candidates hs j)

        later :
            Filled t k ⊎ (contains (j ∷ ks) k ≡ true) → Filled (next t j) k ⊎ (contains ks k ≡ true)
        later (inl f) = inl (next-Filled t j k room_now (touched j) f)
        later (inr c) = elim (Bool-cases (j == k)) [
          | inl same ↦ inl (next-Filled_self t j room_now (touched j) k same)
          | inr other ↦ inr (ground arith)
        ]

    fill_direct-other :
        (ks : List ℕ) (t : TableDirect16 W) (k : ℕ)
        → contains ks k ≡ false
        → (fill_direct (entries hs) ks t).tbl k ≡ t.tbl k
    unfolding fill_direct
    fill_direct-other [] t k c = refl
    fill_direct-other (j ∷ ks) t k c = ground (arith, fill_direct-other ks (next t j) k)

    direct-outcome :
        (c : Bool) (p : Packet) (n : ℕ) (w : W)
        → AllHonest hs
        → outcome (run_slot c ((table_direct16 hs).tbl p.protocol) (table_direct16 hs).cand p n w)
          ≡ selected hs p w
    unfolding table_direct16
    direct-outcome c p n w a =
        elim (Bool-cases (contains (distinct_keys (entries hs)) p.protocol)) [
          | inl found ↦ run_slot-selected hs c _ _ p n w a (
              fill_direct-Filled (distinct_keys (entries hs)) _
                (omega (arith, length-distinct_keys hs)) (λ k. inl refl) p.protocol (inr found))
          | inr absent ↦
              let untouched =
                fill_direct-other (distinct_keys (entries hs))
                  (record { tbl = λ _. empty_slot W; cand = []; probes = 0 }) p.protocol absent in
              run_slot-empty c _ _ p n w (ap (λ (s : Slot W). s.only) untouched)
                (ap (λ (s : Slot W). s.count) untouched)
              ∙ sym (selected_absent hs p w a absent)
        ]

    -- For fewer than 2^16 handlers, each honest about its key, the directly indexed table returns
    -- for every packet the result of the scan of all handlers, counted or not, and leaves the
    -- handlers in the same state.
    pub direct_agrees :
        (c : Bool) (p : Packet) (w : W)
        → AllHonest hs
        → let (r, t, v) = direct_run c (table_direct16 hs) p w in
          let (r', s, v') = run c (record { handlers = hs; probes = 0 }) p w in (r ≡ r') × (v ≡ v')
    unfolding direct_run run
    direct_agrees c p w a = ground (
      arith,
      direct-outcome c p (probe c (table_direct16 hs).probes) w a,
      run_loop-selected c hs p 0 w,
    )
