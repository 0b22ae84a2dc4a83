-- ===== src/Dispatch/Table/Compact.antt =====
-- `TableCompact` selects what the scan selects, if it says that its mapping is injective.
use principal_katas.Prelude.{
  ℕ, suc, ◌+◌, ◌*◌, ◌%◌, ◌^◌, ◌≤◌, ◌<◌, ◌≡◌, refl, sym, ap, subst, ◌∙◌, ◌⊎◌, ◌≢◌, inl, inr, Bool,
  true, false, not, ◌&&◌, none, List, [], ◌∷◌, ◌++◌, arith, ◌==◌, length, length-append, Bool-cases,
}
use principal_katas.Dispatch.Packet.{Packet}
use principal_katas.Dispatch.Handler.{Declaring, AllHonest}
use principal_katas.Dispatch.Scan.{probe, run}
use principal_katas.Dispatch.Scan.Order.{selected, run_loop-selected}
use principal_katas.Dispatch.Table.{
  Slot, CSlot, TableCompact, empty_cslot, empty_key, compact_size, entries, distinct_keys, contains,
  candidates, all_pure, fill_slot, claim_compact, fill_compact, table_compact, run_slot,
  compact_run,
}
use principal_katas.Dispatch.Table.Candidates.{
  outcome, Represents, Represents-append, fill_slot-Represents, run_slot-selected, run_slot-empty,
  length-candidates, length-distinct_keys, selected_absent,
}

module _ {W : Type 0} (hs : List (Declaring W)) where
  -- A claimed slot holds the candidates of its key.
  record Filled (cand : List (Declaring W)) (s : CSlot W) : Type 0 where
    claimed : s.key ≢ empty_key
    holds : Represents cand s.slot (candidates (entries hs) s.key) (all_pure (entries hs) s.key)

  abbrev Touched : TableCompact W → ℕ → Type 0
  Touched t b = (t.tbl b ≡ empty_cslot W) ⊎ Filled t.cand (t.tbl b)

  -- what one round writes for key `j`
  abbrev filled : TableCompact W → ℕ → Slot W × List (Declaring W)
  filled t j =
      fill_slot (candidates (entries hs) j) (all_pure (entries hs) j)
        (t.tbl (j % compact_size)).slot t.cand

  -- the test by which a round goes on to `continue`
  abbrev collides : TableCompact W → ℕ → Bool
  collides t j =
      let key = (t.tbl (j % compact_size)).key in not (key == empty_key) && not (key == j)

  refillable :
      (t : TableCompact W) (j : ℕ)
      → collides t j ≡ false
      → Touched t (j % compact_size)
      → ((t.tbl (j % compact_size)).slot.only ≡ none)
        ⊎ ((length (candidates (entries hs) j) ≡ 1) × (all_pure (entries hs) j ≡ true))
  refillable t j free (inl e) = inl (ap (λ (s : CSlot W). s.slot.only) e)
  refillable t j free (inr f) = go _ (ground (arith, f.claimed)) f.holds
    where
      go :
          (k : ℕ)
          → k ≡ j
          → Represents t.cand
              (t.tbl (j % compact_size)).slot
              (candidates (entries hs) k)
              (all_pure (entries hs) k)
          → ((t.tbl (j % compact_size)).slot.only ≡ none)
            ⊎ ((length (candidates (entries hs) j) ≡ 1) × (all_pure (entries hs) j ≡ true))
      go k e (Represents.lone h eo ec ep) = inr (rw (← e) (ap length ec), rw (← e) ep)
      go k e (Represents.range before after eo ec eb en) = inl eo

  module _ (few : length hs < 2 ^ 16) where
    round :
        (t : TableCompact W) (j : ℕ)
        → length t.cand < 2 ^ 32
        → collides t j ≡ false
        → Touched t (j % compact_size)
        → Represents
            (filled t j).1
            (filled t j).0
            (candidates (entries hs) j)
            (all_pure (entries hs) j)
          × ((more : List (Declaring W)) × ((filled t j).1 ≡ t.cand ++ more)
              × (length more ≤ length (candidates (entries hs) j)))
    round t j room free touched =
        fill_slot-Represents (candidates (entries hs) j) (all_pure (entries hs) j)
          (t.tbl (j % compact_size)).slot t.cand (omega (arith, length-candidates hs j)) room
          (refillable t j free touched)

    claim-Touched :
        (t : TableCompact W) (j : ℕ)
        → length t.cand < 2 ^ 32
        → j ≢ empty_key
        → collides t j ≡ false
        → ((b : ℕ) → Touched t b)
        → (b : ℕ) → Touched (claim_compact (entries hs) j t) b
    unfolding claim_compact
    claim-Touched t j room real free touched b = elim (Bool-cases (j % compact_size == b)) [
      | inl same ↦
          rw same (inr (record { claimed = real; holds = (round t j room free (touched _)).0 }))
      | inr other ↦
          let (more, e, l) = (round t j room free (touched _)).1 in
          elim (touched b) [
            | inl untouched ↦ rw other (inl untouched)
            | inr f ↦
                rw (other, e)
                  (inr (record { claimed = f.claimed; holds = Represents-append more f.holds }))
          ]
    ]

    abbrev key_at : TableCompact W → ℕ → ℕ
    key_at t k = (t.tbl (k % compact_size)).key

    claim-key :
        (t : TableCompact W) (j k : ℕ)
        → collides t j ≡ false
        → k ≢ empty_key
        → (key_at t k ≡ k) ⊎ (j ≡ k)
        → key_at (claim_compact (entries hs) j t) k ≡ k
    unfolding claim_compact
    claim-key t j k free real h = ground arith

    fill_compact-collides :
        (j : ℕ) (ks : List ℕ) (t : TableCompact W)
        → collides t j ≡ true
        → fill_compact (entries hs) (j ∷ ks) t
          ≡ fill_compact (entries hs) ks (record t { injective = false })
    unfolding fill_compact
    fill_compact-collides j ks t bad = rw (bad, fill_compact)

    fill_compact-free :
        (j : ℕ) (ks : List ℕ) (t : TableCompact W)
        → collides t j ≡ false
        → fill_compact (entries hs) (j ∷ ks) t
          ≡ fill_compact (entries hs) ks (claim_compact (entries hs) j t)
    unfolding fill_compact
    fill_compact-free j ks t free = rw (free, fill_compact)

    -- Once a key was refused the flag stays down.
    fill_compact-refused :
        (ks : List ℕ) (t : TableCompact W)
        → t.injective ≡ false
        → (fill_compact (entries hs) ks t).injective ≡ false
    unfolding fill_compact claim_compact
    fill_compact-refused [] t h = h
    fill_compact-refused (j ∷ ks) t h = elim (Bool-cases (collides t j)) [
      | inl bad ↦
          rw (fill_compact-collides j ks t bad)
            (fill_compact-refused ks (record t { injective = false }) refl)
      | inr free ↦
          rw (fill_compact-free j ks t free)
            (fill_compact-refused ks (claim_compact (entries hs) j t) h)
    ]

    -- What the loop leaves if the flag is still up.
    record Loaded (ks : List ℕ) (t t' : TableCompact W) : Type 0 where
      touched : (b : ℕ) → Touched t' b
      owned : (k : ℕ) → k ≢ empty_key → (key_at t k ≡ k) ⊎ (contains ks k ≡ true) → key_at t' k ≡ k

    room-claim :
        (t : TableCompact W) (j n : ℕ)
        → length t.cand + 2 ^ 16 * suc n < 2 ^ 32
        → collides t j ≡ false
        → Touched t (j % compact_size)
        → length (claim_compact (entries hs) j t).cand + 2 ^ 16 * n < 2 ^ 32
    unfolding claim_compact
    room-claim t j n room free touched =
        let (more, e, l) = (round t j (omega arith) free touched).1 in
        omega (arith, ap length e, length-append t.cand more, length-candidates hs j)

    fill_compact-Loaded :
        (ks : List ℕ) (t : TableCompact W)
        → length t.cand + 2 ^ 16 * length ks < 2 ^ 32
        → contains ks empty_key ≡ false
        → ((b : ℕ) → Touched t b)
        → (fill_compact (entries hs) ks t).injective ≡ true
        → Loaded ks t (fill_compact (entries hs) ks t)
    unfolding fill_compact
    fill_compact-Loaded [] t room real touched up = record {
      touched = touched;
      owned = λ k h o. ground arith;
    }
    fill_compact-Loaded (j ∷ ks) t room real touched up = elim (Bool-cases (collides t j)) [
      | inl bad ↦
          let down = fill_compact-refused ks (record t { injective = false }) refl in
          absurd (ground (arith, down, fill_compact-collides j ks t bad))
      | inr free ↦
          let j_real : j ≢ empty_key = ground arith in
          let rest =
            fill_compact-Loaded ks (claim_compact (entries hs) j t)
              (room-claim t j (length ks) room free (touched _)) (ground arith)
              (claim-Touched t j (omega arith) j_real free touched)
              (rw (fill_compact-free j ks t free) at up) in
          rw (fill_compact-free j ks t free) (record {
            touched = rest.touched;
            owned = λ k h o. rest.owned k h (go k h o (Bool-cases (j == k)) free);
          })
    ]
      where
        go :
            (k : ℕ)
            → k ≢ empty_key
            → (key_at t k ≡ k) ⊎ (contains (j ∷ ks) k ≡ true)
            → ((j == k) ≡ true) ⊎ ((j == k) ≡ false)
            → collides t j ≡ false
            → (key_at (claim_compact (entries hs) j t) k ≡ k) ⊎ (contains ks k ≡ true)
        go k h (inl old) c free = inl (claim-key t j k free h (inl old))
        go k h (inr new) (inl same) free = inl (claim-key t j k free h (inr (ground arith)))
        go k h (inr new) (inr other) free = inr (ground arith)

    abbrev new_table : TableCompact W
    new_table = record { tbl = λ _. empty_cslot W; cand = []; injective = true; probes = 0 }

    loaded :
        contains (distinct_keys (entries hs)) empty_key ≡ false
        → (table_compact hs).injective ≡ true
        → Loaded (distinct_keys (entries hs)) new_table (table_compact hs)
    unfolding table_compact
    loaded real up =
        fill_compact-Loaded (distinct_keys (entries hs)) new_table
          (omega (arith, length-distinct_keys hs)) real (λ b. inl refl) up

    -- A slot whose key is another one belongs to no handler's key.
    absent :
        (p : Packet)
        → contains (distinct_keys (entries hs)) empty_key ≡ false
        → (table_compact hs).injective ≡ true
        → (key_at (table_compact hs) p.protocol == p.protocol) ≡ false
        → contains (distinct_keys (entries hs)) p.protocol ≡ false
    absent p real up other = elim (Bool-cases (contains (distinct_keys (entries hs)) p.protocol)) [
      | inr no_key ↦ no_key
      | inl key ↦
          let real_key : p.protocol ≢ empty_key =
            λ e. ground (arith, ap (contains (distinct_keys (entries hs))) e) in
          absurd (ground (arith, (loaded real up).owned p.protocol real_key (inr key)))
    ]

    slot-outcome :
        (c : Bool) (p : Packet) (n : ℕ) (w : W)
        → AllHonest hs
        → contains (distinct_keys (entries hs)) empty_key ≡ false
        → (table_compact hs).injective ≡ true
        → (key_at (table_compact hs) p.protocol == p.protocol) ≡ true
        → outcome (
            run_slot c
              ((table_compact hs).tbl (p.protocol % compact_size)).slot
              (table_compact hs).cand
              p
              n
              w)
          ≡ selected hs p w
    slot-outcome c p n w a real up own =
        elim ((loaded real up).touched (p.protocol % compact_size)) [
          | inl e ↦
              run_slot-empty c _ _ p n w (ap (λ (s : CSlot W). s.slot.only) e)
                (ap (λ (s : CSlot W). s.slot.count) e)
              ∙ sym (selected_absent hs p w a (free (ap (λ (s : CSlot W). s.key) e)))
          | inr f ↦ run_slot-selected hs c _ _ p n w a (
              subst
                (λ k.
                  Represents (table_compact hs).cand
                    ((table_compact hs).tbl (p.protocol % compact_size)).slot
                    (candidates (entries hs) k) (all_pure (entries hs) k))
                (ground arith) f.holds)
        ]
      where
        free :
            key_at (table_compact hs) p.protocol ≡ empty_key
            → contains (distinct_keys (entries hs)) p.protocol ≡ false
        free e =
            let same : empty_key ≡ p.protocol = ground arith in
            subst (λ k. contains (distinct_keys (entries hs)) k ≡ false) same real

    -- If no handler claims the key 0xFFFF and the flag `injective` is up, the compact table returns
    -- for every packet the result of the scan of all handlers, which number fewer than 2^16 and are
    -- honest about their keys, counted or not, and leaves the handlers in the same state.
    pub compact_agrees :
        (c : Bool) (p : Packet) (w : W)
        → AllHonest hs
        → contains (distinct_keys (entries hs)) empty_key ≡ false
        → (table_compact hs).injective ≡ true
        → let (r, t, v) = compact_run c (table_compact hs) p w in
          let (r', s, v') = run c (record { handlers = hs; probes = 0 }) p w in (r ≡ r') × (v ≡ v')
    unfolding compact_run run
    compact_agrees c p w a real up =
        elim (Bool-cases (key_at (table_compact hs) p.protocol == p.protocol)) [
          | inl own ↦ ground (
            arith,
            slot-outcome c p (probe c (table_compact hs).probes) w a real up own,
            run_loop-selected c hs p 0 w,
          )
          | inr other ↦ ground (
            arith,
            selected_absent hs p w a (absent p real up other),
            run_loop-selected c hs p 0 w,
          )
        ]
