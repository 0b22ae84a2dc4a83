-- ===== src/Dispatch/Table/Candidates.antt =====
-- The candidates of a key: what a table gathers for it is all that a scan could select.
use principal_katas.Prelude.{
  ℕ, zero, suc, ◌+◌, ◌^◌, ◌≤◌, ◌<◌, ◌≡◌, refl, sym, ap, ◌∙◌, ◌⊎◌, Bool, true, false, ◌||◌, none,
  some, List, [], ◌∷◌, ◌++◌, arith, ◌==◌, length, length-append, get_elem?-middle, snoc-append,
  append-nil, append_assoc, if◌then◌else◌,
}
use principal_katas.Dispatch.Packet.{Packet, Result, unsupported}
use principal_katas.Dispatch.Handler.{Declaring, AllHonest}
use principal_katas.Dispatch.Scan.{probe}
use principal_katas.Dispatch.Scan.Order.{selected}
use principal_katas.Dispatch.Table.{
  Entry, Slot, entries, keys_loop, distinct_keys, contains, candidates, all_pure, fill_slot,
  run_candidates, run_slot,
}

-- the result and the handlers' state of a run, without its count of probes
abbrev pub outcome : {W : Type 0} → Result × ℕ × W → Result × W
outcome o = (o.0, o.2)

contains-snoc : (ks : List ℕ) (k j : ℕ) → contains (ks ++ j ∷ []) k ≡ (contains ks k || (j == k))
contains-snoc [] k j = ground arith
contains-snoc (x ∷ ks) k j = ground (arith, contains-snoc ks k j)

-- the list of keys after one round of `distinct_keys`
abbrev extended : List ℕ → ℕ → List ℕ
extended ks j = if contains ks j then ks else ks ++ j ∷ []

contains-extended :
    (ks : List ℕ) (j k : ℕ) → contains (extended ks j) k ≡ (contains ks k || (j == k))
contains-extended ks j k = ground (arith, contains-snoc ks k j)

module _ {W : Type 0} where
  -- No handler is lost: a scan of all handlers selects among the candidates of the packet's key.
  pub selected-candidates :
      (hs : List (Declaring W)) (p : Packet) (w : W)
      → AllHonest hs
      → selected (candidates (entries hs) p.protocol) p w ≡ selected hs p w
  unfolding selected candidates entries
  selected-candidates [] p w a = refl
  selected-candidates (h ∷ hs) p w a = ground (arith, selected-candidates hs p w a.1, a.0.keyed p)

  pub length-candidates :
      (hs : List (Declaring W)) (k : ℕ) → length (candidates (entries hs) k) ≤ length hs
  unfolding candidates entries
  length-candidates [] k = omega arith
  length-candidates (h ∷ hs) k = ground (arith, length-candidates hs k)

  -- A lone candidate whose predicates are pure accepts every packet with the key.
  pub candidates_pure :
      (hs : List (Declaring W)) (p : Packet) (h : Declaring W)
      → AllHonest hs
      → candidates (entries hs) p.protocol ≡ h ∷ []
      → all_pure (entries hs) p.protocol ≡ true
      → h.matches p ≡ true
  unfolding candidates entries all_pure
  candidates_pure [] p h a e q = cc
  candidates_pure (x ∷ hs) p h a e q = ground (arith, candidates_pure hs p h a.1, a.0.pure p)

  length-entries : (hs : List (Declaring W)) → length (entries hs) ≡ length hs
  unfolding entries
  length-entries [] = refl
  length-entries (h ∷ hs) = omega (arith, length-entries hs)

  keys_loop-contains :
      (es : List (Entry W)) (ks : List ℕ) (k : ℕ)
      → contains ks k ≡ true
      → contains (keys_loop es ks) k ≡ true
  unfolding keys_loop
  keys_loop-contains [] ks k h = h
  keys_loop-contains (e ∷ es) ks k h =
      keys_loop-contains es (extended ks e.key) k (rw (contains-extended ks e.key k, h))

  -- A key that is not among the distinct keys has no candidate.
  keys_loop_complete :
      (es : List (Entry W)) (ks : List ℕ) (k : ℕ)
      → contains (keys_loop es ks) k ≡ false
      → candidates es k ≡ []
  unfolding keys_loop candidates
  keys_loop_complete [] ks k h = refl
  keys_loop_complete (e ∷ es) ks k h = ground (
    arith,
    keys_loop_complete es (extended ks e.key) k h,
    keys_loop-contains es (extended ks e.key) k,
    contains-extended ks e.key k,
  )

  pub distinct_keys_complete :
      (es : List (Entry W)) (k : ℕ) → contains (distinct_keys es) k ≡ false → candidates es k ≡ []
  unfolding distinct_keys
  distinct_keys_complete es k h = keys_loop_complete es [] k h

  length-keys_loop :
      (es : List (Entry W)) (ks : List ℕ) → length (keys_loop es ks) ≤ length ks + length es
  unfolding keys_loop
  length-keys_loop [] ks = omega arith
  length-keys_loop (e ∷ es) ks =
      ground (arith, length-keys_loop es (extended ks e.key), length-append ks (e.key ∷ []))

  pub length-distinct_keys :
      (hs : List (Declaring W)) → length (distinct_keys (entries hs)) ≤ length hs
  unfolding distinct_keys
  length-distinct_keys hs = omega (arith, length-keys_loop (entries hs) [], length-entries hs)

-- What a slot must hold for the candidates `cs` of a key: the one candidate that needs no test, or
-- a range of `cand_`.
pub data Represents {W : Type 0} (cand : List (Declaring W)) (s : Slot W) (cs : List (Declaring W))
    (pure : Bool) : Type 0 where
  lone : (h : Declaring W) → s.only ≡ some h → cs ≡ h ∷ [] → pure ≡ true → Represents cand s cs pure
  range :
      (before after : List (Declaring W))
      → s.only ≡ none
      → cand ≡ before ++ (cs ++ after)
      → s.begin ≡ length before
      → s.count ≡ length cs
      → Represents cand s cs pure

module _ {W : Type 0} where
  run_candidates-selected :
      (c : Bool) (cs before after cand : List (Declaring W)) (at left : ℕ) (p : Packet) (n : ℕ)
      (w : W)
      → cand ≡ before ++ (cs ++ after)
      → at ≡ length before
      → left ≡ length cs
      → outcome (run_candidates c cand at left p n w) ≡ selected cs p w
  unfolding run_candidates selected
  run_candidates-selected c [] before after cand at zero p n w e ea el = refl
  run_candidates-selected c [] before after cand at (suc left) p n w e ea el = absurd (omega arith)
  run_candidates-selected c (h ∷ cs) before after cand at zero p n w e ea el = absurd (omega arith)
  run_candidates-selected c (h ∷ cs) before after cand at (suc left) p n w e ea el = ground (
    arith,
    get_elem?-middle before h (cs ++ after),
    run_candidates-selected c cs (before ++ h ∷ []) after cand (at + 1) left p (probe c n) w
        (e ∙ sym (snoc-append before h (cs ++ after)))
        (omega (arith, length-append before (h ∷ []))) (omega arith),
  )

  -- A slot that represents the candidates of the packet's key yields what a scan of them yields.
  pub run_slot-selected :
      (hs : List (Declaring W)) (c : Bool) (cand : List (Declaring W)) (s : Slot W) (p : Packet)
      (n : ℕ) (w : W)
      → AllHonest hs
      → Represents cand s (candidates (entries hs) p.protocol) (all_pure (entries hs) p.protocol)
      → outcome (run_slot c s cand p n w) ≡ selected hs p w
  unfolding run_slot selected
  run_slot-selected hs c cand s p n w a (lone h e ec ep) =
      ground (arith, selected-candidates hs p w a, candidates_pure hs p h a ec ep)
  run_slot-selected hs c cand s p n w a (range before after e ec eb en) = ground (
    arith,
    selected-candidates hs p w a,
    run_candidates-selected c (candidates (entries hs) p.protocol) before after cand s.begin s.count
        p n w ec eb en,
  )

  -- A slot that no key has claimed yields nothing.
  pub run_slot-empty :
      (c : Bool) (cand : List (Declaring W)) (s : Slot W) (p : Packet) (n : ℕ) (w : W)
      → s.only ≡ none
      → s.count ≡ 0
      → outcome (run_slot c s cand p n w) ≡ (unsupported, w)
  unfolding run_slot run_candidates
  run_slot-empty c cand s p n w e z = ground arith

  -- More candidates at the end of `cand_` change no slot's meaning.
  pub Represents-append :
      {cand : List (Declaring W)} {s : Slot W} {cs : List (Declaring W)} {pure : Bool}
      (more : List (Declaring W))
      → Represents cand s cs pure
      → Represents (cand ++ more) s cs pure
  Represents-append {cand} {s} {cs} more (lone h e ec ep) = lone h e ec ep
  Represents-append {cand} {s} {cs} more (range before after e ec eb en) =
      range before (after ++ more) e (extend ec) eb en
    where
      extend : cand ≡ before ++ (cs ++ after) → cand ++ more ≡ before ++ (cs ++ (after ++ more))
      extend q = simp (q, append_assoc)

  -- `fill_slot` makes a slot represent the candidates, if it held none or the same lone one.
  pub fill_slot-Represents :
      (cs : List (Declaring W)) (pure : Bool) (s : Slot W) (cand : List (Declaring W))
      → length cs < 2 ^ 16
      → length cand < 2 ^ 32
      → (s.only ≡ none) ⊎ ((length cs ≡ 1) × (pure ≡ true))
      → let (s', cand') = fill_slot cs pure s cand in
        Represents cand' s' cs pure
        × ((more : List (Declaring W)) × (cand' ≡ cand ++ more) × (length more ≤ length cs))
  unfolding fill_slot
  fill_slot-Represents [] pure s cand h l r =
      (range cand [] (ground arith) refl (ground arith) (ground arith), ([], refl, omega arith))
  fill_slot-Represents (x ∷ []) true s cand h l r =
      (lone x refl refl refl, ([], sym (append-nil cand), omega arith))
  fill_slot-Represents (x ∷ []) false s cand h l r =
      (range cand [] (ground arith) refl (ground arith) (ground arith), (x ∷ [], refl, omega arith))
  fill_slot-Represents (x ∷ y ∷ cs) pure s cand h l r =
      let many : (suc (suc (length cs)) == 1) ≡ false = ground arith in
      let free : s.only ≡ none = ground arith in
      rw many (
        range cand [] free (ap (λ l. cand ++ l) (sym (append-nil (x ∷ y ∷ cs)))) (omega arith)
            (omega arith),
        (x ∷ y ∷ cs, refl, omega arith),
      )

  -- A packet with a key that no handler declares is unsupported.
  pub selected_absent :
      (hs : List (Declaring W)) (p : Packet) (w : W)
      → AllHonest hs
      → contains (distinct_keys (entries hs)) p.protocol ≡ false
      → selected hs p w ≡ (unsupported, w)
  unfolding selected
  selected_absent hs p w a absent =
      sym (selected-candidates hs p w a)
      ∙ ap (λ l. selected l p w) (distinct_keys_complete (entries hs) p.protocol absent)
