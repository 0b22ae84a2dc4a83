-- ===== src/Mpmc/EventCount/Count.antt =====
-- How many of the first threads are in one of some places.
use principal_katas.Prelude.{
  ℕ, zero, suc, ◌+◌, ◌≤◌, ◌<◌, ◌≡◌, refl, sym, subst, ap, ◌∙◌, inl, inr, Bool, true, false, ◌==◌,
  put_at, arith, Bool-cases, if◌then◌else◌,
}

abbrev pub bit : Bool → ℕ
bit b = if b then 1 else 0

module _ {A : Type 0} (test : A → Bool) where
  unfoldable pub count : ℕ → (ℕ → A) → ℕ
  count zero f = 0
  count (suc n) f = bit (test (f n)) + count n f

  pub count_le : (n : ℕ) (f : ℕ → A) → count n f ≤ n
  unfolding count
  count_le zero f = omega arith
  count_le (suc n) f = ground (arith, count_le n f)

  pub count_none : (n : ℕ) (f : ℕ → A) → ((i : ℕ) → test (f i) ≡ false) → count n f ≡ 0
  unfolding count
  count_none zero f none = refl
  count_none (suc n) f none = rw (none n) (omega (arith, count_none n f none))

  pub count_pos : (n i : ℕ) (f : ℕ → A) → i < n → test (f i) ≡ true → 1 ≤ count n f
  unfolding count
  count_pos zero i f lt t = absurd (omega arith)
  count_pos (suc n) i f lt t = elim (Bool-cases (i == n)) [
    | inl e ↦
        let same : i ≡ n = ground arith in
        let t' : test (f n) ≡ true = rw (sym same) t in rw t' (omega arith)
    | inr e ↦ omega (arith, count_pos n i f (ground arith) t)
  ]

  count-put_past : (n i : ℕ) (f : ℕ → A) (v : A) → n ≤ i → count n (put_at f i v) ≡ count n f
  unfolding count
  count-put_past zero i f v le = refl
  count-put_past (suc n) i f v le = ground (arith, count-put_past n i f v (omega arith))

  pub count-put :
      (n i : ℕ) (f : ℕ → A) (v : A)
      → i < n
      → count n (put_at f i v) + bit (test (f i)) ≡ count n f + bit (test v)
  unfolding count
  count-put zero i f v lt = absurd (omega arith)
  count-put (suc n) i f v lt = elim (Bool-cases (i == n)) [
    | inl e ↦
        let same : i ≡ n = ground arith in
        rw same (ground (arith, count-put_past n n f v (omega arith)))
    | inr e ↦ ground (arith, count-put n i f v (ground arith))
  ]

  -- some thread in one of the places, of all or of the first `n`
  abbrev pub Some : (ℕ → A) → Type 0
  Some f = (j : ℕ) × (test (f j) ≡ true)

  abbrev pub SomeOf : ℕ → (ℕ → A) → Type 0
  SomeOf n f = (i : ℕ) × (i < n) × (test (f i) ≡ true)

module _ {A : Type 0} where
  pub put_same : (f : ℕ → A) (i : ℕ) (v : A) → put_at f i v i ≡ v
  put_same f i v = ground arith

  pub put_other : (f : ℕ → A) (i : ℕ) (v : A) (j : ℕ) → (i == j) ≡ false → put_at f i v j ≡ f j
  put_other f i v j ne = ground arith

  -- What holds of a thread's place still does when another moves, and the mover's is given.
  pub each_put :
      (P : ℕ → A → Type 0) (f : ℕ → A) (i : ℕ) (v : A)
      → P i v
      → ((j : ℕ) → P j (f j))
      → (j : ℕ) → P j (put_at f i v j)
  each_put P f i v p all j = elim (Bool-cases (i == j)) [
    | inl e ↦
        let same : i ≡ j = ground arith in
        subst (λ k. P k (put_at f i v k)) same (subst (P i) (sym (put_same f i v)) p)
    | inr e ↦ subst (P j) (sym (put_other f i v j e)) (all j)
  ]

  -- The witness still serves, if the mover's new place does whenever its old one did.
  pub Some-put :
      (test : A → Bool) (f : ℕ → A) (i : ℕ) (v : A)
      → (test (f i) ≡ true → test v ≡ true)
      → Some test f
      → Some test (put_at f i v)
  Some-put test f i v keep (j, t) = elim (Bool-cases (i == j)) [
    | inl e ↦
        let same : i ≡ j = ground arith in
        (i, ap test (put_same f i v) ∙ keep (subst (λ k. test (f k) ≡ true) (sym same) t))
    | inr e ↦ (j, ap test (put_other f i v j e) ∙ t)
  ]

  pub Some-new :
      (test : A → Bool) (f : ℕ → A) (i : ℕ) (v : A) → test v ≡ true → Some test (put_at f i v)
  Some-new test f i v t = (i, ap test (put_same f i v) ∙ t)
