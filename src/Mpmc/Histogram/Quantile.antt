-- ===== src/Mpmc/Histogram/Quantile.antt =====
-- What a quantile says of the values that were recorded.
use principal_katas.Prelude.{
  ℕ, zero, suc, ◌+◌, ◌-◌, ◌*◌, ◌^◌, ◌≤◌, ◌<◌, ◌≡◌, refl, sym, subst, ap, inl, inr, Bool, true,
  false, List, [], ◌∷◌, arith, ◌==◌, ltb, leb, add64, min, length, Bool-cases, if◌then◌else◌,
}
use principal_katas.Mpmc.Histogram.{
  bucket_count, Histogram, new_histogram, index, upper, record_value, quantile_loop, quantile,
}
use principal_katas.Mpmc.Histogram.Edges.{upper_mono}
use principal_katas.Mpmc.Histogram.Buckets.{bucket_bounds}

-- the histogram of some values
unfoldable pub recorded : List ℕ → Histogram
unfolding record_value
recorded [] = new_histogram
recorded (v ∷ vs) = record_value v (recorded vs)

-- how many values pass a test
unfoldable pub how_many : (ℕ → Bool) → List ℕ → ℕ
how_many t [] = 0
how_many t (v ∷ vs) = let rest = how_many t vs in if t v then suc rest else rest

abbrev pub AllBelow : ℕ → List ℕ → Type 0
AllBelow m [] = 0 ≤ 0
AllBelow m (v ∷ vs) = (v < m) × AllBelow m vs

how_many_le : (t : ℕ → Bool) (vs : List ℕ) → how_many t vs ≤ length vs
unfolding how_many
how_many_le t [] = omega arith
how_many_le t (v ∷ vs) = ground (arith, how_many_le t vs)

how_many_mono :
    (m : ℕ) (t u : ℕ → Bool) (vs : List ℕ)
    → AllBelow m vs
    → ((v : ℕ) → v < m → t v ≡ true → u v ≡ true)
    → how_many t vs ≤ how_many u vs
unfolding how_many
how_many_mono m t u [] b h = omega arith
how_many_mono m t u (v ∷ vs) b h = elim (Bool-cases (t v)) [
  | inl y ↦ rw (y, h v b.0 y) (omega (arith, how_many_mono m t u vs b.1 h))
  | inr n ↦ rw n (ground (arith, how_many_mono m t u vs b.1 h))
]

how_many_all :
    (m : ℕ) (t : ℕ → Bool) (vs : List ℕ)
    → AllBelow m vs
    → ((v : ℕ) → v < m → t v ≡ true)
    → how_many t vs ≡ length vs
unfolding how_many
how_many_all m t [] b h = refl
how_many_all m t (v ∷ vs) b h = rw (h v b.0) (omega (arith, how_many_all m t vs b.1 h))

how_many_next :
    (i : ℕ) (vs : List ℕ)
    → how_many (λ v. ltb (index v) (i + 1)) vs
      ≡ how_many (λ v. ltb (index v) i) vs + how_many (λ v. index v == i) vs
unfolding how_many
how_many_next i [] = refl
how_many_next i (v ∷ vs) = ground (arith, how_many_next i vs)

none_before : (ws : List ℕ) → how_many (λ v. ltb (index v) 0) ws ≡ 0
unfolding how_many
none_before [] = refl
none_before (w ∷ ws) = ground (arith, none_before ws)

-- what the histogram holds
recorded-counts :
    (i : ℕ) (vs : List ℕ)
    → length vs < 2 ^ 64
    → (recorded vs).counts i ≡ how_many (λ v. index v == i) vs
unfolding recorded record_value how_many
recorded-counts i [] lt = refl
recorded-counts i (v ∷ vs) lt = elim (Bool-cases (index v == i)) [
  | inl e ↦
      let same : index v ≡ i = ground arith in
      let ih = recorded-counts i vs (omega arith) in
      let le = how_many_le (λ w. index w == i) vs in
      ground (arith, ih, le, ap (recorded vs).counts same)
  | inr e ↦ ground (arith, recorded-counts i vs (omega arith))
]

recorded-n : (vs : List ℕ) → length vs < 2 ^ 64 → (recorded vs).n ≡ length vs
unfolding recorded record_value
recorded-n [] lt = refl
recorded-n (v ∷ vs) lt = omega (arith, recorded-n vs (omega arith))

AllBelow-widen : (m m' : ℕ) (vs : List ℕ) → m ≤ m' → AllBelow m vs → AllBelow m' vs
AllBelow-widen m m' [] le b = omega arith
AllBelow-widen m m' (v ∷ vs) le b = (omega (arith, b.0), AllBelow-widen m m' vs le b.1)

recorded-max : (vs : List ℕ) → AllBelow ((recorded vs).max_value + 1) vs
unfolding recorded record_value
recorded-max [] = omega arith
recorded-max (v ∷ vs) =
    (omega arith, AllBelow-widen ((recorded vs).max_value + 1) _ vs (omega arith) (recorded-max vs))

max_small : (vs : List ℕ) → AllBelow (2 ^ 64) vs → (recorded vs).max_value < 2 ^ 64
unfolding recorded record_value
max_small [] b = omega arith
max_small (v ∷ vs) b = omega (arith, b.0, max_small vs b.1)

-- A value is below the upper edge of a bucket if it lies in that bucket or before it, and before
-- that bucket if it is less than that edge by a sixteenth of itself.
in_or_before :
    (v i : ℕ) → v < 2 ^ 64 → i < bucket_count → ltb (index v) (i + 1) ≡ true → v ≤ upper i
in_or_before v i small lt t =
    let mono : upper (index v) ≤ upper i = upper_mono (i - index v) (index v) i (ground arith) lt in
    omega (arith, mono, bucket_bounds v small)

far_before : (v i : ℕ) → v < 2 ^ 64 → 17 * v < 16 * upper i → ltb (index v) i ≡ true
far_before v i small lt = elim (Bool-cases (ltb (index v) i)) [
  | inl y ↦ y
  | inr n ↦
      let b = bucket_bounds v small in
      let mono : upper i ≤ upper (index v) =
        upper_mono (index v - i) i (index v) (ground arith) b.0 in
      absurd (omega (arith, mono, b))
]

-- what a value says that the loop returns
abbrev pub Covers : ℕ → List ℕ → ℕ → Type 0
Covers rank vs q =
    (rank ≤ how_many (λ v. leb v q) vs) × (how_many (λ v. ltb (17 * v) (16 * q)) vs < rank)

module _ (vs : List ℕ) (few : length vs < 2 ^ 64) (small : AllBelow (2 ^ 64) vs) (rank : ℕ) where
  found_at :
      (i : ℕ)
      → i < bucket_count
      → how_many (λ v. ltb (index v) i) vs < rank
      → rank ≤ how_many (λ v. ltb (index v) (i + 1)) vs
      → Covers rank vs (min (upper i) (recorded vs).max_value)
  found_at i lt before upto =
      let m = (recorded vs).max_value in
      let m_small = max_small vs small in
      let q = min (upper i) m in
      (
        omega (
          arith,
          upto,
          how_many_mono (m + 1) (λ v. ltb (index v) (i + 1)) (λ v. leb v q) vs (recorded-max vs)
              (λ v l t.
                le_leb v q (omega (arith, l, in_or_before v i (omega (arith, l, m_small)) lt t))),
        ),
        omega (
          arith,
          before,
          how_many_mono (m + 1) (λ v. ltb (17 * v) (16 * q)) (λ v. ltb (index v) i) vs
              (recorded-max vs) (λ v l t. far_before v i (omega (arith, l, m_small)) (far v i t)),
        ),
      )
    where
      le_leb : (a b : ℕ) → a ≤ b → leb a b ≡ true
      le_leb a b le = ground arith

      far :
          (v i : ℕ)
          → ltb (17 * v) (16 * min (upper i) (recorded vs).max_value) ≡ true
          → 17 * v < 16 * upper i
      far v i t = lower (17 * v) (upper i) (recorded vs).max_value t
        where
          lower : (a b c : ℕ) → ltb a (16 * min b c) ≡ true → a < 16 * b
          lower a b c t = ground arith

  quantile_loop-Covers :
      (left i : ℕ)
      → i + left ≡ bucket_count
      → rank ≤ length vs
      → how_many (λ v. ltb (index v) i) vs < rank
      → Covers rank vs
          (quantile_loop (recorded vs) rank i left (how_many (λ v. ltb (index v) i) vs))
  unfolding quantile_loop
  quantile_loop-Covers zero i e le before =
      let all : how_many (λ v. ltb (index v) i) vs ≡ length vs =
        how_many_all (2 ^ 64) (λ v. ltb (index v) i) vs small
          (λ v l. lt_ltb (index v) i (omega (arith, e, bucket_bounds v l))) in
      absurd (omega (arith, all))
    where
      lt_ltb : (a b : ℕ) → a < b → ltb a b ≡ true
      lt_ltb a b lt = ground arith
  quantile_loop-Covers (suc left) i e le before =
      let seen = how_many (λ v. ltb (index v) i) vs in
      let seen' = how_many (λ v. ltb (index v) (i + 1)) vs in
      let most = how_many_le (λ v. ltb (index v) (i + 1)) vs in
      let step : add64 seen ((recorded vs).counts i) ≡ seen' =
        omega (arith, recorded-counts i vs few, how_many_next i vs, most) in
      let rest : seen' < rank
          → Covers rank vs (quantile_loop (recorded vs) rank (i + 1) left seen') =
        λ b. quantile_loop-Covers left (i + 1) (omega (arith, e)) le b in
      subst
        (λ k. Covers rank vs (
          if leb rank k
          then min (upper i) (recorded vs).max_value
          else quantile_loop (recorded vs) rank (i + 1) left k))
        (sym step)
        (elim (Bool-cases (leb rank seen')) [
          | inl y ↦ rw y (found_at i (omega (arith, e)) before (ground arith))
          | inr n ↦ rw n (rest (ground arith))
        ])

  -- Of fewer than 2^64 recorded 64-bit values, for a rank from one to their number: at least as many
  -- values as the rank are not above the quantile, and fewer are below it by more than a
  -- seventeenth of it.
  pub quantile_covers :
      1 ≤ rank
      → rank ≤ length vs
      → (rank ≤ how_many (λ v. leb v (quantile rank (recorded vs))) vs)
        × (how_many (λ v. ltb (17 * v) (16 * quantile rank (recorded vs))) vs < rank)
  unfolding quantile
  quantile_covers lo hi =
      let some_held : ((recorded vs).n == 0) ≡ false = ground (arith, recorded-n vs few) in
      rw some_held (
        subst (λ k. Covers rank vs (quantile_loop (recorded vs) rank 0 bucket_count k))
          (none_before vs)
          (quantile_loop-Covers bucket_count 0 refl hi (omega (arith, none_before vs, lo))))
