-- ===== src/Mpmc/Histogram/Edges.antt =====
-- The upper edges of the buckets: each is in its bucket, and they rise.
use native.Mathlib.Nat.{pow-suc, pow-le-pow_right}
use principal_katas.Prelude.{
  zero, subst, ℕ, suc, ◌+◌, ◌-◌, ◌*◌, ◌/◌, ◌^◌, ◌≤◌, ◌<◌, ◌≡◌, refl, ap, ◌∙◌, inl, inr, arith, ◌==◌,
  ltb, Bool-cases,
}
use principal_katas.Mpmc.Histogram.{bucket_count, index, upper}
use principal_katas.Mpmc.Histogram.Buckets.{split, index_lem, upper_lem, digit, pow_59}

doubled : (e e' : ℕ) → e < e' → 2 * 2 ^ e ≤ 2 ^ e'
doubled e e' lt =
    omega (arith, pow-suc 2 e, pow-le-pow_right {n = 2} (omega arith) {i = suc e} {j = e'} lt)

-- the exponents of two scales of which neither is twice the other or more
same_scale : (e e' : ℕ) → 2 ^ e < 2 * 2 ^ e' → 2 ^ e' < 2 * 2 ^ e → e ≡ e'
same_scale e e' lt gt = elim (Bool-cases (ltb e e')) [
  | inl less ↦ absurd (omega (arith, gt, doubled e e' (ground arith)))
  | inr ge ↦ elim (Bool-cases (ltb e' e)) [
    | inl more ↦ absurd (omega (arith, lt, doubled e' e (ground arith)))
    | inr le ↦ ground arith
  ]
]

-- the leading digits of an upper edge
edge_digit : (v p m : ℕ) → 16 * p ≤ v → v < 32 * p → v + 1 ≡ (m + 1) * p → v / p ≡ m
edge_digit v p m lo hi e = let d = digit v p lo hi in grind (arith, d, e)

index-upper_large : (i : ℕ) → i < bucket_count → 32 ≤ i → index (upper i) ≡ i
index-upper_large i lt h =
    let e = i / 16 - 1 in
    let m = i - 16 * e in
    let v = upper i in
    let p = pow_59 e (omega arith) in
    let edge : v + 1 ≡ (m + 1) * 2 ^ e =
      upper_lem e m i (omega arith) (omega arith) (omega arith) (omega arith) (omega arith) in
    let lo : 16 * 2 ^ e ≤ v = low e m (omega arith) p.0 edge in
    let hi : v < 32 * 2 ^ e = high e m (omega arith) edge in
    let s = split v (omega (arith, lo, two e (omega arith))) (omega (arith, hi, p)) in
    let same : s.e ≡ e = same_scale s.e e (omega (arith, s.low, hi)) (omega (arith, lo, s.high)) in
    let (ei, eu) = index_lem v s (omega (arith, lo, two e (omega arith))) in
    ei
    ∙ ap (λ k. 16 * k + v / 2 ^ k) same
    ∙ ap (λ d. 16 * e + d) (edge_digit v (2 ^ e) m lo hi edge)
    ∙ omega arith
  where
    low : (e m : ℕ) → 16 ≤ m → 1 ≤ 2 ^ e → upper i + 1 ≡ (m + 1) * 2 ^ e → 16 * 2 ^ e ≤ upper i
    low e m le one edge = grind (arith, le, one, edge)

    high : (e m : ℕ) → m ≤ 31 → upper i + 1 ≡ (m + 1) * 2 ^ e → upper i < 32 * 2 ^ e
    high e m le edge = grind (arith, le, edge)

    two : (e : ℕ) → 1 ≤ e → 2 ≤ 2 ^ e
    two e le = pow-le-pow_right {n = 2} (omega arith) {i = 1} {j = e} le

-- The upper edge of every bucket is a value of that bucket.
pub index-upper : (i : ℕ) → i < bucket_count → index (upper i) ≡ i
unfolding index upper
index-upper i lt = elim (Bool-cases (ltb i 32)) [
  | inl small ↦ rw (small, small) refl
  | inr large ↦ index-upper_large i lt (ground arith)
]

-- the upper edges rise
upper_next : (i : ℕ) → 32 ≤ i → i + 1 < bucket_count → upper i ≤ upper (i + 1)
upper_next i lo hi =
    let e = i / 16 - 1 in
    let e' = (i + 1) / 16 - 1 in
    let here =
      upper_lem e (i - 16 * e) i (omega arith) (omega arith) (omega arith) (omega arith)
        (omega arith) in
    let there =
      upper_lem e' (i + 1 - 16 * e') (i + 1) (omega arith) (omega arith) (omega arith) (omega arith)
        (omega arith) in
    elim (Bool-cases (e == e')) [
      | inl same ↦
          let at : e' ≡ e = ground arith in
          let there' : upper (i + 1) + 1 ≡ (i + 1 - 16 * e + 1) * 2 ^ e =
            subst (λ k. upper (i + 1) + 1 ≡ (i + 1 - 16 * k + 1) * 2 ^ k) at there in
          let more : i + 1 - 16 * e ≡ i - 16 * e + 1 = omega arith in
          grind (arith, here, there', more)
      | inr other ↦
          let at : e' ≡ suc e = ground arith in
          let last : i - 16 * e ≡ 31 = ground arith in
          let first : i + 1 - 16 * e' ≡ 16 = ground arith in
          let here' : upper i + 1 ≡ (31 + 1) * 2 ^ e = here ∙ ap (λ k. (k + 1) * 2 ^ e) last in
          let there' : upper (i + 1) + 1 ≡ (16 + 1) * 2 ^ suc e =
            there ∙ ap (λ k. (k + 1) * 2 ^ e') first ∙ ap (λ k. (16 + 1) * 2 ^ k) at in
          omega (arith, here', there', pow-suc 2 e)
    ]

upper_step : (i : ℕ) → i + 1 < bucket_count → upper i ≤ upper (i + 1)
unfolding upper
upper_step i hi = elim (Bool-cases (ltb i 32)) [
  | inr large ↦ upper_next i (ground arith) hi
  | inl small ↦ elim (Bool-cases (ltb (i + 1) 32)) [
    | inl small' ↦ rw (small, small') (omega arith)
    | inr edge ↦
        let at : 31 ≡ i = ground arith in subst (λ k. upper k ≤ upper (k + 1)) at (omega arith)
  ]
]

pub upper_mono : (d i j : ℕ) → i + d ≡ j → j < bucket_count → upper i ≤ upper j
upper_mono zero i j e lt =
    let at : i ≡ j = omega (arith, e) in subst (λ k. upper i ≤ upper k) at (omega arith)
upper_mono (suc d) i j e lt =
    let at : i + d + 1 ≡ j = omega arith in
    subst (λ k. upper i ≤ upper k) at
      (omega (arith, upper_mono d i (i + d) refl (omega arith), upper_step (i + d) (omega arith)))
