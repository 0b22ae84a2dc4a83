-- ===== src/Mpmc/Histogram/Buckets.antt =====
-- The buckets cover the 64-bit range, in order, each less than a sixteenth wide.
use native.Mathlib.Nat.{pow-suc, pow-le-pow_right, one-le-pow, div-add-mod, mod-lt}
use native.Mathlib.Numerals.{towards_suc}
use principal_katas.Prelude.{
  ℕ, zero, suc, ◌+◌, ◌-◌, ◌*◌, ◌/◌, ◌^◌, ◌≤◌, ◌<◌, ◌≡◌, ◌≢◌, refl, ap, ◌∙◌, inl, inr, true, false,
  arith, ◌==◌, ltb, leb, Bool-cases,
}
use principal_katas.Mpmc.Histogram.{bucket_count, bit_width, index, upper}

bit_width-zero : (bits : ℕ) → bit_width bits 0 ≡ 0
unfolding bit_width
bit_width-zero zero = refl
bit_width-zero (suc bits) = refl

-- `bit_width` is the number of binary digits.
pub bit_width-bounds :
    (bits v : ℕ)
    → v < 2 ^ bits
    → v ≢ 0
    → (v < 2 ^ bit_width bits v) × (2 ^ bit_width bits v ≤ 2 * v) × (bit_width bits v ≤ bits)
unfolding bit_width
bit_width-bounds zero v h nz = absurd (omega arith)
bit_width-bounds (suc bits) v h nz = elim (Bool-cases (v == 0)) [
  | inl z ↦ absurd (ground arith)
  | inr more ↦ elim (Bool-cases (v / 2 == 0)) [
    | inl last ↦ let e : v / 2 ≡ 0 = ground arith in rw (more, e, bit_width-zero) (omega arith)
    | inr rest ↦
        let ih = bit_width-bounds bits (v / 2) (omega (arith, pow-suc 2 bits)) (ground arith) in
        rw (more, pow-suc) (omega (arith, ih))
  ]
]

-- A value of 32 or more is `m · 2^e + r`, with `m` from 16 to 31 and `r` below 2^e.
pub record Split (v : ℕ) : Type 0 where
  pub e : ℕ
  pub low : 16 * 2 ^ e ≤ v
  pub high : v < 32 * 2 ^ e
  pub small : e ≤ 59
  pub width : bit_width 64 v ≡ e + 5

pub split : (v : ℕ) → 32 ≤ v → v < 2 ^ 64 → Split v
split v h l =
    let b = bit_width-bounds 64 v l (omega arith) in
    record {
      e = bit_width 64 v - 5;
      low = omega (arith, b, whole);
      high = omega (arith, b, whole);
      small = omega (arith, b);
      width = large;
    }
  where
    large : bit_width 64 v ≡ bit_width 64 v - 5 + 5
    large = elim (Bool-cases (leb 5 (bit_width 64 v))) [
      | inl ok ↦ ground arith
      | inr low ↦ absurd (
          omega (
            arith,
            bit_width-bounds 64 v l (omega arith),
            pow-le-pow_right {n = 2} (omega arith) {i = bit_width 64 v} {j = 5} (ground arith),
          ))
    ]

    five : (n : ℕ) → 2 ^ (n + 5) ≡ 32 * 2 ^ n
    five n = simp towards_suc (omega arith)

    whole : 2 ^ bit_width 64 v ≡ 32 * 2 ^ (bit_width 64 v - 5)
    whole = ap (λ n. 2 ^ n) large ∙ five (bit_width 64 v - 5)

-- the leading digits of a value at scale `p`
pub digit :
    (v p : ℕ)
    → 16 * p ≤ v
    → v < 32 * p
    → (16 ≤ v / p) × (v / p ≤ 31) × (p * (v / p) ≤ v) × (v < p * (v / p) + p)
digit v p lo hi =
    let facts = div-add-mod v p in
    let rest = mod-lt v {m = p} (omega arith) in
    (
      grind (arith, facts, rest),
      grind (arith, facts, rest),
      omega (arith, facts),
      omega (arith, facts, rest),
    )

pub pow_59 : (e : ℕ) → e ≤ 59 → (1 ≤ 2 ^ e) × (2 ^ e ≤ 2 ^ 59)
pow_59 e h = (one-le-pow e 2 (omega arith), pow-le-pow_right {n = 2} (omega arith) h)

-- the upper edge of the bucket for `m` at scale 2^e, which never wraps past 2^64 - 1
pub upper_lem :
    (e m i : ℕ) → e ≢ 0 → e ≤ 59 → 16 ≤ m → m ≤ 31 → i ≡ 16 * e + m → upper i + 1 ≡ (m + 1) * 2 ^ e
unfolding upper
upper_lem e m i nz le lo hi ei =
    let big : ltb i 32 ≡ false = ground arith in
    let e' : i / 16 - 1 ≡ e = omega arith in
    let m' : i - 16 * e ≡ m = omega arith in
    let p = pow_59 e le in
    let most : (m + 1) * 2 ^ e ≤ 2 ^ 64 = grind (arith, p) in
    let least : 1 ≤ (m + 1) * 2 ^ e = grind (arith, p) in
    rw (big, e', m') (omega (arith, most, least))

Split-positive : (v : ℕ) (s : Split v) → 32 ≤ v → s.e ≢ 0
Split-positive v s h z = let one : 2 ^ s.e ≡ 1 = ap (λ k. 2 ^ k) z in omega (arith, s.high, one)

-- A value of 32 or more: its bucket, and the upper edge of that.
pub index_lem :
    (v : ℕ) (s : Split v)
    → 32 ≤ v
    → (index v ≡ 16 * s.e + v / 2 ^ s.e) × (upper (index v) + 1 ≡ (v / 2 ^ s.e + 1) * 2 ^ s.e)
unfolding index
index_lem v s h =
    let large : ltb v 32 ≡ false = ground arith in
    let five : bit_width 64 v - 5 ≡ s.e = omega (arith, s.width) in
    let d = digit v (2 ^ s.e) s.low s.high in
    rw (large, five)
      (refl, upper_lem s.e (v / 2 ^ s.e) _ (Split-positive v s h) s.small d.0 d.1 refl)

small_lem :
    (v : ℕ)
    → v < 32
    → (index v < bucket_count) × (v ≤ upper (index v)) × (16 * upper (index v) ≤ 17 * v)
unfolding index upper
small_lem v h = let t : ltb v 32 ≡ true = ground arith in rw (t, t) (omega arith)

-- Every 64-bit value has a bucket below 976, whose upper edge is not below the value and exceeds it
-- by at most a sixteenth of the value.
pub bucket_bounds :
    (v : ℕ)
    → v < 2 ^ 64
    → (index v < bucket_count) × (v ≤ upper (index v)) × (16 * upper (index v) ≤ 17 * v)
bucket_bounds v l = elim (Bool-cases (ltb v 32)) [
  | inl small ↦ small_lem v (ground arith)
  | inr large ↦
      let h : 32 ≤ v = ground arith in
      let s = split v h l in
      let (ei, eu) = index_lem v s h in
      let d = digit v (2 ^ s.e) s.low s.high in
      (omega (arith, ei, d, s.small), grind (arith, eu, d), grind (arith, eu, d, s.low))
]
