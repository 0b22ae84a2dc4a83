-- ===== src/Mpmc/Histogram.antt =====
-- mpmc-work-queue-kata/cpp/src/histogram.hpp: the log-linear latency histogram.
pub mod Buckets
pub mod Edges
pub mod Quantile
use principal_katas.Prelude.{
  ℕ, zero, suc, ◌+◌, ◌-◌, ◌*◌, ◌/◌, ◌%◌, ◌^◌, Bool, true, false, List, [], ◌∷◌, ◌==◌, ltb, leb,
  add64, sub64, min, max, put_at, if◌then◌else◌,
}

-- `kBuckets`
abbrev pub bucket_count : ℕ
bucket_count = 976

-- `counts_` is indexed by numbers below `kBuckets`.
pub record Histogram : Type 0 where
  pub counts : ℕ → ℕ
  pub n : ℕ
  pub max_value : ℕ

abbrev pub new_histogram : Histogram
new_histogram = record { counts = λ _. 0; n = 0; max_value = 0 }

-- `std::bit_width`, of a number with at most `bits` bits
unfoldable pub bit_width : ℕ → ℕ → ℕ
bit_width zero v = 0
bit_width (suc bits) v = let rest = bit_width bits (v / 2) in if v == 0 then 0 else suc rest

unfoldable pub index : ℕ → ℕ
index v = if ltb v 32 then v else let e = bit_width 64 v - 5 in 16 * e + v / 2 ^ e

unfoldable pub upper : ℕ → ℕ
upper i =
    if ltb i 32
    then i
    else let e = i / 16 - 1 in let m = i - 16 * e in sub64 ((m + 1) * 2 ^ e % 2 ^ 64) 1

unfoldable pub record_value : ℕ → Histogram → Histogram
record_value v h = record {
  counts = put_at h.counts (index v) (add64 (h.counts (index v)) 1);
  n = add64 h.n 1;
  max_value = max h.max_value v;
}

unfoldable pub merge : Histogram → Histogram → Histogram
merge h o = record {
  counts = λ i. add64 (h.counts i) (o.counts i);
  n = add64 h.n o.n;
  max_value = max h.max_value o.max_value;
}

-- The loop of `quantile`, from bucket `i` for `left` buckets.
unfoldable pub quantile_loop : Histogram → ℕ → ℕ → ℕ → ℕ → ℕ
quantile_loop h rank i zero seen = h.max_value
quantile_loop h rank i (suc left) seen =
    let seen' = add64 seen (h.counts i) in
    let rest = quantile_loop h rank (i + 1) left seen' in
    if leb rank seen' then min (upper i) h.max_value else rest

-- `quantile(q)`; `rank` is `(uint64_t)(q * (double)(n_ - 1)) + 1`, which is computed in floating
-- point.
unfoldable pub quantile : ℕ → Histogram → ℕ
quantile rank h = if h.n == 0 then 0 else quantile_loop h rank 0 bucket_count 0

-- the loop of `count_above`, from bucket `i` for `left` buckets
unfoldable pub above_loop : Histogram → ℕ → ℕ → ℕ → ℕ
above_loop h i zero above = above
above_loop h i (suc left) above = above_loop h (i + 1) left (add64 above (h.counts i))

unfoldable pub count_above : ℕ → Histogram → ℕ
count_above v h = let i = index v + 1 in above_loop h i (bucket_count - i) 0
