-- ===== src/Dispatch/Generated/Arms.antt =====
-- Every selection arm over the generated handlers returns what the scan returns.
use principal_katas.Prelude.{ℕ, zero, suc, ◌+◌, ◌≤◌, ◌<◌, ◌^◌, ◌≡◌, Bool, List, arith, length}
use principal_katas.Dispatch.Packet.{Packet, handler_count}
use principal_katas.Dispatch.Scan.{Scan, run, dispatch, scan_ordered}
use principal_katas.Dispatch.Scan.Order.{ordered_agrees}
use principal_katas.Dispatch.Table.{
  table_direct16, table_compact, direct_run, compact_run, compact_size,
}
use principal_katas.Dispatch.Table.Direct.{direct_agrees}
use principal_katas.Dispatch.Table.Compact.{compact_agrees}
use principal_katas.Dispatch.Table.Injective.{SmallKeys, small_injective}
use principal_katas.Dispatch.Generated.{key_of, generated, generated_from, first}
use principal_katas.Dispatch.Generated.Exclusive.{first-AllHonest, matching-first}

key_of-small : (n : ℕ) → n < handler_count → key_of n < compact_size
unfolding key_of
key_of-small n h = ground arith

module _ (W : Type 0) (r : ℕ) where
  length-generated_from : (n left : ℕ) → length (generated_from W r n left) ≡ left
  unfolding generated_from
  length-generated_from n zero = omega arith
  length-generated_from n (suc left) = omega (arith, length-generated_from (n + 1) left)

  generated_from-SmallKeys :
      (n left : ℕ) → n + left ≤ handler_count → SmallKeys (generated_from W r n left)
  unfolding generated_from generated
  generated_from-SmallKeys n zero h = tt
  generated_from-SmallKeys n (suc left) h =
      (key_of-small n (omega arith), generated_from-SmallKeys (n + 1) left (omega arith))

  pub few : (n : ℕ) → n ≤ handler_count → length (first W r n) < 2 ^ 16
  unfolding first
  few n h = omega (arith, length-generated_from 0 n)

  pub first-SmallKeys : (n : ℕ) → n ≤ handler_count → SmallKeys (first W r n)
  unfolding first
  first-SmallKeys n h = generated_from-SmallKeys 0 n (omega arith)

-- Over the first `n` of the hundred generated handlers the two tables and the scan in any order of
-- frequencies return, for every packet, the result of the scan in registration order, and leave
-- the handlers in the same state. No condition on the mapping is left: it is injective.
pub arms_agree :
    (W : Type 0) (r n : ℕ) (freq : List ℕ) (c : Bool) (p : Packet) (w : W)
    → n ≤ handler_count
    → let hs = first W r n in
      let plain : Scan W = record { handlers = hs; probes = 0 } in
      let o = run c plain p w in
      let d = direct_run c (table_direct16 hs) p w in
      let k = compact_run c (table_compact hs) p w in
      let f = dispatch (scan_ordered hs freq) p w in
      let g = dispatch plain p w in
      ((d.0 ≡ o.0) × (d.2 ≡ o.2)) × ((k.0 ≡ o.0) × (k.2 ≡ o.2)) × ((f.0 ≡ g.0) × (f.2 ≡ g.2))
arms_agree W r n freq c p w h =
    let hs = first W r n in
    let (up, real) = small_injective hs (first-SmallKeys W r n h) in
    (
      direct_agrees hs (few W r n h) c p w (first-AllHonest W r n),
      compact_agrees hs (few W r n h) c p w (first-AllHonest W r n) real up,
      ordered_agrees hs freq p w (matching-first W r n p h),
    )
