-- ===== src/Dispatch/Generated/Exclusive.antt =====
-- The generated handlers keep what the tables and the reorderings rely on.
use principal_katas.Prelude.{
  ℕ, zero, suc, ◌+◌, ◌-◌, ◌*◌, ◌%◌, ◌≤◌, ◌<◌, ◌≡◌, refl, true, arith, ltb, get_or, if◌then◌else◌,
}
use principal_katas.Dispatch.Packet.{Packet, handler_count}
use principal_katas.Dispatch.Handler.{IsHonest, AllHonest}
use principal_katas.Dispatch.Scan.Order.{matching}
use principal_katas.Dispatch.Generated.{generated_matches, generated, generated_from, first}

generated-IsHonest : (W : Type 0) (r n : ℕ) → IsHonest (generated W r n)
unfolding generated
generated-IsHonest W r n = record { keyed = λ p h. ground arith; pure = λ p h k. ground arith }

generated_from-AllHonest : (W : Type 0) (r n left : ℕ) → AllHonest (generated_from W r n left)
unfolding generated_from
generated_from-AllHonest W r n zero = tt
generated_from-AllHonest W r n (suc left) =
    (generated-IsHonest W r n, generated_from-AllHonest W r (n + 1) left)

pub first-AllHonest : (W : Type 0) (r n : ℕ) → AllHonest (first W r n)
unfolding first
first-AllHonest W r n = generated_from-AllHonest W r 0 n

-- The one handler that can match: the key and the low bits of the first payload byte tell it.
abbrev owner : ℕ → ℕ → ℕ
owner k d = if ltb k 900 then k else 10 * ((4 * (k - 900 + 2) + 9 * d) % 12) + 7

owner_lem :
    (n : ℕ) (p : Packet)
    → n < handler_count
    → generated_matches n p ≡ true
    → owner p.protocol (get_or p.payload 0 0 % 4) ≡ n
unfolding generated_matches
owner_lem n p h m = ground arith

module _ (W : Type 0) (r : ℕ) (p : Packet) where
  abbrev owned : ℕ
  owned = owner p.protocol (get_or p.payload 0 0 % 4)

  matching-none :
      (n left : ℕ)
      → n + left ≤ handler_count
      → owned < n
      → matching (generated_from W r n left) p ≡ 0
  unfolding generated_from generated
  matching-none n zero b o = refl
  matching-none n (suc left) b o = ground (arith, owner_lem n p, matching-none (n + 1) left)

  matching-generated_from :
      (n left : ℕ) → n + left ≤ handler_count → matching (generated_from W r n left) p ≤ 1
  unfolding generated_from generated
  matching-generated_from n zero b = omega arith
  matching-generated_from n (suc left) b =
      ground
        (arith, owner_lem n p, matching-none (n + 1) left, matching-generated_from (n + 1) left)

-- At most one of the first `n` generated handlers matches a packet, whatever the packet.
pub matching-first :
    (W : Type 0) (r n : ℕ) (p : Packet) → n ≤ handler_count → matching (first W r n) p ≤ 1
unfolding first
matching-first W r n p h = matching-generated_from W r p 0 n (omega arith)
