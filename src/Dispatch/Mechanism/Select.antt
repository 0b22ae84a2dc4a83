-- ===== src/Dispatch/Mechanism/Select.antt =====
-- The selector finds the first handler that claims a key, and all arms run that handler.
use principal_katas.Prelude.{
  ℕ, zero, suc, ◌+◌, ◌%◌, ◌≤◌, ◌<◌, ◌≡◌, refl, ◌⊎◌, inl, inr, some, arith, ◌==◌, get_elem?,
  Bool-cases, if◌then◌else◌, ap, ◌∙◌,
}
use principal_katas.Dispatch.Packet.{Packet, Result, handler_count, unsupported}
use principal_katas.Dispatch.Generated.{key_of, generated, generated_from, generated_process, first}
use principal_katas.Dispatch.Mechanism.{
  Selector, select_size, select_none, claim, claim_from, selector, select, mech_virtual, thunk,
  erased_from, mech_erasure, variants_from, mech_variant,
}

-- The first of the handlers `n`, `n + 1`, … that claims key `k`, or none.
unfoldable pub first_claiming : ℕ → ℕ → ℕ → ℕ
first_claiming k n zero = select_none
first_claiming k n (suc left) = if key_of n == k then n else first_claiming k (n + 1) left

key_of-small : (n : ℕ) → n < handler_count → key_of n < select_size
unfolding key_of
key_of-small n h = ground arith

-- An entry is free, or holds the key that is its index and a handler's number.
abbrev IsSound : Selector → Type 0
IsSound s =
    (b : ℕ)
    → b < select_size
    → ((s.idx b ≡ select_none) × (s.key b ≡ 0xFFFF)) ⊎ ((s.key b ≡ b) × (s.idx b < handler_count))

claim-IsSound : (n : ℕ) (s : Selector) → n < handler_count → IsSound s → IsSound (claim n s)
unfolding claim
claim-IsSound n s h v b hb = ground (arith, v b hb, key_of-small n h)

claim_from-IsSound :
    (n left : ℕ) (s : Selector)
    → n + left ≤ handler_count
    → IsSound s
    → IsSound (claim_from n left s)
unfolding claim_from
claim_from-IsSound n zero s h v = v
claim_from-IsSound n (suc left) s h v =
    claim_from-IsSound (n + 1) left (claim n s) (omega arith) (claim-IsSound n s (omega arith) v)

-- What the loop makes of one entry.
claim_from-idx :
    (n left : ℕ) (s : Selector) (b : ℕ)
    → b < select_size
    → n + left ≤ handler_count
    → IsSound s
    → (claim_from n left s).idx b
      ≡ (if s.idx b == select_none then first_claiming b n left else s.idx b)
unfolding claim_from claim first_claiming
claim_from-idx n zero s b hb h v = ground arith
claim_from-idx n (suc left) s b hb h v = ground (
  arith,
  claim_from-idx (n + 1) left (claim n s) b hb,
  claim-IsSound n s (omega arith) v,
  key_of-small n,
)

first_claiming-large :
    (k n left : ℕ)
    → n + left ≤ handler_count
    → select_size ≤ k
    → first_claiming k n left ≡ select_none
unfolding first_claiming
first_claiming-large k n zero h l = refl
first_claiming-large k n (suc left) h l =
    ground (arith, key_of-small n, first_claiming-large k (n + 1) left)

-- The selector returns, for every packet, the first handler that claims its protocol, in
-- registration order, and `kNone` if none does.
pub select_first : (p : Packet) → select selector p ≡ first_claiming p.protocol 0 handler_count
unfolding select selector
select_first p = ground (
  arith,
  claim_from-idx 0 handler_count empty (p.protocol % select_size) (omega arith) (omega arith)
      empty-IsSound,
  claim_from-IsSound 0 handler_count empty (omega arith) empty-IsSound (p.protocol % select_size),
  first_claiming-large p.protocol 0 handler_count,
)
  where
    empty : Selector
    empty = record { idx = λ _. select_none; key = λ _. 0xFFFF }

    empty-IsSound : IsSound empty
    empty-IsSound b h = inl (refl, refl)

first_claiming_range :
    (k n left : ℕ)
    → n + left ≤ handler_count
    → (first_claiming k n left ≡ select_none) ⊎ (first_claiming k n left < n + left)
unfolding first_claiming
first_claiming_range k n zero h = inl refl
first_claiming_range k n (suc left) h = ground (arith, first_claiming_range k (n + 1) left)

get_elem?-generated_from :
    (W : Type 0) (r n left i : ℕ)
    → i < left
    → get_elem? (generated_from W r n left) i ≡ some (generated W r (n + i))
unfolding generated_from
get_elem?-generated_from W r n zero i h = absurd (omega arith)
get_elem?-generated_from W r n (suc left) zero h = ap (λ k. some (generated W r k)) (omega arith)
get_elem?-generated_from W r n (suc left) (suc i) h =
    get_elem?-generated_from W r (n + 1) left i (omega arith)
    ∙ ap (λ k. some (generated W r k)) (omega arith)

get_elem?-erased_from :
    (r n left i : ℕ) → i < left → get_elem? (erased_from r n left) i ≡ some (thunk r (n + i))
unfolding erased_from
get_elem?-erased_from r n zero i h = absurd (omega arith)
get_elem?-erased_from r n (suc left) zero h = ap (λ k. some (thunk r k)) (omega arith)
get_elem?-erased_from r n (suc left) (suc i) h =
    get_elem?-erased_from r (n + 1) left i (omega arith) ∙ ap (λ k. some (thunk r k)) (omega arith)

get_elem?-variants_from :
    (n left i : ℕ) → i < left → get_elem? (variants_from n left) i ≡ some (n + i)
unfolding variants_from
get_elem?-variants_from n zero i h = absurd (omega arith)
get_elem?-variants_from n (suc left) zero h = ap some (omega arith)
get_elem?-variants_from n (suc left) (suc i) h =
    get_elem?-variants_from (n + 1) left i (omega arith) ∙ ap some (omega arith)

-- What each arm returns: the work of the first handler that claims the key.
abbrev pub first_result : ℕ → Packet → Result
first_result r p =
    let i = first_claiming p.protocol 0 handler_count in
    if i == select_none then unsupported else generated_process i r p

-- A selected index that is not `kNone` is in range in all three tables.
reach :
    {W : Type 0} (r i : ℕ)
    → i < handler_count
    → (get_elem? (first W r handler_count) i ≡ some (generated W r i))
      × (get_elem? (erased_from r 0 handler_count) i ≡ some (thunk r i))
      × (get_elem? (variants_from 0 handler_count) i ≡ some i)
unfolding first
reach {W} r i h = (
  get_elem?-generated_from W r 0 handler_count i h ∙ ap (λ k. some (generated W r k)) (omega arith),
  get_elem?-erased_from r 0 handler_count i h ∙ ap (λ k. some (thunk r k)) (omega arith),
  get_elem?-variants_from 0 handler_count i h ∙ ap some (omega arith),
)

-- The virtual call, the erased call and the variant's visit return the same result for every packet,
-- that of the first handler that claims the packet's protocol.
pub mechanisms_agree :
    {W : Type 0} (r : ℕ) (p : Packet) (w : W)
    → (mech_virtual r selector p w ≡ (first_result r p, w))
      × (mech_erasure r selector p ≡ first_result r p)
      × (mech_variant r selector p ≡ first_result r p)
unfolding mech_virtual mech_erasure mech_variant generated thunk
mechanisms_agree {W} r p w = elim (Bool-cases (select selector p == select_none)) [
  | inl no_handler ↦
      let e = select_first p in
      (
        rw no_handler (ground (arith, e)),
        rw no_handler (ground (arith, e)),
        rw no_handler (ground (arith, e)),
      )
  | inr chosen ↦
      let e = select_first p in
      let found =
        reach {W = W} r (select selector p)
          (ground (arith, e, first_claiming_range p.protocol 0 handler_count)) in
      (
        rw (chosen, found.0) (ground (arith, e)),
        rw (chosen, found.1) (ground (arith, e)),
        rw (chosen, found.2) (ground (arith, e)),
      )
]
