-- ===== src/Dispatch/Mechanism.antt =====
-- plugin-dispatch-kata/cpp/src/mechanism.hpp: the shared selector, and the arms that differ only in
-- how they reach the selected handler.
pub mod Select
use principal_katas.Prelude.{
  ℕ, zero, suc, ◌+◌, ◌%◌, ◌^◌, Bool, true, false, Option, none, some, List, [], ◌∷◌, ◌==◌, u16,
  get_elem?, if◌then◌else◌,
}
use principal_katas.Dispatch.Packet.{Packet, Result, handler_count, none_handler, unsupported}
use principal_katas.Dispatch.Handler.{Declaring}
use principal_katas.Dispatch.Generated.{key_of, generated, generated_process, first}

-- `Selector::kSize`; `& kMask` is the remainder by it.
abbrev pub select_size : ℕ
select_size = 2 ^ 10

-- `Selector::kNone`
abbrev pub select_none : ℕ
select_none = 0xFFFF

-- `Selector`: `idx_` and `key_`, two arrays of `kSize` 16-bit numbers
pub record Selector : Type 0 where
  pub idx : ℕ → ℕ
  pub key : ℕ → ℕ

abbrev pub put : (ℕ → ℕ) → ℕ → ℕ → ℕ → ℕ
put f i v j = if i == j then v else f j

-- the body of the constructor's loop, for handler `n`
unfoldable pub claim : ℕ → Selector → Selector
claim n s =
    let k = key_of n in
    let b = k % select_size in
    if s.idx b == select_none then record { idx = put s.idx b (u16 n); key = put s.key b k } else s

-- the loop over the handlers from `n` on
unfoldable pub claim_from : ℕ → ℕ → Selector → Selector
claim_from n zero s = s
claim_from n (suc left) s = claim_from (n + 1) left (claim n s)

-- the constructor
unfoldable pub selector : Selector
selector = claim_from 0 handler_count (record { idx = λ _. select_none; key = λ _. 0xFFFF })

unfoldable pub select : Selector → Packet → ℕ
select s p =
    let b = p.protocol % select_size in if s.key b == p.protocol then s.idx b else select_none

-- `MechDirect::dispatch`
unfoldable pub mech_direct : ℕ → Packet → Result
mech_direct rounds p = generated_process 0 rounds p

module _ {W : Type 0} (rounds : ℕ) where
  process_at : Option (Declaring W) → Packet → W → Result × W
  process_at none p w = (unsupported, w)
  process_at (some h) p w = h.process p w

  -- `MechVirtual::dispatch`: the handler object is read from the vector, then its function. An index
  -- out of range, undefined in the source, is `none`.
  pub mech_virtual : Selector → Packet → W → Result × W
  unfolding process_at
  mech_virtual s p w =
      let i = select s p in
      if i == select_none
      then (unsupported, w)
      else process_at (get_elem? (first W rounds handler_count) i) p w

-- `MechErasure::thunk<N>`
unfoldable pub thunk : ℕ → ℕ → Packet → Result
thunk rounds n p = generated_process n rounds p

-- `MechErasure::build`: the table of function pointers from handler `n` on
unfoldable pub erased_from : ℕ → ℕ → ℕ → List (Packet → Result)
erased_from rounds n zero = []
erased_from rounds n (suc left) = thunk rounds n ∷ erased_from rounds (n + 1) left

call_at : Option (Packet → Result) → Packet → Result
call_at none p = unsupported
call_at (some f) p = f p

-- `MechErasure::dispatch`
pub mech_erasure : ℕ → Selector → Packet → Result
unfolding call_at
mech_erasure rounds s p =
    let i = select s p in
    if i == select_none
    then unsupported
    else call_at (get_elem? (erased_from rounds 0 handler_count) i) p

-- `MechVariant::build`: the alternative that each element holds, from handler `n` on
unfoldable pub variants_from : ℕ → ℕ → List ℕ
variants_from n zero = []
variants_from n (suc left) = n ∷ variants_from (n + 1) left

-- `std::visit`: the function of the alternative
visit : ℕ → Option ℕ → Packet → Result
visit rounds none p = unsupported
visit rounds (some n) p = generated_process n rounds p

-- `MechVariant::dispatch`
pub mech_variant : ℕ → Selector → Packet → Result
unfolding visit
mech_variant rounds s p =
    let i = select s p in
    if i == select_none
    then unsupported
    else visit rounds (get_elem? (variants_from 0 handler_count) i) p
