-- ===== src/Dispatch/Table.antt =====
-- plugin-dispatch-kata/cpp/src/strategy.hpp, the table arms: `TableBuilder`, `TableDirect16` and
-- `TableCompact`.
pub mod Candidates
pub mod Direct
pub mod Compact
pub mod Sentinel
pub mod Injective
use principal_katas.Prelude.{
  ℕ, zero, suc, ◌+◌, ◌%◌, ◌^◌, ◌≡◌, Bool, true, false, not, ◌&&◌, ◌||◌, Option, none, some, List,
  [], ◌∷◌, ◌++◌, ◌==◌, u16, u32, length, get_elem?, if◌then◌else◌,
}
use principal_katas.Dispatch.Packet.{Packet, Result, unsupported}
use principal_katas.Dispatch.Handler.{Declaring, Registration}
use principal_katas.Dispatch.Scan.{probe}

-- `TableBuilder::Entry`
pub record Entry (W : Type 0) : Type 0 where
  pub key : ℕ
  pub residual : Bool
  pub h : Declaring W

-- `Slot`
pub record Slot (W : Type 0) : Type 0 where
  pub only : Option (Declaring W)
  pub begin : ℕ
  pub count : ℕ

-- `TableCompact::CSlot`, `kEmpty` its initial key
pub record CSlot (W : Type 0) : Type 0 where
  pub key : ℕ
  pub slot : Slot W

abbrev pub empty_key : ℕ
empty_key = 0xFFFF

abbrev pub empty_slot : (W : Type 0) → Slot W
empty_slot W = record { only = none; begin = 0; count = 0 }

abbrev pub empty_cslot : (W : Type 0) → CSlot W
empty_cslot W = record { key = empty_key; slot = empty_slot W }

-- `TableDirect16`; `tbl` is its vector of `kKeySpace16` slots, indexed by 16-bit numbers.
pub record TableDirect16 (W : Type 0) : Type 0 where
  pub tbl : ℕ → Slot W
  pub cand : List (Declaring W)
  pub probes : ℕ

-- `TableCompact`; `tbl` is its vector of `kSize` slots, indexed by numbers below that.
pub record TableCompact (W : Type 0) : Type 0 where
  pub tbl : ℕ → CSlot W
  pub cand : List (Declaring W)
  pub injective : Bool
  pub probes : ℕ

-- `TableCompact::kSize`; `k & kMask` is the remainder by it.
abbrev pub compact_size : ℕ
compact_size = 2 ^ 10

abbrev pub update {ℓ} : {A : Type ℓ} → (ℕ → A) → ℕ → A → ℕ → A
update f i a j = if i == j then a else f j

abbrev pub contains : List ℕ → ℕ → Bool
contains [] k = false
contains (x ∷ xs) k = (x == k) || contains xs k

module _ {W : Type 0} where
  -- the constructor of `TableBuilder`
  unfoldable pub entries : List (Declaring W) → List (Entry W)
  entries [] = []
  entries (h ∷ hs) =
      record { key = h.declare.key; residual = h.declare.residual; h = h } ∷ entries hs

  -- the loop of `distinct_keys`, with the keys found so far
  unfoldable pub keys_loop : List (Entry W) → List ℕ → List ℕ
  keys_loop [] ks = ks
  keys_loop (e ∷ es) ks = keys_loop es (if contains ks e.key then ks else ks ++ e.key ∷ [])

  unfoldable pub distinct_keys : List (Entry W) → List ℕ
  unfolding keys_loop
  distinct_keys es = keys_loop es []

  -- the handlers that a constructor gathers for key `k`, and its `all_pure`
  unfoldable pub candidates : List (Entry W) → ℕ → List (Declaring W)
  candidates [] k = []
  candidates (e ∷ es) k = if e.key == k then e.h ∷ candidates es k else candidates es k

  unfoldable pub all_pure : List (Entry W) → ℕ → Bool
  all_pure [] k = true
  all_pure (e ∷ es) k = (if e.key == k then not e.residual else true) && all_pure es k

  -- What a constructor writes to the slot of a key, and the new `cand_`.
  unfoldable pub fill_slot :
      List (Declaring W) → Bool → Slot W → List (Declaring W) → Slot W × List (Declaring W)
  fill_slot cands pure s cand =
      if (length cands == 1) && pure
      then (record s { only = get_elem? cands 0 }, cand)
      else (record s { begin = u32 (length cand); count = u16 (length cands) }, cand ++ cands)

  -- the loop of the constructor of `TableDirect16` over the distinct keys
  unfoldable pub fill_direct : List (Entry W) → List ℕ → TableDirect16 W → TableDirect16 W
  unfolding candidates all_pure fill_slot
  fill_direct es [] t = t
  fill_direct es (k ∷ ks) t =
      let (s, cand) = fill_slot (candidates es k) (all_pure es k) (t.tbl k) t.cand in
      fill_direct es ks (record t { tbl = update t.tbl k s; cand = cand })

  unfoldable pub table_direct16 : List (Declaring W) → TableDirect16 W
  unfolding entries distinct_keys fill_direct
  table_direct16 hs =
      fill_direct (entries hs) (distinct_keys (entries hs))
        (record { tbl = λ _. empty_slot W; cand = []; probes = 0 })

  -- one round of the constructor of `TableCompact`, without and with its `continue`
  unfoldable pub claim_compact : List (Entry W) → ℕ → TableCompact W → TableCompact W
  unfolding candidates all_pure fill_slot
  claim_compact es k t =
      let b = k % compact_size in
      let (s, cand) = fill_slot (candidates es k) (all_pure es k) (t.tbl b).slot t.cand in
      record t { tbl = update t.tbl b (record { key = k; slot = s }); cand = cand }

  unfoldable pub fill_compact : List (Entry W) → List ℕ → TableCompact W → TableCompact W
  unfolding claim_compact
  fill_compact es [] t = t
  fill_compact es (k ∷ ks) t =
      let key = (t.tbl (k % compact_size)).key in
      fill_compact es ks (
        if not (key == empty_key) && not (key == k)
        then record t { injective = false }
        else claim_compact es k t)

  unfoldable pub table_compact : List (Declaring W) → TableCompact W
  unfolding entries distinct_keys fill_compact
  table_compact hs =
      fill_compact (entries hs) (distinct_keys (entries hs))
        (record { tbl = λ _. empty_cslot W; cand = []; injective = true; probes = 0 })

  -- The loop over the candidates of a slot, from index `at` of `cand_` for `left` rounds. A read
  -- past the end of `cand_` is undefined in the source; here it ends the loop.
  unfoldable pub run_candidates :
      Bool → List (Declaring W) → ℕ → ℕ → Packet → ℕ → W → Result × ℕ × W
  run_candidates c cand at zero p n w = (unsupported, n, w)
  run_candidates c cand at (suc left) p n w =
      let later = run_candidates c cand (at + 1) left p (probe c n) w in
      elim (get_elem? cand at) [
        | none ↦ (unsupported, n, w)
        | some h ↦ let (r, w') = h.process p w in if h.matches p then (r, probe c n, w') else later
      ]

  -- the end of `run`, alike in the two tables: `only`, or the candidates
  unfoldable pub run_slot : Bool → Slot W → List (Declaring W) → Packet → ℕ → W → Result × ℕ × W
  unfolding run_candidates
  run_slot c s cand p n w = elim s.only [
    | some h ↦ let (r, w') = h.process p w in (r, n, w')
    | none ↦ run_candidates c cand s.begin s.count p n w
  ]

  -- `TableDirect16::run`
  unfoldable pub direct_run : Bool → TableDirect16 W → Packet → W → Result × TableDirect16 W × W
  unfolding run_slot
  direct_run c t p w =
      let (r, n, w') = run_slot c (t.tbl p.protocol) t.cand p (probe c t.probes) w in
      (r, record t { probes = n }, w')

  -- `TableCompact::run`
  unfoldable pub compact_run : Bool → TableCompact W → Packet → W → Result × TableCompact W × W
  unfolding run_slot
  compact_run c t p w =
      let s = t.tbl (p.protocol % compact_size) in
      let n = probe c t.probes in
      let (r, n', w') =
        if s.key == p.protocol then run_slot c s.slot t.cand p n w else (unsupported, n, w) in
      (r, record t { probes = n' }, w')
