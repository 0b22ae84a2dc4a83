-- ===== src/Dispatch/Scan.antt =====
-- plugin-dispatch-kata/cpp/src/strategy.hpp, the scan arms: `ScanUnordered`, `ScanOrdered` and
-- `ScanMoveToFront`. The template parameter `Count` is an argument.
pub mod Order
pub mod Promote
use principal_katas.Prelude.{
  ℕ, zero, suc, ◌+◌, ◌-◌, ◌≡◌, Bool, true, false, Option, none, some, List, [], ◌∷◌, add64, ltb,
  length, get_elem?, get_or, set, if◌then◌else◌,
}
use principal_katas.Dispatch.Packet.{Packet, Result, unsupported}
use principal_katas.Dispatch.Handler.{Declaring}

-- `if constexpr (Count) ++probes_`
abbrev pub probe : Bool → ℕ → ℕ
probe count n = if count then add64 n 1 else n

-- `std::stable_sort` of indices by falling frequency: an index goes before the first one whose
-- frequency is not larger.
pub insert_by : List ℕ → ℕ → List ℕ → List ℕ
insert_by freq i [] = i ∷ []
insert_by freq i (j ∷ js) =
    if ltb (get_or freq i 0) (get_or freq j 0) then j ∷ insert_by freq i js else i ∷ j ∷ js

pub sort_by : List ℕ → List ℕ → List ℕ
sort_by freq [] = []
sort_by freq (i ∷ is) = insert_by freq i (sort_by freq is)

-- i, i + 1, …, n of them
pub indices : ℕ → ℕ → List ℕ
indices i zero = []
indices i (suc n) = i ∷ indices (i + 1) n

-- The members of `ScanUnordered`, which the other two inherit.
pub record Scan (W : Type 0) : Type 0 where
  pub handlers : List (Declaring W)
  pub probes : ℕ

module _ {W : Type 0} where
  -- the loop of `ScanUnordered::run`, over the handlers left and the probes counted
  unfoldable pub run_loop : Bool → List (Declaring W) → Packet → ℕ → W → Result × ℕ × W
  run_loop count [] p n w = (unsupported, n, w)
  run_loop count (h ∷ hs) p n w =
      let rest = run_loop count hs p (probe count n) w in
      let (r, w') = h.process p w in if h.matches p then (r, probe count n, w') else rest

  unfoldable pub run : Bool → Scan W → Packet → W → Result × Scan W × W
  run count s p w =
      let (r, n, w') = run_loop count s.handlers p s.probes w in (r, record s { probes = n }, w')

  pub dispatch : Scan W → Packet → W → Result × Scan W × W
  unfolding run
  dispatch = run false

  pub dispatch_counted : Scan W → Packet → W → Result × Scan W × W
  unfolding run
  dispatch_counted = run true

  swap_at :
      List (Declaring W) → ℕ → ℕ → Option (Declaring W) → Option (Declaring W) → List (Declaring W)
  swap_at hs i j (some a) (some b) = set (set hs i b) j a
  swap_at hs i j (some a) none = hs
  swap_at hs i j none b = hs

  -- `std::swap(handlers_[i], handlers_[j])`; both indices are in range where it is called.
  pub swap : List (Declaring W) → ℕ → ℕ → List (Declaring W)
  unfolding swap_at
  swap hs i j = swap_at hs i j (get_elem? hs i) (get_elem? hs j)

  -- the loop of `ScanMoveToFront::run`, from index `i`, with `rest` the handlers from there on
  pub mtf_loop : Bool → Scan W → List (Declaring W) → ℕ → Packet → W → Result × Scan W × W
  mtf_loop count s [] i p w = (unsupported, s, w)
  mtf_loop count s (h ∷ rest) i p w =
      let s' = record s { probes = probe count s.probes } in
      let later = mtf_loop count s' rest (i + 1) p w in
      let (r, w') = h.process p w in
      let moved = if ltb 0 i then swap s.handlers i (i - 1) else s.handlers in
      if h.matches p then (r, record s' { handlers = moved }, w') else later

  pub mtf_run : Bool → Scan W → Packet → W → Result × Scan W × W
  mtf_run count s p w = mtf_loop count s s.handlers 0 p w

  -- `ScanMoveToFront::dispatch` and `dispatch_counted`
  pub mtf_dispatch : Scan W → Packet → W → Result × Scan W × W
  unfolding mtf_run
  mtf_dispatch = mtf_run false

  pub mtf_dispatch_counted : Scan W → Packet → W → Result × Scan W × W
  unfolding mtf_run
  mtf_dispatch_counted = mtf_run true

  gather_cons : Option (Declaring W) → List (Declaring W) → List (Declaring W)
  gather_cons none hs = hs
  gather_cons (some h) hs = h ∷ hs

  -- `for (i : idx) sorted.push_back(handlers_[i])`
  pub gather : List (Declaring W) → List ℕ → List (Declaring W)
  unfolding gather_cons
  gather hs [] = []
  gather hs (i ∷ is) = gather_cons (get_elem? hs i) (gather hs is)

  -- the constructor of `ScanOrdered`
  pub scan_ordered : List (Declaring W) → List ℕ → Scan W
  scan_ordered hs freq = record {
    handlers = gather hs (sort_by freq (indices 0 (length hs)));
    probes = 0;
  }
