-- ===== src/Mpmc/Driver/Timeline.antt =====
-- What the monitor reads off its timeline.
use principal_katas.Prelude.{
  ℕ, ◌≤◌, ◌<◌, ◌≡◌, refl, inl, inr, true, false, List, [], ◌∷◌, arith, ltb, leb, max, Bool-cases,
  if◌then◌else◌,
}
use principal_katas.Mpmc.Driver.{Sample, peak_from, peak, held_from, held_at}

-- taken at `t` or later, and one after another
abbrev pub AllFrom : ℕ → List Sample → Type 0
AllFrom t [] = 0 ≤ 0
AllFrom t (y ∷ later) = (t ≤ y.tsc) × AllFrom t later

abbrev pub IsTimeline : List Sample → Type 0
IsTimeline [] = 0 ≤ 0
IsTimeline (x ∷ later) = AllFrom x.tsc later × IsTimeline later

-- the samples taken at `t` or before, and the last of some, or `v`
unfoldable pub upto : ℕ → List Sample → List Sample
upto t [] = []
upto t (x ∷ later) = let rest = upto t later in if leb x.tsc t then x ∷ rest else rest

unfoldable pub last_held : ℕ → List Sample → ℕ
last_held v [] = v
last_held v (x ∷ later) = last_held x.held later

upto_none : (t u : ℕ) (samples : List Sample) → t < u → AllFrom u samples → upto t samples ≡ []
unfolding upto
upto_none t u [] lt all = refl
upto_none t u (x ∷ later) lt (le, all) =
    let e : leb x.tsc t ≡ false = ground arith in rw e (upto_none t u later lt all)

held_from_last :
    (v t : ℕ) (samples : List Sample)
    → IsTimeline samples
    → held_from v t samples ≡ last_held v (upto t samples)
unfolding held_from upto last_held
held_from_last v t [] h = refl
held_from_last v t (x ∷ later) (all, h) = elim (Bool-cases (ltb t x.tsc)) [
  | inl past ↦
      let e : leb x.tsc t ≡ false = ground arith in
      let none_left = upto_none t x.tsc later (ground arith) all in rw (past, e, none_left) refl
  | inr upto_t ↦
      let e : leb x.tsc t ≡ true = ground arith in rw (upto_t, e) (held_from_last x.held t later h)
]

-- every sample holds at most `m`
abbrev pub AllAtMost : ℕ → List Sample → Type 0
AllAtMost m [] = 0 ≤ 0
AllAtMost m (x ∷ later) = (x.held ≤ m) × AllAtMost m later

at_most-wider :
    (m m' : ℕ) (samples : List Sample) → m ≤ m' → AllAtMost m samples → AllAtMost m' samples
at_most-wider m m' [] le h = h
at_most-wider m m' (x ∷ later) le (h, hs) = (omega arith, at_most-wider m m' later le hs)

peak_from_bounds :
    (m : ℕ) (samples : List Sample)
    → (m ≤ peak_from m samples) × AllAtMost (peak_from m samples) samples
unfolding peak_from
peak_from_bounds m [] = (omega arith, omega arith)
peak_from_bounds m (x ∷ later) =
    let (le, all) = peak_from_bounds (max m x.held) later in
    (omega (arith, le), (omega (arith, le), all))

-- Of a timeline in order of time, `at` reads the last sample taken at or before `t`, or 0 if there
-- is none; and no sample is over `peak`.
pub timeline_reads :
    (t : ℕ) (samples : List Sample)
    → IsTimeline samples
    → (held_at t samples ≡ last_held 0 (upto t samples)) × AllAtMost (peak samples) samples
unfolding held_at peak
timeline_reads t samples h = (held_from_last 0 t samples h, (peak_from_bounds 0 samples).1)
