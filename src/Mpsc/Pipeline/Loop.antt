-- ===== src/Mpsc/Pipeline/Loop.antt =====
-- mpsc-event-pipeline-kata/cpp/src/event_pipeline.hpp: a round of the loop of `consume`.
use principal_katas.Prelude.{
  ℕ, ◌+◌, ◌*◌, ◌%◌, ◌<◌, ◌≡◌, sym, subst, inl, inr, Bool, true, false, [], arith, u32, ltb, add64,
  Bool-cases, if◌then◌else◌,
}
use principal_katas.Mpsc.Config.{Limits, Config, ScanPolicy}
use principal_katas.Mpsc.Ring.Refine.{contents}
use principal_katas.Mpsc.Pipeline.{Pipeline, is_bitmap}
use principal_katas.Mpsc.Pipeline.Consumer.{
  drain_full, drain_bitmap, clear_empty_bits, reclaim_retired, park,
}
use principal_katas.Mpsc.Pipeline.Stream.{IsLimits}
use principal_katas.Mpsc.Pipeline.Asleep.{
  Reach, next, take_pending, reclaim_all, bitmap_scan, clear, full_scan, count_pass, none_stranded,
}

-- How a round ends: with events, in a pause, in a yield, with events found by the last scan, or
-- parked, asleep or not.
pub data Round : Type 0 where
  busy pause yield rescued : Round
  parks : Bool → Round

abbrev pub is_asleep : Round → Bool
is_asleep (parks asleep) = asleep
is_asleep r = false

-- The consumer's own counters and the pipeline; `idle` and `rotate` are 32-bit.
pub record Loop (E : Type 0) : Type 0 where
  pub idle : ℕ
  pub rotate : ℕ
  pub pipeline : Pipeline E

module _ {E : Type 0} (lim : Limits) (cfg : Config) where
  abbrev pub drain_pass : ScanPolicy → ℕ → Pipeline E → ℕ × Pipeline E
  drain_pass ScanPolicy.bitmap rotate p = drain_bitmap lim rotate p
  drain_pass ScanPolicy.full_scan rotate p = drain_full lim rotate p

  -- `if (retire_pending_.exchange(false)) reclaim_retired()`
  abbrev pub reclaim_pending : Pipeline E → Pipeline E
  reclaim_pending p =
      if p.retire_pending then reclaim_retired lim (record p { retire_pending = false }) else p

  -- the end of a round that goes to sleep: the bits, the last scan, and `park`
  unfoldable pub settle : ℕ → Pipeline E → Round × Pipeline E
  settle rotate p =
      let p1 = if is_bitmap cfg.scan then clear_empty_bits lim p else p in
      let (n, p2) = drain_full lim rotate p1 in
      let (asleep, p3) = park lim p2 in if ltb 0 n then (rescued, p2) else (parks asleep, p3)

  unfoldable pub round : Loop E → Round × Loop E
  unfolding settle
  round l =
      let (n, p) = drain_pass cfg.scan l.rotate l.pipeline in
      let p1 = record p { passes = add64 p.passes 1 } in
      let rotate = (l.rotate + 1) % lim.max_producers in
      let p2 = reclaim_pending p1 in
      let idle = u32 (l.idle + 1) in
      let (end_of, p3) = settle rotate p2 in
      if ltb 0 n
      then (busy, record { idle = 0; rotate = rotate; pipeline = p1 })
      else if ltb idle cfg.spin_before_park
      then (pause, record { idle = idle; rotate = rotate; pipeline = p2 })
      else if ltb idle (u32 (cfg.spin_before_park * 2))
      then (yield, record { idle = idle; rotate = rotate; pipeline = p2 })
      else (end_of, record { idle = 0; rotate = rotate; pipeline = p3 })

  module _ (ok : IsLimits lim) (policy : cfg.scan ≡ ScanPolicy.bitmap) (blank : ℕ → E) where
    pending-Reach :
        (p : Pipeline E) → Reach lim cfg blank p → Reach lim cfg blank (reclaim_pending p)
    pending-Reach p r = elim (Bool-cases p.retire_pending) [
      | inl pending ↦
          subst
            (λ b.
              Reach lim cfg blank
                (if b then reclaim_retired lim (record p { retire_pending = false }) else p))
            (sym pending) (next (next r take_pending) reclaim_all)
      | inr none_pending ↦
          subst
            (λ b.
              Reach lim cfg blank
                (if b then reclaim_retired lim (record p { retire_pending = false }) else p))
            (sym none_pending) r
    ]

    pass-Reach :
        (rotate : ℕ) (p : Pipeline E)
        → Reach lim cfg blank p
        → Reach lim cfg blank (drain_pass cfg.scan rotate p).1
    pass-Reach rotate p r =
        subst (λ c. Reach lim cfg blank (drain_pass c rotate p).1) (sym policy)
          (next r (bitmap_scan rotate))

    -- the state in which a round that goes to sleep looks at the word
    abbrev before_park : ℕ → Pipeline E → Pipeline E
    before_park rotate p =
        (drain_full lim rotate (if is_bitmap cfg.scan then clear_empty_bits lim p else p)).1

    before_park-Reach :
        (rotate : ℕ) (p : Pipeline E)
        → Reach lim cfg blank p
        → Reach lim cfg blank (before_park rotate p)
    before_park-Reach rotate p r =
        next
          (subst (λ c. Reach lim cfg blank (if is_bitmap c then clear_empty_bits lim p else p))
            (sym policy) (next r clear))
          (full_scan rotate)

    settled :
        (rotate : ℕ) (p : Pipeline E) (i : ℕ)
        → Reach lim cfg blank p
        → is_asleep (settle rotate p).0 ≡ true
        → i < lim.max_producers
        → contents lim.ring_capacity ((settle rotate p).1.slots i).ring ≡ []
    unfolding settle park
    settled rotate p i r e lt =
        let b = before_park rotate p in
        let n =
          (drain_full lim rotate (if is_bitmap cfg.scan then clear_empty_bits lim p else p)).0 in
        let empty = none_stranded lim cfg ok policy blank b i (before_park-Reach rotate p r) in
        elim (Bool-cases (ltb 0 n)) [
          | inl found ↦ absurd (ground arith)
          | inr none_found ↦ rw none_found (empty (ground arith) lt)
        ]

    -- Under the bitmap policy, with limits above zero and a ring capacity that divides 2^64, after
    -- any sequence of calls on a new pipeline: a round of the consumer that goes to sleep leaves no
    -- event in any ring.
    pub asleep_round_empty :
        (l : Loop E) (i : ℕ)
        → Reach lim cfg blank l.pipeline
        → is_asleep (round l).0 ≡ true
        → i < lim.max_producers
        → contents lim.ring_capacity ((round l).1.pipeline.slots i).ring ≡ []
    unfolding round
    asleep_round_empty l i r e lt =
        let (n, p) = drain_pass cfg.scan l.rotate l.pipeline in
        let p1 : Pipeline E = record p { passes = add64 p.passes 1 } in
        let p2 = reclaim_pending p1 in
        let idle = u32 (l.idle + 1) in
        let r2 = pending-Reach p1 (next (pass-Reach l.rotate l.pipeline r) count_pass) in
        let last = settled ((l.rotate + 1) % lim.max_producers) p2 i r2 in
        elim (Bool-cases (ltb 0 n)) [
          | inl found ↦ absurd (ground arith)
          | inr none_found ↦ elim (Bool-cases (ltb idle cfg.spin_before_park)) [
            | inl early ↦ absurd (ground arith)
            | inr late ↦ elim (Bool-cases (ltb idle (u32 (cfg.spin_before_park * 2)))) [
              | inl early2 ↦ absurd (ground arith)
              | inr late2 ↦ rw (none_found, late, late2) (last (ground arith) lt)
            ]
          ]
        ]
