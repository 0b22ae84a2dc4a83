-- ===== src/Mpsc/Pipeline/Final.antt =====
-- mpsc-event-pipeline-kata/cpp/src/event_pipeline.hpp: the final pass of `consume`, when no producer
-- pushes any more. Each of its loops has fuel, and says whether it ended by itself.
use native.Mathlib.Nat.{mod-lt}
use principal_katas.Prelude.{
  ℕ, zero, suc, ◌+◌, ◌%◌, ◌≤◌, ◌<◌, ◌≡◌, refl, subst, ap, ◌∙◌, inl, inr, Bool, true, false, ◌&&◌,
  [], arith, ltb, Bool-cases, if◌then◌else◌,
}
use principal_katas.Mpsc.Config.{Limits, Config, ScanPolicy}
use principal_katas.Mpsc.Ring.Refine.{contents}
use principal_katas.Mpsc.Pipeline.{Pipeline}
use principal_katas.Mpsc.Pipeline.Consumer.{flush, drain_full, reclaim_retired}
use principal_katas.Mpsc.Pipeline.Stream.{IsLimits, flush_slots, flush_staged}
use principal_katas.Mpsc.Pipeline.Drain.{length-none}
use principal_katas.Mpsc.Pipeline.Draining.{Inv}
use principal_katas.Mpsc.Pipeline.Asleep.{Reach, reach-Inv, none_held}
use principal_katas.Mpsc.Pipeline.Scanned.{sum, held, drain_full-Scanned}
use principal_katas.Mpmc.Sharded.Turns.{distance, turn_of, distance_lt}

module _ {E : Type 0} (lim : Limits) where
  -- `while (drain_full(sink, r) > 0) r = (r + 1) & (kMaxProducers - 1)`
  unfoldable pub final_loop : ℕ → ℕ → Pipeline E → Bool × Pipeline E
  final_loop zero r p = (false, p)
  final_loop (suc fuel) r p =
      let (n, p') = drain_full lim r p in
      let rest = final_loop fuel ((r + 1) % lim.max_producers) p' in
      if ltb 0 n then rest else (true, p')

  -- the two passes and the flush, and then the reclaiming
  unfoldable pub final_drain : ℕ → Pipeline E → Bool × Pipeline E
  unfolding final_loop flush
  final_drain fuel p =
      let (ended, p1) = final_loop fuel 0 p in
      let (ended', p2) = final_loop fuel 0 p1 in (ended && ended', flush p2)

  unfoldable pub final_pass : ℕ → Pipeline E → Bool × Pipeline E
  unfolding final_drain reclaim_retired
  final_pass fuel p = let (ended, p') = final_drain fuel p in (ended, reclaim_retired lim p')

  -- the rounds that are enough
  abbrev pub enough : Pipeline E → ℕ
  enough p = sum lim.max_producers (held p) + 1

  -- what a loop with enough fuel leaves
  record Finished (p : Pipeline E) (out : Bool × Pipeline E) : Type 0 where
    ended : out.0 ≡ true
    kept : Inv lim out.1
    fewer : sum lim.max_producers (held out.1) ≤ sum lim.max_producers (held p)
    empty : (i : ℕ) → i < lim.max_producers → held out.1 i ≡ 0

  module _ (ok : IsLimits lim) where
    final_loop-Finished :
        (fuel r : ℕ) (p : Pipeline E)
        → Inv lim p
        → r < lim.max_producers
        → sum lim.max_producers (held p) < fuel
        → Finished p (final_loop fuel r p)
    unfolding final_loop
    final_loop-Finished zero r p inv near lt = absurd (omega arith)
    final_loop-Finished (suc fuel) r p inv near lt =
        let max = lim.max_producers in
        let n = (drain_full lim r p).0 in
        let p' = (drain_full lim r p).1 in
        let s = drain_full-Scanned lim ok r p inv in
        let go_on : 0 < n → Finished p' (final_loop fuel ((r + 1) % max) p') = λ more.
          final_loop-Finished fuel ((r + 1) % max) p' s.kept (mod-lt (r + 1) ok.some_producers)
            (omega (arith, more, s.fewer)) in
        elim (Bool-cases (ltb 0 n)) [
          | inl more ↦
              let f = go_on (ground arith) in
              rw more (record {
                ended = f.ended;
                kept = f.kept;
                fewer = omega (arith, f.fewer, s.fewer);
                empty = f.empty;
              })
          | inr over ↦ rw over (record {
            ended = refl;
            kept = s.kept;
            fewer = omega (arith, s.fewer);
            empty = λ i l.
                let d = distance max r i in
                let at : (d + r) % max ≡ i =
                  ap (λ k. k % max) (omega arith) ∙ turn_of max r i near l in
                subst (λ k. held p' k ≡ 0) at
                  (s.emptied (ground arith) d (omega arith)
                    (omega (arith, distance_lt max r i near l)));
          })
        ]

  module _ (cfg : Config) (ok : IsLimits lim) (policy : cfg.scan ≡ ScanPolicy.bitmap) where
    -- Under the bitmap policy, with limits above zero and a ring capacity that divides 2^64, after
    -- any sequence of calls on a new pipeline: the final pass ends, each of its loops after at most
    -- as many rounds as the rings hold events, and one; every ring and the stage are then empty.
    pub final_drain_empties :
        (blank : ℕ → E) (p : Pipeline E)
        → Reach lim cfg blank p
        → let (ended, p') = final_drain (enough p) p in
          (ended ≡ true)
          × (p'.staged ≡ [])
          × ((i : ℕ) → i < lim.max_producers → contents lim.ring_capacity (p'.slots i).ring ≡ [])
    unfolding final_drain
    final_drain_empties blank p r =
        let fuel = enough p in
        let p1 = (final_loop fuel 0 p).1 in
        let p2 = (final_loop fuel 0 p1).1 in
        let f =
          final_loop-Finished ok fuel 0 p (reach-Inv lim cfg ok policy blank p r) ok.some_producers
            (omega arith) in
        let f' =
          final_loop-Finished ok fuel 0 p1 f.kept ok.some_producers (omega (arith, f.fewer)) in
        (
          ground (arith, f.ended, f'.ended),
          length-none (flush p2).staged (flush_staged p2),
          λ i lt.
              ap (λ s. contents lim.ring_capacity (s i).ring) (flush_slots p2)
              ∙ none_held lim cfg ok policy (p2.slots i).ring (f'.empty i lt),
        )
