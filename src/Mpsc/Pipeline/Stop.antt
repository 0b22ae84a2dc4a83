-- ===== src/Mpsc/Pipeline/Stop.antt =====
-- mpsc-event-pipeline-kata/cpp/src/event_pipeline.hpp: `stop` of a pipeline that was started, up to
-- its wait for the consumer's thread. The list `env` says how the pipeline stands at each look after
-- a sleep, and ends with the deadline.
use principal_katas.Prelude.{
  ℕ, zero, suc, ◌<◌, ◌≡◌, inl, inr, Bool, true, false, ◌||◌, List, [], ◌∷◌, arith, ◌==◌, Bool-cases,
  if◌then◌else◌,
}
use principal_katas.Mpsc.Config.{Limits, Config, ScanPolicy, StopMode}
use principal_katas.Mpsc.Ring.{size_now}
use principal_katas.Mpsc.Ring.Refine.{contents}
use principal_katas.Mpsc.Pipeline.{Pipeline, is_free, all_quiesced}
use principal_katas.Mpsc.Pipeline.Stream.{IsLimits}
use principal_katas.Mpsc.Pipeline.Asleep.{Reach, next, refuse, none_held, reach-Inv}

module _ {E : Type 0} (lim : Limits) where
  -- the loop that waits for the rings to empty: the state in which it ends
  unfoldable pub wait_quiesced : List (Pipeline E) → Pipeline E → Pipeline E
  wait_quiesced [] p = p
  wait_quiesced (q ∷ env) p =
      let later = wait_quiesced env q in if all_quiesced lim.max_producers p then p else later

  -- `stop`, with `drain_deadline_met_`; `finish` is what the other threads do before its last look
  unfoldable pub stop :
      StopMode → List (Pipeline E) → (Pipeline E → Pipeline E) → Pipeline E → Bool × Pipeline E
  unfolding wait_quiesced
  stop StopMode.drain env finish p =
      let q = finish (wait_quiesced env (record p { accepting = false })) in
      (all_quiesced lim.max_producers q, record q { running = false })
  stop StopMode.abort env finish p = (false, record p { accepting = false; running = false })

quiesced_lem :
    {E : Type 0} (n : ℕ) (p : Pipeline E) (i : ℕ)
    → all_quiesced n p ≡ true
    → i < n
    → (is_free (p.slots i).state || (size_now (p.slots i).ring == 0)) ≡ true
unfolding all_quiesced
quiesced_lem zero p i h lt = absurd (omega arith)
quiesced_lem (suc n) p i h lt = elim (Bool-cases (i == n)) [
  | inl at ↦ rw (eq_of i n at) (ground arith)
  | inr before ↦ quiesced_lem n p i (ground arith) (ground arith)
]
  where
    eq_of : (i n : ℕ) → (i == n) ≡ true → i ≡ n
    eq_of i n e = ground arith

module _ {E : Type 0} (lim : Limits) (cfg : Config) where
  -- the states in which `stop` may find the pipeline
  abbrev pub AllReach : (ℕ → E) → List (Pipeline E) → Type 0
  AllReach blank [] = Unit
  AllReach blank (p ∷ ps) = Reach lim cfg blank p × AllReach blank ps

  module _ (ok : IsLimits lim) (policy : cfg.scan ≡ ScanPolicy.bitmap) (blank : ℕ → E) where
    wait_quiesced-Reach :
        (env : List (Pipeline E)) (p : Pipeline E)
        → AllReach blank env
        → Reach lim cfg blank p
        → Reach lim cfg blank (wait_quiesced lim env p)
    unfolding wait_quiesced
    wait_quiesced-Reach [] p rs r = r
    wait_quiesced-Reach (q ∷ env) p rs r = elim (Bool-cases (all_quiesced lim.max_producers p)) [
      | inl quiet ↦ rw quiet r
      | inr busy ↦ rw busy (wait_quiesced-Reach env q rs.1 rs.0)
    ]

    -- Under the bitmap policy, with limits above zero and a ring capacity that divides 2^64, for a
    -- pipeline reached by any sequence of calls, and in a state so reached at each look: a drain
    -- that reports its deadline as met leaves no event in any ring.
    pub stop_drained :
        (env : List (Pipeline E)) (finish : Pipeline E → Pipeline E) (p : Pipeline E) (i : ℕ)
        → Reach lim cfg blank p
        → AllReach blank env
        → ((q : Pipeline E) → Reach lim cfg blank q → Reach lim cfg blank (finish q))
        → (stop lim StopMode.drain env finish p).0 ≡ true
        → i < lim.max_producers
        → contents lim.ring_capacity ((stop lim StopMode.drain env finish p).1.slots i).ring ≡ []
    unfolding stop size_now
    stop_drained env finish p i r rs keep met lt =
        let q = finish (wait_quiesced lim env (record p { accepting = false })) in
        let reached =
          keep _ (wait_quiesced-Reach env (record p { accepting = false }) rs (next r refuse)) in
        let s = (reach-Inv lim cfg ok policy blank q reached).signalled.slot_ok i in
        none_held lim cfg ok policy (q.slots i).ring
          (ground (arith, quiesced_lem lim.max_producers q i met lt, s.free_empty))
