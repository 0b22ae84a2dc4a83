-- ===== src/Mpmc/Sharded/Blocking.antt =====
-- mpmc-work-queue-kata/cpp/src/sharded_queue.hpp: `push` and `pop`. A call that outlasts its list of rounds, or a sleep that outlasts what it
-- finds, is still blocked.
use principal_katas.Prelude.{ℕ, Option, none, some, List, [], ◌∷◌, leb, ltb}
use principal_katas.Mpmc.Rounds.{
  park_end, closed_end, after_look, found_or, backed, retrying, wake_by, checking, round_end,
  sleeping, yielding, publishing_again, draining, looking, entering, publishing, spinning, Outcome,
}
use principal_katas.Mpmc.Rounds.{Round}
use principal_katas.Mpmc.Api.{Push, Pop, OpStats, parked}
use principal_katas.Mpmc.EventCount.{prepare_wait, cancel_wait, clear, deregister, wait_loop}
use principal_katas.Mpmc.Sharded.{Queue}
use principal_katas.Mpmc.Sharded.Calls.{
  at_not_full, at_not_empty, try_push, try_pop, any_closed, drained,
}

module _ {A : Type 0} (ring_slots n_producers n_consumers backstop : ℕ) where
  -- The loop of `push`.
  unfoldable pub push :
      A → List (Round (Queue A)) → ℕ → ℕ → OpStats → Queue A → Option (Outcome Push (Queue A))
  unfolding prepare_wait
  push v [] until producer st q = none
  push v (e ∷ later) until producer st q =
      let o1 = try_push ring_slots n_producers n_consumers v (e.others publishing) producer st q in
      let q1 = e.others entering o1.queue in
      let (key, ec) = prepare_wait (q1.rings producer).not_full in
      let o2 =
        try_push ring_slots n_producers n_consumers v (e.others publishing_again) producer o1.stats
          (at_not_full producer (λ _. ec) q1) in
      let cancelled = at_not_full producer cancel_wait o2.queue in
      let rest =
        push v later until producer (parked o2.stats)
          (at_not_full producer (λ ec'. clear (deregister ec')) (e.others sleeping o2.queue)) in
      round_end o1.result o2.result o1
        (record { result = o2.result; stats = o2.stats; queue = cancelled })
        (record { result = Push.timeout; stats = o2.stats; queue = cancelled }) (leb until e.now)
        (wait_loop key (wake_by until backstop e.now) e.sights) rest

  -- The loop of `pop`. The spin only reads, and gives other threads time.
  unfoldable pub pop :
      List (Round (Queue A))
      → ℕ
      → ℕ
      → OpStats
      → Queue A
      → Option (Outcome (Pop × Option A) (Queue A))
  unfolding prepare_wait
  pop [] until consumer st q = none
  pop (e ∷ later) until consumer st q =
      let take = try_pop ring_slots n_producers n_consumers consumer in
      let o1 = take st q in
      let o2 = take o1.stats (e.others spinning o1.queue) in
      let q2 = e.others looking o2.queue in
      let q3 = e.others draining q2 in
      let again = pop later until consumer o2.stats (e.others yielding q3) in
      let q4 = e.others entering q2 in
      let (key, ec) = prepare_wait (q4.consumers consumer).not_empty in
      let o3 = take o2.stats (at_not_empty consumer (λ _. ec) q4) in
      let q5 = e.others checking o3.queue in
      let cancelled = at_not_empty consumer cancel_wait q5 in
      let retry = pop later until consumer o3.stats (e.others retrying cancelled) in
      let q6 = at_not_empty consumer (λ ec'. clear (deregister ec')) (e.others sleeping q5) in
      let rest = pop later until consumer (parked o3.stats) q6 in
      let rest_late = pop later until consumer (backed (ltb e.late until) (parked o3.stats)) q6 in
      let found : Outcome (Option A) (Queue A) → Queue A → A → Outcome (Pop × Option A) (Queue A) =
        λ o q' v. record { result = (Pop.ok, some v); stats = o.stats; queue = q' } in
      found_or o1.result (found o1 o1.queue) (
        found_or o2.result (found o2 o2.queue) (
          after_look (any_closed ring_slots n_producers n_consumers consumer q2)
            (closed_end (drained ring_slots n_producers n_consumers consumer q3) (leb until e.now)
              (record { result = (Pop.drained, none); stats = o2.stats; queue = q3 })
              (record { result = (Pop.timeout, none); stats = o2.stats; queue = q3 }) again)
            (found_or o3.result (found o3 (at_not_empty consumer cancel_wait o3.queue)) (
              park_end (any_closed ring_slots n_producers n_consumers consumer q5) (leb until e.now)
                (record { result = (Pop.timeout, none); stats = o3.stats; queue = cancelled })
                (wait_loop key (wake_by until backstop e.now) e.sights) retry rest rest_late))))
