-- ===== src/Mpmc/Turnstile/Consumer.antt =====
-- mpmc-work-queue-kata/cpp/src/mpmc_queue.hpp: `pop`, in the rounds of Mpmc/Rounds, with what other
-- threads do around each round of its tries. A call that outlasts a list is still blocked.
use principal_katas.Prelude.{
  ℕ, Bool, false, Option, none, some, List, [], ◌∷◌, ◌==◌, leb, ltb, add64, if◌then◌else◌,
}
use principal_katas.Mpmc.Api.{Pop, OpStats, parked}
use principal_katas.Mpmc.EventCount.{prepare_wait, cancel_wait, wait_loop, notify_one}
use principal_katas.Mpmc.Rounds.{
  publishing, spinning, looking, draining, yielding, entering, checking, retrying, sleeping,
  Outcome, woken, backed, wake_by, and_then, found_or, closed_end, park_end, after_look,
}
use principal_katas.Mpmc.Turnstile.{is_closed, position, head_published}
use principal_katas.Mpmc.Turnstile.Calls.{
  Options, Shared, Try, Turn, try_pop, at_not_empty, end_wait,
}

-- `++st.holes`, if so
abbrev pub holed : Bool → OpStats → OpStats
holed b st = if b then record st { holes = add64 st.holes 1 } else st

module _ {A : Type 0} (o : Options) (n_slots backstop : ℕ) where
  -- `if (head_published() && not_empty_.notify_one()) ++st.wakes`, after the pop that ends a wait
  unfoldable pub pass_wake : Outcome (Option A) (Shared A) → Outcome (Option A) (Shared A)
  pass_wake a =
      let (woke, wakes, ec) = notify_one o.coalesce_wakes a.queue.not_empty in
      if head_published n_slots a.queue.queue
      then record {
        result = a.result;
        stats = woken woke a.stats;
        queue = at_not_empty (λ _. ec) a.queue;
      }
      else a

  -- an event popped, with the queue as the call leaves it
  abbrev pub popped : OpStats → Shared A → A → Outcome (Pop × Option A) (Shared A)
  popped st s v = record { result = (Pop.ok, some v); stats = st; queue = s }

  -- `return Pop::drained` and `return Pop::timeout`
  abbrev pub without : Pop → OpStats → Shared A → Outcome (Pop × Option A) (Shared A)
  without p st s = record { result = (p, none); stats = st; queue = s }

  -- The last try of a round of `pop`, after its wait; `go_on` is the rounds after it.
  unfoldable pub after_sleep :
      (OpStats → Shared A → Option (Outcome (Pop × Option A) (Shared A)))
      → List (Try A)
      → OpStats
      → Shared A
      → Option (Outcome (Pop × Option A) (Shared A))
  after_sleep go_on tries st s = and_then (try_pop o n_slots tries st s) (λ o4.
      found_or o4.result (popped (pass_wake o4).stats (pass_wake o4).queue)
        (go_on o4.stats o4.queue))

  -- The part of a round of `pop` from `prepare_wait` on; `go_on` is the rounds after it.
  unfoldable pub park_round :
      (OpStats → Shared A → Option (Outcome (Pop × Option A) (Shared A)))
      → Turn A
      → ℕ
      → OpStats
      → Shared A
      → Option (Outcome (Pop × Option A) (Shared A))
  park_round go_on e until st s =
      let others = e.round.others in
      let s4 = others entering s in
      let (key, ec) = prepare_wait s4.not_empty in
      and_then (try_pop o n_slots (e.tries entering) st (at_not_empty (λ _. ec) s4)) (λ o3.
        let s5 = others checking o3.queue in
        let word = s5.queue.tail in
        let cancelled = at_not_empty cancel_wait s5 in
        let st5 = holed (ltb s5.queue.head (position word)) o3.stats in
        let slept = after_sleep go_on (e.tries sleeping) in
        let s6 = at_not_empty end_wait (others sleeping s5) in
        found_or o3.result (popped o3.stats (at_not_empty cancel_wait o3.queue)) (
          park_end (is_closed word) (leb until e.round.now) (without Pop.timeout st5 cancelled)
            (wait_loop key (wake_by until backstop e.round.now) e.round.sights)
            (go_on o3.stats (others retrying cancelled)) (slept (parked st5) s6)
            (slept (backed (ltb e.round.late until) (parked st5)) s6)))

  -- The loop of `pop`. The spin only reads, and gives other threads time.
  unfoldable pub pop :
      List (Turn A) → ℕ → OpStats → Shared A → Option (Outcome (Pop × Option A) (Shared A))
  pop [] until st s = none
  pop (e ∷ later) until st s =
      let others = e.round.others in
      let late = leb until e.round.now in
      and_then (try_pop o n_slots (e.tries publishing) st s) (λ o1.
        found_or o1.result (popped o1.stats o1.queue) (
          and_then (try_pop o n_slots (e.tries spinning) o1.stats (others spinning o1.queue)) (λ o2.
            let s2 = others looking o2.queue in
            let word = s2.queue.tail in
            let s3 = others draining s2 in
            found_or o2.result (popped o2.stats o2.queue) (
              after_look (is_closed word)
                (closed_end (s3.queue.head == position word) late (without Pop.drained o2.stats s3)
                  (without Pop.timeout o2.stats s3) (pop later until o2.stats (others yielding s3)))
                (after_look o.park
                  (park_round (λ st' s'. pop later until st' s') e until o2.stats s2)
                  (closed_end late false (without Pop.timeout o2.stats s2)
                    (without Pop.timeout o2.stats s2) (pop later until o2.stats s2)))))))
