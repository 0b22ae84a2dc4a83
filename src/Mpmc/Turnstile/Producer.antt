-- ===== src/Mpmc/Turnstile/Producer.antt =====
-- mpmc-work-queue-kata/cpp/src/mpmc_queue.hpp: `push`, in the rounds of Mpmc/Rounds, with
-- what other threads do around each round of their tries. A call that outlasts a list is still
-- blocked.
use principal_katas.Prelude.{
  ℕ, zero, suc, ◌+◌, Bool, true, false, ◌&&◌, Option, none, some, List, [], ◌∷◌, leb, if◌then◌else◌,
}
use principal_katas.Mpmc.Api.{Push, OpStats, parked}
use principal_katas.Mpmc.EventCount.{prepare_wait, cancel_wait, wait_loop}
use principal_katas.Mpmc.Rounds.{
  and_then, publishing, entering, publishing_again, checking, sleeping, Round, Outcome, wake_by,
  round_end,
}
use principal_katas.Mpmc.Turnstile.{is_closed, position, is_turn, take_ticket, pay_ticket}
use principal_katas.Mpmc.Turnstile.Calls.{
  end_wait, Turn, at_not_full, Options, Shared, Try, try_push, publish_wake, chain_full_wake,
}

abbrev pub is_ok : Push → Bool
is_ok Push.ok = true
is_ok p = false

-- `kSpins` and `kYields`
abbrev pub n_spins : ℕ
n_spins = 128

abbrev pub n_yields : ℕ
n_yields = 64

module _ {A : Type 0} (o : Options) (n_slots backstop : ℕ) where
  -- `if (parked && r == Push::ok) chain_full_wake(st)`
  unfoldable pub chained : Bool → Outcome Push (Shared A) → Outcome Push (Shared A)
  chained parked_before a =
      let (st, s) = chain_full_wake o n_slots a.stats a.queue in
      if parked_before && is_ok a.result
      then record { result = a.result; stats = st; queue = s }
      else a

  -- The loop of `push` with `Reserve::cas`.
  unfoldable pub push_cas :
      A → Bool → List (Turn A) → ℕ → OpStats → Shared A → Option (Outcome Push (Shared A))
  push_cas v parked_before [] until st s = none
  push_cas v parked_before (e ∷ later) until st s =
      and_then (try_push o n_slots v (e.tries publishing) st s) (λ o1.
        let s1 = e.round.others entering o1.queue in
        let (key, ec) = prepare_wait s1.not_full in
        and_then
          (try_push o n_slots v (e.tries publishing_again) o1.stats (at_not_full (λ _. ec) s1))
          (λ o2.
            let cancelled : Shared A = at_not_full cancel_wait o2.queue in
            let rest =
              push_cas v true later until (parked o2.stats)
                (at_not_full end_wait (e.round.others sleeping o2.queue)) in
            round_end o1.result o2.result (chained parked_before o1)
              (chained parked_before
                (record { result = o2.result; stats = o2.stats; queue = cancelled }))
              (record { result = Push.timeout; stats = o2.stats; queue = cancelled })
              (leb until e.round.now)
              (wait_loop key (wake_by until backstop e.round.now) e.round.sights) rest))

  -- The spins and yields of `await_turn`: whether the turn has come, looking from the `i`-th time
  -- on, with what other threads do after each look.
  unfoldable pub spin_turn : ℕ → (ℕ → Shared A → Shared A) → ℕ → ℕ → Shared A → Bool × Shared A
  spin_turn pos others i zero s = (false, s)
  spin_turn pos others i (suc left) s =
      let rest = spin_turn pos others (i + 1) left (others i s) in
      if is_turn n_slots pos s.queue then (true, s) else rest

  -- The loop of `await_turn`, whose waits last `poll` at most.
  unfoldable pub park_turn :
      ℕ → ℕ → List (Round (Shared A)) → OpStats → Shared A → Option (OpStats × Shared A)
  park_turn poll pos [] st s = if is_turn n_slots pos s.queue then some (st, s) else none
  park_turn poll pos (e ∷ later) st s =
      let s1 = e.others entering s in
      let (key, ec) = prepare_wait s1.not_full in
      let s2 = e.others checking (at_not_full (λ _. ec) s1) in
      let rest =
        park_turn poll pos later (parked st) (at_not_full end_wait (e.others sleeping s2)) in
      if is_turn n_slots pos s.queue
      then some (st, s)
      else if is_turn n_slots pos s2.queue
      then some (st, at_not_full cancel_wait s2)
      else elim (wait_loop key (e.now + poll) e.sights) [ none ↦ none | some woke ↦ rest ]

  unfoldable pub await_turn :
      ℕ
      → ℕ
      → (ℕ → Shared A → Shared A)
      → List (Round (Shared A))
      → OpStats
      → Shared A
      → Option (OpStats × Shared A)
  await_turn poll pos others rounds st s =
      let (come, s') = spin_turn pos others 0 (n_spins + n_yields) s in
      if come then some (st, s') else park_turn poll pos rounds st s'

  -- `push` with `Reserve::ticket`: other threads may run between the pre-check and the ticket, and
  -- between the turn and the publication.
  unfoldable pub push_ticket :
      ℕ
      → A
      → Try A
      → (ℕ → Shared A → Shared A)
      → List (Round (Shared A))
      → OpStats
      → Shared A
      → Option (Outcome Push (Shared A))
  push_ticket poll v e others rounds st s =
      let s1 = e.before s in
      let (word, q) = take_ticket n_slots s1.queue in
      if is_closed s.queue.tail
      then some (record { result = Push.closed; stats = st; queue = s })
      else and_then (await_turn poll (position word) others rounds st (record s1 { queue = q }))
          (λ turn.
            let (st', s2) = turn in
            let s3 = e.during s2 in
            let (refusal, paid) = pay_ticket n_slots word v s3.queue in
            if is_closed word
            then some (record { result = refusal; stats = st'; queue = record s3 { queue = paid } })
            else some (publish_wake o n_slots (position word) v st' s3))
