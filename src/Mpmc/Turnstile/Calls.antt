-- ===== src/Mpmc/Turnstile/Calls.antt =====
-- mpmc-work-queue-kata/cpp/src/mpmc_queue.hpp: the calls of `Queue<T, N, O>` that do not wait, with
-- the wakes that they send. What other threads do before a look, after it and, once a position
-- is had, before its publication or release, are functions. The options of the deliberate bugs and of the
-- epoch wake are at their defaults.
use principal_katas.Prelude.{
  ℕ, ◌+◌, ◌/◌, ◌%◌, Bool, true, false, Option, none, some, List, [], ◌∷◌, ◌==◌, leb, if◌then◌else◌,
}
use principal_katas.Mpmc.Api.{Push, OpStats}
use principal_katas.Mpmc.EventCount.{
  deregister, clear, EventCount, new_count, notify_one, notify_all, notify_all_if_waiting,
}
use principal_katas.Mpmc.Rounds.{Place, Round, Outcome, woken}
use principal_katas.Mpmc.Turnstile.{
  Queue, new_queue, PushRound, refused, reserved, PopRound, claimed, claimed_dead, PushLook,
  PopLook, stopped, nothing, push_look, push_claim, pop_look, pop_claim, publish, release, has_room,
  close, retried,
}

-- `Options`, as far as the calls read them
pub record Options : Type 0 where
  pub ticket : Bool
  pub coalesce_wakes : Bool
  pub batch_full_wakes : Bool
  pub park : Bool

-- the defaults
abbrev pub default_options : Options
default_options = record {
  ticket = false;
  coalesce_wakes = true;
  batch_full_wakes = true;
  park = true;
}

-- the queue with its event counts
pub record Shared (A : Type 0) : Type 0 where
  pub queue : Queue A
  pub not_empty : EventCount
  pub not_full : EventCount

abbrev pub new_shared : {A : Type 0} → (ℕ → A) → Shared A
new_shared storage = record {
  queue = new_queue storage;
  not_empty = new_count;
  not_full = new_count;
}

-- what other threads do around one round of `try_push` or `try_pop`: before its look, between that
-- and its compare-and-swap, which may fail for no reason, and after it
pub record Try (A : Type 0) : Type 0 where
  pub before : Shared A → Shared A
  pub between : Shared A → Shared A
  pub spurious : Bool
  pub during : Shared A → Shared A

-- a round, and what other threads do around the rounds of its tries
pub record Turn (A : Type 0) : Type 0 where
  pub round : Round (Shared A)
  pub tries : Place → List (Try A)

-- the end of `wait`
abbrev pub end_wait : EventCount → EventCount
end_wait ec = clear (deregister ec)

module _ {A : Type 0} where
  abbrev pub at_not_full : (EventCount → EventCount) → Shared A → Shared A
  at_not_full f s = record s { not_full = f s.not_full }

  abbrev pub at_not_empty : (EventCount → EventCount) → Shared A → Shared A
  at_not_empty f s = record s { not_empty = f s.not_empty }

-- `kFullWakeEvery`
abbrev pub full_wake_every : Options → ℕ → ℕ
full_wake_every o n_slots =
    if o.batch_full_wakes then if leb 128 n_slots then 64 else n_slots / 2 else 1

module _ {A : Type 0} (o : Options) (n_slots : ℕ) where
  -- `publish`, with its wake
  unfoldable pub publish_wake : ℕ → A → OpStats → Shared A → Outcome Push (Shared A)
  unfolding publish notify_one
  publish_wake pos v st s =
      let (woke, wakes, ec) = notify_one o.coalesce_wakes s.not_empty in
      record {
        result = Push.ok;
        stats = woken woke st;
        queue = record s { queue = publish n_slots pos v s.queue; not_empty = ec };
      }

  -- `release`, with its wakes
  unfoldable pub release_wake : ℕ → OpStats → Shared A → OpStats × Shared A
  unfolding release notify_one notify_all_if_waiting
  release_wake pos st s =
      let s' : Shared A = record s { queue = release n_slots pos s.queue } in
      let (woke, wakes, ec) =
        if o.ticket
        then notify_all_if_waiting s.not_full
        else notify_one o.coalesce_wakes s.not_full in
      if pos % full_wake_every o n_slots == 0
      then (woken woke st, record s' { not_full = ec })
      else (st, s')

  -- `consume`, with its wakes
  unfoldable pub consume_wake : ℕ → OpStats → Shared A → Outcome (Option A) (Shared A)
  unfolding release_wake
  consume_wake pos st s =
      let (st', s') = release_wake pos st s in
      record { result = some (s.queue.storage (pos % n_slots)); stats = st'; queue = s' }

  -- The loop of `try_push`, with the tail word that it has read.
  unfoldable pub push_loop :
      A → ℕ → List (Try A) → OpStats → Shared A → Option (Outcome Push (Shared A))
  push_loop v word [] st s = none
  push_loop v word (e ∷ later) st s =
      let s1 = e.before s in
      let s2 = e.between s1 in
      let (r, q) = push_claim n_slots e.spurious word s2.queue in
      let next : Shared A = record s2 { queue = q } in
      let again : ℕ → Shared A → Option (Outcome Push (Shared A)) =
        λ word' s'. push_loop v word' later (retried st) s' in
      let taken : Option (Outcome Push (Shared A)) = elim r [
        | refused p ↦ some (record { result = p; stats = st; queue = next })
        | reserved pos ↦ some (publish_wake pos v st (e.during next))
        | PushRound.again word' ↦ again word' next
      ] in
      elim (push_look n_slots word s1.queue) [
        | stopped p ↦ some (record { result = p; stats = st; queue = s1 })
        | PushLook.tries ↦ taken
        | PushLook.stale ↦ again s2.queue.tail s2
      ]

  unfoldable pub try_push : A → List (Try A) → OpStats → Shared A → Option (Outcome Push (Shared A))
  try_push v tries st s = push_loop v s.queue.tail tries st s

  -- The loop of `try_pop`, with the head that it has read. No event is `Pop::empty`.
  unfoldable pub pop_loop :
      ℕ → List (Try A) → OpStats → Shared A → Option (Outcome (Option A) (Shared A))
  pop_loop pos [] st s = none
  pop_loop pos (e ∷ later) st s =
      let s1 = e.before s in
      let s2 = e.between s1 in
      let again : ℕ → Shared A → Option (Outcome (Option A) (Shared A)) =
        λ pos' s'. pop_loop pos' later (retried st) s' in
      let taken : PopRound × Queue A → Option (Outcome (Option A) (Shared A)) = λ (r, q).
        let next : Shared A = record s2 { queue = q } in
        let released : ℕ → OpStats × Shared A = λ p. release_wake p st (e.during next) in
        elim r [
          | PopRound.empty ↦ some (record { result = none; stats = st; queue = next })
          | claimed p ↦ some (consume_wake p st (e.during next))
          | claimed_dead p ↦ pop_loop (p + 1) later (released p).0 (released p).1
          | PopRound.again pos' ↦ again pos' next
        ] in
      elim (pop_look n_slots pos s1.queue) [
        | nothing ↦ some (record { result = none; stats = st; queue = s1 })
        | PopLook.tries dead ↦ taken (pop_claim n_slots e.spurious dead pos s2.queue)
        | PopLook.stale ↦ again s2.queue.head s2
      ]

  unfoldable pub try_pop :
      List (Try A) → OpStats → Shared A → Option (Outcome (Option A) (Shared A))
  try_pop tries st s = pop_loop s.queue.head tries st s

  -- `chain_full_wake`
  unfoldable pub chain_full_wake : OpStats → Shared A → OpStats × Shared A
  unfolding has_room notify_one
  chain_full_wake st s =
      let (woke, wakes, ec) = notify_one o.coalesce_wakes s.not_full in
      if has_room n_slots s.queue then (woken woke st, record s { not_full = ec }) else (st, s)

-- `close()`
unfoldable pub close_all : {A : Type 0} → Shared A → Shared A
unfolding close notify_all
close_all s = record {
  queue = close s.queue;
  not_empty = (notify_all s.not_empty).1;
  not_full = (notify_all s.not_full).1;
}
