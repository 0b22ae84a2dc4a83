-- ===== src/Mpmc/Turnstile/Quiet.antt =====
-- Tries of a thread that nobody interrupts, and whose compare-and-swaps do not fail for no reason, and the rounds that they are made of.
use principal_katas.Prelude.{
  false, ℕ, zero, suc, ◌+◌, ◌≤◌, ◌<◌, ◌≡◌, refl, ap, ap₂, ◌∙◌, Option, none, some, List, [], ◌∷◌,
  arith,
}
use principal_katas.Mpmc.Api.{OpStats}
use principal_katas.Mpmc.Rounds.{Outcome}
use principal_katas.Mpmc.Turnstile.{
  retried, Queue, PopRound, claimed, claimed_dead, PopLook, nothing, pop_look, pop_claim, pop_round,
  release,
}
use principal_katas.Mpmc.Turnstile.Entries.{hole, dead, event, entry}
use principal_katas.Mpmc.Turnstile.Calls.{
  Options, Shared, Try, release_wake, consume_wake, pop_loop,
}

abbrev pub quiet : {A : Type 0} → Try A
quiet = record { before = λ s. s; between = λ s. s; spurious = false; during = λ s. s }

abbrev pub quiet_tries : {A : Type 0} → ℕ → List (Try A)
quiet_tries zero = []
quiet_tries (suc k) = quiet ∷ quiet_tries k

module _ {A : Type 0} (n_slots : ℕ) where
  -- The first event at `i` or after it, if there is no hole before it.
  unfoldable pub skim : ℕ → Queue A → ℕ → Option A
  skim zero q i = none
  skim (suc k) q i =
      let rest = skim k q (i + 1) in
      elim (entry n_slots q i) [ hole ↦ none | dead ↦ rest | event v ↦ some v ]

  pub skim_same :
      (k i : ℕ) (q q' : Queue A)
      → ((j : ℕ) → i ≤ j → j < i + k → entry n_slots q' j ≡ entry n_slots q j)
      → skim k q' i ≡ skim k q i
  unfolding skim
  skim_same zero i q q' same = refl
  skim_same (suc k) i q q' same =
      ap₂ (λ e r. elim e [ hole ↦ none | dead ↦ r | event v ↦ some v ])
        (same i (omega arith) (omega arith))
        (skim_same k (i + 1) q q' (λ j lo hi. same j (omega arith) (omega arith)))

module _ {A : Type 0} (o : Options) (n_slots : ℕ) where
  pub release_wake-queue :
      (pos : ℕ) (st : OpStats) (s : Shared A)
      → (release_wake o n_slots pos st s).1.queue ≡ release n_slots pos s.queue
  unfolding release_wake
  release_wake-queue pos st s = ground arith

  -- what `pop_loop` does after an uninterrupted round
  abbrev after_round :
      ℕ → OpStats → Shared A → PopRound × Queue A → Option (Outcome (Option A) (Shared A))
  after_round k st s (r, q) =
      let next : Shared A = record s { queue = q } in
      elim r [
        | PopRound.empty ↦ some (record { result = none; stats = st; queue = next })
        | claimed p ↦ some (consume_wake o n_slots p st next)
        | claimed_dead p ↦
            let (st', s') = release_wake o n_slots p st next in
            pop_loop o n_slots (p + 1) (quiet_tries k) st' s'
        | PopRound.again p ↦ pop_loop o n_slots p (quiet_tries k) (retried st) next
      ]

  loop_round :
      (pos k : ℕ) (st : OpStats) (s : Shared A)
      → pop_loop o n_slots pos (quiet_tries (suc k)) st s
        ≡ after_round k st s (pop_round n_slots false pos s.queue)
  unfolding pop_loop pop_round
  loop_round pos k st s = by_look (pop_look n_slots pos s.queue)
    where
      by_look :
          (l : PopLook)
          → (elim l [
            | nothing ↦ some (record { result = none; stats = st; queue = s })
            | PopLook.tries d ↦ after_round k st s (pop_claim n_slots false d pos s.queue)
            | PopLook.stale ↦ pop_loop o n_slots s.queue.head (quiet_tries k) (retried st) s
          ])
            ≡ after_round k st s (elim l [
              | nothing ↦ (PopRound.empty, s.queue)
              | PopLook.tries d ↦ pop_claim n_slots false d pos s.queue
              | PopLook.stale ↦ (PopRound.again s.queue.head, s.queue)
            ])
      by_look nothing = refl
      by_look (PopLook.tries d) = refl
      by_look PopLook.stale = refl

  pub loop_empty :
      (pos k : ℕ) (st : OpStats) (s : Shared A) (q : Queue A)
      → pop_round n_slots false pos s.queue ≡ (PopRound.empty, q)
      → pop_loop o n_slots pos (quiet_tries (suc k)) st s
        ≡ some (record { result = none; stats = st; queue = record s { queue = q } })
  loop_empty pos k st s q e = loop_round pos k st s ∙ ap (after_round k st s) e

  pub loop_dead :
      (pos p k : ℕ) (st : OpStats) (s : Shared A) (q : Queue A)
      → pop_round n_slots false pos s.queue ≡ (claimed_dead p, q)
      → let (st', s') = release_wake o n_slots p st (record s { queue = q }) in
        pop_loop o n_slots pos (quiet_tries (suc k)) st s
        ≡ pop_loop o n_slots (p + 1) (quiet_tries k) st' s'
  loop_dead pos p k st s q e = loop_round pos k st s ∙ ap (after_round k st s) e

  pub loop_event :
      (pos p k : ℕ) (st : OpStats) (s : Shared A) (q : Queue A)
      → pop_round n_slots false pos s.queue ≡ (claimed p, q)
      → pop_loop o n_slots pos (quiet_tries (suc k)) st s
        ≡ some (consume_wake o n_slots p st (record s { queue = q }))
  loop_event pos p k st s q e = loop_round pos k st s ∙ ap (after_round k st s) e
