-- ===== src/Mpmc/Turnstile/Alone.antt =====
-- `try_pop` of a thread that nobody interrupts.
use principal_katas.Prelude.{
  false, true, ℕ, zero, suc, ◌+◌, ◌-◌, ◌%◌, ◌^◌, ◌≤◌, ◌<◌, ◌≡◌, refl, sym, subst, ap, ap₂, ◌∙◌,
  Option, none, some, arith,
}
use principal_katas.Mpmc.Api.{OpStats}
use principal_katas.Mpmc.Rounds.{Outcome}
use principal_katas.Mpmc.Turnstile.{
  Queue, Step, position, undead, seq_of, PopRound, claimed, claimed_dead, pop_round, release,
  consume,
}
use principal_katas.Mpmc.Turnstile.Valid.{IsValid, InRange}
use principal_katas.Mpmc.Turnstile.Steps.{step-IsValid}
use principal_katas.Mpmc.Turnstile.Entries.{Entry, hole, dead, event, entry, entry_same, answer}
use principal_katas.Mpmc.Turnstile.Decide.{claim_here, pop_round_decided, finish-entry}
use principal_katas.Mpmc.Turnstile.Calls.{
  Options, Shared, release_wake, consume_wake, pop_loop, try_pop,
}
use principal_katas.Mpmc.Turnstile.Quiet.{
  quiet_tries, skim, skim_same, release_wake-queue, loop_empty, loop_dead, loop_event,
}

module _ {A : Type 0} (o : Options) (n_slots : ℕ) where
  module _ (large : 2 ≤ n_slots) where
    -- the queue after a tombstone at its head is passed over
    abbrev past : Queue A → Queue A
    past q = release n_slots q.head (record q { head = q.head + 1 })

    -- a valid queue with a tombstone at its head
    record IsDead (q : Queue A) : Type 0 where
      claims :
          pop_round n_slots false q.head q ≡ (claimed_dead q.head, record q { head = q.head + 1 })
      published : undead (seq_of n_slots q q.head) ≡ q.head + 1

    dead_published :
        (q : Queue A)
        → IsValid n_slots q
        → InRange n_slots q
        → entry n_slots q q.head ≡ dead
        → IsDead q
    unfolding entry answer
    dead_published q v r e = record {
      claims = pop_round_decided n_slots large false q v r ∙ ap (λ x. answer false x q) e;
      published = ground (arith, e, r.positions, v.behind);
    }

    past-IsValid :
        (q : Queue A) → IsValid n_slots q → InRange n_slots q → IsDead q → IsValid n_slots (past q)
    unfolding consume
    past-IsValid q v r d =
        let q1 : Queue A = record q { head = q.head + 1 } in
        let v1 : IsValid n_slots q1 =
          subst (IsValid n_slots) (ap (λ x. x.1) (claim_here n_slots false true q))
            (step-IsValid n_slots large v r (Step.claim false true q.head (λ at. d.published))) in
        step-IsValid n_slots large v1 (record { positions = r.positions; fits = r.fits })
          (Step.finish q.head (omega arith) d.published)

    past-entry :
        (q : Queue A) (i : ℕ)
        → InRange n_slots q
        → IsDead q
        → q.head + 1 ≤ i
        → i < 2 ^ 62
        → entry n_slots (past q) i ≡ entry n_slots q i
    unfolding consume
    past-entry q i r d lo hi =
        let q1 : Queue A = record q { head = q.head + 1 } in
        finish-entry n_slots large q.head q1 i (omega arith) hi r.fits d.published
        ∙ entry_same n_slots q q1 i refl refl

    event_stored :
        (q : Queue A) (i : ℕ) (x : A)
        → entry n_slots q i ≡ event x
        → some (q.storage (i % n_slots)) ≡ some x
    unfolding entry
    event_stored q i x e = ground (arith, e)

    consume_wake-result :
        (pos : ℕ) (st : OpStats) (s : Shared A)
        → (consume_wake o n_slots pos st s).result ≡ some (s.queue.storage (pos % n_slots))
    unfolding consume_wake
    consume_wake-result pos st s = refl

    -- An answer for the queue past a tombstone is an answer for the queue.
    pass_on :
        (k : ℕ) (st st' : OpStats) (s s' : Shared A)
        → InRange n_slots s.queue
        → IsDead s.queue
        → position s.queue.tail + 1 ≡ s.queue.head + suc k
        → s'.queue ≡ past s.queue
        → pop_loop o n_slots s.queue.head (quiet_tries (suc k)) st s
          ≡ pop_loop o n_slots (s.queue.head + 1) (quiet_tries k) st' s'
        → (a : Outcome (Option A) (Shared A)) × (pop_loop o n_slots s'.queue.head
              (quiet_tries k)
              st'
              s'
            ≡ some a)
          × (a.result ≡ skim n_slots k s'.queue s'.queue.head)
        → (a : Outcome (Option A) (Shared A)) × (pop_loop o n_slots s.queue.head
              (quiet_tries (suc k))
              st
              s
            ≡ some a)
          × (a.result ≡ skim n_slots k s.queue (s.queue.head + 1))
    unfolding release
    pass_on k st st' s s' r d e at loop (a, runs, says) =
        let q = s.queue in
        let next : s'.queue.head ≡ q.head + 1 = ap (λ x. x.head) at in
        (
          a,
          loop ∙ ap (λ h. pop_loop o n_slots h (quiet_tries k) st' s') (sym next) ∙ runs,
          says
              ∙ ap₂ (λ x h. skim n_slots k x h) at next
              ∙ skim_same n_slots k (q.head + 1) q (past q)
                  (λ j lo hi. past-entry q j r d lo (omega (arith, r.positions))),
        )

    abbrev Answers : ℕ → OpStats → Shared A → Type 0
    Answers k st s =
        (a : Outcome (Option A) (Shared A)) × (pop_loop o n_slots s.queue.head (quiet_tries k) st s
          ≡ some a)
        × (a.result ≡ skim n_slots k s.queue s.queue.head)

    answer_next :
        (k : ℕ)
        → ((st : OpStats) (s : Shared A)
            → IsValid n_slots s.queue
            → InRange n_slots s.queue
            → position s.queue.tail + 1 ≡ s.queue.head + k
            → Answers k st s)
        → (st : OpStats) (s : Shared A) → IsValid n_slots s.queue
        → InRange n_slots s.queue
        → position s.queue.tail + 1 ≡ s.queue.head + suc k
        → Answers (suc k) st s
    unfolding skim answer release
    answer_next k earlier st s v r e = go (entry n_slots s.queue s.queue.head) refl
      where
        q : Queue A
        q = s.queue

        answered :
            (x : Entry A)
            → entry n_slots q q.head ≡ x
            → answer false (entry n_slots q q.head) q ≡ answer false x q
        answered x h = ap (λ y. answer false y q) h

        skimmed :
            (x : Entry A)
            → entry n_slots q q.head ≡ x
            → skim n_slots (suc k) q q.head
              ≡ elim x [ hole ↦ none | dead ↦ skim n_slots k q (q.head + 1) | event y ↦ some y ]
        skimmed x h =
            ap
              (λ y. elim y [
                | hole ↦ none
                | dead ↦ skim n_slots k q (q.head + 1)
                | event z ↦ some z
              ])
              h

        go : (x : Entry A) → entry n_slots q q.head ≡ x → Answers (suc k) st s
        go hole h =
            let claim : pop_round n_slots false q.head q ≡ (PopRound.empty, q) =
              pop_round_decided n_slots large false q v r ∙ answered hole h in
            (_, loop_empty o n_slots q.head k st s q claim, sym (skimmed hole h))
        go dead h =
            let d = dead_published q v r h in
            let s1 : Shared A = record s { queue = record q { head = q.head + 1 } } in
            let st' = (release_wake o n_slots q.head st s1).0 in
            let s' = (release_wake o n_slots q.head st s1).1 in
            let at : s'.queue ≡ past q = release_wake-queue o n_slots q.head st s1 in
            let same_tail : s'.queue.tail ≡ q.tail = ap (λ x. x.tail) at in
            let next : s'.queue.head ≡ q.head + 1 = ap (λ x. x.head) at in
            let (a, runs, says) =
              pass_on k st st' s s' r d e at
                (loop_dead o n_slots q.head q.head k st s (record q { head = q.head + 1 }) d.claims)
                (earlier st' s' (subst (IsValid n_slots) (sym at) (past-IsValid q v r d))
                  (record {
                    positions = omega (arith, r.positions, ap position same_tail);
                    fits = r.fits;
                  })
                  (omega (arith, ap position same_tail, next, e))) in
            (a, runs, says ∙ sym (skimmed dead h))
        go (event x) h =
            let claim : pop_round n_slots false q.head q
                ≡ (claimed q.head, record q { head = q.head + 1 }) =
              pop_round_decided n_slots large false q v r ∙ answered (event x) h in
            (
              _,
              loop_event o n_slots q.head q.head k st s _ claim,
              consume_wake-result q.head st _
                  ∙ event_stored q q.head x h
                  ∙ sym (skimmed (event x) h),
            )

    pop_alone :
        (k : ℕ) (st : OpStats) (s : Shared A)
        → IsValid n_slots s.queue
        → InRange n_slots s.queue
        → position s.queue.tail + 1 ≡ s.queue.head + k
        → Answers k st s
    pop_alone zero st s v r e = absurd (omega (arith, v.behind))
    pop_alone (suc k) st s v r e = answer_next k (pop_alone k) st s v r e

    -- With two slots or more and positions below 2^62, in a valid queue, `try_pop` that nobody
    -- interrupts, and none of whose compare-and-swaps fails for no reason, returns after at most as many rounds as there are positions from the head to the
    -- tail, and one: the first event behind the tombstones at the head, or empty when a hole or the
    -- tail comes first.
    pub try_pop_returns :
        (st : OpStats) (s : Shared A)
        → IsValid n_slots s.queue
        → InRange n_slots s.queue
        → let rounds = position s.queue.tail - s.queue.head + 1 in
          (a : Outcome (Option A) (Shared A)) × (try_pop o n_slots (quiet_tries rounds) st s
            ≡ some a)
          × (a.result ≡ skim n_slots rounds s.queue s.queue.head)
    unfolding try_pop
    try_pop_returns st s v r =
        pop_alone (position s.queue.tail - s.queue.head + 1) st s v r (omega (arith, v.behind))
