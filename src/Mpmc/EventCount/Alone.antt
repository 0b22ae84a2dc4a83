-- ===== src/Mpmc/EventCount/Alone.antt =====
-- The calls of the event count, as the steps of a thread that nobody interrupts.
use principal_katas.Prelude.{
  ℕ, ◌<◌, ◌≡◌, refl, ap, subst, inl, inr, Bool, true, false, ◌&&◌, ◌==◌, put_at, arith, fun_ext,
  Bool-cases, if◌then◌else◌,
}
use principal_katas.Mpmc.EventCount.{
  EventCount, Wakes, nobody, one, prepare_wait, notify_one, advance, announce, clear,
}
use principal_katas.Mpmc.EventCount.Threads.{
  running, keyed, announced, watching, Notifier, idle, published, counted, unmarked, marked,
  advanced, System, waiter_to, notifier_to, Step,
}
use principal_katas.Mpmc.EventCount.Count.{put_same}

module _ (coalesce : Bool) (n_waiters : ℕ) where
  -- steps, one after another
  pub data Steps : System → System → Type 0 where
    done : {s : System} → Steps s s
    next : {s s' s'' : System} → Step coalesce n_waiters s s' → Steps s' s'' → Steps s s''

-- the notifier at its wake, however many places it went through
at_place :
    (s : System) (f : ℕ → Notifier) (j : ℕ) (v : Notifier) (ec : EventCount)
    → ((k : ℕ) → f k ≡ put_at s.notifier j v k)
    → record s { count = ec; notifier = f } ≡ notifier_to s j v ec
at_place s f j v ec e = ap (λ g. record s { count = ec; notifier = g }) (fun_ext e)

module _ {coalesce : Bool} {n_waiters : ℕ} where
  last : {s s' t : System} → Step coalesce n_waiters s s' → s' ≡ t → Steps coalesce n_waiters s t
  last {s} st e = subst (Steps coalesce n_waiters s) e (Steps.next st Steps.done)

module _ (n_waiters : ℕ) where
  -- A waiter that nobody interrupts between the accesses of `prepare_wait` gets the key, and leaves
  -- the event count, that the call returns.
  pub prepare_wait_alone :
      (coalesce : Bool) (s : System) (i : ℕ)
      → i < n_waiters
      → s.waiter i ≡ running
      → Steps coalesce n_waiters s
          (let (key, ec) = prepare_wait s.count in waiter_to s i (watching key) ec)
  unfolding prepare_wait
  prepare_wait_alone coalesce s i lt at =
      let k = s.count.epoch in
      let s1 = waiter_to s i (keyed k) s.count in
      let s2 = waiter_to s1 i (announced k) (announce s.count) in
      Steps.next (Step.read_key i lt at) (
        Steps.next (Step.enter i k lt (put_same s.waiter i (keyed k))) (
          last (Step.enter_clear i k lt (put_same s1.waiter i (announced k))) (
            ap (λ f. record s { count = clear (announce s.count); waiter = f })
              (fun_ext (λ j. ground arith)))))

  -- with coalescing and no flag, and without coalescing
  mark_alone :
      (s : System) (j : ℕ)
      → s.notifier j ≡ published
      → Steps true n_waiters s
          (notifier_to s j advanced (advance (record s.count { pending = true })))
  mark_alone s j at =
      let s1 = notifier_to s j counted s.count in
      let s2 = notifier_to s1 j unmarked s.count in
      let s3 = notifier_to s2 j marked (record s.count { pending = true }) in
      Steps.next (Step.see_some j at) (
        Steps.next (Step.see_no_mark j refl (put_same s.notifier j counted)) (
          Steps.next (Step.mark j (put_same s1.notifier j unmarked)) (
            last (Step.move_on j (put_same s2.notifier j marked)) (
              at_place s (put_at s3.notifier j advanced) j advanced
                (advance (record s.count { pending = true })) (λ k. ground arith)))))

  plain_alone :
      (s : System) (j : ℕ)
      → s.notifier j ≡ published
      → Steps false n_waiters s (notifier_to s j advanced (advance s.count))
  plain_alone s j at =
      let s1 = notifier_to s j counted s.count in
      Steps.next (Step.see_some j at) (
        last (Step.move_plain j refl (put_same s.notifier j counted)) (
          at_place s (put_at s1.notifier j advanced) j advanced (advance s.count)
            (λ k. ground arith)))

  flag_alone :
      (s : System) (j : ℕ)
      → s.notifier j ≡ published
      → s.count.pending ≡ true
      → Steps true n_waiters s (notifier_to s j idle s.count)
  flag_alone s j at p =
      let s1 = notifier_to s j counted s.count in
      Steps.next (Step.see_some j at) (
        last (Step.see_mark j refl (put_same s.notifier j counted) p)
          (at_place s (put_at s1.notifier j idle) j idle s.count (λ k. ground arith)))

  -- A notifier that has published, and that nobody interrupts, leaves the event count that
  -- `notify_one` returns, and is at its wake if and only if the call returns true.
  pub notify_one_alone :
      (coalesce : Bool) (s : System) (j : ℕ)
      → s.notifier j ≡ published
      → Steps coalesce n_waiters s (
          let (woken, wakes, ec) = notify_one coalesce s.count in
          notifier_to s j (if woken then advanced else idle) ec)
  unfolding notify_one
  notify_one_alone coalesce s j at = elim (Bool-cases (s.count.waiters == 0)) [
    | inl z ↦ rw z (Steps.next (Step.see_none j at (ground arith)) Steps.done)
    | inr z ↦ rw z (some coalesce)
  ]
    where
      answer : Bool → Bool × Wakes × EventCount
      answer c =
          if c && s.count.pending
          then (false, nobody, s.count)
          else (true, one, advance (if c then record s.count { pending = true } else s.count))

      some :
          (c : Bool)
          → Steps c n_waiters s
              (notifier_to s j (if (answer c).0 then advanced else idle) (answer c).2)
      some true = elim (Bool-cases s.count.pending) [
        | inl p ↦ simp p (flag_alone s j at p)
        | inr p ↦ simp p (mark_alone s j at)
      ]
      some false = plain_alone s j at
