-- ===== src/Mpmc/EventCount/Awake.antt =====
-- No wakeup is lost.
use principal_katas.Prelude.{
  not, ℕ, ◌+◌, ◌^◌, ◌≤◌, ◌<◌, ◌≡◌, refl, sym, ap, ◌∙◌, subst, ◌⊎◌, inl, inr, Bool, true, false,
  ◌==◌, arith, Bool-cases,
}
use principal_katas.Mpmc.EventCount.{EventCount, new_count, announce, deregister, clear}
use principal_katas.Mpmc.EventCount.Threads.{
  Waiter, running, keyed, announced, watching, waiting, asleep, awake, leaving, Notifier, idle,
  published, counted, unmarked, System, is_asleep, waiter_to, Step, Reach,
}
use principal_katas.Mpmc.EventCount.Count.{count_none, Some, SomeOf, put_same}
use principal_katas.Mpmc.EventCount.Moved.{
  is_up, is_counted, has_missed, has_cleared, key_of, is_marked, is_waking, is_early, is_busy,
  WaiterOk, Inv, waiter_moved,
}
use principal_katas.Mpmc.EventCount.Waiters.{
  number_kept, number_up, number_down, take-Inv, sleep-Inv,
}
use principal_katas.Mpmc.EventCount.Steps.{
  flagged-Inv, publish-Inv, mark-Inv, advance-Inv, done-Inv, see_none-Inv, onward-Inv,
}

-- Whether a waiter looks at the condition before it next sleeps: at the top of the loop of `wait`, it
-- does if its key is not the epoch's any more, since it then returns.
unfoldable pub will_look : ℕ → Waiter → Bool
will_look epoch (waiting key) = not (key == epoch)
will_look epoch (asleep key) = false
will_look epoch running = true
will_look epoch (keyed key) = true
will_look epoch (announced key) = true
will_look epoch (watching key) = true
will_look epoch awake = true
will_look epoch leaving = true

module _ (n_waiters : ℕ) where
  ok_at :
      (s : System) (i : ℕ) (w : Waiter)
      → Inv n_waiters s
      → i < n_waiters
      → s.waiter i ≡ w
      → WaiterOk s.count s.ready s.notifier w
  ok_at s i w inv lt at = subst (WaiterOk s.count s.ready s.notifier) at (inv.waiter_ok i lt)

  -- before it clears the flag, a waiter has only its key to keep
  early_ok :
      (ec : EventCount) (ready : Bool) (notifier : ℕ → Notifier) (w : Waiter)
      → has_cleared w ≡ false
      → key_of w ≤ ec.epoch
      → WaiterOk ec ready notifier w
  early_ok ec ready notifier w f le = record {
    key_in = le;
    flag_early = λ c. absurd (ground (arith, f, c));
    miss_early = λ m. absurd (ground (arith, f, missed w m));
  }
    where
      missed : (w : Waiter) → has_missed w ≡ true → has_cleared w ≡ true
      missed w m = ground arith

  back-Inv :
      (s : System) (i key : ℕ)
      → Inv n_waiters s
      → i < n_waiters
      → s.waiter i ≡ asleep key
      → Inv n_waiters (waiter_to s i (waiting key) s.count)
  back-Inv s i key inv lt at =
      let ok = ok_at s i (asleep key) inv lt at in
      waiter_moved n_waiters s inv i (waiting key) s.count lt refl refl (λ p. p)
        (number_kept n_waiters s i (waiting key) inv lt (sym (ap is_counted at)))
        (record { key_in = ok.key_in; flag_early = ok.flag_early; miss_early = ok.miss_early })

  miss-Inv :
      (s : System) (i key : ℕ)
      → Inv n_waiters s
      → i < n_waiters
      → s.waiter i ≡ watching key
      → s.ready ≡ false
      → Inv n_waiters (waiter_to s i (waiting key) s.count)
  miss-Inv s i key inv lt at not_ready =
      let ok = ok_at s i (watching key) inv lt at in
      waiter_moved n_waiters s inv i (waiting key) s.count lt refl refl (λ p. p)
        (number_kept n_waiters s i (waiting key) inv lt (sym (ap is_counted at)))
        (record {
          key_in = ok.key_in;
          flag_early = ok.flag_early;
          miss_early = λ m k r. absurd (ground (arith, not_ready, r));
        })

  -- a waiter moves to a place where it has only its key to keep
  plain-Inv :
      (s : System) (i : ℕ) (w w' : Waiter)
      → Inv n_waiters s
      → i < n_waiters
      → s.waiter i ≡ w
      → is_counted w' ≡ is_counted w
      → is_up w' ≡ true
      → has_cleared w' ≡ false
      → key_of w' ≤ s.count.epoch
      → Inv n_waiters (waiter_to s i w' s.count)
  plain-Inv s i w w' inv lt at n up early le =
      waiter_moved n_waiters s inv i w' s.count lt up refl (λ p. p)
        (number_kept n_waiters s i w' inv lt (n ∙ sym (ap is_counted at)))
        (early_ok s.count s.ready s.notifier w' early le)

  module _ (coalesce : Bool) (fits : n_waiters < 2 ^ 32) (some : 1 ≤ n_waiters) where
    step-Inv :
        {s s' : System}
        → Inv n_waiters s
        → s.count.epoch + 1 < 2 ^ 32
        → Step coalesce n_waiters s s'
        → Inv n_waiters s'
    step-Inv {s} inv small (Step.take i more lt at r) = take-Inv n_waiters s i more inv lt at r
    step-Inv {s} inv small (Step.read_key i lt at) =
        plain-Inv s i running (keyed s.count.epoch) inv lt at refl refl refl (omega arith)
    step-Inv {s} inv small (Step.enter i key lt at) =
        waiter_moved n_waiters s inv i (announced key) (announce s.count) lt refl refl (λ p. p)
          (number_up n_waiters fits s i (announced key) inv lt (ap is_counted at) refl)
          (early_ok (announce s.count) s.ready s.notifier (announced key) refl
            (ok_at s i (keyed key) inv lt at).key_in)
    step-Inv {s} inv small (Step.enter_clear i key lt at) =
        waiter_moved n_waiters s inv i (watching key) (clear s.count) lt refl refl
          (λ p. absurd (ground (arith, p)))
          (number_kept n_waiters s i (watching key) inv lt (sym (ap is_counted at)))
          (record {
            key_in = (ok_at s i (announced key) inv lt at).key_in;
            flag_early = λ c k p. absurd (ground (arith, p));
            miss_early = λ m. absurd (ground (arith, m));
          })
    step-Inv {s} inv small (Step.find i key lt at) =
        waiter_moved n_waiters s inv i running (deregister s.count) lt refl refl (λ p. p)
          (number_down n_waiters fits s i running inv lt (ap is_counted at) refl)
          (early_ok (deregister s.count) s.ready s.notifier running refl (omega arith))
    step-Inv {s} inv small (Step.miss i key lt at r) = miss-Inv s i key inv lt at r
    step-Inv {s} inv small (Step.sleep i key lt at e) = sleep-Inv n_waiters s i key inv lt at e
    step-Inv {s} inv small (Step.return i key lt at) = back-Inv s i key inv lt at
    step-Inv {s} inv small (Step.leave i key lt at) =
        plain-Inv s i (waiting key) awake inv lt at refl refl refl (omega arith)
    step-Inv {s} inv small (Step.leave_count i lt at) =
        waiter_moved n_waiters s inv i leaving (deregister s.count) lt refl refl (λ p. p)
          (number_down n_waiters fits s i leaving inv lt (ap is_counted at) refl)
          (early_ok (deregister s.count) s.ready s.notifier leaving refl (omega arith))
    step-Inv {s} inv small (Step.leave_clear i lt at) =
        waiter_moved n_waiters s inv i running (clear s.count) lt refl refl
          (λ p. absurd (ground (arith, p)))
          (number_kept n_waiters s i running inv lt (sym (ap is_counted at)))
          (early_ok (clear s.count) s.ready s.notifier running refl (omega arith))
    step-Inv {s} inv small (Step.publish j e) = publish-Inv n_waiters s j inv e
    step-Inv {s} inv small (Step.see_none j e z) = see_none-Inv n_waiters s j inv e z
    step-Inv {s} inv small (Step.see_some j e) =
        onward-Inv n_waiters s j published counted inv e refl refl
    step-Inv {s} inv small (Step.see_mark j c e p) =
        flagged-Inv n_waiters s j inv (ap is_marked e) (ap is_waking e) p
    step-Inv {s} inv small (Step.see_no_mark j c e) =
        onward-Inv n_waiters s j counted unmarked inv e refl refl
    step-Inv {s} inv small (Step.mark_late j e p) =
        flagged-Inv n_waiters s j inv (ap is_marked e) (ap is_waking e) p
    step-Inv {s} inv small (Step.mark j e) = mark-Inv n_waiters s j inv
    step-Inv {s} inv small (Step.move_on j e) = advance-Inv n_waiters s j inv small
    step-Inv {s} inv small (Step.move_plain j c e) = advance-Inv n_waiters s j inv small
    step-Inv {s} inv small (Step.wake i j key lt e at) =
        let s1 = waiter_to s i (waiting key) s.count in
        done-Inv n_waiters s1 j (back-Inv s i key inv lt at) e
          (i, lt, ap is_up (put_same s.waiter i (waiting key)))
    step-Inv {s} inv small (Step.wake_nobody j e none) =
        done-Inv n_waiters s j inv e (0, some, ap not (none 0 some))

    reach-Inv : {s : System} → Reach coalesce n_waiters s → Inv n_waiters s
    reach-Inv Reach.start = record {
      waiters_in = sym (count_none is_counted n_waiters (λ i. running) (λ i. refl));
      waiter_ok = λ i l. early_ok new_count false (λ j. idle) running refl (omega arith);
      flag_seen = λ p. absurd (ground (arith, p));
      ready_seen = λ r. absurd (ground (arith, r));
    }
    reach-Inv (Reach.step r small st) = step-Inv (reach-Inv r) small st

  module _ (coalesce : Bool) (fits : n_waiters < 2 ^ 32) where
    -- For fewer than 2^32 waiters, with or without coalescing, as long as the epoch has not gone
    -- round: whenever the condition holds and a waiter is asleep, some notifier is still in
    -- `notify_one`, or some waiter will look at the condition before it next sleeps: it is not
    -- asleep, and if it is past its look it will not sleep on its key, which the epoch has left.
    pub none_sleeps_through :
        {s : System}
        → Reach coalesce n_waiters s
        → s.ready ≡ true
        → SomeOf is_asleep n_waiters s.waiter
        → Some is_busy s.notifier ⊎ SomeOf (will_look s.count.epoch) n_waiters s.waiter
    unfolding will_look
    none_sleeps_through {s} r ready (i, lt, a) =
        let inv = reach-Inv coalesce fits (omega (arith, lt)) r in
        elim (inv.ready_seen ready (i, lt, a)) [
          | inl busy ↦ inl busy
          | inr (k, l, up) ↦ by_place k l (s.waiter k) refl up inv
        ]
      where
        busy_of : (v : Notifier) → is_early v ≡ true → is_busy v ≡ true
        busy_of v e = ground arith

        down : (w : Waiter) → is_up w ≡ false → is_up w ≡ true → ⊥
        down w e e' = ground arith

        by_place :
            (k : ℕ)
            → k < n_waiters
            → (w : Waiter) → s.waiter k ≡ w
            → is_up (s.waiter k) ≡ true
            → Inv n_waiters s
            → Some is_busy s.notifier ⊎ SomeOf (will_look s.count.epoch) n_waiters s.waiter
        by_place k l (waiting key) at up inv = elim (Bool-cases (key == s.count.epoch)) [
          | inr left ↦ inr (k, l, ap (will_look s.count.epoch) at ∙ ground arith)
          | inl same ↦
              let ok = ok_at s k (waiting key) inv l at in
              let (j, early) = ok.miss_early refl (ground arith) ready in
              inl (j, busy_of (s.notifier j) early)
        ]
        by_place k l (asleep key) at up inv = absurd (down (s.waiter k) (ap is_up at) up)
        by_place k l running at up inv = inr (k, l, ap (will_look s.count.epoch) at)
        by_place k l (keyed key) at up inv = inr (k, l, ap (will_look s.count.epoch) at)
        by_place k l (announced key) at up inv = inr (k, l, ap (will_look s.count.epoch) at)
        by_place k l (watching key) at up inv = inr (k, l, ap (will_look s.count.epoch) at)
        by_place k l awake at up inv = inr (k, l, ap (will_look s.count.epoch) at)
        by_place k l leaving at up inv = inr (k, l, ap (will_look s.count.epoch) at)

    -- In the same runs, a waiter asleep while the condition holds sleeps on an epoch that has moved,
    -- or some notifier that has published has yet to move it.
    pub sleeper_notified :
        {s : System} (i key : ℕ)
        → Reach coalesce n_waiters s
        → s.ready ≡ true
        → i < n_waiters
        → s.waiter i ≡ asleep key
        → (key < s.count.epoch) ⊎ Some is_early s.notifier
    sleeper_notified {s} i key r ready lt at =
        let ok = ok_at s i (asleep key) (reach-Inv coalesce fits (omega (arith, lt)) r) lt at in
        elim (Bool-cases (key == s.count.epoch)) [
          | inl e ↦ inr (ok.miss_early refl (ground arith) ready)
          | inr e ↦ inl (ground (arith, ok.key_in))
        ]
