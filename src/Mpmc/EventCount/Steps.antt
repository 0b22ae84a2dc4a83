-- ===== src/Mpmc/EventCount/Steps.antt =====
-- How the steps of a notifier keep the invariant of the waiters and notifiers.
use principal_katas.Prelude.{
  ℕ, ◌+◌, ◌^◌, ◌<◌, ◌≡◌, refl, ap, inl, inr, Bool, true, false, put_at, arith,
}
use principal_katas.Mpmc.EventCount.{advance}
use principal_katas.Mpmc.EventCount.Threads.{
  Waiter, Notifier, idle, published, marked, advanced, System, is_asleep, notifier_to,
}
use principal_katas.Mpmc.EventCount.Count.{count_pos, SomeOf, Some-put, Some-new}
use principal_katas.Mpmc.EventCount.Moved.{
  is_up, is_counted, has_missed, has_cleared, is_marked, is_waking, is_early, is_busy, Inv,
  notifier_moved, flag_kept, early_kept,
}

module _ (n_waiters : ℕ) where
  -- a waiter past its last look has been counted
  missed_counted : (w : Waiter) → has_missed w ≡ true → is_counted w ≡ true
  missed_counted w m = ground arith

  missed_cleared : (w : Waiter) → has_missed w ≡ true → has_cleared w ≡ true
  missed_cleared w m = ground arith

  marked_early : (v : Notifier) → is_marked v ≡ true → is_early v ≡ true
  marked_early v m = ground arith

  waking_busy : (v : Notifier) → is_waking v ≡ true → is_busy v ≡ true
  waking_busy v m = ground arith

  asleep_missed : (w : Waiter) → is_asleep w ≡ true → has_missed w ≡ true
  asleep_missed w m = ground arith

  nobody_counted :
      (s : System) (i : ℕ)
      → Inv n_waiters s
      → s.count.waiters ≡ 0
      → i < n_waiters
      → has_missed (s.waiter i) ≡ true
      → ⊥
  nobody_counted s i inv z lt m = omega (
    arith,
    inv.waiters_in,
    count_pos is_counted n_waiters i s.waiter lt (missed_counted (s.waiter i) m),
  )

  -- the flag is set, so a notifier may go: another is on its way, or a waiter is up
  pub flagged-Inv :
      (s : System) (j : ℕ)
      → Inv n_waiters s
      → is_marked (s.notifier j) ≡ false
      → is_waking (s.notifier j) ≡ false
      → s.count.pending ≡ true
      → Inv n_waiters (notifier_to s j idle s.count)
  flagged-Inv s j inv e f p =
      let flag = flag_kept n_waiters s inv j idle f p in
      notifier_moved n_waiters s inv j idle (λ t. absurd (ground (arith, e, t))) (λ q. flag)
        (λ i l m k r.
          let (j', t) =
            Some-put is_marked s.notifier j idle (λ u. absurd (ground (arith, e, u)))
              ((inv.waiter_ok i l).flag_early (missed_cleared (s.waiter i) m) k p) in
          (j', marked_early (put_at s.notifier j idle j') t))
        (λ r a. elim flag [
          | inl (j', t) ↦ inl (j', waking_busy (put_at s.notifier j idle j') t)
          | inr u ↦ inr u
        ])

  pub publish-Inv :
      (s : System) (j : ℕ)
      → Inv n_waiters s
      → s.notifier j ≡ idle
      → Inv n_waiters (record s { ready = true; notifier = put_at s.notifier j published })
  publish-Inv s j inv e =
      let idle_not : is_marked (s.notifier j) ≡ false = ap is_marked e in
      record {
        waiters_in = inv.waiters_in;
        waiter_ok = λ i l. record {
          key_in = (inv.waiter_ok i l).key_in;
          flag_early = λ c k p.
              Some-put is_marked s.notifier j published (λ t. absurd (ground (arith, idle_not, t)))
                ((inv.waiter_ok i l).flag_early c k p);
          miss_early = λ m k r. Some-new is_early s.notifier j published refl;
        };
        flag_seen = flag_kept n_waiters s inv j published (ap is_waking e);
        ready_seen = λ r a. inl (Some-new is_busy s.notifier j published refl);
      }

  pub mark-Inv :
      (s : System) (j : ℕ)
      → Inv n_waiters s
      → Inv n_waiters (notifier_to s j marked (record s.count { pending = true }))
  mark-Inv s j inv = record {
    waiters_in = inv.waiters_in;
    waiter_ok = λ i l. record {
      key_in = (inv.waiter_ok i l).key_in;
      flag_early = λ c k p. Some-new is_marked s.notifier j marked refl;
      miss_early = λ m k r. Some-new is_early s.notifier j marked refl;
    };
    flag_seen = λ p. inl (Some-new is_waking s.notifier j marked refl);
    ready_seen = λ r a. inl (Some-new is_busy s.notifier j marked refl);
  }

  -- No key is the new epoch's.
  pub advance-Inv :
      (s : System) (j : ℕ)
      → Inv n_waiters s
      → s.count.epoch + 1 < 2 ^ 32
      → Inv n_waiters (notifier_to s j advanced (advance s.count))
  advance-Inv s j inv small = record {
    waiters_in = inv.waiters_in;
    waiter_ok = λ i l.
        let old = (inv.waiter_ok i l).key_in in
        record {
          key_in = ground (arith, old);
          flag_early = λ c k p. absurd (ground (arith, old, k));
          miss_early = λ m k r. absurd (ground (arith, old, k));
        };
    flag_seen = λ p. inl (Some-new is_waking s.notifier j advanced refl);
    ready_seen = λ r a. inl (Some-new is_busy s.notifier j advanced refl);
  }

  -- A notifier leaves when a waiter is up.
  pub done-Inv :
      (s : System) (j : ℕ)
      → Inv n_waiters s
      → s.notifier j ≡ advanced
      → SomeOf is_up n_waiters s.waiter
      → Inv n_waiters (notifier_to s j idle s.count)
  done-Inv s j inv e up =
      notifier_moved n_waiters s inv j idle (λ t. absurd (advanced_not is_marked refl t))
        (λ p. inr up)
        (λ i l m k r.
          early_kept n_waiters s inv i j idle (λ t. absurd (advanced_not is_early refl t)) l m k r)
        (λ r a. inr up)
    where
      advanced_not :
          (test : Notifier → Bool) → test advanced ≡ false → test (s.notifier j) ≡ true → ⊥
      advanced_not test f t = absurd (ground (arith, ap test e, f, t))

  pub see_none-Inv :
      (s : System) (j : ℕ)
      → Inv n_waiters s
      → s.notifier j ≡ published
      → s.count.waiters ≡ 0
      → Inv n_waiters (notifier_to s j idle s.count)
  see_none-Inv s j inv e z =
      let not_marked : is_marked (s.notifier j) ≡ false = ap is_marked e in
      notifier_moved n_waiters s inv j idle (λ t. absurd (ground (arith, not_marked, t)))
        (flag_kept n_waiters s inv j idle (ap is_waking e))
        (λ i l m k r. absurd (nobody_counted s i inv z l m))
        (λ r a.
          let (i, l, t) = a in absurd (nobody_counted s i inv z l (asleep_missed (s.waiter i) t)))

  -- A notifier goes on to a place as busy.
  pub onward-Inv :
      (s : System) (j : ℕ) (v v' : Notifier)
      → Inv n_waiters s
      → s.notifier j ≡ v
      → is_waking v ≡ false
      → is_early v' ≡ true
      → Inv n_waiters (notifier_to s j v' s.count)
  onward-Inv s j v v' inv e calm early =
      let not_waking : is_waking (s.notifier j) ≡ false = rw e calm in
      notifier_moved n_waiters s inv j v' (λ t. absurd (calm_unmarked (s.notifier j) not_waking t))
        (flag_kept n_waiters s inv j v' not_waking)
        (λ i l m k r. Some-new is_early s.notifier j v' early)
        (λ r a. inl (Some-new is_busy s.notifier j v' (early_busy v' early)))
    where
      calm_unmarked : (v : Notifier) → is_waking v ≡ false → is_marked v ≡ true → ⊥
      calm_unmarked v f t = ground (arith, f, t)

      early_busy : (v : Notifier) → is_early v ≡ true → is_busy v ≡ true
      early_busy v m = ground arith
