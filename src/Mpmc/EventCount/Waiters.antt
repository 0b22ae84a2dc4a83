-- ===== src/Mpmc/EventCount/Waiters.antt =====
-- How the steps of a waiter keep the invariant of the waiters and notifiers.
use principal_katas.Prelude.{
  ℕ, ◌^◌, ◌<◌, ◌≡◌, refl, sym, ap, subst, inl, inr, Bool, true, false, put_at, arith,
}
use principal_katas.Mpmc.EventCount.{announce, deregister}
use principal_katas.Mpmc.EventCount.Threads.{
  Waiter, running, waiting, asleep, Notifier, System, waiter_to,
}
use principal_katas.Mpmc.EventCount.Count.{count, count_le, count-put, each_put}
use principal_katas.Mpmc.EventCount.Moved.{
  is_up, is_counted, is_marked, is_waking, is_early, is_busy, WaiterOk, Inv,
}

module _ (n_waiters : ℕ) where
  -- how the number of waiters follows the waiter that moves
  pub number_kept :
      (s : System) (i : ℕ) (w : Waiter)
      → Inv n_waiters s
      → i < n_waiters
      → is_counted w ≡ is_counted (s.waiter i)
      → s.count.waiters ≡ count is_counted n_waiters (put_at s.waiter i w)
  number_kept s i w inv lt e =
      ground (arith, inv.waiters_in, count-put is_counted n_waiters i s.waiter w lt, e)

  module _ (fits : n_waiters < 2 ^ 32) where
    pub number_up :
        (s : System) (i : ℕ) (w : Waiter)
        → Inv n_waiters s
        → i < n_waiters
        → is_counted (s.waiter i) ≡ false
        → is_counted w ≡ true
        → (announce s.count).waiters ≡ count is_counted n_waiters (put_at s.waiter i w)
    number_up s i w inv lt e f = ground (
      arith,
      inv.waiters_in,
      count-put is_counted n_waiters i s.waiter w lt,
      count_le is_counted n_waiters (put_at s.waiter i w),
      e,
      f,
    )

    pub number_down :
        (s : System) (i : ℕ) (w : Waiter)
        → Inv n_waiters s
        → i < n_waiters
        → is_counted (s.waiter i) ≡ true
        → is_counted w ≡ false
        → (deregister s.count).waiters ≡ count is_counted n_waiters (put_at s.waiter i w)
    number_down s i w inv lt e f = ground (
      arith,
      inv.waiters_in,
      count-put is_counted n_waiters i s.waiter w lt,
      count_le is_counted n_waiters s.waiter,
      e,
      f,
    )

  pub take-Inv :
      (s : System) (i : ℕ) (more : Bool)
      → Inv n_waiters s
      → i < n_waiters
      → s.waiter i ≡ running
      → s.ready ≡ true
      → Inv n_waiters (record s { ready = more })
  take-Inv s i more inv lt at r = record {
    waiters_in = inv.waiters_in;
    waiter_ok = λ k l. record {
      key_in = (inv.waiter_ok k l).key_in;
      flag_early = (inv.waiter_ok k l).flag_early;
      miss_early = λ m e p. (inv.waiter_ok k l).miss_early m e r;
    };
    flag_seen = inv.flag_seen;
    ready_seen = λ p a. inr (i, lt, ap is_up at);
  }

  pub sleep-Inv :
      (s : System) (i key : ℕ)
      → Inv n_waiters s
      → i < n_waiters
      → s.waiter i ≡ waiting key
      → s.count.epoch ≡ key
      → Inv n_waiters (waiter_to s i (asleep key) s.count)
  sleep-Inv s i key inv lt at e =
      let ok : WaiterOk s.count s.ready s.notifier (waiting key) =
        subst (WaiterOk s.count s.ready s.notifier) at (inv.waiter_ok i lt) in
      record {
        waiters_in = number_kept s i (asleep key) inv lt (sym (ap is_counted at));
        waiter_ok =
            each_put (λ k v. k < n_waiters → WaiterOk s.count s.ready s.notifier v) s.waiter i
              (asleep key)
              (λ l. record {
                key_in = ok.key_in;
                flag_early = ok.flag_early;
                miss_early = ok.miss_early;
              })
              inv.waiter_ok;
        flag_seen = λ p.
            let (j, m) = ok.flag_early refl (sym e) p in inl (j, marked_waking (s.notifier j) m);
        ready_seen = λ r a.
            let (j, m) = ok.miss_early refl (sym e) r in inl (j, early_busy (s.notifier j) m);
      }
    where
      marked_waking : (v : Notifier) → is_marked v ≡ true → is_waking v ≡ true
      marked_waking v m = ground arith

      early_busy : (v : Notifier) → is_early v ≡ true → is_busy v ≡ true
      early_busy v m = ground arith
