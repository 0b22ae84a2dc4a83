-- ===== src/Mpmc/Tests/Wakes.antt =====
-- A run of one waiter and one notifier, until the waiter is asleep and the notifier is on its way.
use principal_katas.Prelude.{◌≡◌, refl, ◌⊎◌, true, arith}
use principal_katas.Mpmc.EventCount.Threads.{System, is_asleep, Step, Reach}
use principal_katas.Mpmc.EventCount.Count.{Some, SomeOf}
use principal_katas.Mpmc.EventCount.Moved.{is_busy}
use principal_katas.Mpmc.EventCount.Awake.{will_look, none_sleeps_through}

-- the waiter asleep on epoch 0, and then the condition published
abbrev asleep_run : (s : System) × Reach true 1 s × (s.ready ≡ true) × SomeOf is_asleep 1 s.waiter
asleep_run = (
  _,
  Reach.step
      (Reach.step
        (Reach.step
          (Reach.step
            (Reach.step (Reach.step Reach.start (omega arith) (Step.read_key 0 (omega arith) refl))
              (omega arith) (Step.enter 0 0 (omega arith) refl))
            (omega arith) (Step.enter_clear 0 0 (omega arith) refl))
          (omega arith) (Step.miss 0 0 (omega arith) refl refl))
        (omega arith) (Step.sleep 0 0 (omega arith) refl refl))
      (omega arith) (Step.publish 0 refl),
  refl,
  (0, omega arith, refl),
)

none_sleeps_through_example :
    Some is_busy (asleep_run.0).notifier
    ⊎ SomeOf (will_look (asleep_run.0).count.epoch) 1 (asleep_run.0).waiter
none_sleeps_through_example =
    none_sleeps_through 1 true (omega arith) asleep_run.1 asleep_run.2 asleep_run.3
