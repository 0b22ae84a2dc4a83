-- ===== src/Mpmc/EventCount/Threads.antt =====
-- Waiters and notifiers around one event count, an access of shared memory at a time: the fences of
-- the code make their orders one order. Any waiter may wait again and again, for a condition that
-- notifiers make true before they notify, and that a waiter that finds it true may undo.
use principal_katas.Prelude.{ℕ, ◌+◌, ◌^◌, ◌<◌, ◌≡◌, Bool, true, false, put_at}
use principal_katas.Mpmc.EventCount.{EventCount, new_count, announce, deregister, clear, advance}

-- where a waiter is, with its key
pub data Waiter : Type 0 where
  running : Waiter
  keyed : ℕ → Waiter  -- `prepare_wait` has read the epoch
  announced : ℕ → Waiter  -- and counted it
  watching : ℕ → Waiter  -- and cleared the flag: the last look at the condition is next
  waiting : ℕ → Waiter  -- at the top of the loop of `wait`
  asleep : ℕ → Waiter  -- in `wait_on`
  awake : Waiter  -- out of the loop
  leaving : Waiter  -- and no longer counted

-- where a notifier is, in `notify_one`
pub data Notifier : Type 0 where
  idle : Notifier
  published : Notifier  -- the condition holds
  counted : Notifier  -- it has seen a waiter
  unmarked : Notifier  -- it has seen no wake on its way
  marked : Notifier  -- its wake is on its way
  advanced : Notifier  -- `wake_one` is next

pub record System : Type 0 where
  pub count : EventCount
  pub ready : Bool
  pub waiter : ℕ → Waiter
  pub notifier : ℕ → Notifier

abbrev pub at_rest : System
at_rest = record { count = new_count; ready = false; waiter = λ i. running; notifier = λ j. idle }

abbrev pub is_asleep : Waiter → Bool
is_asleep (asleep key) = true
is_asleep w = false

module _ (s : System) where
  -- a waiter, or a notifier, at its next place, with the event count as it leaves it
  abbrev pub waiter_to : ℕ → Waiter → EventCount → System
  waiter_to i w ec = record s { count = ec; waiter = put_at s.waiter i w }

  abbrev pub notifier_to : ℕ → Notifier → EventCount → System
  notifier_to j v ec = record s { count = ec; notifier = put_at s.notifier j v }

module _ (coalesce : Bool) (n_waiters : ℕ) where
  -- Wherever `wait_on` returns, and whyever, the loop looks at the epoch again.
  pub data Step (s : System) : System → Type 0 where
    take :
        (i : ℕ) (more : Bool)
        → i < n_waiters
        → s.waiter i ≡ running
        → s.ready ≡ true
        → Step s (record s { ready = more })
    read_key :
        (i : ℕ)
        → i < n_waiters
        → s.waiter i ≡ running
        → Step s (waiter_to s i (keyed s.count.epoch) s.count)
    enter :
        (i key : ℕ)
        → i < n_waiters
        → s.waiter i ≡ keyed key
        → Step s (waiter_to s i (announced key) (announce s.count))
    enter_clear :
        (i key : ℕ)
        → i < n_waiters
        → s.waiter i ≡ announced key
        → Step s (waiter_to s i (watching key) (clear s.count))
    find :
        (i key : ℕ)
        → i < n_waiters
        → s.waiter i ≡ watching key
        → Step s (waiter_to s i running (deregister s.count))
    miss :
        (i key : ℕ)
        → i < n_waiters
        → s.waiter i ≡ watching key
        → s.ready ≡ false
        → Step s (waiter_to s i (waiting key) s.count)
    sleep :
        (i key : ℕ)
        → i < n_waiters
        → s.waiter i ≡ waiting key
        → s.count.epoch ≡ key
        → Step s (waiter_to s i (asleep key) s.count)
    return :
        (i key : ℕ)
        → i < n_waiters
        → s.waiter i ≡ asleep key
        → Step s (waiter_to s i (waiting key) s.count)
    leave :
        (i key : ℕ)
        → i < n_waiters
        → s.waiter i ≡ waiting key
        → Step s (waiter_to s i awake s.count)
    leave_count :
        (i : ℕ)
        → i < n_waiters
        → s.waiter i ≡ awake
        → Step s (waiter_to s i leaving (deregister s.count))
    leave_clear :
        (i : ℕ)
        → i < n_waiters
        → s.waiter i ≡ leaving
        → Step s (waiter_to s i running (clear s.count))
    publish :
        (j : ℕ)
        → s.notifier j ≡ idle
        → Step s (record s { ready = true; notifier = put_at s.notifier j published })
    see_none :
        (j : ℕ)
        → s.notifier j ≡ published
        → s.count.waiters ≡ 0
        → Step s (notifier_to s j idle s.count)
    see_some : (j : ℕ) → s.notifier j ≡ published → Step s (notifier_to s j counted s.count)
    see_mark :
        (j : ℕ)
        → coalesce ≡ true
        → s.notifier j ≡ counted
        → s.count.pending ≡ true
        → Step s (notifier_to s j idle s.count)
    see_no_mark :
        (j : ℕ)
        → coalesce ≡ true
        → s.notifier j ≡ counted
        → Step s (notifier_to s j unmarked s.count)
    mark_late :
        (j : ℕ)
        → s.notifier j ≡ unmarked
        → s.count.pending ≡ true
        → Step s (notifier_to s j idle s.count)
    mark :
        (j : ℕ)
        → s.notifier j ≡ unmarked
        → Step s (notifier_to s j marked (record s.count { pending = true }))
    move_on : (j : ℕ) → s.notifier j ≡ marked → Step s (notifier_to s j advanced (advance s.count))
    move_plain :
        (j : ℕ)
        → coalesce ≡ false
        → s.notifier j ≡ counted
        → Step s (notifier_to s j advanced (advance s.count))
    wake :
        (i j key : ℕ)
        → i < n_waiters
        → s.notifier j ≡ advanced
        → s.waiter i ≡ asleep key
        → Step s (record s {
          waiter = put_at s.waiter i (waiting key);
          notifier = put_at s.notifier j idle;
        })
    wake_nobody :
        (j : ℕ)
        → s.notifier j ≡ advanced
        → ((i : ℕ) → i < n_waiters → is_asleep (s.waiter i) ≡ false)
        → Step s (notifier_to s j idle s.count)

  -- What can be reached, while the epoch has not gone round.
  pub data Reach : System → Type 0 where
    start : Reach at_rest
    step : {s s' : System} → Reach s → s.count.epoch + 1 < 2 ^ 32 → Step s s' → Reach s'
