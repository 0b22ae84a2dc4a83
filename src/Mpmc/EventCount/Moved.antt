-- ===== src/Mpmc/EventCount/Moved.antt =====
-- The invariant of the waiters and notifiers, and how it is kept when one thread moves.
use principal_katas.Prelude.{
  ℕ, ◌≤◌, ◌<◌, ◌≡◌, ap, ◌∙◌, ◌⊎◌, inl, inr, Bool, true, false, not, put_at, arith,
}
use principal_katas.Mpmc.EventCount.{EventCount}
use principal_katas.Mpmc.EventCount.Threads.{
  Waiter, keyed, announced, watching, waiting, asleep, awake, Notifier, idle, published, counted,
  unmarked, marked, advanced, System, is_asleep, waiter_to, notifier_to,
}
use principal_katas.Mpmc.EventCount.Count.{count, Some, SomeOf, each_put, Some-put, put_same}

abbrev pub is_up : Waiter → Bool
is_up w = not (is_asleep w)

abbrev pub is_counted : Waiter → Bool
is_counted (announced key) = true
is_counted (watching key) = true
is_counted (waiting key) = true
is_counted (asleep key) = true
is_counted awake = true
is_counted w = false

-- past its last look at the condition
abbrev pub has_missed : Waiter → Bool
has_missed (waiting key) = true
has_missed (asleep key) = true
has_missed w = false

-- past the clearing of the flag
abbrev pub has_cleared : Waiter → Bool
has_cleared (watching key) = true
has_cleared w = has_missed w

abbrev pub key_of : Waiter → ℕ
key_of (keyed key) = key
key_of (announced key) = key
key_of (watching key) = key
key_of (waiting key) = key
key_of (asleep key) = key
key_of w = 0

abbrev pub is_marked : Notifier → Bool
is_marked marked = true
is_marked v = false

-- on its way to `wake_one`
abbrev pub is_waking : Notifier → Bool
is_waking marked = true
is_waking advanced = true
is_waking v = false

-- with its condition published and the epoch still to be advanced
abbrev pub is_early : Notifier → Bool
is_early published = true
is_early counted = true
is_early unmarked = true
is_early marked = true
is_early v = false

abbrev pub is_busy : Notifier → Bool
is_busy idle = false
is_busy v = true

-- What holds of a waiter: a key that is still the epoch's means that no notifier that set the flag
-- after the waiter cleared it, or published after it looked, has advanced the epoch yet.
pub record WaiterOk (ec : EventCount) (ready : Bool) (notifier : ℕ → Notifier) (w : Waiter)
    : Type 0 where
  pub key_in : key_of w ≤ ec.epoch
  pub flag_early :
      has_cleared w ≡ true → key_of w ≡ ec.epoch → ec.pending ≡ true → Some is_marked notifier
  pub miss_early : has_missed w ≡ true → key_of w ≡ ec.epoch → ready ≡ true → Some is_early notifier

module _ (n_waiters : ℕ) where
  pub record Inv (s : System) : Type 0 where
    pub waiters_in : s.count.waiters ≡ count is_counted n_waiters s.waiter
    pub waiter_ok : (i : ℕ) → i < n_waiters → WaiterOk s.count s.ready s.notifier (s.waiter i)
    pub flag_seen :
        s.count.pending ≡ true → Some is_waking s.notifier ⊎ SomeOf is_up n_waiters s.waiter
    pub ready_seen :
        s.ready ≡ true
        → SomeOf is_asleep n_waiters s.waiter
        → Some is_busy s.notifier ⊎ SomeOf is_up n_waiters s.waiter

  module _ (s : System) (inv : Inv s) where
    -- A waiter moves, and stays up; the notifiers and the epoch do not.
    pub waiter_moved :
        (i : ℕ) (w : Waiter) (ec : EventCount)
        → i < n_waiters
        → is_up w ≡ true
        → ec.epoch ≡ s.count.epoch
        → (ec.pending ≡ true → s.count.pending ≡ true)
        → ec.waiters ≡ count is_counted n_waiters (put_at s.waiter i w)
        → WaiterOk ec s.ready s.notifier w
        → Inv (waiter_to s i w ec)
    waiter_moved i w ec lt up same flag n ok = record {
      waiters_in = n;
      waiter_ok =
          each_put (λ k v. k < n_waiters → WaiterOk ec s.ready s.notifier v) s.waiter i w (λ l. ok)
            (λ k l. record {
              key_in = rw same ((inv.waiter_ok k l).key_in);
              flag_early = λ c e p. (inv.waiter_ok k l).flag_early c (e ∙ same) (flag p);
              miss_early = λ c e r. (inv.waiter_ok k l).miss_early c (e ∙ same) r;
            });
      flag_seen = λ p. inr (here i w lt up);
      ready_seen = λ r a. inr (here i w lt up);
    }
      where
        here :
            (i : ℕ) (w : Waiter)
            → i < n_waiters
            → is_up w ≡ true
            → SomeOf is_up n_waiters (put_at s.waiter i w)
        here i w lt up = (i, lt, ap is_up (put_same s.waiter i w) ∙ up)

    -- A notifier moves and leaves the waiters, the condition and the event count.
    pub notifier_moved :
        (j : ℕ) (v : Notifier)
        → (is_marked (s.notifier j) ≡ true → is_marked v ≡ true)
        → (s.count.pending ≡ true
            → Some is_waking (put_at s.notifier j v) ⊎ SomeOf is_up n_waiters s.waiter)
        → ((i : ℕ)
            → i < n_waiters
            → has_missed (s.waiter i) ≡ true
            → key_of (s.waiter i) ≡ s.count.epoch
            → s.ready ≡ true
            → Some is_early (put_at s.notifier j v))
        → (s.ready ≡ true
            → SomeOf is_asleep n_waiters s.waiter
            → Some is_busy (put_at s.notifier j v) ⊎ SomeOf is_up n_waiters s.waiter)
        → Inv (notifier_to s j v s.count)
    notifier_moved j v keep flag early seen = record {
      waiters_in = inv.waiters_in;
      waiter_ok = λ i l. record {
        key_in = (inv.waiter_ok i l).key_in;
        flag_early =
            λ c e p. Some-put is_marked s.notifier j v keep ((inv.waiter_ok i l).flag_early c e p);
        miss_early = early i l;
      };
      flag_seen = flag;
      ready_seen = seen;
    }

    -- The flag is as well seen to when the mover was not on its way to `wake_one`.
    pub flag_kept :
        (j : ℕ) (v : Notifier)
        → is_waking (s.notifier j) ≡ false
        → s.count.pending ≡ true
        → Some is_waking (put_at s.notifier j v) ⊎ SomeOf is_up n_waiters s.waiter
    flag_kept j v e p = elim (inv.flag_seen p) [
      | inl w ↦ inl (Some-put is_waking s.notifier j v (λ t. absurd (ground (arith, e, t))) w)
      | inr u ↦ inr u
    ]

    pub early_kept :
        (i j : ℕ) (v : Notifier)
        → (is_early (s.notifier j) ≡ true → is_early v ≡ true)
        → i < n_waiters
        → has_missed (s.waiter i) ≡ true
        → key_of (s.waiter i) ≡ s.count.epoch
        → s.ready ≡ true
        → Some is_early (put_at s.notifier j v)
    early_kept i j v keep l m e r =
        Some-put is_early s.notifier j v keep ((inv.waiter_ok i l).miss_early m e r)
