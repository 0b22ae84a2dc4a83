-- ===== src/Mpmc/EventCount.antt =====
-- mpmc-work-queue-kata/cpp/src/eventcount.hpp: `BasicEventCount<Coalesce>` (child Epoch has
-- `EpochWake`). The waits and wakes of the platform are what a call returns beside its result, and
-- what `wait` finds each time that it looks.
pub mod Threads
pub mod Count
pub mod Moved
pub mod Waiters
pub mod Steps
pub mod Awake
pub mod Epoch
pub mod Alone
use principal_katas.Prelude.{
  ℕ, ◌+◌, ◌-◌, ◌^◌, Bool, true, false, not, ◌&&◌, Option, none, some, List, [], ◌∷◌, ◌==◌, leb, u32,
  if◌then◌else◌,
}

pub record EventCount : Type 0 where
  pub waiters : ℕ
  pub pending : Bool
  pub epoch : ℕ

abbrev pub new_count : EventCount
new_count = record { waiters = 0; pending = false; epoch = 0 }

-- `wake_one(epoch_)` and `wake_all(epoch_)`, if the call makes one
pub data Wakes : Type 0 where
  nobody one everyone : Wakes

-- What `wait` finds as it looks: the epoch, then the clock.
pub record Sight : Type 0 where
  pub epoch : ℕ
  pub now : ℕ

-- `waiters_.fetch_add(1)`, `waiters_.fetch_sub(1)`, `pending_.store(false)`, `epoch_.fetch_add(1)`
abbrev pub announce : EventCount → EventCount
announce ec = record ec { waiters = u32 (ec.waiters + 1) }

abbrev pub deregister : EventCount → EventCount
deregister ec = record ec { waiters = u32 (ec.waiters + (2 ^ 32 - 1)) }

abbrev pub clear : EventCount → EventCount
clear ec = record ec { pending = false }

abbrev pub advance : EventCount → EventCount
advance ec = record ec { epoch = u32 (ec.epoch + 1) }

unfoldable pub prepare_wait : EventCount → ℕ × EventCount
prepare_wait ec = (ec.epoch, clear (announce ec))

unfoldable pub cancel_wait : EventCount → EventCount
cancel_wait ec = deregister ec

-- The loop of `wait`: false at `until` with the epoch never having moved; nothing while it sleeps.
unfoldable pub wait_loop : ℕ → ℕ → List Sight → Option Bool
wait_loop key until [] = none
wait_loop key until (s ∷ later) =
    let rest = wait_loop key until later in
    if not (s.epoch == key) then some true else if leb until s.now then some false else rest

-- `wait`, over the event count as it is when the loop is over
unfoldable pub wait : ℕ → ℕ → List Sight → EventCount → Option (Bool × EventCount)
unfolding wait_loop
wait key until sights ec = elim (wait_loop key until sights) [
  | none ↦ none
  | some woke ↦ some (woke, clear (deregister ec))
]

module _ (coalesce : Bool) where
  unfoldable pub notify_one : EventCount → Bool × Wakes × EventCount
  notify_one ec =
      if ec.waiters == 0
      then (false, nobody, ec)
      else if coalesce && ec.pending
      then (false, nobody, ec)
      else (true, one, advance (if coalesce then record ec { pending = true } else ec))

unfoldable pub notify_all_if_waiting : EventCount → Bool × Wakes × EventCount
notify_all_if_waiting ec =
    if ec.waiters == 0 then (false, nobody, ec) else (true, everyone, advance ec)

unfoldable pub notify_all : EventCount → Wakes × EventCount
notify_all ec = (everyone, advance ec)
