-- ===== src/Mpmc/Rounds.antt =====
-- mpmc-work-queue-kata/cpp/src/mpmc_queue.hpp and sharded_queue.hpp: the rounds that the blocking
-- calls of both queues are made of. What other threads do within a round is a function for each
-- place where they may run; what the clock says and what `wait` finds are given with it.
pub mod Ends
use principal_katas.Prelude.{
  ℕ, ◌+◌, min, Bool, true, false, Option, none, some, List, add64, if◌then◌else◌,
}
use principal_katas.Mpmc.Api.{Push, OpStats}
use principal_katas.Mpmc.EventCount.{Sight}

-- What a call returns, with its counts and the queue that it leaves.
pub record Outcome (R Q : Type 0) : Type 0 where
  pub result : R
  pub stats : OpStats
  pub queue : Q

-- `++st.wakes` and `++st.backstops`, if so
abbrev pub woken : Bool → OpStats → OpStats
woken b st = if b then record st { wakes = add64 st.wakes 1 } else st

abbrev pub backed : Bool → OpStats → OpStats
backed b st = if b then record st { backstops = add64 st.backstops 1 } else st

-- where, within a call, other threads may run
pub data Place : Type 0 where
  publishing spinning looking draining yielding entering publishing_again checking retrying
        sleeping :
      Place

pub record Round (Q : Type 0) : Type 0 where
  pub others : Place → Q → Q
  pub now : ℕ
  pub late : ℕ  -- the clock after the wait
  pub sights : List Sight

-- a call that goes on with what another returns, if that one returns
unfoldable pub and_then {ℓ} : {B C : Type ℓ} → Option B → (B → Option C) → Option C
and_then none f = none
and_then (some b) f = f b

-- the second if the first is full
unfoldable pub unless_full {ℓ} : {B : Type ℓ} → Push → B → B → B
unless_full Push.full b b' = b'
unless_full Push.ok b b' = b
unless_full Push.closed b b' = b
unless_full Push.timeout b b' = b

-- How a round of `push` ends, by what its two tries say, whether the clock is at `until`, and how
-- its wait ends.
unfoldable pub round_end {ℓ} :
    {B : Type ℓ} → Push → Push → B → B → B → Bool → Option Bool → Option B → Option B
unfolding unless_full
round_end r r' b b' b'' late w rest = unless_full r (some b) (
    unless_full r' (some b') (if late then some b'' else elim w [ none ↦ none | some woke ↦ rest ]))

-- How `pop` goes on, by what a try has taken; how it ends once it has seen a close; and how it ends
-- when it has not, by a last try, a last look for a close, the clock and its wait.
module _ {ℓ} {B : Type ℓ} where
  unfoldable pub found_or : {A : Type 0} → Option A → (A → B) → Option B → Option B
  found_or none f other = other
  found_or (some v) f other = some (f v)

  unfoldable pub closed_end : Bool → Bool → B → B → Option B → Option B
  closed_end finished late b b' again = if finished then some b else if late then some b' else again

  unfoldable pub park_end :
      Bool → Bool → B → Option Bool → Option B → Option B → Option B → Option B
  park_end closed late b w retry rest rest_late =
      if closed
      then retry
      else if late
      then some b
      else elim w [ none ↦ none | some woke ↦ if woke then rest else rest_late ]

  unfoldable pub after_look : Bool → Option B → Option B → Option B
  after_look closed ended parks = if closed then ended else parks

-- `std::min(until, now + backstop_)`
abbrev pub wake_by : ℕ → ℕ → ℕ → ℕ
wake_by until backstop now = min until (now + backstop)
