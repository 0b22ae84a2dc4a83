-- ===== src/Mpmc/Driver.antt =====
-- mpmc-work-queue-kata/cpp/bench/driver.hpp: what the threads of a run count, how the counts are
-- merged, the checks of every run, and the monitor's timeline. The answers of the queue, the events
-- that it delivers and the clock's readings are arguments. Histograms and rates are left out.
pub mod Producers
pub mod Order
pub mod Consumers
pub mod Checks
pub mod Timeline
use principal_katas.Prelude.{
  ℕ, zero, suc, ◌+◌, ◌-◌, ◌%◌, ◌^◌, Bool, true, false, not, ◌&&◌, ◌||◌, Option, none, some, List,
  [], ◌∷◌, ◌==◌, ltb, leb, max, add64, put_at, if◌then◌else◌,
}
use principal_katas.Mpmc.Api.{Push}
use principal_katas.Mpmc.Event.{Event, Tally, no_tally, add, merge_tally, intact, make_event}

pub record ProducerState : Type 0 where
  pub accepted : Tally
  pub offered : ℕ
  pub rejected : ℕ
  pub refused_closed : ℕ
  pub first_full : ℕ
  pub finished_quota : Bool

abbrev pub new_producer : ProducerState
new_producer = record {
  accepted = no_tally;
  offered = 0;
  rejected = 0;
  refused_closed = 0;
  first_full = 0;
  finished_quota = false;
}

-- `last_seq` is the number of the last event of each producer, if there was one.
pub record ConsumerState : Type 0 where
  pub consumed : Tally
  pub torn : ℕ
  pub disorder : ℕ
  pub t_last : ℕ
  pub last_seq : ℕ → Option ℕ

abbrev pub new_consumer : ConsumerState
new_consumer = record {
  consumed = no_tally;
  torn = 0;
  disorder = 0;
  t_last = 0;
  last_seq = λ p. none;
}

-- `occupancy`
unfoldable pub occupancy : ℕ → ℕ → ℕ
occupancy reserved claimed = if ltb claimed reserved then reserved - claimed else 0

unfoldable pub account : Push → ℕ → ℕ → ℕ → ProducerState → ProducerState
unfolding add make_event
account Push.ok id seq now s = record s {
  offered = add64 s.offered 1;
  accepted = add (make_event id seq now) s.accepted;
}
account Push.closed id seq now s = record s {
  offered = add64 s.offered 1;
  refused_closed = add64 s.refused_closed 1;
}
account Push.full id seq now s = record s {
  offered = add64 s.offered 1;
  rejected = add64 s.rejected 1;
  first_full = if s.first_full == 0 then now else s.first_full;
}
account Push.timeout id seq now s = record s {
  offered = add64 s.offered 1;
  rejected = add64 s.rejected 1;
  first_full = if s.first_full == 0 then now else s.first_full;
}

-- an answer of the queue, with the clock after it
pub record Answer : Type 0 where
  pub result : Push
  pub now : ℕ

-- `if (r == Push::closed) break`
unfoldable pub unless_closed {ℓ} : {B : Type ℓ} → Push → B → B → B
unless_closed Push.closed ended rest = ended
unless_closed Push.ok ended rest = rest
unless_closed Push.full ended rest = rest
unless_closed Push.timeout ended rest = rest

-- The loop of a saturated producer with single pushes, from event `i` on: it ends with its quota,
-- with the answers, or after it is refused as closed.
unfoldable pub produce : ℕ → ℕ → ℕ → List Answer → ProducerState → ProducerState
produce id i quota [] s = s
produce id i zero (a ∷ later) s = s
produce id i (suc left) (a ∷ later) s =
    let s' = account a.result id (i % 2 ^ 32) a.now s in
    let rest = produce id (i + 1) left later s' in unless_closed a.result s' rest

-- the end of the producer's thread
unfoldable pub finish_quota : ℕ → ProducerState → ProducerState
finish_quota events s = record s { finished_quota = not (events == 0) && (s.offered == events) }

-- `last_seq.size()`
abbrev pub n_last : ℕ
n_last = 128

-- `static_cast<int64_t>(ev.seq) <= s.last_seq[ev.producer]`
abbrev pub is_late : ℕ → Option ℕ → Bool
is_late seq none = false
is_late seq (some last) = leb seq last

-- `take`, at the time `t`
unfoldable pub take : ℕ → Event → ConsumerState → ConsumerState
unfolding intact add
take t ev s =
    if not (intact ev) || leb n_last ev.producer
    then record s { t_last = t; torn = add64 s.torn 1 }
    else record s {
      t_last = t;
      consumed = add ev s.consumed;
      disorder = if is_late ev.seq (s.last_seq ev.producer) then add64 s.disorder 1 else s.disorder;
      last_seq = put_at s.last_seq ev.producer (some ev.seq);
    }

-- a delivery, with the clock as it is taken
pub record Delivery : Type 0 where
  pub event : Event
  pub time : ℕ

unfoldable pub take_all : List Delivery → ConsumerState → ConsumerState
take_all [] s = s
take_all (d ∷ later) s = take_all later (take d.time d.event s)

-- What is merged of the threads' states.
pub record RunResult : Type 0 where
  pub accepted : Tally
  pub consumed : Tally
  pub offered : ℕ
  pub rejected : ℕ
  pub refused_closed : ℕ
  pub torn : ℕ
  pub disorder : ℕ
  pub producers_unfinished : ℕ
  pub producers_refused : ℕ
  pub first_full : ℕ
  pub t_end : ℕ

abbrev pub no_result : RunResult
no_result = record {
  accepted = no_tally;
  consumed = no_tally;
  offered = 0;
  rejected = 0;
  refused_closed = 0;
  torn = 0;
  disorder = 0;
  producers_unfinished = 0;
  producers_refused = 0;
  first_full = 0;
  t_end = 0;
}

-- the bodies of the two merging loops
unfoldable pub merge_producer : RunResult → ProducerState → RunResult
unfolding merge_tally
merge_producer out s = record out {
  accepted = merge_tally out.accepted s.accepted;
  offered = add64 out.offered s.offered;
  rejected = add64 out.rejected s.rejected;
  refused_closed = add64 out.refused_closed s.refused_closed;
  producers_unfinished =
      if s.finished_quota then out.producers_unfinished else add64 out.producers_unfinished 1;
  producers_refused =
      if s.rejected == 0 then out.producers_refused else add64 out.producers_refused 1;
  first_full =
      if not (s.first_full == 0) && ((out.first_full == 0) || ltb s.first_full out.first_full)
      then s.first_full
      else out.first_full;
}

unfoldable pub merge_consumer : RunResult → ConsumerState → RunResult
unfolding merge_tally
merge_consumer out s = record out {
  consumed = merge_tally out.consumed s.consumed;
  torn = add64 out.torn s.torn;
  disorder = add64 out.disorder s.disorder;
  t_end = max out.t_end s.t_last;
}

unfoldable pub merge_producers : RunResult → List ProducerState → RunResult
merge_producers out [] = out
merge_producers out (s ∷ later) = merge_producers (merge_producer out s) later

unfoldable pub merge_consumers : RunResult → List ConsumerState → RunResult
merge_consumers out [] = out
merge_consumers out (s ∷ later) = merge_consumers (merge_consumer out s) later

-- `accepted == consumed`, of two tallies
abbrev pub same_tally : Tally → Tally → Bool
same_tally t t' = (t.n == t'.n) && ((t.a == t'.a) && (t.b == t'.b))

-- `out.exactly_once`, for a run with consumers
unfoldable pub exactly_once : RunResult → Bool
exactly_once out = same_tally out.accepted out.consumed && (out.torn == 0)

-- whether the four checks of `check_run` pass
unfoldable pub check_run : RunResult → Bool
check_run r =
    (r.offered == add64 (add64 r.accepted.n r.rejected) r.refused_closed)
    && ((r.torn == 0) && (exactly_once r && (r.disorder == 0)))

-- `Monitor::Sample`
pub record Sample : Type 0 where
  pub tsc : ℕ
  pub held : ℕ

-- the loops of `peak` and `at`, with the value so far
unfoldable pub peak_from : ℕ → List Sample → ℕ
peak_from m [] = m
peak_from m (x ∷ later) = peak_from (max m x.held) later

unfoldable pub peak : List Sample → ℕ
unfolding peak_from
peak samples = peak_from 0 samples

unfoldable pub held_from : ℕ → ℕ → List Sample → ℕ
held_from v t [] = v
held_from v t (x ∷ later) = let rest = held_from x.held t later in if ltb t x.tsc then v else rest

unfoldable pub held_at : ℕ → List Sample → ℕ
unfolding held_from
held_at t samples = held_from 0 t samples
