-- ===== src/Mpsc/Tests.antt =====
-- Runs of the ring and the pipeline at small sizes.
use native.Mathlib.Nat.{dvd-mul_right}
use principal_katas.Prelude.{
  ℕ, ◌+◌, ◌%◌, ◌^◌, ◌≤◌, ◌<◌, ◌≡◌, ◌≢◌, refl, true, inr, ◌⊎◌, ◌||◌, List, [], ◌∷◌, ◌++◌, arith,
  ◌==◌, ltb, add64, length, if◌then◌else◌,
}
use principal_katas.Mpsc.Ring.{Ring, try_push, pop_batch}
use principal_katas.Mpsc.Ring.Valid.{IsCapacity, IsValid}
use principal_katas.Mpsc.Ring.Refine.{contents, try_push_refines, pop_batch_takes}
use principal_katas.Mpsc.Ring.Race.{Action, run, step, new_state, check, write, publish, start}
use principal_katas.Mpsc.Ring.Race.Reach.{race_lossless, race_disjoint}
use principal_katas.Mpsc.Config.{Limits, Config, FullPolicy, ScanPolicy}
use principal_katas.Mpsc.Pipeline.{
  Pipeline, no_bits, new_pipeline, push, register_producer, start as start_pipeline,
}
use principal_katas.Mpsc.Pipeline.Consumer.{drain_ring}
use principal_katas.Mpsc.Pipeline.Stream.{IsLimits, stream}
use principal_katas.Mpsc.Pipeline.Drain.{drain_ring_lem}
use principal_katas.Mpsc.Pipeline.Asleep.{
  Reach, new, next, register, push_event, begin, free_is_drained,
}
use principal_katas.Mpsc.Pipeline.Handshake as Handshake
use principal_katas.Mpsc.Pipeline.Shown.{is_sending, is_calling}
use principal_katas.Mpsc.Pipeline.Woken.{handshake_strands_none}
use principal_katas.Mpsc.Pipeline.Final.{final_drain, enough, final_drain_empties}

abbrev four_ok : IsCapacity 4
four_ok = record { large = omega arith; small = omega arith; divides = dvd-mul_right 4 (2 ^ 62) }

abbrev blank : ℕ → ℕ
blank i = 0

abbrev interleaving : List (Action ℕ)
interleaving = check 7 ∷ write ∷ publish ∷ check 8 ∷ start 3 ∷ write ∷ []

race_lossless_example :
    ((run 4 interleaving (new_state blank)).pushed
      ≡ (run 4 interleaving (new_state blank)).popped
        ++ contents 4 (run 4 interleaving (new_state blank)).ring)
    × (length (contents 4 (run 4 interleaving (new_state blank)).ring) ≤ 4)
race_lossless_example = race_lossless 4 four_ok interleaving blank

race_disjoint_example :
    (run 4 interleaving (new_state blank)).ring.tail % 4
    ≢ ((run 4 interleaving (new_state blank)).ring.head + 0) % 4
unfolding run step
race_disjoint_example =
    race_disjoint 4 four_ok interleaving blank 8 1 0 [] 0 (inr refl) refl (omega arith)

abbrev one_event : Ring ℕ
one_event = record { tail = 1; cached_head = 0; head = 0; cached_tail = 0; slots = λ i. 7 }

one_event-IsValid : IsValid 4 one_event
one_event-IsValid = omega arith

try_push_refines_example :
    ((try_push 4 9 one_event).0 ≡ ltb (length (contents 4 one_event)) 4)
    × (contents 4 (try_push 4 9 one_event).1 ≡ (
        if (try_push 4 9 one_event).0
        then contents 4 one_event ++ 9 ∷ []
        else contents 4 one_event))
try_push_refines_example = try_push_refines 4 four_ok 9 {r = one_event} one_event-IsValid

pop_batch_takes_example :
    (contents 4 one_event ≡ (pop_batch 4 2 one_event).1 ++ contents 4 (pop_batch 4 2 one_event).2)
    × ((pop_batch 4 2 one_event).0 ≡ length (pop_batch 4 2 one_event).1)
    × ((pop_batch 4 2 one_event).0 ≤ 2)
    × ((0 < (pop_batch 4 2 one_event).0) ⊎ (◌≡◌ {A = ℕ} 2 0 ⊎ (contents 4 one_event ≡ [])))
pop_batch_takes_example = pop_batch_takes 4 four_ok 2 {r = one_event} one_event-IsValid

abbrev small_limits : Limits
small_limits = record { max_producers = 2; ring_capacity = 4; drain_batch = 2; stage_events = 2 }

small_limits-IsLimits : IsLimits small_limits
small_limits-IsLimits = record {
  capacity = four_ok;
  some_producers = omega arith;
  some_batch = omega arith;
  some_stage = omega arith;
}

abbrev config : Config
config = record {
  full = FullPolicy.drop_newest;
  scan = ScanPolicy.bitmap;
  spin_before_park = 0;
  push_spin = 3;
}

-- started, with one producer and one event pushed
abbrev begun : Pipeline ℕ
begun = start_pipeline (new_pipeline blank)

abbrev registered : Pipeline ℕ
registered = (register_producer small_limits config begun).1

abbrev pushed : Pipeline ℕ
pushed = (push small_limits config 0 7 registered).1

registered-Reach : Reach small_limits config blank registered
registered-Reach = next (next new begin) register

pushed-Reach : Reach small_limits config blank pushed
unfolding register_producer new_pipeline start_pipeline
pushed-Reach = next registered-Reach (push_event 0 7 refl)

free_is_drained_example : contents 4 (pushed.slots 1).ring ≡ []
unfolding register_producer new_pipeline start_pipeline push try_push
free_is_drained_example =
    free_is_drained small_limits config small_limits-IsLimits refl blank pushed 1 pushed-Reach refl

pushed-IsValid : IsValid 4 (pushed.slots 0).ring
unfolding register_producer new_pipeline start_pipeline push try_push
pushed-IsValid = omega arith

stage_empty : length pushed.staged ≤ 2
unfolding register_producer new_pipeline start_pipeline push try_push
stage_empty = omega arith

drain_ring_lem_example :
    (out : List ℕ) × (contents 4 (pushed.slots 0).ring
      ≡ out ++ contents 4 ((drain_ring small_limits 0 pushed).1.slots 0).ring)
    × (stream (drain_ring small_limits 0 pushed).1 ≡ stream pushed ++ out)
    × ((j : ℕ)
        → (drain_ring small_limits 0 pushed).1.slots j
          ≡ (if 0 == j then (drain_ring small_limits 0 pushed).1.slots 0 else pushed.slots j))
    × ((drain_ring small_limits 0 pushed).0 ≡ length out)
    × ((drain_ring small_limits 0 pushed).0 ≤ 2)
    × ((drain_ring small_limits 0 pushed).1.consumed
        ≡ add64 pushed.consumed (drain_ring small_limits 0 pushed).0)
    × (((drain_ring small_limits 0 pushed).0 ≡ 2)
        ⊎ (contents 4 ((drain_ring small_limits 0 pushed).1.slots 0).ring ≡ []))
drain_ring_lem_example =
    drain_ring_lem small_limits small_limits-IsLimits 0 pushed pushed-IsValid (stage_empty)

-- the consumer arms and sleeps, and producer 0 publishes an event
abbrev asleep_run :
    (s : Handshake.System ℕ) × Handshake.Reach 4 1 (λ i. blank) s × (s.sweeper ≡ Handshake.sleeping)
unfolding Handshake.after_push Handshake.after_arming no_bits try_push
asleep_run = (
  _,
  Handshake.Reach.next
      (Handshake.Reach.next (Handshake.Reach.next Handshake.Reach.start (Handshake.Step.arm refl))
        (Handshake.Step.look_last refl))
      (Handshake.Step.push 0 7 refl),
  refl,
)

handshake_strands_none_example :
    (contents 4 ((asleep_run.0).rings 0) ≡ [])
    ⊎ ((j : ℕ) × ((is_sending ((asleep_run.0).sender j) || is_calling ((asleep_run.0).sender j))
          ≡ true))
handshake_strands_none_example =
    handshake_strands_none 4 1 four_ok 0 asleep_run.1 asleep_run.2 (omega arith)

-- an event in a ring, when the consumer leaves its loop
final_drain_empties_example :
    let (ended, p') = final_drain small_limits (enough small_limits pushed) pushed in
    (ended ≡ true) × (p'.staged ≡ []) × ((i : ℕ) → i < 2 → contents 4 (p'.slots i).ring ≡ [])
final_drain_empties_example =
    final_drain_empties small_limits config small_limits-IsLimits refl blank pushed pushed-Reach
