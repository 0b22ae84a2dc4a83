-- ===== src/Mpmc/Tests/Queues.antt =====
-- Runs of the sharded queue, and of the calls of the turnstile queue, at small sizes.
use principal_katas.Prelude.{
  ℕ, ◌≤◌, ◌<◌, ◌≡◌, refl, ◌⊎◌, true, Option, some, List, [], ◌∷◌, ◌++◌, arith, ◌==◌, length,
  if◌then◌else◌,
}
use principal_katas.Mpmc.Api.{Pop, no_stats}
use principal_katas.Mpmc.Rounds.{Round, Outcome, and_then, found_or, after_look, park_end}
use principal_katas.Mpmc.Sharded.{Queue, new_ring, new_queue, is_closed, commit, close_ring}
use principal_katas.Mpmc.Sharded.Calls.{owned, ring_of, try_pop, any_closed}
use principal_katas.Mpmc.Sharded.Blocking as Sharded
use principal_katas.Mpmc.Sharded.Valid.{IsValid, contents}
use principal_katas.Mpmc.Sharded.Lane.{Lane, begin, Step, Reach}
use principal_katas.Mpmc.Sharded.Lossless.{lane_lossless, shut_accepts_none}
use principal_katas.Mpmc.Sharded.Turns.{distance}
use principal_katas.Mpmc.Sharded.Robin.{served_or_nearer}
use principal_katas.Mpmc.Sharded.Drained.{PopSound, sharded-PopSound}
use principal_katas.Mpmc.Turnstile as Turnstile
use principal_katas.Mpmc.Turnstile.Valid as Turnstile_valid
use principal_katas.Mpmc.Turnstile.Calls as Calls
use principal_katas.Mpmc.Turnstile.Calls.{Shared, Turn, default_options, new_shared}
use principal_katas.Mpmc.Turnstile.Quiet.{quiet_tries, skim}
use principal_katas.Mpmc.Turnstile.Alone.{try_pop_returns}
use principal_katas.Mpmc.Turnstile.Consumer as Blocking
use principal_katas.Mpmc.Turnstile.Answers as Answers

abbrev blank : ℕ → ℕ
blank i = 0

-- one ring of two slots: a push, a pop, and a close between the read of the slot and the store of
-- the head
abbrev lane_run : (s : Lane ℕ) × Reach 2 blank s × (is_closed s.ring.tail ≡ true)
unfolding commit close_ring
lane_run = (
  _,
  Reach.step
      (Reach.step
        (Reach.step
          (Reach.step
            (Reach.step
              (Reach.step
                (Reach.step (Reach.step Reach.start (omega arith) (Step.begins 7 refl))
                  (omega arith) (Step.looks 0 7 refl))
                (omega arith) (Step.writes 0 7 refl))
              (omega arith) (Step.finishes 0 7 refl))
            (omega arith) (Step.finds refl))
          (omega arith) (Step.copies refl))
        (omega arith) Step.shuts)
      (omega arith) (Step.frees 7 refl),
  refl,
)

lane_lossless_example :
    ((lane_run.0).accepted ≡ (lane_run.0).delivered ++ contents 2 (lane_run.0).ring)
    × (length (contents 2 (lane_run.0).ring) ≤ 2)
lane_lossless_example = lane_lossless 2 (omega arith) blank (omega arith) lane_run.1

shut_accepts_none_example :
    ((begin 2 8 lane_run.0).accepted ≡ (lane_run.0).accepted)
    × (is_closed (begin 2 8 lane_run.0).ring.tail ≡ true)
unfolding commit close_ring
shut_accepts_none_example =
    shut_accepts_none 2 (omega arith) blank (omega arith) lane_run.1 lane_run.2 (Step.begins 8 refl)

-- two producers and one consumer; the ring of producer 1 holds an event
abbrev one_ring_full : Queue ℕ
one_ring_full =
    let q : Queue ℕ = new_queue (λ p. blank) in
    record q {
      rings = λ p. if p == 1 then record (new_ring blank) { tail = 2 } else new_ring blank;
    }

one_ring_full-IsValid : (j : ℕ) → IsValid 2 (one_ring_full.rings j)
one_ring_full-IsValid j = ground arith

served_or_nearer_example :
    (v : ℕ) × (k : ℕ) × ((try_pop 2 2 1 0 no_stats one_ring_full).result ≡ some v)
    × (k < owned 2 1)
    × (contents 2 (one_ring_full.rings (ring_of 1 0 k))
        ≡ v ∷ contents 2 ((try_pop 2 2 1 0 no_stats one_ring_full).queue.rings (ring_of 1 0 k)))
    × ((k ≡ 1)
        ⊎ (distance (owned 2 1) ((try_pop 2 2 1 0 no_stats one_ring_full).queue.consumers 0).next 1
            < distance (owned 2 1) 0 1))
served_or_nearer_example =
    served_or_nearer 2 2 1 (omega arith) 0 1 no_stats one_ring_full one_ring_full-IsValid
      (omega arith) (ground arith) (omega arith)

-- a round in which no other thread runs, and whose clock is at 5
abbrev quiet_round : {Q : Type 0} → Round Q
quiet_round = record { others = λ p q. q; now = 5; late = 5; sights = [] }

-- a round that waits, and finds the clock at its own deadline, 8
abbrev waiting_round : {Q : Type 0} → Round Q
waiting_round = record {
  others = λ p q. q;
  now = 5;
  late = 8;
  sights = record { epoch = 0; now = 8 } ∷ [];
}

abbrev late_round : {Q : Type 0} → Round Q
late_round = record { others = λ p q. q; now = 9; late = 9; sights = [] }

-- the same ring, popped, and then closed
abbrev timeout_run :
    (o : Outcome (Pop × Option ℕ) (Queue ℕ)) × (Sharded.pop 2 2 1 3
        (quiet_round ∷ [])
        5
        0
        no_stats
        (new_queue (λ p. blank))
      ≡ some o)
unfolding Sharded.pop found_or try_pop after_look any_closed park_end
timeout_run = (_, refl)

sharded-PopSound_example : PopSound 2 2 1 5 3 0 (quiet_round ∷ []) timeout_run.0
sharded-PopSound_example =
    sharded-PopSound 2 2 1 3 5 0 (quiet_round ∷ []) no_stats (new_queue (λ p. blank)) timeout_run.0
      timeout_run.1

-- the turnstile queue, with four empty slots
abbrev idle_queue : Shared ℕ
idle_queue = new_shared blank

try_pop_returns_example :
    (a : Outcome (Option ℕ) (Shared ℕ)) × (Calls.try_pop default_options 4
        (quiet_tries 1)
        no_stats
        idle_queue
      ≡ some a)
    × (a.result ≡ skim 4 1 idle_queue.queue 0)
try_pop_returns_example =
    try_pop_returns default_options 4 (omega arith) no_stats idle_queue
      (Turnstile_valid.new_queue-IsValid 4 (omega arith) blank) (omega arith)

abbrev one_turn : List (Turn ℕ)
one_turn = record { round = quiet_round; tries = λ p. quiet_tries 1 } ∷ []

abbrev late_pop :
    (a : Outcome (Pop × Option ℕ) (Shared ℕ)) × (Blocking.pop default_options 4 3 one_turn 5
        no_stats idle_queue
      ≡ some a)
unfolding Blocking.pop and_then Calls.try_pop Calls.pop_loop Turnstile.pop_look Turnstile.pop_claim
    found_or after_look Blocking.park_round park_end
late_pop = (_, refl)

pop_sound_example : Answers.PopSound 5 one_turn late_pop.0
pop_sound_example =
    Answers.pop_sound default_options 4 3 5 one_turn no_stats idle_queue late_pop.0
      ((λ s c. refl), omega arith) late_pop.1
