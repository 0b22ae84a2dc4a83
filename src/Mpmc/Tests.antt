-- ===== src/Mpmc/Tests.antt =====
-- Runs of the queues and the histogram at small sizes.
mod Wakes
mod Queues
mod Runs
use principal_katas.Prelude.{
  ltb, leb, put_at, true, ℕ, ◌+◌, ◌*◌, ◌≤◌, ◌<◌, ◌≡◌, refl, ◌⊎◌, false, ◌||◌, none, some, List, [],
  ◌∷◌, ◌++◌, arith, ◌==◌, length, if◌then◌else◌,
}
use principal_katas.Mpmc.Api.{Push, Pop, no_stats}
use principal_katas.Mpmc.Turnstile.{
  Queue, refused, reserved, Step, new_queue, is_closed, position, seq_of, push_look, push_claim,
  pop_look, pop_claim, push_round, pop_round, take_ticket, pay_ticket, publish, consume,
}
use principal_katas.Mpmc.Turnstile.Valid.{IsValid, InRange, new_queue-IsValid}
use principal_katas.Mpmc.Turnstile.Entries.{entry, hole, answer, paid, reserve-entry, pay-entry}
use principal_katas.Mpmc.Turnstile.Decide.{finish-entry, pop_round_decided, push_round_decided}
use principal_katas.Mpmc.Turnstile.Threads.{System, Move, Reach}
use principal_katas.Mpmc.Turnstile.Owned.{Owned}
use principal_katas.Mpmc.Turnstile.Reached.{reach-Owned}
use principal_katas.Mpmc.Turnstile.Undisturbed.{claim_undisturbed, hold_undisturbed}
use principal_katas.Mpmc.Turnstile.Exclusive.{Kept}
use principal_katas.Mpmc.Locked as Locked
use principal_katas.Mpmc.Locked.{Wake}
use principal_katas.Mpmc.Locked.Valid as Valid
use principal_katas.Mpmc.Locked.Valid.{contents, locked_push_refines, locked_pop_refines}
use principal_katas.Mpmc.Locked.Fifo.{
  Call, Log, push, pop, shut, calls, calls_lossless, PutAll, put_all-PutAll, TakeUpTo,
  take_up_to-TakeUpTo,
}
use principal_katas.Mpmc.Locked.Blocking.{PushDone, push_decided, PopDone, pop_decided}
use principal_katas.Mpmc.Event.{
  Event, make_event, tally, merge_tally, exchange, merge-tally, tally-Reordered,
}
use principal_katas.Mpmc.Histogram.Edges.{index-upper}
use principal_katas.Mpmc.Histogram.Quantile.{recorded, how_many, quantile_covers}
use principal_katas.Mpmc.Histogram.{quantile, index, upper, bucket_count}
use principal_katas.Mpmc.Histogram.Buckets.{bucket_bounds}

abbrev blank : ℕ → ℕ
blank i = 0

abbrev fresh : Queue ℕ
fresh = new_queue blank

fresh-IsValid : IsValid 4 fresh
fresh-IsValid = new_queue-IsValid 4 (omega arith) blank

fresh-InRange : InRange 4 fresh
fresh-InRange = omega arith

-- producer 0 looks, has position 0, and publishes it; a consumer looks, and claims it
abbrev holding : (s : System ℕ) × Reach 4 blank s × (s.held 0 ≡ true) × InRange 4 s.queue
unfolding push_look push_claim
holding = (
  _,
  Reach.next (Reach.next Reach.start (omega arith) (Move.look 0 (omega arith) refl)) (omega arith)
      (Move.reserve false 0 refl),
  refl,
  omega arith,
)

abbrev claiming : (s : System ℕ) × Reach 4 blank s × (s.claims 0 ≡ true) × InRange 4 s.queue
unfolding push_look push_claim publish pop_look pop_claim
claiming = (
  _,
  Reach.next
      (Reach.next (Reach.next holding.1 holding.3 (Move.fill 0 7 refl)) (omega arith)
        (Move.see 0 false (omega arith) refl))
      (omega arith) (Move.claim false false 0 refl),
  refl,
  omega arith,
)

claim_undisturbed_example :
    let taken = record claiming.0 {
      queue = (take_ticket 4 (claiming.0).queue).1;
      tickets = put_at (claiming.0).tickets (take_ticket 4 (claiming.0).queue).0 true;
    } in
    (Kept 4 (claiming.0).queue taken.queue 0 × (taken.claims 0 ≡ true))
    ⊎ ((taken.queue ≡ (consume 4 0 (claiming.0).queue).1) × (taken.claims 0 ≡ false))
claim_undisturbed_example =
    claim_undisturbed 4 (omega arith) 0 claiming.1 claiming.3 claiming.2 Move.ticket

hold_undisturbed_example :
    let taken = record holding.0 {
      queue = (take_ticket 4 (holding.0).queue).1;
      tickets = put_at (holding.0).tickets (take_ticket 4 (holding.0).queue).0 true;
    } in
    (Kept 4 (holding.0).queue taken.queue 0 × (taken.held 0 ≡ true))
    ⊎ ((v : ℕ) × (taken.queue ≡ publish 4 0 v (holding.0).queue) × (taken.held 0 ≡ false))
hold_undisturbed_example =
    hold_undisturbed 4 (omega arith) 0 holding.1 holding.3 holding.2 Move.ticket

pop_round_decided_example :
    pop_round 4 false (holding.0).queue.head (holding.0).queue
    ≡ answer false (entry 4 (holding.0).queue (holding.0).queue.head) (holding.0).queue
pop_round_decided_example =
    pop_round_decided 4 (omega arith) false (holding.0).queue
      (reach-Owned 4 (omega arith) holding.1).valid holding.3

push_round_decided_example : push_round 4 false (holding.0).queue.tail (holding.0).queue ≡ (
    if is_closed (holding.0).queue.tail
    then (refused Push.closed, (holding.0).queue)
    else if seq_of 4 (holding.0).queue (position (holding.0).queue.tail)
        == position (holding.0).queue.tail
    then (
      reserved (position (holding.0).queue.tail),
      record (holding.0).queue { tail = (holding.0).queue.tail + 2 },
    )
    else (refused Push.full, (holding.0).queue))
push_round_decided_example =
    push_round_decided 4 (omega arith) false (holding.0).queue
      (reach-Owned 4 (omega arith) holding.1).valid holding.3

-- the locked ring, with one event in two slots
abbrev one_held : Locked.Queue ℕ
one_held = record { ring = λ i. 7; head = 1; size = 1; closed = false }

one_held-IsValid : Valid.IsValid 2 one_held
one_held-IsValid = omega arith

abbrev some_calls : List (Call ℕ)
some_calls = push 5 ∷ push 6 ∷ push 7 ∷ pop ∷ shut ∷ []

abbrev log_of : List (Call ℕ) → Log ℕ
log_of cs = calls 2 cs (record { queue = Locked.new_queue blank; accepted = []; delivered = [] })

calls_lossless_example :
    ((log_of some_calls).accepted
      ≡ (log_of some_calls).delivered ++ contents 2 (log_of some_calls).queue)
    × (length (contents 2 (log_of some_calls).queue) ≤ 2)
calls_lossless_example = calls_lossless 2 some_calls blank (omega arith)

put_all_at_one : PutAll 2 (8 ∷ 9 ∷ []) one_held (Locked.put_all 2 (8 ∷ 9 ∷ []) one_held)
put_all_at_one = put_all-PutAll 2 (8 ∷ 9 ∷ []) one_held one_held-IsValid

take_up_to_at_one : TakeUpTo 2 3 one_held (Locked.take_up_to 2 3 one_held)
take_up_to_at_one = take_up_to-TakeUpTo 2 3 one_held one_held-IsValid

-- a full ring, and the wake-ups of a waiting producer and a waiting consumer
abbrev full_ring : Locked.Queue ℕ
full_ring = record { ring = λ i. 7; head = 1; size = 2; closed = false }

abbrev empty_ring : Locked.Queue ℕ
empty_ring = record { ring = λ i. 7; head = 1; size = 0; closed = false }

abbrev woken : List (Wake ℕ)
woken = record { queue = one_held; timed_out = false } ∷ []

push_decided_example : PushDone 2 9 full_ring woken (Locked.push 2 9 woken no_stats full_ring)
push_decided_example =
    push_decided 2 9 woken no_stats full_ring (omega arith) (one_held-IsValid, tt) refl

pop_decided_example : PopDone 2 empty_ring woken (Locked.pop 2 woken no_stats empty_ring)
pop_decided_example =
    pop_decided 2 woken no_stats empty_ring (omega arith) (one_held-IsValid, tt) refl

bucket_bounds_example :
    (index 1000 < bucket_count)
    × (1000 ≤ upper (index 1000))
    × (16 * upper (index 1000) ≤ 17 * 1000)
bucket_bounds_example = bucket_bounds 1000 (omega arith)

abbrev two_events : List Event
two_events = make_event 1 2 3 ∷ make_event 1 3 4 ∷ []

index-upper_example : index (upper 200) ≡ 200
index-upper_example = index-upper 200 (omega arith)

quantile_covers_example :
    (2 ≤ how_many (λ v. leb v (quantile 2 (recorded (5 ∷ 900 ∷ 70 ∷ [])))) (5 ∷ 900 ∷ 70 ∷ []))
    × (how_many
          (λ v. ltb (17 * v) (16 * quantile 2 (recorded (5 ∷ 900 ∷ 70 ∷ []))))
          (5 ∷ 900 ∷ 70 ∷ [])
        < 2)
quantile_covers_example =
    quantile_covers (5 ∷ 900 ∷ 70 ∷ []) (omega arith) (omega arith) 2 (omega arith) (omega arith)
