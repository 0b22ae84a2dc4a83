-- ===== src/Mpmc/Locked.antt =====
-- mpmc-work-queue-kata/cpp/src/mutex_queue.hpp: `MutexQueue<T, N>`, a ring under one mutex. Each
-- critical section is one step. Where a call gives the lock up, to wait or between two rounds, the
-- list `env` says in what state it finds the queue when it has the lock again, and whether its wait
-- had timed out; a call that outlasts the list is still blocked.
pub mod Valid
pub mod Fifo
pub mod Blocking
use principal_katas.Prelude.{
  ℕ, zero, suc, ◌+◌, ◌-◌, ◌%◌, Bool, true, false, not, ◌&&◌, Option, none, some, List, [], ◌∷◌,
  ◌++◌, ◌==◌, ltb, length, put_at, if◌then◌else◌,
}
use principal_katas.Mpmc.Api.{Push, Pop, OpStats, parked}

pub record Queue {ℓ} (A : Type ℓ) : Type ℓ where
  pub ring : ℕ → A
  pub head : ℕ
  pub size : ℕ
  pub closed : Bool

-- A call on a condition variable.
pub data Signal : Type 0 where
  not_empty_one not_empty_all not_full_one not_full_all : Signal

-- What a thread finds when it gets the lock back.
pub record Wake {ℓ} (A : Type ℓ) : Type ℓ where
  pub queue : Queue A
  pub timed_out : Bool

-- What a call returns, with the state it leaves, its counts and its signals.
pub record Outcome {ℓ κ} (R : Type κ) (A : Type ℓ) : Type (ℓ ⊔ κ) where
  pub result : R
  pub queue : Queue A
  pub stats : OpStats
  pub signals : List Signal

-- how a producer's wait ends
pub data Waited {ℓ} (A : Type ℓ) : Type ℓ where
  blocked : OpStats → Queue A → Waited A
  timed_out : OpStats → Queue A → Waited A
  awake : OpStats → Queue A → List (Wake A) → Waited A

module _ {ℓ} {A : Type ℓ} (n_slots : ℕ) where
  -- `put`
  unfoldable pub put : A → Queue A → Queue A
  put v q = record q { ring = put_at q.ring ((q.head + q.size) % n_slots) v; size = q.size + 1 }

  -- `take`, and what it moves to `out`
  unfoldable pub take : Queue A → A × Queue A
  take q = (q.ring q.head, record q { head = (q.head + 1) % n_slots; size = q.size - 1 })

  -- the condition of the producers' wait loops
  abbrev pub is_stuck : Queue A → Bool
  is_stuck q = not q.closed && (q.size == n_slots)

  unfoldable pub try_push : A → OpStats → Queue A → Outcome Push A
  unfolding put
  try_push v st q =
      if q.closed
      then record { result = Push.closed; queue = q; stats = st; signals = [] }
      else if q.size == n_slots
      then record { result = Push.full; queue = q; stats = st; signals = [] }
      else record { result = Push.ok; queue = put v q; stats = st; signals = not_empty_one ∷ [] }

  -- the producers' wait loop: `++st.parks`, wait, and give up on a timeout that changed nothing
  unfoldable pub wait_not_full : List (Wake A) → OpStats → Queue A → Waited A
  wait_not_full [] st q = if is_stuck q then blocked (parked st) q else awake st q []
  wait_not_full (w ∷ env) st q =
      let later = wait_not_full env (parked st) w.queue in
      if is_stuck q
      then if w.timed_out && is_stuck w.queue then timed_out (parked st) w.queue else later
      else awake st q (w ∷ env)

  -- the end of `push`, once its wait is over
  push_awake : A → Waited A → Option (Outcome Push A)
  unfolding put
  push_awake v (blocked st q) = none
  push_awake v (timed_out st q) =
      some (record { result = Push.timeout; queue = q; stats = st; signals = [] })
  push_awake v (awake st q env) = some (
      if q.closed
      then record { result = Push.closed; queue = q; stats = st; signals = [] }
      else record { result = Push.ok; queue = put v q; stats = st; signals = not_empty_one ∷ [] })

  unfoldable pub push : A → List (Wake A) → OpStats → Queue A → Option (Outcome Push A)
  unfolding wait_not_full push_awake
  push v env st q = push_awake v (wait_not_full env st q)

  unfoldable pub try_pop : OpStats → Queue A → Outcome (Pop × Option A) A
  unfolding take
  try_pop st q =
      if q.size == 0
      then record { result = (Pop.empty, none); queue = q; stats = st; signals = [] }
      else let (v, q') = take q in
        record { result = (Pop.ok, some v); queue = q'; stats = st; signals = not_full_one ∷ [] }

  -- The loop of `pop`: drained at once if closed and empty; a timeout that finds the queue empty
  -- ends it too.
  unfoldable pub pop : List (Wake A) → OpStats → Queue A → Option (Outcome (Pop × Option A) A)
  unfolding take
  pop [] st q =
      if q.size == 0
      then if q.closed
        then some (record { result = (Pop.drained, none); queue = q; stats = st; signals = [] })
        else none
      else let (v, q') = take q in
        some (record {
          result = (Pop.ok, some v);
          queue = q';
          stats = st;
          signals = not_full_one ∷ [];
        })
  pop (w ∷ env) st q =
      let later = pop env (parked st) w.queue in
      if q.size == 0
      then if q.closed
        then some (record { result = (Pop.drained, none); queue = q; stats = st; signals = [] })
        else if w.timed_out && (w.queue.size == 0)
        then some (record {
          result = (if w.queue.closed then Pop.drained else Pop.timeout, none);
          queue = w.queue;
          stats = parked st;
          signals = [];
        })
        else later
      else let (v, q') = take q in
        some (record {
          result = (Pop.ok, some v);
          queue = q';
          stats = st;
          signals = not_full_one ∷ [];
        })

  -- `while (done < n && size_ < N) put(...)`: the items left over, and the queue
  unfoldable pub put_all : List A → Queue A → List A × Queue A
  unfolding put
  put_all [] q = ([], q)
  put_all (v ∷ vs) q =
      let later = put_all vs (put v q) in if ltb q.size n_slots then later else (v ∷ vs, q)

  -- `while (n < max && size_ > 0) take(out[n++])`: what is taken, and the queue
  unfoldable pub take_up_to : ℕ → Queue A → List A × Queue A
  unfolding take
  take_up_to zero q = ([], q)
  take_up_to (suc max) q =
      let (v, q') = take q in
      let (vs, q'') = take_up_to max q' in if q.size == 0 then ([], q) else (v ∷ vs, q'')

  -- The loop of `push_batch`, with the items left and the number accepted. A round that puts items
  -- gives the lock up, signals and takes it again; so does the wait of a round that finds no room.
  unfoldable pub push_batch_loop :
      List (Wake A) → List A → ℕ → OpStats → List Signal → Queue A → Option (Outcome ℕ A)
  unfolding put_all
  push_batch_loop [] [] done st out q =
      some (record { result = done; queue = q; stats = st; signals = out })
  push_batch_loop [] (v ∷ vs) done st out q =
      if not (is_stuck q) && q.closed
      then some (record { result = done; queue = q; stats = st; signals = out })
      else none
  push_batch_loop (w ∷ env) [] done st out q =
      some (record { result = done; queue = q; stats = st; signals = out })
  push_batch_loop (w ∷ env) (v ∷ vs) done st out q =
      let (rest, q') = put_all (v ∷ vs) q in
      let waited = push_batch_loop env (v ∷ vs) done (parked st) out w.queue in
      let relocked =
        push_batch_loop env rest (done + (length (v ∷ vs) - length rest)) st
          (out ++ not_empty_all ∷ []) w.queue in
      if is_stuck q
      then if w.timed_out && is_stuck w.queue
        then some (record {
          result = done;
          queue = w.queue;
          stats = parked st;
          signals = out ++ not_empty_all ∷ [];
        })
        else waited
      else if q.closed
      then some (record { result = done; queue = q; stats = st; signals = out })
      else relocked

  unfoldable pub push_batch : List A → List (Wake A) → OpStats → Queue A → Option (Outcome ℕ A)
  unfolding push_batch_loop
  push_batch items env st q = push_batch_loop env items 0 st [] q

  -- `pop_batch`; the result is what is written to `out`, as many as are returned.
  unfoldable pub pop_batch : ℕ → List (Wake A) → OpStats → Queue A → Option (Outcome (List A) A)
  unfolding take_up_to
  pop_batch max [] st q =
      if q.size == 0
      then if q.closed
        then some (record { result = []; queue = q; stats = st; signals = [] })
        else none
      else let (vs, q') = take_up_to max q in
        some (record { result = vs; queue = q'; stats = st; signals = not_full_all ∷ [] })
  pop_batch max (w ∷ env) st q =
      let later = pop_batch max env (parked st) w.queue in
      let (vs, q') = take_up_to max q in
      if q.size == 0
      then if q.closed
        then some (record { result = []; queue = q; stats = st; signals = [] })
        else if w.timed_out && (w.queue.size == 0)
        then some (record { result = []; queue = w.queue; stats = parked st; signals = [] })
        else later
      else some (record { result = vs; queue = q'; stats = st; signals = not_full_all ∷ [] })

unfoldable pub close {ℓ} : {A : Type ℓ} → Queue A → Queue A × List Signal
close q = (record q { closed = true }, not_empty_all ∷ not_full_all ∷ [])

unfoldable pub is_closed {ℓ} : {A : Type ℓ} → Queue A → Bool
is_closed q = q.closed

abbrev pub new_queue {ℓ} : {A : Type ℓ} → (ℕ → A) → Queue A
new_queue ring = record { ring = ring; head = 0; size = 0; closed = false }
