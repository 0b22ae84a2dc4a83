-- ===== src/Mpmc/Locked/Blocking.antt =====
-- The blocking calls of the locked ring, whatever the other threads do while a call waits.
use principal_katas.Prelude.{
  ℕ, ◌<◌, ◌≡◌, ◌⊎◌, refl, inl, inr, Bool, true, false, not, ◌&&◌, ◌||◌, Option, none, some, List,
  [], ◌∷◌, ◌++◌, arith, ◌==◌, length, Bool-cases, if◌then◌else◌,
}
use principal_katas.Mpmc.Api.{Push, Pop, OpStats, parked}
use principal_katas.Mpmc.Locked.{
  Queue, Wake, Outcome, timed_out, awake, is_stuck, wait_not_full, push_awake, push, pop, take,
  not_full_one,
}
use principal_katas.Mpmc.Locked.Valid.{
  IsValid, contents, length-contents, put_lem, take_lem, contents-empty,
}

module _ {A : Type 0} (n_slots : ℕ) where
  -- the states in which a call may hold the lock
  abbrev pub AllValid : List (Wake A) → Type 0
  AllValid [] = Unit
  AllValid (w ∷ env) = IsValid n_slots w.queue × AllValid env

  -- a state in which the call has the lock: its first, or one that it finds after a wait
  abbrev pub IsFound : Queue A → Queue A → List (Wake A) → Type 0
  IsFound s q [] = s ≡ q
  IsFound s q (w ∷ env) = (s ≡ q) ⊎ IsFound s w.queue env

  IsFound-first : (q : Queue A) (env : List (Wake A)) → IsFound q q env
  IsFound-first q [] = refl
  IsFound-first q (w ∷ env) = inl refl

  -- the call ends its wait at some point: room, a close or a timeout
  abbrev pub push_ends : List (Wake A) → Queue A → Bool
  push_ends [] q = not (is_stuck n_slots q)
  push_ends (w ∷ env) q = not (is_stuck n_slots q) || w.timed_out || push_ends env w.queue

  -- What an outcome of `push` tells of the state `s` in which it was decided.
  pub data Pushed (v : A) (s : Queue A) (o : Outcome Push A) : Type 0 where
    accepted :
        s.closed ≡ false
        → length (contents n_slots s) < n_slots
        → o.result ≡ Push.ok
        → contents n_slots o.queue ≡ contents n_slots s ++ v ∷ []
        → IsValid n_slots o.queue
        → Pushed v s o
    refused : s.closed ≡ true → o.result ≡ Push.closed → o.queue ≡ s → Pushed v s o
    gave_up :
        s.closed ≡ false
        → length (contents n_slots s) ≡ n_slots
        → o.result ≡ Push.timeout
        → o.queue ≡ s
        → Pushed v s o

  -- a call that returned, with the state in which it was decided
  pub record PushDone (v : A) (q : Queue A) (env : List (Wake A)) (r : Option (Outcome Push A))
      : Type 0 where
    pub outcome : Outcome Push A
    pub state : Queue A
    pub found : IsFound state q env
    pub returned : r ≡ some outcome
    pub decided : Pushed v state outcome

  awake-PushDone :
      (v : A) (st : OpStats) (q : Queue A) (env : List (Wake A))
      → IsValid n_slots q
      → is_stuck n_slots q ≡ false
      → PushDone v q env (push_awake n_slots v (awake st q env))
  unfolding push_awake
  awake-PushDone v st q env h free = elim (Bool-cases q.closed) [
    | inl shut ↦ record {
      outcome = _;
      state = q;
      found = IsFound-first q env;
      returned = refl;
      decided = refused shut (ground arith) (ground arith);
    }
    | inr accepting ↦
        let room : q.size < n_slots = ground (arith, h.size_in) in
        let (valid, appended) = put_lem n_slots v q h room in
        record {
          outcome = _;
          state = q;
          found = IsFound-first q env;
          returned = refl;
          decided =
              accepted accepting (omega (arith, length-contents n_slots q)) (ground arith)
                (ground (arith, appended)) (ground (arith, valid));
        }
  ]

  stuck_facts :
      (q : Queue A)
      → is_stuck n_slots q ≡ true
      → (q.closed ≡ false) × (length (contents n_slots q) ≡ n_slots)
  stuck_facts q e = ground (arith, length-contents n_slots q)

  timeout-PushDone :
      (v : A) (st : OpStats) (q : Queue A) (env : List (Wake A))
      → q.closed ≡ false
      → length (contents n_slots q) ≡ n_slots
      → PushDone v q env (push_awake n_slots v (timed_out st q))
  unfolding push_awake
  timeout-PushDone v st q env c f = record {
    outcome = _;
    state = q;
    found = IsFound-first q env;
    returned = refl;
    decided = gave_up c f refl refl;
  }

  later-PushDone :
      (v : A) (q : Queue A) (w : Wake A) (env : List (Wake A)) (r : Option (Outcome Push A))
      → PushDone v w.queue env r
      → PushDone v q (w ∷ env) r
  later-PushDone v q w env r d = record {
    outcome = d.outcome;
    state = d.state;
    found = inr d.found;
    returned = d.returned;
    decided = d.decided;
  }

  push_ends-free :
      (env : List (Wake A)) (q : Queue A) → is_stuck n_slots q ≡ false → push_ends env q ≡ true
  push_ends-free [] q h = ground arith
  push_ends-free (w ∷ env) q h = ground arith

  waited-PushDone :
      (v : A) (env : List (Wake A)) (st : OpStats) (q : Queue A)
      → IsValid n_slots q
      → AllValid env
      → push_ends env q ≡ true
      → PushDone v q env (push_awake n_slots v (wait_not_full n_slots env st q))
  unfolding wait_not_full
  waited-PushDone v [] st q h hs e =
      let free : is_stuck n_slots q ≡ false = ground arith in
      rw free (awake-PushDone v st q [] h free)
  waited-PushDone v (w ∷ env) st q h hs e = elim (Bool-cases (is_stuck n_slots q)) [
    | inr free ↦ rw free (awake-PushDone v st q (w ∷ env) h free)
    | inl stuck ↦ elim (Bool-cases (w.timed_out && is_stuck n_slots w.queue)) [
      | inl over ↦
          let (c, f) = stuck_facts w.queue (ground arith) in
          rw (stuck, over)
            (later-PushDone v q w env _ (timeout-PushDone v (parked st) w.queue env c f))
      | inr on ↦
          rw (stuck, on)
            (later-PushDone v q w env _
              (waited-PushDone v env (parked st) w.queue hs.0 hs.1 (go_on e stuck on)))
    ]
  ]
    where
      go_on :
          push_ends (w ∷ env) q ≡ true
          → is_stuck n_slots q ≡ true
          → (w.timed_out && is_stuck n_slots w.queue) ≡ false
          → push_ends env w.queue ≡ true
      go_on e stuck on = elim (Bool-cases (is_stuck n_slots w.queue)) [
        | inl still ↦ ground arith
        | inr free ↦ push_ends-free env w.queue free
      ]

  -- From valid states, a blocking push returns as soon as one of its waits finds room or a close, or
  -- times out; and then one of the states that it found, its first or one after a wait, says how. It
  -- is accepted only by a queue that is open and not full, whose oldest-first contents it extends by
  -- its event; refused, unchanged, only by a closed queue; and given up, unchanged, only at a queue
  -- that is still open and full.
  pub push_decided :
      (v : A) (env : List (Wake A)) (st : OpStats) (q : Queue A)
      → IsValid n_slots q
      → AllValid env
      → push_ends env q ≡ true
      → PushDone v q env (push n_slots v env st q)
  unfolding push
  push_decided v env st q h hs e = waited-PushDone v env st q h hs e

  -- What an outcome of `pop` tells of the state in which it was decided.
  pub data Popped (s : Queue A) (o : Outcome (Pop × Option A) A) : Type 0 where
    delivered :
        (v : A)
        → o.result ≡ (Pop.ok, some v)
        → contents n_slots s ≡ v ∷ contents n_slots o.queue
        → IsValid n_slots o.queue
        → Popped s o
    finished :
        s.closed ≡ true
        → contents n_slots s ≡ []
        → o.result ≡ (Pop.drained, none)
        → o.queue ≡ s
        → Popped s o
    gave_up :
        s.closed ≡ false
        → contents n_slots s ≡ []
        → o.result ≡ (Pop.timeout, none)
        → o.queue ≡ s
        → Popped s o

  pub record PopDone (q : Queue A) (env : List (Wake A)) (r : Option (Outcome (Pop × Option A) A))
      : Type 0 where
    pub outcome : Outcome (Pop × Option A) A
    pub state : Queue A
    pub found : IsFound state q env
    pub returned : r ≡ some outcome
    pub decided : Popped state outcome

  abbrev pub pop_ends : List (Wake A) → Queue A → Bool
  pop_ends [] q = not (q.size == 0) || q.closed
  pop_ends (w ∷ env) q = not (q.size == 0) || q.closed || w.timed_out || pop_ends env w.queue

  taken-PopDone :
      (st : OpStats) (q : Queue A) (env : List (Wake A))
      → IsValid n_slots q
      → (q.size == 0) ≡ false
      → PopDone q env (
          some (record {
            result = (Pop.ok, some (take n_slots q).0);
            queue = (take n_slots q).1;
            stats = st;
            signals = not_full_one ∷ [];
          }))
  taken-PopDone st q env h some_held =
      let (valid, taken) = take_lem n_slots q h (ground arith) in
      record {
        outcome = _;
        state = q;
        found = IsFound-first q env;
        returned = refl;
        decided = delivered _ refl taken valid;
      }

  timeout-PopDone :
      (st : OpStats) (q : Queue A) (env : List (Wake A))
      → q.size ≡ 0
      → PopDone q env (
          some (record {
            result = (if q.closed then Pop.drained else Pop.timeout, none);
            queue = q;
            stats = st;
            signals = [];
          }))
  timeout-PopDone st q env e = elim (Bool-cases q.closed) [
    | inl shut ↦ record {
      outcome = _;
      state = q;
      found = IsFound-first q env;
      returned = refl;
      decided = finished shut (contents-empty n_slots q e) (rw shut) refl;
    }
    | inr accepting ↦ record {
      outcome = _;
      state = q;
      found = IsFound-first q env;
      returned = refl;
      decided = gave_up accepting (contents-empty n_slots q e) (rw accepting) refl;
    }
  ]

  later-PopDone :
      (q : Queue A) (w : Wake A) (env : List (Wake A)) (r : Option (Outcome (Pop × Option A) A))
      → PopDone w.queue env r
      → PopDone q (w ∷ env) r
  later-PopDone q w env r d = record {
    outcome = d.outcome;
    state = d.state;
    found = inr d.found;
    returned = d.returned;
    decided = d.decided;
  }

  pop_ends-held :
      (env : List (Wake A)) (q : Queue A) → (q.size == 0) ≡ false → pop_ends env q ≡ true
  pop_ends-held [] q h = ground arith
  pop_ends-held (w ∷ env) q h = ground arith

  -- From valid states, a blocking pop returns as soon as one of its waits finds an event or a close,
  -- or times out. It is decided in one of the states that it found, its first or one after a wait: it
  -- delivers the oldest event of that state and leaves the others; it reports the queue drained only
  -- if that state is closed and empty, and times out only if it is open and empty, and leaves it
  -- unchanged.
  pub pop_decided :
      (env : List (Wake A)) (st : OpStats) (q : Queue A)
      → IsValid n_slots q
      → AllValid env
      → pop_ends env q ≡ true
      → PopDone q env (pop n_slots env st q)
  unfolding pop
  pop_decided [] st q h hs e = elim (Bool-cases (q.size == 0)) [
    | inr held ↦ rw held (taken-PopDone st q [] h held)
    | inl empty ↦
        let shut : q.closed ≡ true = ground arith in
        simp (empty, shut)
          (record {
            outcome = _;
            state = q;
            found = refl;
            returned = refl;
            decided = finished shut (contents-empty n_slots q (ground arith)) refl refl;
          })
  ]
  pop_decided (w ∷ env) st q h hs e = elim (Bool-cases (q.size == 0)) [
    | inr held ↦ rw held (taken-PopDone st q (w ∷ env) h held)
    | inl empty ↦ elim (Bool-cases q.closed) [
      | inl shut ↦
          simp (empty, shut)
            (record {
              outcome = _;
              state = q;
              found = inl refl;
              returned = refl;
              decided = finished shut (contents-empty n_slots q (ground arith)) refl refl;
            })
      | inr accepting ↦ elim (Bool-cases (w.timed_out && (w.queue.size == 0))) [
        | inl over ↦
            simp (empty, accepting, over)
              (later-PopDone q w env _ (timeout-PopDone (parked st) w.queue env (ground arith)))
        | inr on ↦
            simp (empty, accepting, on)
              (later-PopDone q w env _
                (pop_decided env (parked st) w.queue hs.0 hs.1 (go_on e empty accepting on)))
      ]
    ]
  ]
    where
      go_on :
          pop_ends (w ∷ env) q ≡ true
          → (q.size == 0) ≡ true
          → q.closed ≡ false
          → (w.timed_out && (w.queue.size == 0)) ≡ false
          → pop_ends env w.queue ≡ true
      go_on e empty accepting on = elim (Bool-cases (w.queue.size == 0)) [
        | inl still ↦ ground arith
        | inr held ↦ pop_ends-held env w.queue held
      ]
