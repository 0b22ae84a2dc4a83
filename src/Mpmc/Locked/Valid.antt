-- ===== src/Mpmc/Locked/Valid.antt =====
-- The invariant of the locked ring and its contents, and what each critical section does to them.
use native.Mathlib.Nat.{mod-lt}
use principal_katas.Prelude.{
  ℕ, suc, ◌+◌, ◌-◌, ◌%◌, ◌≤◌, ◌<◌, ◌≡◌, ◌≢◌, refl, ap, ◌∙◌, inl, inr, ◌⊎◌, ◌||◌, none, some, List,
  [], ◌∷◌, ◌++◌, arith, ◌==◌, length, put_at, window, length-window, window-push, Bool-cases,
  if◌then◌else◌,
}
use principal_katas.Mpmc.Api.{Push, Pop, OpStats}
use principal_katas.Mpmc.Locked.{Queue, put, take as take_one, try_push, try_pop}

module _ {A : Type 0} (n_slots : ℕ) where
  pub record IsValid (q : Queue A) : Type 0 where
    pub head_in : q.head < n_slots
    pub size_in : q.size ≤ n_slots

  -- the events held, oldest first
  abbrev pub contents : Queue A → List A
  contents q = window q.ring n_slots q.head q.size

  pub length-contents : (q : Queue A) → length (contents q) ≡ q.size
  length-contents q = length-window q.ring n_slots q.head q.size

  pub put_lem :
      (v : A) (q : Queue A)
      → IsValid q
      → q.size < n_slots
      → IsValid (put n_slots v q) × (contents (put n_slots v q) ≡ contents q ++ v ∷ [])
  unfolding put
  put_lem v q h room = (
    record { head_in = h.head_in; size_in = omega arith },
    ap (λ k. window (put_at q.ring ((q.head + q.size) % n_slots) v) n_slots q.head k) (omega arith)
        ∙ window-push q.ring n_slots q.head q.size ((q.head + q.size) % n_slots) v h.head_in room
            refl,
  )

  pub take_lem :
      (q : Queue A)
      → IsValid q
      → q.size ≢ 0
      → let (v, q') = take_one n_slots q in IsValid q' × (contents q ≡ v ∷ contents q')
  unfolding take_one window
  take_lem q h some_held = (
    record { head_in = mod-lt (q.head + 1) (omega arith); size_in = omega arith },
    ap (window q.ring n_slots q.head) {y = suc (q.size - 1)} (omega arith),
  )

  pub closed-put : (v : A) (q : Queue A) → (put n_slots v q).closed ≡ q.closed
  unfolding put
  closed-put v q = refl

  pub closed-take : (q : Queue A) → (take_one n_slots q).1.closed ≡ q.closed
  unfolding take_one
  closed-take q = refl

  pub contents-empty : (q : Queue A) → q.size ≡ 0 → contents q ≡ []
  unfolding window
  contents-empty q e = ap (window q.ring n_slots q.head) e

  -- On a valid ring, `try_push` under its lock is the push of a bounded queue: refused if closed,
  -- refused if full, otherwise the event is appended; it stays valid, and as open or closed as it
  -- was.
  pub locked_push_refines :
      (v : A) (st : OpStats) (q : Queue A)
      → IsValid q
      → let o = try_push n_slots v st q in
        IsValid o.queue
        × (o.result ≡ (
            if q.closed
            then Push.closed
            else if length (contents q) == n_slots
            then Push.full
            else Push.ok))
        × (contents o.queue ≡ (
            if q.closed || (length (contents q) == n_slots)
            then contents q
            else contents q ++ v ∷ []))
        × (o.queue.closed ≡ q.closed)
  unfolding try_push
  locked_push_refines v st q h =
      ground (arith, length-contents q, put_lem v q h, closed-put v q, h.size_in)

  -- On a valid ring, `try_pop` is the pop of a queue: it takes the oldest event, if there is one,
  -- and otherwise changes nothing; a closed queue still gives what it holds.
  pub locked_pop_refines :
      (st : OpStats) (q : Queue A)
      → IsValid q
      → let o = try_pop n_slots st q in
        IsValid o.queue
        × (o.queue.closed ≡ q.closed)
        × (((o.result ≡ (Pop.empty, none)) × (contents q ≡ []) × (o.queue ≡ q))
            ⊎ ((v : A) × (o.result ≡ (Pop.ok, some v)) × (contents q ≡ v ∷ contents o.queue)))
  unfolding try_pop
  locked_pop_refines st q h = elim (Bool-cases (q.size == 0)) [
    | inl empty ↦
        let e : q.size ≡ 0 = ground arith in
        rw empty (h, refl, inl (refl, contents-empty q e, refl))
    | inr some_held ↦
        let (valid, taken) = take_lem q h (ground arith) in
        rw some_held (valid, closed-take q, inr (_, refl, taken))
  ]
