-- ===== src/Mpmc/Sharded/Drained.antt =====
-- What `pop` has found when it says that the queue is drained, or that its time is up.
use principal_katas.Prelude.{
  ◌||◌, ℕ, zero, suc, ◌+◌, ◌≤◌, ◌<◌, ◌≡◌, ◌≢◌, subst, inl, inr, Bool, true, false, not, Option,
  none, some, List, [], ◌∷◌, arith, ◌==◌, leb, leb→le, Bool-cases, if◌then◌else◌,
}
use principal_katas.Mpmc.Rounds.{Outcome}
use principal_katas.Mpmc.Rounds.{Round}
use principal_katas.Mpmc.Rounds.Ends.{SomeLate}
use principal_katas.Mpmc.Rounds.Ends.{
  found_or-ends, closed_end-ends, park_end-ends, after_look-ends,
}
use principal_katas.Mpmc.Api.{Pop, OpStats}
use principal_katas.Mpmc.Sharded.{Ring, Queue, is_closed, position}
use principal_katas.Mpmc.Sharded.Calls.{owned, ring_of, drained, drained_from}
use principal_katas.Mpmc.Sharded.Blocking.{pop}

module _ {A : Type 0} (n n_producers n_consumers : ℕ) where
  -- Every ring from round `k` on is closed and has nothing below its final tail.
  drained_rings :
      (consumer k left j : ℕ) (q : Queue A)
      → drained_from n n_producers n_consumers consumer k left q ≡ true
      → k ≤ j
      → j < k + left
      → let r = q.rings (ring_of n_consumers consumer j) in
        (is_closed r.tail ≡ true) × (r.head ≡ position r.tail)
  unfolding drained_from
  drained_rings consumer k zero j q d lo hi = absurd (omega arith)
  drained_rings consumer k (suc left) j q d lo hi =
      let r = q.rings (ring_of n_consumers consumer k) in
      elim (Bool-cases (k == j)) [
        | inl e ↦
            subst
              (λ i.
                let r' = q.rings (ring_of n_consumers consumer i) in
                (is_closed r'.tail ≡ true) × (r'.head ≡ position r'.tail))
              (ground arith) (closed_here r _ d)
        | inr e ↦
            drained_rings consumer (k + 1) left j q (ground (arith, d)) (ground arith) (omega arith)
      ]
    where
      closed_here :
          (r : Ring A) (rest : Bool)
          → (if not (is_closed r.tail) || not (r.head == position r.tail) then false else rest)
            ≡ true
          → (is_closed r.tail ≡ true) × (r.head ≡ position r.tail)
      closed_here r rest d = ground (arith, d)

  -- what an answer of `pop` says
  pub record PopSound (until backstop consumer : ℕ) (rounds : List (Round (Queue A)))
      (o : Outcome (Pop × Option A) (Queue A)) : Type 0 where
    pub not_empty : o.result.0 ≢ Pop.empty
    pub all_drained :
        o.result.0 ≡ Pop.drained
        → (k : ℕ) → k < owned n_producers n_consumers
        → let r = o.queue.rings (ring_of n_consumers consumer k) in
          (is_closed r.tail ≡ true) × (r.head ≡ position r.tail)
    pub is_late : o.result.0 ≡ Pop.timeout → SomeLate until backstop rounds

  module _ (backstop until consumer : ℕ) where
    widen :
        (e : Round (Queue A)) (later : List (Round (Queue A)))
        (o : Outcome (Pop × Option A) (Queue A))
        → PopSound until backstop consumer later o
        → PopSound until backstop consumer (e ∷ later) o
    widen e later o s = record {
      not_empty = s.not_empty;
      all_drained = s.all_drained;
      is_late = λ t. inr (s.is_late t);
    }

    got_sound :
        (rounds : List (Round (Queue A))) (v : Option A) (st : OpStats) (q : Queue A)
        → PopSound until backstop consumer rounds
            (record { result = (Pop.ok, v); stats = st; queue = q })
    got_sound rounds v st q = record {
      not_empty = λ e. absurd (ground (arith, e));
      all_drained = λ e. absurd (ground (arith, e));
      is_late = λ e. absurd (ground (arith, e));
    }

    drained_sound :
        (rounds : List (Round (Queue A))) (st : OpStats) (q : Queue A)
        → drained n n_producers n_consumers consumer q ≡ true
        → PopSound until backstop consumer rounds
            (record { result = (Pop.drained, none); stats = st; queue = q })
    unfolding drained
    drained_sound rounds st q d = record {
      not_empty = λ e. absurd (ground (arith, e));
      all_drained = λ e k lt.
          drained_rings consumer 0 (owned n_producers n_consumers) k q d (omega arith)
            (omega (arith, lt));
      is_late = λ e. absurd (ground (arith, e));
    }

    late_sound :
        (e : Round (Queue A)) (later : List (Round (Queue A))) (st : OpStats) (q : Queue A)
        → leb until e.now ≡ true
        → PopSound until backstop consumer
            (e ∷ later)
            (record { result = (Pop.timeout, none); stats = st; queue = q })
    late_sound e later st q l = record {
      not_empty = λ e'. absurd (ground (arith, e'));
      all_drained = λ e'. absurd (ground (arith, e'));
      is_late = λ t. inl (leb→le until e.now l);
    }

    -- `pop` never returns empty; when it returns drained, every ring of the consumer is closed and
    -- its head is at its final tail; when it returns timeout, the clock was at `until` at the end
    -- of some round: whatever other threads do, as long as the call returns.
    pub sharded-PopSound :
        (rounds : List (Round (Queue A))) (st : OpStats) (q : Queue A)
        (o : Outcome (Pop × Option A) (Queue A))
        → pop n n_producers n_consumers backstop rounds until consumer st q ≡ some o
        → PopSound until backstop consumer rounds o
    unfolding pop
    sharded-PopSound [] st q o h = absurd (ground (arith, h))
    sharded-PopSound (e ∷ later) st q o h =
        let P = PopSound until backstop consumer (e ∷ later) in
        let more : (st' : OpStats) (q' : Queue A)
            → pop n n_producers n_consumers backstop later until consumer st' q' ≡ some o
            → P o =
          λ st' q' e'. widen e later o (sharded-PopSound later st' q' o e') in
        found_or-ends P o _ _ _ (λ v. got_sound _ (some v) _ _)
          (found_or-ends P o _ _ _ (λ v. got_sound _ (some v) _ _)
            (after_look-ends P o _ _ _
              (λ c.
                closed_end-ends P o _ (leb until e.now) _ _ _ (λ d. drained_sound _ _ _ d)
                  (λ l. late_sound e later _ _ l) (more _ _))
              (found_or-ends P o _ _ _ (λ v. got_sound _ (some v) _ _)
                (park_end-ends P o _ (leb until e.now) _ _ _ _ _ (λ l. late_sound e later _ _ l)
                  (more _ _) (more _ _) (more _ _)))))
          h
