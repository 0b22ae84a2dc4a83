-- ===== src/Mpmc/Sharded/Robin.antt =====
-- A consumer serves its rings in turn.
use native.Mathlib.Nat.{mod-lt}
use principal_katas.Mpmc.Sharded.Turns.{distance, turn_of, distance_lt, nearer}
use principal_katas.Prelude.{
  ℕ, zero, suc, ◌+◌, ◌%◌, ◌≤◌, ◌<◌, ◌≡◌, refl, sym, subst, ap, ◌∙◌, ◌⊎◌, inl, inr, true, Option,
  none, some, ◌∷◌, arith, ◌==◌, Bool-cases,
}
use principal_katas.Mpmc.Rounds.{woken, Outcome}
use principal_katas.Mpmc.Api.{OpStats}
use principal_katas.Mpmc.EventCount.Count.{put_same, each_put}
use principal_katas.Mpmc.Sharded.{Queue, position, pop_ring}
use principal_katas.Mpmc.Sharded.Calls.{owned, ring_of, set_ring, set_consumer, serve, try_pop}
use principal_katas.Mpmc.Sharded.Valid.{
  pop_ring_stays, IsValid, contents, pop_ring-IsValid, pop_ring-contents, pop_ring-none,
  pop_ring-some, pop_ring_kept,
}

-- the ring that is tried in round `k`
abbrev pub tried : ℕ → ℕ → ℕ → ℕ → ℕ → ℕ
tried n_producers n_consumers consumer next k =
    ring_of n_consumers consumer ((next + k) % owned n_producers n_consumers)

module _ {A : Type 0} (n n_producers n_consumers : ℕ) where
  -- An event found, in some round from `k` to `d`.
  record Found (consumer next k d : ℕ) (q : Queue A) (o : Outcome (Option A) (Queue A))
      : Type 0 where
    turn : ℕ
    value : A
    from : k ≤ turn
    upto : turn ≤ d
    found : o.result ≡ some value
    moved :
        contents n (q.rings (tried n_producers n_consumers consumer next turn))
        ≡ value ∷ contents n (o.queue.rings (tried n_producers n_consumers consumer next turn))
    goes_on :
        (o.queue.consumers consumer).next
        ≡ ((next + turn) % owned n_producers n_consumers + 1) % owned n_producers n_consumers

  abbrev served : ℕ → ℕ → ℕ → OpStats → Queue A → A → Outcome (Option A) (Queue A)
  served consumer next k st q v =
      let i = (next + k) % owned n_producers n_consumers in
      let p = ring_of n_consumers consumer i in
      let (got, woke, r) = pop_ring n (q.rings p) in
      let q' = set_ring p r q in
      record {
        result = some v;
        stats = woken woke st;
        queue =
            set_consumer consumer
              (record (q'.consumers consumer) { next = (i + 1) % owned n_producers n_consumers })
              q';
      }

  serve-some :
      (consumer next k left : ℕ) (st : OpStats) (q : Queue A) (v : A)
      → (pop_ring n (q.rings (tried n_producers n_consumers consumer next k))).0 ≡ some v
      → serve n n_producers n_consumers consumer next k (suc left) st q
        ≡ served consumer next k st q v
  unfolding serve
  serve-some consumer next k left st q v e = simp (serve, e) refl

  serve-none :
      (consumer next k left : ℕ) (st : OpStats) (q : Queue A)
      → (pop_ring n (q.rings (tried n_producers n_consumers consumer next k))).0 ≡ none
      → let p = tried n_producers n_consumers consumer next k in
        let (got, woke, r) = pop_ring n (q.rings p) in
        serve n n_producers n_consumers consumer next k (suc left) st q
        ≡ serve n n_producers n_consumers consumer next
            (k + 1)
            left
            (woken woke st)
            (set_ring p r q)
  unfolding serve
  serve-none consumer next k left st q e = simp (serve, e) refl

  module _ (large : 2 ≤ n) where
    -- a ring, before and after a pop that finds it empty
    passed :
        (q : Queue A) (p : ℕ)
        → ((j : ℕ) → IsValid n (q.rings j))
        → (pop_ring n (q.rings p)).0 ≡ none
        → (j : ℕ)
        → let q' = set_ring p (pop_ring n (q.rings p)).2 q in
          IsValid n (q'.rings j)
          × ((q'.rings j).head ≡ (q.rings j).head)
          × ((q'.rings j).tail ≡ (q.rings j).tail)
          × (contents n (q.rings j) ≡ contents n (q'.rings j))
    passed q p valid e =
        each_put
          (λ j r.
            IsValid n r
            × (r.head ≡ (q.rings j).head)
            × (r.tail ≡ (q.rings j).tail)
            × (contents n (q.rings j) ≡ contents n r))
          q.rings p (pop_ring n (q.rings p)).2
          (
            pop_ring-IsValid n large (q.rings p) (valid p),
            pop_ring_stays n large (q.rings p) e,
            (pop_ring_kept n large (q.rings p)).0,
            subst
                (λ got. contents n (q.rings p) ≡ elim got [
                  | none ↦ contents n (pop_ring n (q.rings p)).2
                  | some v ↦ v ∷ contents n (pop_ring n (q.rings p)).2
                ])
                e (pop_ring-contents n large (q.rings p) (valid p)),
          )
          (λ j. (valid j, refl, refl, refl))

    Found-here :
        (consumer next k d : ℕ) (st : OpStats) (q : Queue A)
        → ((p : ℕ) → IsValid n (q.rings p))
        → k ≤ d
        → let r = q.rings (tried n_producers n_consumers consumer next k) in
          (pop_ring n r).0 ≡ some (r.slots (r.head % n))
          → Found consumer next k d q (served consumer next k st q (r.slots (r.head % n)))
    Found-here consumer next k d st q valid lo got =
        let p = tried n_producers n_consumers consumer next k in
        let r = q.rings p in
        let r' = (pop_ring n r).2 in
        record {
          turn = k;
          value = r.slots (r.head % n);
          from = omega arith;
          upto = lo;
          found = refl;
          moved =
              subst
                (λ g. contents n r ≡ elim g [ none ↦ contents n r' | some v ↦ v ∷ contents n r' ])
                got (pop_ring-contents n large r (valid p))
              ∙ ap (λ x. r.slots (r.head % n) ∷ contents n x) (sym (put_same q.rings p r'));
          goes_on =
              ap (λ me. me.next)
                (put_same q.consumers consumer (record (q.consumers consumer) {
                  next =
                      ((next + k) % owned n_producers n_consumers + 1)
                      % owned n_producers n_consumers;
                }));
        }

    Found-later :
        (consumer next k d : ℕ) (st : OpStats) (q : Queue A) (o : Outcome (Option A) (Queue A))
        → let p = tried n_producers n_consumers consumer next k in
          let q' = set_ring p (pop_ring n (q.rings p)).2 q in
          ((j : ℕ) → contents n (q.rings j) ≡ contents n (q'.rings j))
          → Found consumer next (k + 1) d q' o
          → Found consumer next k d q o
    Found-later consumer next k d st q o same f = record {
      turn = f.turn;
      value = f.value;
      from = omega (arith, f.from);
      upto = f.upto;
      found = f.found;
      moved = same (tried n_producers n_consumers consumer next f.turn) ∙ f.moved;
      goes_on = f.goes_on;
    }

    serve_finds :
        (consumer next k left d : ℕ) (st : OpStats) (q : Queue A)
        → ((p : ℕ) → IsValid n (q.rings p))
        → k ≤ d
        → d < k + left
        → let r = q.rings (tried n_producers n_consumers consumer next d) in
          r.head < position r.tail
          → Found consumer next k d q (serve n n_producers n_consumers consumer next k left st q)
    serve_finds consumer next k zero d st q valid lo hi holds = absurd (omega arith)
    serve_finds consumer next k (suc left) d st q valid lo hi holds =
        let p = tried n_producers n_consumers consumer next k in
        let r = q.rings p in
        let v = valid p in
        elim (Bool-cases (r.head == position r.tail)) [
          | inr held ↦
              let got : (pop_ring n r).0 ≡ some (r.slots (r.head % n)) =
                pop_ring-some n large r v (ground (arith, v.known, v.ahead)) in
              subst (Found consumer next k d q)
                (sym (serve-some consumer next k left st q (r.slots (r.head % n)) got))
                (Found-here consumer next k d st q valid lo got)
          | inl empty ↦
              let got : (pop_ring n r).0 ≡ none = pop_ring-none n large r v (ground arith) in
              let q' = set_ring p (pop_ring n r).2 q in
              let kept = passed q p valid got in
              let (_, same_head, same_tail, _) =
                kept (tried n_producers n_consumers consumer next d) in
              subst (Found consumer next k d q) (sym (serve-none consumer next k left st q got)) (
                Found-later consumer next k d st q
                  (serve n n_producers n_consumers consumer next (k + 1) left
                    (woken (pop_ring n r).1 st) q')
                  (λ j. let (_, _, _, same) = kept j in same)
                  (serve_finds consumer next (k + 1) left d (woken (pop_ring n r).1 st) q'
                    (λ j. let (valid', _, _, _) = kept j in valid') (later empty) (omega arith)
                    (omega (arith, holds, same_head, ap position same_tail))))
        ]
      where
        later :
            ((q.rings (tried n_producers n_consumers consumer next k)).head
                == position (q.rings (tried n_producers n_consumers consumer next k)).tail)
              ≡ true
            → k + 1 ≤ d
        later empty = elim (Bool-cases (k == d)) [
          | inl e ↦
              let same : k ≡ d = ground arith in
              let holds' : (q.rings (tried n_producers n_consumers consumer next k)).head
                  < position (q.rings (tried n_producers n_consumers consumer next k)).tail =
                subst
                  (λ i.
                    let r = q.rings (tried n_producers n_consumers consumer next i) in
                    r.head < position r.tail)
                  (sym same) holds in
              absurd (ground arith)
          | inr e ↦ ground arith
        ]

    -- With two slots or more, every ring valid and the consumer's place below its number of rings:
    -- if ring `i` of the consumer holds an event, `try_pop` takes the oldest event of one of the
    -- consumer's rings, and that ring is `i`, or `i` has come nearer in the order in which the
    -- consumer tries its rings.
    pub served_or_nearer :
        (consumer i : ℕ) (st : OpStats) (q : Queue A)
        → let size = owned n_producers n_consumers in
          let next = (q.consumers consumer).next in
          let p = ring_of n_consumers consumer i in
          ((j : ℕ) → IsValid n (q.rings j))
          → i < size
          → next < size
          → (q.rings p).head < position (q.rings p).tail
          → let o = try_pop n n_producers n_consumers consumer st q in
            (v : A) × (k : ℕ) × (o.result ≡ some v)
            × (k < size)
            × (contents n (q.rings (ring_of n_consumers consumer k))
                ≡ v ∷ contents n (o.queue.rings (ring_of n_consumers consumer k)))
            × ((k ≡ i) ⊎ (distance size (o.queue.consumers consumer).next i < distance size next i))
    unfolding try_pop
    served_or_nearer consumer i st q valid lt near holds =
        let size = owned n_producers n_consumers in
        let next = (q.consumers consumer).next in
        let d = distance size next i in
        let here : (next + d) % size ≡ i = turn_of size next i near lt in
        let holds' : (q.rings (tried n_producers n_consumers consumer next d)).head
            < position (q.rings (tried n_producers n_consumers consumer next d)).tail =
          subst (λ k. let r = q.rings (ring_of n_consumers consumer k) in r.head < position r.tail)
            (sym here) holds in
        let f =
          serve_finds consumer next 0 size d st q valid (omega arith)
            (omega (arith, distance_lt size next i near lt)) holds' in
        (
          f.value,
          (next + f.turn) % size,
          f.found,
          mod-lt (next + f.turn) (omega (arith, lt)),
          f.moved,
          elim (Bool-cases (f.turn == d)) [
            | inl e ↦ inl (ap (λ k. (next + k) % size) (ground arith) ∙ here)
            | inr e ↦ inr (
                subst (λ k. distance size k i < d) (sym f.goes_on)
                  (nearer size next i f.turn near lt (ground (arith, f.upto))))
          ],
        )
