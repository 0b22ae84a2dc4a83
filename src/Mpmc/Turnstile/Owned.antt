-- ===== src/Mpmc/Turnstile/Owned.antt =====
-- The threads of the queue keep to their own slots.
use principal_katas.Prelude.{
  ℕ, ◌+◌, ◌%◌, ◌^◌, ◌≤◌, ◌<◌, ◌≡◌, ◌≢◌, sym, subst, ap, ◌∙◌, ◌⊎◌, inl, inr, Bool, true, false, ◌==◌,
  put_at, arith, Bool-cases,
}
use principal_katas.Mpmc.Turnstile.{Queue, position, undead, seq_of}
use principal_katas.Mpmc.Turnstile.Valid.{IsValid, InRange, apart_next}
use principal_katas.Mpmc.Turnstile.Exclusive.{HasTurn, HasClaim}
use principal_katas.Mpmc.Turnstile.Threads.{System}

-- what is said of a queue stays so after a step that leaves its slots, and moves its positions on
pub record Grows {A : Type 0} (q q' : Queue A) : Type 0 where
  pub same_seq : q'.seq ≡ q.seq
  pub tail_on : q.tail ≤ q'.tail
  pub head_on : q.head ≤ q'.head

pub each_set :
    (P : ℕ → Type 0) (f : ℕ → Bool) (i : ℕ)
    → ((j : ℕ) → f j ≡ true → P j)
    → P i
    → (j : ℕ) → put_at f i true j ≡ true
    → P j
each_set P f i h p j e = elim (Bool-cases (i == j)) [
  | inl same ↦ subst P (at i j same) p
  | inr other ↦ h j (ground arith)
]
  where
    at : (i j : ℕ) → (i == j) ≡ true → i ≡ j
    at i j e = ground arith

pub each_kept :
    (P : ℕ → Type 0) (f : ℕ → Bool) (i : ℕ)
    → ((j : ℕ) → i ≢ j → f j ≡ true → P j)
    → (j : ℕ) → put_at f i false j ≡ true
    → P j
each_kept P f i h j e = elim (Bool-cases (i == j)) [
  | inl same ↦ absurd (ground arith)
  | inr other ↦ h j (ground arith) (ground arith)
]

module _ {A : Type 0} (n_slots : ℕ) where
  -- what the threads rely on
  pub record Owned (s : System A) : Type 0 where
    pub valid : IsValid n_slots s.queue
    pub looked_ok :
        (word : ℕ)
        → s.looked word ≡ true
        → (word ≤ s.queue.tail)
          × (s.queue.tail ≡ word → seq_of n_slots s.queue (position word) ≡ position word)
    pub held_ok : (pos : ℕ) → s.held pos ≡ true → HasTurn n_slots s.queue pos
    pub ticket_ok :
        (word : ℕ)
        → s.tickets word ≡ true
        → (position word < position s.queue.tail) × (s.held (position word) ≡ false)
    pub seen_ok :
        (pos : ℕ)
        → s.seen pos ≡ true
        → (pos ≤ s.queue.head)
          × (s.queue.head ≡ pos → undead (seq_of n_slots s.queue pos) ≡ pos + 1)
    pub claim_ok : (pos : ℕ) → s.claims pos ≡ true → HasClaim n_slots s.queue pos

  module _ (large : 2 ≤ n_slots) where
    HasTurn-Grows :
        (q q' : Queue A) (pos : ℕ) → Grows q q' → HasTurn n_slots q pos → HasTurn n_slots q' pos
    HasTurn-Grows q q' pos g t = record {
      is_reserved = omega (arith, g.tail_on, t.is_reserved);
      is_free = ap (λ f. f (pos % n_slots)) g.same_seq ∙ t.is_free;
    }

    HasClaim-Grows :
        (q q' : Queue A) (pos : ℕ) → Grows q q' → HasClaim n_slots q pos → HasClaim n_slots q' pos
    HasClaim-Grows q q' pos g c = record {
      is_passed = omega (arith, g.head_on, c.is_passed);
      is_published = ap (λ f. undead (f (pos % n_slots))) g.same_seq ∙ c.is_published;
    }

    -- A queue that grows keeps all that is said of it, with what is new.
    pub Grows-Owned :
        (s s' : System A)
        → Owned s
        → Grows s.queue s'.queue
        → IsValid n_slots s'.queue
        → ((word : ℕ)
            → s'.looked word ≡ true
            → (s.looked word ≡ true)
              ⊎ ((word ≤ s.queue.tail) × (seq_of n_slots s.queue (position word) ≡ position word)))
        → ((pos : ℕ) → s'.held pos ≡ true → (s.held pos ≡ true) ⊎ HasTurn n_slots s'.queue pos)
        → ((word : ℕ)
            → s'.tickets word ≡ true
            → (position word < position s'.queue.tail) × (s'.held (position word) ≡ false))
        → ((pos : ℕ)
            → s'.seen pos ≡ true
            → (s.seen pos ≡ true)
              ⊎ ((pos ≤ s.queue.head) × (undead (seq_of n_slots s.queue pos) ≡ pos + 1)))
        → ((pos : ℕ) → s'.claims pos ≡ true → (s.claims pos ≡ true) ⊎ HasClaim n_slots s'.queue pos)
        → Owned s'
    Grows-Owned s s' o g v looks holds tickets sees claims = record {
      valid = v;
      looked_ok = λ word e. elim (looks word e) [
        | inl old ↦
            let (le, free) = o.looked_ok word old in
            (
              omega (arith, le, g.tail_on),
              λ at.
                  ap (λ f. f (position word % n_slots)) g.same_seq
                  ∙ free (omega (arith, at, le, g.tail_on)),
            )
        | inr new ↦ (
          omega (arith, new.0, g.tail_on),
          λ at. ap (λ f. f (position word % n_slots)) g.same_seq ∙ new.1,
        )
      ];
      held_ok = λ pos e. elim (holds pos e) [
        | inl old ↦ HasTurn-Grows s.queue s'.queue pos g (o.held_ok pos old)
        | inr new ↦ new
      ];
      ticket_ok = tickets;
      seen_ok = λ pos e. elim (sees pos e) [
        | inl old ↦
            let (le, full) = o.seen_ok pos old in
            (
              omega (arith, le, g.head_on),
              λ at.
                  ap (λ f. undead (f (pos % n_slots))) g.same_seq
                  ∙ full (omega (arith, at, le, g.head_on)),
            )
        | inr new ↦ (
          omega (arith, new.0, g.head_on),
          λ at. ap (λ f. undead (f (pos % n_slots))) g.same_seq ∙ new.1,
        )
      ];
      claim_ok = λ pos e. elim (claims pos e) [
        | inl old ↦ HasClaim-Grows s.queue s'.queue pos g (o.claim_ok pos old)
        | inr new ↦ new
      ];
    }

    -- A step that writes one slot, whose position is below the tail and, if it is released, below
    -- the head: what is said of the other positions stays.
    pub record Writes (q q' : Queue A) (pos : ℕ) : Type 0 where
      same_tail : q'.tail ≡ q.tail
      same_head : q'.head ≡ q.head
      turns : (p : ℕ) → pos ≢ p → seq_of n_slots q p ≡ p → p < 2 ^ 62 → seq_of n_slots q' p ≡ p
      fulls :
          (p : ℕ)
          → pos ≢ p
          → undead (seq_of n_slots q p) ≡ p + 1
          → undead (seq_of n_slots q' p) ≡ p + 1

    -- the slot of a producer in its turn, and of a consumer with a claim
    pub turn-Writes :
        (q q' : Queue A) (pos raw : ℕ)
        → InRange n_slots q
        → HasTurn n_slots q pos
        → q'.tail ≡ q.tail
        → q'.head ≡ q.head
        → q'.seq ≡ put_at q.seq (pos % n_slots) raw
        → Writes q q' pos
    turn-Writes q q' pos raw r t same same' e = record {
      same_tail = same;
      same_head = same';
      turns = λ p ne f small.
          ap (λ g. g (p % n_slots)) e ∙ kept p (λ h. ne (sym t.is_free ∙ ap q.seq h ∙ f)) ∙ f;
      fulls = λ p ne f.
          ap (λ g. undead (g (p % n_slots))) e
          ∙ ap undead (
              kept p (λ h.
                let was : seq_of n_slots q pos ≡ seq_of n_slots q p = ap q.seq h in
                apart_next n_slots p pos large (sym h)
                  (omega (arith, was, t.is_free, t.is_reserved, r.positions, f))))
          ∙ f;
    }
      where
        kept :
            (p : ℕ)
            → pos % n_slots ≢ p % n_slots
            → put_at q.seq (pos % n_slots) raw (p % n_slots) ≡ seq_of n_slots q p
        kept p ne = ground (arith, ne)

    pub claim-Writes :
        (q q' : Queue A) (pos raw : ℕ)
        → HasClaim n_slots q pos
        → q'.tail ≡ q.tail
        → q'.head ≡ q.head
        → q'.seq ≡ put_at q.seq (pos % n_slots) raw
        → Writes q q' pos
    claim-Writes q q' pos raw c same same' e = record {
      same_tail = same;
      same_head = same';
      turns = λ p ne f small.
          ap (λ g. g (p % n_slots)) e
          ∙ kept p (λ h.
            let was : seq_of n_slots q pos ≡ seq_of n_slots q p = ap q.seq h in
            apart_next n_slots pos p large h (omega (arith, was, c.is_published, f, small)))
          ∙ f;
      fulls = λ p ne f.
          ap (λ g. undead (g (p % n_slots))) e
          ∙ ap undead (
              kept p (λ h.
                let was : seq_of n_slots q pos ≡ seq_of n_slots q p = ap q.seq h in
                ne (omega (arith, ap undead was, c.is_published, f))))
          ∙ f;
    }
      where
        kept :
            (p : ℕ)
            → pos % n_slots ≢ p % n_slots
            → put_at q.seq (pos % n_slots) raw (p % n_slots) ≡ seq_of n_slots q p
        kept p ne = ground (arith, ne)

    pub Writes-Owned :
        (s s' : System A) (pos : ℕ)
        → Owned s
        → InRange n_slots s.queue
        → Writes s.queue s'.queue pos
        → IsValid n_slots s'.queue
        → s'.looked ≡ s.looked
        → s'.seen ≡ s.seen
        → pos < position s.queue.tail
        → pos ≢ s.queue.head ⊎ (seq_of n_slots s.queue pos ≡ pos)
        → ((p : ℕ) → s'.held p ≡ true → (s.held p ≡ true) × (pos ≢ p))
        → ((word : ℕ) → s'.tickets word ≡ true → s.tickets word ≡ true)
        → ((p : ℕ) → s.held p ≡ false → s'.held p ≡ false)
        → ((p : ℕ) → s'.claims p ≡ true → (s.claims p ≡ true) × (pos ≢ p))
        → Owned s'
    Writes-Owned s s' pos o r w v looks sees below not_head holds tickets frees claims = record {
      valid = v;
      looked_ok = λ word e.
          let (le, free) = o.looked_ok word (ap (λ f. f word) (sym looks) ∙ e) in
          (
            omega (arith, le, w.same_tail),
            λ at.
                let here : s.queue.tail ≡ word = sym w.same_tail ∙ at in
                w.turns (position word) (omega (arith, below, ap position here)) (free here)
                  (omega (arith, r.positions, ap position here)),
          );
      held_ok = λ p e.
          let (old, ne) = holds p e in
          let t = o.held_ok p old in
          record {
            is_reserved = omega (arith, t.is_reserved, ap position w.same_tail);
            is_free = w.turns p ne t.is_free (omega (arith, t.is_reserved, r.positions));
          };
      ticket_ok = λ word e.
          let (lt, none_held) = o.ticket_ok word (tickets word e) in
          (omega (arith, lt, ap position w.same_tail), frees (position word) none_held);
      seen_ok = λ p e.
          let (le, full) = o.seen_ok p (ap (λ f. f p) (sym sees) ∙ e) in
          (
            omega (arith, le, w.same_head),
            λ at.
                let here : s.queue.head ≡ p = sym w.same_head ∙ at in
                w.fulls p (apart p here (full here)) (full here),
          );
      claim_ok = λ p e.
          let (old, ne) = claims p e in
          let c = o.claim_ok p old in
          record {
            is_passed = omega (arith, c.is_passed, w.same_head);
            is_published = w.fulls p ne c.is_published;
          };
    }
      where
        apart : (p : ℕ) → s.queue.head ≡ p → undead (seq_of n_slots s.queue p) ≡ p + 1 → pos ≢ p
        apart p here full same = elim not_head [
          | inl ne ↦ ne (omega (arith, same, here))
          | inr free ↦
              let moved : seq_of n_slots s.queue pos ≡ seq_of n_slots s.queue p =
                ap (seq_of n_slots s.queue) same in
              omega (arith, moved, free, full, below, r.positions)
        ]
