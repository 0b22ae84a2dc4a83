-- ===== src/Mpmc/Turnstile/Valid.antt =====
-- The invariant of the ring of sequence numbers, kept by every step of every thread.
use native.Mathlib.Nat.{mod-add-mod, mod-lt, mod-eq_of_lt, add-mod_right}
use principal_katas.Prelude.{
  ℕ, ◌+◌, ◌-◌, ◌%◌, ◌^◌, ◌≤◌, ◌<◌, ◌≡◌, ◌≢◌, sym, ap, ◌∙◌, inl, inr, true, false, ◌==◌, leb, put_at,
  step-ne, arith, Bool-cases,
}
use principal_katas.Mpmc.Turnstile.{Queue, new_queue, position, undead, seq_of}

-- Two positions less than a lap apart have different slots.
pub slots-ne : (n_slots i j : ℕ) → i < j → j < i + n_slots → j % n_slots ≢ i % n_slots
slots-ne n_slots i j lt near e =
    step-ne {size = n_slots} {h = i % n_slots} {k = j - i - 1} (mod-lt i (omega arith))
      (omega arith)
      (ap (λ k. (i % n_slots + k) % n_slots) (omega arith)
        ∙ mod-add-mod i n_slots (j - i)
        ∙ ap (λ k. k % n_slots) (omega arith)
        ∙ e)

-- What the slot of a position of the current lap says: it is free, or published, or still held by
-- the consumer of the previous lap.
pub data SlotOk (n_slots tail i raw : ℕ) : Type 0 where
  free : raw ≡ i → SlotOk n_slots tail i raw
  published : i < tail → undead raw ≡ i + 1 → raw < 2 ^ 64 → SlotOk n_slots tail i raw
  draining : n_slots ≤ i → undead raw + n_slots ≡ i + 1 → raw < 2 ^ 64 → SlotOk n_slots tail i raw

pub weaken : {n_slots t t' i raw : ℕ} → t ≤ t' → SlotOk n_slots t i raw → SlotOk n_slots t' i raw
weaken le (free e) = free e
weaken le (published lt e b) = published (omega arith) e b
weaken le (draining lt e b) = draining lt e b

-- The position of the lap at `h` that has the slot of `p`.
pub in_lap : (n h p : ℕ) → 0 < n → (i : ℕ) × (h ≤ i) × (i < h + n) × (i % n ≡ p % n)
in_lap n h p pos = elim (Bool-cases (leb (h % n) (p % n))) [
  | inl le ↦
      let d = p % n - h % n in
      (
        h + d,
        omega arith,
        ground (arith, mod-lt p pos),
        sym (mod-add-mod h n d) ∙ ap (λ k. k % n) (ground arith) ∙ mod-eq_of_lt (mod-lt p pos),
      )
  | inr gt ↦
      let d = p % n + n - h % n in
      (
        h + d,
        omega arith,
        ground (arith, mod-lt p pos, mod-lt h pos),
        sym (mod-add-mod h n d)
            ∙ ap (λ k. k % n) (ground (arith, mod-lt h pos))
            ∙ wrap (p % n) (mod-lt p pos),
      )
]
  where
    wrap : (k : ℕ) → k < n → (k + n) % n ≡ k
    wrap k lt = add-mod_right k n ∙ mod-eq_of_lt lt

-- Neighbours have different slots.
pub next-ne : (n_slots i : ℕ) → 2 ≤ n_slots → (i + 1) % n_slots ≢ i % n_slots
next-ne n_slots i large = slots-ne n_slots i (i + 1) (omega arith) (omega arith)

-- Two positions that share a slot do not differ by one, nor by one less than a lap.
pub apart_next : (n i p : ℕ) → 2 ≤ n → i % n ≡ p % n → p ≢ i + 1
apart_next n i p large e q = next-ne n i large (ap (λ k. k % n) (sym q) ∙ sym e)

pub apart_lap : (n i p : ℕ) → 2 ≤ n → i % n ≡ p % n → p + n ≢ i + 1
apart_lap n i p large e q = next-ne n i large (ap (λ k. k % n) (sym q) ∙ add-mod_right p n ∙ sym e)

module _ {A : Type 0} (n_slots : ℕ) where
  pub record IsValid (q : Queue A) : Type 0 where
    pub behind : q.head ≤ position q.tail
    pub lap :
        (i : ℕ)
        → q.head ≤ i
        → i < q.head + n_slots
        → SlotOk n_slots (position q.tail) i (seq_of n_slots q i)

  -- the queue's 64-bit positions have not run out
  pub record InRange (q : Queue A) : Type 0 where
    pub positions : position q.tail < 2 ^ 62
    pub fits : n_slots < 2 ^ 62

  module _ (large : 2 ≤ n_slots) where
    pub new_queue-IsValid : (storage : ℕ → A) → IsValid (new_queue storage)
    new_queue-IsValid storage = record {
      behind = omega arith;
      lap = λ i lo hi. free (mod-eq_of_lt (omega arith));
    }

    -- A producer whose turn it is holds a position of the current lap.
    pub turn_in_lap :
        (q : Queue A) (pos : ℕ)
        → IsValid q
        → pos < 2 ^ 62
        → seq_of n_slots q pos ≡ pos
        → (q.head ≤ pos) × (pos < q.head + n_slots)
    turn_in_lap q pos v small turn = go (in_lap n_slots q.head pos (omega arith))
      where
        go :
            ((i : ℕ) × (q.head ≤ i) × (i < q.head + n_slots) × (i % n_slots ≡ pos % n_slots))
            → (q.head ≤ pos) × (pos < q.head + n_slots)
        go (i, lo, hi, e) =
            let held : seq_of n_slots q i ≡ pos = ap q.seq e ∙ turn in
            elim (v.lap i lo hi) [
              | free f ↦ omega arith
              | published lt f b ↦ absurd (apart_next n_slots i pos large e (omega arith))
              | draining le f b ↦ absurd (apart_lap n_slots i pos large e (omega arith))
            ]

    -- A consumer that has yet to release its slot holds a position of the lap before.
    pub held_before :
        (q : Queue A) (pos : ℕ)
        → IsValid q
        → pos < q.head
        → undead (seq_of n_slots q pos) ≡ pos + 1
        → (position q.tail < 2 ^ 62)
        → n_slots < 2 ^ 62
        → q.head ≤ pos + n_slots
    held_before q pos v gone held small fits = go (in_lap n_slots q.head pos (omega arith))
      where
        go :
            ((i : ℕ) × (q.head ≤ i) × (i < q.head + n_slots) × (i % n_slots ≡ pos % n_slots))
            → q.head ≤ pos + n_slots
        go (i, lo, hi, e) =
            let raw : seq_of n_slots q i ≡ seq_of n_slots q pos = ap q.seq e in
            elim (v.lap i lo hi) [
              | free f ↦ absurd (apart_next n_slots pos i large (sym e) (omega (arith, v.behind)))
              | published lt f b ↦ absurd (omega arith)
              | draining le f b ↦ omega arith
            ]

    -- Writing the slot of a position of the lap leaves the others.
    pub put_lap :
        (q : Queue A) (pos raw : ℕ) (t : ℕ)
        → IsValid q
        → position q.tail ≤ t
        → q.head ≤ pos
        → pos < q.head + n_slots
        → SlotOk n_slots t pos raw
        → (i : ℕ) → q.head ≤ i
        → i < q.head + n_slots
        → SlotOk n_slots t i (put_at q.seq (pos % n_slots) raw (i % n_slots))
    put_lap q pos raw t v le lo hi ok i lo' hi' = elim (Bool-cases (pos == i)) [
      | inl same ↦
          let e : pos ≡ i = ground arith in
          let eq : (pos % n_slots == i % n_slots) ≡ true = rw e (ground arith) in rw (eq, sym e) ok
      | inr other ↦
          let eq : (pos % n_slots == i % n_slots) ≡ false = elim (Bool-cases (leb pos i)) [
            | inl before ↦ ground (arith, slots-ne n_slots pos i (ground arith) (omega arith))
            | inr after ↦ ground (arith, slots-ne n_slots i pos (ground arith) (omega arith))
          ] in
          rw eq (weaken le (v.lap i lo' hi'))
    ]
