-- ===== src/Mpmc/Sharded/Turns.antt =====
-- The order in which a consumer tries its rings: arithmetic of a count that goes round once.
use native.Mathlib.Nat.{mod-eq_of_lt, mod-eq-sub-mod, mod-lt}
use principal_katas.Prelude.{
  ℕ, ◌+◌, ◌-◌, ◌%◌, ◌≤◌, ◌<◌, ◌≡◌, sym, ◌∙◌, ◌⊎◌, inl, inr, arith, leb, Bool-cases, if◌then◌else◌,
}

-- how many rings a consumer looks at before the one numbered `i`
abbrev pub distance : ℕ → ℕ → ℕ → ℕ
distance size next i = if leb next i then i - next else i + size - next

wrap : (size k : ℕ) → size ≤ k → k < size + size → k % size ≡ k - size
wrap size k le lt = mod-eq-sub-mod le ∙ mod-eq_of_lt (omega arith)

pub turn_of : (size next i : ℕ) → next < size → i < size → (next + distance size next i) % size ≡ i
turn_of size next i near lt = elim (Bool-cases (leb next i)) [
  | inl le ↦ rw le (mod-eq_of_lt (ground arith) ∙ ground arith)
  | inr gt ↦
      rw gt (wrap size (next + (i + size - next)) (ground arith) (ground arith) ∙ ground arith)
]

pub distance_lt : (size next i : ℕ) → next < size → i < size → distance size next i < size
distance_lt size next i near lt = ground arith

nearer_after :
    (size next i j j' t : ℕ)
    → next < size
    → i < size
    → t < distance size next i
    → ((next + t ≡ j) × (next + t < size)) ⊎ ((next + t ≡ j + size) × (j < size))
    → ((j + 1 ≡ j') × (j + 1 < size)) ⊎ ((j + 1 ≡ size) × (j' ≡ 0))
    → distance size j' i < distance size next i
nearer_after size next i j j' t near lt tt a b = ground arith

-- a sum that may go round once
round_of :
    (size k : ℕ)
    → k < size + size
    → ((k ≡ k % size) × (k < size)) ⊎ ((k ≡ k % size + size) × (k % size < size))
round_of size k lt = elim (Bool-cases (leb size k)) [
  | inl le ↦ inr (ground (arith, wrap size k), ground (arith, wrap size k))
  | inr gt ↦ inl (sym (mod-eq_of_lt (ground arith)), ground arith)
]

pub nearer :
    (size next i t : ℕ)
    → next < size
    → i < size
    → t < distance size next i
    → distance size (((next + t) % size + 1) % size) i < distance size next i
nearer size next i t near lt tt =
    let j = (next + t) % size in
    let d_lt = distance_lt size next i near lt in
    let a = round_of size (next + t) (omega arith) in
    let j_lt : j < size = mod-lt (next + t) (omega arith) in
    nearer_after size next i j ((j + 1) % size) t near lt tt a
      (ground (arith, round_of size (j + 1), wrap size (j + 1)))
