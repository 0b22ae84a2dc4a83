-- ===== src/Mpsc/Ring/Refine.antt =====
-- A valid ring is a queue of at most `capacity` events.
use native.Mathlib.Nat.{mod-mod_of_dvd, mod-add-mod, mod-lt}
use principal_katas.Prelude.{
  ℕ, zero, suc, ◌+◌, ◌%◌, ◌^◌, ◌≤◌, ◌<◌, ◌≡◌, refl, sym, ap, ap₂, ◌∙◌, ◌⊎◌, inl, inr, List, [], ◌∷◌,
  ◌++◌, arith, ◌==◌, ltb, add64, sub64, min, length, put_at, window, length-window, window-push,
  window-split, Bool-cases, if◌then◌else◌,
}
use principal_katas.Mpsc.Ring.{Ring, try_push, copy_out, pop_batch}
use principal_katas.Mpsc.Ring.Valid.{IsCapacity, IsValid}

-- Wrapping an index at 2^64 does not move its slot.
pub wrap_slot : (capacity n : ℕ) → IsCapacity capacity → n % 2 ^ 64 % capacity ≡ n % capacity
wrap_slot capacity n c = mod-mod_of_dvd capacity n c.divides

module _ {ℓ} {A : Type ℓ} (capacity : ℕ) where
  -- the events held, oldest first
  abbrev pub contents : Ring A → List A
  contents r = window r.slots capacity (r.head % capacity) (sub64 r.tail r.head)

  pub length-contents : (r : Ring A) → length (contents r) ≡ sub64 r.tail r.head
  length-contents r = length-window r.slots capacity (r.head % capacity) (sub64 r.tail r.head)

  module _ (c : IsCapacity capacity) where
    pub tail_slot :
        (r : Ring A)
        → IsValid capacity r
        → r.tail % capacity ≡ (r.head % capacity + sub64 r.tail r.head) % capacity
    tail_slot r v =
        let e : r.tail ≡ (r.head + sub64 r.tail r.head) % 2 ^ 64 = ground arith in
        ap (λ k. k % capacity) e
        ∙ wrap_slot capacity (r.head + sub64 r.tail r.head) c
        ∙ sym (mod-add-mod r.head capacity (sub64 r.tail r.head))

    pushed :
        (v : A) (r : Ring A)
        → IsValid capacity r
        → sub64 r.tail r.head < capacity
        → window
            (put_at r.slots (r.tail % capacity) v)
            capacity
            (r.head % capacity)
            (sub64 (add64 r.tail 1) r.head)
          ≡ contents r ++ v ∷ []
    pushed v r h room =
        let one_more : sub64 (add64 r.tail 1) r.head ≡ suc (sub64 r.tail r.head) = ground arith in
        rw one_more (
          window-push r.slots capacity (r.head % capacity) (sub64 r.tail r.head) (r.tail % capacity)
            v (mod-lt r.head (ground arith)) room (tail_slot r h))

    -- In a valid ring of a capacity that divides 2^64, a push is refused exactly when the ring
    -- holds `capacity` events, and then changes none of them; otherwise it appends its event.
    pub try_push_refines :
        (v : A) {r : Ring A}
        → IsValid capacity r
        → let (ok, r') = try_push capacity v r in
          (ok ≡ ltb (length (contents r)) capacity)
          × (contents r' ≡ (if ok then contents r ++ v ∷ [] else contents r))
    unfolding try_push
    try_push_refines v {r} h = elim (Bool-cases (sub64 r.tail r.head == capacity)) [
      | inl full ↦ ground (arith, length-contents r)
      | inr room ↦ ground (arith, length-contents r, pushed v r h (ground arith))
    ]

    pub copy_out-window :
        (slots : ℕ → A) (h i left : ℕ)
        → copy_out capacity slots h i left ≡ window slots capacity ((h + i) % capacity) left
    unfolding copy_out window
    copy_out-window slots h i zero = refl
    copy_out-window slots h i (suc left) = ap₂ ◌∷◌ (ap slots (wrap_slot capacity (h + i) c)) (
        copy_out-window slots h (i + 1) left
        ∙ ap (λ k. window slots capacity k left)
            (ap (λ k. k % capacity) (omega arith) ∙ sym (mod-add-mod (h + i) capacity 1)))

    -- the first `n` events, and what is left
    pub taken :
        (r : Ring A) (n : ℕ)
        → IsValid capacity r
        → n ≤ sub64 r.tail r.head
        → contents r
          ≡ copy_out capacity r.slots r.head 0 n
            ++ window r.slots capacity (add64 r.head n % capacity) (sub64 r.tail (add64 r.head n))
    taken r n h le =
        ap (window r.slots capacity (r.head % capacity)) sizes
        ∙ window-split r.slots capacity (r.head % capacity) n (sub64 r.tail (add64 r.head n))
            (mod-lt r.head (ground arith))
        ∙ ap₂ ◌++◌
            (sym (
              copy_out-window r.slots r.head 0 n
              ∙ ap (λ k. window r.slots capacity (k % capacity) n) (omega arith)))
            (ap (λ k. window r.slots capacity k (sub64 r.tail (add64 r.head n)))
              (mod-add-mod r.head capacity n ∙ sym (wrap_slot capacity (r.head + n) c)))
      where
        sizes : sub64 r.tail r.head ≡ n + sub64 r.tail (add64 r.head n)
        sizes = ground arith

    length-copy_out : (slots : ℕ → A) (h i n : ℕ) → length (copy_out capacity slots h i n) ≡ n
    unfolding copy_out
    length-copy_out slots h i zero = refl
    length-copy_out slots h i (suc n) = ap suc (length-copy_out slots h (i + 1) n)

    -- what a batch of `m` events does, if the ring holds that many
    batch :
        (r : Ring A) (m : ℕ)
        → IsValid capacity r
        → m ≤ sub64 r.tail r.head
        → (contents r
            ≡ copy_out capacity r.slots r.head 0 m ++ contents (record r { head = add64 r.head m }))
          × (m ≡ length (copy_out capacity r.slots r.head 0 m))
    batch r m h le = (taken r m h le, sym (length-copy_out r.slots r.head 0 m))

    contents-empty : (r : Ring A) → IsValid capacity r → r.head ≡ r.tail → contents r ≡ []
    unfolding window
    contents-empty r h e =
        let none_held : sub64 r.tail r.head ≡ 0 = ground arith in
        ap (window r.slots capacity (r.head % capacity)) none_held

    pub pop_batch_refines :
        (n : ℕ) {r : Ring A}
        → IsValid capacity r
        → let (k, out, r') = pop_batch capacity n r in
          (contents r ≡ out ++ contents r')
          × (k ≡ length out)
          × (k ≤ n)
          × ((k ≡ 0) → (n ≡ 0) ⊎ (contents r ≡ []))
    unfolding pop_batch
    pop_batch_refines n {r} h = elim (Bool-cases (r.head == r.cached_tail)) [
      | inl stale ↦ elim (Bool-cases (r.head == r.tail)) [
        | inl empty ↦
            rw (stale, empty)
              (refl, refl, omega arith, λ _. inr (contents-empty r h (ground arith)))
        | inr some_held ↦
            let (c1, c2) = batch r (min n (sub64 r.tail r.head)) h (omega arith) in
            rw (stale, some_held) (c1, c2, omega arith, λ z. inl (ground arith))
      ]
      | inr known ↦
          let (c1, c2) = batch r (min n (sub64 r.cached_tail r.head)) h (ground arith) in
          rw (known, known) (c1, c2, omega arith, λ z. inl (ground arith))
    ]

    -- In a valid ring of a capacity that divides 2^64, a batch takes its events off the front, in
    -- order, at most `n` of them and at least one if the ring holds any and `n` is not 0; the
    -- number returned is the number written.
    pub pop_batch_takes :
        (n : ℕ) {r : Ring A}
        → IsValid capacity r
        → let (k, out, r') = pop_batch capacity n r in
          (contents r ≡ out ++ contents r')
          × (k ≡ length out)
          × (k ≤ n)
          × ((0 < k) ⊎ ((n ≡ 0) ⊎ (contents r ≡ [])))
    pop_batch_takes n {r} h =
        let (c1, c2, c3, c4) = pop_batch_refines n h in
        (
          c1,
          c2,
          c3,
          elim (Bool-cases ((pop_batch capacity n r).0 == 0)) [
            | inl z ↦ inr (c4 (ground arith))
            | inr some_taken ↦ inl (ground arith)
          ],
        )
