-- ===== src/Mpmc/Sharded/Valid.antt =====
-- What holds of a ring between two accesses of shared memory, and what the accesses do to the
-- events it holds. The 64-bit positions do not reach 2^62.
use native.Mathlib.Nat.{mod-add-mod, mod-lt}
use principal_katas.Prelude.{
  ℕ, suc, ◌+◌, ◌-◌, ◌%◌, ◌^◌, ◌≤◌, ◌<◌, ◌≡◌, refl, sym, ap, ◌∙◌, ◌⊎◌, inl, inr, none, some, List,
  [], ◌∷◌, ◌++◌, arith, ◌==◌, sub64, add64, put_at, window, window-put_past, window-snoc,
  Bool-cases, if◌then◌else◌,
}
use principal_katas.Mpmc.Api.{Push}
use principal_katas.Mpmc.EventCount.{notify_one}
use principal_katas.Mpmc.Sharded.{
  Ring, new_ring, is_closed, position, close_ring, commit, push_begin, pop_ring,
}

module _ {A : Type 0} (n : ℕ) where
  pub record IsValid (r : Ring A) : Type 0 where
    pub behind : r.cached_head ≤ r.head
    pub bounded : position r.tail ≤ r.cached_head + n
    pub known : r.head ≤ r.cached_tail
    pub ahead : r.cached_tail ≤ position r.tail
    pub in_range : position r.tail + 1 < 2 ^ 62
    pub fits : n < 2 ^ 62

  -- a write that waits for its compare-and-swap on `word`
  pub record IsWritten (r : Ring A) (word : ℕ) (v : A) : Type 0 where
    pub was_open : word % 2 ≡ 0
    pub here : position word ≡ position r.tail
    pub room : position word < r.cached_head + n
    pub stored : r.slots (position word % n) ≡ v

  -- the events held, oldest first
  abbrev pub contents : Ring A → List A
  contents r = window r.slots n (r.head % n) (position r.tail - r.head)

  module _ (large : 2 ≤ n) where
    pub new_ring-IsValid : (slots : ℕ → A) → n < 2 ^ 62 → IsValid (new_ring slots)
    new_ring-IsValid slots f = omega (arith, f)

    -- the slot past the contents
    pub past_slot :
        (r : Ring A)
        → IsValid r
        → position r.tail % n ≡ (r.head % n + (position r.tail - r.head)) % n
    past_slot r v =
        ap (λ k. k % n) (omega (arith, v.known, v.ahead))
        ∙ sym (mod-add-mod r.head n (position r.tail - r.head))

    pub push_begin-IsValid : (v : A) (r : Ring A) → IsValid r → IsValid (push_begin n v r).1
    unfolding push_begin
    push_begin-IsValid v r h = ground arith

    pub push_begin-contents :
        (v : A) (r : Ring A) → IsValid r → contents (push_begin n v r).1 ≡ contents r
    unfolding push_begin
    push_begin-contents v r h = elim (Bool-cases (is_closed r.tail)) [
      | inl c ↦ rw c refl
      | inr c ↦ elim (Bool-cases (sub64 (position r.tail) r.cached_head == n)) [
        | inl believed ↦ elim (Bool-cases (sub64 (position r.tail) r.head == n)) [
          | inl full ↦ rw (c, believed, full) refl
          | inr room ↦ rw (c, believed, room) (kept (ground (arith, h.behind, h.bounded)))
        ]
        | inr room ↦ rw (c, room, room) (kept (ground (arith, h.behind, h.bounded)))
      ]
    ]
      where
        kept :
            position r.tail - r.head < n
            → window
                (put_at r.slots (position r.tail % n) v)
                n
                (r.head % n)
                (position r.tail - r.head)
              ≡ contents r
        kept room =
            window-put_past r.slots n (r.head % n) (position r.tail - r.head) (position r.tail % n)
              v (mod-lt r.head (omega arith)) room (past_slot r h)

    -- refused, or written on the tail as it was
    pub push_begin_cases :
        (v : A) (r : Ring A)
        → IsValid r
        → ((res : Push) × ((push_begin n v r).0 ≡ inl res))
          ⊎ (((push_begin n v r).0 ≡ inr r.tail) × IsWritten (push_begin n v r).1 r.tail v)
    unfolding push_begin
    push_begin_cases v r h = elim (Bool-cases (is_closed r.tail)) [
      | inl c ↦ rw c (inl (Push.closed, refl))
      | inr c ↦ elim (Bool-cases (sub64 (position r.tail) r.cached_head == n)) [
        | inl believed ↦ elim (Bool-cases (sub64 (position r.tail) r.head == n)) [
          | inl full ↦ rw (c, believed, full) (inl (Push.full, refl))
          | inr room ↦
              rw (c, believed, room)
                (inr (
                  refl,
                  record {
                    was_open = ground arith;
                    here = refl;
                    room = ground (arith, h.behind, h.bounded, h.known, h.ahead);
                    stored = ground arith;
                  },
                ))
        ]
        | inr room ↦
            rw (c, room, room)
              (inr (
                refl,
                record {
                  was_open = ground arith;
                  here = refl;
                  room = ground (arith, h.behind, h.bounded);
                  stored = ground arith;
                },
              ))
      ]
    ]

    pub commit-IsValid :
        (word : ℕ) (v : A) (r : Ring A)
        → IsValid r
        → IsWritten r word v
        → position r.tail + 2 < 2 ^ 62
        → IsValid (commit word r).1
    unfolding commit
    commit-IsValid word v r h w small = ground (arith, w.room, w.here, w.was_open)

    pub commit-contents :
        (word : ℕ) (v : A) (r : Ring A)
        → IsValid r
        → IsWritten r word v
        → let (ok, r') = commit word r in
          contents r' ≡ (if ok then contents r ++ v ∷ [] else contents r)
    unfolding commit
    commit-contents word v r h w = elim (Bool-cases (r.tail == word)) [
      | inl e ↦
          let one_more : position (add64 word 2) - r.head ≡ suc (position r.tail - r.head) =
            ground (arith, w.here, h.known, h.ahead, h.in_range) in
          rw (e, one_more)
            (window-snoc r.slots n (r.head % n) (position r.tail - r.head)
                (mod-lt r.head (omega arith))
              ∙ ap (λ x. contents r ++ x ∷ [])
                  (ap r.slots (sym (past_slot r h) ∙ ap (λ k. k % n) (sym w.here)) ∙ w.stored))
      | inr e ↦ rw e refl
    ]

    pub pop_ring-IsValid : (r : Ring A) → IsValid r → IsValid (pop_ring n r).2
    unfolding pop_ring notify_one
    pop_ring-IsValid r h = ground arith

    pub first_event :
        (r : Ring A)
        → IsValid r
        → r.head < position r.tail
        → contents r
          ≡ r.slots (r.head % n)
            ∷ window r.slots n (add64 r.head 1 % n) (position r.tail - add64 r.head 1)
    unfolding window
    first_event r h held =
        let size : position r.tail - r.head ≡ suc (position r.tail - add64 r.head 1) =
          ground (arith, h.in_range) in
        let next : (r.head % n + 1) % n ≡ add64 r.head 1 % n =
          mod-add-mod r.head n 1 ∙ ap (λ k. k % n) (omega (arith, h.in_range)) in
        rw (size, next) refl

    -- the first event and the others, or nothing and all
    pub pop_ring-contents :
        (r : Ring A)
        → IsValid r
        → let (got, woke, r') = pop_ring n r in
          contents r ≡ elim got [ none ↦ contents r' | some v ↦ v ∷ contents r' ]
    unfolding pop_ring window
    pop_ring-contents r h = elim (Bool-cases (r.head == position r.tail)) [
      | inl empty ↦ ground (arith, h.known, h.ahead)
      | inr held ↦ ground (arith, first_event r h (ground (arith, h.known, h.ahead)))
    ]

    -- nothing exactly when the ring is empty
    pub pop_ring-none :
        (r : Ring A) → IsValid r → r.head ≡ position r.tail → (pop_ring n r).0 ≡ none
    unfolding pop_ring
    pop_ring-none r h e = ground (arith, h.known, h.ahead)

    pub pop_ring-some :
        (r : Ring A)
        → IsValid r
        → r.head < position r.tail
        → (pop_ring n r).0 ≡ some (r.slots (r.head % n))
    unfolding pop_ring
    pop_ring-some r h lt = ground (arith, h.known, h.ahead)

    pub pop_ring_stays : (r : Ring A) → (pop_ring n r).0 ≡ none → (pop_ring n r).2.head ≡ r.head
    unfolding pop_ring
    pop_ring_stays r e = ground (arith, e)

    -- what the producer's pending write rests on
    pub pop_ring_kept :
        (r : Ring A)
        → let r' = (pop_ring n r).2 in
          (r'.tail ≡ r.tail) × (r'.cached_head ≡ r.cached_head) × (r'.slots ≡ r.slots)
    unfolding pop_ring notify_one
    pop_ring_kept r = (ground arith, ground arith, ground arith)

    pub close_ring-IsValid : (r : Ring A) → IsValid r → IsValid (close_ring r)
    unfolding close_ring
    close_ring-IsValid r h = ground arith

    pub close_ring-contents : (r : Ring A) → contents (close_ring r) ≡ contents r
    unfolding close_ring
    close_ring-contents r = ground arith
