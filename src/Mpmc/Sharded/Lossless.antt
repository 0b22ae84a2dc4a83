-- ===== src/Mpmc/Sharded/Lossless.antt =====
-- What is accepted by a ring is what is delivered and what the ring holds.
use principal_katas.Mpmc.Sharded.Lane.{
  Lane, known_head, look_room, write, known_tail, look_event, copy, free, Step, Reach,
}
use principal_katas.Prelude.{
  ◌-◌, length-window, length, window, ℕ, ◌%◌, ◌^◌, ◌≤◌, ◌<◌, ◌≡◌, refl, subst, true, false, ◌++◌,
  arith, ◌==◌, sub64, if◌then◌else◌,
}
use principal_katas.Mpmc.Sharded.{is_closed, position, close_ring, commit, push_begin, pop_ring}
use principal_katas.Mpmc.Sharded.Valid.{IsWritten, contents, new_ring-IsValid}
use principal_katas.Mpmc.Sharded.Known.{WriterOk, Inv}
use principal_katas.Mpmc.Sharded.Sides.{
  begin-Inv, look_room-Inv, write-Inv, finish-Inv, look_event-Inv, copy-Inv, free-Inv, shut-Inv,
}

module _ {A : Type 0} (n : ℕ) where
  module _ (large : 2 ≤ n) where
    reach-Inv : (slots : ℕ → A) {s : Lane A} → n < 2 ^ 62 → Reach n slots s → Inv n s
    unfolding window
    reach-Inv slots fits Reach.start = record {
      valid = new_ring-IsValid n large slots fits;
      writer_ok = omega arith;
      reader_ok = omega arith;
      lossless = refl;
    }
    reach-Inv slots fits (Reach.step {s} r small (Step.begins v e)) =
        begin-Inv n large v s (reach-Inv slots fits r)
    reach-Inv slots fits (Reach.step {s} r small (Step.looks word v e)) =
        look_room-Inv n large word v s (reach-Inv slots fits r) e
    reach-Inv slots fits (Reach.step {s} r small (Step.writes word v e)) =
        write-Inv n large word v s (reach-Inv slots fits r) e
    reach-Inv slots fits (Reach.step {s} r small (Step.finishes word v e)) =
        finish-Inv n large word v s (reach-Inv slots fits r) small e
    reach-Inv slots fits (Reach.step {s} r small (Step.finds e)) =
        look_event-Inv n large s (reach-Inv slots fits r)
    reach-Inv slots fits (Reach.step {s} r small (Step.copies e)) =
        copy-Inv n large s (reach-Inv slots fits r) e
    reach-Inv slots fits (Reach.step {s} r small (Step.frees v e)) =
        free-Inv n large v s (reach-Inv slots fits r) e
    reach-Inv slots fits (Reach.step {s} r small Step.shuts) =
        shut-Inv n large s (reach-Inv slots fits r)

    -- With two slots or more and positions below 2^62, wherever the producer, the consumer and a
    -- close meet, between any two of the loads and stores of the tail, of the head and of the slots:
    -- the events whose push returned ok are the events delivered followed by those in the ring, in
    -- order, and the ring holds at most its number of slots.
    pub lane_lossless :
        (slots : ℕ → A) {s : Lane A}
        → n < 2 ^ 62
        → Reach n slots s
        → (s.accepted ≡ s.delivered ++ contents n s.ring) × (length (contents n s.ring) ≤ n)
    lane_lossless slots {s} fits r =
        let inv = reach-Inv slots fits r in
        (
          inv.lossless,
          omega (
            arith,
            length-window s.ring.slots n (s.ring.head % n) (position s.ring.tail - s.ring.head),
            inv.valid.bounded,
            inv.valid.behind,
          ),
        )

    -- In the same runs, once the ring is closed no step adds to the accepted events, whatever was
    -- begun before, and no step opens it again.
    pub shut_accepts_none :
        (slots : ℕ → A) {s s' : Lane A}
        → n < 2 ^ 62
        → Reach n slots s
        → is_closed s.ring.tail ≡ true
        → Step n s s'
        → (s'.accepted ≡ s.accepted) × (is_closed s'.ring.tail ≡ true)
    unfolding commit close_ring
    shut_accepts_none slots {s} fits r c (Step.begins v e) = (refl, c)
    shut_accepts_none slots {s} fits r c (Step.looks word v e) = (refl, c)
    shut_accepts_none slots {s} fits r c (Step.writes word v e) = (refl, c)
    shut_accepts_none slots {s} fits r c (Step.finishes word v e) =
        let w : IsWritten n s.ring word v =
          subst (WriterOk n s.ring) e (reach-Inv slots fits r).writer_ok in
        (ground (arith, c, w.was_open), ground (arith, c, w.was_open))
    shut_accepts_none slots {s} fits r c (Step.finds e) = (refl, c)
    shut_accepts_none slots {s} fits r c (Step.copies e) = (refl, c)
    shut_accepts_none slots {s} fits r c (Step.frees v e) = (refl, c)
    shut_accepts_none slots {s} fits r c Step.shuts = (refl, ground (arith, c))

  -- With no other step between, the consumer's steps are `pop_ring`, and the producer's `push_begin`.
  pop_ring_steps :
      (s : Lane A)
      → (pop_ring n s.ring).2
        ≡ (if s.ring.head == known_tail n s.ring
            then look_event n s
            else free n (s.ring.slots (s.ring.head % n)) (copy n (look_event n s))).ring
  unfolding pop_ring
  pop_ring_steps s = ground arith

  push_begin_steps :
      (v : A) (s : Lane A)
      → is_closed s.ring.tail ≡ false
      → (push_begin n v s.ring).1
        ≡ (if sub64 (position s.ring.tail) (known_head n s.ring.tail s.ring) == n
            then look_room n s.ring.tail v s
            else write n s.ring.tail v (look_room n s.ring.tail v s)).ring
  unfolding push_begin
  push_begin_steps v s accepting = ground arith
