-- ===== src/Mpmc/Sharded/Sides.antt =====
-- Every step of the producer, of the consumer and of a close keeps what is known of the ring.
use native.Mathlib.Nat.{mod-lt}
use principal_katas.Mpmc.Sharded.Lane.{
  idle, loaded, roomy, written, resting, reading, holding, Lane, begin, known_head, look_room,
  write, finish, known_tail, look_event, copy, free,
}
use principal_katas.Prelude.{
  ◌-◌, window-put_past, step-ne, ℕ, zero, suc, ◌+◌, ◌%◌, ◌^◌, ◌≤◌, ◌<◌, ◌≡◌, ◌≢◌, refl, sym, subst,
  ap, ◌∙◌, inl, inr, false, [], ◌∷◌, ◌++◌, arith, append_assoc, put_at, ◌==◌, sub64, Bool-cases,
  if◌then◌else◌,
}
use principal_katas.Mpmc.Sharded.{Ring, is_closed, position, close_ring, commit}
use principal_katas.Mpmc.Sharded.Valid.{
  IsWritten, contents, commit-IsValid, commit-contents, past_slot, first_event, close_ring-IsValid,
  close_ring-contents,
}
use principal_katas.Mpmc.Sharded.Known.{
  near, WriterOk, ReaderOk, Inv, WriterOk-kept, ReaderOk-kept, commit_kept, close_kept, grown,
  put_away, put_here,
}

module _ {A : Type 0} (n : ℕ) where
  module _ (large : 2 ≤ n) where
    pub begin-Inv : (v : A) (s : Lane A) → Inv n s → Inv n (begin n v s)
    begin-Inv v s inv = record {
      valid = inv.valid;
      writer_ok = elim (Bool-cases (is_closed s.ring.tail)) [
        | inl c ↦ rw c (omega arith)
        | inr c ↦ rw c (ground arith, refl)
      ];
      reader_ok = inv.reader_ok;
      lossless = inv.lossless;
    }

    pub look_room-Inv :
        (word : ℕ) (v : A) (s : Lane A)
        → Inv n s
        → s.writer ≡ loaded word v
        → Inv n (look_room n word v s)
    look_room-Inv word v s inv e =
        let (was_open, here) = subst (WriterOk n s.ring) e inv.writer_ok in
        let val = inv.valid in
        let head = known_head n word s.ring in
        let ring : Ring A = record s.ring { cached_head = head } in
        let le : head ≤ s.ring.head = ground (arith, val.behind) in
        let up : position s.ring.tail ≤ head + n = ground (arith, val.bounded, val.behind) in
        record {
          valid = record {
            behind = le;
            bounded = up;
            known = val.known;
            ahead = val.ahead;
            in_range = val.in_range;
            fits = val.fits;
          };
          writer_ok = elim (Bool-cases (sub64 (position word) head == n)) [
            | inl full ↦
                subst (λ b. WriterOk n ring (if b then idle else roomy word v)) (sym full)
                  (omega arith)
            | inr room ↦
                subst (λ b. WriterOk n ring (if b then idle else roomy word v)) (sym room)
                  (
                    was_open,
                    here,
                    near n (position word) head room (omega (arith, here, le, val.known, val.ahead))
                        (omega (arith, here, up)) (omega (arith, here, val.in_range)),
                  )
          ];
          reader_ok = ReaderOk-kept n s.ring ring s.reader refl refl (λ l. refl) inv.reader_ok;
          lossless = inv.lossless;
        }

    pub write-Inv :
        (word : ℕ) (v : A) (s : Lane A)
        → Inv n s
        → s.writer ≡ roomy word v
        → Inv n (write n word v s)
    write-Inv word v s inv e =
        let (was_open, here, room) = subst (WriterOk n s.ring) e inv.writer_ok in
        let val = inv.valid in
        let held = position s.ring.tail - s.ring.head in
        let size : held < n = omega (arith, here, room, val.behind) in
        let at : position word % n ≡ (s.ring.head % n + held) % n =
          ap (λ k. k % n) here ∙ past_slot n large s.ring val in
        let slots : ℕ → A = put_at s.ring.slots (position word % n) v in
        let ring : Ring A = record s.ring { slots = slots } in
        record {
          valid = record {
            behind = val.behind;
            bounded = val.bounded;
            known = val.known;
            ahead = val.ahead;
            in_range = val.in_range;
            fits = val.fits;
          };
          writer_ok = record {
            was_open = was_open;
            here = here;
            room = room;
            stored = put_here n s.ring.slots (position word % n) v;
          };
          reader_ok =
              ReaderOk-kept n s.ring ring s.reader refl refl
                (λ l.
                  put_away n s.ring.slots (position word % n) (s.ring.head % n) v
                    (apart held size (omega (arith, l, val.ahead)) at))
                inv.reader_ok;
          lossless =
              inv.lossless
              ∙ ap (λ l. s.delivered ++ l)
                  (sym (
                    window-put_past s.ring.slots n (s.ring.head % n) held (position word % n) v
                      (mod-lt s.ring.head (omega arith)) size at));
        }
      where
        apart :
            (held : ℕ)
            → held < n
            → 0 < held
            → position word % n ≡ (s.ring.head % n + held) % n
            → position word % n ≢ s.ring.head % n
        apart zero size some_held at e = omega (arith, some_held)
        apart (suc k) size some_held at e =
            step-ne {size = n} {h = s.ring.head % n} {k = k} (mod-lt s.ring.head (omega arith)) size
              (sym at ∙ e)

    pub finish-Inv :
        (word : ℕ) (v : A) (s : Lane A)
        → Inv n s
        → position s.ring.tail + 2 < 2 ^ 62
        → s.writer ≡ written word v
        → Inv n (finish n word v s)
    finish-Inv word v s inv small e =
        let w : IsWritten n s.ring word v = subst (WriterOk n s.ring) e inv.writer_ok in
        let (h, c, k) = commit_kept n word s.ring in
        record {
          valid = commit-IsValid n large word v s.ring inv.valid w small;
          writer_ok = omega arith;
          reader_ok =
              ReaderOk-kept n s.ring (commit word s.ring).1 s.reader h c
                (λ l. ap (λ f. f (s.ring.head % n)) k) inv.reader_ok;
          lossless =
              grown n (commit word s.ring).0 v s.accepted s.delivered (contents n s.ring)
                (contents n (commit word s.ring).1) inv.lossless
                (commit-contents n large word v s.ring inv.valid w);
        }

    pub look_event-Inv : (s : Lane A) → Inv n s → Inv n (look_event n s)
    look_event-Inv s inv =
        let val = inv.valid in
        let tail = known_tail n s.ring in
        let ring : Ring A = record s.ring { cached_tail = tail } in
        let le : s.ring.head ≤ tail = ground (arith, val.known, val.ahead) in
        record {
          valid = record {
            behind = val.behind;
            bounded = val.bounded;
            known = le;
            ahead = ground (arith, val.known, val.ahead);
            in_range = val.in_range;
            fits = val.fits;
          };
          writer_ok = WriterOk-kept n s.ring ring s.writer refl refl refl inv.writer_ok;
          reader_ok = elim (Bool-cases (s.ring.head == tail)) [
            | inl empty ↦
                subst (λ b. ReaderOk n ring (if b then resting else reading)) (sym empty)
                  (omega arith)
            | inr there ↦
                subst (λ b. ReaderOk n ring (if b then resting else reading)) (sym there)
                  (before s.ring.head tail le there)
          ];
          lossless = inv.lossless;
        }
      where
        before : (h t : ℕ) → h ≤ t → (h == t) ≡ false → h < t
        before h t le e = ground arith

    pub copy-Inv : (s : Lane A) → Inv n s → s.reader ≡ reading → Inv n (copy n s)
    copy-Inv s inv e = record {
      valid = inv.valid;
      writer_ok = inv.writer_ok;
      reader_ok = (subst (ReaderOk n s.ring) e inv.reader_ok, refl);
      lossless = inv.lossless;
    }

    pub free-Inv : (v : A) (s : Lane A) → Inv n s → s.reader ≡ holding v → Inv n (free n v s)
    free-Inv v s inv e =
        let (there, at) = subst (ReaderOk n s.ring) e inv.reader_ok in
        let val = inv.valid in
        let r' = (free n v s).ring in
        record {
          valid = record {
            behind = omega (arith, val.behind, there, val.ahead, val.in_range);
            bounded = val.bounded;
            known = omega (arith, there, val.ahead, val.in_range);
            ahead = val.ahead;
            in_range = val.in_range;
            fits = val.fits;
          };
          writer_ok = WriterOk-kept n s.ring r' s.writer refl refl refl inv.writer_ok;
          reader_ok = omega arith;
          lossless =
              inv.lossless
              ∙ ap (λ l. s.delivered ++ l)
                  (first_event n large s.ring val (omega (arith, there, val.ahead))
                    ∙ ap (λ x. x ∷ contents n r') at)
              ∙ sym (append_assoc s.delivered (v ∷ []) (contents n r'));
        }

    pub shut-Inv : (s : Lane A) → Inv n s → Inv n (record s { ring = close_ring s.ring })
    unfolding close_ring
    shut-Inv s inv = record {
      valid = close_ring-IsValid n large s.ring inv.valid;
      writer_ok =
          WriterOk-kept n s.ring (close_ring s.ring) s.writer (close_kept n s.ring) refl refl
            inv.writer_ok;
      reader_ok =
          ReaderOk-kept n s.ring (close_ring s.ring) s.reader refl refl (λ l. refl) inv.reader_ok;
      lossless =
          inv.lossless ∙ ap (λ l. s.delivered ++ l) (sym (close_ring-contents n large s.ring));
    }
