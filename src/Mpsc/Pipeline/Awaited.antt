-- ===== src/Mpsc/Pipeline/Awaited.antt =====
-- What the moves of the handshake keep.
use principal_katas.Prelude.{
  ℕ, ◌≡◌, ◌≢◌, refl, ap, ◌∙◌, inl, inr, Bool, true, false, not, ◌&&◌, ◌||◌, ◌==◌, put_at, arith,
  Bool-cases,
}
use principal_katas.Mpsc.Ring.{Ring, try_push, empty_now}
use principal_katas.Mpsc.Ring.Valid.{IsCapacity, IsValid, try_push-IsValid, empty_now-IsValid}
use principal_katas.Mpsc.Pipeline.{no_bits}
use principal_katas.Mpsc.Pipeline.Drain.{put_same, put_other}
use principal_katas.Mpsc.Pipeline.Handshake.{
  quiet, Sweeper, scanning, cleared, restoring, System, after_push, after_recheck, is_sleeping,
}
use principal_katas.Mpsc.Pipeline.Shown.{
  is_sending, is_calling, is_clearing, is_empty, shows, Inv, calling_kept, Near-Inv, found_empty,
  pushed_shows, sweeper-Inv, at_sender, at_sweeper,
}

module _ {E : Type 0} (capacity n_producers : ℕ) (ok : IsCapacity capacity) where
  pub push-Inv :
      (s : System E) (i : ℕ) (e : E)
      → Inv capacity n_producers s
      → s.sender i ≡ quiet
      → Inv capacity n_producers (record s {
        rings = put_at s.rings i (try_push capacity e (s.rings i)).1;
        sender = put_at s.sender i (after_push (try_push capacity e (s.rings i)).0);
      })
  push-Inv s i e inv q =
      let r = (try_push capacity e (s.rings i)).1 in
      let w = after_push (try_push capacity e (s.rings i)).0 in
      Near-Inv capacity n_producers s
        (record s { rings = put_at s.rings i r; sender = put_at s.sender i w }) i inv
        (record {
          rings_kept = λ j ne. put_other s.rings i r j ne;
          bits_kept = λ j ne. refl;
          senders_kept = λ j ne. put_other s.sender i w j ne;
          clearing_kept = λ j ne c. c;
        })
        (rw (put_same s.rings i r) (try_push-IsValid capacity ok e (inv.valid i)))
        (rw (put_same s.rings i r, put_same s.sender i w)
          (pushed_shows capacity n_producers ok e (s.rings i) (s.bits i) (is_clearing s.sweeper i)
            (inv.valid i) (at_sender capacity n_producers ok s i quiet inv q)))
        (λ z b. calling_kept s.sender i w (ap is_calling q) (inv.woken z b))

  -- a round of draining, or a look at a ring, after which the ring is empty if it was
  pub drain-Inv :
      (s : System E) (i : ℕ) (r : Ring E) (w : Sweeper)
      → Inv capacity n_producers s
      → s.sweeper ≡ scanning
      → IsValid capacity r
      → (is_empty (s.rings i) ≡ true → is_empty r ≡ true)
      → is_sleeping w ≡ false
      → Inv capacity n_producers (record s { rings = put_at s.rings i r; sweeper = w })
  drain-Inv s i r w inv at v empties up =
      sweeper-Inv capacity n_producers ok s i (put_at s.rings i r) s.bits w inv
        (λ j ne. put_other s.rings i r j ne) (λ j ne. refl)
        (λ j ne c. absurd (none_clear j (ap (λ k. is_clearing k j) at) c))
        (rw (put_same s.rings i r) v)
        (rw (put_same s.rings i r) (
          or_more (is_empty (s.rings i)) (is_empty r) (s.bits i) (is_sending (s.sender i))
            (is_clearing w i) empties (at_sweeper capacity n_producers ok s i scanning inv at)))
        up
    where
      none_clear : (j : ℕ) → is_clearing s.sweeper j ≡ false → is_clearing s.sweeper j ≡ true → ⊥
      none_clear j e c = ground arith

      or_more :
          (e e' b w c : Bool)
          → (e ≡ true → e' ≡ true)
          → (e || (b || (w || false))) ≡ true
          → (e' || (b || (w || c))) ≡ true
      or_more true e' b w c f h = rw (f refl) (ground arith)
      or_more false e' b w c f h = ground arith

  pub recheck-Inv :
      (s : System E) (i : ℕ) (retiring : Bool)
      → Inv capacity n_producers s
      → s.sweeper ≡ cleared i
      → Inv capacity n_producers (record s {
        rings = put_at s.rings i (empty_now (s.rings i)).1;
        sweeper = after_recheck i ((empty_now (s.rings i)).0 && not retiring);
      })
  unfolding after_recheck
  recheck-Inv s i retiring inv at =
      let r = (empty_now (s.rings i)).1 in
      let v = empty_now-IsValid capacity ok (inv.valid i) in
      let clears : (j : ℕ) → i ≢ j → is_clearing s.sweeper j ≡ false =
        λ j ne. ap (λ k. is_clearing k j) at ∙ not_at i j ne in
      let sweep : (w : Sweeper)
          → is_sleeping w ≡ false
          → shows r (s.bits i) (s.sender i) (is_clearing w i) ≡ true
          → Inv capacity n_producers (record s { rings = put_at s.rings i r; sweeper = w }) =
        λ w up here.
          sweeper-Inv capacity n_producers ok s i (put_at s.rings i r) s.bits w inv
            (λ j ne. put_other s.rings i r j ne) (λ j ne. refl)
            (λ j ne c. absurd (clash (is_clearing s.sweeper j) (clears j ne) c))
            (rw (put_same s.rings i r) v) (rw (put_same s.rings i r) here) up in
      elim (Bool-cases ((empty_now (s.rings i)).0 && not retiring)) [
        | inl empty ↦ rw empty (
            sweep scanning refl (
              shown (is_empty r) (s.bits i) (is_sending (s.sender i))
                (found_empty capacity n_producers ok (s.rings i) (inv.valid i) (ground arith))))
        | inr held ↦ rw held (
            sweep (restoring i) refl
              (last (is_empty r) (s.bits i) (is_sending (s.sender i)) (i == i) (ground arith)))
      ]
    where
      not_at : (i j : ℕ) → i ≢ j → (i == j) ≡ false
      not_at i j ne = ground (arith, ne)

      clash : (b : Bool) → b ≡ false → b ≡ true → ⊥
      clash b e e' = ground arith

      shown : (e b w : Bool) → e ≡ true → (e || (b || (w || false))) ≡ true
      shown e b w h = ground arith

      last : (e b w c : Bool) → c ≡ true → (e || (b || (w || c))) ≡ true
      last e b w c h = ground arith

  -- the consumer sets or clears the bit of ring `i`, which shows by that or by what it is to do
  pub bit-Inv :
      (s : System E) (i : ℕ) (b : Bool) (w : Sweeper)
      → Inv capacity n_producers s
      → ((j : ℕ) → i ≢ j → is_clearing s.sweeper j ≡ false)
      → (b || is_clearing w i) ≡ true
      → is_sleeping w ≡ false
      → Inv capacity n_producers (record s { bits = put_at s.bits i b; sweeper = w })
  bit-Inv s i b w inv none here up =
      sweeper-Inv capacity n_producers ok s i s.rings (put_at s.bits i b) w inv (λ j ne. refl)
        (λ j ne. put_other s.bits i b j ne)
        (λ j ne c. absurd (clash (is_clearing s.sweeper j) (none j ne) c)) (inv.valid i)
        (rw (put_same s.bits i b)
          (either (is_empty (s.rings i)) b (is_sending (s.sender i)) (is_clearing w i) here))
        up
    where
      clash : (b : Bool) → b ≡ false → b ≡ true → ⊥
      clash b e e' = ground arith

      either : (e b w c : Bool) → (b || c) ≡ true → (e || (b || (w || c))) ≡ true
      either e b w c h = ground arith

  -- the consumer moves and leaves the rings and the bits
  pub plain-Inv :
      (s : System E) (w : Sweeper)
      → Inv capacity n_producers s
      → ((j : ℕ) → is_clearing s.sweeper j ≡ true → is_clearing w j ≡ true)
      → (is_sleeping w ≡ true
          → no_bits n_producers s.bits ≡ false
          → (j : ℕ) × (is_calling (s.sender j) ≡ true))
      → Inv capacity n_producers (record s { sweeper = w })
  plain-Inv s w inv clears wakes = record {
    valid = inv.valid;
    showing = λ j.
        more (is_empty (s.rings j)) (s.bits j) (is_sending (s.sender j)) (is_clearing s.sweeper j)
          (is_clearing w j) (clears j) (inv.showing j);
    woken = wakes;
  }
    where
      more :
          (e b w c c' : Bool)
          → (c ≡ true → c' ≡ true)
          → (e || (b || (w || c))) ≡ true
          → (e || (b || (w || c'))) ≡ true
      more e b w false c' f h = ground (arith, h)
      more e b w true c' f h = rw (f refl) (ground arith)
