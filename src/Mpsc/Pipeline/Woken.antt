-- ===== src/Mpsc/Pipeline/Woken.antt =====
-- No event is stranded by the handshake of the bitmap.
use principal_katas.Prelude.{
  ℕ, ◌<◌, ◌≡◌, ◌≢◌, refl, sym, subst, ap, ◌∙◌, ◌⊎◌, inl, inr, Bool, true, false, ◌||◌, [], ◌==◌,
  sub64, put_at, arith, Bool-cases,
}
use principal_katas.Mpsc.Ring.{Ring, pop_batch, empty_now}
use principal_katas.Mpsc.Ring.Valid.{
  IsCapacity, new_ring-IsValid, pop_batch-IsValid, empty_now-IsValid,
}
use principal_katas.Mpsc.Ring.Refine.{contents, length-contents}
use principal_katas.Mpsc.Pipeline.{no_bits}
use principal_katas.Mpsc.Pipeline.Drain.{put_same, put_other, length-none}
use principal_katas.Mpsc.Pipeline.Asleep.{no_bits_lem}
use principal_katas.Mpsc.Pipeline.Handshake.{
  quiet, published, first, calling, Sweeper, scanning, cleared, arming, sleeping, System,
  after_look, after_test, after_arming, is_sleeping, notified, Step, Reach,
}
use principal_katas.Mpsc.Pipeline.Shown.{
  is_sending, is_calling, is_clearing, is_empty, Inv, calls, flag_calls, notified_up,
  notified_clearing, calling_kept, popped_empty, looked_empty, sender-Inv, at_sender, at_sweeper,
  looks-shows, idle_shows, set_calls,
}
use principal_katas.Mpsc.Pipeline.Awaited.{push-Inv, drain-Inv, recheck-Inv, bit-Inv, plain-Inv}

same_clash : (b : Bool) → b ≡ false → b ≡ true → ⊥
same_clash b e e' = ground arith

at_ne : (i j : ℕ) → i ≢ j → (i == j) ≡ false
at_ne i j ne = ground (arith, ne)

==_refl : (i : ℕ) → (i == i) ≡ true
==_refl i = ground arith

not_sleeping : (i : ℕ) (b : Bool) → is_sleeping (after_test i b) ≡ false
unfolding after_test
not_sleeping i b = ground arith

arming_sleeps : (b : Bool) → is_sleeping (after_arming b) ≡ true → b ≡ true
unfolding after_arming
arming_sleeps b e = ground arith

has_bit : (n i : ℕ) (f : ℕ → Bool) → i < n → f i ≡ true → no_bits n f ≡ false
has_bit n i f lt e = elim (Bool-cases (no_bits n f)) [
  | inr some_set ↦ some_set
  | inl none ↦ absurd (same_clash (f i) (no_bits_lem n f i none lt) e)
]

module _ {E : Type 0} (capacity n_producers : ℕ) (ok : IsCapacity capacity) where
  up_now :
      (s : System E) (w w' : Sweeper)
      → s.sweeper ≡ w
      → is_sleeping w ≡ false
      → is_sleeping s.sweeper ≡ true
      → ⊥
  up_now s w w' at up z = same_clash (is_sleeping s.sweeper) (ap is_sleeping at ∙ up) z

  clears_none :
      (s : System E) (w : Sweeper) (v : Sweeper)
      → s.sweeper ≡ w
      → ((j : ℕ) → is_clearing w j ≡ false)
      → (j : ℕ) → is_clearing s.sweeper j ≡ true
      → is_clearing v j ≡ true
  clears_none s w v at none j c =
      absurd (same_clash (is_clearing s.sweeper j) (ap (λ k. is_clearing k j) at ∙ none j) c)

  step-Inv :
      {s s' : System E}
      → Inv capacity n_producers s
      → Step capacity n_producers s s'
      → Inv capacity n_producers s'
  step-Inv {s} inv (Step.push i e q) = push-Inv capacity n_producers ok s i e inv q
  step-Inv {s} inv (Step.look i p) =
      sender-Inv capacity n_producers ok s i s.bits (after_look (s.bits i)) inv (λ j ne. refl)
        (looks-shows capacity n_producers ok (s.rings i) (s.bits i) (is_clearing s.sweeper i)
          (at_sender capacity n_producers ok s i published inv p))
        (λ z b. calling_kept s.sender i _ (ap is_calling p) (inv.woken z b))
  step-Inv {s} inv (Step.set i m) =
      sender-Inv capacity n_producers ok s i (put_at s.bits i true) _ inv
        (λ j ne. put_other s.bits i true j ne) (rw (put_same s.bits i true) (ground arith))
        (λ z b. set_calls capacity n_producers ok s i inv m z)
  step-Inv {s} inv (Step.flag i f) =
      sender-Inv capacity n_producers ok s i s.bits _ inv (λ j ne. refl)
        (idle_shows capacity n_producers ok (s.rings i) (s.bits i) (is_clearing s.sweeper i) first _
          refl (at_sender capacity n_producers ok s i first inv f))
        (λ z b. calls s.sender i _ (flag_calls s.sweeper z))
  step-Inv {s} inv (Step.notify i c free) =
      let s1 : System E = record s { sweeper = notified s.sweeper } in
      let up : is_sleeping (notified s.sweeper) ≡ true → ⊥ =
        λ z. same_clash (is_sleeping (notified s.sweeper)) (notified_up s.sweeper) z in
      let inv1 =
        plain-Inv capacity n_producers ok s (notified s.sweeper) inv
          (λ j e. notified_clearing s.sweeper j e) (λ z b. absurd (up z)) in
      sender-Inv capacity n_producers ok s1 i s.bits quiet inv1 (λ j ne. refl)
        (idle_shows capacity n_producers ok (s.rings i) (s.bits i)
          (is_clearing (notified s.sweeper) i) calling quiet refl
          (at_sender capacity n_producers ok s1 i calling inv1 c))
        (λ z b. absurd (up z))
  step-Inv {s} inv (Step.take i room at) =
      subst
        (λ w. Inv capacity n_producers (record s {
          rings = put_at s.rings i (pop_batch capacity room (s.rings i)).2;
          sweeper = w;
        }))
        (sym at)
        (drain-Inv capacity n_producers ok s i (pop_batch capacity room (s.rings i)).2 scanning inv
          at (pop_batch-IsValid capacity ok room (inv.valid i))
          (popped_empty capacity n_producers ok room (s.rings i) (inv.valid i)) refl)
  step-Inv {s} inv (Step.test i at) =
      drain-Inv capacity n_producers ok s i (empty_now (s.rings i)).1 _ inv at
        (empty_now-IsValid capacity ok (inv.valid i))
        (λ e. looked_empty capacity n_producers ok (s.rings i) ∙ e)
        (not_sleeping i (empty_now (s.rings i)).0)
  step-Inv {s} inv (Step.clear i at) =
      bit-Inv capacity n_producers ok s i false (cleared i) inv
        (λ j ne. ap (λ k. is_clearing k j) at) (==_refl i) refl
  step-Inv {s} inv (Step.recheck i retiring at) =
      recheck-Inv capacity n_producers ok s i retiring inv at
  step-Inv {s} inv (Step.restore i at) =
      bit-Inv capacity n_producers ok s i true scanning inv
        (λ j ne. ap (λ k. is_clearing k j) at ∙ at_ne i j ne) refl refl
  step-Inv {s} inv (Step.arm at) =
      plain-Inv capacity n_producers ok s arming inv (clears_none s scanning arming at (λ j. refl))
        (λ z b. absurd (same_clash false refl z))
  step-Inv {s} inv (Step.look_last at) =
      plain-Inv capacity n_producers ok s _ inv (clears_none s arming _ at (λ j. refl))
        (λ z b. absurd (same_clash (no_bits n_producers s.bits) b (arming_sleeps _ z)))
  step-Inv {s} inv (Step.wake at) =
      plain-Inv capacity n_producers ok s scanning inv
        (clears_none s sleeping scanning at (λ j. refl)) (λ z b. absurd (same_clash false refl z))

  reach-Inv :
      {slots : ℕ → ℕ → E} {s : System E}
      → Reach capacity n_producers slots s
      → Inv capacity n_producers s
  reach-Inv {slots} Reach.start = record {
    valid = λ i. new_ring-IsValid capacity (slots i);
    showing = λ i. ground arith;
    woken = λ z b. absurd (same_clash false refl z);
  }
  reach-Inv (Reach.next r st) = step-Inv (reach-Inv r) st

  -- For a ring capacity that divides 2^64, wherever the producers' pushes and the consumer's
  -- clearing, re-checking and parking meet, between any two accesses of the bitmap, of `parked_` or
  -- of a ring (a call of a ring is one access): while the consumer sleeps, a ring is empty, or some
  -- producer is still in `push` and has to set its bit or to wake the consumer.
  pub handshake_strands_none :
      {slots : ℕ → ℕ → E} {s : System E} (i : ℕ)
      → Reach capacity n_producers slots s
      → s.sweeper ≡ sleeping
      → i < n_producers
      → (contents capacity (s.rings i) ≡ [])
        ⊎ ((j : ℕ) × ((is_sending (s.sender j) || is_calling (s.sender j)) ≡ true))
  handshake_strands_none {s = s} i r at lt =
      let inv = reach-Inv r in
      let z : is_sleeping s.sweeper ≡ true = ap is_sleeping at in
      let here = at_sweeper capacity n_producers ok s i sleeping inv at in
      elim (Bool-cases (is_empty (s.rings i))) [
        | inl e ↦ inl (
            length-none (contents capacity (s.rings i))
              (length-contents capacity (s.rings i) ∙ zero_of (s.rings i) e))
        | inr held ↦ elim (Bool-cases (s.bits i)) [
          | inl set ↦
              let (j, c) = inv.woken z (has_bit n_producers i s.bits lt set) in
              inr (j, either (is_sending (s.sender j)) (is_calling (s.sender j)) c)
          | inr unset ↦ inr (
            i,
            left (is_empty (s.rings i)) (s.bits i) (is_sending (s.sender i))
                (is_calling (s.sender i)) held unset here,
          )
        ]
      ]
    where
      zero_of : (r : Ring E) → is_empty r ≡ true → sub64 r.tail r.head ≡ 0
      zero_of r e = ground arith

      either : (a b : Bool) → b ≡ true → (a || b) ≡ true
      either a b e = ground arith

      left :
          (e b w c : Bool)
          → e ≡ false
          → b ≡ false
          → (e || (b || (w || false))) ≡ true
          → (w || c) ≡ true
      left e b w c h h' k = ground arith
