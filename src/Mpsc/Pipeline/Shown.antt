-- ===== src/Mpsc/Pipeline/Shown.antt =====
-- What shows that a ring holds an event, during the handshake of the bitmap.
use principal_katas.Prelude.{
  ℕ, ◌≡◌, ◌≢◌, refl, sym, subst, ap, ◌∙◌, inl, inr, Bool, true, false, ◌||◌, ◌==◌, sub64, length,
  length-append, put_at, arith, Bool-cases,
}
use principal_katas.Mpsc.Ring.{Ring, try_push, pop_batch, empty_now}
use principal_katas.Mpsc.Ring.Valid.{IsCapacity, IsValid}
use principal_katas.Mpsc.Ring.Refine.{contents, length-contents, pop_batch_refines}
use principal_katas.Mpsc.Pipeline.{no_bits}
use principal_katas.Mpsc.Pipeline.Drain.{put_same, put_other}
use principal_katas.Mpsc.Pipeline.Handshake.{
  Sender, quiet, published, missing, first, calling, Sweeper, cleared, restoring, System,
  after_push, after_look, after_set, after_flag, is_parked, is_sleeping, notified,
}

-- a producer that will set its bit, one that will wake the consumer, and a bit that the consumer
-- has cleared and will set again if the ring holds an event
abbrev pub is_sending : Sender → Bool
is_sending published = true
is_sending missing = true
is_sending w = false

abbrev pub is_calling : Sender → Bool
is_calling first = true
is_calling calling = true
is_calling w = false

abbrev pub is_clearing : Sweeper → ℕ → Bool
is_clearing (cleared i) j = i == j
is_clearing (restoring i) j = i == j
is_clearing w j = false

-- another producer still calls
pub calling_kept :
    (f : ℕ → Sender) (i : ℕ) (w : Sender)
    → is_calling (f i) ≡ false
    → (j : ℕ) × (is_calling (f j) ≡ true)
    → (j : ℕ) × (is_calling (put_at f i w j) ≡ true)
calling_kept f i w none (j, c) = (
  j,
  ap is_calling (
        put_other f i w j (λ e.
          let same : is_calling (f i) ≡ is_calling (f j) = ap (λ k. is_calling (f k)) e in
          clash (is_calling (f i)) (is_calling (f j)) none c same))
      ∙ c,
)
  where
    clash : (b b' : Bool) → b ≡ false → b' ≡ true → b ≡ b' → ⊥
    clash b b' e e' same = ground arith

pub calls :
    (f : ℕ → Sender) (i : ℕ) (w : Sender)
    → is_calling w ≡ true
    → (j : ℕ) × (is_calling (put_at f i w j) ≡ true)
calls f i w c = (i, ap is_calling (put_same f i w) ∙ c)

pub flag_calls : (w : Sweeper) → is_sleeping w ≡ true → is_calling (after_flag (is_parked w)) ≡ true
unfolding after_flag
flag_calls w z = ground arith

pub notified_up : (w : Sweeper) → is_sleeping (notified w) ≡ false
notified_up w = ground arith

pub notified_clearing :
    (w : Sweeper) (j : ℕ) → is_clearing w j ≡ true → is_clearing (notified w) j ≡ true
notified_clearing w j e = ground (arith, e)

module _ {E : Type 0} where
  abbrev pub is_empty : Ring E → Bool
  is_empty r = sub64 r.tail r.head == 0

  -- An event of a ring shows: in its bit, or in a thread that will set it.
  abbrev pub shows : Ring E → Bool → Sender → Bool → Bool
  shows r bit w clearing = is_empty r || (bit || (is_sending w || clearing))

  abbrev pub shows_at : System E → ℕ → Bool
  shows_at s i = shows (s.rings i) (s.bits i) (s.sender i) (is_clearing s.sweeper i)

module _ {E : Type 0} (capacity n_producers : ℕ) where
  pub record Inv (s : System E) : Type 0 where
    pub valid : (i : ℕ) → IsValid capacity (s.rings i)
    pub showing : (i : ℕ) → shows_at s i ≡ true
    pub woken :
        is_sleeping s.sweeper ≡ true
        → no_bits n_producers s.bits ≡ false
        → (i : ℕ) × (is_calling (s.sender i) ≡ true)

  -- what a move at ring `i` leaves of the others
  pub record Near (s s' : System E) (i : ℕ) : Type 0 where
    pub rings_kept : (j : ℕ) → i ≢ j → s'.rings j ≡ s.rings j
    pub bits_kept : (j : ℕ) → i ≢ j → s'.bits j ≡ s.bits j
    pub senders_kept : (j : ℕ) → i ≢ j → s'.sender j ≡ s.sender j
    pub clearing_kept :
        (j : ℕ) → i ≢ j → is_clearing s.sweeper j ≡ true → is_clearing s'.sweeper j ≡ true

  shows_more :
      (r : Ring E) (bit : Bool) (w : Sender) (c c' : Bool)
      → (c ≡ true → c' ≡ true)
      → shows r bit w c ≡ true
      → shows r bit w c' ≡ true
  shows_more r bit w false c' up e = ground (arith, e)
  shows_more r bit w true c' up e = rw (up refl) (ground arith)

  pub Near-Inv :
      (s s' : System E) (i : ℕ)
      → Inv s
      → Near s s' i
      → IsValid capacity (s'.rings i)
      → shows_at s' i ≡ true
      → (is_sleeping s'.sweeper ≡ true
          → no_bits n_producers s'.bits ≡ false
          → (j : ℕ) × (is_calling (s'.sender j) ≡ true))
      → Inv s'
  Near-Inv s s' i inv near v here wakes = record {
    valid = λ j. elim (Bool-cases (i == j)) [
      | inl e ↦ subst (λ k. IsValid capacity (s'.rings k)) (==→≡ i j e) v
      | inr e ↦ subst (IsValid capacity) (sym (near.rings_kept j (==→≢ i j e))) (inv.valid j)
    ];
    showing = λ j. elim (Bool-cases (i == j)) [
      | inl e ↦ subst (λ k. shows_at s' k ≡ true) (==→≡ i j e) here
      | inr e ↦
          let ne = ==→≢ i j e in
          rw (near.rings_kept j ne, near.bits_kept j ne, near.senders_kept j ne)
            (shows_more (s.rings j) (s.bits j) (s.sender j) (is_clearing s.sweeper j)
              (is_clearing s'.sweeper j) (near.clearing_kept j ne) (inv.showing j))
    ];
    woken = wakes;
  }
    where
      ==→≡ : (i j : ℕ) → (i == j) ≡ true → i ≡ j
      ==→≡ i j e = ground arith

      ==→≢ : (i j : ℕ) → (i == j) ≡ false → i ≢ j
      ==→≢ i j e = ground arith

  module _ (ok : IsCapacity capacity) where
    -- what the calls of the ring do to its emptiness
    pub popped_empty :
        (room : ℕ) (r : Ring E)
        → IsValid capacity r
        → is_empty r ≡ true
        → is_empty (pop_batch capacity room r).2 ≡ true
    popped_empty room r v e =
        let r' = (pop_batch capacity room r).2 in
        let (split, c2, c3, c4) = pop_batch_refines capacity ok room v in
        let lengths = ap length split ∙ length-append _ (contents capacity r') in
        zero_test (
          omega
            (arith, lengths, length-contents capacity r, length-contents capacity r', zero_of e))
      where
        zero_of : is_empty r ≡ true → sub64 r.tail r.head ≡ 0
        zero_of e = ground arith

        zero_test : {k : ℕ} → k ≡ 0 → (k == 0) ≡ true
        zero_test e = ground arith

    pub looked_empty : (r : Ring E) → is_empty (empty_now r).1 ≡ is_empty r
    unfolding empty_now
    looked_empty r = ground arith

    pub found_empty :
        (r : Ring E) → IsValid capacity r → (empty_now r).0 ≡ true → is_empty (empty_now r).1 ≡ true
    unfolding empty_now
    found_empty r v e = ground (arith, v.tail_in)

    pub pushed_shows :
        (e : E) (r : Ring E) (bit clearing : Bool)
        → IsValid capacity r
        → shows r bit quiet clearing ≡ true
        → shows (try_push capacity e r).1 bit (after_push (try_push capacity e r).0) clearing ≡ true
    unfolding try_push after_push
    pushed_shows e r bit clearing v h = ground arith

    -- a producer moves at ring `i`, and the rings and the consumer do not
    pub sender-Inv :
        (s : System E) (i : ℕ) (g : ℕ → Bool) (w : Sender)
        → Inv s
        → ((j : ℕ) → i ≢ j → g j ≡ s.bits j)
        → shows (s.rings i) (g i) w (is_clearing s.sweeper i) ≡ true
        → (is_sleeping s.sweeper ≡ true
            → no_bits n_producers g ≡ false
            → (j : ℕ) × (is_calling (put_at s.sender i w j) ≡ true))
        → Inv (record s { bits = g; sender = put_at s.sender i w })
    sender-Inv s i g w inv same here wakes =
        Near-Inv s (record s { bits = g; sender = put_at s.sender i w }) i inv
          (record {
            rings_kept = λ j ne. refl;
            bits_kept = same;
            senders_kept = λ j ne. put_other s.sender i w j ne;
            clearing_kept = λ j ne c. c;
          })
          (inv.valid i) (rw (put_same s.sender i w) here) wakes

    -- the consumer moves at ring `i`, not to sleep, and leaves the producers
    pub sweeper-Inv :
        (s : System E) (i : ℕ) (f : ℕ → Ring E) (g : ℕ → Bool) (w : Sweeper)
        → Inv s
        → ((j : ℕ) → i ≢ j → f j ≡ s.rings j)
        → ((j : ℕ) → i ≢ j → g j ≡ s.bits j)
        → ((j : ℕ) → i ≢ j → is_clearing s.sweeper j ≡ true → is_clearing w j ≡ true)
        → IsValid capacity (f i)
        → shows (f i) (g i) (s.sender i) (is_clearing w i) ≡ true
        → is_sleeping w ≡ false
        → Inv (record s { rings = f; bits = g; sweeper = w })
    sweeper-Inv s i f g w inv same same' clears v here up =
        Near-Inv s (record s { rings = f; bits = g; sweeper = w }) i inv
          (record {
            rings_kept = same;
            bits_kept = same';
            senders_kept = λ j ne. refl;
            clearing_kept = clears;
          })
          v here (λ z. absurd (clash w up z))
      where
        clash : (w : Sweeper) → is_sleeping w ≡ false → is_sleeping w ≡ true → ⊥
        clash w a b = ground arith

    -- what shows at a ring when a thread's place is known
    pub at_sender :
        (s : System E) (i : ℕ) (w : Sender)
        → Inv s
        → s.sender i ≡ w
        → shows (s.rings i) (s.bits i) w (is_clearing s.sweeper i) ≡ true
    at_sender s i w inv e =
        subst (λ k. shows (s.rings i) (s.bits i) k (is_clearing s.sweeper i) ≡ true) e
          (inv.showing i)

    pub at_sweeper :
        (s : System E) (i : ℕ) (w : Sweeper)
        → Inv s
        → s.sweeper ≡ w
        → shows (s.rings i) (s.bits i) (s.sender i) (is_clearing w i) ≡ true
    at_sweeper s i w inv e =
        subst (λ k. shows (s.rings i) (s.bits i) (s.sender i) (is_clearing k i) ≡ true) e
          (inv.showing i)

    pub looks-shows :
        (r : Ring E) (bit : Bool) (clearing : Bool)
        → shows r bit published clearing ≡ true
        → shows r bit (after_look bit) clearing ≡ true
    unfolding after_look
    looks-shows r true clearing e = ground arith
    looks-shows r false clearing e = ground arith

    -- the bit does not matter where none was seen, nor the sender where it sends nothing
    pub idle_shows :
        (r : Ring E) (bit clearing : Bool) (w w' : Sender)
        → is_sending w ≡ false
        → shows r bit w clearing ≡ true
        → shows r bit w' clearing ≡ true
    idle_shows r bit clearing w w' none e = ground (arith, none, e)

    pub set_calls :
        (s : System E) (i : ℕ)
        → Inv s
        → s.sender i ≡ missing
        → is_sleeping s.sweeper ≡ true
        → (j : ℕ) × (is_calling (put_at s.sender i (after_set (no_bits n_producers s.bits)) j)
            ≡ true)
    unfolding after_set
    set_calls s i inv e z = elim (Bool-cases (no_bits n_producers s.bits)) [
      | inl none ↦ calls s.sender i _ (rw none refl)
      | inr some_set ↦ calling_kept s.sender i _ (ap is_calling e) (inv.woken z some_set)
    ]
