-- ===== src/Mpmc/Driver/Consumers.antt =====
-- What a consumer's counts say of the events that it was handed.
use principal_katas.Mpmc.Driver.Order.{
  Increasing, AllOnTime, remember, on_time-remember, after-remember, on_time-forget, when_true,
  when_false,
}
use principal_katas.Prelude.{
  ◌%◌, ◌%◌, ℕ, suc, ◌+◌, ◌^◌, ◌≤◌, ◌<◌, ◌≡◌, refl, sym, subst, ap, ◌∙◌, ◌⊎◌, ◌↔◌, inl, inr, Bool,
  true, false, not, ◌||◌, none, List, [], ◌∷◌, arith, leb, length, add64, Bool-cases, if◌then◌else◌,
}
use principal_katas.Mpmc.Event.{
  Event, Tally, no_tally, add, merge_tally, intact, tally, merge_add, add_whole, merge_none,
}
use principal_katas.Mpmc.Driver.{
  ConsumerState, new_consumer, n_last, is_late, take, Delivery, take_all,
}

-- neither torn nor from a producer out of range
abbrev pub is_bad : Event → Bool
is_bad ev = not (intact ev) || leb n_last ev.producer

-- the good events handed over, and the number of bad ones
unfoldable pub good_events : List Delivery → List Event
good_events [] = []
good_events (d ∷ later) =
    let rest = good_events later in if is_bad d.event then rest else d.event ∷ rest

unfoldable pub n_bad : List Delivery → ℕ
n_bad [] = 0
n_bad (d ∷ later) = let rest = n_bad later in if is_bad d.event then suc rest else rest

-- the state after a bad, and after a good delivery
abbrev bad_state : Delivery → ConsumerState → ConsumerState
bad_state d s = record s { t_last = d.time; torn = add64 s.torn 1 }

abbrev good_state : Delivery → ConsumerState → ConsumerState
good_state d s = record s {
  t_last = d.time;
  consumed = add d.event s.consumed;
  disorder =
      if is_late d.event.seq (s.last_seq d.event.producer) then add64 s.disorder 1 else s.disorder;
  last_seq = remember d.event s.last_seq;
}

take_bad :
    (d : Delivery) (later : List Delivery) (s : ConsumerState)
    → is_bad d.event ≡ true
    → take_all (d ∷ later) s ≡ take_all later (bad_state d s)
unfolding take_all take
take_bad d later s b = ap (λ c. take_all later (if c then bad_state d s else good_state d s)) b

take_good :
    (d : Delivery) (later : List Delivery) (s : ConsumerState)
    → is_bad d.event ≡ false
    → take_all (d ∷ later) s ≡ take_all later (good_state d s)
unfolding take_all take
take_good d later s b = ap (λ c. take_all later (if c then bad_state d s else good_state d s)) b

abbrev pub IsWhole : Tally → Type 0
IsWhole t = merge_tally no_tally t ≡ t

take_all-counts :
    (ds : List Delivery) (s : ConsumerState)
    → s.torn < 2 ^ 64
    → IsWhole s.consumed
    → ((take_all ds s).torn ≡ add64 s.torn (n_bad ds))
      × ((take_all ds s).consumed ≡ merge_tally (tally (good_events ds)) s.consumed)
unfolding take_all n_bad good_events tally
take_all-counts [] s small w = (omega arith, sym w)
take_all-counts (d ∷ later) s small w = elim (Bool-cases (is_bad d.event)) [
  | inl b ↦
      let (t, c) = take_all-counts later (bad_state d s) (omega arith) w in
      (
        ap (λ x. x.torn) (take_bad d later s b)
            ∙ t
            ∙ omega arith
            ∙ sym (ap (λ x. add64 s.torn (if x then suc (n_bad later) else n_bad later)) b),
        ap (λ x. x.consumed) (take_bad d later s b)
            ∙ c
            ∙ sym (
                ap
                  (λ x.
                    merge_tally
                      (tally (if x then good_events later else d.event ∷ good_events later))
                      s.consumed)
                  b),
      )
  | inr g ↦
      let (t, c) = take_all-counts later (good_state d s) small (add_whole d.event s.consumed) in
      (
        ap (λ x. x.torn) (take_good d later s g)
            ∙ t
            ∙ sym (ap (λ x. add64 s.torn (if x then suc (n_bad later) else n_bad later)) g),
        ap (λ x. x.consumed) (take_good d later s g)
            ∙ c
            ∙ merge_add d.event (tally (good_events later)) s.consumed
            ∙ sym (
                ap
                  (λ x.
                    merge_tally
                      (tally (if x then good_events later else d.event ∷ good_events later))
                      s.consumed)
                  g),
      )
]

-- events in order leave the count of disorder
take_all-in_order :
    (ds : List Delivery) (s : ConsumerState)
    → Increasing (good_events ds)
    → AllOnTime s.last_seq (good_events ds)
    → (take_all ds s).disorder ≡ s.disorder
unfolding take_all good_events
take_all-in_order [] s i o = refl
take_all-in_order (d ∷ later) s i o =
    let es = good_events later in
    elim (Bool-cases (is_bad d.event)) [
      | inl b ↦
          ap (λ x. x.disorder) (take_bad d later s b)
          ∙ take_all-in_order later (bad_state d s)
              (when_true Increasing (is_bad d.event) es (d.event ∷ es) b i)
              (when_true (AllOnTime s.last_seq) (is_bad d.event) es (d.event ∷ es) b o)
      | inr g ↦
          let (a, i') = when_false Increasing (is_bad d.event) es (d.event ∷ es) g i in
          let (l, o') = when_false (AllOnTime s.last_seq) (is_bad d.event) es (d.event ∷ es) g o in
          ap (λ x. x.disorder) (take_good d later s g)
          ∙ take_all-in_order later (good_state d s) i'
              (on_time-remember d.event s.last_seq es a o')
          ∙ ap (λ x. if x then add64 s.disorder 1 else s.disorder) l
    ]

-- the count of disorder does not fall, and rises at a late event
after_good :
    (d : Delivery) (s : ConsumerState)
    → s.disorder + 1 < 2 ^ 64
    → let l = is_late d.event.seq (s.last_seq d.event.producer) in
      ((l ≡ true) × ((good_state d s).disorder ≡ s.disorder + 1))
      ⊎ ((l ≡ false) × ((good_state d s).disorder ≡ s.disorder))
after_good d s small = elim (Bool-cases (is_late d.event.seq (s.last_seq d.event.producer))) [
  | inl l ↦ inl (l, ap (λ x. if x then add64 s.disorder 1 else s.disorder) l ∙ omega arith)
  | inr l ↦ inr (l, ap (λ x. if x then add64 s.disorder 1 else s.disorder) l)
]

disorder_mono :
    (ds : List Delivery) (s : ConsumerState)
    → s.disorder + length ds < 2 ^ 64
    → s.disorder ≤ (take_all ds s).disorder
unfolding take_all
disorder_mono [] s small = omega arith
disorder_mono (d ∷ later) s small = elim (Bool-cases (is_bad d.event)) [
  | inl b ↦ omega (
    arith,
    ap (λ x. x.disorder) (take_bad d later s b),
    disorder_mono later (bad_state d s) (omega arith),
  )
  | inr g ↦
      let e = ap (λ x. x.disorder) (take_good d later s g) in
      elim (after_good d s (omega arith)) [
        | inl (l, n) ↦ omega (arith, e, n, disorder_mono later (good_state d s) (omega (arith, n)))
        | inr (l, n) ↦ omega (arith, e, n, disorder_mono later (good_state d s) (omega (arith, n)))
      ]
]

-- A count of disorder that has not risen means that the events came in order.
take_all-shows :
    (ds : List Delivery) (s : ConsumerState)
    → s.disorder + length ds < 2 ^ 64
    → (take_all ds s).disorder ≡ s.disorder
    → Increasing (good_events ds) × AllOnTime s.last_seq (good_events ds)
unfolding take_all good_events
take_all-shows [] s small e = (omega arith, omega arith)
take_all-shows (d ∷ later) s small e =
    let es = good_events later in
    elim (Bool-cases (is_bad d.event)) [
      | inl b ↦
          let (i, o) =
            take_all-shows later (bad_state d s) (omega arith)
              (sym (ap (λ x. x.disorder) (take_bad d later s b)) ∙ e) in
          (
            subst Increasing (ap (λ x. if x then es else d.event ∷ es) (sym b)) i,
            subst (AllOnTime s.last_seq) (ap (λ x. if x then es else d.event ∷ es) (sym b)) o,
          )
      | inr g ↦
          let e' = sym (ap (λ x. x.disorder) (take_good d later s g)) ∙ e in
          elim (after_good d s (omega arith)) [
            | inl (l, n) ↦
                absurd
                  (omega (arith, e', n, disorder_mono later (good_state d s) (omega (arith, n))))
            | inr (l, n) ↦
                let (i, o) =
                  take_all-shows later (good_state d s) (omega (arith, n)) (e' ∙ sym n) in
                (
                  subst Increasing (ap (λ x. if x then es else d.event ∷ es) (sym g))
                      (after-remember d.event s.last_seq es o, i),
                  subst (AllOnTime s.last_seq) (ap (λ x. if x then es else d.event ∷ es) (sym g))
                      (l, on_time-forget d.event s.last_seq es l o),
                )
          ]
    ]

on_time_none : (es : List Event) → AllOnTime (λ p. none) es
on_time_none [] = omega arith
on_time_none (e ∷ es) = (refl, on_time_none es)

-- no count exceeds that of the deliveries
pub disorder_bound :
    (ds : List Delivery) (s : ConsumerState)
    → s.disorder + length ds < 2 ^ 64
    → (take_all ds s).disorder ≤ s.disorder + length ds
unfolding take_all
disorder_bound [] s small = omega arith
disorder_bound (d ∷ later) s small = elim (Bool-cases (is_bad d.event)) [
  | inl b ↦ omega (
    arith,
    ap (λ x. x.disorder) (take_bad d later s b),
    disorder_bound later (bad_state d s) (omega arith),
  )
  | inr g ↦
      let e = ap (λ x. x.disorder) (take_good d later s g) in
      elim (after_good d s (omega arith)) [
        | inl (l, n) ↦ omega (arith, e, n, disorder_bound later (good_state d s) (omega (arith, n)))
        | inr (l, n) ↦ omega (arith, e, n, disorder_bound later (good_state d s) (omega (arith, n)))
      ]
]

pub n_bad_bound : (ds : List Delivery) → n_bad ds ≤ length ds
unfolding n_bad
n_bad_bound [] = omega arith
n_bad_bound (d ∷ later) = elim (Bool-cases (is_bad d.event)) [
  | inl b ↦
      omega (arith, n_bad_bound later, ap (λ x. if x then suc (n_bad later) else n_bad later) b)
  | inr g ↦
      omega (arith, n_bad_bound later, ap (λ x. if x then suc (n_bad later) else n_bad later) g)
]

-- A consumer of fewer than 2^64 deliveries counts the torn ones, tallies the others, and counts no
-- disorder if and only if each producer's good events came in the order of their numbers.
pub take_all_judges :
    (ds : List Delivery)
    → length ds < 2 ^ 64
    → let s = take_all ds new_consumer in
      (s.torn ≡ n_bad ds % 2 ^ 64)
      × (s.consumed ≡ tally (good_events ds))
      × ((s.disorder ≡ 0) ↔ Increasing (good_events ds))
unfolding merge_tally
take_all_judges ds small =
    let (t, c) = take_all-counts ds new_consumer (omega arith) refl in
    (
      t ∙ omega arith,
      c ∙ merge_none (good_events ds),
      (
        λ e. let (i, o) = take_all-shows ds new_consumer (omega (arith, small)) e in i,
        λ i. take_all-in_order ds new_consumer i (on_time_none (good_events ds)),
      ),
    )
