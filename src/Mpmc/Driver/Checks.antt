-- ===== src/Mpmc/Driver/Checks.antt =====
-- The checks of a run pass when the queue delivers what it accepted, once and in order.
use principal_katas.Prelude.{
  ℕ, ◌^◌, ◌+◌, ◌≤◌, ◌<◌, ◌≡◌, ◌↔◌, refl, sym, subst, ap, ap₂, ◌∙◌, true, List, [], ◌∷◌, ◌++◌, map,
  append_assoc, append-nil, arith, ◌==◌, length, add64,
}
use principal_katas.Mpmc.Event.{
  Event, Tally, add, merge_tally, tally, merge-tally, Reordered, tally-Reordered,
}
use principal_katas.Mpmc.Driver.{
  ProducerState, new_producer, ConsumerState, new_consumer, Answer, produce, finish_quota, Delivery,
  take_all, RunResult, no_result, merge_producer, merge_consumer, merge_producers, merge_consumers,
  exactly_once, check_run,
}
use principal_katas.Mpmc.Driver.Order.{Increasing}
use principal_katas.Mpmc.Driver.Producers.{taken_in, produce_accounts}
use principal_katas.Mpmc.Driver.Consumers.{
  good_events, n_bad, take_all_judges, disorder_bound, n_bad_bound,
}

-- a producer's part in a run
pub record Part : Type 0 where
  pub id : ℕ
  pub quota : ℕ
  pub answers : List Answer

abbrev pub run_part : Part → ProducerState
run_part p = finish_quota p.quota (produce p.id 0 p.quota p.answers new_producer)

abbrev pub run_consumer : List Delivery → ConsumerState
run_consumer ds = take_all ds new_consumer

-- all events accepted, and all good events delivered
abbrev pub all_taken : List Part → List Event
all_taken [] = []
all_taken (p ∷ ps) = taken_in p.id 0 p.quota p.answers ++ all_taken ps

abbrev pub all_good : List (List Delivery) → List Event
all_good [] = []
all_good (ds ∷ dss) = good_events ds ++ all_good dss

-- how many deliveries there were
abbrev pub total : List (List Delivery) → ℕ
total [] = 0
total (ds ∷ dss) = let rest = total dss in length ds + rest

-- At each consumer no delivery is torn, and each producer's are in order.
abbrev pub AllClean : List (List Delivery) → Type 0
AllClean [] = 0 ≤ 0
AllClean (ds ∷ dss) = ((n_bad ds ≡ 0) × Increasing (good_events ds)) × AllClean dss

-- an event by its identity alone
abbrev pub bare : Event → Event
bare e = record { producer = e.producer; seq = e.seq; stamp = 0; payload = 0; check = 0 }

tally-bare : (es : List Event) → tally (map bare es) ≡ tally es
unfolding tally add
tally-bare [] = refl
tally-bare (e ∷ es) = ap (add e) (tally-bare es)

-- what the merging loops have so far
record SoFar (accepted consumed : List Event) (out : RunResult) : Type 0 where
  takes : out.accepted ≡ tally accepted
  gives : out.consumed ≡ tally consumed
  balanced : out.offered ≡ add64 (add64 out.accepted.n out.rejected) out.refused_closed
  whole : out.torn ≡ 0
  ordered : out.disorder ≡ 0

producers-SoFar :
    (ps : List Part) (accepted consumed : List Event) (out : RunResult)
    → SoFar accepted consumed out
    → SoFar (accepted ++ all_taken ps) consumed (merge_producers out (map run_part ps))
unfolding merge_producers merge_producer finish_quota merge_tally
producers-SoFar [] accepted consumed out f =
    subst (λ l. SoFar l consumed out) (sym (append-nil accepted)) f
producers-SoFar (p ∷ ps) accepted consumed out f =
    let (b, t) = produce_accounts p.id p.quota p.answers in
    subst (λ l. SoFar l consumed (merge_producers out (map run_part (p ∷ ps))))
      (append_assoc accepted (taken_in p.id 0 p.quota p.answers) (all_taken ps))
      (producers-SoFar ps (accepted ++ taken_in p.id 0 p.quota p.answers) consumed
        (merge_producer out (run_part p))
        (record {
          takes =
              ap₂ merge_tally f.takes t ∙ merge-tally accepted (taken_in p.id 0 p.quota p.answers);
          gives = f.gives;
          balanced = omega (arith, f.balanced, b);
          whole = f.whole;
          ordered = f.ordered;
        }))

consumers-SoFar :
    (dss : List (List Delivery)) (accepted consumed : List Event) (out : RunResult)
    → total dss < 2 ^ 64
    → AllClean dss
    → SoFar accepted consumed out
    → SoFar accepted (consumed ++ all_good dss) (merge_consumers out (map run_consumer dss))
unfolding merge_consumers merge_consumer
consumers-SoFar [] accepted consumed out small clean f =
    subst (λ l. SoFar accepted l out) (sym (append-nil consumed)) f
consumers-SoFar (ds ∷ dss) accepted consumed out small ((none_bad, inc), clean) f =
    let (t, c, d) = take_all_judges ds (omega (arith, small)) in
    subst (λ l. SoFar accepted l (merge_consumers out (map run_consumer (ds ∷ dss))))
      (append_assoc consumed (good_events ds) (all_good dss))
      (consumers-SoFar dss accepted (consumed ++ good_events ds)
        (merge_consumer out (run_consumer ds)) (omega (arith, small)) clean
        (record {
          takes = f.takes;
          gives = ap₂ merge_tally f.gives c ∙ merge-tally consumed (good_events ds);
          balanced = f.balanced;
          whole = omega (arith, f.whole, t, none_bad);
          ordered = omega (arith, f.ordered, d.1 inc);
        }))

same_refl : (n : ℕ) → (n == n) ≡ true
same_refl n = ground arith

passes :
    (accepted consumed : List Event) (out : RunResult)
    → SoFar accepted consumed out
    → tally accepted ≡ tally consumed
    → check_run out ≡ true
unfolding check_run exactly_once
passes accepted consumed out f same =
    let e : out.accepted ≡ out.consumed = f.takes ∙ same ∙ sym f.gives in
    ground
      (arith, ap (λ t. t.n) e, ap (λ t. t.a) e, ap (λ t. t.b) e, f.balanced, f.whole, f.ordered)

-- Counts that end at zero were of clean deliveries.
consumers_show :
    (dss : List (List Delivery)) (n : ℕ) (out : RunResult)
    → n + total dss < 2 ^ 64
    → out.torn ≤ n
    → out.disorder ≤ n
    → (merge_consumers out (map run_consumer dss)).torn ≡ 0
    → (merge_consumers out (map run_consumer dss)).disorder ≡ 0
    → (out.torn ≡ 0) × (out.disorder ≡ 0) × AllClean dss
unfolding merge_consumers merge_consumer
consumers_show [] n out small lt ld t d = (t, d, omega arith)
consumers_show (ds ∷ dss) n out small lt ld t d =
    let (tt', c, judged) = take_all_judges ds (omega (arith, small)) in
    let b = n_bad_bound ds in
    let db = disorder_bound ds new_consumer (omega (arith, small)) in
    let (t0, d0, clean) =
      consumers_show dss (n + length ds) (merge_consumer out (run_consumer ds))
        (omega (arith, small)) (omega (arith, small, lt, tt', b)) (omega (arith, small, ld, db)) t
        d in
    (
      omega (arith, small, lt, tt', b, t0),
      omega (arith, small, ld, db, d0),
      ((omega (arith, small, lt, tt', b, t0), judged.0 (omega (arith, small, ld, db, d0))), clean),
    )

-- what the checks read
checks_read :
    (out : RunResult)
    → check_run out ≡ true
    → (out.accepted ≡ out.consumed) × (out.torn ≡ 0) × (out.disorder ≡ 0)
unfolding check_run exactly_once
checks_read out e = (
  tally_ext out.accepted out.consumed (ground arith) (ground arith) (ground arith),
  ground arith,
  ground arith,
)
  where
    tally_ext : (t t' : Tally) → t.n ≡ t'.n → t.a ≡ t'.a → t.b ≡ t'.b → t ≡ t'
    tally_ext t t' e1 e2 e3 = λ i. record { n = e1 i; a = e2 i; b = e3 i }

start-SoFar : SoFar [] [] no_result
unfolding tally
start-SoFar = record { takes = refl; gives = refl; balanced = refl; whole = refl; ordered = refl }

pub check_run_decides :
    (ps : List Part) (dss : List (List Delivery))
    → total dss < 2 ^ 64
    → (check_run
          (merge_consumers (merge_producers no_result (map run_part ps)) (map run_consumer dss))
        ≡ true)
      ↔ (AllClean dss × (tally (all_taken ps) ≡ tally (all_good dss)))
check_run_decides ps dss small = (shows, λ both. passes _ _ _ (so_far both.0) both.1)
  where
    begun : SoFar (all_taken ps) [] (merge_producers no_result (map run_part ps))
    begun = producers-SoFar ps [] [] no_result start-SoFar

    out : RunResult
    out = merge_consumers (merge_producers no_result (map run_part ps)) (map run_consumer dss)

    so_far : AllClean dss → SoFar (all_taken ps) (all_good dss) out
    so_far clean = consumers-SoFar dss (all_taken ps) [] _ small clean begun

    shows : check_run out ≡ true → AllClean dss × (tally (all_taken ps) ≡ tally (all_good dss))
    shows e =
        let (same, t, d) = checks_read out e in
        let (t0, d0, clean) =
          consumers_show dss 0 _ (omega (arith, small)) (omega (arith, begun.whole))
            (omega (arith, begun.ordered)) t d in
        let f = so_far clean in (clean, sym f.takes ∙ same ∙ f.gives)

-- Of events delivered once and in any order across consumers, the tallies are the same.
pub once_passes :
    (ps : List Part) (dss : List (List Delivery))
    → total dss < 2 ^ 64
    → AllClean dss
    → Reordered (map bare (all_taken ps)) (map bare (all_good dss))
    → check_run
        (merge_consumers (merge_producers no_result (map run_part ps)) (map run_consumer dss))
      ≡ true
once_passes ps dss small clean r =
    let decided = check_run_decides ps dss small in
    decided.1
      (clean, sym (tally-bare (all_taken ps)) ∙ tally-Reordered r ∙ tally-bare (all_good dss))
