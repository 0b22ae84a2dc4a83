-- ===== src/Mpmc/Turnstile/Answers.antt =====
-- What `pop` has found when it says that the queue is drained, or that its time is up.
use principal_katas.Prelude.{
  ℕ, ◌≤◌, ◌≡◌, ◌≢◌, sym, ap, ◌∙◌, ◌⊎◌, inl, inr, true, false, Option, none, some, List, [], ◌∷◌,
  arith, ◌==◌, leb, leb→le,
}
use principal_katas.Mpmc.Api.{Pop, OpStats}
use principal_katas.Mpmc.Rounds.{looking, Outcome, draining}
use principal_katas.Mpmc.Rounds.Ends.{
  and_then-ends, found_or-ends, closed_end-ends, park_end-ends, after_look-ends,
}
use principal_katas.Mpmc.Turnstile.{is_closed, position}
use principal_katas.Mpmc.Turnstile.Calls.{Try, Options, Shared, Turn}
use principal_katas.Mpmc.Turnstile.Consumer.{after_sleep, park_round, pop}

module _ {A : Type 0} where
  -- Some round at whose end the clock is at `until`.
  abbrev pub SomeLate : ℕ → List (Turn A) → Type 0
  SomeLate until [] = 1 ≤ 0
  SomeLate until (e ∷ later) = (until ≤ e.round.now) ⊎ SomeLate until later

  -- Between two looks of a round, no other thread moves the tail of a closed queue.
  abbrev pub KeepsTail : List (Turn A) → Type 0
  KeepsTail [] = 0 ≤ 0
  KeepsTail (e ∷ later) =
      ((s : Shared A)
        → is_closed s.queue.tail ≡ true
        → (e.round.others draining s).queue.tail ≡ s.queue.tail)
      × KeepsTail later

  -- what an answer of `pop` says
  pub record PopSound (until : ℕ) (turns : List (Turn A)) (a : Outcome (Pop × Option A) (Shared A))
      : Type 0 where
    pub not_empty : a.result.0 ≢ Pop.empty
    pub all_claimed :
        a.result.0 ≡ Pop.drained
        → (is_closed a.queue.queue.tail ≡ true) × (a.queue.queue.head ≡ position a.queue.queue.tail)
    pub is_late : a.result.0 ≡ Pop.timeout → SomeLate until turns

  popped_sound :
      (until : ℕ) (turns : List (Turn A)) (v : A) (st : OpStats) (s : Shared A)
      → PopSound until turns (record { result = (Pop.ok, some v); stats = st; queue = s })
  popped_sound until turns v st s = record {
    not_empty = λ e. absurd (ground (arith, e));
    all_claimed = λ e. absurd (ground (arith, e));
    is_late = λ e. absurd (ground (arith, e));
  }

  late_sound :
      (until : ℕ) (e : Turn A) (later : List (Turn A)) (st : OpStats) (s : Shared A)
      → leb until e.round.now ≡ true
      → PopSound until (e ∷ later) (record { result = (Pop.timeout, none); stats = st; queue = s })
  late_sound until e later st s l = record {
    not_empty = λ e'. absurd (ground (arith, e'));
    all_claimed = λ e'. absurd (ground (arith, e'));
    is_late = λ t. inl (leb→le until e.round.now l);
  }

  drained_sound :
      (until : ℕ) (turns : List (Turn A)) (st : OpStats) (s s' : Shared A)
      → is_closed s.queue.tail ≡ true
      → s'.queue.tail ≡ s.queue.tail
      → (s'.queue.head == position s.queue.tail) ≡ true
      → PopSound until turns (record { result = (Pop.drained, none); stats = st; queue = s' })
  drained_sound until turns st s s' c t d = record {
    not_empty = λ e. absurd (ground (arith, e));
    all_claimed = λ e. (ap is_closed t ∙ c, same d ∙ ap position (sym t));
    is_late = λ e. absurd (ground (arith, e));
  }
    where
      same : {i j : ℕ} → (i == j) ≡ true → i ≡ j
      same e = ground arith

  widen :
      (until : ℕ) (e : Turn A) (later : List (Turn A)) (a : Outcome (Pop × Option A) (Shared A))
      → PopSound until later a
      → PopSound until (e ∷ later) a
  widen until e later a s = record {
    not_empty = s.not_empty;
    all_claimed = s.all_claimed;
    is_late = λ t. inr (s.is_late t);
  }

module _ {A : Type 0} (o : Options) (n_slots backstop : ℕ) where
  after_sleep_sound :
      (go_on : OpStats → Shared A → Option (Outcome (Pop × Option A) (Shared A)))
      (tries : List (Try A)) (until : ℕ) (turns : List (Turn A)) (st : OpStats) (s : Shared A)
      (a : Outcome (Pop × Option A) (Shared A))
      → ((st' : OpStats) (s' : Shared A) → go_on st' s' ≡ some a → PopSound until turns a)
      → after_sleep o n_slots backstop go_on tries st s ≡ some a
      → PopSound until turns a
  unfolding after_sleep
  after_sleep_sound go_on tries until turns st s a more h =
      let (o4, _, h4) = and_then-ends _ _ a h in
      found_or-ends (PopSound until turns) a _ _ _ (λ v. popped_sound until turns v _ _) (more _ _)
        h4

  park_round_sound :
      (go_on : OpStats → Shared A → Option (Outcome (Pop × Option A) (Shared A))) (e : Turn A)
      (later : List (Turn A)) (until : ℕ) (st : OpStats) (s : Shared A)
      (a : Outcome (Pop × Option A) (Shared A))
      → ((st' : OpStats) (s' : Shared A) → go_on st' s' ≡ some a → PopSound until (e ∷ later) a)
      → park_round o n_slots backstop go_on e until st s ≡ some a
      → PopSound until (e ∷ later) a
  unfolding park_round
  park_round_sound go_on e later until st s a more h =
      let P = PopSound until (e ∷ later) in
      let (o3, _, h3) = and_then-ends _ _ a h in
      found_or-ends P a _ _ _ (λ v. popped_sound until (e ∷ later) v _ _)
        (park_end-ends P a _ (leb until e.round.now) _ _ _ _ _ (λ l. late_sound until e later _ _ l)
          (more _ _) (after_sleep_sound go_on _ until (e ∷ later) _ _ a more)
          (after_sleep_sound go_on _ until (e ∷ later) _ _ a more))
        h3

  -- Whatever other threads do, but for moving the tail of a closed queue (which only tickets do),
  -- and however many rounds its tries take, as long as the call returns: `pop` never returns empty;
  -- when it returns drained, the queue is closed and every position below its tail is claimed; when
  -- it returns timeout, the clock was at `until` at the end of some round.
  pub pop_sound :
      (until : ℕ) (turns : List (Turn A)) (st : OpStats) (s : Shared A)
      (a : Outcome (Pop × Option A) (Shared A))
      → KeepsTail turns
      → pop o n_slots backstop turns until st s ≡ some a
      → PopSound until turns a
  unfolding pop
  pop_sound until [] st s a k h = absurd (ground (arith, h))
  pop_sound until (e ∷ later) st s a k h =
      let P = PopSound until (e ∷ later) in
      let more : (st' : OpStats) (s' : Shared A)
          → pop o n_slots backstop later until st' s' ≡ some a
          → P a =
        λ st' s' h'. widen until e later a (pop_sound until later st' s' a k.1 h') in
      let (o1, _, h1) = and_then-ends _ _ a h in
      found_or-ends P a _ _ _ (λ v. popped_sound until (e ∷ later) v _ _)
        (λ h1'.
          let (o2, _, h2) = and_then-ends _ _ a h1' in
          found_or-ends P a _ _ _ (λ v. popped_sound until (e ∷ later) v _ _)
            (after_look-ends P a _ _ _
              (λ c.
                closed_end-ends P a _ (leb until e.round.now) _ _ _
                  (λ d.
                    drained_sound until (e ∷ later) _ (e.round.others looking o2.queue) _ c
                      (k.0 (e.round.others looking o2.queue) c) d)
                  (λ l. late_sound until e later _ _ l) (more _ _))
              (after_look-ends P a _ _ _ (λ _. park_round_sound _ e later until _ _ a more)
                (closed_end-ends P a (leb until e.round.now) false _ _ _
                  (λ l. late_sound until e later _ _ l) (λ f. absurd (ground (arith, f)))
                  (more _ _))))
            h2)
        h1
