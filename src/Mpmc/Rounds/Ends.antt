-- ===== src/Mpmc/Rounds/Ends.antt =====
-- When a round ends a call, and what its end rests on.
use principal_katas.Prelude.{
  ℕ, ◌≤◌, ◌≡◌, ◌≢◌, refl, sym, subst, ap, ◌∙◌, ◌⊎◌, inl, inr, Bool, true, false, Option, none, some,
  List, [], ◌∷◌, arith, ◌==◌, leb, Bool-cases, Option-cases, if◌then◌else◌,
}
use principal_katas.Mpmc.Api.{Push}
use principal_katas.Mpmc.EventCount.{Sight, wait_loop}
use principal_katas.Mpmc.Rounds.{
  and_then, Round, unless_full, round_end, wake_by, found_or, closed_end, park_end, after_look,
}

-- A look at the clock that finds it at `by`, and a wait that ends.
abbrev pub LateSight : ℕ → List Sight → Type 0
LateSight by [] = 1 ≤ 0
LateSight by (s ∷ later) = (by ≤ s.now) ⊎ LateSight by later

pub wait_loop_returns :
    (key by : ℕ) (sights : List Sight)
    → LateSight by sights
    → (woke : Bool) × (wait_loop key by sights ≡ some woke)
unfolding wait_loop
wait_loop_returns key by [] l = absurd (omega arith)
wait_loop_returns key by (s ∷ later) l = elim (Bool-cases (s.epoch == key)) [
  | inr moved ↦ rw moved (true, refl)
  | inl same ↦ elim (Bool-cases (leb by s.now)) [
    | inl late ↦ rw (same, late) (false, refl)
    | inr early ↦
        rw (same, early)
          (wait_loop_returns key by later (elim l [ inl le ↦ absurd (ground arith) | inr l' ↦ l' ]))
  ]
]

unless_full_cases {ℓ} :
    {B : Type ℓ} (r : Push) (b b' : B)
    → ((r ≡ Push.full) × (unless_full r b b' ≡ b')) ⊎ ((r ≢ Push.full) × (unless_full r b b' ≡ b))
unfolding unless_full
unless_full_cases Push.full b b' = inl (refl, refl)
unless_full_cases Push.ok b b' = inr (λ e. absurd (ground (arith, e)), refl)
unless_full_cases Push.closed b b' = inr (λ e. absurd (ground (arith, e)), refl)
unless_full_cases Push.timeout b b' = inr (λ e. absurd (ground (arith, e)), refl)

module _ {Q : Type 0} (until backstop : ℕ) where
  -- A round at whose end the clock is at `until`, and before it rounds whose wait ends.
  abbrev pub InTime : List (Round Q) → Type 0
  InTime [] = 1 ≤ 0
  InTime (e ∷ later) =
      (until ≤ e.now) ⊎ (LateSight (wake_by until backstop e.now) e.sights × InTime later)

  -- Some round at whose end the clock is at `until`.
  abbrev pub SomeLate : List (Round Q) → Type 0
  SomeLate [] = 1 ≤ 0
  SomeLate (e ∷ later) = (until ≤ e.now) ⊎ SomeLate later

pub late_test : (a b : ℕ) → a ≤ b → leb a b ≡ true
late_test a b le = ground arith

-- A round of `push`, by what its two tries, the clock and its wait say.
module _ {ℓ} {B : Type ℓ} (r r' : Push) (b b' b'' : B) (late : Bool) (w : Option Bool)
    (rest : Option B) where
  pub round_returns :
      (late ≡ true) ⊎ (((woke : Bool) × (w ≡ some woke)) × ((o : B) × (rest ≡ some o)))
      → (o : B) × (round_end r r' b b' b'' late w rest ≡ some o)
  unfolding round_end
  round_returns h =
      elim (unless_full_cases r (some b) (
        unless_full r' (some b')
          (if late then some b'' else elim w [ none ↦ none | some woke ↦ rest ]))) [
            | inr (_, e) ↦ (b, e)
            | inl (_, e) ↦
                elim (unless_full_cases r' (some b')
                  (if late then some b'' else elim w [ none ↦ none | some woke ↦ rest ])) [
                    | inr (_, e') ↦ (b', e ∙ e')
                    | inl (_, e') ↦ elim h [
                      | inl l ↦ (b'', e ∙ e' ∙ rw l refl)
                      | inr ((woke, k), (o, g)) ↦ elim (Bool-cases late) [
                        | inl l ↦ (b'', e ∙ e' ∙ rw l refl)
                        | inr l ↦ (o, e ∙ e' ∙ rw (l, k) g)
                      ]
                    ]
                  ]
          ]

  pub round_ends :
      (P : B → Type 0)
      → (r ≢ Push.full → P b)
      → (r' ≢ Push.full → P b')
      → (late ≡ true → P b'')
      → ((o : B) → rest ≡ some o → P o)
      → (o : B) → round_end r r' b b' b'' late w rest ≡ some o
      → P o
  unfolding round_end
  round_ends P p p' p'' more o h =
      elim (unless_full_cases r (some b) (
        unless_full r' (some b')
          (if late then some b'' else elim w [ none ↦ none | some woke ↦ rest ]))) [
            | inr (ne, e) ↦ subst P (some_inj b o (sym e ∙ h)) (p ne)
            | inl (_, e) ↦
                elim (unless_full_cases r' (some b')
                  (if late then some b'' else elim w [ none ↦ none | some woke ↦ rest ])) [
                    | inr (ne, e') ↦ subst P (some_inj b' o (sym e' ∙ sym e ∙ h)) (p' ne)
                    | inl (_, e') ↦ elim (Bool-cases late) [
                      | inl l ↦ subst P (some_inj b'' o (sym (e ∙ e' ∙ rw l refl) ∙ h)) (p'' l)
                      | inr l ↦ elim (Option-cases w) [
                        | inl k ↦ absurd (none_some (sym (e ∙ e' ∙ rw (l, k) refl) ∙ h))
                        | inr (woke, k) ↦ more o (sym (e ∙ e' ∙ rw (l, k) refl) ∙ h)
                      ]
                    ]
                  ]
          ]
    where
      some_inj : (x y : B) → some x ≡ some y → x ≡ y
      some_inj x y e = ap (λ t. elim t [ none ↦ x | some z ↦ z ]) e

      none_some : {x : B} → none ≡ some x → ⊥
      none_some e = absurd (ground (arith, e))

some_inj {ℓ} : {B : Type ℓ} (x y : B) → some x ≡ some y → x ≡ y
some_inj x y e = ap (λ t. elim t [ none ↦ x | some z ↦ z ]) e

module _ {ℓ} {B C : Type ℓ} where
  -- What a call returns that goes on with another's result, that result returned.
  pub and_then-ends :
      (m : Option B) (f : B → Option C) (c : C)
      → and_then m f ≡ some c
      → (b : B) × (m ≡ some b) × (f b ≡ some c)
  unfolding and_then
  and_then-ends none f c e = absurd (ground (arith, e))
  and_then-ends (some b) f c e = (b, refl, e)

module _ {ℓ} {A : Type 0} {B : Type ℓ} (P : B → Type 0) (o : B) where
  pub found_or-ends :
      (g : Option A) (f : A → B) (other : Option B)
      → ((v : A) → P (f v))
      → (other ≡ some o → P o)
      → found_or g f other ≡ some o
      → P o
  unfolding found_or
  found_or-ends none f other p more e = more e
  found_or-ends (some v) f other p more e = subst P (some_inj (f v) o e) (p v)

module _ {ℓ} {B : Type ℓ} (P : B → Type 0) (o : B) where
  pub closed_end-ends :
      (finished late : Bool) (b b' : B) (again : Option B)
      → (finished ≡ true → P b)
      → (late ≡ true → P b')
      → (again ≡ some o → P o)
      → closed_end finished late b b' again ≡ some o
      → P o
  unfolding closed_end
  closed_end-ends true late b b' again p p' more e = subst P (some_inj b o e) (p refl)
  closed_end-ends false true b b' again p p' more e = subst P (some_inj b' o e) (p' refl)
  closed_end-ends false false b b' again p p' more e = more e

  pub park_end-ends :
      (closed late : Bool) (b : B) (w : Option Bool) (retry rest rest_late : Option B)
      → (late ≡ true → P b)
      → (retry ≡ some o → P o)
      → (rest ≡ some o → P o)
      → (rest_late ≡ some o → P o)
      → park_end closed late b w retry rest rest_late ≡ some o
      → P o
  unfolding park_end
  park_end-ends true late b w retry rest rest_late p m m' m'' e = m e
  park_end-ends false true b w retry rest rest_late p m m' m'' e = subst P (some_inj b o e) (p refl)
  park_end-ends false false b none retry rest rest_late p m m' m'' e = absurd (ground (arith, e))
  park_end-ends false false b (some true) retry rest rest_late p m m' m'' e = m' e
  park_end-ends false false b (some false) retry rest rest_late p m m' m'' e = m'' e

  pub after_look-ends :
      (closed : Bool) (ended parks : Option B)
      → (closed ≡ true → ended ≡ some o → P o)
      → (parks ≡ some o → P o)
      → after_look closed ended parks ≡ some o
      → P o
  unfolding after_look
  after_look-ends true ended parks m m' e = m refl e
  after_look-ends false ended parks m m' e = m' e
