-- ===== src/Mpmc/Driver/Order.antt =====
-- mpmc-work-queue-kata/cpp/bench/driver.hpp: each producer's events in the order of their numbers,
-- and what a consumer remembers of it.
use principal_katas.Prelude.{
  ℕ, ◌≤◌, ◌<◌, ◌≡◌, refl, subst, inl, inr, Bool, true, false, Option, none, some, List, [], ◌∷◌,
  arith, ◌==◌, put_at, Bool-cases, if◌then◌else◌,
}
use principal_katas.Mpmc.Event.{Event}
use principal_katas.Mpmc.Driver.{is_late}

-- later in number than the event `e`, if of the same producer
abbrev pub AllAfter : Event → List Event → Type 0
AllAfter e [] = 0 ≤ 0
AllAfter e (f ∷ later) = ((f.producer ≡ e.producer) → e.seq < f.seq) × AllAfter e later

-- Each producer's events come in the order of their numbers.
abbrev pub Increasing : List Event → Type 0
Increasing [] = 0 ≤ 0
Increasing (e ∷ later) = AllAfter e later × Increasing later

-- none late by what is remembered of its producer
abbrev pub AllOnTime : (ℕ → Option ℕ) → List Event → Type 0
AllOnTime last [] = 0 ≤ 0
AllOnTime last (f ∷ later) = (is_late f.seq (last f.producer) ≡ false) × AllOnTime last later

abbrev pub remember : Event → (ℕ → Option ℕ) → ℕ → Option ℕ
remember e last = put_at last e.producer (some e.seq)

pub on_time-remember :
    (e : Event) (last : ℕ → Option ℕ) (es : List Event)
    → AllAfter e es
    → AllOnTime last es
    → AllOnTime (remember e last) es
on_time-remember e last [] a o = o
on_time-remember e last (f ∷ later) (a, as') (o, os) = (
  elim (Bool-cases (e.producer == f.producer)) [
    | inl same ↦ rw same (ground (arith, a (ground arith)))
    | inr other ↦ rw other o
  ],
  on_time-remember e last later as' os,
)

pub after-remember :
    (e : Event) (last : ℕ → Option ℕ) (es : List Event)
    → AllOnTime (remember e last) es
    → AllAfter e es
after-remember e last [] o = o
after-remember e last (f ∷ later) (o, os) =
    (λ same. ground (arith, o, same), after-remember e last later os)

later_still : (i j : ℕ) (last : Option ℕ) → j < i → is_late j last ≡ false → is_late i last ≡ false
later_still i j none lt l = refl
later_still i j (some k) lt l = ground arith

pub on_time-forget :
    (e : Event) (last : ℕ → Option ℕ) (es : List Event)
    → is_late e.seq (last e.producer) ≡ false
    → AllOnTime (remember e last) es
    → AllOnTime last es
on_time-forget e last [] l o = o
on_time-forget e last (f ∷ later) l (o, os) = (
  elim (Bool-cases (e.producer == f.producer)) [
    | inl same ↦
        later_still f.seq e.seq (last f.producer) (ground (arith, o, same))
          (subst (λ p. is_late e.seq (last p) ≡ false) (ground arith) l)
    | inr other ↦ ground (arith, o, other)
  ],
  on_time-forget e last later l os,
)

-- what holds of a conditional, on a known test
pub when_true {ℓ κ} :
    {B : Type ℓ} (P : B → Type κ) (b : Bool) (x y : B) → b ≡ true → P (if b then x else y) → P x
when_true P true x y e p = p
when_true P false x y e p = absurd (ground (arith, e))

pub when_false {ℓ κ} :
    {B : Type ℓ} (P : B → Type κ) (b : Bool) (x y : B) → b ≡ false → P (if b then x else y) → P y
when_false P true x y e p = absurd (ground (arith, e))
when_false P false x y e p = p
