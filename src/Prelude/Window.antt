-- ===== src/Prelude/Window.antt =====
-- A circular array: the elements held in `n` places from place `h` on, going round at `size`.
use Prim.Native.Nat.{ℕ, zero, suc, ◌+◌, ◌-◌, ◌%◌, ◌≤◌, ◌<◌}
use mathlib.Core.Path.{◌≡◌, refl, sym, ap, ap₂, ◌∙◌}
use mathlib.Core.Logic.{◌≢◌}
use mathlib.Core.List.{List, [], ◌∷◌, ◌++◌}
use native.Mathlib.Nat.{mod-add-mod, mod-eq_of_lt, mod-eq-sub-mod, add-zero, suc-add}
use native.Mathlib.Decide.{dec_lt}
use native.Mathlib.Omega.{arith}
use principal_katas.Prelude.Tests.{◌==◌, if◌then◌else◌}
use principal_katas.Prelude.Lists.{length}

-- `f[i] = v`
abbrev pub put_at {ℓ} : {A : Type ℓ} → (ℕ → A) → ℕ → A → ℕ → A
put_at f i v j = if i == j then v else f j

-- Fewer than `size` places on is another place.
pub step-ne : {size h k : ℕ} → h < size → suc k < size → (h + suc k) % size ≢ h
step-ne {size} {h} {k} hh hk = elim (dec_lt (h + suc k) size) [
  | yes p ↦ omega (arith, mod-eq_of_lt p)
  | no p ↦ omega (
    arith,
    mod-eq-sub-mod {n = h + suc k} {m = size} (omega arith),
    mod-eq_of_lt {n = h + suc k - size} {m = size} (omega arith),
  )
]

pub shift : (size h n : ℕ) → (h + suc n) % size ≡ ((h + 1) % size + n) % size
shift size h n = rw mod-add-mod (ap (λ k. k % size) (omega arith))

pub at_start : (size h : ℕ) → h < size → (h + 0) % size ≡ h
at_start size h hh = rw add-zero (mod-eq_of_lt hh)

module _ {ℓ} {A : Type ℓ} where
  unfoldable pub window : (ℕ → A) → ℕ → ℕ → ℕ → List A
  window f size h zero = []
  window f size h (suc n) = f h ∷ window f size ((h + 1) % size) n

  pub length-window : (f : ℕ → A) (size h n : ℕ) → length (window f size h n) ≡ n
  unfolding window
  length-window f size h zero = refl
  length-window f size h (suc n) = ap suc (length-window f size ((h + 1) % size) n)

  -- A write at the first place past a window is not seen in it.
  pub window-put_past :
      (f : ℕ → A) (size h n i : ℕ) (v : A)
      → h < size
      → n < size
      → i ≡ (h + n) % size
      → window (put_at f i v) size h n ≡ window f size h n
  unfolding window
  window-put_past f size h zero i v hh hn e = refl
  window-put_past f size h (suc n) i v hh hn e =
      ap₂ ◌∷◌ (ground (arith, step-ne {size = size} {h = h} {k = n} hh hn)) (
        window-put_past f size ((h + 1) % size) n i v (omega arith) (omega arith)
          (e ∙ shift size h n))

  -- Nor is a write further on, short of a whole turn.
  pub window-put_far :
      (f : ℕ → A) (size h n m i : ℕ) (v : A)
      → h < size
      → n ≤ m
      → m < size
      → i ≡ (h + m) % size
      → window (put_at f i v) size h n ≡ window f size h n
  unfolding window
  window-put_far f size h zero m i v hh le hm e = refl
  window-put_far f size h (suc n) zero i v hh le hm e = absurd (omega arith)
  window-put_far f size h (suc n) (suc m) i v hh le hm e =
      ap₂ ◌∷◌ (ground (arith, step-ne {size = size} {h = h} {k = m} hh hm)) (
        window-put_far f size ((h + 1) % size) n m i v (omega arith) (omega arith) (omega arith)
          (e ∙ shift size h m))

  pub window-snoc :
      (f : ℕ → A) (size h n : ℕ)
      → h < size
      → window f size h (suc n) ≡ window f size h n ++ f ((h + n) % size) ∷ []
  unfolding window
  window-snoc f size h zero hh = ap (λ k. f k ∷ []) (sym (at_start size h hh))
  window-snoc f size h (suc n) hh =
      ap (λ l. f h ∷ l)
        (window-snoc f size ((h + 1) % size) n (omega arith)
          ∙ ap (λ k. window f size ((h + 1) % size) n ++ f k ∷ []) (omega (arith, shift size h n)))

  -- Writing the place past a window extends it by what is written.
  pub window-push :
      (f : ℕ → A) (size h n i : ℕ) (v : A)
      → h < size
      → n < size
      → i ≡ (h + n) % size
      → window (put_at f i v) size h (suc n) ≡ window f size h n ++ v ∷ []
  window-push f size h n i v hh hn e =
      window-snoc (put_at f i v) size h n hh
      ∙ ap₂ (λ l x. l ++ x ∷ []) (window-put_past f size h n i v hh hn e) (ground arith)

  -- A window in two parts.
  pub window-split :
      (f : ℕ → A) (size h m n : ℕ)
      → h < size
      → window f size h (m + n) ≡ window f size h m ++ window f size ((h + m) % size) n
  unfolding window
  window-split f size h zero n hh =
      ap₂ (λ k i. window f size i k) (omega arith) (sym (at_start size h hh))
  window-split f size h (suc m) n hh = rw suc-add (
      ap (λ l. f h ∷ l)
        (window-split f size ((h + 1) % size) m n (omega arith)
          ∙ ap (λ i. window f size ((h + 1) % size) m ++ window f size i n) (sym (shift size h m))))
