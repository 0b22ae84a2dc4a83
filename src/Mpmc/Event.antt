-- ===== src/Mpmc/Event.antt =====
-- mpmc-work-queue-kata/cpp/src/event.hpp: the event, its digest, and the tally that checks delivery
-- without a record for each event.
use Prim.Native.Nat.{bit_xor}
use principal_katas.Prelude.{
  ℕ, ◌+◌, ◌*◌, ◌/◌, ◌^◌, ◌<◌, ◌≡◌, refl, ap, ◌∙◌, Bool, true, ◌&&◌, List, [], ◌∷◌, ◌++◌, arith,
  ◌==◌, add64, mul64,
}

pub record Event : Type 0 where
  pub producer : ℕ
  pub seq : ℕ
  pub stamp : ℕ
  pub payload : ℕ
  pub check : ℕ

-- `x ^= x >> s`
abbrev pub fold_bits : ℕ → ℕ → ℕ
fold_bits x s = bit_xor x (x / 2 ^ s)

unfoldable pub mix : ℕ → ℕ
mix x =
    let x1 = mul64 (fold_bits x 30) 0xbf58476d1ce4e5b9 in
    let x2 = mul64 (fold_bits x1 27) 0x94d049bb133111eb in fold_bits x2 31

-- `uint64_t{producer} << 32 | seq`, of two 32-bit numbers
abbrev pub identity : ℕ → ℕ → ℕ
identity producer seq = producer * 2 ^ 32 + seq

unfoldable pub digest : ℕ → ℕ → ℕ → ℕ → ℕ
digest producer seq stamp payload =
    mix (
      bit_xor (mix (bit_xor (mix (add64 (identity producer seq) 0x9e3779b97f4a7c15)) stamp))
        payload)

unfoldable pub make_event : ℕ → ℕ → ℕ → Event
make_event producer seq stamp =
    let payload = mix (identity producer seq) in
    record {
      producer = producer;
      seq = seq;
      stamp = stamp;
      payload = payload;
      check = digest producer seq stamp payload;
    }

unfoldable pub intact : Event → Bool
intact e =
    (e.payload == mix (identity e.producer e.seq))
    && (e.check == digest e.producer e.seq e.stamp e.payload)

pub record Tally : Type 0 where
  pub n : ℕ
  pub a : ℕ
  pub b : ℕ

abbrev pub no_tally : Tally
no_tally = record { n = 0; a = 0; b = 0 }

unfoldable pub add : Event → Tally → Tally
add e t =
    let id = identity e.producer e.seq in
    record {
      n = add64 t.n 1;
      a = add64 t.a (mix (bit_xor id 0x2545f4914f6cdd1d));
      b = add64 t.b (mix (add64 (mul64 id 0x9e3779b97f4a7c15) 1));
    }

unfoldable pub merge_tally : Tally → Tally → Tally
merge_tally t o = record { n = add64 t.n o.n; a = add64 t.a o.a; b = add64 t.b o.b }

-- a producer's or consumer's tally of its events, from the last to the first
unfoldable pub tally : List Event → Tally
unfolding add
tally [] = no_tally
tally (e ∷ es) = add e (tally es)

-- the three sums of a tally
tally_in :
    (es : List Event) → ((tally es).n < 2 ^ 64) × ((tally es).a < 2 ^ 64) × ((tally es).b < 2 ^ 64)
unfolding tally add
tally_in [] = omega arith
tally_in (e ∷ es) = omega arith

tally_ext : {s t : Tally} → s.n ≡ t.n → s.a ≡ t.a → s.b ≡ t.b → s ≡ t
tally_ext e f g i = record { n = e i; a = f i; b = g i }

-- Merging the tallies of two threads is the tally of all their events.
pub merge-tally : (xs ys : List Event) → merge_tally (tally xs) (tally ys) ≡ tally (xs ++ ys)
unfolding tally merge_tally add
merge-tally [] ys = let h = tally_in ys in tally_ext (omega arith) (omega arith) (omega arith)
merge-tally (x ∷ xs) ys =
    let h = merge-tally xs ys in
    let en : add64 (tally xs).n (tally ys).n ≡ (tally (xs ++ ys)).n = ap (λ t. t.n) h in
    let ea : add64 (tally xs).a (tally ys).a ≡ (tally (xs ++ ys)).a = ap (λ t. t.a) h in
    let eb : add64 (tally xs).b (tally ys).b ≡ (tally (xs ++ ys)).b = ap (λ t. t.b) h in
    tally_ext (omega arith) (omega arith) (omega arith)

-- An event counted in one of two tallies that are merged is counted in both.
pub merge_add : (e : Event) (t u : Tally) → merge_tally t (add e u) ≡ merge_tally (add e t) u
unfolding merge_tally add
merge_add e t u = tally_ext (omega arith) (omega arith) (omega arith)

pub add_whole : (e : Event) (t : Tally) → merge_tally no_tally (add e t) ≡ add e t
unfolding merge_tally add
add_whole e t = tally_ext (omega arith) (omega arith) (omega arith)

pub merge_none : (es : List Event) → merge_tally (tally es) no_tally ≡ tally es
unfolding merge_tally
merge_none es = let h = tally_in es in tally_ext (omega arith) (omega arith) (omega arith)

-- the same events in another order
pub data Reordered : List Event → List Event → Type 0 where
  nothing : Reordered [] []
  keep : (e : Event) {xs ys : List Event} → Reordered xs ys → Reordered (e ∷ xs) (e ∷ ys)
  exchange : (e f : Event) (xs : List Event) → Reordered (e ∷ f ∷ xs) (f ∷ e ∷ xs)
  chain : {xs ys zs : List Event} → Reordered xs ys → Reordered ys zs → Reordered xs zs

-- The order in which events are counted does not show in their tally.
pub tally-Reordered : {xs ys : List Event} → Reordered xs ys → tally xs ≡ tally ys
unfolding tally add
tally-Reordered nothing = refl
tally-Reordered (keep e r) = ap (add e) (tally-Reordered r)
tally-Reordered (exchange e f xs) = tally_ext (omega arith) (omega arith) (omega arith)
tally-Reordered (chain r s) = tally-Reordered r ∙ tally-Reordered s

-- An event as made is intact, whatever its producer, number and stamp.
pub make_event-intact : (producer seq stamp : ℕ) → intact (make_event producer seq stamp) ≡ true
unfolding intact make_event
make_event-intact producer seq stamp = ground arith
