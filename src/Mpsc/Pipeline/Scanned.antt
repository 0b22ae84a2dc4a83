-- ===== src/Mpsc/Pipeline/Scanned.antt =====
-- What a full scan leaves in the rings.
use native.Mathlib.Nat.{mod-lt}
use principal_katas.Prelude.{
  ℕ, zero, suc, ◌+◌, ◌%◌, ◌≤◌, ◌<◌, ◌≡◌, ◌≢◌, refl, sym, subst, ap, ◌∙◌, inl, inr, Bool, true,
  false, not, arith, ◌==◌, ltb, add64, sub64, length, length-append, Bool-cases, if◌then◌else◌,
}
use principal_katas.Mpsc.Config.{Limits}
use principal_katas.Mpsc.Ring.Refine.{contents, length-contents}
use principal_katas.Mpsc.Pipeline.{Pipeline, is_free}
use principal_katas.Mpsc.Pipeline.Consumer.{flush, drain_loop, drain_ring, probe, scan, drain_full}
use principal_katas.Mpsc.Pipeline.Stream.{IsLimits, flush_slots}
use principal_katas.Mpsc.Pipeline.Drain.{drain_loop-LoopEnd}
use principal_katas.Mpsc.Pipeline.Draining.{Inv, probe-Inv, flush_some-Inv}

-- the sum of the first values of a function, and what a change at one argument does to it
unfoldable pub sum : ℕ → (ℕ → ℕ) → ℕ
sum zero f = 0
sum (suc n) f = f n + sum n f

sum_past : (n i : ℕ) (f g : ℕ → ℕ) → n ≤ i → ((j : ℕ) → i ≢ j → g j ≡ f j) → sum n g ≡ sum n f
unfolding sum
sum_past zero i f g le same = refl
sum_past (suc n) i f g le same =
    omega (arith, same n (omega arith), sum_past n i f g (omega arith) same)

pub sum_at :
    (n i : ℕ) (f g : ℕ → ℕ) → i < n → ((j : ℕ) → i ≢ j → g j ≡ f j) → sum n g + f i ≡ sum n f + g i
unfolding sum
sum_at zero i f g lt same = absurd (omega arith)
sum_at (suc n) i f g lt same = elim (Bool-cases (i == n)) [
  | inl e ↦
      let at : i ≡ n = ground arith in
      rw at
        (omega (arith, sum_past n n f g (omega arith) (λ j ne. same j (ground (arith, ne, at)))))
  | inr e ↦ omega (arith, same n (ground arith), sum_at n i f g (ground arith) same)
]

module _ {E : Type 0} where
  -- how many events a ring holds
  abbrev pub held : Pipeline E → ℕ → ℕ
  held p i = sub64 (p.slots i).ring.tail (p.slots i).ring.head

module _ {E : Type 0} (lim : Limits) where
  -- What a look at ring `i` leaves, where `out` has the number of events taken.
  record Taken (i : ℕ) (p : Pipeline E) (out : ℕ × Pipeline E) : Type 0 where
    kept : Inv lim out.1
    took : held p i ≡ out.0 + held out.1 i
    others : (j : ℕ) → i ≢ j → held out.1 j ≡ held p j
    emptied : out.0 ≡ 0 → held out.1 i ≡ 0

  -- What a scan from offset `k` on leaves.
  pub record Scanned (rotate k left : ℕ) (p : Pipeline E) (out : ℕ × Pipeline E) : Type 0 where
    pub kept : Inv lim out.1
    pub fewer : sum lim.max_producers (held out.1) + out.0 ≡ sum lim.max_producers (held p)
    pub none_grown : (j : ℕ) → held out.1 j ≤ held p j
    pub emptied :
        out.0 ≡ 0
        → (t : ℕ) → k ≤ t
        → t < k + left
        → held out.1 ((t + rotate) % lim.max_producers) ≡ 0

  -- the count and the slots after a probe are those after its loop
  abbrev looped : ℕ → Pipeline E → ℕ × Pipeline E
  looped i p =
      drain_loop lim i lim.drain_batch 0 (record p { rings_probed = add64 p.rings_probed 1 })

  probe_count : (i : ℕ) (p : Pipeline E) → (probe lim i p).0 ≡ (looped i p).0
  unfolding probe drain_ring
  probe_count i p = refl

  probe_slots : (i : ℕ) (p : Pipeline E) → (probe lim i p).1.slots ≡ (looped i p).1.slots
  unfolding probe drain_ring
  probe_slots i p = elim (Bool-cases ((looped i p).0 == 0)) [
    | inl z ↦ rw z refl
    | inr z ↦ rw z refl
  ]

  flushed_held : (b : Bool) (p : Pipeline E) (j : ℕ) → held (if b then flush p else p) j ≡ held p j
  flushed_held true p j = rw (flush_slots p) refl
  flushed_held false p j = refl

  module _ (ok : IsLimits lim) where
    probe-Taken : (i : ℕ) (p : Pipeline E) → Inv lim p → Taken i p (probe lim i p)
    probe-Taken i p inv =
        let p1 : Pipeline E = record p { rings_probed = add64 p.rings_probed 1 } in
        let e =
          drain_loop-LoopEnd lim ok i lim.drain_batch 0 p1 (inv.signalled.slot_ok i).valid
            inv.stage_fits (omega arith) (omega arith) in
        let q = (looped i p).1 in
        let at : (j : ℕ) → held (probe lim i p).1 j ≡ held q j =
          λ j. ap (λ f. sub64 (f j).ring.tail (f j).ring.head) (probe_slots i p) in
        let cap = lim.ring_capacity in
        let lengths : length (contents cap (p.slots i).ring)
            ≡ length e.events + length (contents cap (q.slots i).ring) =
          ap length e.drained.held ∙ length-append e.events (contents cap (q.slots i).ring) in
        let after = length-contents cap (q.slots i).ring in
        record {
          kept = probe-Inv lim ok i p inv;
          took = omega (
            arith,
            lengths,
            after,
            length-contents cap (p.slots i).ring,
            at i,
            probe_count i p,
            e.count,
          );
          others = λ j ne. at j ∙ ap (λ s. sub64 s.ring.tail s.ring.head) (e.drained.others j ne);
          emptied = λ z. at i ∙ elim e.ends [
            | inl full ↦ absurd (omega (arith, z, full, probe_count i p, ok.some_batch))
            | inr none_left ↦ sym after ∙ ap length none_left
          ];
        }

    visit-Taken :
        (i : ℕ) (p : Pipeline E)
        → Inv lim p
        → Taken i p (if not (is_free (p.slots i).state) then probe lim i p else (0, p))
    visit-Taken i p inv = elim (Bool-cases (is_free (p.slots i).state)) [
      | inr busy ↦ rw busy (probe-Taken i p inv)
      | inl free ↦ rw free (record {
        kept = inv;
        took = omega arith;
        others = λ j ne. refl;
        emptied = λ z. (inv.signalled.slot_ok i).free_empty free;
      })
    ]

    scan-Scanned :
        (rotate k left : ℕ) (p : Pipeline E)
        → Inv lim p
        → Scanned rotate k left p
            (scan lim (λ i q. not (is_free (q.slots i).state)) rotate k left p)
    unfolding scan
    scan-Scanned rotate k zero p inv = record {
      kept = inv;
      fewer = omega arith;
      none_grown = λ j. omega arith;
      emptied = λ z t lo hi. absurd (omega arith);
    }
    scan-Scanned rotate k (suc left) p inv =
        let visit : ℕ → Pipeline E → Bool = λ i q. not (is_free (q.slots i).state) in
        let max = lim.max_producers in
        let i = (k + rotate) % max in
        let o = if visit i p then probe lim i p else (0, p) in
        let t = visit-Taken i p inv in
        let rest = scan lim visit rotate (k + 1) left o.1 in
        let s = scan-Scanned rotate (k + 1) left o.1 t.kept in
        record {
          kept = s.kept;
          fewer = omega (
            arith,
            s.fewer,
            t.took,
            sum_at max i (held p) (held o.1) (mod-lt (k + rotate) ok.some_producers) t.others,
          );
          none_grown = λ j. elim (Bool-cases (i == j)) [
            | inl e ↦
                let same : i ≡ j = ground arith in
                subst (λ h. held rest.1 h ≤ held p h) same (omega (arith, s.none_grown i, t.took))
            | inr e ↦ omega (arith, s.none_grown j, t.others j (ground arith))
          ];
          emptied = λ z u lo hi. elim (Bool-cases (k == u)) [
            | inl e ↦
                let same : k ≡ u = ground arith in
                subst (λ h. held rest.1 ((h + rotate) % max) ≡ 0) same
                  (omega (arith, s.none_grown i, t.emptied (omega (arith, z))))
            | inr e ↦ s.emptied (omega (arith, z)) u (ground arith) (omega arith)
          ];
        }

    pub drain_full-Scanned :
        (rotate : ℕ) (p : Pipeline E)
        → Inv lim p
        → Scanned rotate 0 lim.max_producers p (drain_full lim rotate p)
    unfolding drain_full
    drain_full-Scanned rotate p inv =
        let (n, q) =
          scan lim (λ i q. not (is_free (q.slots i).state)) rotate 0 lim.max_producers p in
        let s = scan-Scanned rotate 0 lim.max_producers p inv in
        let same : (if ltb 0 n then flush q else q).slots ≡ q.slots = elim (Bool-cases (ltb 0 n)) [
          | inl y ↦ rw y (flush_slots q)
          | inr z ↦ rw z refl
        ] in
        let at : held (if ltb 0 n then flush q else q) ≡ held q =
          ap (λ f i. sub64 (f i).ring.tail (f i).ring.head) same in
        record {
          kept = flush_some-Inv lim ok n q s.kept;
          fewer = ap (λ f. sum lim.max_producers f + n) at ∙ s.fewer;
          none_grown = λ j. subst (λ f. f j ≤ held p j) (sym at) (s.none_grown j);
          emptied =
              λ z t lo hi. ap (λ f. f ((t + rotate) % lim.max_producers)) at ∙ s.emptied z t lo hi;
        }
