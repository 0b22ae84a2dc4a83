-- ===== src/Mpsc/Pipeline/Stream.antt =====
-- What the draining of a ring does: its oldest events go to the stage, or through it to the sink.
use principal_katas.Prelude.{
  ℕ, ◌≤◌, ◌<◌, ◌≡◌, ◌≢◌, refl, sym, ap, ◌∙◌, inl, inr, List, [], ◌∷◌, ◌++◌, arith, ◌==◌, length,
  append-nil, append_assoc, Bool-cases,
}
use principal_katas.Mpsc.Config.{Limits}
use principal_katas.Mpsc.Ring.Valid.{IsCapacity, IsValid}
use principal_katas.Mpsc.Ring.Refine.{contents}
use principal_katas.Mpsc.Pipeline.{Pipeline}
use principal_katas.Mpsc.Pipeline.Consumer.{flush, flush_if_full}

unfoldable pub concat {ℓ} : {A : Type ℓ} → List (List A) → List A
concat [] = []
concat (l ∷ ls) = l ++ concat ls

pub concat-append {ℓ} :
    {A : Type ℓ} (ls ms : List (List A)) → concat (ls ++ ms) ≡ concat ls ++ concat ms
unfolding concat
concat-append [] ms = refl
concat-append (l ∷ ls) ms =
    ap (λ k. l ++ k) (concat-append ls ms) ∙ sym (append_assoc l (concat ls) (concat ms))

-- the limits that `static_assert`s and the source's values meet
pub record IsLimits (lim : Limits) : Type 0 where
  pub capacity : IsCapacity lim.ring_capacity
  pub some_producers : 0 < lim.max_producers
  pub some_batch : 0 < lim.drain_batch
  pub some_stage : 0 < lim.stage_events

module _ {E : Type 0} where
  -- every event that left a ring so far, in order
  unfoldable pub stream : Pipeline E → List E
  unfolding concat
  stream p = concat p.written ++ p.staged

  pub stream-flush : (p : Pipeline E) → stream (flush p) ≡ stream p
  unfolding stream flush concat
  stream-flush p = elim (Bool-cases (length p.staged == 0)) [
    | inl e ↦ rw e refl
    | inr e ↦ rw e (
        append-nil (concat (p.written ++ p.staged ∷ []))
        ∙ concat-append p.written (p.staged ∷ [])
        ∙ ap (λ k. concat p.written ++ k) (append-nil p.staged))
  ]

  -- what a flush leaves alone
  pub flush_slots : (p : Pipeline E) → (flush p).slots ≡ p.slots
  unfolding flush
  flush_slots p = ground arith

  pub flush_bits : (p : Pipeline E) → (flush p).active_bits ≡ p.active_bits
  unfolding flush
  flush_bits p = ground arith

  pub flush_consumed : (p : Pipeline E) → (flush p).consumed ≡ p.consumed
  unfolding flush
  flush_consumed p = ground arith

  pub flush_staged : (p : Pipeline E) → length (flush p).staged ≡ 0
  unfolding flush
  flush_staged p = ground arith

module _ {E : Type 0} (lim : Limits) where
  -- `out` went from ring `i` to the stream
  pub record Drained (i : ℕ) (p : Pipeline E) (out : List E) (p' : Pipeline E) : Type 0 where
    pub valid : IsValid lim.ring_capacity (p'.slots i).ring
    pub held :
        contents lim.ring_capacity (p.slots i).ring
        ≡ out ++ contents lim.ring_capacity (p'.slots i).ring
    pub streamed : stream p' ≡ stream p ++ out
    pub fits : length p'.staged ≤ lim.stage_events
    pub others : (j : ℕ) → i ≢ j → p'.slots j ≡ p.slots j
    pub same_state : (p'.slots i).state ≡ (p.slots i).state
    pub same_pushed : (p'.slots i).pushed ≡ (p.slots i).pushed
    pub same_bits : p'.active_bits ≡ p.active_bits
    pub same_consumed : p'.consumed ≡ p.consumed
    pub same_retired : p'.retired_pushed ≡ p.retired_pushed

  pub Drained-none :
      (i : ℕ) (p : Pipeline E)
      → IsValid lim.ring_capacity (p.slots i).ring
      → length p.staged ≤ lim.stage_events
      → Drained i p [] p
  Drained-none i p v f = record {
    valid = v;
    held = refl;
    streamed = sym (append-nil (stream p));
    fits = f;
    others = λ j ne. refl;
    same_state = refl;
    same_pushed = refl;
    same_bits = refl;
    same_consumed = refl;
    same_retired = refl;
  }

  pub Drained-trans :
      (i : ℕ) {p q r : Pipeline E} {out out' : List E}
      → Drained i p out q
      → Drained i q out' r
      → Drained i p (out ++ out') r
  Drained-trans i {p} {q} {r} {out} {out'} d e = record {
    valid = e.valid;
    held = d.held ∙ ap (λ k. out ++ k) e.held ∙ sym (append_assoc out out' _);
    streamed = e.streamed ∙ ap (λ k. k ++ out') d.streamed ∙ append_assoc (stream p) out out';
    fits = e.fits;
    others = λ j ne. e.others j ne ∙ d.others j ne;
    same_state = e.same_state ∙ d.same_state;
    same_pushed = e.same_pushed ∙ d.same_pushed;
    same_bits = e.same_bits ∙ d.same_bits;
    same_consumed = e.same_consumed ∙ d.same_consumed;
    same_retired = e.same_retired ∙ d.same_retired;
  }

  pub Drained-flush :
      (i : ℕ) (p : Pipeline E)
      → IsValid lim.ring_capacity (p.slots i).ring
      → length p.staged ≤ lim.stage_events
      → Drained i p [] (flush_if_full lim p)
  unfolding flush
  Drained-flush i p v f = elim (Bool-cases (length p.staged == lim.stage_events)) [
    | inl full ↦ rw full (record {
      valid = rw (flush_slots p) v;
      held = rw (flush_slots p) refl;
      streamed = stream-flush p ∙ sym (append-nil (stream p));
      fits = omega (arith, flush_staged p);
      others = λ j ne. rw (flush_slots p) refl;
      same_state = rw (flush_slots p) refl;
      same_pushed = rw (flush_slots p) refl;
      same_bits = flush_bits p;
      same_consumed = flush_consumed p;
      same_retired = ground arith;
    })
    | inr room ↦ rw room (Drained-none i p v f)
  ]
