-- ===== src/Mpmc/Sharded/Returns.antt =====
-- When the calls that wait return, and what it means when they do.
use principal_katas.Prelude.{leb→le, ℕ, ◌≡◌, ◌≢◌, inl, inr, some, List, [], ◌∷◌, arith, leb}
use principal_katas.Mpmc.Rounds.{publishing_again, publishing, Outcome}
use principal_katas.Mpmc.Rounds.{Round}
use principal_katas.Mpmc.Rounds.Ends.{round_ends, SomeLate}
use principal_katas.Mpmc.Api.{Push, OpStats}
use principal_katas.Mpmc.Sharded.{Queue, push_begin, commit}
use principal_katas.Mpmc.Sharded.Calls.{try_push, push_end}
use principal_katas.Mpmc.Sharded.Blocking.{push}

module _ {A : Type 0} (n n_producers n_consumers backstop : ℕ) where
  no_timeout :
      (v : A) (others : Queue A → Queue A) (producer : ℕ) (st : OpStats) (q : Queue A)
      → (try_push n n_producers n_consumers v others producer st q).result ≢ Push.timeout
  unfolding try_push push_begin push_end commit
  no_timeout v others producer st q e = absurd (ground (arith, e))

  -- `push` never returns full, and returns timeout only if the clock was at `until` at the end of
  -- some round.
  pub push_answers :
      (v : A) (rounds : List (Round (Queue A))) (until producer : ℕ) (st : OpStats) (q : Queue A)
      (o : Outcome Push (Queue A))
      → push n n_producers n_consumers backstop v rounds until producer st q ≡ some o
      → (o.result ≢ Push.full) × ((o.result ≡ Push.timeout) → SomeLate until backstop rounds)
  unfolding push
  push_answers v [] until producer st q o h = absurd (ground (arith, h))
  push_answers v (e ∷ later) until producer st q o h =
      round_ends _ _ _ _ _ (leb until e.now) _ _
        (λ o.
          (o.result ≢ Push.full)
          × ((o.result ≡ Push.timeout) → SomeLate until backstop (e ∷ later)))
        (λ ne. (ne, λ t. absurd (no_timeout v (e.others publishing) producer st q t)))
        (λ ne. (ne, λ t. absurd (no_timeout v (e.others publishing_again) producer _ _ t)))
        (λ late. (λ f. absurd (ground (arith, f)), λ t. inl (leb→le until e.now late)))
        (λ o' h'.
          let (nf, tl) = push_answers v later until producer _ _ o' h' in (nf, λ t. inr (tl t)))
        o h
