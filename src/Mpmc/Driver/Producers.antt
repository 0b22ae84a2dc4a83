-- ===== src/Mpmc/Driver/Producers.antt =====
-- The counts of a producer agree with what its pushes were answered.
use principal_katas.Prelude.{
  ℕ, zero, suc, ◌+◌, ◌%◌, ◌^◌, ◌≡◌, refl, sym, ◌∙◌, List, [], ◌∷◌, arith, add64,
}
use principal_katas.Mpmc.Api.{Push}
use principal_katas.Mpmc.Event.{
  Event, Tally, no_tally, add, merge_tally, make_event, tally, merge_add, add_whole, merge_none,
}
use principal_katas.Mpmc.Driver.{
  unless_closed, ProducerState, new_producer, account, Answer, produce,
}

-- The events answered ok, up to the first refused as closed.
unfoldable pub with_taken : Push → Event → List Event → List Event
with_taken Push.ok e es = e ∷ es
with_taken Push.closed e es = []
with_taken Push.full e es = es
with_taken Push.timeout e es = es

unfoldable pub taken_in : ℕ → ℕ → ℕ → List Answer → List Event
taken_in id i quota [] = []
taken_in id i zero (a ∷ later) = []
taken_in id i (suc left) (a ∷ later) =
    with_taken a.result (make_event id (i % 2 ^ 32) a.now) (taken_in id (i + 1) left later)

-- `offered == accepted + rejected + refused`
abbrev pub IsBalanced : ProducerState → Type 0
IsBalanced s = s.offered ≡ add64 (add64 s.accepted.n s.rejected) s.refused_closed

account-IsBalanced :
    (r : Push) (id seq now : ℕ) (s : ProducerState)
    → IsBalanced s
    → IsBalanced (account r id seq now s)
unfolding account add
account-IsBalanced Push.ok id seq now s b = omega (arith, b)
account-IsBalanced Push.closed id seq now s b = omega (arith, b)
account-IsBalanced Push.full id seq now s b = omega (arith, b)
account-IsBalanced Push.timeout id seq now s b = omega (arith, b)

unless_closed-IsBalanced :
    (r : Push) (s s' : ProducerState)
    → IsBalanced s
    → IsBalanced s'
    → IsBalanced (unless_closed r s s')
unfolding unless_closed
unless_closed-IsBalanced Push.ok s s' b b' = b'
unless_closed-IsBalanced Push.closed s s' b b' = b
unless_closed-IsBalanced Push.full s s' b b' = b'
unless_closed-IsBalanced Push.timeout s s' b b' = b'

produce-IsBalanced :
    (id i quota : ℕ) (answers : List Answer) (s : ProducerState)
    → IsBalanced s
    → IsBalanced (produce id i quota answers s)
unfolding produce
produce-IsBalanced id i quota [] s b = b
produce-IsBalanced id i zero (a ∷ later) s b = b
produce-IsBalanced id i (suc left) (a ∷ later) s b =
    let b' = account-IsBalanced a.result id (i % 2 ^ 32) a.now s b in
    unless_closed-IsBalanced a.result _ _ b' (produce-IsBalanced id (i + 1) left later _ b')

-- a tally that sums as 64-bit numbers do
abbrev IsWhole : Tally → Type 0
IsWhole t = merge_tally no_tally t ≡ t

account-IsWhole :
    (r : Push) (id seq now : ℕ) (s : ProducerState)
    → IsWhole s.accepted
    → IsWhole (account r id seq now s).accepted
unfolding account
account-IsWhole Push.ok id seq now s w = add_whole (make_event id seq now) s.accepted
account-IsWhole Push.closed id seq now s w = w
account-IsWhole Push.full id seq now s w = w
account-IsWhole Push.timeout id seq now s w = w

one_more :
    (r : Push) (id seq now : ℕ) (s s' : ProducerState) (es : List Event)
    → IsWhole s.accepted
    → s'.accepted ≡ merge_tally (tally es) (account r id seq now s).accepted
    → (unless_closed r (account r id seq now s) s').accepted
      ≡ merge_tally (tally (with_taken r (make_event id seq now) es)) s.accepted
unfolding account unless_closed with_taken tally
one_more Push.ok id seq now s s' es w e =
    e ∙ merge_add (make_event id seq now) (tally es) s.accepted
one_more Push.closed id seq now s s' es w e = sym w
one_more Push.full id seq now s s' es w e = e
one_more Push.timeout id seq now s s' es w e = e

produce-accepted :
    (id i quota : ℕ) (answers : List Answer) (s : ProducerState)
    → IsWhole s.accepted
    → (produce id i quota answers s).accepted
      ≡ merge_tally (tally (taken_in id i quota answers)) s.accepted
unfolding produce taken_in tally
produce-accepted id i quota [] s w = sym w
produce-accepted id i zero (a ∷ later) s w = sym w
produce-accepted id i (suc left) (a ∷ later) s w =
    one_more a.result id (i % 2 ^ 32) a.now s _ (taken_in id (i + 1) left later) w (
      produce-accepted id (i + 1) left later _ (account-IsWhole a.result id (i % 2 ^ 32) a.now s w))

-- Whatever the queue answers, and wherever its answers or the quota end the loop, a saturated
-- producer counts as offered the sum, as a 64-bit number, of what it counts as accepted, rejected
-- and refused; and its tally is that of the events answered ok.
pub produce_accounts :
    (id quota : ℕ) (answers : List Answer)
    → let s = produce id 0 quota answers new_producer in
      (s.offered ≡ add64 (add64 s.accepted.n s.rejected) s.refused_closed)
      × (s.accepted ≡ tally (taken_in id 0 quota answers))
unfolding merge_tally
produce_accounts id quota answers = (
  produce-IsBalanced id 0 quota answers new_producer refl,
  produce-accepted id 0 quota answers new_producer refl ∙ merge_none (taken_in id 0 quota answers),
)
