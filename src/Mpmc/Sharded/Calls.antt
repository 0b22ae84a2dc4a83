-- ===== src/Mpmc/Sharded/Calls.antt =====
-- mpmc-work-queue-kata/cpp/src/sharded_queue.hpp: the calls of `ShardedQueue<T, N, P, C>`. What other
-- threads do to the queue within a call is a function. Child Blocking has the calls that wait.
use principal_katas.Prelude.{
  ℕ, zero, suc, ◌+◌, ◌-◌, ◌*◌, ◌/◌, ◌%◌, inl, inr, Bool, true, false, not, ◌||◌, Option, none, some,
  ◌==◌, add64, put_at, if◌then◌else◌,
}
use principal_katas.Mpmc.Rounds.{woken, Outcome}
use principal_katas.Mpmc.Api.{Push, OpStats}
use principal_katas.Mpmc.EventCount.{EventCount, notify_one, notify_all}
use principal_katas.Mpmc.Sharded.{
  Ring, Consumer, Queue, is_closed, position, close_ring, commit, push_begin, pop_ring,
}

module _ {A : Type 0} where
  abbrev pub set_ring : ℕ → Ring A → Queue A → Queue A
  set_ring p r q = record q { rings = put_at q.rings p r }

  abbrev pub set_consumer : ℕ → Consumer → Queue A → Queue A
  set_consumer c me q = record q { consumers = put_at q.consumers c me }

  -- a call on an event count of the queue
  abbrev pub at_not_full : ℕ → (EventCount → EventCount) → Queue A → Queue A
  at_not_full p f q = set_ring p (record (q.rings p) { not_full = f (q.rings p).not_full }) q

  abbrev pub at_not_empty : ℕ → (EventCount → EventCount) → Queue A → Queue A
  at_not_empty c f q =
      set_consumer c (record (q.consumers c) { not_empty = f (q.consumers c).not_empty }) q

-- `kOwned` and `ring_of`
abbrev pub owned : ℕ → ℕ → ℕ
owned n_producers n_consumers = n_producers / n_consumers

abbrev pub ring_of : ℕ → ℕ → ℕ → ℕ
ring_of n_consumers consumer k = consumer + n_consumers * k

module _ {A : Type 0} (ring_slots n_producers n_consumers : ℕ) where
  -- the rest of `try_push`, from its compare-and-swap on
  unfoldable pub push_end : ℕ → ℕ → OpStats → Queue A → Outcome Push (Queue A)
  unfolding commit notify_one
  push_end word producer st q =
      let (published, r) = commit word (q.rings producer) in
      let q' = set_ring producer r q in
      let c = producer % n_consumers in
      let (woke, wakes, ec) = notify_one true (q'.consumers c).not_empty in
      if published
      then record { result = Push.ok; stats = woken woke st; queue = at_not_empty c (λ _. ec) q' }
      else record { result = Push.closed; stats = st; queue = q' }

  unfoldable pub try_push : A → (Queue A → Queue A) → ℕ → OpStats → Queue A → Outcome Push (Queue A)
  unfolding push_begin push_end
  try_push v others producer st q =
      let (begun, r) = push_begin ring_slots v (q.rings producer) in
      let q' = set_ring producer r q in
      elim begun [
        | inl refused ↦ record { result = refused; stats = st; queue = q' }
        | inr word ↦ push_end word producer st (others q')
      ]

  -- The private `try_pop`, from round `k` of its loop for `left` rounds.
  unfoldable pub serve : ℕ → ℕ → ℕ → ℕ → OpStats → Queue A → Outcome (Option A) (Queue A)
  unfolding pop_ring
  serve consumer next k zero st q = record { result = none; stats = st; queue = q }
  serve consumer next k (suc left) st q =
      let i = (next + k) % (owned n_producers n_consumers) in
      let p = ring_of n_consumers consumer i in
      let (got, woke, r) = pop_ring ring_slots (q.rings p) in
      let q' = set_ring p r q in
      let rest = serve consumer next (k + 1) left (woken woke st) q' in
      elim got [
        | none ↦ rest
        | some v ↦ record {
          result = some v;
          stats = woken woke st;
          queue =
              set_consumer consumer
                (record (q'.consumers consumer) {
                  next = (i + 1) % (owned n_producers n_consumers);
                })
                q';
        }
      ]

  unfoldable pub try_pop : ℕ → OpStats → Queue A → Outcome (Option A) (Queue A)
  unfolding serve
  try_pop consumer st q =
      serve consumer (q.consumers consumer).next 0 (owned n_producers n_consumers) st q

  -- `any_published`, `any_closed` and `drained`, from round `k` on
  unfoldable pub any_from : (Ring A → Bool) → ℕ → ℕ → ℕ → Queue A → Bool
  any_from test consumer k zero q = false
  any_from test consumer k (suc left) q =
      test (q.rings (ring_of n_consumers consumer k)) || any_from test consumer (k + 1) left q

  abbrev pub holds_some : Ring A → Bool
  holds_some r = not (position r.tail == r.head)

  abbrev pub is_shut : Ring A → Bool
  is_shut r = is_closed r.tail

  unfoldable pub any_published : ℕ → Queue A → Bool
  unfolding any_from
  any_published consumer q = any_from holds_some consumer 0 (owned n_producers n_consumers) q

  unfoldable pub any_closed : ℕ → Queue A → Bool
  unfolding any_from
  any_closed consumer q = any_from is_shut consumer 0 (owned n_producers n_consumers) q

  -- `drained`, from round `k` of its loop
  unfoldable pub drained_from : ℕ → ℕ → ℕ → Queue A → Bool
  drained_from consumer k zero q = true
  drained_from consumer k (suc left) q =
      let r = q.rings (ring_of n_consumers consumer k) in
      let rest = drained_from consumer (k + 1) left q in
      if not (is_closed r.tail) || not (r.head == position r.tail) then false else rest

  unfoldable pub drained : ℕ → Queue A → Bool
  unfolding drained_from
  drained consumer q = drained_from consumer 0 (owned n_producers n_consumers) q

  -- The three loops of `close`, from `p` or `c` on.
  unfoldable pub close_rings : ℕ → ℕ → Queue A → Queue A
  unfolding close_ring
  close_rings p zero q = q
  close_rings p (suc left) q = close_rings (p + 1) left (set_ring p (close_ring (q.rings p)) q)

  unfoldable pub notify_consumers : ℕ → ℕ → Queue A → Queue A
  unfolding notify_all
  notify_consumers c zero q = q
  notify_consumers c (suc left) q =
      notify_consumers (c + 1) left (at_not_empty c (λ ec. (notify_all ec).1) q)

  unfoldable pub notify_producers : ℕ → ℕ → Queue A → Queue A
  unfolding notify_all
  notify_producers p zero q = q
  notify_producers p (suc left) q =
      notify_producers (p + 1) left (at_not_full p (λ ec. (notify_all ec).1) q)

  unfoldable pub close : Queue A → Queue A
  unfolding close_rings notify_consumers notify_producers
  close q =
      notify_producers 0 n_producers (notify_consumers 0 n_consumers (close_rings 0 n_producers q))

  unfoldable pub closed : Queue A → Bool
  closed q = is_closed (q.rings (n_producers - 1)).tail

  -- The loops of `reserved` and `claimed`, with the sum so far.
  unfoldable pub sum_from : (Ring A → ℕ) → ℕ → ℕ → ℕ → Queue A → ℕ
  sum_from f p n zero q = n
  sum_from f p n (suc left) q = sum_from f (p + 1) (add64 n (f (q.rings p))) left q

  unfoldable pub reserved : Queue A → ℕ
  unfolding sum_from
  reserved q = sum_from (λ r. position r.tail) 0 0 n_producers q

  unfoldable pub claimed : Queue A → ℕ
  unfolding sum_from
  claimed q = sum_from (λ r. r.head) 0 0 n_producers q
