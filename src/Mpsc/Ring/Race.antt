-- ===== src/Mpsc/Ring/Race.antt =====
-- The two sides of `SpscRing` at once, an access of shared memory at a time and in any order, under
-- sequential consistency: `try_push` in three steps and `pop_batch` in two and one for each event.
pub mod Safe
pub mod Reach
use principal_katas.Prelude.{
  ℕ, zero, suc, ◌+◌, ◌%◌, ◌≡◌, Bool, true, false, List, [], ◌∷◌, ◌++◌, ◌==◌, ltb, add64, sub64, min,
  put_at, if◌then◌else◌,
}
use principal_katas.Mpsc.Ring.{Ring, refresh_head, refresh_tail, new_ring}

-- Where the producer stands in `try_push`.
pub data Producer {ℓ} (A : Type ℓ) : Type ℓ where
  idle : Producer A
  checked : A → Producer A  -- room was found; the slot is not written
  written : A → Producer A  -- the slot is written; `tail_` is not stored

-- Where the consumer stands in `pop_batch`.
pub data Consumer {ℓ} (A : Type ℓ) : Type ℓ where
  idle : Consumer A
  copying : (n i : ℕ) → List A → Consumer A  -- `i` of `n` events are copied to `out`

-- `pushed` and `popped` are the events of all calls that have returned.
pub record State {ℓ} (A : Type ℓ) : Type ℓ where
  pub ring : Ring A
  pub producer : Producer A
  pub consumer : Consumer A
  pub pushed : List A
  pub popped : List A

pub data Action {ℓ} (A : Type ℓ) : Type ℓ where
  check : A → Action A
  write : Action A
  publish : Action A
  start : ℕ → Action A
  copy : Action A
  free : Action A

module _ {ℓ} {A : Type ℓ} (capacity : ℕ) where
  unfoldable pub producer_check : A → State A → State A
  producer_check v s =
      let r = refresh_head capacity s.ring in
      record s {
        ring = r;
        producer = if sub64 r.tail r.cached_head == capacity then Producer.idle else checked v;
      }

  unfoldable pub producer_write : A → State A → State A
  producer_write v s = record s {
    ring = record s.ring { slots = put_at s.ring.slots (s.ring.tail % capacity) v };
    producer = written v;
  }

  unfoldable pub producer_publish : A → State A → State A
  producer_publish v s = record s {
    ring = record s.ring { tail = add64 s.ring.tail 1 };
    producer = Producer.idle;
    pushed = s.pushed ++ v ∷ [];
  }

  unfoldable pub consumer_start : ℕ → State A → State A
  consumer_start max_items s =
      let r = refresh_tail capacity s.ring in
      record s {
        ring = r;
        consumer =
            if r.head == r.cached_tail
            then Consumer.idle
            else copying (min max_items (sub64 r.cached_tail r.head)) 0 [];
      }

  unfoldable pub consumer_copy : ℕ → ℕ → List A → State A → State A
  consumer_copy n i out s =
      if ltb i n
      then record s {
        consumer = copying n (i + 1) (out ++ s.ring.slots (add64 s.ring.head i % capacity) ∷ []);
      }
      else s

  unfoldable pub consumer_free : ℕ → ℕ → List A → State A → State A
  consumer_free n i out s = if ltb i n then s else record s {
    ring = record s.ring { head = add64 s.ring.head n };
    consumer = Consumer.idle;
    popped = s.popped ++ out;
  }

  -- An action whose side does not stand where the action begins leaves the state alone.
  unfoldable pub produce : Producer A → Action A → State A → State A
  unfolding producer_check producer_write producer_publish
  produce Producer.idle (check v) s = producer_check v s
  produce (checked v) write s = producer_write v s
  produce (written v) publish s = producer_publish v s
  produce p a s = s

  unfoldable pub consume : Consumer A → Action A → State A → State A
  unfolding consumer_start consumer_copy consumer_free
  consume Consumer.idle (start n) s = consumer_start n s
  consume (copying n i out) copy s = consumer_copy n i out s
  consume (copying n i out) free s = consumer_free n i out s
  consume c a s = s

  unfoldable pub step : Action A → State A → State A
  unfolding produce consume
  step (check v) s = produce s.producer (check v) s
  step write s = produce s.producer write s
  step publish s = produce s.producer publish s
  step (start n) s = consume s.consumer (start n) s
  step copy s = consume s.consumer copy s
  step free s = consume s.consumer free s

  -- any interleaving
  unfoldable pub run : List (Action A) → State A → State A
  run [] s = s
  run (a ∷ rest) s = run rest (step a s)

abbrev pub new_state {ℓ} : {A : Type ℓ} → (ℕ → A) → State A
new_state slots = record {
  ring = new_ring slots;
  producer = Producer.idle;
  consumer = Consumer.idle;
  pushed = [];
  popped = [];
}
