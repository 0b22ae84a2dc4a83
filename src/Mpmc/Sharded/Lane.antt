-- ===== src/Mpmc/Sharded/Lane.antt =====
-- mpmc-work-queue-kata/cpp/src/sharded_queue.hpp: one ring, with its producer, its consumer and a
-- close, an access of shared memory at a time. A side's own cached index is not shared.
use principal_katas.Prelude.{
  ℕ, ◌+◌, ◌%◌, ◌^◌, ◌<◌, ◌≡◌, true, List, [], ◌∷◌, ◌++◌, ◌==◌, sub64, add64, put_at, if◌then◌else◌,
}
use principal_katas.Mpmc.EventCount.{notify_one}
use principal_katas.Mpmc.Sharded.{
  Ring, new_ring, is_closed, position, close_ring, commit, full_wake_every,
}

-- where the producer is: out of `try_push`, or with the tail word loaded, a slot known to be free,
-- or its event written there and the compare-and-swap to come
pub data Writer (A : Type 0) : Type 0 where
  idle : Writer A
  loaded roomy written : ℕ → A → Writer A

-- where the consumer is: out of `pop_ring`, or with an event known to be there, or moved out and the
-- head still to be stored
pub data Reader (A : Type 0) : Type 0 where
  resting reading : Reader A
  holding : A → Reader A

-- The ring, its two sides, and what went in and out.
pub record Lane (A : Type 0) : Type 0 where
  pub ring : Ring A
  pub writer : Writer A
  pub reader : Reader A
  pub accepted : List A
  pub delivered : List A

abbrev pub new_lane : {A : Type 0} → (ℕ → A) → Lane A
new_lane slots = record {
  ring = new_ring slots;
  writer = idle;
  reader = resting;
  accepted = [];
  delivered = [];
}

module _ {A : Type 0} (n : ℕ) where
  -- the load of the tail
  abbrev pub begin : A → Lane A → Lane A
  begin v s = record s { writer = if is_closed s.ring.tail then idle else loaded s.ring.tail v }

  -- the producer's view of the head, loaded anew only if its own view says full
  abbrev pub known_head : ℕ → Ring A → ℕ
  known_head word r = if sub64 (position word) r.cached_head == n then r.head else r.cached_head

  abbrev pub look_room : ℕ → A → Lane A → Lane A
  look_room word v s =
      let head = known_head word s.ring in
      record s {
        ring = record s.ring { cached_head = head };
        writer = if sub64 (position word) head == n then idle else roomy word v;
      }

  -- the write of the slot
  abbrev pub write : ℕ → A → Lane A → Lane A
  write word v s = record s {
    ring = record s.ring { slots = put_at s.ring.slots (position word % n) v };
    writer = written word v;
  }

  -- the compare-and-swap
  abbrev pub finish : ℕ → A → Lane A → Lane A
  finish word v s =
      let (published, r) = commit word s.ring in
      record s {
        ring = r;
        writer = idle;
        accepted = if published then s.accepted ++ v ∷ [] else s.accepted;
      }

  -- the consumer's view of the tail, loaded anew only if its own view says empty
  abbrev pub known_tail : Ring A → ℕ
  known_tail r = if r.head == r.cached_tail then position r.tail else r.cached_tail

  abbrev pub look_event : Lane A → Lane A
  look_event s =
      let tail = known_tail s.ring in
      record s {
        ring = record s.ring { cached_tail = tail };
        reader = if s.ring.head == tail then resting else reading;
      }

  -- the read of the slot
  abbrev pub copy : Lane A → Lane A
  copy s = record s { reader = holding (s.ring.slots (s.ring.head % n)) }

  -- the store of the head, with the wake of the producer
  abbrev pub free : A → Lane A → Lane A
  free v s =
      let (woke, wakes, ec) = notify_one true s.ring.not_full in
      record s {
        ring = record s.ring {
          head = add64 s.ring.head 1;
          not_full = if s.ring.head % full_wake_every n == 0 then ec else s.ring.not_full;
        };
        reader = resting;
        delivered = s.delivered ++ v ∷ [];
      }

  pub data Step (s : Lane A) : Lane A → Type 0 where
    begins : (v : A) → s.writer ≡ idle → Step s (begin v s)
    looks : (word : ℕ) (v : A) → s.writer ≡ loaded word v → Step s (look_room word v s)
    writes : (word : ℕ) (v : A) → s.writer ≡ roomy word v → Step s (write word v s)
    finishes : (word : ℕ) (v : A) → s.writer ≡ written word v → Step s (finish word v s)
    finds : s.reader ≡ resting → Step s (look_event s)
    copies : s.reader ≡ reading → Step s (copy s)
    frees : (v : A) → s.reader ≡ holding v → Step s (free v s)
    shuts : Step s (record s { ring = close_ring s.ring })

  -- What can be reached, while the positions stay below 2^62.
  pub data Reach (slots : ℕ → A) : Lane A → Type 0 where
    start : Reach slots (new_lane slots)
    step :
        {s s' : Lane A}
        → Reach slots s
        → position s.ring.tail + 2 < 2 ^ 62
        → Step s s'
        → Reach slots s'
