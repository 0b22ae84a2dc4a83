-- ===== src/Mpsc/Pipeline/Handshake.antt =====
-- mpsc-event-pipeline-kata/cpp/src/event_pipeline.hpp: `push` with `signal`, against
-- `clear_empty_bits` and `park`, an access of the bitmap, of the flag `parked_` or of a ring at a
-- time; a call of a ring is one access here. Producers that stay are modelled: `retire` and
-- `reclaim_retired` are not steps.
use principal_katas.Prelude.{ℕ, ◌≡◌, Bool, true, false, not, ◌&&◌, put_at, if◌then◌else◌}
use principal_katas.Mpsc.Ring.{Ring, new_ring, try_push, pop_batch, empty_now}
use principal_katas.Mpsc.Pipeline.{no_bits}

-- where a producer is: out of `push`, with its event published, with its bit seen clear, with the
-- whole bitmap found at zero, or with the flag seen up
pub data Sender : Type 0 where
  quiet published missing first calling : Sender

-- where the consumer is: scanning, with ring `i` seen empty, with its bit cleared, or about to set
-- it again; with the flag up; or asleep
pub data Sweeper : Type 0 where
  scanning : Sweeper
  testing cleared restoring : ℕ → Sweeper
  arming sleeping : Sweeper

pub record System (E : Type 0) : Type 0 where
  pub rings : ℕ → Ring E
  pub bits : ℕ → Bool
  pub sender : ℕ → Sender
  pub sweeper : Sweeper

abbrev pub at_rest : {E : Type 0} → (ℕ → ℕ → E) → System E
at_rest slots = record {
  rings = λ i. new_ring (slots i);
  bits = λ i. false;
  sender = λ i. quiet;
  sweeper = scanning;
}

-- after `try_push`, after the look at the bit, after the `fetch_or`, and after the look at the flag
unfoldable pub after_push : Bool → Sender
after_push ok = if ok then published else quiet

unfoldable pub after_look : Bool → Sender
after_look bit = if bit then quiet else missing

unfoldable pub after_set : Bool → Sender
after_set was_zero = if was_zero then first else quiet

unfoldable pub after_flag : Bool → Sender
after_flag is_up = if is_up then calling else quiet

-- after the first look at the ring, after the second, and after the look at the bitmap in `park`
unfoldable pub after_test : ℕ → Bool → Sweeper
after_test i empty = if empty then testing i else scanning

unfoldable pub after_recheck : ℕ → Bool → Sweeper
after_recheck i empty = if empty then scanning else restoring i

unfoldable pub after_arming : Bool → Sweeper
after_arming is_zero = if is_zero then sleeping else scanning

-- the flag `parked_`, and whether the consumer has the mutex of `park`
abbrev pub is_parked : Sweeper → Bool
is_parked arming = true
is_parked sleeping = true
is_parked w = false

abbrev pub is_arming : Sweeper → Bool
is_arming arming = true
is_arming w = false

abbrev pub is_sleeping : Sweeper → Bool
is_sleeping sleeping = true
is_sleeping w = false

-- after `notify_one`
abbrev pub notified : Sweeper → Sweeper
notified w = if is_sleeping w then scanning else w

module _ {E : Type 0} (capacity n_producers : ℕ) where
  pub data Step (s : System E) : System E → Type 0 where
    push :
        (i : ℕ) (e : E)
        → s.sender i ≡ quiet
        → Step s (record s {
          rings = put_at s.rings i (try_push capacity e (s.rings i)).1;
          sender = put_at s.sender i (after_push (try_push capacity e (s.rings i)).0);
        })
    look :
        (i : ℕ)
        → s.sender i ≡ published
        → Step s (record s { sender = put_at s.sender i (after_look (s.bits i)) })
    set :
        (i : ℕ)
        → s.sender i ≡ missing
        → Step s (record s {
          bits = put_at s.bits i true;
          sender = put_at s.sender i (after_set (no_bits n_producers s.bits));
        })
    flag :
        (i : ℕ)
        → s.sender i ≡ first
        → Step s (record s { sender = put_at s.sender i (after_flag (is_parked s.sweeper)) })
    notify :
        (i : ℕ)
        → s.sender i ≡ calling
        → is_arming s.sweeper ≡ false
        → Step s (record s { sender = put_at s.sender i quiet; sweeper = notified s.sweeper })
    take :
        (i room : ℕ)
        → s.sweeper ≡ scanning
        → Step s (record s { rings = put_at s.rings i (pop_batch capacity room (s.rings i)).2 })
    test :
        (i : ℕ)
        → s.sweeper ≡ scanning
        → Step s (record s {
          rings = put_at s.rings i (empty_now (s.rings i)).1;
          sweeper = after_test i (empty_now (s.rings i)).0;
        })
    clear :
        (i : ℕ)
        → s.sweeper ≡ testing i
        → Step s (record s { bits = put_at s.bits i false; sweeper = cleared i })
    recheck :
        (i : ℕ) (retiring : Bool)
        → s.sweeper ≡ cleared i
        → Step s (record s {
          rings = put_at s.rings i (empty_now (s.rings i)).1;
          sweeper = after_recheck i ((empty_now (s.rings i)).0 && not retiring);
        })
    restore :
        (i : ℕ)
        → s.sweeper ≡ restoring i
        → Step s (record s { bits = put_at s.bits i true; sweeper = scanning })
    arm : s.sweeper ≡ scanning → Step s (record s { sweeper = arming })
    look_last :
        s.sweeper ≡ arming
        → Step s (record s { sweeper = after_arming (no_bits n_producers s.bits) })
    wake : s.sweeper ≡ sleeping → Step s (record s { sweeper = scanning })

  pub data Reach (slots : ℕ → ℕ → E) : System E → Type 0 where
    start : Reach slots (at_rest slots)
    next : {s s' : System E} → Reach slots s → Step s s' → Reach slots s'
