-- ===== src/Mpsc/Pipeline.antt =====
-- mpsc-event-pipeline-kata/cpp/src/event_pipeline.hpp, the producers' side and the state:
-- `EventPipeline` with its slots. Each call is one step. The word `active_` is its bits, a Boolean
-- for each producer; the sink is the list of the batches it was given.
pub mod Consumer
pub mod Stream
pub mod Drain
pub mod Signalled
pub mod Draining
pub mod Steps
pub mod Asleep
pub mod Loop
pub mod Stop
pub mod Handshake
pub mod Shown
pub mod Awaited
pub mod Woken
pub mod Scanned
pub mod Final
use principal_katas.Prelude.{
  ℕ, zero, suc, ◌+◌, Bool, true, false, not, ◌&&◌, ◌||◌, Option, none, some, List, [], ◌==◌, ltb,
  add64, max, put_at, if◌then◌else◌,
}
use principal_katas.Mpsc.Config.{Limits, Config, FullPolicy, ScanPolicy, PipelineStats}
use principal_katas.Mpsc.Ring.{Ring, try_push, producer_size_hint, size_now, new_ring}

pub data SlotState : Type 0 where
  free active retiring : SlotState

pub record ProducerSlot (E : Type 0) : Type 0 where
  pub ring : Ring E
  pub state : SlotState
  pub pushed : ℕ
  pub dropped : ℕ
  pub high_water : ℕ

-- `staged` is the filled part of `stage_`, and `written` the batches the sink got.
pub record Pipeline (E : Type 0) : Type 0 where
  pub slots : ℕ → ProducerSlot E
  pub active_bits : ℕ → Bool
  pub accepting : Bool
  pub running : Bool
  pub parked : Bool
  pub retire_pending : Bool
  pub staged : List E
  pub written : List (List E)
  pub consumed : ℕ
  pub retired_pushed : ℕ
  pub retired_dropped : ℕ
  pub rings_probed : ℕ
  pub rings_empty : ℕ
  pub passes : ℕ
  pub bitmap_writes : ℕ
  pub notifies : ℕ
  pub parks : ℕ

abbrev pub is_free : SlotState → Bool
is_free SlotState.free = true
is_free s = false

abbrev pub is_retiring : SlotState → Bool
is_retiring SlotState.retiring = true
is_retiring s = false

abbrev pub is_bitmap : ScanPolicy → Bool
is_bitmap ScanPolicy.bitmap = true
is_bitmap s = false

-- `active_ == 0`, looking at `n` bits
unfoldable pub no_bits : ℕ → (ℕ → Bool) → Bool
no_bits zero bits = true
no_bits (suc n) bits = not (bits n) && no_bits n bits

module _ {E : Type 0} where
  abbrev pub set_slot : ℕ → ProducerSlot E → Pipeline E → Pipeline E
  set_slot i s p = record p { slots = put_at p.slots i s }

  -- the constructor
  unfoldable pub new_pipeline : (ℕ → E) → Pipeline E
  new_pipeline blank = record {
    slots = λ i. record {
      ring = new_ring blank;
      state = SlotState.free;
      pushed = 0;
      dropped = 0;
      high_water = 0;
    };
    active_bits = λ i. false;
    accepting = false;
    running = false;
    parked = false;
    retire_pending = false;
    staged = [];
    written = [];
    consumed = 0;
    retired_pushed = 0;
    retired_dropped = 0;
    rings_probed = 0;
    rings_empty = 0;
    passes = 0;
    bitmap_writes = 0;
    notifies = 0;
    parks = 0;
  }

  -- `start`
  unfoldable pub start : Pipeline E → Pipeline E
  start p = record p { running = true; accepting = true }

  module _ (lim : Limits) (cfg : Config) where
    -- the loop of `register_producer` from slot `i` for `left` slots
    unfoldable pub register_from : ℕ → ℕ → Pipeline E → Option ℕ × Pipeline E
    register_from i zero p = (none, p)
    register_from i (suc left) p =
        let later = register_from (i + 1) left p in
        if is_free (p.slots i).state
        then (
          some i,
          set_slot i
              (record (p.slots i) {
                state = SlotState.active;
                pushed = 0;
                dropped = 0;
                high_water = 0;
              })
              p,
        )
        else later

    unfoldable pub register_producer : Pipeline E → Option ℕ × Pipeline E
    unfolding register_from
    register_producer p = register_from 0 lim.max_producers p

    -- `signal`: the bit, and a notification if the whole word was zero and the consumer sleeps
    unfoldable pub signal : ℕ → Pipeline E → Pipeline E
    unfolding no_bits
    signal id p =
        if p.active_bits id
        then p
        else let p' = record p {
          active_bits = put_at p.active_bits id true;
          bitmap_writes = add64 p.bitmap_writes 1;
        } in
          if no_bits lim.max_producers p.active_bits && p.parked
          then record p' { notifies = add64 p.notifies 1 }
          else p'

    -- the bounded spin of `SpinThenDrop`, for `left` more attempts
    unfoldable pub spin_push : ℕ → E → Bool × Ring E → Bool × Ring E
    spin_push zero e (ok, r) = (ok, r)
    spin_push (suc left) e (ok, r) =
        let later = spin_push left e (try_push lim.ring_capacity e r) in
        if ok then (ok, r) else later

    -- the attempts of `push` on the ring
    unfoldable pub attempt : FullPolicy → E → Ring E → Bool × Ring E
    unfolding spin_push
    attempt FullPolicy.drop_newest e r = try_push lim.ring_capacity e r
    attempt FullPolicy.spin_then_drop e r =
        spin_push cfg.push_spin e (try_push lim.ring_capacity e r)

    -- the counters of `push`
    unfoldable pub count_push : Bool → Ring E → ProducerSlot E → ProducerSlot E
    count_push ok r s =
        if ok
        then record s {
          ring = r;
          pushed = add64 s.pushed 1;
          high_water = max s.high_water (producer_size_hint r);
        }
        else record s { ring = r; dropped = add64 s.dropped 1 }

    unfoldable pub push : ℕ → E → Pipeline E → Bool × Pipeline E
    unfolding attempt count_push signal
    push id e p =
        if not p.accepting
        then (false, p)
        else let (ok, r) = attempt cfg.full e (p.slots id).ring in
          let p' = set_slot id (count_push ok r (p.slots id)) p in
          (ok, if ok && is_bitmap cfg.scan then signal id p' else p')

    -- `retire`, and the handle's destructor
    unfoldable pub retire : ℕ → Pipeline E → Pipeline E
    unfolding signal
    retire id p =
        let p' = record p {
          slots = put_at p.slots id (record (p.slots id) { state = SlotState.retiring });
          retire_pending = true;
        } in
        if is_bitmap cfg.scan then signal id p' else p'

  -- the loop of `all_quiesced`, over `n` slots
  unfoldable pub all_quiesced : ℕ → Pipeline E → Bool
  all_quiesced zero p = true
  all_quiesced (suc n) p =
      (is_free (p.slots n).state || (size_now (p.slots n).ring == 0)) && all_quiesced n p

  -- the loop of `stats`, over `n` slots
  unfoldable pub add_slots : ℕ → Pipeline E → PipelineStats → PipelineStats
  add_slots zero p s = s
  add_slots (suc n) p s =
      let before = add_slots n p s in
      record before {
        pushed = add64 before.pushed (p.slots n).pushed;
        dropped = add64 before.dropped (p.slots n).dropped;
        high_water = max before.high_water (p.slots n).high_water;
      }

  unfoldable pub stats : ℕ → Pipeline E → PipelineStats
  unfolding add_slots
  stats n p = add_slots n p (record {
    pushed = p.retired_pushed;
    dropped = p.retired_dropped;
    consumed = p.consumed;
    rings_probed = p.rings_probed;
    rings_empty = p.rings_empty;
    passes = p.passes;
    bitmap_writes = p.bitmap_writes;
    notifies = p.notifies;
    parks = p.parks;
    high_water = 0;
  })
