-- ===== src/Mpsc/Pipeline/Consumer.antt =====
-- mpsc-event-pipeline-kata/cpp/src/event_pipeline.hpp, the consumer's side: draining, the bitmap,
-- reclaiming, and the loop of `consume`.
use principal_katas.Prelude.{
  ℕ, zero, suc, ◌+◌, ◌-◌, ◌%◌, Bool, true, false, not, ◌&&◌, ◌||◌, [], ◌∷◌, ◌++◌, ◌==◌, ltb, add64,
  min, length, put_at, if◌then◌else◌,
}
use principal_katas.Mpsc.Config.{Limits}
use principal_katas.Mpsc.Ring.{Ring, pop_batch, empty_now}
use principal_katas.Mpsc.Pipeline.{SlotState, Pipeline, is_free, is_retiring, no_bits, set_slot}

module _ {E : Type 0} where
  abbrev pub set_ring : ℕ → Ring E → Pipeline E → Pipeline E
  set_ring i r p = set_slot i (record (p.slots i) { ring = r }) p

  -- `flush`: one call of the sink for the whole stage
  unfoldable pub flush : Pipeline E → Pipeline E
  flush p =
      if length p.staged == 0
      then p
      else record p { written = p.written ++ p.staged ∷ []; staged = [] }

  module _ (lim : Limits) where
    abbrev pub flush_if_full : Pipeline E → Pipeline E
    flush_if_full p = if length p.staged == lim.stage_events then flush p else p

    -- The loop of `drain_ring`. A round that takes nothing ends it, so `rounds` of them, one for
    -- each event of a batch, are enough.
    unfoldable pub drain_loop : ℕ → ℕ → ℕ → Pipeline E → ℕ × Pipeline E
    unfolding flush
    drain_loop i zero got p = (got, p)
    drain_loop i (suc rounds) got p =
        let p1 = flush_if_full p in
        let room = min (lim.stage_events - length p1.staged) (lim.drain_batch - got) in
        let (n, out, r) = pop_batch lim.ring_capacity room (p1.slots i).ring in
        let p2 = set_ring i r p1 in
        let later = drain_loop i rounds (got + n) (record p2 { staged = p1.staged ++ out }) in
        if ltb got lim.drain_batch then if n == 0 then (got, p2) else later else (got, p)

    unfoldable pub drain_ring : ℕ → Pipeline E → ℕ × Pipeline E
    unfolding drain_loop
    drain_ring i p =
        let (got, p') = drain_loop i lim.drain_batch 0 p in
        (got, record p' { consumed = add64 p'.consumed got })

    -- A probe of a ring, in either scan.
    unfoldable pub probe : ℕ → Pipeline E → ℕ × Pipeline E
    unfolding drain_ring
    probe i p =
        let (n, p') = drain_ring i (record p { rings_probed = add64 p.rings_probed 1 }) in
        (n, if n == 0 then record p' { rings_empty = add64 p'.rings_empty 1 } else p')

    -- The scan of either policy, from offset `k` for `left` offsets: `visit` says which slots are
    -- probed. The offsets rise from the pass's own start, `rotate`.
    unfoldable pub scan : (ℕ → Pipeline E → Bool) → ℕ → ℕ → ℕ → Pipeline E → ℕ × Pipeline E
    unfolding probe
    scan visit rotate k zero p = (0, p)
    scan visit rotate k (suc left) p =
        let i = (k + rotate) % lim.max_producers in
        let (n, p') = if visit i p then probe i p else (0, p) in
        let (m, p'') = scan visit rotate (k + 1) left p' in (n + m, p'')

    -- the end of either scan
    abbrev pub flush_some : ℕ × Pipeline E → ℕ × Pipeline E
    flush_some (total, p) = (total, if ltb 0 total then flush p else p)

    -- `drain_full`: the slots that are not free
    unfoldable pub drain_full : ℕ → Pipeline E → ℕ × Pipeline E
    unfolding scan flush
    drain_full rotate p =
        flush_some (scan (λ i q. not (is_free (q.slots i).state)) rotate 0 lim.max_producers p)

    -- `drain_bitmap`: the slots whose bit was set when the scan began
    unfoldable pub drain_bitmap : ℕ → Pipeline E → ℕ × Pipeline E
    unfolding scan flush
    drain_bitmap rotate p = flush_some (scan (λ i q. p.active_bits i) rotate 0 lim.max_producers p)

    -- `clear_empty_bits` at one set bit, with nothing between its two looks at the ring
    unfoldable pub clear_bit : ℕ → Pipeline E → Pipeline E
    clear_bit i p =
        let (empty, r) = empty_now (p.slots i).ring in
        let p1 = set_ring i r p in
        if not empty
        then p1
        else let p2 = record p1 {
          active_bits = put_at p1.active_bits i false;
          bitmap_writes = add64 p1.bitmap_writes 1;
        } in
          let (still, r') = empty_now (p2.slots i).ring in
          let p3 = set_ring i r' p2 in
          if not still || is_retiring (p3.slots i).state
          then record p3 {
            active_bits = put_at p3.active_bits i true;
            bitmap_writes = add64 p3.bitmap_writes 1;
          }
          else p3

    -- its loop, over the bits set in `snapshot`
    unfoldable pub clear_from : (ℕ → Bool) → ℕ → ℕ → Pipeline E → Pipeline E
    unfolding clear_bit
    clear_from snapshot i zero p = p
    clear_from snapshot i (suc left) p =
        clear_from snapshot (i + 1) left (if snapshot i then clear_bit i p else p)

    unfoldable pub clear_empty_bits : Pipeline E → Pipeline E
    unfolding clear_from
    clear_empty_bits p = clear_from p.active_bits 0 lim.max_producers p

    -- `reclaim_retired` at one slot
    unfoldable pub reclaim : ℕ → Pipeline E → Pipeline E
    reclaim i p =
        let s = p.slots i in
        let (empty, r) = empty_now s.ring in
        if not (is_retiring s.state) then p else if not empty then set_ring i r p else record p {
          slots =
              put_at p.slots i
                (record s { ring = r; state = SlotState.free; pushed = 0; dropped = 0 });
          retired_pushed = add64 p.retired_pushed s.pushed;
          retired_dropped = add64 p.retired_dropped s.dropped;
          active_bits = put_at p.active_bits i false;
        }

    unfoldable pub reclaim_from : ℕ → ℕ → Pipeline E → Pipeline E
    unfolding reclaim
    reclaim_from i zero p = p
    reclaim_from i (suc left) p = reclaim_from (i + 1) left (reclaim i p)

    unfoldable pub reclaim_retired : Pipeline E → Pipeline E
    unfolding reclaim_from
    reclaim_retired p = reclaim_from 0 lim.max_producers p

    -- `park`, up to its wait: whether the consumer goes to sleep
    unfoldable pub park : Pipeline E → Bool × Pipeline E
    park p =
        let sleeps = no_bits lim.max_producers p.active_bits && p.running in
        (sleeps, record p { parked = sleeps; parks = if sleeps then add64 p.parks 1 else p.parks })

    -- the end of `park`
    unfoldable pub unpark : Pipeline E → Pipeline E
    unpark p = record p { parked = false }
