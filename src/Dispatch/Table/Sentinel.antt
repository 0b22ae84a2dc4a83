-- ===== src/Dispatch/Table/Sentinel.antt =====
-- `TableCompact::kEmpty` is the key 0xFFFF, which a handler may claim.
use principal_katas.Prelude.{◌%◌, ◌^◌, ◌≡◌, ◌≢◌, true, false, [], ◌∷◌, arith}
use principal_katas.Dispatch.Packet.{Packet, unsupported}
use principal_katas.Dispatch.Handler.{Declaring}
use principal_katas.Dispatch.Scan.{run, run_loop}
use principal_katas.Dispatch.Table.{empty_key, table_compact, compact_run}

-- In a registry of two handlers, of which the first claims the key 0xFFFF and the second another key
-- with the same low bits, the first is displaced unnoticed: the flag `injective` stays up, and a
-- packet with protocol 0xFFFF that the first matches is unsupported, though the scan selects it.
pub sentinel_displaced :
    {W : Type 0} (h g : Declaring W) (p : Packet) (w : W)
    → h.declare.key ≡ empty_key
    → h.matches p ≡ true
    → p.protocol ≡ empty_key
    → g.declare.key % 2 ^ 10 ≡ 1023
    → g.declare.key ≢ empty_key
    → let hs = h ∷ g ∷ [] in
      ((table_compact hs).injective ≡ true)
      × ((compact_run false (table_compact hs) p w).0 ≡ unsupported)
      × ((run false (record { handlers = hs; probes = 0 }) p w).0 ≡ (h.process p w).0)
unfolding table_compact compact_run run run_loop
sentinel_displaced h g p w hk hm pk gk gn = (ground arith, ground arith, ground arith)
