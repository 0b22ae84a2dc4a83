-- ===== src/Dispatch/Tests.antt =====
-- Runs of the dispatch arms, the host and the plugin.
use principal_katas.Prelude.{
  ℕ, ◌≡◌, refl, Bool, true, false, none, some, List, [], ◌∷◌, arith, ◌==◌, if◌then◌else◌,
}
use principal_katas.Dispatch.Packet.{Packet, unsupported}
use principal_katas.Dispatch.Handler.{Declaring}
use principal_katas.Dispatch.Generated.{first}
use principal_katas.Dispatch.Generated.Exclusive.{first-AllHonest}
use principal_katas.Dispatch.Generated.Arms.{few, first-SmallKeys, arms_agree}
use principal_katas.Dispatch.Scan.{Scan, run, dispatch, mtf_run, scan_ordered}
use principal_katas.Dispatch.Scan.Promote.{SameChoice, mtf_agrees}
use principal_katas.Dispatch.Table.{table_direct16, table_compact, direct_run, compact_run}
use principal_katas.Dispatch.Table.Compact.{compact_agrees}
use principal_katas.Dispatch.Table.Injective.{small_injective}
use principal_katas.Dispatch.Table.Sentinel.{sentinel_displaced}
use principal_katas.Dispatch.Mechanism.{selector, mech_virtual, mech_erasure, mech_variant}
use principal_katas.Dispatch.Mechanism.Select.{first_result, mechanisms_agree}
use principal_katas.Dispatch.Abi.{PacketView, PluginApi, offset_destroy, offset_process}
use principal_katas.Dispatch.Host.{Linker, LoadedPlugin, LoadError, load}
use principal_katas.Dispatch.Host.Gates.{Reports, IsPresent, load-Reports, gate_admits_no_process}
use principal_katas.Dispatch.Plugin.{Heap, api_level1}

abbrev packet : Packet
packet = record { protocol = 3; length = 0; flags = 0; payload = 1 ∷ 2 ∷ [] }

-- the first five generated handlers, with tiny bodies, over a state of one number
abbrev five : List (Declaring ℕ)
five = first ℕ 2 5

abbrev plain : Scan ℕ
plain = record { handlers = five; probes = 0 }

abbrev freq : List ℕ
freq = 1 ∷ 9 ∷ 3 ∷ 3 ∷ []

arms_agree_example :
    (((direct_run true (table_direct16 five) packet 0).0 ≡ (run true plain packet 0).0)
      × ((direct_run true (table_direct16 five) packet 0).2 ≡ (run true plain packet 0).2))
    × (((compact_run true (table_compact five) packet 0).0 ≡ (run true plain packet 0).0)
        × ((compact_run true (table_compact five) packet 0).2 ≡ (run true plain packet 0).2))
    × (((dispatch (scan_ordered five freq) packet 0).0 ≡ (dispatch plain packet 0).0)
        × ((dispatch (scan_ordered five freq) packet 0).2 ≡ (dispatch plain packet 0).2))
arms_agree_example = arms_agree ℕ 2 5 freq true packet 0 (omega arith)

compact_agrees_example :
    ((compact_run true (table_compact five) packet 0).0 ≡ (run true plain packet 0).0)
    × ((compact_run true (table_compact five) packet 0).2 ≡ (run true plain packet 0).2)
compact_agrees_example =
    compact_agrees five (few ℕ 2 5 (omega arith)) true packet 0 (first-AllHonest ℕ 2 5)
      (small_injective five (first-SmallKeys ℕ 2 5 (omega arith))).1
      (small_injective five (first-SmallKeys ℕ 2 5 (omega arith))).0

mtf_agrees_example :
    (((mtf_run true plain packet 0).0 ≡ (run true plain packet 0).0)
      × ((mtf_run true plain packet 0).2 ≡ (run true plain packet 0).2))
    × SameChoice five (mtf_run true plain packet 0).1.handlers
mtf_agrees_example = mtf_agrees true plain packet 0

-- a handler with the sentinel's key, and one with the same low ten bits
abbrev handler_of : ℕ → Declaring ℕ
handler_of k = record {
  matches = λ p. p.protocol == k;
  process = λ p w. (record { value = 1; handler = k }, w);
  declare = record { key = k; residual = false };
}

abbrev stray : Packet
stray = record { protocol = 65535; length = 0; flags = 0; payload = [] }

sentinel_displaced_example :
    ((table_compact (handler_of 65535 ∷ handler_of 1023 ∷ [])).injective ≡ true)
    × ((compact_run false (table_compact (handler_of 65535 ∷ handler_of 1023 ∷ [])) stray 0).0
        ≡ unsupported)
    × ((run false
          (record { handlers = handler_of 65535 ∷ handler_of 1023 ∷ []; probes = 0 })
          stray
          0).0
        ≡ record { value = 1; handler = 65535 })
sentinel_displaced_example =
    sentinel_displaced (handler_of 65535) (handler_of 1023) stray 0 refl refl refl refl
      (omega arith)

mechanisms_agree_example :
    (mech_virtual {W = ℕ} 2 selector packet 0 ≡ (first_result 2 packet, 0))
    × (mech_erasure 2 selector packet ≡ first_result 2 packet)
    × (mech_variant 2 selector packet ≡ first_result 2 packet)
mechanisms_agree_example = mechanisms_agree 2 packet 0

abbrev heap : Heap
heap = record { calls = λ h. if h == 0 then some 4 else none; next = 1; room = 3 }

-- a table that ends before `process`
abbrev short_api : PluginApi Heap
short_api = record api_level1 { struct_size = 36 }

-- a linker that knows one file
abbrev linker : Linker Heap
linker = record {
  FileName = Bool;
  Library = Unit;
  open_library = λ f. if f then some tt else none;
  symbol = λ h. some (some short_api);
}

abbrev unloaded : LoadedPlugin linker
unloaded = record { handle = none; api = none; error = LoadError.fine }

load-Reports_example : Reports linker true unloaded (load linker true unloaded)
load-Reports_example = load-Reports linker true unloaded

gate_admits_no_process_example :
    ((load linker true unloaded).0 ≡ true)
    × ((load linker true unloaded).1.api ≡ some short_api)
    × IsPresent short_api offset_destroy
    × ¬ IsPresent short_api offset_process
unfolding api_level1
gate_admits_no_process_example =
    gate_admits_no_process linker true unloaded tt short_api refl refl refl (omega arith)
      (omega arith)

abbrev view : PacketView
view = record { protocol = 3; reserved = 0; bytes_len = 2; bytes = 1 ∷ 2 ∷ [] }
