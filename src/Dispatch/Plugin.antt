-- ===== src/Dispatch/Plugin.antt =====
-- plugin-dispatch-kata/cpp/plugin/plugin.cpp: the plugin, at either ABI level. Nothing in its entry
-- points throws, so their `catch` blocks are not modelled.
pub mod Contract
use Prim.Native.Nat.{bit_xor}
use principal_katas.Prelude.{
  ℕ, zero, suc, ◌+◌, ◌-◌, ◌<◌, Bool, true, false, ◌||◌, Option, none, some, List, [], ◌∷◌, ◌++◌,
  ◌==◌, ltb, add64, mul64, get_or, get_elem?, length, drop, min, if◌then◌else◌,
}
use principal_katas.Dispatch.Abi.{
  PacketView, SwyResult, PluginApi, abi_version, swy_ok, swy_error, size_level1, size_level2,
}

-- The plugin's heap: the `calls` of each live `PluginHandler`, the next free name, and how many
-- more allocations succeed.
pub record Heap : Type 0 where
  pub calls : ℕ → Option ℕ
  pub next : ℕ
  pub room : ℕ

abbrev pub put : (ℕ → Option ℕ) → ℕ → Option ℕ → ℕ → Option ℕ
put f h v j = if h == j then v else f j

-- `kKeys` and `kKeyCount`
abbrev pub plugin_keys : List ℕ
plugin_keys = 2000 ∷ 2001 ∷ 2002 ∷ 2003 ∷ []

abbrev pub key_count : ℕ
key_count = 4

-- the loop of `mix`, from byte `i` for `left` bytes
unfoldable pub mix_bytes : List ℕ → ℕ → ℕ → ℕ → ℕ
mix_bytes bytes i zero h = h
mix_bytes bytes i (suc left) h =
    mix_bytes bytes (i + 1) left (mul64 (bit_xor h (get_or bytes i 0)) 0x100000001b3)

unfoldable pub mix : PacketView → ℕ
unfolding mix_bytes
mix pkt =
    mix_bytes pkt.bytes 0 (if ltb pkt.bytes_len 24 then pkt.bytes_len else 24)
      (bit_xor 0xcbf29ce484222325 pkt.protocol)

-- `claimed_keys`: the buffer is written from its start, the rest of it stays.
unfoldable pub claimed_keys : Option (List ℕ) → ℕ → ℕ × Option (List ℕ)
claimed_keys none cap = (key_count, none)
claimed_keys (some out) cap =
    if ltb cap key_count
    then (key_count, some out)
    else (key_count, some (plugin_keys ++ drop key_count out))

-- `new (std::nothrow)`
create_in : Heap → ℕ → Option ℕ × Heap
create_in m zero = (none, m)
create_in m (suc room) =
    (some m.next, record { calls = put m.calls m.next (some 0); next = m.next + 1; room = room })

unfoldable pub create : Heap → Option ℕ × Heap
unfolding create_in
create m = create_in m m.room

unfoldable pub destroy : Option ℕ → Heap → Heap
destroy none m = m
destroy (some h) m = record m { calls = put m.calls h none }

-- `++h->calls` and `h->calls += n`; a name that is not live, undefined in the source, stays so.
bump : Option ℕ → ℕ → Option ℕ
bump none n = none
bump (some calls) n = some (add64 calls n)

abbrev pub count_calls : Heap → ℕ → ℕ → Heap
unfolding bump
count_calls m h n = record m { calls = put m.calls h (bump (m.calls h) n) }

abbrev pub answer : PacketView → SwyResult
answer pkt = record { value = mix pkt; handler = pkt.protocol; reserved0 = 0; reserved1 = 0 }

-- `process`, with its test for null pointers
unfoldable pub process :
    Option ℕ → Option PacketView → Option SwyResult → Heap → ℕ × Option SwyResult × Heap
unfolding bump
process (some h) (some pkt) (some out) m = (swy_ok, some (answer pkt), count_calls m h 1)
process (some h) (some pkt) none m = (swy_error, none, m)
process (some h) none out m = (swy_error, out, m)
process none pkt out m = (swy_error, out, m)

-- The loop of `process_batch` over the views and results left, for `left` rounds. Reading or
-- writing past an array's end is undefined in the source; here the loop ends.
unfoldable pub answers : List PacketView → ℕ → List SwyResult → List SwyResult
answers pkts zero out = out
answers [] (suc left) out = out
answers (p ∷ pkts) (suc left) [] = []
answers (p ∷ pkts) (suc left) (o ∷ out) = answer p ∷ answers pkts left out

-- `process_batch`
unfoldable pub process_batch :
    Option ℕ
    → Option (List PacketView)
    → ℕ
    → Option (List SwyResult)
    → Heap
    → ℕ × Option (List SwyResult) × Heap
unfolding bump answers
process_batch (some h) (some pkts) n (some out) m =
    (swy_ok, some (answers pkts n out), count_calls m h n)
process_batch (some h) (some pkts) n none m = (swy_error, none, m)
process_batch (some h) none n out m = (swy_error, out, m)
process_batch none pkts n out m = (swy_error, out, m)

-- `kApi`, as built at level 1 and at level 2
unfoldable pub api_level1 : PluginApi Heap
unfolding claimed_keys create destroy process
api_level1 = record {
  struct_size = size_level1;
  version = abi_version;
  claimed_keys = claimed_keys;
  create = create;
  destroy = destroy;
  process = process;
  process_batch = none;
}

unfoldable pub api_level2 : PluginApi Heap
unfolding claimed_keys create destroy process process_batch
api_level2 = record {
  struct_size = size_level2;
  version = abi_version;
  claimed_keys = claimed_keys;
  create = create;
  destroy = destroy;
  process = process;
  process_batch = some process_batch;
}
