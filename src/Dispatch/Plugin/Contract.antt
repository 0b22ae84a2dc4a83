-- ===== src/Dispatch/Plugin/Contract.antt =====
-- The plugin against what the host relies on.
use principal_katas.Prelude.{
  ℕ, zero, suc, ◌+◌, ◌-◌, ◌<◌, ◌^◌, ◌≡◌, refl, ap, sym, ◌≢◌, ◌⊎◌, inl, inr, true, false, Option,
  none, some, List, [], ◌∷◌, arith, add64, length,
}
use principal_katas.Dispatch.Packet.{Packet}
use principal_katas.Dispatch.Abi.{PacketView, SwyResult, PluginApi, swy_ok, swy_error}
use principal_katas.Dispatch.Host
use principal_katas.Dispatch.Host.{
  has_batch, attach, detach, Backed, is_valid, view_of, backed_process, backed,
}
use principal_katas.Dispatch.Plugin.{
  Heap, put, plugin_keys, mix, create_in, count_calls, answer, process, answers, process_batch,
  api_level1, api_level2,
}

-- The host learns the four keys, from either build, and sees the batch entry point exactly in the
-- build that has it.
pub host_reads_plugin :
    (Host.claimed_keys (some api_level1) ≡ plugin_keys)
    × (Host.claimed_keys (some api_level2) ≡ plugin_keys)
    × (has_batch (some api_level1) ≡ false)
    × (has_batch (some api_level2) ≡ true)
unfolding Host.claimed_keys api_level1 api_level2 has_batch
host_reads_plugin = (refl, refl, refl, refl)

outputs : Option SwyResult → List SwyResult → List SwyResult
outputs none rest = rest
outputs (some o) rest = o ∷ rest

-- `process` on each packet in turn, each with its own place for the result
pub process_each : ℕ → List PacketView → List SwyResult → Heap → List SwyResult × Heap
unfolding outputs
process_each h [] out m = (out, m)
process_each h (p ∷ pkts) [] m = ([], m)
process_each h (p ∷ pkts) (o ∷ out) m =
    let (rc, o', m') = process (some h) (some p) (some o) m in
    let (rest, m'') = process_each h pkts out m' in (outputs o' rest, m'')

process_each-heap :
    (h : ℕ) (pkts : List PacketView) (out : List SwyResult) (m : Heap) (k : ℕ)
    → length out ≡ length pkts
    → m.calls h ≡ some k
    → k < 2 ^ 64
    → let m' = (process_each h pkts out m).1 in
      (m'.calls h ≡ some (add64 k (length pkts)))
      × ((j : ℕ) → j ≢ h → m'.calls j ≡ m.calls j)
      × (m'.next ≡ m.next)
      × (m'.room ≡ m.room)
unfolding process_each process
process_each-heap h [] out m k e live small = (ground arith, λ j n. refl, refl, refl)
process_each-heap h (p ∷ pkts) [] m k e live small = absurd (omega arith)
process_each-heap h (p ∷ pkts) (o ∷ out) m k e live small =
    let m1 = count_calls m h 1 in
    let ih =
      process_each-heap h pkts out m1 (add64 k 1) (omega arith) (ground arith) (omega arith) in
    (
      ground (arith, ih.0),
      λ j n. ground (arith, ih.1 j n),
      ground (arith, ih.2),
      ground (arith, ih.3),
    )

process_each-outputs :
    (h : ℕ) (pkts : List PacketView) (out : List SwyResult) (m : Heap)
    → length out ≡ length pkts
    → (process_each h pkts out m).0 ≡ answers pkts (length pkts) out
unfolding process_each process answers
process_each-outputs h [] out m e = refl
process_each-outputs h (p ∷ pkts) [] m e = absurd (omega arith)
process_each-outputs h (p ∷ pkts) (o ∷ out) m e =
    ap (λ l. answer p ∷ l) (process_each-outputs h pkts out _ (omega arith))

-- One call of `process_batch` on a live handler, with as many results as packets, writes what that
-- many calls of `process` write, and leaves the same heap: its calls counted, modulo 2^64, and no
-- other handler touched.
pub batch_agrees :
    (h : ℕ) (pkts : List PacketView) (out : List SwyResult) (m : Heap) (k : ℕ)
    → length out ≡ length pkts
    → m.calls h ≡ some k
    → k < 2 ^ 64
    → let (rc, o, m') = process_batch (some h) (some pkts) (length pkts) (some out) m in
      let (each, m'') = process_each h pkts out m in
      (rc ≡ swy_ok)
      × (o ≡ some each)
      × ((j : ℕ) → m'.calls j ≡ m''.calls j)
      × (m'.next ≡ m''.next)
      × (m'.room ≡ m''.room)
unfolding process_batch
batch_agrees h pkts out m k e live small =
    let heap = process_each-heap h pkts out m k e live small in
    (
      refl,
      ap some (sym (process_each-outputs h pkts out m e)),
      λ j. ground (arith, heap.0, heap.1 j),
      sym heap.2,
      sym heap.3,
    )

-- A null pointer for the handler, the packet or the result gives SWY_ERROR, writes no result and
-- changes nothing.
pub process_null :
    (self : Option ℕ) (pkt : Option PacketView) (out : Option SwyResult) (m : Heap)
    → (self ≡ none) ⊎ ((pkt ≡ none) ⊎ (out ≡ none))
    → process self pkt out m ≡ (swy_error, out, m)
unfolding process
process_null none pkt out m h = refl
process_null (some s) none out m h = refl
process_null (some s) (some p) none m h = refl
process_null (some s) (some p) (some o) m h = ground arith

-- What one adapter does from its construction to its destruction.
abbrev pub Life : PluginApi Heap → ℕ → Heap → Packet → Type 0
Life a key m p =
    let (b, m1) = attach a key m in
    let (r, m2) = backed_process b p m1 in
    let m3 = detach b m2 in
    (b.self ≡ some m.next)
    × (r ≡ record { value = mix (view_of p); handler = p.protocol })
    × (m2.calls m.next ≡ some 1)
    × (m3.calls m.next ≡ none)
    × ((j : ℕ) → j ≢ m.next → (m2.calls j ≡ m.calls j) × (m3.calls j ≡ m.calls j))

create_in_lem :
    (m : Heap) (n : ℕ)
    → 0 < n
    → create_in m n ≡ (
      some m.next,
      record { calls = put m.calls m.next (some 0); next = m.next + 1; room = n - 1 },
    )
unfolding create_in
create_in_lem m zero h = absurd (omega arith)
create_in_lem m (suc n) h = ground arith

Life-level1 : (key : ℕ) (m : Heap) (p : Packet) → 0 < m.room → Life api_level1 key m p
unfolding attach backed_process detach api_level1
Life-level1 key m p room =
    rw (create_in_lem m m.room room)
      (refl, refl, ground arith, ground arith, λ j n. (ground arith, ground arith))

Life-level2 : (key : ℕ) (m : Heap) (p : Packet) → 0 < m.room → Life api_level2 key m p
unfolding attach backed_process detach api_level2
Life-level2 key m p room =
    rw (create_in_lem m m.room room)
      (refl, refl, ground arith, ground arith, λ j n. (ground arith, ground arith))

-- The life of an adapter over the plugin, at either level: while allocations succeed it is valid and
-- its object new; a packet it processes yields the plugin's digest under the packet's protocol
-- and counts one call of that object alone; its destructor gives that object back and no other.
pub adapter-Life :
    (a : PluginApi Heap) (key : ℕ) (m : Heap) (p : Packet)
    → (a ≡ api_level1) ⊎ (a ≡ api_level2)
    → 0 < m.room
    → Life a key m p
adapter-Life a key m p (inl e) room = rw e (Life-level1 key m p room)
adapter-Life a key m p (inr e) room = rw e (Life-level2 key m p room)
