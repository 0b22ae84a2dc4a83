-- ===== src/Dispatch/Host.antt =====
-- plugin-dispatch-kata/cpp/src/host.hpp: loading a plugin, and the adapter that makes it a handler.
-- The dynamic linker (`dlopen`, `dlsym`) is the parameter `Linker`.
pub mod Gates
use principal_katas.Prelude.{
  ℕ, ◌+◌, ◌≤◌, ◌≡◌, Bool, true, false, not, Option, none, some, List, [], ◌∷◌, ◌==◌, ltb, leb,
  replicate, if◌then◌else◌,
}
use principal_katas.Dispatch.Packet.{Packet, Result, unsupported}
use principal_katas.Dispatch.Handler.{Declaring, Registration}
use principal_katas.Dispatch.Abi.{
  PacketView, SwyResult, zero_result, PluginApi, abi_version, swy_ok, offset_process,
  offset_process_batch, pointer_size,
}

-- `open` is `dlopen`; `symbol` is `dlsym` of the entry's name, and what the entry returns if it is
-- found.
pub record Linker (M : Type 0) : Type 1 where
  pub FileName : Type 0
  pub Library : Type 0
  pub open_library : FileName → Option Library
  pub symbol : Library → Option (Option (PluginApi M))

-- the texts of `error_`, `fine` for the empty one
pub data LoadError : Type 0 where
  fine open_failed no_symbol entry_null version_mismatch size_too_small : LoadError

module _ {M : Type 0} (l : Linker M) where
  open l use {FileName, Library, open_library, symbol}

  pub record LoadedPlugin : Type 0 where
    pub handle : Option Library
    pub api : Option (PluginApi M)
    pub error : LoadError

  unfoldable pub unload : LoadedPlugin → LoadedPlugin
  unload s = record s { api = none; handle = none }

  -- `error_ = e; unload(); return false`
  fail : LoadError → LoadedPlugin → Bool × LoadedPlugin
  unfolding unload
  fail e s = (false, unload (record s { error = e }))

  -- the two gates on a non-null table, the version first
  check_api : PluginApi M → LoadedPlugin → Bool × LoadedPlugin
  unfolding fail
  check_api a s =
      if not (a.version == abi_version)
      then fail version_mismatch (record s { api = none })
      else if ltb a.struct_size offset_process
      then fail size_too_small (record s { api = none })
      else (true, s)

  check_entry : Option (Option (PluginApi M)) → LoadedPlugin → Bool × LoadedPlugin
  unfolding check_api fail
  check_entry none s = fail no_symbol s
  check_entry (some none) s = fail entry_null (record s { api = none })
  check_entry (some (some a)) s = check_api a (record s { api = some a })

  check_library : Option Library → LoadedPlugin → Bool × LoadedPlugin
  unfolding check_entry
  check_library none s = (false, record s { handle = none; error = open_failed })
  check_library (some h) s = check_entry (symbol h) (record s { handle = some h })

  -- `LoadedPlugin::load`
  unfoldable pub load : FileName → LoadedPlugin → Bool × LoadedPlugin
  unfolding unload check_library
  load path s = check_library (open_library path) (unload s)

-- `kBatchFieldEnd` and `has_batch`
unfoldable pub has_batch : {M : Type 0} → Option (PluginApi M) → Bool
has_batch none = false
has_batch (some a) = leb (offset_process_batch + pointer_size) a.struct_size

-- the buffer after a call, which leaves it in place
written : Option (List ℕ) → List ℕ
written none = []
written (some ks) = ks

-- `LoadedPlugin::claimed_keys`: one call for the number, one that fills a buffer of that length
unfoldable pub claimed_keys : {M : Type 0} → Option (PluginApi M) → List ℕ
unfolding written
claimed_keys none = []
claimed_keys (some a) =
    let need = (a.claimed_keys none 0).0 in
    let out = replicate need 0 in
    if need == 0 then out else written (a.claimed_keys (some out) need).1

-- `PluginBackedHandler`
pub record Backed (M : Type 0) : Type 0 where
  pub api : PluginApi M
  pub key : ℕ
  pub self : Option ℕ

-- the view that `process` hands across: `sizeof(p.payload)` is 24
abbrev pub view_of : Packet → PacketView
view_of p = record { protocol = p.protocol; reserved = 0; bytes_len = 24; bytes = p.payload }

-- the host's reading of a return code and of the result it lent
result_of : ℕ → Option SwyResult → Result
result_of rc none = unsupported
result_of rc (some out) =
    if rc == swy_ok then record { value = out.value; handler = out.handler } else unsupported

module _ {M : Type 0} where
  -- the constructor
  unfoldable pub attach : PluginApi M → ℕ → M → Backed M × M
  attach a key m = let (self, m') = a.create m in (record { api = a; key = key; self = self }, m')

  -- the destructor
  unfoldable pub detach : Backed M → M → M
  detach b m = elim b.self [ none ↦ m | some h ↦ b.api.destroy (some h) m ]

  abbrev pub is_valid : Backed M → Bool
  is_valid b = elim b.self [ none ↦ false | some h ↦ true ]

  -- `PluginBackedHandler::process`
  unfoldable pub backed_process : Backed M → Packet → M → Result × M
  unfolding result_of
  backed_process b p m =
      let (rc, out, m') = b.api.process b.self (some (view_of p)) (some zero_result) m in
      (result_of rc out, m')

  -- the handler that goes into the dispatch table
  unfoldable pub backed : Backed M → Declaring M
  unfolding backed_process
  backed b = record {
    matches = λ p. p.protocol == b.key;
    process = backed_process b;
    declare = record { key = b.key; residual = false };
  }
