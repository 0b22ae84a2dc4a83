-- ===== src/Dispatch/Host/Gates.antt =====
-- Which plugins the host accepts, and which fields of an accepted one are there to be read.
use principal_katas.Prelude.{
  ℕ, ◌+◌, ◌≤◌, ◌<◌, ◌≡◌, ◌≢◌, refl, inl, inr, Bool-cases, ltb, ◌↔◌, Bool, true, false, Option, none,
  some, arith, ◌==◌,
}
use principal_katas.Dispatch.Abi.{
  PluginApi, abi_version, offset_destroy, offset_process, offset_process_batch, pointer_size,
}
use principal_katas.Dispatch.Host.{
  Linker, LoadError, fine, open_failed, no_symbol, entry_null, version_mismatch, size_too_small,
  LoadedPlugin, unload, load, check_library, check_entry, check_api, fail, has_batch,
}

-- the field at an offset lies within the struct that the plugin reports
abbrev pub IsPresent : {M : Type 0} → PluginApi M → ℕ → Type 0
IsPresent a offset = offset + pointer_size ≤ a.struct_size

module _ {M : Type 0} (l : Linker M) where
  open l use {FileName, Library, open_library, symbol}

  -- The one reason for which a file is refused, or the table that is accepted.
  pub data Verdict (path : FileName) : LoadError → Option (PluginApi M) → Type 0 where
    no_file : open_library path ≡ none → Verdict path open_failed none
    no_entry :
        (h : Library) → open_library path ≡ some h → symbol h ≡ none → Verdict path no_symbol none
    no_table :
        (h : Library)
        → open_library path ≡ some h
        → symbol h ≡ some none
        → Verdict path entry_null none
    other_version :
        (h : Library) (a : PluginApi M)
        → open_library path ≡ some h
        → symbol h ≡ some (some a)
        → a.version ≢ abi_version
        → Verdict path version_mismatch none
    too_short :
        (h : Library) (a : PluginApi M)
        → open_library path ≡ some h
        → symbol h ≡ some (some a)
        → a.version ≡ abi_version
        → a.struct_size < offset_process
        → Verdict path size_too_small none
    accepted :
        (h : Library) (a : PluginApi M)
        → open_library path ≡ some h
        → symbol h ≡ some (some a)
        → a.version ≡ abi_version
        → offset_process ≤ a.struct_size
        → Verdict path fine (some a)

  -- what `load` reports: its value, the table and, if it fails, the error
  pub record Reports (path : FileName) (s : LoadedPlugin l) (out : Bool × LoadedPlugin l)
      : Type 1 where
    pub why : LoadError
    pub verdict : Verdict path why out.1.api
    pub refused : why ≢ fine → (out.0 ≡ false) × (out.1.error ≡ why) × (out.1.handle ≡ none)
    pub loaded : why ≡ fine → (out.0 ≡ true) × (out.1.error ≡ s.error)

  api-Reports :
      (path : FileName) (s t : LoadedPlugin l) (h : Library) (a : PluginApi M)
      → open_library path ≡ some h
      → symbol h ≡ some (some a)
      → t.api ≡ some a
      → t.error ≡ s.error
      → Reports path s (check_api l a t)
  unfolding check_api fail unload
  api-Reports path s t h a eo es ea ee = elim (Bool-cases (a.version == abi_version)) [
    | inr other ↦ rw other (record {
      why = version_mismatch;
      verdict = other_version h a eo es (ground arith);
      refused = λ _. (refl, refl, refl);
      loaded = λ e. cc;
    })
    | inl same ↦ elim (Bool-cases (ltb a.struct_size offset_process)) [
      | inl short ↦
          rw (same, short)
            (record {
              why = size_too_small;
              verdict = too_short h a eo es (ground arith) (ground arith);
              refused = λ _. (refl, refl, refl);
              loaded = λ e. cc;
            })
      | inr long ↦
          rw (same, long)
            (record {
              why = fine;
              verdict = rw ea (accepted h a eo es (ground arith) (ground arith));
              refused = λ n. absurd (n refl);
              loaded = λ e. (refl, ee);
            })
    ]
  ]

  entry-Reports :
      (path : FileName) (s t : LoadedPlugin l) (h : Library) (e : Option (Option (PluginApi M)))
      → open_library path ≡ some h
      → symbol h ≡ e
      → t.error ≡ s.error
      → Reports path s (check_entry l e t)
  unfolding check_entry fail unload
  entry-Reports path s t h none eo es ee = record {
    why = no_symbol;
    verdict = no_entry h eo es;
    refused = λ _. (refl, refl, refl);
    loaded = λ e. cc;
  }
  entry-Reports path s t h (some none) eo es ee = record {
    why = entry_null;
    verdict = no_table h eo es;
    refused = λ _. (refl, refl, refl);
    loaded = λ e. cc;
  }
  entry-Reports path s t h (some (some a)) eo es ee = api-Reports path s _ h a eo es refl ee

  library-Reports :
      (path : FileName) (s : LoadedPlugin l) (o : Option Library)
      → open_library path ≡ o
      → Reports path s (check_library l o (unload l s))
  unfolding check_library unload
  library-Reports path s none eo = record {
    why = open_failed;
    verdict = no_file eo;
    refused = λ _. (refl, refl, refl);
    loaded = λ e. cc;
  }
  library-Reports path s (some h) eo = entry-Reports path s _ h (symbol h) eo refl refl

  -- `load` accepts a file exactly if it opens, has the entry symbol, whose table is not null, with
  -- the host's version, and with a `struct_size` of at least the offset of `process`; otherwise it
  -- returns false, holds neither table nor handle, and names the first test that failed. An earlier
  -- error text stays when it succeeds.
  pub load-Reports : (path : FileName) (s : LoadedPlugin l) → Reports path s (load l path s)
  unfolding load
  load-Reports path s = library-Reports path s (open_library path) refl

-- `has_batch` says exactly whether the field `process_batch` lies within the plugin's struct.
pub has_batch_iff :
    {M : Type 0} (a : PluginApi M) → (has_batch (some a) ≡ true) ↔ IsPresent a offset_process_batch
unfolding has_batch
has_batch_iff a = ground arith

-- The size gate lets through structs that end before `process`: whatever table of the right version
-- reports a `struct_size` from 32 to 39 is loaded, all fields before `process` are present in it,
-- and `process`, which the adapter calls, is not.
pub gate_admits_no_process :
    {M : Type 0} (l : Linker M) (path : l.FileName) (s : LoadedPlugin l) (h : l.Library)
    (a : PluginApi M)
    → l.open_library path ≡ some h
    → l.symbol h ≡ some (some a)
    → a.version ≡ abi_version
    → offset_process ≤ a.struct_size
    → a.struct_size < offset_process + pointer_size
    → ((load l path s).0 ≡ true)
      × ((load l path s).1.api ≡ some a)
      × IsPresent a offset_destroy
      × ¬ IsPresent a offset_process
unfolding load check_library check_entry check_api
gate_admits_no_process l path s h a eo es ev lo hi = (
  rw (eo, check_library, es, check_entry) (ground arith),
  rw (eo, check_library, es, check_entry) (ground arith),
  omega arith,
  omega arith,
)
