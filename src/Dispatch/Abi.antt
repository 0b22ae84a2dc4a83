-- ===== src/Dispatch/Abi.antt =====
-- plugin-dispatch-kata/cpp/src/plugin_abi.h: what crosses the plugin boundary. A pointer is an
-- option of what it points to; `M` is the plugin's memory, and a handler object is named by a
-- number in it.
use principal_katas.Prelude.{ℕ, ◌+◌, Option, List}

-- `SwyPacketView`
pub record PacketView : Type 0 where
  pub protocol : ℕ
  pub reserved : ℕ
  pub bytes_len : ℕ
  pub bytes : List ℕ

-- `SwyResult`
pub record SwyResult : Type 0 where
  pub value : ℕ
  pub handler : ℕ
  pub reserved0 : ℕ
  pub reserved1 : ℕ

abbrev pub zero_result : SwyResult
zero_result = record { value = 0; handler = 0; reserved0 = 0; reserved1 = 0 }

-- `SWY_ABI_VERSION` and the return codes
abbrev pub abi_version : ℕ
abi_version = 1

abbrev pub swy_ok : ℕ
swy_ok = 0

abbrev pub swy_error : ℕ
swy_error = 2

-- `SwyPluginApi`. A function takes the buffers it may write and returns what they hold afterwards.
-- `process_batch` is there from level 2 on.
pub record PluginApi (M : Type 0) : Type 0 where
  pub struct_size : ℕ
  pub version : ℕ
  pub claimed_keys : Option (List ℕ) → ℕ → ℕ × Option (List ℕ)
  pub create : M → Option ℕ × M
  pub destroy : Option ℕ → M → M
  pub process : Option ℕ → Option PacketView → Option SwyResult → M → ℕ × Option SwyResult × M
  pub process_batch : Option (
      Option ℕ
      → Option (List PacketView)
      → ℕ
      → Option (List SwyResult)
      → M
      → ℕ × Option (List SwyResult) × M)

-- `offsetof` of the fields of `SwyPluginApi`: two 32-bit numbers, then 64-bit pointers
abbrev pub offset_claimed_keys : ℕ
offset_claimed_keys = 8

abbrev pub offset_create : ℕ
offset_create = 16

abbrev pub offset_destroy : ℕ
offset_destroy = 24

abbrev pub offset_process : ℕ
offset_process = 32

abbrev pub offset_process_batch : ℕ
offset_process_batch = 40

-- `sizeof(void*)`
abbrev pub pointer_size : ℕ
pointer_size = 8

-- `sizeof(SwyPluginApi)` at level 1 and at level 2
abbrev pub size_level1 : ℕ
size_level1 = offset_process_batch

abbrev pub size_level2 : ℕ
size_level2 = offset_process_batch + pointer_size
