-- ===== src/Dispatch/Packet.antt =====
-- plugin-dispatch-kata/cpp/src/packet.hpp and config.hpp: the packet, the result and the checksum
-- of a result stream.
use Prim.Native.Nat.{bit_xor}
use principal_katas.Prelude.{ℕ, ◌^◌, mul64, List, [], ◌∷◌}

-- `kHandlers`
abbrev pub handler_count : ℕ
handler_count = 100

-- `kKeySpace16`
abbrev pub key_space16 : ℕ
key_space16 = 2 ^ 16

-- `Packet`; `payload` is the list of its 24 bytes.
pub record Packet : Type 0 where
  pub protocol : ℕ
  pub length : ℕ
  pub flags : ℕ
  pub payload : List ℕ

pub record Result : Type 0 where
  pub value : ℕ
  pub handler : ℕ

-- `Result::kNone`
abbrev pub none_handler : ℕ
none_handler = 0xFFFF

abbrev pub unsupported : Result
unsupported = record { value = 0; handler = none_handler }

-- `Checksum`, whose one field is `h`
abbrev pub Checksum : Type 0
Checksum = ℕ

abbrev pub checksum_init : Checksum
checksum_init = 0xcbf29ce484222325

unfoldable pub feed : Checksum → Result → Checksum
feed h r =
    let h' = mul64 (bit_xor h r.value) 0x100000001b3 in mul64 (bit_xor h' r.handler) 0x100000001b3

-- The checksum of a run: `feed` on each result in order.
unfoldable pub checksum : Checksum → List Result → Checksum
checksum h [] = h
checksum h (r ∷ rs) = checksum (feed h r) rs
