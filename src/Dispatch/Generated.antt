-- ===== src/Dispatch/Generated.antt =====
-- plugin-dispatch-kata/cpp/src/generated.hpp: the hundred generated handlers.
pub mod Exclusive
pub mod Arms
use Prim.Native.Nat.{bit_xor}
use principal_katas.Prelude.{
  ℕ, zero, suc, ◌+◌, ◌*◌, ◌/◌, ◌%◌, Bool, true, false, ◌&&◌, List, [], ◌∷◌, ◌==◌, u16, add64, mul64,
  get_or, if◌then◌else◌,
}
use principal_katas.Dispatch.Packet.{Packet, Result, handler_count}
use principal_katas.Dispatch.Handler.{Declaring, Registration}

abbrev pub fat_rounds : ℕ
fat_rounds = 48

abbrev pub tiny_rounds : ℕ
tiny_rounds = 2

unfoldable pub residual_of : ℕ → Bool
residual_of n = n % 10 == 7

unfoldable pub key_of : ℕ → ℕ
unfolding residual_of
key_of n = if residual_of n then u16 (900 + n % 3) else u16 n

-- one round of `mix<N, Rounds>`, for the index `i` of the pack
mix_round : ℕ → Packet → ℕ → ℕ → ℕ
mix_round n p i h =
    mul64 (bit_xor h (add64 (get_or p.payload ((i * 7 + n) % 24) 0) (n + i)))
      (add64 0x100000001b3 (2 * i))

-- the fold over the indices from `i` on
mix_from : ℕ → Packet → ℕ → ℕ → ℕ → ℕ
unfolding mix_round
mix_from n p i zero h = h
mix_from n p i (suc left) h = mix_from n p (i + 1) left (mix_round n p i h)

-- `mix<N, Rounds>`
unfoldable pub mix : ℕ → ℕ → Packet → ℕ
unfolding mix_from
mix n rounds p = mix_from n p 0 rounds (bit_xor 0xcbf29ce484222325 (mul64 n 0x9E3779B97F4A7C15))

-- `GeneratedT<N, Rounds>::matches`; `& 3` is the remainder by 4.
unfoldable pub generated_matches : ℕ → Packet → Bool
unfolding key_of residual_of
generated_matches n p =
    (p.protocol == key_of n)
    && (if residual_of n then get_or p.payload 0 0 % 4 == n / 10 % 4 else true)

-- `GeneratedT<N, Rounds>::process`, which changes no state
unfoldable pub generated_process : ℕ → ℕ → Packet → Result
unfolding mix
generated_process n rounds p = record { value = mix n rounds p; handler = key_of n }

module _ (W : Type 0) (rounds : ℕ) where
  -- `GeneratedT<N, Rounds>`
  unfoldable pub generated : ℕ → Declaring W
  unfolding generated_matches generated_process
  generated n = record {
    matches = generated_matches n;
    process = λ p w. (generated_process n rounds p, w);
    declare = record { key = key_of n; residual = residual_of n };
  }

  -- handlers `n`, `n + 1`, …, as many as `left`
  unfoldable pub generated_from : ℕ → ℕ → List (Declaring W)
  unfolding generated
  generated_from n zero = []
  generated_from n (suc left) = generated n ∷ generated_from (n + 1) left

  -- `HandlerSet<Rounds>`: `all` is `first(kHandlers)`.
  unfoldable pub first : ℕ → List (Declaring W)
  unfolding generated_from
  first n = generated_from 0 n
