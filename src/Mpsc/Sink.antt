-- ===== src/Mpsc/Sink.antt =====
-- mpsc-event-pipeline-kata/cpp/src/sink.hpp: `CountingSink`. A batch is its bytes; a word of it is
-- eight of them, the lowest first.
use native.Mathlib.Nat.{suc-mul}
use Prim.Native.Nat.{bit_xor}
use principal_katas.Prelude.{
  ℕ, zero, suc, ◌+◌, ◌*◌, ◌/◌, ◌≤◌, ◌≡◌, refl, inl, inr, Bool, true, false, List, [], ◌∷◌, arith,
  ltb, max, length, drop, add64, mul64, Bool-cases, if◌then◌else◌,
}

pub record CountingSink : Type 0 where
  pub checksum : ℕ
  pub bytes : ℕ
  pub batches : ℕ

abbrev pub new_sink : CountingSink
new_sink = record { checksum = 0xcbf29ce484222325; bytes = 0; batches = 0 }

-- the first `left` bytes as a number
abbrev pub number_of : ℕ → List ℕ → ℕ
number_of zero bytes = 0
number_of (suc left) [] = 0
number_of (suc left) (b ∷ bytes) = b + 256 * number_of left bytes

-- `memcpy(&w, bytes.data() + i * 8, 8)`
abbrev pub word_at : List ℕ → ℕ → ℕ
word_at bytes i = number_of 8 (drop (8 * i) bytes)

-- `words` and `stride`
abbrev pub n_words : List ℕ → ℕ
n_words bytes = length bytes / 8

abbrev pub stride_of : ℕ → ℕ
stride_of words = max 1 (words / 32)

-- `h = (h ^ w) * 0x100000001b3`
abbrev pub stir : ℕ → ℕ → ℕ
stir h w = mul64 (bit_xor h w) 0x100000001b3

-- The sampling loop from word `i` on, for at most `left` rounds: whether it has ended, and its hash.
unfoldable pub sample : List ℕ → ℕ → ℕ → ℕ → ℕ → Bool × ℕ
sample bytes stride i zero h = (if ltb i (n_words bytes) then false else true, h)
sample bytes stride i (suc left) h =
    let rest = sample bytes stride (i + stride) left (stir h (word_at bytes i)) in
    if ltb i (n_words bytes) then rest else (true, h)

-- the most rounds that the loop takes
abbrev pub max_samples : ℕ
max_samples = 63

unfoldable pub write : List ℕ → CountingSink → CountingSink
unfolding sample
write bytes s =
    let (ended, h) =
      sample bytes (stride_of (n_words bytes)) 0 max_samples (bit_xor s.checksum (length bytes)) in
    record { checksum = h; bytes = add64 s.bytes (length bytes); batches = add64 s.batches 1 }

ends :
    (bytes : List ℕ) (stride i left h : ℕ)
    → n_words bytes ≤ i + left * stride
    → (sample bytes stride i left h).0 ≡ true
unfolding sample
ends bytes stride i zero h le = ground arith
ends bytes stride i (suc left) h le = elim (Bool-cases (ltb i (n_words bytes))) [
  | inl more ↦ rw more (
      ends bytes stride (i + stride) left (stir h (word_at bytes i))
        (omega (arith, le, suc-mul left stride)))
  | inr over ↦ rw over refl
]

-- The sampling loop of a batch of any size ends within the 63 rounds that it is given here.
pub sample_ends :
    (bytes : List ℕ) (h : ℕ) → (sample bytes (stride_of (n_words bytes)) 0 max_samples h).0 ≡ true
sample_ends bytes h = ends bytes (stride_of (n_words bytes)) 0 max_samples h (omega arith)
