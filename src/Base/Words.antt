-- ===== src/Base/Words.antt =====
-- Big-endian bytes of machine words: `to_be_bytes` and `from_be_bytes`.
use Prim.Native.Nat.{ℕ, ◌+◌, ◌*◌, ◌/◌, ◌%◌, ◌^◌, ◌<◌}
use mathlib.Core.Path.{◌≡◌}
use mathlib.Core.List.{[], ◌∷◌}
use native.Mathlib.Omega.{arith}
use zsync.Base.Strings.{Bytes}
use zsync.Base.Lists.{All}

-- Every element is a byte.
abbrev pub AreBytes : Bytes → Type 0
AreBytes = All (λ b. b < 256)

abbrev pub u16_be : ℕ → Bytes
u16_be n = (n / 256 % 256) ∷ (n % 256) ∷ []

abbrev pub u32_be : ℕ → Bytes
u32_be n = (n / 2 ^ 24 % 256) ∷ (n / 2 ^ 16 % 256) ∷ (n / 256 % 256) ∷ (n % 256) ∷ []

abbrev pub u64_be : ℕ → Bytes
u64_be n =
    (n / 2 ^ 56 % 256)
    ∷ (n / 2 ^ 48 % 256)
    ∷ (n / 2 ^ 40 % 256)
    ∷ (n / 2 ^ 32 % 256)
    ∷ u32_be (n % 2 ^ 32)

abbrev pub from_be : ℕ → Bytes → ℕ
from_be acc [] = acc
from_be acc (b ∷ bs) = from_be (acc * 256 + b) bs

pub from_be-u16_be : (n : ℕ) → n < 2 ^ 16 → from_be 0 (u16_be n) ≡ n
from_be-u16_be n h = omega arith

pub from_be-u32_be : (n : ℕ) → n < 2 ^ 32 → from_be 0 (u32_be n) ≡ n
from_be-u32_be n h = omega arith

pub from_be-u64_be : (n : ℕ) → n < 2 ^ 64 → from_be 0 (u64_be n) ≡ n
from_be-u64_be n h = omega arith
