-- ===== src/Prelude/Word.antt =====
-- 32-bit words as bit patterns: `uint32_t`, and `int32_t` in two's complement.
use raspa.Prelude.Int.{ℤ, pos, negsuc}
use raspa.Prelude.Tests.{ltb, if◌then◌else◌}
use Prim.Native.Nat.{ℕ, ◌-◌, ◌*◌, ◌/◌, ◌%◌, ◌^◌, ◌<◌}
use mathlib.Core.Path.{◌≡◌}
use native.Mathlib.Omega.{arith}

abbrev pub u32 : ℕ → ℕ
u32 n = n % 2 ^ 32

-- `w << k`
abbrev pub shl : ℕ → ℕ → ℕ
shl w k = u32 (w * 2 ^ k)

-- `w >> k` on a signed word: the sign bit comes in from the left.
abbrev pub sar : ℕ → ℕ → ℕ
sar w k = if ltb w (2 ^ 31) then w / 2 ^ k else 2 ^ 32 - 1 - (2 ^ 32 - 1 - w) / 2 ^ k

-- The number that a pattern stands for as an `int32_t`.
abbrev pub signed32 : ℕ → ℤ
signed32 w = if ltb w (2 ^ 31) then pos w else negsuc (2 ^ 32 - w - 1)

-- The pattern of a number, which wraps.
abbrev pub pattern32 : ℤ → ℕ
pattern32 (pos n) = u32 n
pattern32 (negsuc n) = 2 ^ 32 - 1 - u32 n

pub pattern32-signed32 : (w : ℕ) → w < 2 ^ 32 → pattern32 (signed32 w) ≡ w
pattern32-signed32 w h = ground arith
