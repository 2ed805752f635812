-- ===== src/Base/Words.antt =====
-- Machine words as native numbers: the conversions of C wrap by `%`.
use Prim.Native.Nat.{ℕ, ◌+◌, ◌-◌, ◌*◌, ◌/◌, ◌%◌, ◌≤◌}
use native.Mathlib.Omega.{arith}
use h618_vpu_port.Base.Tests.{leb, if◌then◌else◌}

abbrev pub u8_mod : ℕ
u8_mod = 256

abbrev pub u16_mod : ℕ
u16_mod = 65536

abbrev pub u32_mod : ℕ
u32_mod = 4294967296

abbrev pub u8 : ℕ → ℕ
u8 x = x % u8_mod

abbrev pub u16 : ℕ → ℕ
u16 x = x % u16_mod

abbrev pub u32 : ℕ → ℕ
u32 x = x % u32_mod

-- a - b on unsigned int.
abbrev pub sub_u32 : ℕ → ℕ → ℕ
sub_u32 a b = (a + u32_mod - b) % u32_mod

-- The kernel's clamp: the upper bound wins where the bounds cross.
abbrev pub clamp : ℕ → ℕ → ℕ → ℕ
clamp x lo hi = if leb hi x then hi else if leb x lo then lo else x

-- DIV_ROUND_UP on unsigned int.
abbrev pub div_round_up : ℕ → ℕ → ℕ
div_round_up n d = u32 (n + d - 1) / d

-- ALIGN to a power of two: (x + (a - 1)) & ~(a - 1) on unsigned int.
abbrev pub align : ℕ → ℕ → ℕ
align x a = u32 (x + (a - 1)) / a * a

pub clamp_bounds : (x lo hi : ℕ) → lo ≤ hi → (lo ≤ clamp x lo hi) × (clamp x lo hi ≤ hi)
clamp_bounds x lo hi h = ground arith

pub mul_le : (a b c d : ℕ) → a ≤ c → b ≤ d → a * b ≤ c * d
mul_le a b c d h k =
    let x : a * b ≤ c * b = grind arith in let y : c * b ≤ c * d = grind arith in omega arith
