-- ===== src/Base/Ints.antt =====
-- C's int, away from its bounds: the library's integers over the native numbers.
use Prim.Native.Nat.{ℕ, ◌-◌}
use h618_vpu_port.Base.Tests.{leb, if◌then◌else◌}

pub data ℤ : Type 0 where
  pos : ℕ → ℤ
  negsuc : ℕ → ℤ

-- a - b
abbrev pub diff : ℕ → ℕ → ℤ
diff a b = if leb b a then pos (a - b) else negsuc (b - a - 1)
