-- ===== src/Base/Bits.antt =====
-- Masks of low ones, and the union of two fields that do not overlap.
use Prim.Native.Nat.{
  ℕ, zero, suc, ◌+◌, ◌*◌, ◌/◌, ◌%◌, ◌^◌, ◌≤◌, ◌<◌, min, max, bit_and, bit_or, digits,
  bit_and-bitwise, bit_or-bitwise,
}
use mathlib.Core.Path.{◌≡◌, refl, ap, ◌∙◌}
use native.Mathlib.Omega.{arith}
use native.Mathlib.Nat.{pow-suc}

-- The conjunction of a number of at most n digits with a mask.
abbrev conj : ℕ → ℕ → ℕ → ℕ
conj n a mask = digits (λ b. zero) min n a mask

conj_none : (n a : ℕ) → conj n a 0 ≡ 0
conj_none zero a = refl
conj_none (suc n) zero = refl
conj_none (suc n) (suc a) = omega (arith, conj_none n (suc a / 2))

conj_one : (n a : ℕ) → a ≤ n → conj n a 1 ≡ a % 2
conj_one zero a l = omega arith
conj_one (suc n) zero l = refl
conj_one (suc n) (suc a) l = omega (arith, conj_none n (suc a / 2))

conj_three : (n a : ℕ) → a ≤ n → conj n a 3 ≡ a % 4
conj_three zero a l = omega arith
conj_three (suc n) zero l = refl
conj_three (suc n) (suc a) l = omega (arith, conj_one n (suc a / 2) (omega arith))

conj_seven : (n a : ℕ) → a ≤ n → conj n a 7 ≡ a % 8
conj_seven zero a l = omega arith
conj_seven (suc n) zero l = refl
conj_seven (suc n) (suc a) l = omega (arith, conj_three n (suc a / 2) (omega arith))

-- a & 7
pub bit_and_seven : (a : ℕ) → bit_and a 7 ≡ a % 8
bit_and_seven a = bit_and-bitwise a 7 ∙ conj_seven a a (omega arith)

-- The disjunction of a number of at most n digits with another.
abbrev disj : ℕ → ℕ → ℕ → ℕ
disj n a b = digits (λ b'. b') max n a b

disj_none : (n a : ℕ) → a ≤ n → disj n a 0 ≡ a
disj_none zero a l = omega arith
disj_none (suc n) zero l = refl
disj_none (suc n) (suc a) l = omega (arith, disj_none n (suc a / 2) (omega arith))

-- A multiple of 2 ^ k has no digit below k.
disj_field : (n k a hi lo : ℕ) → a ≡ hi * 2 ^ k → a ≤ n → lo < 2 ^ k → disj n a lo ≡ a + lo
disj_field n zero a hi lo e l h =
    let none : lo ≡ 0 = omega arith in ap (disj n a) none ∙ omega (arith, disj_none n a l)
disj_field zero (suc k) a hi lo e l h = omega arith
disj_field (suc n) (suc k) zero hi lo e l h = omega arith
disj_field (suc n) (suc k) (suc a) hi lo e l h =
    let p = pow-suc 2 k in
    let q : hi * 2 ^ suc k ≡ hi * (2 ^ k * 2) = ap (λ (t : ℕ). hi * t) p in
    let half : suc a / 2 ≡ hi * 2 ^ k = omega arith in
    let even : suc a % 2 ≡ 0 = omega arith in
    omega (arith, disj_field n k (suc a / 2) hi (lo / 2) half (omega arith) (omega arith))

-- `hi << k | lo` with `lo` below bit `k` is the sum.
pub bit_or-shift : (k hi lo : ℕ) → lo < 2 ^ k → bit_or (hi * 2 ^ k) lo ≡ hi * 2 ^ k + lo
bit_or-shift k hi lo h =
    bit_or-bitwise (hi * 2 ^ k) lo
    ∙ disj_field (hi * 2 ^ k) k (hi * 2 ^ k) hi lo refl (omega arith) h

disj_low : (n k a b hi : ℕ) → b ≡ hi * 2 ^ k → a ≤ n → a < 2 ^ k → disj n a b ≡ a + b
disj_low zero k a b hi e l h = omega arith
disj_low (suc n) k zero b hi e l h = omega arith
disj_low (suc n) zero (suc a) b hi e l h = absurd (omega arith)
disj_low (suc n) (suc k) (suc a) b hi e l h =
    let p = pow-suc 2 k in
    let q : hi * 2 ^ suc k ≡ hi * (2 ^ k * 2) = ap (λ (t : ℕ). hi * t) p in
    let half : b / 2 ≡ hi * 2 ^ k = omega arith in
    let even : b % 2 ≡ 0 = omega arith in
    omega (arith, disj_low n k (suc a / 2) (b / 2) hi half (omega arith) (omega arith))

-- `lo | hi << k` with `lo` below bit `k` is the sum.
pub bit_or-shift_low : (k lo hi : ℕ) → lo < 2 ^ k → bit_or lo (hi * 2 ^ k) ≡ lo + hi * 2 ^ k
bit_or-shift_low k lo hi h =
    bit_or-bitwise lo (hi * 2 ^ k) ∙ disj_low lo k lo (hi * 2 ^ k) hi refl (omega arith) h
