-- ===== src/Vp9/Prob/Divide.antt =====
-- The division by a table of reciprocals is exact where the dividend is small enough.
use h618_vpu_port.Base.{
  ℕ, zero, suc, ◌+◌, ◌-◌, ◌*◌, ◌/◌, ◌%◌, ◌^◌, ◌≤◌, ◌<◌, ◌≡◌, ◌∙◌, false, leb, arith,
}
use native.Mathlib.Nat.{div-add-mod', mod-lt, div-eq_of_lt-le, div-le_self}
use native.Mathlib.Decide.{dec_lt}
use h618_vpu_port.Vp9.Prob.{div_inv, fastdiv}

-- The reciprocal overshoots 2 ^ 32 / d by less than one.
div_inv_bounds : (d : ℕ) → 2 ≤ d → d ≤ 256 → (2 ^ 32 ≤ div_inv d * d) × (div_inv d * d < 2 ^ 32 + d)
unfolding div_inv
div_inv_bounds d a b =
    let n = 2 ^ 32 + (d - 1) in
    let m : n / d * d + n % d ≡ n = div-add-mod' n d in
    let l : n % d < d = mod-lt n (omega arith) in
    let s : n / d * 2 ≤ n / d * d = grind arith in ground arith

-- With v * d = m + e for the power m, the quotient by m of x * v is that of x by d, if x * e is below m.
-- All products of two variables are named, so that the rest is linear.
scaled_lower : (x v d m q r e : ℕ) → v * d ≡ m + e → x ≡ q * d + r → q * m ≤ x * v
scaled_lower x v d m q r e a b =
    let c : x * v ≡ q * (v * d) + r * v = rw b (omega arith) in rw (c, a) (omega arith)

mul_lt_cancel : (a b d : ℕ) → a * d < b * d → a < b
mul_lt_cancel a b d h = elim (dec_lt a b) [
  | yes l ↦ l
  | no n ↦
      let l : b ≤ a = omega arith in let k : b * d ≤ a * d = grind arith in absurd (omega arith)
]

scaled_upper :
    (x v d m q r e : ℕ) → v * d ≡ m + e → x ≡ q * d + r → r < d → x * e < m → x * v < (q + 1) * m
scaled_upper x v d m q r e a b l s = mul_lt_cancel (x * v) ((q + 1) * m) d (
    let left : x * v * d ≡ x * m + x * e =
      let t : x * v * d ≡ x * (v * d) = omega arith in t ∙ rw a (omega arith) in
    let right : (q + 1) * m * d ≡ m * (q * d) + m * d = omega arith in
    let whole : x * m ≡ m * (q * d) + m * r = rw b (omega arith) in
    let room : m * r + m ≤ m * d = grind arith in rw (left, right) (omega arith))

small_product : (x e m : ℕ) → 0 < m → x * e + x ≤ m → x * e < m
small_product zero e m p h = let z : 0 * e ≡ 0 = omega arith in omega arith
small_product (suc x) e m p h = omega arith

-- The product with the reciprocal, shifted, is the quotient.
reciprocal-eq-div : (x d : ℕ) → 2 ≤ d → d ≤ 256 → x * d ≤ 2 ^ 32 → x * div_inv d / 2 ^ 32 ≡ x / d
reciprocal-eq-div x d a b c =
    let v = div_inv d in
    let q = x / d in
    let r = x % d in
    let n = div_inv_bounds d a b in
    let e = v * d - 2 ^ 32 in
    let m : v * d ≡ 2 ^ 32 + e = omega arith in
    let split : x ≡ q * d + r = omega (arith, div-add-mod' x d) in
    let small : r < d = mod-lt x (omega arith) in
    let close : x * (e + 1) ≤ x * d = grind arith in
    let spread : x * (e + 1) ≡ x * e + x = omega arith in
    let over : x * e < 2 ^ 32 = small_product x e (2 ^ 32) (omega arith) (omega arith) in
    div-eq_of_lt-le (2 ^ 32) (scaled_lower x v d (2 ^ 32) q r e m split)
      (scaled_upper x v d (2 ^ 32) q r e m split small over)

-- fastdiv divides: for a divisor of its table, or 1, and a dividend whose product with the divisor is
-- at most 2 ^ 32, it is the quotient of the two.
pub fastdiv-eq-div : (x d : ℕ) → 1 ≤ d → d ≤ 256 → x * d ≤ 2 ^ 32 → fastdiv x d ≡ x / d
unfolding fastdiv
fastdiv-eq-div x zero a b c = absurd (omega arith)
fastdiv-eq-div x (suc zero) a b c = omega arith
fastdiv-eq-div x (suc (suc k)) a b c =
    let d : ℕ = suc (suc k) in
    let e = reciprocal-eq-div x d (omega arith) b c in
    let f : leb 255 (d - 2) ≡ false = ground arith in
    let bound : x * 2 ≤ x * d = grind arith in
    let top : x / d ≤ x = div-le_self x d in rw (f, e) (ground arith)
