-- ===== src/Vp9/Prob.antt =====
-- cedrus-v4l2/cedrus_vp9_helper.c: the arithmetic on one probability. Values of the C types u8, u16
-- and u32 are numbers, and each conversion that can change one is written out.
pub mod Divide
pub mod Recenter
pub mod Merge
use h618_vpu_port.Base.{
  ℕ, ◌+◌, ◌-◌, ◌*◌, ◌/◌, ◌%◌, ◌^◌, Bool, if◌then◌else◌, ltb, leb, ◌==◌, min, clamp, u8, u32,
  u32_mod, sub_u32,
}

-- DIV_INV(d): the quotient of 2 ^ 32 by d, rounded up.
pub div_inv : ℕ → ℕ
div_inv d = u32 ((2 ^ 32 + (d - 1)) / d)

-- The table's 255 entries are DIV_INV(2) to DIV_INV(256), so entry `divisor - 2` is DIV_INV(divisor).
pub fastdiv : ℕ → ℕ → ℕ
fastdiv dividend divisor =
    if divisor == 0
    then 0
    else if divisor == 1
    then dividend
    else if leb 255 (divisor - 2)
    then dividend
    else u32 (dividend * div_inv divisor / 2 ^ 32)

-- On ints. With v ≤ 2 * m the subtraction below does not go below 0, and nothing else subtracts.
pub inv_recenter_nonneg : ℕ → ℕ → ℕ
inv_recenter_nonneg v m =
    if ltb (2 * m) v then v else if v % 2 == 1 then m - (v + 1) / 2 else m + v / 2

-- `delta` and `prob` are u8; the int result is stored in a u8.
pub update_prob : ℕ → ℕ → ℕ
update_prob delta prob =
    if delta == 0
    then prob
    else if leb prob 128
    then u8 (1 + inv_recenter_nonneg delta (prob - 1))
    else u8 (255 - inv_recenter_nonneg delta (255 - prob))

pub merge_prob : ℕ → ℕ → ℕ → ℕ → ℕ → ℕ
merge_prob pre_prob ct0 ct1 count_sat max_update_factor =
    let den = u32 (ct0 + ct1) in
    let prob = clamp (u32 (u32 (ct0 * 256) + den / 2) / den) 1 255 in
    let count = min den count_sat in
    let factor = fastdiv (u32 (max_update_factor * count)) count_sat in
    if den == 0 then pre_prob else u8 (pre_prob + u32 (sub_u32 prob pre_prob * factor + 128) / 256)

unfoldable pub noncoef_merge_prob : ℕ → ℕ → ℕ → ℕ
noncoef_merge_prob pre_prob ct0 ct1 = merge_prob pre_prob ct0 ct1 20 128
