-- ===== src/Vp9/Prob/Merge.antt =====
-- The merge of a probability with the counts of a frame, against the rounded weighted mean of the VP9
-- specification, 8.4.1.
use h618_vpu_port.Base.{
  mul_le, ℕ, ◌+◌, ◌-◌, ◌*◌, ◌/◌, ◌^◌, ◌≤◌, ◌<◌, ◌≡◌, ◌∙◌, Bool-cases, inl, inr, if◌then◌else◌, ◌==◌,
  min, clamp, clamp_bounds, u8, u32, u32_mod, sub_u32, arith,
}
use native.Mathlib.Decide.{dec_le}
use native.Mathlib.Nat.{div-le_of_le-mul, mul_comm}
use h618_vpu_port.Vp9.Prob.{fastdiv, merge_prob}
use h618_vpu_port.Vp9.Prob.Divide.{fastdiv-eq-div}
use h618_vpu_port.Vp9.Prob.Recenter.{IsProb}

-- Round2(pre * (256 - factor) + prob * factor, 8)
abbrev pub weighted : ℕ → ℕ → ℕ → ℕ
weighted pre prob factor = (pre * (256 - factor) + prob * factor + 128) / 256

-- The observed frequency of a zero, in 1..255.
abbrev pub frequency : ℕ → ℕ → ℕ
frequency ct0 ct1 = clamp ((ct0 * 256 + (ct0 + ct1) / 2) / (ct0 + ct1)) 1 255

-- The weight of the counts: they saturate at `count_sat`.
abbrev pub weight : ℕ → ℕ → ℕ → ℕ
weight den count_sat max_update_factor = max_update_factor * min den count_sat / count_sat

-- 8.4.1 of the specification.
pub rounded_merge : ℕ → ℕ → ℕ → ℕ → ℕ → ℕ
rounded_merge pre ct0 ct1 count_sat max_update_factor =
    if ct0 + ct1 == 0
    then pre
    else weighted pre (frequency ct0 ct1) (weight (ct0 + ct1) count_sat max_update_factor)

-- The weights of the mean, with the products as numbers of their own: f * pre split off 256 * pre.
split_weight : (pre f : ℕ) → f ≤ 256 → pre * (256 - f) + pre * f ≡ pre * 256
split_weight pre f h =
    let e : 256 - f + f ≡ 256 = omega arith in
    let g : pre * (256 - f) + pre * f ≡ pre * (256 - f + f) = omega arith in g ∙ rw e

wrapped_up :
    (pre d f : ℕ)
    → 1 ≤ pre
    → pre + d ≤ 255
    → f ≤ 256
    → u8 (pre + u32 (d * f + 128) / 256) ≡ weighted pre (pre + d) f
wrapped_up pre d f p q h =
    let s = split_weight pre f h in
    let t : (pre + d) * f ≡ pre * f + d * f = omega arith in
    let b : d * f ≤ d * 256 = grind arith in rw t (omega arith)

wrapped_down :
    (prob d f : ℕ)
    → 1 ≤ prob
    → 1 ≤ d
    → prob + d ≤ 255
    → f ≤ 256
    → u8 (prob + d + u32 ((u32_mod - d) * f + 128) / 256) ≡ weighted (prob + d) prob f
wrapped_down prob d f p q r h =
    let s = split_weight (prob + d) f h in
    let t : (prob + d) * f ≡ prob * f + d * f = omega arith in
    let b : d * f ≤ d * 256 = grind arith in
    let m : u32_mod - d + d ≡ u32_mod = omega arith in
    let g : (u32_mod - d) * f + d * f ≡ (u32_mod - d + d) * f = omega arith in
    let w : (u32_mod - d) * f + d * f ≡ u32_mod * f = g ∙ rw m in omega arith

-- The code's wrapping difference is the weighted mean.
wrapped-eq-weighted :
    (pre prob f : ℕ)
    → IsProb pre
    → IsProb prob
    → f ≤ 256
    → u8 (pre + u32 (sub_u32 prob pre * f + 128) / 256) ≡ weighted pre prob f
wrapped-eq-weighted pre prob f p q h = elim (dec_le pre prob) [
  | yes l ↦
      let d = prob - pre in
      let e : sub_u32 prob pre ≡ d = omega arith in
      let g : pre + d ≡ prob = omega arith in
      let r : u8 (pre + u32 (d * f + 128) / 256) ≡ weighted pre prob f =
        rw g at (wrapped_up pre d f p.0 (omega arith) h) in
      rw e r
  | no n ↦
      let d = pre - prob in
      let e : sub_u32 prob pre ≡ u32_mod - d = omega arith in
      let g : prob + d ≡ pre = omega arith in
      let r : u8 (pre + u32 ((u32_mod - d) * f + 128) / 256) ≡ weighted pre prob f =
        rw g at (wrapped_down prob d f q.0 (omega arith) (omega arith) h) in
      rw e r
]

-- A mean of probabilities is a probability.
weighted-IsProb :
    (pre prob f : ℕ) → IsProb pre → IsProb prob → f ≤ 256 → IsProb (weighted pre prob f)
weighted-IsProb pre prob f p q h =
    let s = split_weight 255 f h in
    let s' = split_weight 1 f h in
    let a : pre * (256 - f) ≤ 255 * (256 - f) = grind arith in
    let b : prob * f ≤ 255 * f = grind arith in
    let c : 1 * (256 - f) ≤ pre * (256 - f) = grind arith in
    let d : 1 * f ≤ prob * f = grind arith in (omega arith, omega arith)

weight-le : (den sat top : ℕ) → 1 ≤ sat → weight den sat top ≤ top
weight-le den sat top a =
    let m : top * min den sat ≤ sat * top =
      rw (mul_comm sat top) (mul_le top (min den sat) top sat (omega arith) (omega arith)) in
    div-le_of_le-mul sat m

-- The factor of the code is the weight, and no more than the update factor.
factor-eq-weight :
    (den sat top : ℕ)
    → 1 ≤ sat
    → sat ≤ 256
    → top ≤ 256
    → fastdiv (u32 (top * min den sat)) sat ≡ weight den sat top
factor-eq-weight den sat top a b c =
    let m : top * min den sat ≤ 256 * 256 = mul_le top (min den sat) 256 256 c (omega arith) in
    let n : top * min den sat * sat ≤ 256 * 256 * 256 =
      mul_le (top * min den sat) sat (256 * 256) 256 m b in
    let e : u32 (top * min den sat) ≡ top * min den sat = omega arith in
    rw e (fastdiv-eq-div (top * min den sat) sat a b (omega arith))

-- The two processes that the decoder runs: for coefficients (24 and 112 or 128) and for the rest.
abbrev pub IsProcess : ℕ → ℕ → Type 0
IsProcess count_sat max_update_factor =
    (1 ≤ count_sat) × (count_sat ≤ 256) × (max_update_factor ≤ 256)

-- Whatever the counts are, also where their sum or their shift wraps: the merge of a probability is a
-- probability, never 0 and never above 255.
pub merge_prob-IsProb :
    (pre ct0 ct1 count_sat max_update_factor : ℕ)
    → IsProcess count_sat max_update_factor
    → IsProb pre
    → IsProb (merge_prob pre ct0 ct1 count_sat max_update_factor)
unfolding merge_prob
merge_prob-IsProb pre ct0 ct1 sat top c p =
    let den = u32 (ct0 + ct1) in
    let prob = clamp (u32 (u32 (ct0 * 256) + den / 2) / den) 1 255 in
    let q : IsProb prob =
      clamp_bounds (u32 (u32 (ct0 * 256) + den / 2) / den) 1 255 (omega arith) in
    let f = factor-eq-weight den sat top c.0 c.1 c.2 in
    let l = weight-le den sat top c.0 in
    let w = wrapped-eq-weighted pre prob (weight den sat top) p q (omega arith) in
    let r = weighted-IsProb pre prob (weight den sat top) p q (omega arith) in
    elim (Bool-cases (den == 0)) [
      | inl zero_den ↦ rw zero_den p
      | inr some_den ↦ rw (some_den, f, w) r
    ]

-- Where the counts are small enough that neither their sum nor the shift wraps, the merge is that of
-- the specification: the mean of the probability and of the frequency of the counts, rounded, with
-- the weight of the counts.
pub merge_prob-eq-rounded_merge :
    (pre ct0 ct1 count_sat max_update_factor : ℕ)
    → IsProcess count_sat max_update_factor
    → IsProb pre
    → ct0 < 2 ^ 23
    → ct1 < 2 ^ 23
    → merge_prob pre ct0 ct1 count_sat max_update_factor
      ≡ rounded_merge pre ct0 ct1 count_sat max_update_factor
unfolding merge_prob rounded_merge
merge_prob-eq-rounded_merge pre ct0 ct1 sat top c p a b =
    let den = ct0 + ct1 in
    let e : u32 (ct0 + ct1) ≡ den = omega arith in
    let g : u32 (u32 (ct0 * 256) + den / 2) ≡ ct0 * 256 + den / 2 = omega arith in
    let q : IsProb (frequency ct0 ct1) =
      clamp_bounds ((ct0 * 256 + den / 2) / den) 1 255 (omega arith) in
    let f = factor-eq-weight den sat top c.0 c.1 c.2 in
    let l = weight-le den sat top c.0 in
    let w = wrapped-eq-weighted pre (frequency ct0 ct1) (weight den sat top) p q (omega arith) in
    rw (e, g, f, w)
