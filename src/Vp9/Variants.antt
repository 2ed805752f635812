-- ===== src/Vp9/Variants.antt =====
-- cedrus-v4l2/cedrus_vp9_helper.c, merge_probs_variant_*: the merge of a tree of probabilities, unrolled
-- by hand for each shape of tree. `p` is the array of probabilities, `c` that of the counts.
pub mod Trees
use h618_vpu_port.Base.{ℕ, ◌+◌, List, get_or, set, u32, sub_u32}
use h618_vpu_port.Vp9.Prob.{merge_prob, noncoef_merge_prob}

abbrev pub at : List ℕ → ℕ → ℕ
at c i = get_or c i 0

-- p[i] = merge_prob(p[i], ct0, ct1, count_sat, update_factor)
abbrev pub merge_at : ℕ → ℕ → ℕ → ℕ → ℕ → List ℕ → List ℕ
merge_at sat top i ct0 ct1 p = set p i (merge_prob (at p i) ct0 ct1 sat top)

-- p[i] = noncoef_merge_prob(p[i], ct0, ct1)
abbrev pub noncoef_at : ℕ → ℕ → ℕ → List ℕ → List ℕ
noncoef_at i ct0 ct1 p = set p i (noncoef_merge_prob (at p i) ct0 ct1)

unfoldable pub merge_probs_variant_a : List ℕ → List ℕ → ℕ → ℕ → List ℕ
merge_probs_variant_a p c count_sat update_factor =
    let p = merge_at count_sat update_factor 1 (at c 0) (u32 (at c 1 + at c 2)) p in
    merge_at count_sat update_factor 2 (at c 1) (at c 2) p

unfoldable pub merge_probs_variant_b : List ℕ → List ℕ → ℕ → ℕ → List ℕ
merge_probs_variant_b p c count_sat update_factor =
    merge_at count_sat update_factor 0 (at c 0) (at c 1) p

unfoldable pub merge_probs_variant_c : List ℕ → List ℕ → List ℕ
merge_probs_variant_c p c =
    let p = noncoef_at 0 (at c 2) (u32 (at c 1 + at c 0 + at c 3)) p in
    let p = noncoef_at 1 (at c 0) (u32 (at c 1 + at c 3)) p in noncoef_at 2 (at c 1) (at c 3) p

unfoldable pub merge_probs_variant_d : List ℕ → List ℕ → List ℕ
merge_probs_variant_d p c =
    let sum =
      u32 (at c 1 + at c 2 + at c 3 + at c 4 + at c 5 + at c 6 + at c 7 + at c 8 + at c 9) in
    let p = noncoef_at 0 (at c 0) sum p in
    let sum = sub_u32 sum (at c 9) in
    let p = noncoef_at 1 (at c 9) sum p in
    let sum = sub_u32 sum (at c 1) in
    let p = noncoef_at 2 (at c 1) sum p in
    let s2 = u32 (at c 2 + at c 4 + at c 5) in
    let sum = sub_u32 sum s2 in
    let p = noncoef_at 3 s2 sum p in
    let s2 = sub_u32 s2 (at c 2) in
    let p = noncoef_at 4 (at c 2) s2 p in
    let p = noncoef_at 5 (at c 4) (at c 5) p in
    let sum = sub_u32 sum (at c 3) in
    let p = noncoef_at 6 (at c 3) sum p in
    let sum = sub_u32 sum (at c 8) in
    let p = noncoef_at 7 (at c 8) sum p in noncoef_at 8 (at c 6) (at c 7) p

unfoldable pub merge_probs_variant_e : List ℕ → List ℕ → List ℕ
merge_probs_variant_e p c =
    let p = noncoef_at 0 (at c 0) (u32 (at c 1 + at c 2 + at c 3)) p in
    let p = noncoef_at 1 (at c 1) (u32 (at c 2 + at c 3)) p in noncoef_at 2 (at c 2) (at c 3) p

unfoldable pub merge_probs_variant_f : List ℕ → List ℕ → List ℕ
merge_probs_variant_f p c =
    let p = noncoef_at 0 (at c 0) (u32 (at c 1 + at c 2)) p in noncoef_at 1 (at c 1) (at c 2) p

unfoldable pub merge_probs_variant_g : List ℕ → List ℕ → List ℕ
merge_probs_variant_g p c =
    let sum =
      u32 (
        at c 1 + at c 2 + at c 3 + at c 4 + at c 5 + at c 6 + at c 7 + at c 8 + at c 9 + at c 10) in
    let p = noncoef_at 0 (at c 0) sum p in
    let sum = sub_u32 sum (at c 1) in
    let p = noncoef_at 1 (at c 1) sum p in
    let sum = sub_u32 sum (u32 (at c 2 + at c 3)) in
    let p = noncoef_at 2 (u32 (at c 2 + at c 3)) sum p in
    let p = noncoef_at 3 (at c 2) (at c 3) p in
    let sum = sub_u32 sum (u32 (at c 4 + at c 5)) in
    let p = noncoef_at 4 (u32 (at c 4 + at c 5)) sum p in
    let p = noncoef_at 5 (at c 4) (at c 5) p in
    let sum = sub_u32 sum (at c 6) in
    let p = noncoef_at 6 (at c 6) sum p in
    let p = noncoef_at 7 (u32 (at c 7 + at c 8)) (u32 (at c 9 + at c 10)) p in
    let p = noncoef_at 8 (at c 7) (at c 8) p in noncoef_at 9 (at c 9) (at c 10) p
