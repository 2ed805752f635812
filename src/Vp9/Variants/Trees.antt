-- ===== src/Vp9/Variants/Trees.antt =====
-- The recursive merge of the VP9 specification, 8.4.2, and its trees. A node carries the index of its
-- probability; the order in which the nodes are visited is that of the code, and no two nodes of a tree
-- share an index.
use h618_vpu_port.Base.{ℕ, ◌+◌, ◌<◌, ◌≡◌, refl, List, u32, u32_mod, sub_u32, arith}
use h618_vpu_port.Vp9.Prob.{noncoef_merge_prob}
use h618_vpu_port.Vp9.Variants.{
  at, merge_at, merge_probs_variant_a, merge_probs_variant_b, merge_probs_variant_c,
  merge_probs_variant_d, merge_probs_variant_e, merge_probs_variant_f, merge_probs_variant_g,
}

pub data Tree : Type 0 where
  leaf : ℕ → Tree
  node : ℕ → Tree → Tree → Tree

-- How often the tokens below a node occurred.
unfoldable pub total : List ℕ → Tree → ℕ
total c (leaf i) = at c i
total c (node i l r) = total c l + total c r

pub merge_probs : ℕ → ℕ → List ℕ → Tree → List ℕ → List ℕ
merge_probs sat top c (leaf i) p = p
merge_probs sat top c (node i l r) p =
    merge_probs sat top c r (merge_probs sat top c l (merge_at sat top i (total c l) (total c r) p))

abbrev pub small_token_tree : Tree
small_token_tree = node 1 (leaf 0) (node 2 (leaf 1) (leaf 2))

abbrev pub binary_tree : Tree
binary_tree = node 0 (leaf 0) (leaf 1)

abbrev pub inter_mode_tree : Tree
inter_mode_tree = node 0 (leaf 2) (node 1 (leaf 0) (node 2 (leaf 1) (leaf 3)))

abbrev pub intra_mode_tree : Tree
intra_mode_tree = node 0 (leaf 0) (
    node 1 (leaf 9) (
      node 2 (leaf 1) (
        node 3 (node 4 (leaf 2) (node 5 (leaf 4) (leaf 5)))
          (node 6 (leaf 3) (node 7 (leaf 8) (node 8 (leaf 6) (leaf 7)))))))

abbrev pub partition_tree : Tree
partition_tree = node 0 (leaf 0) (node 1 (leaf 1) (node 2 (leaf 2) (leaf 3)))

abbrev pub interp_filter_tree : Tree
interp_filter_tree = node 0 (leaf 0) (node 1 (leaf 1) (leaf 2))

abbrev pub mv_class_tree : Tree
mv_class_tree = node 0 (leaf 0) (
    node 1 (leaf 1) (
      node 2 (node 3 (leaf 2) (leaf 3)) (
        node 4 (node 5 (leaf 4) (leaf 5))
          (node 6 (leaf 6) (node 7 (node 8 (leaf 7) (leaf 8)) (node 9 (leaf 9) (leaf 10)))))))

-- For each shape: the unrolled code merges as the recursion over the tree does.
variant_a-eq :
    (p c : List ℕ) (sat top : ℕ)
    → total c small_token_tree < u32_mod
    → merge_probs_variant_a p c sat top ≡ merge_probs sat top c small_token_tree p
unfolding merge_probs_variant_a merge_probs total
variant_a-eq p c sat top h = let e : u32 (at c 1 + at c 2) ≡ at c 1 + at c 2 = omega arith in rw e

variant_b-eq :
    (p c : List ℕ) (sat top : ℕ)
    → merge_probs_variant_b p c sat top ≡ merge_probs sat top c binary_tree p
unfolding merge_probs_variant_b merge_probs total
variant_b-eq p c sat top = refl

variant_c-eq :
    (p c : List ℕ)
    → total c inter_mode_tree < u32_mod
    → merge_probs_variant_c p c ≡ merge_probs 20 128 c inter_mode_tree p
unfolding merge_probs_variant_c merge_probs total noncoef_merge_prob
variant_c-eq p c h =
    let a : u32 (at c 1 + at c 0 + at c 3) ≡ at c 0 + (at c 1 + at c 3) = omega arith in
    let b : u32 (at c 1 + at c 3) ≡ at c 1 + at c 3 = omega arith in rw (a, b)

variant_e-eq :
    (p c : List ℕ)
    → total c partition_tree < u32_mod
    → merge_probs_variant_e p c ≡ merge_probs 20 128 c partition_tree p
unfolding merge_probs_variant_e merge_probs total noncoef_merge_prob
variant_e-eq p c h =
    let a : u32 (at c 1 + at c 2 + at c 3) ≡ at c 1 + (at c 2 + at c 3) = omega arith in
    let b : u32 (at c 2 + at c 3) ≡ at c 2 + at c 3 = omega arith in rw (a, b)

variant_f-eq :
    (p c : List ℕ)
    → total c interp_filter_tree < u32_mod
    → merge_probs_variant_f p c ≡ merge_probs 20 128 c interp_filter_tree p
unfolding merge_probs_variant_f merge_probs total noncoef_merge_prob
variant_f-eq p c h = let a : u32 (at c 1 + at c 2) ≡ at c 1 + at c 2 = omega arith in rw a

variant_d-eq :
    (p c : List ℕ)
    → total c intra_mode_tree < u32_mod
    → merge_probs_variant_d p c ≡ merge_probs 20 128 c intra_mode_tree p
unfolding merge_probs_variant_d merge_probs total noncoef_merge_prob
variant_d-eq p c h =
    let t78 = at c 8 + (at c 6 + at c 7) in
    let t6 = at c 3 + t78 in
    let t4 = at c 4 + at c 5 in
    let t3 = at c 2 + t4 + t6 in
    let t2 = at c 1 + t3 in
    let s0 : u32 (at c 1 + at c 2 + at c 3 + at c 4 + at c 5 + at c 6 + at c 7 + at c 8 + at c 9)
        ≡ at c 9 + t2 =
      omega arith in
    let s1 : sub_u32 (at c 9 + t2) (at c 9) ≡ t2 = omega arith in
    let s2 : sub_u32 t2 (at c 1) ≡ t3 = omega arith in
    let s3 : u32 (at c 2 + at c 4 + at c 5) ≡ at c 2 + t4 = omega arith in
    let s4 : sub_u32 t3 (at c 2 + t4) ≡ t6 = omega arith in
    let s5 : sub_u32 (at c 2 + t4) (at c 2) ≡ t4 = omega arith in
    let s6 : sub_u32 t6 (at c 3) ≡ t78 = omega arith in
    let s7 : sub_u32 t78 (at c 8) ≡ at c 6 + at c 7 = omega arith in
    rw (s0, s1, s2, s3, s4, s5, s6, s7)

variant_g-eq :
    (p c : List ℕ)
    → total c mv_class_tree < u32_mod
    → merge_probs_variant_g p c ≡ merge_probs 20 128 c mv_class_tree p
unfolding merge_probs_variant_g merge_probs total noncoef_merge_prob
variant_g-eq p c h =
    let t7 = at c 7 + at c 8 + (at c 9 + at c 10) in
    let t6 = at c 6 + t7 in
    let t4 = at c 4 + at c 5 + t6 in
    let t2 = at c 2 + at c 3 + t4 in
    let s0 : u32
          (at c 1 + at c 2 + at c 3 + at c 4 + at c 5 + at c 6 + at c 7 + at c 8 + at c 9 + at c 10)
        ≡ at c 1 + t2 =
      omega arith in
    let s1 : sub_u32 (at c 1 + t2) (at c 1) ≡ t2 = omega arith in
    let s2 : u32 (at c 2 + at c 3) ≡ at c 2 + at c 3 = omega arith in
    let s3 : sub_u32 t2 (at c 2 + at c 3) ≡ t4 = omega arith in
    let s4 : u32 (at c 4 + at c 5) ≡ at c 4 + at c 5 = omega arith in
    let s5 : sub_u32 t4 (at c 4 + at c 5) ≡ t6 = omega arith in
    let s6 : sub_u32 t6 (at c 6) ≡ t7 = omega arith in
    let s7 : u32 (at c 7 + at c 8) ≡ at c 7 + at c 8 = omega arith in
    let s8 : u32 (at c 9 + at c 10) ≡ at c 9 + at c 10 = omega arith in
    rw (s0, s1, s2, s3, s4, s5, s6, s7, s8)

-- A shape's code, its tree and the process it runs.
pub data Shape : Type 0 where
  small_token binary : ℕ → ℕ → Shape
  inter_modes intra_modes partitions interp_filters mv_classes : Shape

unfoldable pub tree : Shape → Tree
tree (small_token sat top) = small_token_tree
tree (binary sat top) = binary_tree
tree inter_modes = inter_mode_tree
tree intra_modes = intra_mode_tree
tree partitions = partition_tree
tree interp_filters = interp_filter_tree
tree mv_classes = mv_class_tree

pub unrolled : Shape → List ℕ → List ℕ → List ℕ
unrolled (small_token sat top) p c = merge_probs_variant_a p c sat top
unrolled (binary sat top) p c = merge_probs_variant_b p c sat top
unrolled inter_modes p c = merge_probs_variant_c p c
unrolled intra_modes p c = merge_probs_variant_d p c
unrolled partitions p c = merge_probs_variant_e p c
unrolled interp_filters p c = merge_probs_variant_f p c
unrolled mv_classes p c = merge_probs_variant_g p c

-- The saturation of the counts and the update factor.
pub process : Shape → ℕ × ℕ
process (small_token sat top) = (sat, top)
process (binary sat top) = (sat, top)
process inter_modes = (20, 128)
process intra_modes = (20, 128)
process partitions = (20, 128)
process interp_filters = (20, 128)
process mv_classes = (20, 128)

-- For each of the seven shapes of tree: where the counts of the tree add up to less than 2 ^ 32, the
-- unrolled code, with its wrapping running sums, merges as the recursion of the VP9 specification over
-- the tree does.
pub unrolled-eq-merge_probs :
    (s : Shape) (p c : List ℕ)
    → total c (tree s) < u32_mod
    → unrolled s p c ≡ merge_probs (process s).0 (process s).1 c (tree s) p
unfolding unrolled tree process
unrolled-eq-merge_probs (small_token sat top) p c h = variant_a-eq p c sat top h
unrolled-eq-merge_probs (binary sat top) p c h = variant_b-eq p c sat top
unrolled-eq-merge_probs inter_modes p c h = variant_c-eq p c h
unrolled-eq-merge_probs intra_modes p c h = variant_d-eq p c h
unrolled-eq-merge_probs partitions p c h = variant_e-eq p c h
unrolled-eq-merge_probs interp_filters p c h = variant_f-eq p c h
unrolled-eq-merge_probs mv_classes p c h = variant_g-eq p c h
