-- ===== src/Vp9/Tests.antt =====
-- The VP9 probabilities at a context of equal entries with the dimensions of the kernel's structure.
use h618_vpu_port.Base.{
  ℕ, zero, suc, ◌≤◌, ◌≡◌, List, [], ◌∷◌, true, false, All, get_or, if◌then◌else◌, arith,
}
use h618_vpu_port.Vp9.Prob.{update_prob, merge_prob}
use h618_vpu_port.Vp9.Prob.Recenter.{delta_of, update_prob_inverse}
use h618_vpu_port.Vp9.Prob.Merge.{rounded_merge, merge_prob-eq-rounded_merge}
use h618_vpu_port.Vp9.Variants.Trees.{
  intra_modes, tree, total, unrolled, process, merge_probs, unrolled-eq-merge_probs,
}
use h618_vpu_port.Vp9.Context.{FrameContext, Frame, AllContext}
use h618_vpu_port.Vp9.Update.{CompressedHdr, reset_frame_ctx}
use h618_vpu_port.Vp9.Update.Reset.{gets_defaults, reset_frame_ctx_contexts}
use h618_vpu_port.Vp9.Adapt.{SymbolCounts}

abbrev pub fill {ℓ} : {A : Type ℓ} → ℕ → A → List A
fill zero x = []
fill (suc n) x = x ∷ fill n x

pub fill-All {ℓ κ} : {A : Type ℓ} (P : A → Type κ) (n : ℕ) (x : A) → P x → All P (fill n x)
fill-All P zero x h = tt
fill-All P (suc n) x h = (h, fill-All P n x h)

abbrev pub context : ℕ → FrameContext
context v = record {
  tx8 = fill 2 (fill 1 v);
  tx16 = fill 2 (fill 2 v);
  tx32 = fill 2 (fill 3 v);
  coef = fill 4 (fill 2 (fill 2 (fill 6 (fill 6 (fill 3 v)))));
  skip = fill 3 v;
  inter_mode = fill 7 (fill 3 v);
  interp_filter = fill 4 (fill 2 v);
  is_inter = fill 4 v;
  comp_mode = fill 5 v;
  single_ref = fill 5 (fill 2 v);
  comp_ref = fill 5 v;
  y_mode = fill 4 (fill 9 v);
  uv_mode = fill 10 (fill 9 v);
  partition = fill 16 (fill 3 v);
  mv = record {
    joint = fill 3 v;
    sign = fill 2 v;
    classes = fill 2 (fill 10 v);
    class0_bit = fill 2 v;
    bits = fill 2 (fill 10 v);
    class0_fr = fill 2 (fill 2 (fill 3 v));
    fr = fill 2 (fill 3 v);
    class0_hp = fill 2 v;
    hp = fill 2 v;
  };
}

pub context-All : (P : ℕ → Type 0) (v : ℕ) → P v → AllContext P (context v)
context-All P v h =
    let one : (n : ℕ) → All P (fill n v) = λ n. fill-All P n v h in
    let two : (m n : ℕ) → All (All P) (fill m (fill n v)) =
      λ m n. fill-All (All P) m (fill n v) (one n) in
    let bands = fill-All (All (All P)) 6 (fill 6 (fill 3 v)) (two 6 3) in
    let kinds = fill-All (All (All (All P))) 2 (fill 6 (fill 6 (fill 3 v))) bands in
    let planes = fill-All (All (All (All (All P)))) 2 (fill 2 (fill 6 (fill 6 (fill 3 v)))) kinds in
    let sizes =
      fill-All (All (All (All (All (All P))))) 4 (fill 2 (fill 2 (fill 6 (fill 6 (fill 3 v)))))
        planes in
    (
      (two 2 1, two 2 2, two 2 3, sizes, one 3),
      (
        two 7 3,
        two 4 2,
        one 4,
        one 5,
        two 5 2,
        one 5,
        two 4 9,
        two 10 9,
        two 16 3,
        (
          one 3,
          one 2,
          two 2 10,
          one 2,
          two 2 10,
          fill-All (All (All P)) 2 (fill 2 (fill 3 v)) (two 2 3),
          two 2 3,
          one 2,
          one 2,
        ),
      ),
    )

abbrev pub counts : SymbolCounts
counts = record {
  partition = fill 16 (fill 4 9);
  skip = fill 3 (fill 2 9);
  intra_inter = fill 4 (fill 2 9);
  tx32p = fill 2 (fill 4 9);
  tx16p = fill 2 (fill 4 9);
  tx8p = fill 2 (fill 2 9);
  y_mode = fill 4 (fill 10 9);
  uv_mode = fill 10 (fill 10 9);
  comp = fill 5 (fill 2 9);
  comp_ref = fill 5 (fill 2 9);
  single_ref = fill 5 (fill 2 (fill 2 9));
  mv_mode = fill 7 (fill 4 9);
  filter = fill 4 (fill 3 9);
  mv_joint = fill 4 9;
  sign = fill 2 (fill 2 9);
  classes = fill 2 (fill 11 9);
  class0 = fill 2 (fill 2 9);
  bits = fill 2 (fill 10 (fill 2 9));
  class0_fp = fill 2 (fill 2 (fill 4 9));
  fp = fill 2 (fill 4 9);
  class0_hp = fill 2 (fill 2 9);
  hp = fill 2 (fill 2 9);
  coef =
      fill 4 (fill 2 (fill 2 (fill 6 (fill 6 (record { eob = 30 ∷ 20 ∷ []; coeff = fill 3 9 })))));
}

abbrev pub inter_frame : Frame
inter_frame = record {
  key_frame = false;
  intra_only = false;
  error_resilient = false;
  allow_high_prec_mv = true;
  interpolation_filter = 4;
  reference_mode = 2;
  reset_frame_context = 0;
  frame_context_idx = 1;
}

abbrev intra_frame : Frame
intra_frame = record inter_frame { intra_only = true; reset_frame_context = 1 }

abbrev pub hdr : CompressedHdr
hdr = record { tx_mode = 2; deltas = context 3 }

update_prob_inverse_example :
    (update_prob (delta_of 200 128) 128 ≡ 200)
    × (delta_of 200 128 ≤ 254)
    × (delta_of (update_prob 7 128) 128 ≡ 7)
update_prob_inverse_example =
    update_prob_inverse 200 7 128 (omega arith, omega arith) (omega arith)
      (omega arith, omega arith)

merge_prob-eq-rounded_merge_example : merge_prob 128 10 3 24 112 ≡ rounded_merge 128 10 3 24 112
merge_prob-eq-rounded_merge_example =
    merge_prob-eq-rounded_merge 128 10 3 24 112 (omega arith, omega arith, omega arith)
      (omega arith, omega arith) (omega arith) (omega arith)

unrolled-eq-merge_probs_example :
    unrolled intra_modes (fill 9 128) (1 ∷ 2 ∷ 3 ∷ 4 ∷ 5 ∷ 6 ∷ 7 ∷ 8 ∷ 9 ∷ 10 ∷ [])
    ≡ merge_probs
        (process intra_modes).0
        (process intra_modes).1
        (1 ∷ 2 ∷ 3 ∷ 4 ∷ 5 ∷ 6 ∷ 7 ∷ 8 ∷ 9 ∷ 10 ∷ [])
        (tree intra_modes)
        (fill 9 128)
unfolding tree total
unrolled-eq-merge_probs_example =
    unrolled-eq-merge_probs intra_modes (fill 9 128) (1 ∷ 2 ∷ 3 ∷ 4 ∷ 5 ∷ 6 ∷ 7 ∷ 8 ∷ 9 ∷ 10 ∷ [])
      (omega arith)

reset_frame_ctx_contexts_example :
    get_or (reset_frame_ctx (context 1) intra_frame (fill 4 (context 128))).1 1 (context 0) ≡ (
      if gets_defaults intra_frame 1
      then context 1
      else get_or (fill 4 (context 128)) 1 (context 0))
reset_frame_ctx_contexts_example =
    reset_frame_ctx_contexts (context 1) (context 0) intra_frame (fill 4 (context 128)) 1
      (omega arith)
