-- ===== src/Vp9/Adapt.antt =====
-- cedrus-v4l2/cedrus_vp9_helper.c: the backward adaptation of the probabilities by the symbol counts
-- of the frame that was decoded. The counts are the values that the pointers of
-- struct v4l2_vp9_frame_symbol_counts lead to.
pub mod Safety
use h618_vpu_port.Base.{
  ℕ, suc, Bool, not, if◌then◌else◌, ◌==◌, leb, List, [], ◌∷◌, ◌*◌, ◌^◌, ◌/◌, ◌%◌, get_or, bit_and,
  sub_u32,
}
use h618_vpu_port.Vp9.Prob.{noncoef_merge_prob}
use h618_vpu_port.Vp9.Variants.{
  at, merge_probs_variant_a, merge_probs_variant_b, merge_probs_variant_c, merge_probs_variant_d,
  merge_probs_variant_e, merge_probs_variant_f, merge_probs_variant_g,
}
use h618_vpu_port.Vp9.Context.{
  FrameContext, MvProbs, band_6, tx_mode_select, interp_filter_switchable, reference_mode_compound,
}
use h618_vpu_port.Vp9.Context.Rows.{update_with, update_first}

-- eob[i][j][k][l][m] and coeff[i][j][k][l][m]
pub record CoefCounts : Type 0 where
  pub eob : List ℕ
  pub coeff : List ℕ

pub record SymbolCounts : Type 0 where
  pub partition : List (List ℕ)
  pub skip : List (List ℕ)
  pub intra_inter : List (List ℕ)
  pub tx32p : List (List ℕ)
  pub tx16p : List (List ℕ)
  pub tx8p : List (List ℕ)
  pub y_mode : List (List ℕ)
  pub uv_mode : List (List ℕ)
  pub comp : List (List ℕ)
  pub comp_ref : List (List ℕ)
  pub single_ref : List (List (List ℕ))
  pub mv_mode : List (List ℕ)
  pub filter : List (List ℕ)
  pub mv_joint : List ℕ
  pub sign : List (List ℕ)
  pub classes : List (List ℕ)
  pub class0 : List (List ℕ)
  pub bits : List (List (List ℕ))
  pub class0_fp : List (List (List ℕ))
  pub fp : List (List ℕ)
  pub class0_hp : List (List ℕ)
  pub hp : List (List ℕ)
  pub coef : List (List (List (List (List CoefCounts))))

-- The three probabilities of one coefficient context.
pub adapt_context : ℕ → List ℕ → CoefCounts → List ℕ
adapt_context uf p c =
    let counts_more_coefs = at c.eob 1 ∷ sub_u32 (at c.eob 0) (at c.eob 1) ∷ [] in
    let p = merge_probs_variant_a p c.coeff 24 uf in merge_probs_variant_b p counts_more_coefs 24 uf

-- `l` is the index of the first band of the rest.
pub adapt_coeff : ℕ → ℕ → List (List (List ℕ)) → List (List CoefCounts) → List (List (List ℕ))
adapt_coeff uf l [] cs = []
adapt_coeff uf l (p ∷ ps) [] = p ∷ ps
adapt_coeff uf l (p ∷ ps) (c ∷ cs) =
    update_first (band_6 l) (adapt_context uf) p c ∷ adapt_coeff uf (suc l) ps cs

pub update_factor : Bool → Bool → ℕ
update_factor use_128 frame_is_intra = if frame_is_intra then 112 else if use_128 then 128 else 112

pub adapt_coef_probs : FrameContext → SymbolCounts → Bool → Bool → FrameContext
adapt_coef_probs probs counts use_128 frame_is_intra =
    let uf = update_factor use_128 frame_is_intra in
    record probs {
      coef = update_with (update_with (update_with (adapt_coeff uf 0))) probs.coef counts.coef;
    }

pub adapt_prob : ℕ → List ℕ → ℕ
adapt_prob prob counts = noncoef_merge_prob prob (at counts 0) (at counts 1)

abbrev pub adapt_row : List ℕ → List (List ℕ) → List ℕ
adapt_row = update_with adapt_prob

-- adapt_probs_variant_b
abbrev pub adapt_binary : List ℕ → List ℕ → List ℕ
adapt_binary p c = merge_probs_variant_b p c 20 128

-- The loop over the two components treats each array by itself.
pub adapt_mv_probs : Bool → MvProbs → SymbolCounts → MvProbs
adapt_mv_probs high_prec p c = record {
  joint = merge_probs_variant_e p.joint c.mv_joint;
  sign = adapt_row p.sign c.sign;
  classes = update_with merge_probs_variant_g p.classes c.classes;
  class0_bit = adapt_row p.class0_bit c.class0;
  bits = update_with adapt_row p.bits c.bits;
  class0_fr = update_with (update_with merge_probs_variant_e) p.class0_fr c.class0_fp;
  fr = update_with merge_probs_variant_e p.fr c.fp;
  class0_hp = if high_prec then adapt_row p.class0_hp c.class0_hp else p.class0_hp;
  hp = if high_prec then adapt_row p.hp c.hp else p.hp;
}

-- `high_prec` is V4L2_VP9_FRAME_FLAG_ALLOW_HIGH_PREC_MV of `flags`.
pub adapt_noncoef_probs : FrameContext → SymbolCounts → ℕ → ℕ → ℕ → Bool → FrameContext
adapt_noncoef_probs p c reference_mode interpolation_filter tx_mode high_prec = record {
  is_inter = adapt_row p.is_inter c.intra_inter;
  comp_mode = adapt_row p.comp_mode c.comp;
  comp_ref = adapt_row p.comp_ref c.comp_ref;
  single_ref =
      if not (reference_mode == reference_mode_compound)
      then update_with adapt_row p.single_ref c.single_ref
      else p.single_ref;
  inter_mode = update_with merge_probs_variant_c p.inter_mode c.mv_mode;
  y_mode = update_with merge_probs_variant_d p.y_mode c.y_mode;
  uv_mode = update_with merge_probs_variant_d p.uv_mode c.uv_mode;
  partition = update_with merge_probs_variant_e p.partition c.partition;
  skip = adapt_row p.skip c.skip;
  interp_filter =
      if interpolation_filter == interp_filter_switchable
      then update_with merge_probs_variant_f p.interp_filter c.filter
      else p.interp_filter;
  tx8 = if tx_mode == tx_mode_select then update_with adapt_binary p.tx8 c.tx8p else p.tx8;
  tx16 =
      if tx_mode == tx_mode_select
      then update_with merge_probs_variant_f p.tx16 c.tx16p
      else p.tx16;
  tx32 =
      if tx_mode == tx_mode_select
      then update_with merge_probs_variant_e p.tx32 c.tx32p
      else p.tx32;
  mv = adapt_mv_probs high_prec p.mv c;
  coef = p.coef;
}

-- V4L2_VP9_SEGMENT_FEATURE_ENABLED(feature) is 1 << feature, stored in a u8.
pub seg_feat_enabled : List ℕ → ℕ → ℕ → Bool
seg_feat_enabled feature_enabled feature segid =
    not (bit_and (get_or feature_enabled segid 0) (2 ^ feature % 256) == 0)
