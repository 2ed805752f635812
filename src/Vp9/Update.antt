-- ===== src/Vp9/Update.antt =====
-- cedrus-v4l2/cedrus_vp9_helper.c: the forward update of the probabilities by the compressed header,
-- and the reset of the saved contexts.
pub mod Safety
pub mod Scope
pub mod Reset
use h618_vpu_port.Base.{ℕ, suc, Bool, not, ◌||◌, if◌then◌else◌, ◌==◌, List, [], ◌∷◌, set, map}
use h618_vpu_port.Vp9.Prob.{update_prob}
use h618_vpu_port.Vp9.Context.{
  FrameContext, MvProbs, Frame, band_6, tx_mode_select, interp_filter_switchable,
  reference_mode_single, reference_mode_compound, reference_mode_select, reset_frame_ctx_spec,
  reset_frame_ctx_all,
}
use h618_vpu_port.Vp9.Context.Rows.{update_with, update_first}

-- struct v4l2_ctrl_vp9_compressed_hdr: the mode and a delta for each probability.
pub record CompressedHdr : Type 0 where
  pub tx_mode : ℕ
  pub deltas : FrameContext

-- probs[i] = update_prob(deltas[i], probs[i])
abbrev pub update_row : List ℕ → List ℕ → List ℕ
update_row = update_with (λ p d. update_prob d p)

abbrev pub update_rows : List (List ℕ) → List (List ℕ) → List (List ℕ)
update_rows = update_with update_row

pub update_tx_probs : FrameContext → FrameContext → FrameContext
update_tx_probs probs deltas = record probs {
  tx8 = update_rows probs.tx8 deltas.tx8;
  tx16 = update_rows probs.tx16 deltas.tx16;
  tx32 = update_rows probs.tx32 deltas.tx32;
}

-- `l` is the index of the first band of the rest.
pub update_coeff : ℕ → List (List (List ℕ)) → List (List (List ℕ)) → List (List (List ℕ))
update_coeff l [] ds = []
update_coeff l (p ∷ ps) [] = p ∷ ps
update_coeff l (p ∷ ps) (d ∷ ds) =
    update_first (band_6 l) update_row p d ∷ update_coeff (suc l) ps ds

abbrev pub update_size :
    List (List (List (List (List ℕ))))
    → List (List (List (List (List ℕ))))
    → List (List (List (List (List ℕ))))
update_size = update_with (update_with (update_coeff 0))

-- `i` is the transform size of the first row of the rest; the loop ends after that of `tx_mode`.
pub update_coef_probs :
    ℕ
    → ℕ
    → List (List (List (List (List (List ℕ)))))
    → List (List (List (List (List (List ℕ)))))
    → List (List (List (List (List (List ℕ)))))
update_coef_probs tx_mode i [] ds = []
update_coef_probs tx_mode i (p ∷ ps) [] = p ∷ ps
update_coef_probs tx_mode i (p ∷ ps) (d ∷ ds) =
    let rest = update_coef_probs tx_mode (suc i) ps ds in
    update_size p d ∷ (if tx_mode == i then ps else rest)

pub update_frame_reference_mode_probs : ℕ → FrameContext → FrameContext → FrameContext
update_frame_reference_mode_probs reference_mode probs deltas = record probs {
  comp_mode =
      if reference_mode == reference_mode_select
      then update_row probs.comp_mode deltas.comp_mode
      else probs.comp_mode;
  single_ref =
      if not (reference_mode == reference_mode_compound)
      then update_rows probs.single_ref deltas.single_ref
      else probs.single_ref;
  comp_ref =
      if not (reference_mode == reference_mode_single)
      then update_row probs.comp_ref deltas.comp_ref
      else probs.comp_ref;
}

pub update_mv_prob : ℕ → ℕ → ℕ
update_mv_prob delta prob = if delta == 0 then prob else delta

abbrev pub update_mv_row : List ℕ → List ℕ → List ℕ
update_mv_row = update_with (λ p d. update_mv_prob d p)

-- The loop over the two components treats each array by itself.
pub update_mv_probs : Bool → MvProbs → MvProbs → MvProbs
update_mv_probs high_prec p d = record {
  joint = update_mv_row p.joint d.joint;
  sign = update_mv_row p.sign d.sign;
  classes = update_with update_mv_row p.classes d.classes;
  class0_bit = update_mv_row p.class0_bit d.class0_bit;
  bits = update_with update_mv_row p.bits d.bits;
  class0_fr = update_with (update_with update_mv_row) p.class0_fr d.class0_fr;
  fr = update_with update_mv_row p.fr d.fr;
  class0_hp = if high_prec then update_mv_row p.class0_hp d.class0_hp else p.class0_hp;
  hp = if high_prec then update_mv_row p.hp d.hp else p.hp;
}

-- The part of every frame.
pub update_common_probs : FrameContext → CompressedHdr → FrameContext
update_common_probs probs hdr =
    let probs = if hdr.tx_mode == tx_mode_select then update_tx_probs probs hdr.deltas else probs in
    record probs {
      coef = update_coef_probs hdr.tx_mode 0 probs.coef hdr.deltas.coef;
      skip = update_row probs.skip hdr.deltas.skip;
    }

-- The part of inter frames.
pub update_inter_probs : FrameContext → FrameContext → Frame → FrameContext
update_inter_probs probs deltas dec_params =
    let probs = record probs {
      inter_mode = update_rows probs.inter_mode deltas.inter_mode;
      interp_filter =
          if dec_params.interpolation_filter == interp_filter_switchable
          then update_rows probs.interp_filter deltas.interp_filter
          else probs.interp_filter;
      is_inter = update_row probs.is_inter deltas.is_inter;
    } in
    let probs = update_frame_reference_mode_probs dec_params.reference_mode probs deltas in
    record probs {
      y_mode = update_rows probs.y_mode deltas.y_mode;
      partition = update_rows probs.partition deltas.partition;
      mv = update_mv_probs dec_params.allow_high_prec_mv probs.mv deltas.mv;
    }

pub fw_update_probs : FrameContext → CompressedHdr → Frame → FrameContext
fw_update_probs probs hdr dec_params =
    let probs = update_common_probs probs hdr in
    if dec_params.key_frame || dec_params.intra_only
    then probs
    else update_inter_probs probs hdr.deltas dec_params

-- `defaults` are the 2033 bytes of cedrus_vp9_default_probs. The result is the index and the contexts.
pub reset_frame_ctx {ℓ} : {A : Type ℓ} → A → Frame → List A → ℕ × List A
reset_frame_ctx defaults dec_params frame_context =
    if dec_params.key_frame || dec_params.intra_only || dec_params.error_resilient
    then (
      0,
      if dec_params.key_frame
            || dec_params.error_resilient
            || dec_params.reset_frame_context == reset_frame_ctx_all
          then map (λ c. defaults) frame_context
          else if dec_params.reset_frame_context == reset_frame_ctx_spec
          then set frame_context dec_params.frame_context_idx defaults
          else frame_context,
    )
    else (dec_params.frame_context_idx, frame_context)
