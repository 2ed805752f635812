-- ===== src/Vp9/Update/Safety.antt =====
-- The forward update keeps every entry of a frame context a probability.
use h618_vpu_port.Base.{
  ℕ, suc, ◌≤◌, Bool, true, false, Bool-cases, inl, inr, not, ◌||◌, if◌then◌else◌, ◌==◌, [], ◌∷◌,
  All, arith,
}
use h618_vpu_port.Vp9.Prob.Recenter.{IsProb, update_prob-IsProb}
use h618_vpu_port.Vp9.Context.{
  FrameContext, Frame, band_6, tx_mode_select, interp_filter_switchable, reference_mode_single,
  reference_mode_compound, reference_mode_select, AllMv, AllContext,
}
use h618_vpu_port.Vp9.Context.Rows.{update_with-All, update_first-All, Keeps}
use h618_vpu_port.Vp9.Update.{
  CompressedHdr, update_row, update_rows, update_tx_probs, update_coeff, update_coef_probs,
  update_frame_reference_mode_probs, update_mv_prob, update_mv_row, update_mv_probs,
  update_common_probs, update_inter_probs, fw_update_probs,
}

-- The delta of an update, as inv_map_table of the bitstream gives it.
abbrev pub IsDelta : ℕ → Type 0
IsDelta d = d ≤ 254

row-All : Keeps (All IsProb) (All IsDelta) update_row
row-All = update_with-All _ (λ p d a b. update_prob-IsProb d p b a)

rows-All : Keeps (All (All IsProb)) (All (All IsDelta)) update_rows
rows-All = update_with-All _ row-All

coeff-All : (l : ℕ) → Keeps (All (All (All IsProb))) (All (All (All IsDelta))) (update_coeff l)
unfolding update_coeff
coeff-All l [] ds p q = tt
coeff-All l (x ∷ ps) [] p q = p
coeff-All l (x ∷ ps) (y ∷ ds) p q =
    (update_first-All _ row-All (band_6 l) x y p.0 q.0, coeff-All (suc l) ps ds p.1 q.1)

coef-All :
    (tx_mode i : ℕ)
    → Keeps
        (All (All (All (All (All (All IsProb))))))
        (All (All (All (All (All (All IsDelta))))))
        (update_coef_probs tx_mode i)
unfolding update_coef_probs
coef-All tx_mode i [] ds p q = tt
coef-All tx_mode i (x ∷ ps) [] p q = p
coef-All tx_mode i (x ∷ ps) (y ∷ ds) p q =
    let head = update_with-All _ (update_with-All _ (coeff-All 0)) x y p.0 q.0 in
    let rest = coef-All tx_mode (suc i) ps ds p.1 q.1 in
    elim (Bool-cases (tx_mode == i)) [ inl e ↦ (head, rw e p.1) | inr e ↦ (head, rw e rest) ]

update_mv_prob-IsProb : Keeps IsProb IsDelta (λ p d. update_mv_prob d p)
unfolding update_mv_prob
update_mv_prob-IsProb p d a b = ground arith

mv_row-All : Keeps (All IsProb) (All IsDelta) update_mv_row
mv_row-All = update_with-All _ update_mv_prob-IsProb

-- A choice between two values that both have the predicate.
pub either_way {ℓ κ} :
    {A : Type ℓ} (P : A → Type κ) (b : Bool) {x y : A} → P x → P y → P (if b then x else y)
either_way P true p q = p
either_way P false p q = q

mv-All : (high_prec : Bool) → Keeps (AllMv IsProb) (AllMv IsDelta) (update_mv_probs high_prec)
unfolding update_mv_probs
mv-All h p d a b = (
  mv_row-All _ _ a.0 b.0,
  mv_row-All _ _ a.1 b.1,
  update_with-All _ mv_row-All _ _ a.2 b.2,
  mv_row-All _ _ a.3 b.3,
  update_with-All _ mv_row-All _ _ a.4 b.4,
  update_with-All _ (update_with-All _ mv_row-All) _ _ a.5 b.5,
  update_with-All _ mv_row-All _ _ a.6 b.6,
  either_way (All IsProb) h (mv_row-All _ _ a.7 b.7) a.7,
  either_way (All IsProb) h (mv_row-All _ _ a.8 b.8) a.8,
)

common-All :
    (probs : FrameContext) (hdr : CompressedHdr)
    → AllContext IsProb probs
    → AllContext IsDelta hdr.deltas
    → AllContext IsProb (update_common_probs probs hdr)
unfolding update_common_probs update_tx_probs
common-All probs hdr p d =
    let coef = coef-All hdr.tx_mode 0 probs.coef hdr.deltas.coef p.0.3 d.0.3 in
    let skip = row-All probs.skip hdr.deltas.skip p.0.4 d.0.4 in
    elim (Bool-cases (hdr.tx_mode == tx_mode_select)) [
      | inl e ↦ rw e (
        (
          rows-All probs.tx8 hdr.deltas.tx8 p.0.0 d.0.0,
          rows-All probs.tx16 hdr.deltas.tx16 p.0.1 d.0.1,
          rows-All probs.tx32 hdr.deltas.tx32 p.0.2 d.0.2,
          coef,
          skip,
        ),
        p.1,
      )
      | inr e ↦ rw e ((p.0.0, p.0.1, p.0.2, coef, skip), p.1)
    ]

inter-All :
    (probs deltas : FrameContext) (dec_params : Frame)
    → AllContext IsProb probs
    → AllContext IsDelta deltas
    → AllContext IsProb (update_inter_probs probs deltas dec_params)
unfolding update_inter_probs update_frame_reference_mode_probs
inter-All probs deltas f p d =
    let (a0, a1, a2, a3, a4, a5, a6, a7, a8, a9) = p.1 in
    let (b0, b1, b2, b3, b4, b5, b6, b7, b8, b9) = d.1 in
    (
      p.0,
      (
        rows-All probs.inter_mode deltas.inter_mode a0 b0,
        either_way (All (All IsProb)) (f.interpolation_filter == interp_filter_switchable)
            (rows-All probs.interp_filter deltas.interp_filter a1 b1) a1,
        row-All probs.is_inter deltas.is_inter a2 b2,
        either_way (All IsProb) (f.reference_mode == reference_mode_select)
            (row-All probs.comp_mode deltas.comp_mode a3 b3) a3,
        either_way (All (All IsProb)) (not (f.reference_mode == reference_mode_compound))
            (rows-All probs.single_ref deltas.single_ref a4 b4) a4,
        either_way (All IsProb) (not (f.reference_mode == reference_mode_single))
            (row-All probs.comp_ref deltas.comp_ref a5 b5) a5,
        rows-All probs.y_mode deltas.y_mode a6 b6,
        a7,
        rows-All probs.partition deltas.partition a8 b8,
        mv-All f.allow_high_prec_mv probs.mv deltas.mv a9 b9,
      ),
    )

-- Where every probability of the context is from 1 to 255 and every delta is at most 254, every
-- probability of the context that the forward update leaves is from 1 to 255, whatever the frame is.
pub fw_update_probs-IsProb :
    (probs : FrameContext) (hdr : CompressedHdr) (dec_params : Frame)
    → AllContext IsProb probs
    → AllContext IsDelta hdr.deltas
    → AllContext IsProb (fw_update_probs probs hdr dec_params)
unfolding fw_update_probs
fw_update_probs-IsProb probs hdr f p d =
    let common = common-All probs hdr p d in
    elim (Bool-cases (f.key_frame || f.intra_only)) [
      | inl e ↦ rw e common
      | inr e ↦ rw e (inter-All (update_common_probs probs hdr) hdr.deltas f common d)
    ]
