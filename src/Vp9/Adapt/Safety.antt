-- ===== src/Vp9/Adapt/Safety.antt =====
-- The backward adaptation keeps every entry of a frame context a probability, whatever the counts are.
use h618_vpu_port.Base.{ℕ, zero, suc, Bool, not, ◌==◌, List, [], ◌∷◌, All, arith}
use h618_vpu_port.Vp9.Prob.{noncoef_merge_prob}
use h618_vpu_port.Vp9.Prob.Recenter.{IsProb}
use h618_vpu_port.Vp9.Update.Safety.{either_way}
use h618_vpu_port.Vp9.Prob.Merge.{IsProcess, merge_prob-IsProb}
use h618_vpu_port.Vp9.Variants.{
  merge_at, noncoef_at, merge_probs_variant_b, merge_probs_variant_c, merge_probs_variant_d,
  merge_probs_variant_e, merge_probs_variant_f, merge_probs_variant_g,
}
use h618_vpu_port.Vp9.Context.{
  FrameContext, MvProbs, tx_mode_select, interp_filter_switchable, reference_mode_compound, AllMv,
  AllContext,
}
use h618_vpu_port.Vp9.Context.Rows.{update_with, update_with-All, All-intro, Keeps}
use h618_vpu_port.Vp9.Adapt.{
  SymbolCounts, adapt_prob, adapt_row, adapt_binary, adapt_mv_probs, adapt_noncoef_probs,
}

-- Any count.
abbrev Any {ℓ} : {A : Type ℓ} → A → Type 0
Any x = Unit

merge_at-IsProb :
    (sat top i ct0 ct1 : ℕ) (p : List ℕ)
    → IsProcess sat top
    → All IsProb p
    → All IsProb (merge_at sat top i ct0 ct1 p)
merge_at-IsProb sat top i ct0 ct1 [] k h = tt
merge_at-IsProb sat top zero ct0 ct1 (x ∷ p) k h = (merge_prob-IsProb x ct0 ct1 sat top k h.0, h.1)
merge_at-IsProb sat top (suc i) ct0 ct1 (x ∷ p) k h =
    (h.0, merge_at-IsProb sat top i ct0 ct1 p k h.1)

noncoef : (i ct0 ct1 : ℕ) (p : List ℕ) → All IsProb p → All IsProb (noncoef_at i ct0 ct1 p)
unfolding noncoef_merge_prob
noncoef i ct0 ct1 p h = merge_at-IsProb 20 128 i ct0 ct1 p (omega arith, omega arith, omega arith) h

variant_b-All :
    (p c : List ℕ) (sat top : ℕ)
    → IsProcess sat top
    → All IsProb p
    → All IsProb (merge_probs_variant_b p c sat top)
unfolding merge_probs_variant_b
variant_b-All p c sat top k h = merge_at-IsProb sat top 0 _ _ p k h

variant_c-All : Keeps (All IsProb) Any merge_probs_variant_c
unfolding merge_probs_variant_c
variant_c-All p c h u = noncoef 2 _ _ _ (noncoef 1 _ _ _ (noncoef 0 _ _ p h))

variant_d-All : Keeps (All IsProb) Any merge_probs_variant_d
unfolding merge_probs_variant_d
variant_d-All p c h u = noncoef 8 _ _ _ (
    noncoef 7 _ _ _ (
      noncoef 6 _ _ _ (
        noncoef 5 _ _ _ (
          noncoef 4 _ _ _
            (noncoef 3 _ _ _ (noncoef 2 _ _ _ (noncoef 1 _ _ _ (noncoef 0 _ _ p h))))))))

variant_e-All : Keeps (All IsProb) Any merge_probs_variant_e
unfolding merge_probs_variant_e
variant_e-All p c h u = noncoef 2 _ _ _ (noncoef 1 _ _ _ (noncoef 0 _ _ p h))

variant_f-All : Keeps (All IsProb) Any merge_probs_variant_f
unfolding merge_probs_variant_f
variant_f-All p c h u = noncoef 1 _ _ _ (noncoef 0 _ _ p h)

variant_g-All : Keeps (All IsProb) Any merge_probs_variant_g
unfolding merge_probs_variant_g
variant_g-All p c h u = noncoef 9 _ _ _ (
    noncoef 8 _ _ _ (
      noncoef 7 _ _ _ (
        noncoef 6 _ _ _ (
          noncoef 5 _ _ _ (
            noncoef 4 _ _ _
              (noncoef 3 _ _ _ (noncoef 2 _ _ _ (noncoef 1 _ _ _ (noncoef 0 _ _ p h)))))))))

adapt_prob-IsProb : Keeps IsProb Any adapt_prob
unfolding adapt_prob noncoef_merge_prob
adapt_prob-IsProb p c h u = merge_prob-IsProb p _ _ 20 128 (omega arith, omega arith, omega arith) h

-- A loop whose step keeps the predicate whatever the counts are.
rows {ℓ κ ρ} :
    {A : Type ℓ} {B : Type κ} {P : A → Type ρ} (f : A → B → A)
    → Keeps P Any f
    → Keeps (All P) Any (update_with f)
rows f k p c h u = update_with-All f k p c h (All-intro (λ x. tt) c)

mv-All :
    (high_prec : Bool) (p : MvProbs) (c : SymbolCounts)
    → AllMv IsProb p
    → AllMv IsProb (adapt_mv_probs high_prec p c)
unfolding adapt_mv_probs
mv-All h p c a =
    let row = rows adapt_prob adapt_prob-IsProb in
    let e = rows merge_probs_variant_e variant_e-All in
    (
      variant_e-All p.joint c.mv_joint a.0 tt,
      row p.sign c.sign a.1 tt,
      rows merge_probs_variant_g variant_g-All p.classes c.classes a.2 tt,
      row p.class0_bit c.class0 a.3 tt,
      rows adapt_row row p.bits c.bits a.4 tt,
      rows (update_with merge_probs_variant_e) e p.class0_fr c.class0_fp a.5 tt,
      e p.fr c.fp a.6 tt,
      either_way (All IsProb) h (row p.class0_hp c.class0_hp a.7 tt) a.7,
      either_way (All IsProb) h (row p.hp c.hp a.8 tt) a.8,
    )

-- Where every probability of the context is from 1 to 255, so is every one after the adaptation of the
-- rest, whatever the counts and the modes are.
pub adapt_noncoef_probs-IsProb :
    (probs : FrameContext) (counts : SymbolCounts) (reference_mode interpolation_filter tx_mode : ℕ)
    (high_prec : Bool)
    → AllContext IsProb probs
    → AllContext IsProb
        (adapt_noncoef_probs probs counts reference_mode interpolation_filter tx_mode high_prec)
unfolding adapt_noncoef_probs
adapt_noncoef_probs-IsProb p c reference_mode interpolation_filter tx_mode h a =
    let row = rows adapt_prob adapt_prob-IsProb in
    let (t8, t16, t32, coef, skip) = a.0 in
    let (a0, a1, a2, a3, a4, a5, a6, a7, a8, a9) = a.1 in
    let sizes = tx_mode == tx_mode_select in
    let binary =
      rows adapt_binary
        (λ q d g u. variant_b-All q d 20 128 (omega arith, omega arith, omega arith) g) in
    (
      (
        either_way (All (All IsProb)) sizes (binary p.tx8 c.tx8p t8 tt) t8,
        either_way (All (All IsProb)) sizes
            (rows merge_probs_variant_f variant_f-All p.tx16 c.tx16p t16 tt) t16,
        either_way (All (All IsProb)) sizes
            (rows merge_probs_variant_e variant_e-All p.tx32 c.tx32p t32 tt) t32,
        coef,
        row p.skip c.skip skip tt,
      ),
      (
        rows merge_probs_variant_c variant_c-All p.inter_mode c.mv_mode a0 tt,
        either_way (All (All IsProb)) (interpolation_filter == interp_filter_switchable)
            (rows merge_probs_variant_f variant_f-All p.interp_filter c.filter a1 tt) a1,
        row p.is_inter c.intra_inter a2 tt,
        row p.comp_mode c.comp a3 tt,
        either_way (All (All IsProb)) (not (reference_mode == reference_mode_compound))
            (rows adapt_row row p.single_ref c.single_ref a4 tt) a4,
        row p.comp_ref c.comp_ref a5 tt,
        rows merge_probs_variant_d variant_d-All p.y_mode c.y_mode a6 tt,
        rows merge_probs_variant_d variant_d-All p.uv_mode c.uv_mode a7 tt,
        rows merge_probs_variant_e variant_e-All p.partition c.partition a8 tt,
        mv-All h p.mv c a9,
      ),
    )
