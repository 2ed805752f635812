-- ===== src/Vp9/Update/Scope.antt =====
-- What the forward update leaves alone.
use h618_vpu_port.Base.{
  ℕ, zero, suc, ◌+◌, ◌≡◌, ◌⊎◌, refl, ap, true, false, Bool-cases, inl, inr, ◌||◌, ◌==◌, ==→≡, List,
  [], ◌∷◌, arith,
}
use h618_vpu_port.Vp9.Context.{FrameContext, MvProbs, Frame, tx_mode_select}
use h618_vpu_port.Vp9.Context.Rows.{update_first}
use h618_vpu_port.Vp9.Update.{
  CompressedHdr, update_size, update_coef_probs, update_tx_probs, update_common_probs,
  update_frame_reference_mode_probs, update_inter_probs, fw_update_probs,
}

-- The loop that breaks after `tx_mode` is the update of its first rows.
coef-eq-update_first :
    (tx_mode k i : ℕ) (ps ds : List (List (List (List (List (List ℕ))))))
    → tx_mode ≡ i + k
    → update_coef_probs tx_mode i ps ds ≡ update_first (suc k) update_size ps ds
unfolding update_coef_probs
coef-eq-update_first t k i [] ds h = refl
coef-eq-update_first t k i (p ∷ ps) [] h = refl
coef-eq-update_first t zero i (p ∷ ps) (d ∷ ds) h = let e : (t == i) ≡ true = ground arith in rw e
coef-eq-update_first t (suc k) i (p ∷ ps) (d ∷ ds) h =
    let e : (t == i) ≡ false = ground arith in
    let r = coef-eq-update_first t k (suc i) ps ds (omega arith) in
    rw e (ap (λ xs. update_size p d ∷ xs) r)

-- The probabilities that only inter frames read.
abbrev pub inter_probs :
    FrameContext
    → List (List ℕ)
      × List (List ℕ)
      × List ℕ
      × List ℕ
      × List (List ℕ)
      × List ℕ
      × List (List ℕ)
      × List (List ℕ)
      × List (List ℕ)
      × MvProbs
inter_probs c = (
  c.inter_mode, c.interp_filter, c.is_inter, c.comp_mode, c.single_ref, c.comp_ref, c.y_mode,
  c.uv_mode, c.partition, c.mv,
)

-- A key frame and an intra-only frame change none of the probabilities of inter frames.
pub fw_update_probs_intra :
    (probs : FrameContext) (hdr : CompressedHdr) (dec_params : Frame)
    → (dec_params.key_frame || dec_params.intra_only) ≡ true
    → inter_probs (fw_update_probs probs hdr dec_params) ≡ inter_probs probs
unfolding fw_update_probs update_common_probs update_tx_probs
fw_update_probs_intra probs hdr f h = elim (Bool-cases (hdr.tx_mode == tx_mode_select)) [
  | inl e ↦ rw (h, e)
  | inr e ↦ rw (h, e)
]

-- On every frame the coefficient probabilities are updated for the transform sizes up to `tx_mode` and
-- are left alone for the larger ones, and those of the sizes themselves change only where the mode
-- lets each block choose.
pub fw_update_probs_sizes :
    (probs : FrameContext) (hdr : CompressedHdr) (dec_params : Frame)
    → ((fw_update_probs probs hdr dec_params).coef
        ≡ update_first (suc hdr.tx_mode) update_size probs.coef hdr.deltas.coef)
      × ((hdr.tx_mode ≡ tx_mode_select)
          ⊎ ((fw_update_probs probs hdr dec_params).tx8 ≡ probs.tx8)
            × ((fw_update_probs probs hdr dec_params).tx16 ≡ probs.tx16)
            × ((fw_update_probs probs hdr dec_params).tx32 ≡ probs.tx32))
unfolding fw_update_probs update_common_probs update_tx_probs update_inter_probs
    update_frame_reference_mode_probs
fw_update_probs_sizes probs hdr f =
    let c =
      coef-eq-update_first hdr.tx_mode hdr.tx_mode 0 probs.coef hdr.deltas.coef (omega arith) in
    elim (Bool-cases (hdr.tx_mode == tx_mode_select)) [
      | inl e ↦ elim (Bool-cases (f.key_frame || f.intra_only)) [
        | inl g ↦ rw (e, g) (c, inl (==→≡ hdr.tx_mode tx_mode_select e))
        | inr g ↦ rw (e, g) (c, inl (==→≡ hdr.tx_mode tx_mode_select e))
      ]
      | inr e ↦ elim (Bool-cases (f.key_frame || f.intra_only)) [
        | inl g ↦ rw (e, g) (c, inr (refl, refl, refl))
        | inr g ↦ rw (e, g) (c, inr (refl, refl, refl))
      ]
    ]
