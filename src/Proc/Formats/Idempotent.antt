-- ===== src/Proc/Formats/Idempotent.antt =====
-- A prepared format is prepared to itself.
use h618_vpu_port.Base.{
  ℕ, ◌≤◌, ◌≡◌, true, false, ◌==◌, refl, ap, ◌∙◌, Bool-cases, inl, inr, max, arith,
}
use h618_vpu_port.Proc.Tables.{
  FrmSize, FormatType, coded, picture, Proc, Role, encoder, decoder, format_check,
}
use h618_vpu_port.Proc.Formats.{
  PixFormat, Ctx, nv12, copy_colour, select_format, enc_coded_prepare, enc_stride,
  enc_picture_layout, dec_picture_prepare, constrain, dec_coded_prepare, enc_picture_prepare,
  role_prepare, format_prepare,
}
use h618_vpu_port.Proc.Formats.Constrain.{
  Constrains, IsEngine, Bounded, constrain-Bounded, constrain_idempotent,
}

-- A format with the selected pixel format is selected as it is.
select_format_again :
    (p : Proc) (t : FormatType) (f g : PixFormat)
    → g.pixelformat ≡ (select_format p t f).pixelformat
    → select_format p t g ≡ g
unfolding select_format
select_format_again p t f g h = elim (Bool-cases (format_check p.formats f.pixelformat t)) [
  | inl e ↦
      (let k : format_check p.formats g.pixelformat t ≡ true =
          ap (λ x. format_check p.formats x t) (rw e at h) ∙ e in
        rw k refl)
  | inr e ↦ ground arith
]

enc_stride_again : (w b : ℕ) → 16 ≤ w → w ≤ 65536 → enc_stride w (enc_stride w b) ≡ enc_stride w b
unfolding enc_stride
enc_stride_again w b l u = ground arith

-- The parts of a layout that is laid out again.
enc_picture_layout_again :
    (w h b : ℕ) (f g : PixFormat)
    → g ≡ (enc_picture_layout w h b f).1
    → enc_picture_layout w h b g ≡ enc_picture_layout w h b f
unfolding enc_picture_layout
enc_picture_layout_again w h b f g e = elim (Bool-cases (f.pixelformat == nv12)) [
  | inl k ↦ rw (e, k) (rw k refl)
  | inr k ↦ rw (e, k) (rw k refl)
]

layout_fields :
    (w h b : ℕ) (f : PixFormat)
    → (f.pixelformat == nv12) ≡ true
    → let g = (enc_picture_layout w h b f).1 in
      (◌≡◌ {A = ℕ × ℕ} (g.width, g.height) (w, h)) × (g.bytesperline ≡ b)
unfolding enc_picture_layout
layout_fields w h b f k = rw k (refl, refl)

layout_error :
    (w h b : ℕ) (f : PixFormat)
    → (f.pixelformat == nv12) ≡ false
    → (enc_picture_layout w h b f).1 ≡ f
unfolding enc_picture_layout
layout_error w h b f k = rw k refl

pub role_prepare_keeps :
    (apply : FrmSize → ℕ × ℕ → ℕ × ℕ) (role : Role) (t : FormatType) (ctx : Ctx) (f : PixFormat)
    → (role_prepare apply role t ctx f).1.pixelformat ≡ f.pixelformat
unfolding role_prepare enc_coded_prepare dec_coded_prepare enc_picture_prepare enc_picture_layout
    dec_picture_prepare copy_colour
role_prepare_keeps apply encoder coded ctx f = refl
role_prepare_keeps apply encoder picture ctx f = ground arith
role_prepare_keeps apply decoder coded ctx f = refl
role_prepare_keeps apply decoder picture ctx f = ground arith

module _ (apply : FrmSize → ℕ × ℕ → ℕ × ℕ) (c : Constrains apply) (max_width max_height : ℕ)
    (small : max_width ≤ 65536) where
  enc_picture_prepare_again :
      (ctx : Ctx) (f : PixFormat)
      → IsEngine max_width max_height ctx.engine.frmsize
      → enc_picture_prepare apply ctx (enc_picture_prepare apply ctx f).1
        ≡ enc_picture_prepare apply ctx f
  unfolding enc_picture_prepare
  enc_picture_prepare_again ctx f e =
      let s = constrain apply ctx.engine.frmsize in
      let size = s (f.width, f.height) in
      let b = enc_stride size.0 f.bytesperline in
      let g = (enc_picture_layout size.0 size.1 b f).1 in
      let d : Bounded max_width max_height size =
        constrain-Bounded apply max_width max_height ctx.engine.frmsize (f.width, f.height) c e in
      elim (Bool-cases (f.pixelformat == nv12)) [
        | inl k ↦
            let l = layout_fields size.0 size.1 b f k in
            let i : s (g.width, g.height) ≡ size =
              ap s l.0
              ∙ constrain_idempotent apply max_width max_height ctx.engine.frmsize
                  (f.width, f.height) c e in
            let j : enc_stride size.0 g.bytesperline ≡ b =
              ap (enc_stride size.0) l.1
              ∙ enc_stride_again size.0 f.bytesperline d.0 (omega arith) in
            ap (λ (x : ℕ × ℕ). enc_picture_layout x.0 x.1 (enc_stride x.0 g.bytesperline) g) i
            ∙ ap (λ x. enc_picture_layout size.0 size.1 x g) j
            ∙ enc_picture_layout_again size.0 size.1 b f g refl
        | inr k ↦ ap (λ x. enc_picture_prepare apply ctx x) (layout_error size.0 size.1 b f k)
      ]

  role_prepare_again :
      (role : Role) (t : FormatType) (ctx : Ctx) (f : PixFormat)
      → IsEngine max_width max_height ctx.engine.frmsize
      → role_prepare apply role t ctx (role_prepare apply role t ctx f).1
        ≡ role_prepare apply role t ctx f
  unfolding role_prepare enc_coded_prepare dec_coded_prepare dec_picture_prepare copy_colour
  role_prepare_again encoder coded ctx f e = ground arith
  role_prepare_again encoder picture ctx f e = enc_picture_prepare_again ctx f e
  role_prepare_again decoder coded ctx f e =
      let i =
        constrain_idempotent apply max_width max_height ctx.engine.frmsize (f.width, f.height) c
          e in
      let m : max 1024 (max 1024 f.sizeimage) ≡ max 1024 f.sizeimage = omega arith in rw (i, m) refl
  role_prepare_again decoder picture ctx f e = ground arith

  -- What VIDIOC_TRY_FMT answers, it answers again when it is asked for it, failures included; so
  -- negotiation reaches its end in one round.
  pub format_prepare_again :
      (p : Proc) (t : FormatType) (ctx : Ctx) (f : PixFormat)
      → IsEngine max_width max_height ctx.engine.frmsize
      → format_prepare apply p t ctx (format_prepare apply p t ctx f).1
        ≡ format_prepare apply p t ctx f
  unfolding format_prepare
  format_prepare_again p t ctx f e =
      let s = select_format p t f in
      let g = (role_prepare apply p.role t ctx s).1 in
      ap (role_prepare apply p.role t ctx)
        (select_format_again p t f g (role_prepare_keeps apply p.role t ctx s))
      ∙ role_prepare_again p.role t ctx s e
