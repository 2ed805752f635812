-- ===== src/Proc/Ioctls/Invariant.antt =====
-- What every context has, whatever user space asks for.
use mathlib.Core.Path.{subst}
use h618_vpu_port.Base.{
  ℕ, ◌+◌, ◌≤◌, ◌<◌, ◌≡◌, ◌≢◌, ◌⊎◌, Ret, ok, err, einval, refl, sym, Bool-cases, inl, inr, Option,
  none, some, All, arith,
}
use h618_vpu_port.Proc.Tables.{
  FrmSize, Engine, FormatType, coded, picture, Proc, Role, encoder, decoder, format_check,
  format_find_first, engine_find_format,
}
use h618_vpu_port.Proc.Tables.Find.{find-All, check-All}
use h618_vpu_port.Proc.Formats.{
  PixFormat, Rect, Ctx, copy_colour, select_format, enc_coded_prepare, dec_picture_prepare,
  dec_coded_prepare, role_prepare, format_prepare, role_propagate, enc_propagate, dec_propagate,
  selection_reset,
}
use h618_vpu_port.Proc.Formats.Constrain.{Constrains, IsEngine, Bounded, constrain-Bounded}
use h618_vpu_port.Proc.Formats.Layout.{
  IsNv12, IsDecoded, IsDecoderFormat, enc_picture_prepare-IsNv12, dec_picture_prepare-IsDecoded,
}
use h618_vpu_port.Proc.Formats.Idempotent.{role_prepare_keeps}
use h618_vpu_port.Proc.Ioctls.{set_format, set_engine, engine_update, update_after, store_format}

abbrev pub size_of : PixFormat → ℕ × ℕ
size_of f = (f.width, f.height)

-- On each axis the selection lies in the picture, or starts where less than two samples of it are left.
abbrev pub IsPlaced : PixFormat → Rect → Type 0
IsPlaced f r =
    ((r.left + r.width ≤ f.width) ⊎ (f.width < r.left + 2))
    × ((r.top + r.height ≤ f.height) ⊎ (f.height < r.top + 2))

-- An encoder: the coded format has the size of the picture, whose planes fit, and the selection is placed in it.
-- A decoder: the picture format holds the coded picture.
abbrev pub IsNegotiated : Role → Ctx → Type 0
IsNegotiated encoder ctx =
    IsEngine 4096 4096 ctx.engine.frmsize
    × Bounded 4096 4096 (size_of ctx.format_picture)
    × IsNv12 ctx.format_picture
    × (size_of ctx.format_coded ≡ size_of ctx.format_picture)
    × IsPlaced ctx.format_picture ctx.selection
IsNegotiated decoder ctx =
    IsEngine 4096 4096 ctx.engine.frmsize
    × Bounded 4096 4096 (size_of ctx.format_coded)
    × IsDecoderFormat ctx.format_picture.pixelformat
    × IsDecoded ctx.format_coded ctx.format_picture

-- The tables of the two processors.
pub record IsTable (p : Proc) : Type 0 where
  pub engines : All (λ e. IsEngine 4096 4096 e.frmsize) p.engines
  pub formats : All (λ f. f.format_type ≢ coded → IsDecoderFormat f.pixelformat) p.formats
  pub first : IsDecoderFormat (format_find_first p.formats picture)

-- A context with the engine that a search found.
found :
    (o : Option Engine) (role : Role) (ctx : Ctx)
    → IsNegotiated role ctx
    → ((e : Engine) → o ≡ some e → IsEngine 4096 4096 e.frmsize)
    → IsNegotiated role (set_engine o ctx).1
unfolding set_engine
found none role ctx n h = n
found (some e) encoder ctx n h = (h e refl, n.1, n.2, n.3, n.4)
found (some e) decoder ctx n h = (h e refl, n.1, n.2, n.3)

set_engine-IsNegotiated :
    (role : Role) (p : Proc) (x : ℕ) (ctx : Ctx)
    → IsTable p
    → IsNegotiated role ctx
    → IsNegotiated role (set_engine (engine_find_format p.engines x) ctx).1
set_engine-IsNegotiated role p x ctx t n =
    found (engine_find_format p.engines x) role ctx n
      (λ e h. find-All (λ e. IsEngine 4096 4096 e.frmsize) p.engines x e t.engines h)

update_after-IsNegotiated :
    (role : Role) (p : Proc) (t : FormatType) (r : Ret × Ctx)
    → IsTable p
    → IsNegotiated role r.1
    → IsNegotiated role (update_after p t r).1
unfolding update_after engine_update
update_after-IsNegotiated role p t (err e, ctx) h n = n
update_after-IsNegotiated role p coded (ok, ctx) h n = set_engine-IsNegotiated role p _ ctx h n
update_after-IsNegotiated role p picture (ok, ctx) h n = n

select-IsDecoderFormat :
    (p : Proc) (f : PixFormat) → IsTable p → IsDecoderFormat (select_format p picture f).pixelformat
unfolding select_format
select-IsDecoderFormat p f t = elim (Bool-cases (format_check p.formats f.pixelformat picture)) [
  | inl k ↦ rw k (check-All IsDecoderFormat p.formats f.pixelformat t.formats k)
  | inr k ↦ rw k t.first
]

module _ (apply : FrmSize → ℕ × ℕ → ℕ × ℕ) (c : Constrains apply) (p : Proc) (t : IsTable p) where
  dec_picture :
      (ctx : Ctx) (f : PixFormat)
      → p.role ≡ decoder
      → Bounded 4096 4096 (size_of ctx.format_coded)
      → let r = format_prepare apply p picture ctx f in
        (r.0 ≡ ok) × IsDecoderFormat r.1.pixelformat × IsDecoded ctx.format_coded r.1
  unfolding format_prepare role_prepare select_format
  dec_picture ctx f r b =
      let g = select_format p picture f in
      let d = select-IsDecoderFormat p f t in
      let k = dec_picture_prepare-IsDecoded ctx g d b in
      let x : IsDecoderFormat (dec_picture_prepare ctx g).1.pixelformat =
        subst IsDecoderFormat (sym (role_prepare_keeps apply decoder picture ctx g)) d in
      rw r (k.0, x, k.1)

  enc_picture :
      (ctx : Ctx) (f : PixFormat)
      → p.role ≡ encoder
      → IsEngine 4096 4096 ctx.engine.frmsize
      → let r = format_prepare apply p picture ctx f in
        (r.0 ≡ err einval) ⊎ ((r.0 ≡ ok) × IsNv12 r.1 × Bounded 4096 4096 (size_of r.1))
  unfolding format_prepare role_prepare select_format
  enc_picture ctx f r e =
      let g = select_format p picture f in
      rw r (elim (enc_picture_prepare-IsNv12 apply ctx g c e) [
        | inl x ↦ inl x
        | inr (o, n, s) ↦ inr (
          o,
          n,
          subst (Bounded 4096 4096) (sym s)
              (constrain-Bounded apply 4096 4096 ctx.engine.frmsize (size_of g) c e),
        )
      ])

  enc_coded :
      (ctx : Ctx) (f : PixFormat)
      → p.role ≡ encoder
      → let r = format_prepare apply p coded ctx f in
        (r.0 ≡ ok) × (size_of r.1 ≡ size_of ctx.format_picture)
  unfolding format_prepare role_prepare select_format enc_coded_prepare copy_colour
  enc_coded ctx f r = rw r (refl, refl)

  dec_coded :
      (ctx : Ctx) (f : PixFormat)
      → p.role ≡ decoder
      → IsEngine 4096 4096 ctx.engine.frmsize
      → let r = format_prepare apply p coded ctx f in (r.0 ≡ ok) × Bounded 4096 4096 (size_of r.1)
  unfolding format_prepare role_prepare select_format dec_coded_prepare
  dec_coded ctx f r e = rw r (
    refl,
    constrain-Bounded apply 4096 4096 ctx.engine.frmsize (size_of (select_format p coded f)) c e,
  )

  -- A stored format, by the role and the type, and the propagation from it.
  store_enc_picture :
      (ctx : Ctx) (f : PixFormat)
      → p.role ≡ encoder
      → IsEngine 4096 4096 ctx.engine.frmsize
      → IsNv12 f
      → Bounded 4096 4096 (size_of f)
      → let r = role_propagate apply encoder p picture (record ctx { format_picture = f }) in
        (r.0 ≡ ok) × IsNegotiated encoder r.1
  unfolding role_propagate enc_propagate selection_reset
  store_enc_picture ctx f r e n b =
      let x = enc_coded (selection_reset (record ctx { format_picture = f })) ctx.format_coded r in
      (x.0, (e, b, n, x.1, (inl (omega arith), inl (omega arith))))

  store_dec_coded :
      (ctx : Ctx) (f : PixFormat)
      → p.role ≡ decoder
      → IsEngine 4096 4096 ctx.engine.frmsize
      → Bounded 4096 4096 (size_of f)
      → let r = role_propagate apply decoder p coded (record ctx { format_coded = f }) in
        (r.0 ≡ ok) × IsNegotiated decoder r.1
  unfolding role_propagate dec_propagate
  store_dec_coded ctx f r e b =
      let x = dec_picture (record ctx { format_coded = f }) ctx.format_picture r b in
      (x.0, (e, b, x.1, x.2))

  -- A prepared format, stored, from what the propagation gives.
  store_ok :
      (role : Role) (k : FormatType) (r : Ret × PixFormat) (ctx : Ctx)
      → p.role ≡ role
      → r.0 ≡ ok
      → IsNegotiated role (role_propagate apply role p k (set_format k r.1 ctx)).1
      → IsNegotiated role (store_format apply p k r ctx).1
  unfolding store_format
  store_ok role k (err e, f) ctx q o n = cc
  store_ok role k (ok, f) ctx q o n =
      update_after-IsNegotiated role p k (role_propagate apply p.role p k (set_format k f ctx)) t (
        subst (λ x. IsNegotiated role (role_propagate apply x p k (set_format k f ctx)).1) (sym q)
          n)

  store_error :
      (k : FormatType) (r : Ret × PixFormat) (ctx : Ctx)
      → r.0 ≡ err einval
      → (store_format apply p k r ctx).1 ≡ ctx
  unfolding store_format
  store_error k (err e, f) ctx o = refl
  store_error k (ok, f) ctx o = cc

  pub store_encoder :
      (k : FormatType) (ctx : Ctx) (f : PixFormat)
      → p.role ≡ encoder
      → IsNegotiated encoder ctx
      → IsNegotiated encoder (store_format apply p k (format_prepare apply p k ctx f) ctx).1
  unfolding role_propagate enc_propagate
  store_encoder coded ctx f r n =
      let x = enc_coded ctx f r in
      store_ok encoder coded (format_prepare apply p coded ctx f) ctx r x.0
        (n.0, n.1, n.2, x.1, n.4)
  store_encoder picture ctx f r n =
      let g = format_prepare apply p picture ctx f in
      elim (enc_picture ctx f r n.0) [
        | inl e ↦ subst (IsNegotiated encoder) (sym (store_error picture g ctx e)) n
        | inr (o, i, b) ↦ store_ok encoder picture g ctx r o (store_enc_picture ctx g.1 r n.0 i b).1
      ]

  pub store_decoder :
      (k : FormatType) (ctx : Ctx) (f : PixFormat)
      → p.role ≡ decoder
      → IsNegotiated decoder ctx
      → IsNegotiated decoder (store_format apply p k (format_prepare apply p k ctx f) ctx).1
  unfolding role_propagate dec_propagate
  store_decoder coded ctx f r n =
      let x = dec_coded ctx f r n.0 in
      let g = format_prepare apply p coded ctx f in
      store_ok decoder coded g ctx r x.0 (store_dec_coded ctx g.1 r n.0 x.1).1
  store_decoder picture ctx f r n =
      let x = dec_picture ctx f r n.1 in
      store_ok decoder picture (format_prepare apply p picture ctx f) ctx r x.0 (n.0, n.1, x.1, x.2)
