-- ===== src/Proc/Ioctls/Dynamic.antt =====
-- The dynamic change of a format, with buffers allocated.
use h618_vpu_port.Base.{
  ℕ, ◌≡◌, ◌⊎◌, Bool, true, false, err, einval, refl, arith, Bool-cases, inl, inr,
}
use h618_vpu_port.Proc.Tables.{FrmSize, Proc, Role, encoder, decoder, proc_buffer_type}
use h618_vpu_port.Proc.Formats.{
  PixFormat, Ctx, Queues, busy_check, enc_dynamic_check, dec_dynamic_check, dynamic_check,
}
use h618_vpu_port.Proc.Ioctls.{s_fmt}

-- The source queue of an encoder is its picture queue, which is tested twice with opposite results.
enc_dynamic_check-eq-false :
    (q : Queues) (output : Bool) (ctx : Ctx) (f : PixFormat)
    → enc_dynamic_check q output ctx f ≡ false
unfolding enc_dynamic_check proc_buffer_type
enc_dynamic_check-eq-false q false ctx f = refl
enc_dynamic_check-eq-false q true ctx f = elim (Bool-cases q.output_busy) [
  | inl e ↦ ground arith
  | inr e ↦ ground arith
]

-- What a change of format with buffers needs.
abbrev pub IsDynamic : Role → Queues → Bool → Ctx → PixFormat → Type 0
IsDynamic role q output ctx f =
    (role ≡ decoder)
    × (output ≡ true)
    × (q.output_streaming ≡ false)
    × (q.capture_busy ≡ false)
    × (f.pixelformat ≡ ctx.format_coded.pixelformat)

dynamic_check-cases :
    (role : Role) (q : Queues) (output : Bool) (ctx : Ctx) (f : PixFormat)
    → (dynamic_check role q output ctx f ≡ false) ⊎ IsDynamic role q output ctx f
unfolding dynamic_check dec_dynamic_check proc_buffer_type
dynamic_check-cases encoder q output ctx f = inl (enc_dynamic_check-eq-false q output ctx f)
dynamic_check-cases decoder q false ctx f = inl refl
dynamic_check-cases decoder q true ctx f = ground arith

-- On a queue with buffers VIDIOC_S_FMT returns -EINVAL and changes nothing, but where the processor is
-- a decoder, the queue is its source and does not stream, the other queue has no buffers, and the pixel
-- format stays. So an encoder takes no new format while it has buffers in the queue.
pub s_fmt_busy :
    (apply : FrmSize → ℕ × ℕ → ℕ × ℕ) (p : Proc) (q : Queues) (output : Bool) (f : PixFormat)
    (ctx : Ctx)
    → busy_check q output ≡ true
    → (s_fmt apply p q output f ctx ≡ (err einval, ctx)) ⊎ IsDynamic p.role q output ctx f
unfolding s_fmt
s_fmt_busy apply p q output f ctx b = elim (dynamic_check-cases p.role q output ctx f) [
  | inl e ↦ inl (rw (e, b) refl)
  | inr d ↦ inr d
]
