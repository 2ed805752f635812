-- ===== src/Proc/Ioctls/Reach.antt =====
-- The contexts that a sequence of ioctls reaches.
use h618_vpu_port.Base.{
  ◌⊎◌, ◌-◌, sub_u32, clamp, clamp_bounds, ℕ, ◌+◌, ◌≤◌, ◌<◌, ◌≡◌, Bool, not, ◌&&◌, ◌||◌, ◌==◌, refl,
  Bool-cases, inl, inr, arith,
}
use native.Mathlib.Decide.{dec_le}
use h618_vpu_port.Proc.Tables.{
  FrmSize, FormatType, coded, picture, Proc, Role, encoder, decoder, proc_format_type,
}
use h618_vpu_port.Proc.Formats.{
  PixFormat, Rect, Ctx, Queues, busy_check, dynamic_check, format_prepare,
}
use h618_vpu_port.Proc.Formats.Constrain.{Constrains, Bounded}
use h618_vpu_port.Proc.Ioctls.{
  s_fmt, Target, crop, crop_default, crop_bounds, other, crop_rect, round_up_2, set_crop,
  s_selection, s_parm, set_parm, store_format,
}
use h618_vpu_port.Proc.Ioctls.Invariant.{
  IsNegotiated, IsPlaced, IsTable, store_encoder, store_decoder,
}

side_placed :
    (size left length : ℕ)
    → size ≤ 4096
    → (left + clamp length 2 (sub_u32 size left) ≤ size) ⊎ (size < left + 2)
side_placed size left length b = elim (dec_le (left + 2) size) [
  | no n ↦ inr (omega arith)
  | yes y ↦
      let e : sub_u32 size left ≡ size - left = omega arith in
      let k = (clamp_bounds length 2 (size - left) (omega arith)).1 in inl (rw e (omega (arith, k)))
]

pub crop_rect-IsPlaced :
    (f : PixFormat) (r : Rect) → Bounded 4096 4096 (f.width, f.height) → IsPlaced f (crop_rect f r)
unfolding crop_rect
crop_rect-IsPlaced f r b = (
  side_placed f.width (round_up_2 r.left) r.width (omega arith),
  side_placed f.height (round_up_2 r.top) r.height (omega arith),
)

set_crop-IsNegotiated :
    (role : Role) (k : FormatType) (t : Target) (r : Rect) (ctx : Ctx)
    → IsNegotiated role ctx
    → IsNegotiated role (set_crop k t r ctx).1
unfolding set_crop
set_crop-IsNegotiated encoder coded t r ctx n = n
set_crop-IsNegotiated decoder coded t r ctx n = n
set_crop-IsNegotiated encoder picture crop r ctx n =
    (n.0, n.1, n.2, n.3, crop_rect-IsPlaced ctx.format_picture r n.1)
set_crop-IsNegotiated decoder picture crop r ctx n = n
set_crop-IsNegotiated role picture crop_default r ctx n = n
set_crop-IsNegotiated role picture crop_bounds r ctx n = n
set_crop-IsNegotiated role picture other r ctx n = n

set_parm-IsNegotiated :
    (role : Role) (k : FormatType) (t : ℕ × ℕ) (ctx : Ctx)
    → IsNegotiated role ctx
    → IsNegotiated role (set_parm k t ctx)
unfolding set_parm
set_parm-IsNegotiated encoder coded t ctx n = n
set_parm-IsNegotiated encoder picture t ctx n = n
set_parm-IsNegotiated decoder coded t ctx n = n
set_parm-IsNegotiated decoder picture t ctx n = n

s_parm-IsNegotiated :
    (p : Proc) (output : Bool) (t : ℕ × ℕ) (ctx : Ctx)
    → IsNegotiated p.role ctx
    → IsNegotiated p.role (s_parm p output t ctx).1
unfolding s_parm
s_parm-IsNegotiated p output (n, d) ctx h = elim (Bool-cases (n == 0 || d == 0)) [
  | inl e ↦ rw e h
  | inr e ↦ rw e (set_parm-IsNegotiated p.role (proc_format_type p.role output) (n, d) ctx h)
]

module _ (apply : FrmSize → ℕ × ℕ → ℕ × ℕ) (c : Constrains apply) (p : Proc) (t : IsTable p) where
  store_format-IsNegotiated :
      (role : Role) (k : FormatType) (ctx : Ctx) (f : PixFormat)
      → p.role ≡ role
      → IsNegotiated role ctx
      → IsNegotiated role (store_format apply p k (format_prepare apply p k ctx f) ctx).1
  store_format-IsNegotiated encoder k ctx f r n = store_encoder apply c p t k ctx f r n
  store_format-IsNegotiated decoder k ctx f r n = store_decoder apply c p t k ctx f r n

  s_fmt-IsNegotiated :
      (q : Queues) (output : Bool) (f : PixFormat) (ctx : Ctx)
      → IsNegotiated p.role ctx
      → IsNegotiated p.role (s_fmt apply p q output f ctx).1
  unfolding s_fmt
  s_fmt-IsNegotiated q output f ctx n =
      elim (Bool-cases (not (dynamic_check p.role q output ctx f) && busy_check q output)) [
        | inl e ↦ rw e n
        | inr e ↦
            rw e (store_format-IsNegotiated p.role (proc_format_type p.role output) ctx f refl n)
      ]

  -- One ioctl of user space.
  pub data Negotiate (ctx : Ctx) : Ctx → Type 0 where
    format :
        (q : Queues) (output : Bool) (f : PixFormat)
        → Negotiate ctx (s_fmt apply p q output f ctx).1
    selection :
        (output : Bool) (target : Target) (r : Rect)
        → Negotiate ctx (s_selection p output target r ctx).1
    parm : (output : Bool) (t : ℕ × ℕ) → Negotiate ctx (s_parm p output t ctx).1

  pub data Reach (start : Ctx) : Ctx → Type 0 where
    here : Reach start start
    after : {ctx ctx' : Ctx} → Reach start ctx → Negotiate ctx ctx' → Reach start ctx'

  step-IsNegotiated :
      (ctx ctx' : Ctx) → Negotiate ctx ctx' → IsNegotiated p.role ctx → IsNegotiated p.role ctx'
  unfolding s_selection
  step-IsNegotiated ctx _ (format q output f) n = s_fmt-IsNegotiated q output f ctx n
  step-IsNegotiated ctx _ (selection output target r) n =
      set_crop-IsNegotiated p.role (proc_format_type p.role output) target r ctx n
  step-IsNegotiated ctx _ (parm output t) n = s_parm-IsNegotiated p output t ctx n

  pub Reach-IsNegotiated :
      (start ctx : Ctx) → IsNegotiated p.role start → Reach start ctx → IsNegotiated p.role ctx
  Reach-IsNegotiated start _ n here = n
  Reach-IsNegotiated start ctx' n (after {ctx} r s) =
      step-IsNegotiated ctx ctx' s (Reach-IsNegotiated start ctx n r)
