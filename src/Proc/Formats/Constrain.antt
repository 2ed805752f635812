-- ===== src/Proc/Formats/Constrain.antt =====
-- What the kernel documents of v4l2_apply_frmsize_constraints.
use h618_vpu_port.Base.{ℕ, ◌≤◌, ◌<◌, ◌≡◌, refl, Option, none, some, arith}
use h618_vpu_port.Proc.Tables.{FrmSize}
use h618_vpu_port.Proc.Formats.{constrain}

-- A range of sizes that the kernel accepts.
abbrev pub IsFrmSize : FrmSize → Type 0
IsFrmSize s =
    (s.min_width ≤ s.max_width)
    × (s.min_height ≤ s.max_height)
    × (0 < s.step_width)
    × (0 < s.step_height)

abbrev pub InRange : FrmSize → ℕ × ℕ → Type 0
InRange s size =
    (s.min_width ≤ size.0)
    × (size.0 ≤ s.max_width)
    × (s.min_height ≤ size.1)
    × (size.1 ≤ s.max_height)

-- The constrained size lies in the range, and constraining it again changes nothing.
pub record Constrains (apply : FrmSize → ℕ × ℕ → ℕ × ℕ) : Type 0 where
  pub in_range : (s : FrmSize) (size : ℕ × ℕ) → IsFrmSize s → InRange s (apply s size)
  pub idempotent :
      (s : FrmSize) (size : ℕ × ℕ) → IsFrmSize s → apply s (apply s size) ≡ apply s size

-- An engine of a processor: its sizes are a range, from 16 to the largest of the processor.
abbrev pub IsEngine : ℕ → ℕ → Option FrmSize → Type 0
IsEngine max_width max_height none = ⊥
IsEngine max_width max_height (some s) =
    IsFrmSize s
    × (16 ≤ s.min_width)
    × (16 ≤ s.min_height)
    × (s.max_width ≤ max_width)
    × (s.max_height ≤ max_height)

abbrev pub Bounded : ℕ → ℕ → ℕ × ℕ → Type 0
Bounded max_width max_height size =
    (16 ≤ size.0) × (size.0 ≤ max_width) × (16 ≤ size.1) × (size.1 ≤ max_height)

pub constrain-Bounded :
    (apply : FrmSize → ℕ × ℕ → ℕ × ℕ) (w h : ℕ) (s : Option FrmSize) (size : ℕ × ℕ)
    → Constrains apply
    → IsEngine w h s
    → Bounded w h (constrain apply s size)
constrain-Bounded apply w h none size c e = elim e [ ]
constrain-Bounded apply w h (some s) size c e =
    let r = c.in_range s size e.0 in (omega arith, omega arith, omega arith, omega arith)

pub constrain_idempotent :
    (apply : FrmSize → ℕ × ℕ → ℕ × ℕ) (w h : ℕ) (s : Option FrmSize) (size : ℕ × ℕ)
    → Constrains apply
    → IsEngine w h s
    → constrain apply s (constrain apply s size) ≡ constrain apply s size
constrain_idempotent apply w h none size c e = refl
constrain_idempotent apply w h (some s) size c e = c.idempotent s size e.0
