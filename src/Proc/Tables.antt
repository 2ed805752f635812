-- ===== src/Proc/Tables.antt =====
-- cedrus-v4l2/cedrus_proc.c: the tables of engines and formats that a processor offers, their set-up, and
-- the searches in them.
pub mod Setup
pub mod Enum
pub mod Find
use h618_vpu_port.Base.{
  ℕ, zero, suc, ◌+◌, List, [], ◌∷◌, Bool, true, false, not, ◌&&◌, Option, none, some, Ret, ok, err,
  enodev, enomem, if◌then◌else◌, ltb, ◌==◌, set, length,
}
use mathlib.Core.Option
use h618_vpu_port.Device.Dma.{Device, capabilities_check}

-- struct v4l2_frmsize_stepwise
pub record FrmSize : Type 0 where
  pub min_width : ℕ
  pub max_width : ℕ
  pub step_width : ℕ
  pub min_height : ℕ
  pub max_height : ℕ
  pub step_height : ℕ

-- struct cedrus_engine, without its operations; the size is a pointer.
pub record Engine : Type 0 where
  pub capabilities : ℕ
  pub pixelformat : ℕ
  pub slice_based : Bool
  pub frmsize : Option FrmSize

pub data FormatType : Type 0 where
  coded picture : FormatType

unfoldable pub same_type : FormatType → FormatType → Bool
same_type coded coded = true
same_type picture picture = true
same_type a b = false

-- struct cedrus_format
pub record Format : Type 0 where
  pub pixelformat : ℕ
  pub capabilities : ℕ
  pub format_type : FormatType

pub data Role : Type 0 where
  decoder encoder : Role

-- struct cedrus_proc, after its set-up.
pub record Proc : Type 0 where
  pub role : Role
  pub engines : List Engine
  pub formats : List Format

-- An array that devm_kzalloc zeroed.
pub zeroed {ℓ} : {A : Type ℓ} → ℕ → List (Option A)
zeroed zero = []
zeroed (suc n) = none ∷ zeroed n

-- The two passes over a configuration: `keep` skips an entry, the first pass counts from `count` on, and
-- the second writes from `index` on.
pub count_kept {ℓ} : {A : Type ℓ} → (A → Bool) → List A → ℕ → ℕ
count_kept keep [] count = count
count_kept keep (x ∷ xs) count = count_kept keep xs (if keep x then count + 1 else count)

-- A write past the end of the array is lost here.
pub fill_kept {ℓ} : {A : Type ℓ} → (A → Bool) → List A → ℕ → List (Option A) → List (Option A)
fill_kept keep [] index slots = slots
fill_kept keep (x ∷ xs) index slots =
    fill_kept keep xs (if keep x then index + 1 else index)
      (if keep x then set slots index (some x) else slots)

has_frmsize : Option FrmSize → Bool
has_frmsize none = false
has_frmsize (some s) = true

pub engine_usable : Device → Engine → Bool
engine_usable dev e =
    capabilities_check dev e.capabilities && (not (e.pixelformat == 0) && has_frmsize e.frmsize)

-- `allocated` is the answer of devm_kzalloc.
pub engines_setup : Device → Bool → List Engine → Ret × List (Option Engine)
engines_setup dev allocated config =
    let count = count_kept (engine_usable dev) config 0 in
    if count == 0
    then (err enodev, [])
    else if not allocated
    then (err enomem, [])
    else (ok, fill_kept (engine_usable dev) config 0 (zeroed count))

pub format_usable : Device → Format → Bool
format_usable dev f = capabilities_check dev f.capabilities && not (f.pixelformat == 0)

pub engine_format : Engine → Format
engine_format e = record { pixelformat = e.pixelformat; capabilities = 0; format_type = coded }

-- The loop over the engines, which keeps them all.
pub fill_engines : List Engine → ℕ → List (Option Format) → List (Option Format)
fill_engines [] index slots = slots
fill_engines (e ∷ es) index slots =
    fill_engines es (index + 1) (set slots index (some (engine_format e)))

pub formats_setup : Device → Bool → List Engine → List Format → Ret × List (Option Format)
formats_setup dev allocated engines config =
    let count = count_kept (format_usable dev) config (length engines) in
    if count == 0 then (err enodev, []) else if not allocated then (err enomem, []) else (
      ok,
      fill_kept (format_usable dev) config (length engines) (fill_engines engines 0 (zeroed count)),
    )

-- 0 where there is none.
unfoldable pub format_find_first : List Format → FormatType → ℕ
format_find_first [] t = 0
format_find_first (f ∷ fs) t =
    if same_type f.format_type t then f.pixelformat else format_find_first fs t

pub format_check : List Format → ℕ → FormatType → Bool
format_check [] p t = false
format_check (f ∷ fs) p t =
    if f.pixelformat == p && same_type f.format_type t then true else format_check fs p t

pub engine_find_format : List Engine → ℕ → Option Engine
engine_find_format [] p = none
engine_find_format (e ∷ es) p = if e.pixelformat == p then some e else engine_find_format es p

-- The loop of cedrus_proc_enum_fmt.
pub enum_formats : FormatType → ℕ → ℕ → List Format → Option ℕ
enum_formats t wanted index [] = none
enum_formats t wanted index (f ∷ fs) =
    let skip = enum_formats t wanted index fs in
    let next = enum_formats t wanted (index + 1) fs in
    if not (same_type f.format_type t)
    then skip
    else if wanted == index
    then some f.pixelformat
    else if ltb wanted index
    then none
    else next

-- V4L2_TYPE_IS_OUTPUT of the buffer type.
unfoldable pub proc_format_type : Role → Bool → FormatType
proc_format_type decoder true = coded
proc_format_type decoder false = picture
proc_format_type encoder true = picture
proc_format_type encoder false = coded

-- The buffer type of a format type: whether it is the output.
unfoldable pub proc_buffer_type : Role → FormatType → Bool
proc_buffer_type decoder coded = true
proc_buffer_type decoder picture = false
proc_buffer_type encoder coded = false
proc_buffer_type encoder picture = true

unfoldable pub is_encoder : Role → Bool
is_encoder decoder = false
is_encoder encoder = true

-- The pixel format, and the flags V4L2_FMT_FLAG_COMPRESSED and _ENC_CAP_FRAME_INTERVAL that are added.
pub enum_fmt : Proc → Bool → ℕ → Option (ℕ × Bool × Bool)
enum_fmt p output index =
    let t = proc_format_type p.role output in
    Option.map (λ f. (f, same_type t coded, is_encoder p.role && same_type t coded))
      (enum_formats t index 0 p.formats)
