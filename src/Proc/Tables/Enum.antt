-- ===== src/Proc/Tables/Enum.antt =====
-- Enumeration against the list of what there is to enumerate.
use h618_vpu_port.Base.{
  ℕ, zero, suc, ◌+◌, ◌-◌, ◌≤◌, ◌≡◌, refl, ap, ◌∙◌, List, [], ◌∷◌, Option, none, some, Bool,
  if◌then◌else◌, ◌==◌, Bool-cases, inl, inr, ◌&&◌, arith,
}
use mathlib.Core.Option
use h618_vpu_port.Proc.Tables.{
  Proc, coded, proc_format_type, is_encoder, enum_fmt, Format, FormatType, same_type, enum_formats,
}

-- The pixel formats of a type, in the order of the table.
pub of_type : FormatType → List Format → List ℕ
of_type t [] = []
of_type t (f ∷ fs) =
    let rest = of_type t fs in if same_type f.format_type t then f.pixelformat ∷ rest else rest

abbrev pub get_elem? {ℓ} : {A : Type ℓ} → List A → ℕ → Option A
get_elem? [] i = none
get_elem? (x ∷ xs) zero = some x
get_elem? (x ∷ xs) (suc i) = get_elem? xs i

get_elem?-cons :
    (x : ℕ) (xs : List ℕ) (i : ℕ)
    → get_elem? (x ∷ xs) i ≡ (if i == 0 then some x else get_elem? xs (i - 1))
get_elem?-cons x xs zero = refl
get_elem?-cons x xs (suc i) = ground arith

enum_formats_from :
    (t : FormatType) (wanted index : ℕ) (fs : List Format)
    → index ≤ wanted
    → enum_formats t wanted index fs ≡ get_elem? (of_type t fs) (wanted - index)
unfolding enum_formats of_type
enum_formats_from t wanted index [] h = refl
enum_formats_from t wanted index (f ∷ fs) h = elim (Bool-cases (same_type f.format_type t)) [
  | inl e ↦ rw e (
      ground (
        arith,
        get_elem?-cons f.pixelformat (of_type t fs) (wanted - index),
        enum_formats_from t wanted (index + 1) fs,
      ))
  | inr e ↦ rw e (enum_formats_from t wanted index fs h)
]

enum_formats-eq-get_elem? :
    (t : FormatType) (i : ℕ) (fs : List Format) → enum_formats t i 0 fs ≡ get_elem? (of_type t fs) i
enum_formats-eq-get_elem? t i fs =
    let e : i - 0 ≡ i = omega arith in
    enum_formats_from t i 0 fs (omega arith) ∙ ap (get_elem? (of_type t fs)) e

-- VIDIOC_ENUM_FMT walks the list of the formats of the buffer's type: index i is the i-th of them, in the
-- order of the table, and past the last there is none.
pub enum_fmt-eq-get_elem? :
    (p : Proc) (output : Bool) (i : ℕ)
    → let t = proc_format_type p.role output in
      enum_fmt p output i
      ≡ Option.map
          (λ f. (f, same_type t coded, is_encoder p.role && same_type t coded))
          (get_elem? (of_type t p.formats) i)
unfolding enum_fmt
enum_fmt-eq-get_elem? p output i =
    ap (Option.map _) (enum_formats-eq-get_elem? (proc_format_type p.role output) i p.formats)
