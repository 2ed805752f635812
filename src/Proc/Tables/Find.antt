-- ===== src/Proc/Tables/Find.antt =====
-- What holds of the whole table holds of what a search finds.
use h618_vpu_port.Base.{
  ℕ, ◌≡◌, ◌≢◌, true, some, List, [], ◌∷◌, All, ◌==◌, ==→≡, Bool-cases, inl, inr, arith,
}
use mathlib.Core.Path.{subst}
use h618_vpu_port.Proc.Tables.{
  Engine, Format, FormatType, coded, picture, same_type, engine_find_format, format_check,
}

pub find-All :
    (P : Engine → Type 0) (es : List Engine) (x : ℕ) (e : Engine)
    → All P es
    → engine_find_format es x ≡ some e
    → P e
unfolding engine_find_format
find-All P [] x e a h = absurd (ground arith)
find-All P (d ∷ es) x e a h = elim (Bool-cases (d.pixelformat == x)) [
  | inl k ↦ let i : some d ≡ some e = rw k at h in let j : d ≡ e = cc in subst P j a.0
  | inr k ↦ find-All P es x e a.1 (rw k at h)
]

same_type-picture : (t : FormatType) → same_type t picture ≡ true → t ≢ coded
unfolding same_type
same_type-picture t h = ground arith

pub check-All :
    (P : ℕ → Type 0) (fs : List Format) (x : ℕ)
    → All (λ f. f.format_type ≢ coded → P f.pixelformat) fs
    → format_check fs x picture ≡ true
    → P x
unfolding format_check
check-All P [] x a h = absurd (ground arith)
check-All P (f ∷ fs) x a h = elim (Bool-cases (f.pixelformat == x)) [
  | inr k ↦ check-All P fs x a.1 (rw k at h)
  | inl k ↦ elim (Bool-cases (same_type f.format_type picture)) [
    | inr j ↦ check-All P fs x a.1 (rw (k, j) at h)
    | inl j ↦ subst P (==→≡ f.pixelformat x k) (a.0 (same_type-picture f.format_type j))
  ]
]
