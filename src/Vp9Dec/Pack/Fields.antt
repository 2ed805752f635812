-- ===== src/Vp9Dec/Pack/Fields.antt =====
-- Reading a concatenation of fields.
use h618_vpu_port.Base.{
  ℕ, zero, suc, ◌+◌, ◌*◌, ◌<◌, ◌≡◌, refl, ap, ap₂, ◌∙◌, List, [], ◌∷◌, ◌++◌, length, length-append,
  get_or, All, arith,
}
use h618_vpu_port.Vp9Dec.Pack.{field, concat}

pub length-field : (n : ℕ) (bs : List ℕ) → length (field n bs) ≡ n
length-field zero bs = refl
length-field (suc n) [] = ap suc (length-field n [])
length-field (suc n) (b ∷ bs) = ap suc (length-field n bs)

pub field-read : (n i : ℕ) (bs : List ℕ) → i < n → get_or (field n bs) i 0 ≡ get_or bs i 0
field-read zero i bs h = absurd (omega arith)
field-read (suc n) zero [] h = refl
field-read (suc n) (suc i) [] h = field-read n i [] (omega arith)
field-read (suc n) zero (b ∷ bs) h = refl
field-read (suc n) (suc i) (b ∷ bs) h = field-read n i bs (omega arith)

pub append-first : (xs ys : List ℕ) (i : ℕ) → i < length xs → get_or (xs ++ ys) i 0 ≡ get_or xs i 0
append-first [] ys i h = absurd (omega arith)
append-first (x ∷ xs) ys zero h = refl
append-first (x ∷ xs) ys (suc i) h = append-first xs ys i (omega arith)

pub append-second :
    (xs ys : List ℕ) (k i : ℕ) → k ≡ length xs + i → get_or (xs ++ ys) k 0 ≡ get_or ys i 0
append-second [] ys k i e = ap (λ j. get_or ys j 0) (omega arith)
append-second (x ∷ xs) ys zero i e = absurd (omega arith)
append-second (x ∷ xs) ys (suc k) i e = append-second xs ys k i (omega arith)

module _ {ℓ} {A : Type ℓ} (f : A → List ℕ) (P : A → Type 0) (w : ℕ)
    (length-f : (x : A) → P x → length (f x) ≡ w) where
  pub length-concat : (xs : List A) → All P xs → length (concat f xs) ≡ length xs * w
  length-concat [] a = omega arith
  length-concat (x ∷ xs) a =
      length-append (f x) (concat f xs)
      ∙ ap₂ (λ m n. m + n) (length-f x a.0) (length-concat xs a.1)
      ∙ omega arith

  pub concat-read :
      (xs : List A) (i r : ℕ) (d : A)
      → All P xs
      → i < length xs
      → r < w
      → get_or (concat f xs) (i * w + r) 0 ≡ get_or (f (get_or xs i d)) r 0
  concat-read [] i r d a h l = absurd (omega arith)
  concat-read (x ∷ xs) zero r d a h l =
      let e = length-f x a.0 in
      ap (λ k. get_or (f x ++ concat f xs) k 0) (omega arith)
      ∙ append-first (f x) (concat f xs) r (omega (arith, e))
  concat-read (x ∷ xs) (suc i) r d a h l =
      let e = length-f x a.0 in
      let p : suc i * w + r ≡ w + (i * w + r) = omega arith in
      append-second (f x) (concat f xs) (suc i * w + r) (i * w + r) (omega (arith, e, p))
      ∙ concat-read xs i r d a.1 (omega arith) l
