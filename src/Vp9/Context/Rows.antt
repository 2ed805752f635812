-- ===== src/Vp9/Context/Rows.antt =====
-- Loops over the rows of an array that change each by the same row of a second one.
use h618_vpu_port.Base.{ℕ, zero, suc, ◌≡◌, refl, ap, List, [], ◌∷◌, All, length}

-- for (i = 0; i < ARRAY_SIZE(p); i++) p[i] = f(p[i], d[i]), where d has as many rows as p.
abbrev pub update_with {ℓ κ} : {A : Type ℓ} {B : Type κ} → (A → B → A) → List A → List B → List A
update_with f [] ys = []
update_with f (x ∷ xs) [] = x ∷ xs
update_with f (x ∷ xs) (y ∷ ys) = f x y ∷ update_with f xs ys

-- The same for the first n rows.
abbrev pub update_first {ℓ κ} :
    {A : Type ℓ} {B : Type κ} → ℕ → (A → B → A) → List A → List B → List A
update_first zero f xs ys = xs
update_first (suc n) f [] ys = []
update_first (suc n) f (x ∷ xs) [] = x ∷ xs
update_first (suc n) f (x ∷ xs) (y ∷ ys) = f x y ∷ update_first n f xs ys

-- f keeps P where the change has Q.
abbrev pub Keeps {ℓ κ ρ σ} :
    {A : Type ℓ} {B : Type κ} → (A → Type ρ) → (B → Type σ) → (A → B → A) → Type (ℓ ⊔ κ ⊔ ρ ⊔ σ)
Keeps {A = A} {B = B} P Q f = (x : A) (y : B) → P x → Q y → P (f x y)

module _ {ℓ κ} {A : Type ℓ} {B : Type κ} (f : A → B → A) where
  pub update_with-length : (xs : List A) (ys : List B) → length (update_with f xs ys) ≡ length xs
  update_with-length [] ys = refl
  update_with-length (x ∷ xs) [] = refl
  update_with-length (x ∷ xs) (y ∷ ys) = ap suc (update_with-length xs ys)

  module _ {ρ σ} {P : A → Type ρ} {Q : B → Type σ} (k : Keeps P Q f) where
    pub update_with-All : Keeps (All P) (All Q) (update_with f)
    update_with-All [] ys p q = tt
    update_with-All (x ∷ xs) [] p q = p
    update_with-All (x ∷ xs) (y ∷ ys) p q = (k x y p.0 q.0, update_with-All xs ys p.1 q.1)

    pub update_first-All : (n : ℕ) → Keeps (All P) (All Q) (update_first n f)
    update_first-All zero xs ys p q = p
    update_first-All (suc n) [] ys p q = tt
    update_first-All (suc n) (x ∷ xs) [] p q = p
    update_first-All (suc n) (x ∷ xs) (y ∷ ys) p q =
        (k x y p.0 q.0, update_first-All n xs ys p.1 q.1)

-- Every list has the predicate that holds of everything.
pub All-intro {ℓ κ} : {A : Type ℓ} {P : A → Type κ} → ((x : A) → P x) → (xs : List A) → All P xs
All-intro h [] = tt
All-intro h (x ∷ xs) = (h x, All-intro h xs)
