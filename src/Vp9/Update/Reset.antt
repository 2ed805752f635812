-- ===== src/Vp9/Update/Reset.antt =====
-- The reset of the saved frame contexts.
use h618_vpu_port.Base.{
  ℕ, zero, suc, ◌<◌, ◌≡◌, refl, Bool, false, Bool-cases, inl, inr, ◌||◌, ◌&&◌, if◌then◌else◌, ◌==◌,
  List, [], ◌∷◌, length, get_or, set, map, All, true, arith,
}
use h618_vpu_port.Vp9.Context.{Frame, reset_frame_ctx_spec, reset_frame_ctx_all}
use h618_vpu_port.Vp9.Update.{reset_frame_ctx}

-- Whether context `j` gets the defaults: every context on a key frame and on an error-resilient one,
-- and on an intra-only frame those that `reset_frame_context` names.
abbrev pub gets_defaults : Frame → ℕ → Bool
gets_defaults f j =
    f.key_frame
    || f.error_resilient
    || f.intra_only
      && (f.reset_frame_context == reset_frame_ctx_all
          || f.reset_frame_context == reset_frame_ctx_spec && j == f.frame_context_idx)

module _ {ℓ} {A : Type ℓ} where
  get_or-map_const :
      (x d : A) (j : ℕ) (xs : List A) → j < length xs → get_or (map (λ c. x) xs) j d ≡ x
  get_or-map_const x d j [] h = absurd (omega arith)
  get_or-map_const x d zero (y ∷ ys) h = refl
  get_or-map_const x d (suc j) (y ∷ ys) h = get_or-map_const x d j ys (omega arith)

  get_or-set :
      (x d : A) (i j : ℕ) (xs : List A)
      → j < length xs
      → get_or (set xs i x) j d ≡ (if j == i then x else get_or xs j d)
  get_or-set x d i j [] h = absurd (omega arith)
  get_or-set x d zero zero (y ∷ ys) h = refl
  get_or-set x d zero (suc j) (y ∷ ys) h = let e : (suc j == 0) ≡ false = ground arith in rw e
  get_or-set x d (suc i) zero (y ∷ ys) h = let e : (0 == suc i) ≡ false = ground arith in rw e
  get_or-set x d (suc i) (suc j) (y ∷ ys) h =
      let e : (suc j == suc i) ≡ (j == i) = ground arith in
      rw e (get_or-set x d i j ys (omega arith))

-- Every saved context afterwards is the default one or the one it was, as the frame's type, its error
-- resilience and `reset_frame_context` say.
pub reset_frame_ctx_contexts {ℓ} :
    {A : Type ℓ} (defaults d : A) (dec_params : Frame) (frame_context : List A) (j : ℕ)
    → j < length frame_context
    → get_or (reset_frame_ctx defaults dec_params frame_context).1 j d
      ≡ (if gets_defaults dec_params j then defaults else get_or frame_context j d)
unfolding reset_frame_ctx
reset_frame_ctx_contexts x d f c j h =
    let m = get_or-map_const x d j c h in
    let s = get_or-set x d f.frame_context_idx j c h in
    elim (Bool-cases f.key_frame) [
      | inl k ↦ rw k m
      | inr k ↦ elim (Bool-cases f.error_resilient) [
        | inl e ↦ elim (Bool-cases f.intra_only) [ inl i ↦ rw (k, e, i) m | inr i ↦ rw (k, e, i) m ]
        | inr e ↦ elim (Bool-cases f.intra_only) [
          | inr i ↦ rw (k, e, i)
          | inl i ↦ elim (Bool-cases (f.reset_frame_context == reset_frame_ctx_all)) [
            | inl a ↦ rw (k, e, i, a) m
            | inr a ↦ elim (Bool-cases (f.reset_frame_context == reset_frame_ctx_spec)) [
              | inl b ↦ rw (k, e, i, a, b) s
              | inr b ↦ rw (k, e, i, a, b)
            ]
          ]
        ]
      ]
    ]

module _ {ℓ} {A : Type ℓ} (P : A → Type 0) where
  pub set-All : (xs : List A) (i : ℕ) (x : A) → All P xs → P x → All P (set xs i x)
  set-All [] i x a p = tt
  set-All (y ∷ ys) zero x a p = (p, a.1)
  set-All (y ∷ ys) (suc i) x a p = (a.0, set-All ys i x a.1 p)

  map_const-All : (x : A) (xs : List A) → P x → All P (map (λ c. x) xs)
  map_const-All x [] p = tt
  map_const-All x (y ∷ ys) p = (p, map_const-All x ys p)

  pub get_or-All : (xs : List A) (i : ℕ) (x : A) → All P xs → P x → P (get_or xs i x)
  get_or-All [] i x a p = p
  get_or-All (y ∷ ys) zero x a p = a.0
  get_or-All (y ∷ ys) (suc i) x a p = get_or-All ys i x a.1 p

  if-All : (b : Bool) (xs ys : List A) → All P xs → All P ys → All P (if b then xs else ys)
  if-All true xs ys a c = a
  if-All false xs ys a c = c

  -- What holds of the defaults and of every saved context holds of every context after a reset.
  pub reset_frame_ctx-All :
      (defaults : A) (dec_params : Frame) (contexts : List A)
      → All P contexts
      → P defaults
      → All P (reset_frame_ctx defaults dec_params contexts).1
  unfolding reset_frame_ctx
  reset_frame_ctx-All x f c a p =
      elim (Bool-cases (f.key_frame || f.intra_only || f.error_resilient)) [
        | inr e ↦ rw e a
        | inl e ↦ rw e (
            if-All
              (f.key_frame || f.error_resilient || f.reset_frame_context == reset_frame_ctx_all) _ _
              (map_const-All x c p)
              (if-All (f.reset_frame_context == reset_frame_ctx_spec) _ _
                (set-All c f.frame_context_idx x a p) a))
      ]
