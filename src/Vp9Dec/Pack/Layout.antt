-- ===== src/Vp9Dec/Pack/Layout.antt =====
-- The layout of the image.
use h618_vpu_port.Base.{
  ℕ, ◌+◌, ◌*◌, ◌<◌, ◌≡◌, refl, ap, ap₂, ◌∙◌, Bool, true, false, if◌then◌else◌, List, [], ◌∷◌, ◌++◌,
  length, length-append, map, get_or, All, arith,
}
use h618_vpu_port.Vp9.Context.{FrameContext, MvProbs}
use h618_vpu_port.Vp9Dec.Pack.{
  field, concat, pack_word, pack_coef, join, front_fields, mv_fields, pack_probs,
}
use h618_vpu_port.Vp9Dec.Pack.Fields.{length-field, append-first, append-second, length-concat}
use h618_vpu_port.Vp9Dec.Pack.Coef.{IsRow, IsCoef, coef_offset, pack_coef-read, length-pack_coef}

-- The dimensions of the arrays of struct v4l2_vp9_frame_context that are packed row by row.
abbrev pub IsShaped : FrameContext → Type 0
IsShaped p =
    IsCoef p.coef
    × (length p.inter_mode ≡ 7)
    × (length p.interp_filter ≡ 4)
    × (length p.single_ref ≡ 5)
    × (length p.y_mode ≡ 4)
    × (length p.uv_mode ≡ 10)
    × (length p.partition ≡ 16)

abbrev sum : List ℕ → ℕ
sum [] = 0
sum (n ∷ ns) = n + sum ns

length-join : (xs : List (List ℕ)) → length (join xs) ≡ sum (map length xs)
length-join [] = refl
length-join (x ∷ xs) = length-append x (join xs) ∙ ap (λ n. length x + n) (length-join xs)

rows_anything : (xs : List (List ℕ)) → All IsRow xs
rows_anything [] = tt
rows_anything (x ∷ xs) = (tt, rows_anything xs)

length-rows : (n m : ℕ) (xs : List (List ℕ)) → length xs ≡ m → length (concat (field n) xs) ≡ m * n
length-rows n m xs e =
    length-concat (field n) IsRow n (λ x u. length-field n x) xs (rows_anything xs)
    ∙ ap (λ k. k * n) e

length-front_fields : (p : FrameContext) → IsShaped p → length (join (front_fields p)) ≡ 0xa94
unfolding front_fields
length-front_fields p s =
    let w : (bs : List ℕ) → length (pack_word bs) ≡ 4 = length-field 4 in
    length-join (front_fields p) ∙ (λ i. sum (
      length-field 4 (get_or (get_or p.tx8 0 []) 0 0 ∷ get_or (get_or p.tx8 1 []) 0 0 ∷ []) i
      ∷ w (get_or p.tx16 0 []) i
      ∷ w (get_or p.tx16 1 []) i
      ∷ w (get_or p.tx32 0 []) i
      ∷ w (get_or p.tx32 1 []) i
      ∷ length-pack_coef p.coef s.0 i
      ∷ w p.skip i
      ∷ length-rows 4 7 p.inter_mode s.1 i
      ∷ length-rows 4 4 p.interp_filter s.2 i
      ∷ w p.is_inter i
      ∷ length-field 8 p.comp_mode i
      ∷ length-field 8 p.comp_ref i
      ∷ length-rows 4 5 p.single_ref s.3 i
      ∷ w [] i
      ∷ length-rows 16 4 p.y_mode s.4 i
      ∷ length-rows 16 10 p.uv_mode s.5 i
      ∷ length-rows 4 16 p.partition s.6 i
      ∷ w p.mv.joint i
      ∷ []))

length-mv_fields : (mv : MvProbs) (i : ℕ) → length (join (mv_fields mv i)) ≡ 44
unfolding mv_fields
length-mv_fields mv i = length-join (mv_fields mv i) ∙ (λ k. sum (
    4
    ∷ length-field 4 (get_or (get_or mv.class0_fr i []) 0 []) k
    ∷ length-field 4 (get_or (get_or mv.class0_fr i []) 1 []) k
    ∷ length-field 16 (get_or mv.classes i []) k
    ∷ length-field 12 (get_or mv.bits i []) k
    ∷ length-field 4 (get_or mv.fr i []) k
    ∷ []))

length-trees :
    (segmentation : Bool) (t q : List ℕ)
    → length (if segmentation then field 8 t ++ field 4 q else field 12 []) ≡ 12
length-trees true t q =
    length-append (field 8 t) (field 4 q) ∙ ap₂ (λ m n. m + n) (length-field 8 t) (length-field 4 q)
length-trees false t q = refl

length-back :
    (p : FrameContext) (segmentation : Bool) (t q : List ℕ)
    → length (
        join (mv_fields p.mv 1)
        ++ (field 4 []
            ++ (join (mv_fields p.mv 0)
                ++ (if segmentation then field 8 t ++ field 4 q else field 12 []))))
      ≡ 104
length-back p segmentation t q =
    let trees = if segmentation then field 8 t ++ field 4 q else field 12 [] in
    omega (
      arith,
      length-append (join (mv_fields p.mv 1)) (field 4 [] ++ (join (mv_fields p.mv 0) ++ trees)),
      length-append (field 4 []) (join (mv_fields p.mv 0) ++ trees),
      length-append (join (mv_fields p.mv 0)) trees,
      length-mv_fields p.mv 1,
      length-mv_fields p.mv 0,
      length-trees segmentation t q,
    )

-- For a context with the dimensions of its arrays the cursor ends at 0xa94, as the code's warning asks, the image
-- has 0xafc bytes, and the probability n of a coefficient stands at the offset of its word from byte 20.
pub pack_probs_layout :
    (p : FrameContext) (segmentation : Bool) (tree_probs pred_probs : List ℕ) (i j k l m n : ℕ)
    → IsShaped p
    → i < 4
    → j < 2
    → k < 2
    → l < 6
    → m < 6
    → n < 3
    → (length (join (front_fields p)) ≡ 0xa94)
      × (length (pack_probs p segmentation tree_probs pred_probs) ≡ 0xafc)
      × (get_or (pack_probs p segmentation tree_probs pred_probs) (20 + coef_offset i j k l m n) 0
          ≡ get_or (get_or (get_or (get_or (get_or (get_or p.coef i []) j []) k []) l []) m []) n 0)
unfolding pack_probs front_fields
pack_probs_layout p segmentation t q i j k l m n s hi hj hk hl hm hn =
    let front = length-front_fields p s in
    let rest =
      join (mv_fields p.mv 1)
      ++ (field 4 []
          ++ (join (mv_fields p.mv 0)
              ++ (if segmentation then field 8 t ++ field 4 q else field 12 []))) in
    let o = coef_offset i j k l m n in
    let c = length-pack_coef p.coef s.0 in
    let first = field 4 (get_or (get_or p.tx8 0 []) 0 0 ∷ get_or (get_or p.tx8 1 []) 0 0 ∷ []) in
    (
      front,
      length-append (join (front_fields p)) rest
          ∙ ap₂ (λ a b. a + b) front (length-back p segmentation t q),
      append-first (join (front_fields p)) rest (20 + o) (omega (arith, front))
          ∙ append-second first _ (20 + o) (16 + o) (omega arith)
          ∙ append-second (pack_word (get_or p.tx16 0 [])) _ (16 + o) (12 + o)
              (omega (arith, length-field 4 (get_or p.tx16 0 [])))
          ∙ append-second (pack_word (get_or p.tx16 1 [])) _ (12 + o) (8 + o)
              (omega (arith, length-field 4 (get_or p.tx16 1 [])))
          ∙ append-second (pack_word (get_or p.tx32 0 [])) _ (8 + o) (4 + o)
              (omega (arith, length-field 4 (get_or p.tx32 0 [])))
          ∙ append-second (pack_word (get_or p.tx32 1 [])) _ (4 + o) o
              (omega (arith, length-field 4 (get_or p.tx32 1 [])))
          ∙ append-first (pack_coef p.coef) _ o (omega (arith, c))
          ∙ pack_coef-read p.coef i j k l m n s.0 hi hj hk hl hm (omega arith),
    )
