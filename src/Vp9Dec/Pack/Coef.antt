-- ===== src/Vp9Dec/Pack/Coef.antt =====
-- Where the image has the probability of a coefficient.
use h618_vpu_port.Base.{
  ℕ, zero, suc, ◌+◌, ◌*◌, ◌<◌, ◌≡◌, ap, ◌∙◌, List, [], ◌∷◌, length, get_or, All, arith,
}
use h618_vpu_port.Vp9Dec.Pack.{concat, pack_word, pack_coef}
use h618_vpu_port.Vp9Dec.Pack.Fields.{length-field, field-read, length-concat, concat-read}

-- coef[4][2][2][6][6]: what the code has as the dimensions of the array.
abbrev pub IsRow : List ℕ → Type 0
IsRow x = Unit

abbrev pub Shape1 : List (List ℕ) → Type 0
Shape1 xs = (length xs ≡ 6) × All IsRow xs

abbrev pub Shape2 : List (List (List ℕ)) → Type 0
Shape2 xs = (length xs ≡ 6) × All Shape1 xs

abbrev pub Shape3 : List (List (List (List ℕ))) → Type 0
Shape3 xs = (length xs ≡ 2) × All Shape2 xs

abbrev pub Shape4 : List (List (List (List (List ℕ)))) → Type 0
Shape4 xs = (length xs ≡ 2) × All Shape3 xs

abbrev pub IsCoef : List (List (List (List (List (List ℕ))))) → Type 0
IsCoef xs = (length xs ≡ 4) × All Shape4 xs

pub length-word : (x : List ℕ) → IsRow x → length (pack_word x) ≡ 4
length-word x u = length-field 4 x

length-bands : (xs : List (List ℕ)) → Shape1 xs → length (concat pack_word xs) ≡ 24
length-bands xs s = length-concat pack_word IsRow 4 length-word xs s.1 ∙ ap (λ n. n * 4) s.0

length-kinds : (xs : List (List (List ℕ))) → Shape2 xs → length (concat (concat pack_word) xs) ≡ 144
length-kinds xs s =
    length-concat (concat pack_word) Shape1 24 length-bands xs s.1 ∙ ap (λ n. n * 24) s.0

length-planes :
    (xs : List (List (List (List ℕ))))
    → Shape3 xs
    → length (concat (concat (concat pack_word)) xs) ≡ 288
length-planes xs s =
    length-concat (concat (concat pack_word)) Shape2 144 length-kinds xs s.1 ∙ ap (λ n. n * 144) s.0

length-sizes :
    (xs : List (List (List (List (List ℕ)))))
    → Shape4 xs
    → length (concat (concat (concat (concat pack_word))) xs) ≡ 576
length-sizes xs s =
    length-concat (concat (concat (concat pack_word))) Shape3 288 length-planes xs s.1
    ∙ ap (λ n. n * 288) s.0

pub length-pack_coef :
    (xs : List (List (List (List (List (List ℕ)))))) → IsCoef xs → length (pack_coef xs) ≡ 2304
unfolding pack_coef
length-pack_coef xs s =
    length-concat (concat (concat (concat (concat pack_word)))) Shape4 576 length-sizes xs s.1
    ∙ ap (λ n. n * 576) s.0

get_or-All {ℓ} :
    {A : Type ℓ} (P : A → Type 0) (xs : List A) (i : ℕ) (d : A)
    → All P xs
    → i < length xs
    → P (get_or xs i d)
get_or-All P [] i d a h = absurd (omega arith)
get_or-All P (x ∷ xs) zero d a h = a.0
get_or-All P (x ∷ xs) (suc i) d a h = get_or-All P xs i d a.1 (omega arith)

-- The offset of a coefficient's probability in the loops.
abbrev pub coef_offset : (i j k l m n : ℕ) → ℕ
coef_offset i j k l m n = i * 576 + (j * 288 + (k * 144 + (l * 24 + (m * 4 + n))))

pub pack_coef-read :
    (xs : List (List (List (List (List (List ℕ)))))) (i j k l m n : ℕ)
    → IsCoef xs
    → i < 4
    → j < 2
    → k < 2
    → l < 6
    → m < 6
    → n < 4
    → get_or (pack_coef xs) (coef_offset i j k l m n) 0
      ≡ get_or (get_or (get_or (get_or (get_or (get_or xs i []) j []) k []) l []) m []) n 0
unfolding pack_coef
pack_coef-read xs i j k l m n s hi hj hk hl hm hn =
    let x1 = get_or xs i [] in
    let s1 : Shape4 x1 = get_or-All Shape4 xs i [] s.1 (omega (arith, s.0)) in
    let x2 = get_or x1 j [] in
    let s2 : Shape3 x2 = get_or-All Shape3 x1 j [] s1.1 (omega (arith, s1.0)) in
    let x3 = get_or x2 k [] in
    let s3 : Shape2 x3 = get_or-All Shape2 x2 k [] s2.1 (omega (arith, s2.0)) in
    let x4 = get_or x3 l [] in
    let s4 : Shape1 x4 = get_or-All Shape1 x3 l [] s3.1 (omega (arith, s3.0)) in
    concat-read (concat (concat (concat (concat pack_word)))) Shape4 576 length-sizes xs i
      (j * 288 + (k * 144 + (l * 24 + (m * 4 + n)))) [] s.1 (omega (arith, s.0)) (omega arith)
    ∙ concat-read (concat (concat (concat pack_word))) Shape3 288 length-planes x1 j
        (k * 144 + (l * 24 + (m * 4 + n))) [] s1.1 (omega (arith, s1.0)) (omega arith)
    ∙ concat-read (concat (concat pack_word)) Shape2 144 length-kinds x2 k (l * 24 + (m * 4 + n)) []
        s2.1 (omega (arith, s2.0)) (omega arith)
    ∙ concat-read (concat pack_word) Shape1 24 length-bands x3 l (m * 4 + n) [] s3.1
        (omega (arith, s3.0)) (omega arith)
    ∙ concat-read pack_word IsRow 4 length-word x4 m n [] s4.1 (omega (arith, s4.0)) hn
    ∙ field-read 4 n (get_or x4 m []) hn
