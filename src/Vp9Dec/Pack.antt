-- ===== src/Vp9Dec/Pack.antt =====
-- cedrus-v4l2/cedrus_dec_vp9.c: the image of the probabilities that the engine reads.
pub mod Fields
pub mod Coef
pub mod Layout
use h618_vpu_port.Base.{ℕ, zero, suc, ◌+◌, Bool, if◌then◌else◌, List, [], ◌∷◌, ◌++◌, get_or}
use h618_vpu_port.Vp9.Context.{FrameContext, MvProbs}

-- The bytes of a memory of `n` zeros into whose start at most `n` bytes are copied.
abbrev pub field : (n : ℕ) → List ℕ → List ℕ
field zero bs = []
field (suc n) [] = 0 ∷ field n []
field (suc n) (b ∷ bs) = b ∷ field n bs

abbrev pub concat {ℓ} : {A : Type ℓ} → (A → List ℕ) → List A → List ℕ
concat f [] = []
concat f (x ∷ xs) = f x ++ concat f xs

-- cedrus_vp9_pack_word
abbrev pub pack_word : List ℕ → List ℕ
pack_word bs = field 4 bs

-- The loops over coef.
unfoldable pub pack_coef : List (List (List (List (List (List ℕ))))) → List ℕ
pack_coef = concat (concat (concat (concat (concat pack_word))))

-- The fields up to the image of the motion vectors, in the order of the cursor.
unfoldable pub front_fields : FrameContext → List (List ℕ)
front_fields p =
    field 4 (get_or (get_or p.tx8 0 []) 0 0 ∷ get_or (get_or p.tx8 1 []) 0 0 ∷ [])
    ∷ pack_word (get_or p.tx16 0 [])
    ∷ pack_word (get_or p.tx16 1 [])
    ∷ pack_word (get_or p.tx32 0 [])
    ∷ pack_word (get_or p.tx32 1 [])
    ∷ pack_coef p.coef
    ∷ pack_word p.skip
    ∷ concat pack_word p.inter_mode
    ∷ concat pack_word p.interp_filter
    ∷ pack_word p.is_inter
    ∷ field 8 p.comp_mode
    ∷ field 8 p.comp_ref
    ∷ concat pack_word p.single_ref
    ∷ field 4 []
    ∷ concat (field 16) p.y_mode
    ∷ concat (field 16) p.uv_mode
    ∷ concat pack_word p.partition
    ∷ pack_word p.mv.joint
    ∷ []

abbrev pub join : List (List ℕ) → List ℕ
join [] = []
join (x ∷ xs) = x ++ join xs

-- The 0x30 bytes of one component of the motion vectors.
unfoldable pub mv_fields : MvProbs → (i : ℕ) → List (List ℕ)
mv_fields mv i =
    field 4 (
      get_or mv.sign i 0
      ∷ get_or mv.class0_bit i 0
      ∷ get_or mv.class0_hp i 0
      ∷ get_or mv.hp i 0
      ∷ [])
    ∷ field 4 (get_or (get_or mv.class0_fr i []) 0 [])
    ∷ field 4 (get_or (get_or mv.class0_fr i []) 1 [])
    ∷ field 16 (get_or mv.classes i [])
    ∷ field 12 (get_or mv.bits i [])
    ∷ field 4 (get_or mv.fr i [])
    ∷ []

-- The components in reverse order; the trees of the segments stand in the padding behind the second.
unfoldable pub pack_probs :
    FrameContext → (segmentation : Bool) → (tree_probs pred_probs : List ℕ) → List ℕ
unfolding front_fields mv_fields
pack_probs p segmentation tree_probs pred_probs =
    join (front_fields p)
    ++ (join (mv_fields p.mv 1)
        ++ (field 4 []
            ++ (join (mv_fields p.mv 0)
                ++ (if segmentation
                    then field 8 tree_probs ++ field 4 pred_probs
                    else field 12 []))))
