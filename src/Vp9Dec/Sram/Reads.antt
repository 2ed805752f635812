-- ===== src/Vp9Dec/Sram/Reads.antt =====
-- The tables read back: the levels of the loop filter and the quantisers of a segment.
use h618_vpu_port.Base.{
  ℕ, ◌+◌, ◌*◌, ◌/◌, ◌%◌, ◌^◌, ◌≤◌, ◌<◌, ◌≡◌, sym, ap, ap₂, ◌∙◌, false, if◌then◌else◌, ◌==◌,
  Bool-cases, inl, inr, u32, bit_or, List, [], ◌∷◌, ◌++◌, get_or, leb, All, ℤ, pos, negsuc, arith,
}
use mathlib.Core.Path.{subst}
use h618_vpu_port.Base.Bits.{bit_or-shift_low}
use h618_vpu_port.Vp9Dec.Sram.{
  ◌+ℤ◌, times, clamp_int, Segmentation, LoopFilter, seg_lvl_alt_l, feature_active, segment_value,
  intra_level, inter_level, loop_filter_entry,
}

-- The bytes of a word, the lowest first.
abbrev pub bytes : ℕ → List ℕ
bytes w = w % 2 ^ 8 ∷ w / 2 ^ 8 % 2 ^ 8 ∷ w / 2 ^ 16 % 2 ^ 8 ∷ w / 2 ^ 24 ∷ []

clamp_int-le : (x : ℤ) (hi : ℕ) → clamp_int x hi ≤ hi
clamp_int-le (pos a) hi = omega arith
clamp_int-le (negsuc a) hi = omega arith

inter_level-le :
    (lf : LoopFilter) (level reference mode : ℕ)
    → level ≤ 63
    → inter_level lf level reference mode ≤ 63
unfolding inter_level
inter_level-le lf level reference mode h = elim (Bool-cases lf.delta_enabled) [
  | inl e ↦ rw e (clamp_int-le _ 63)
  | inr e ↦ rw e h
]

intra_level-le : (lf : LoopFilter) (level : ℕ) → level ≤ 63 → intra_level lf level ≤ 63
unfolding intra_level
intra_level-le lf level h = elim (Bool-cases lf.delta_enabled) [
  | inl e ↦ rw e (clamp_int-le _ 63)
  | inr e ↦ rw e h
]

or_byte :
    (k w b : ℕ)
    → w < 2 ^ k
    → k ≤ 24
    → b ≤ 63
    → b * 2 ^ k < 2 ^ 32
    → bit_or w (u32 (b * 2 ^ k)) ≡ w + b * 2 ^ k
or_byte k w b h l c d =
    let e : u32 (b * 2 ^ k) ≡ b * 2 ^ k = omega arith in ap (bit_or w) e ∙ bit_or-shift_low k w b h

list_of_four :
    {a b c d w x y z : ℕ}
    → w ≡ a
    → x ≡ b
    → y ≡ c
    → z ≡ d
    → (w ∷ x ∷ y ∷ z ∷ []) ≡ (a ∷ b ∷ c ∷ d ∷ [])
list_of_four p q r s = λ i. p i ∷ q i ∷ r i ∷ s i ∷ []

four :
    (a b c d : ℕ)
    → a ≤ 63
    → b ≤ 63
    → c ≤ 63
    → d ≤ 63
    → bytes (bit_or (bit_or (bit_or a (u32 (b * 2 ^ 8))) (u32 (c * 2 ^ 16))) (u32 (d * 2 ^ 24)))
      ≡ a ∷ b ∷ c ∷ d ∷ []
four a b c d ha hb hc hd =
    let x = or_byte 8 a b (omega arith) (omega arith) hb (omega arith) in
    let y = or_byte 16 (a + b * 2 ^ 8) c (omega arith) (omega arith) hc (omega arith) in
    let z =
      or_byte 24 (a + b * 2 ^ 8 + c * 2 ^ 16) d (omega arith) (omega arith) hd (omega arith) in
    let e =
      ap (λ w. bit_or (bit_or w (u32 (c * 2 ^ 16))) (u32 (d * 2 ^ 24))) x
      ∙ ap (λ w. bit_or w (u32 (d * 2 ^ 24))) y
      ∙ z in
    ap bytes e ∙ list_of_four (omega arith) (omega arith) (omega arith) (omega arith)

three :
    (a c d : ℕ)
    → a ≤ 63
    → c ≤ 63
    → d ≤ 63
    → bytes (bit_or (bit_or a (u32 (c * 2 ^ 16))) (u32 (d * 2 ^ 24))) ≡ a ∷ 0 ∷ c ∷ d ∷ []
three a c d ha hc hd =
    let y = or_byte 16 a c (omega arith) (omega arith) hc (omega arith) in
    let z = or_byte 24 (a + c * 2 ^ 16) d (omega arith) (omega arith) hd (omega arith) in
    ap bytes (ap (λ w. bit_or w (u32 (d * 2 ^ 24))) y ∙ z)
    ∙ list_of_four (omega arith) (omega arith) (omega arith) (omega arith)

-- What a feature of a segment makes of the value of the frame.
abbrev pub value_of : Segmentation → (segment feature base : ℕ) → ℤ
value_of seg segment feature base =
    let setting = get_or (get_or seg.feature_data segment []) feature (pos 0) in
    if feature_active seg segment feature
    then (if seg.abs_or_delta_update then setting else setting +ℤ pos base)
    else pos base

-- The level of a segment, a reference (0 is intra) and a mode, as the VP9 specification has it.
abbrev pub level_of : Segmentation → LoopFilter → (segment reference mode : ℕ) → ℕ
level_of seg lf segment reference mode =
    let level = clamp_int (value_of seg segment seg_lvl_alt_l lf.level) 63 in
    let shifted = 2 ^ (level / 2 ^ 5) in
    let of_mode =
      if reference == 0 then pos 0 else times (get_or lf.mode_deltas mode (pos 0)) shifted in
    if lf.delta_enabled
    then clamp_int (pos level +ℤ times (get_or lf.ref_deltas reference (pos 0)) shifted +ℤ of_mode)
        63
    else level

pub segment_value_lem :
    (seg : Segmentation) (segment feature base : ℕ)
    → segment_value seg segment feature (pos base) ≡ value_of seg segment feature base
unfolding segment_value
segment_value_lem seg segment feature base = ground arith

add_zero : (x : ℤ) → x +ℤ pos 0 ≡ x
add_zero (pos a) = ap pos (omega arith)
add_zero (negsuc a) = let e : leb (a + 1) 0 ≡ false = ground arith in rw e (ap negsuc (omega arith))

intra_level-inter :
    (lf : LoopFilter) (level : ℕ)
    → intra_level lf level ≡ (
        if lf.delta_enabled
        then clamp_int
            (pos level +ℤ times (get_or lf.ref_deltas 0 (pos 0)) (2 ^ (level / 2 ^ 5)) +ℤ pos 0)
            63
        else level)
unfolding intra_level
intra_level-inter lf level = sym (
    ap (λ z. if lf.delta_enabled then clamp_int z 63 else level)
      (add_zero (pos level +ℤ times (get_or lf.ref_deltas 0 (pos 0)) (2 ^ (level / 2 ^ 5)))))

levels_of :
    (seg : Segmentation) (lf : LoopFilter) (segment : ℕ)
    → let level : ℕ = clamp_int (segment_value seg segment seg_lvl_alt_l (pos lf.level)) 63 in
      (intra_level lf level
        ∷ 0
        ∷ inter_level lf level 1 0
        ∷ inter_level lf level 1 1
        ∷ inter_level lf level 2 0
        ∷ inter_level lf level 2 1
        ∷ inter_level lf level 3 0
        ∷ inter_level lf level 3 1
        ∷ [])
      ≡ (level_of seg lf segment 0 0
          ∷ 0
          ∷ level_of seg lf segment 1 0
          ∷ level_of seg lf segment 1 1
          ∷ level_of seg lf segment 2 0
          ∷ level_of seg lf segment 2 1
          ∷ level_of seg lf segment 3 0
          ∷ level_of seg lf segment 3 1
          ∷ [])
unfolding inter_level
levels_of seg lf segment =
    let v = segment_value_lem seg segment seg_lvl_alt_l lf.level in
    let inter : (r m : ℕ) → ℤ → ℕ = λ r m s. inter_level lf (clamp_int s 63) r m in
    let intra =
      ap (λ s. intra_level lf (clamp_int s 63)) v
      ∙ intra_level-inter lf (clamp_int (value_of seg segment seg_lvl_alt_l lf.level) 63) in
    λ i.
      intra i
      ∷ 0
      ∷ ap (inter 1 0) v i
      ∷ ap (inter 1 1) v i
      ∷ ap (inter 2 0) v i
      ∷ ap (inter 2 1) v i
      ∷ ap (inter 3 0) v i
      ∷ ap (inter 3 1) v i
      ∷ []

-- The two words of a segment hold, a byte for each reference and mode, the levels of the specification, each at
-- most 63; the intra level has one byte, and the byte behind it is zero.
pub loop_filter_entry_levels :
    (seg : Segmentation) (lf : LoopFilter) (segment : ℕ)
    → (bytes (loop_filter_entry seg lf segment).0 ++ bytes (loop_filter_entry seg lf segment).1
        ≡ level_of seg lf segment 0 0
          ∷ 0
          ∷ level_of seg lf segment 1 0
          ∷ level_of seg lf segment 1 1
          ∷ level_of seg lf segment 2 0
          ∷ level_of seg lf segment 2 1
          ∷ level_of seg lf segment 3 0
          ∷ level_of seg lf segment 3 1
          ∷ [])
      × All
          (λ b. b ≤ 63)
          (bytes (loop_filter_entry seg lf segment).0 ++ bytes (loop_filter_entry seg lf segment).1)
unfolding loop_filter_entry intra_level inter_level
loop_filter_entry_levels seg lf segment =
    let level = clamp_int (segment_value seg segment seg_lvl_alt_l (pos lf.level)) 63 in
    let h = clamp_int-le (segment_value seg segment seg_lvl_alt_l (pos lf.level)) 63 in
    let i = inter_level-le lf level in
    let first = three _ _ _ (intra_level-le lf level h) (i 1 0 h) (i 1 1 h) in
    let second = four _ _ _ _ (i 2 0 h) (i 2 1 h) (i 3 0 h) (i 3 1 h) in
    let e = ap₂ (λ x y. x ++ y) first second in
    let a : All (λ b. b ≤ 63)
        (intra_level lf level
          ∷ 0
          ∷ inter_level lf level 1 0
          ∷ inter_level lf level 1 1
          ∷ inter_level lf level 2 0
          ∷ inter_level lf level 2 1
          ∷ inter_level lf level 3 0
          ∷ inter_level lf level 3 1
          ∷ []) =
      (
        intra_level-le lf level h,
        (omega arith, (i 1 0 h, (i 1 1 h, (i 2 0 h, (i 2 1 h, (i 3 0 h, (i 3 1 h, tt))))))),
      ) in
    (e ∙ levels_of seg lf segment, subst (All (λ b. b ≤ 63)) (sym e) a)
