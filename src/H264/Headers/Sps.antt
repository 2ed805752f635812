-- ===== src/H264/Headers/Sps.antt =====
-- The sequence parameter set, read by the syntax of ITU-T H.264, 7.3.2.1.1 and E.1.1.
use h618_vpu_port.Base.{
  ℕ, ◌+◌, ◌-◌, ◌*◌, ◌/◌, ◌^◌, ◌≤◌, ◌<◌, ◌≡◌, refl, ap, ap₂, ◌∙◌, List, [], ◌∷◌, ◌++◌, map, Bool,
  true, false, not, ◌&&◌, ◌||◌, Bool-cases, inl, inr, some, if◌then◌else◌, ◌==◌, u8, u16, u32,
  sub_u32, ℤ, pos, arith,
}
use h618_vpu_port.H264.Enums.{
  SarIdc, vui_sar_idc, is_extended, sar_1x1, sar_12x11, sar_10x11, sar_16x11, sar_40x33, sar_24x11,
  sar_20x11, sar_32x11, sar_80x33, sar_18x11, sar_15x11, sar_64x33, sar_160x99, sar_4x3, sar_3x2,
  sar_2x1, sar_extended, sar_other,
}
use h618_vpu_port.H264.Bits.{Put, Coded, coded_nalu_start}
use h618_vpu_port.H264.Bits.Golomb.{Reader, ◌>>=◌, return}
use h618_vpu_port.H264.Bits.Puts.{stream_bits}
use h618_vpu_port.H264.Job.{Context, Job}
use h618_vpu_port.H264.Headers.{
  Call, ue, put_u8, put_u16, put_u32, put_bit, calls, Format, has_chroma_format, is_cropped,
  crop_calls, sar_calls, sps_calls, job_configure_sps,
}
use h618_vpu_port.H264.Headers.Syntax.{
  Descriptor, u, ue_v, Block, read_all, read_all-calls, bind-some, read_blocks, read_blocks-calls,
  values, join, Matches, map-if, All-if, calls_bits, descriptor, value_of, Fits,
}
use h618_vpu_port.H264.Headers.Decode.{nal-bits, padding}

head : List ℤ → ℕ
head (pos n ∷ vs) = n
head vs = 0

second : List ℤ → ℕ
second (x ∷ pos n ∷ vs) = n
second vs = 0

-- The values of profile_idc with chroma_format_idc, by 7.3.2.1.1.
abbrev pub high_profiles : List ℕ
high_profiles = 100 ∷ 110 ∷ 122 ∷ 244 ∷ 44 ∷ 83 ∷ 86 ∷ 118 ∷ 128 ∷ 138 ∷ 139 ∷ 134 ∷ 135 ∷ []

-- Whether a number is in a list, or was found before.
abbrev pub holds : ℕ → Bool → List ℕ → Bool
holds x before [] = before
holds x before (y ∷ ys) = holds x (before || x == y) ys

has_chroma_format-holds : (idc : ℕ) → has_chroma_format idc ≡ holds idc false high_profiles
unfolding has_chroma_format
has_chroma_format-holds idc = refl

-- The elements behind seq_parameter_set_id: with picture order count type 0, for frames, with the
-- timing of the usability information and none of its other parts but the aspect ratio, and the stop
-- bit. profile_idc is the first element of the set.
pub sps_syntax : List Block
sps_syntax =
    (λ h l. if holds (head h) false high_profiles then ue_v ∷ ue_v ∷ ue_v ∷ u 1 ∷ u 1 ∷ [] else [])
    ∷ (λ h l. ue_v ∷ ue_v ∷ ue_v ∷ ue_v ∷ u 1 ∷ ue_v ∷ ue_v ∷ u 1 ∷ u 1 ∷ [])
    ∷ (λ h l. u 1 ∷ [])
    ∷ (λ h l. if head l == 1 then ue_v ∷ ue_v ∷ ue_v ∷ ue_v ∷ [] else [])
    ∷ (λ h l. u 1 ∷ u 1 ∷ [])
    ∷ (λ h l. if second l == 1 then u 8 ∷ [] else [])
    ∷ (λ h l. if head l == 255 then u 16 ∷ u 16 ∷ [] else [])
    ∷ (λ h l. u 1 ∷ u 1 ∷ u 1 ∷ u 1 ∷ u 32 ∷ u 32 ∷ u 1 ∷ u 1 ∷ u 1 ∷ u 1 ∷ u 1 ∷ u 1 ∷ [])
    ∷ []

abbrev chroma_calls : List Call
chroma_calls = ue 1 ∷ ue 0 ∷ ue 0 ∷ put_bit 0 ∷ put_bit 0 ∷ []

abbrev offset_calls : Context → Format → List Call
offset_calls c f =
    ue (f.left / 2)
    ∷ ue (sub_u32 (sub_u32 (c.width_mbs * 16) f.width) f.left / 2)
    ∷ ue (f.top / 2)
    ∷ ue (sub_u32 (sub_u32 (c.height_mbs * 16) f.height) f.top / 2)
    ∷ []

abbrev size_calls : Context → List Call
size_calls c =
    ue (sub_u32 c.log2_max_frame_num 4)
    ∷ ue 0
    ∷ ue (sub_u32 c.log2_max_pic_order_cnt_lsb 4)
    ∷ ue 1
    ∷ put_bit 0
    ∷ ue (sub_u32 c.width_mbs 1)
    ∷ ue (sub_u32 c.height_mbs 1)
    ∷ put_bit 1
    ∷ put_bit 0
    ∷ []

abbrev timing_calls : Format → List Call
timing_calls f =
    put_bit 0
    ∷ put_bit 0
    ∷ put_bit 0
    ∷ put_bit 1
    ∷ put_u32 f.numerator
    ∷ put_u32 (f.denominator * 2)
    ∷ put_bit 1
    ∷ put_bit 0
    ∷ put_bit 0
    ∷ put_bit 0
    ∷ put_bit 0
    ∷ put_bit 1
    ∷ []

number : Bool → ℕ
number b = if b then 1 else 0

-- The calls in the blocks of the table.
sps_blocks : Context → Job → Format → List (List Call)
sps_blocks c job f =
    (if has_chroma_format (u8 job.profile_idc) then chroma_calls else [])
    ∷ size_calls c
    ∷ (put_bit (number (is_cropped c f)) ∷ [])
    ∷ (if is_cropped c f then offset_calls c f else [])
    ∷ (put_bit 1 ∷ put_bit (number c.vui_sar_enable) ∷ [])
    ∷ (if c.vui_sar_enable then put_u8 (vui_sar_idc c.vui_sar_idc) ∷ [] else [])
    ∷ (if c.vui_sar_enable && is_extended c.vui_sar_idc
        then put_u16 c.vui_ext_sar_width ∷ put_u16 c.vui_ext_sar_height ∷ []
        else [])
    ∷ timing_calls f
    ∷ []

abbrev first_calls : Job → List Call
first_calls job =
    put_u8 job.profile_idc
    ∷ put_u8 job.constraint_set_flags
    ∷ put_u8 job.level_idc
    ∷ ue job.seq_parameter_set_id
    ∷ []

sps_calls-blocks :
    (c : Context) (job : Job) (f : Format)
    → sps_calls c job f ≡ first_calls job ++ join (sps_blocks c job f)
unfolding sps_calls sps_blocks join crop_calls sar_calls number
sps_calls-blocks c job f = elim (Bool-cases (is_cropped c f)) [
  | inl e ↦ elim (Bool-cases c.vui_sar_enable) [
    | inl g ↦ elim (Bool-cases (is_extended c.vui_sar_idc)) [
      | inl k ↦ rw (e, g, k) refl
      | inr k ↦ rw (e, g, k) refl
    ]
    | inr g ↦ rw (e, g) refl
  ]
  | inr e ↦ elim (Bool-cases c.vui_sar_enable) [
    | inl g ↦ elim (Bool-cases (is_extended c.vui_sar_idc)) [
      | inl k ↦ rw (e, g, k) refl
      | inr k ↦ rw (e, g, k) refl
    ]
    | inr g ↦ rw (e, g) refl
  ]
]

sar-eq-extended : (s : SarIdc) → (u8 (vui_sar_idc s) == 255) ≡ is_extended s
unfolding vui_sar_idc is_extended
sar-eq-extended sar_1x1 = refl
sar-eq-extended sar_12x11 = refl
sar-eq-extended sar_10x11 = refl
sar-eq-extended sar_16x11 = refl
sar-eq-extended sar_40x33 = refl
sar-eq-extended sar_24x11 = refl
sar-eq-extended sar_20x11 = refl
sar-eq-extended sar_32x11 = refl
sar-eq-extended sar_80x33 = refl
sar-eq-extended sar_18x11 = refl
sar-eq-extended sar_15x11 = refl
sar-eq-extended sar_64x33 = refl
sar-eq-extended sar_160x99 = refl
sar-eq-extended sar_4x3 = refl
sar-eq-extended sar_3x2 = refl
sar-eq-extended sar_2x1 = refl
sar-eq-extended sar_extended = refl
sar-eq-extended sar_other = refl

flag-descriptors :
    (b : Bool) (ds : List Descriptor)
    → (if u32 (number b) == 1 then ds else []) ≡ (if b then ds else [])
unfolding number
flag-descriptors true ds = refl
flag-descriptors false ds = refl

extended-descriptors :
    (enable : Bool) (s : SarIdc) (w h : ℕ)
    → (if head (map value_of (if enable then put_u8 (vui_sar_idc s) ∷ [] else [])) == 255
        then u 16 ∷ u 16 ∷ []
        else [])
      ≡ map descriptor (if enable && is_extended s then put_u16 w ∷ put_u16 h ∷ [] else [])
unfolding head value_of descriptor
extended-descriptors true s w h =
    rw (sar-eq-extended s) (map-if descriptor (is_extended s) (put_u16 w ∷ put_u16 h ∷ []) [])
extended-descriptors false s w h = refl

flag-fits : (b : Bool) → u32 (number b) < 2
unfolding number
flag-fits true = omega arith
flag-fits false = omega arith

-- The numbers of a prepared job and a context that was set up, with the selection inside the picture.
abbrev pub IsSelected : Context → Job → Format → Type 0
IsSelected c job f =
    (job.seq_parameter_set_id < 32)
    × (c.log2_max_frame_num ≡ 8)
    × (c.log2_max_pic_order_cnt_lsb ≡ 8)
    × (1 ≤ c.width_mbs)
    × (c.width_mbs < 2 ^ 16)
    × (1 ≤ c.height_mbs)
    × (c.height_mbs < 2 ^ 16)
    × (f.left + f.width ≤ c.width_mbs * 16)
    × (f.top + f.height ≤ c.height_mbs * 16)

sps-Matches :
    (c : Context) (job : Job) (f : Format) (first : List ℤ)
    → IsSelected c job f
    → head first ≡ u8 job.profile_idc
    → Matches sps_syntax first first (sps_blocks c job f)
unfolding sps_syntax sps_blocks head second descriptor value_of
sps-Matches c job f first (p0, p1, p2, p3, p4, p5, p6, p7, p8) e =
    let bit : u32 0 < 2 = omega arith in
    let one : u32 1 < 2 = omega arith in
    let chroma = has_chroma_format (u8 job.profile_idc) in
    let crop = is_cropped c f in
    let sar = c.vui_sar_enable in
    let idc = put_u8 (vui_sar_idc c.vui_sar_idc) ∷ [] in
    let sizes = put_u16 c.vui_ext_sar_width ∷ put_u16 c.vui_ext_sar_height ∷ [] in
    (
      rw (e, ← has_chroma_format-holds) (map-if descriptor chroma chroma_calls []),
      All-if Fits chroma chroma_calls []
          (omega arith, (omega arith, (omega arith, (bit, (bit, tt))))) tt,
      (
        refl,
        (
          omega arith,
          (
            omega arith,
            (omega arith, (omega arith, (bit, (omega arith, (omega arith, (one, (bit, tt))))))),
          ),
        ),
        (
          refl,
          (flag-fits crop, tt),
          (
            flag-descriptors crop _ ∙ map-if descriptor crop (offset_calls c f) [],
            All-if Fits crop (offset_calls c f) []
                (omega arith, (omega arith, (omega arith, (omega arith, tt)))) tt,
            (
              refl,
              (one, (flag-fits sar, tt)),
              (
                flag-descriptors sar _ ∙ map-if descriptor sar idc [],
                All-if Fits sar idc [] (tt, tt) tt,
                (
                  extended-descriptors sar c.vui_sar_idc c.vui_ext_sar_width c.vui_ext_sar_height,
                  All-if Fits (sar && is_extended c.vui_sar_idc) sizes [] (tt, (tt, tt)) tt,
                  (
                    refl,
                    (
                      bit,
                      (bit, (bit, (one, (tt, (tt, (one, (bit, (bit, (bit, (bit, (one, tt))))))))))),
                    ),
                    tt,
                  ),
                ),
              ),
            ),
          ),
        ),
      ),
    )

-- The samples of the coded picture on the four sides of the selection, added up.
abbrev pub left_out : Context → Format → ℕ
left_out c f =
    f.left
    + (c.width_mbs * 16 - (f.left + f.width))
    + f.top
    + (c.height_mbs * 16 - (f.top + f.height))

-- The elements of the sequence parameter set: the crop offsets are what the selection leaves on each
-- side of the coded picture, in pairs of samples.
elements_with : (chroma crop : Bool) → Context → Job → Format → List ℤ
elements_with chroma crop c job f =
    (pos (u8 job.profile_idc)
      ∷ pos (u8 job.constraint_set_flags)
      ∷ pos (u8 job.level_idc)
      ∷ pos job.seq_parameter_set_id
      ∷ [])
    ++ ((if chroma then pos 1 ∷ pos 0 ∷ pos 0 ∷ pos 0 ∷ pos 0 ∷ [] else [])
        ++ ((pos 4
              ∷ pos 0
              ∷ pos 4
              ∷ pos 1
              ∷ pos 0
              ∷ pos (c.width_mbs - 1)
              ∷ pos (c.height_mbs - 1)
              ∷ pos 1
              ∷ pos 0
              ∷ [])
            ++ ((if crop
                  then pos 1
                    ∷ pos (f.left / 2)
                    ∷ pos ((c.width_mbs * 16 - (f.left + f.width)) / 2)
                    ∷ pos (f.top / 2)
                    ∷ pos ((c.height_mbs * 16 - (f.top + f.height)) / 2)
                    ∷ []
                  else pos 0 ∷ [])
                ++ ((pos 1 ∷ [])
                    ++ ((if c.vui_sar_enable
                          then pos 1
                            ∷ pos (u8 (vui_sar_idc c.vui_sar_idc))
                            ∷ (if is_extended c.vui_sar_idc
                                then pos (u16 c.vui_ext_sar_width)
                                  ∷ pos (u16 c.vui_ext_sar_height)
                                  ∷ []
                                else [])
                          else pos 0 ∷ [])
                        ++ (pos 0
                            ∷ pos 0
                            ∷ pos 0
                            ∷ pos 1
                            ∷ pos (u32 f.numerator)
                            ∷ pos (u32 (f.denominator * 2))
                            ∷ pos 1
                            ∷ pos 0
                            ∷ pos 0
                            ∷ pos 0
                            ∷ pos 0
                            ∷ pos 1
                            ∷ []))))))

-- The flag of the cropping and its offsets.
crop-values :
    (c : Context) (f : Format) (b : Bool) (r : List ℤ)
    → f.left + f.width ≤ c.width_mbs * 16
    → f.top + f.height ≤ c.height_mbs * 16
    → c.width_mbs < 2 ^ 16
    → c.height_mbs < 2 ^ 16
    → pos (u32 (number b)) ∷ (map value_of (if b then offset_calls c f else []) ++ r)
      ≡ (if b
          then pos 1
            ∷ pos (f.left / 2)
            ∷ pos ((c.width_mbs * 16 - (f.left + f.width)) / 2)
            ∷ pos (f.top / 2)
            ∷ pos ((c.height_mbs * 16 - (f.top + f.height)) / 2)
            ∷ []
          else pos 0 ∷ [])
        ++ r
unfolding number value_of
crop-values c f true r a b p q =
    let x : sub_u32 (sub_u32 (c.width_mbs * 16) f.width) f.left
        ≡ c.width_mbs * 16 - (f.left + f.width) =
      omega arith in
    let y : sub_u32 (sub_u32 (c.height_mbs * 16) f.height) f.top
        ≡ c.height_mbs * 16 - (f.top + f.height) =
      omega arith in
    rw (x, y) refl
crop-values c f false r a b p q = refl

-- The flag of the aspect ratio, its code and the extended sizes.
sar-values :
    (c : Context) (enable extended : Bool) (r : List ℤ)
    → pos (u32 (number enable))
        ∷ (map value_of (if enable then put_u8 (vui_sar_idc c.vui_sar_idc) ∷ [] else [])
            ++ (map value_of (
                  if enable && extended
                  then put_u16 c.vui_ext_sar_width ∷ put_u16 c.vui_ext_sar_height ∷ []
                  else [])
                ++ r))
      ≡ (if enable
          then pos 1
            ∷ pos (u8 (vui_sar_idc c.vui_sar_idc))
            ∷ (if extended
                then pos (u16 c.vui_ext_sar_width) ∷ pos (u16 c.vui_ext_sar_height) ∷ []
                else [])
          else pos 0 ∷ [])
        ++ r
unfolding number value_of
sar-values c true true r = refl
sar-values c true false r = refl
sar-values c false extended r = refl

sps-values :
    (c : Context) (job : Job) (f : Format)
    → IsSelected c job f
    → map value_of (first_calls job) ++ values (sps_blocks c job f)
      ≡ elements_with (has_chroma_format (u8 job.profile_idc)) (is_cropped c f) c job f
unfolding elements_with sps_blocks values value_of has_chroma_format number is_cropped
sps-values c job f (p0, p1, p2, p3, p4, p5, p6, p7, p8) =
    let chroma = has_chroma_format (u8 job.profile_idc) in
    let w : sub_u32 c.width_mbs 1 ≡ c.width_mbs - 1 = omega arith in
    let h : sub_u32 c.height_mbs 1 ≡ c.height_mbs - 1 = omega arith in
    let crop = λ (r : List ℤ). crop-values c f (is_cropped c f) r p7 p8 p4 p6 in
    let sar = λ (r : List ℤ). sar-values c c.vui_sar_enable (is_extended c.vui_sar_idc) r in
    rw (p1, p2, w, h, ← map-if value_of chroma chroma_calls [], crop _, sar _) refl

-- The elements of the sequence parameter set, with those of the chroma format for the profiles that have
-- them, and the offsets where the selection leaves anything of the coded picture out.
pub sps_elements : Context → Job → Format → List ℤ
unfolding elements_with
sps_elements c job f =
    elements_with (holds (u8 job.profile_idc) false high_profiles) (not (left_out c f == 0)) c job f

is_cropped-left_out :
    (c : Context) (job : Job) (f : Format)
    → IsSelected c job f
    → is_cropped c f ≡ not (left_out c f == 0)
unfolding is_cropped
is_cropped-left_out c job f (p0, p1, p2, p3, p4, p5, p6, p7, p8) = ground arith

elements-sps :
    (c : Context) (job : Job) (f : Format)
    → IsSelected c job f
    → map value_of (first_calls job) ++ values (sps_blocks c job f) ≡ sps_elements c job f
unfolding sps_elements
elements-sps c job f p =
    sps-values c job f p
    ∙ ap₂ (λ a b. elements_with a b c job f) (has_chroma_format-holds (u8 job.profile_idc))
        (is_cropped-left_out c job f p)

-- A sequence parameter set NAL unit: the framing, the first four elements and the rest of the set.
pub read_sps : Reader (List ℤ)
read_sps = read_all (u 32 ∷ u 8 ∷ []) >>= (λ n.
    read_all (u 8 ∷ u 8 ∷ u 8 ∷ ue_v ∷ [])
    >>= (λ h. read_blocks sps_syntax h h >>= (λ vs. return (n ++ (h ++ vs)))))

read_sps-lem :
    (n h vs : List ℤ) (s t w r : List Bool)
    → read_all (u 32 ∷ u 8 ∷ []) s ≡ some (n, t)
    → read_all (u 8 ∷ u 8 ∷ u 8 ∷ ue_v ∷ []) t ≡ some (h, w)
    → read_blocks sps_syntax h h w ≡ some (vs, r)
    → read_sps s ≡ some (n ++ (h ++ vs), r)
unfolding read_sps
read_sps-lem n h vs s t w r a b d =
    bind-some (read_all (u 32 ∷ u 8 ∷ [])) s
      (λ n.
        read_all (u 8 ∷ u 8 ∷ u 8 ∷ ue_v ∷ [])
        >>= (λ h. read_blocks sps_syntax h h >>= (λ vs. return (n ++ (h ++ vs)))))
      a
    ∙ (bind-some (read_all (u 8 ∷ u 8 ∷ u 8 ∷ ue_v ∷ [])) t
          (λ h. read_blocks sps_syntax h h >>= (λ vs. return (n ++ (h ++ vs)))) b
        ∙ bind-some (read_blocks sps_syntax h h) w (λ vs. return (n ++ (h ++ vs))) d)

sps-read :
    (c : Context) (job : Job) (f : Format) (r : List Bool)
    → IsSelected c job f
    → read_sps (calls_bits (put_u32 1 ∷ put_u8 0x67 ∷ sps_calls c job f) r)
      ≡ some (pos 1 ∷ pos 0x67 ∷ sps_elements c job f, r)
unfolding head descriptor value_of calls_bits
sps-read c job f r p =
    let framing = put_u32 1 ∷ put_u8 0x67 ∷ [] in
    let first = first_calls job in
    let h = map value_of first in
    let rest = calls_bits (join (sps_blocks c job f)) r in
    let a = read_all-calls framing (calls_bits first rest) (tt, (tt, tt)) in
    let b = read_all-calls first rest (tt, (tt, (tt, (omega (arith, p.0), tt)))) in
    let d =
      read_blocks-calls sps_syntax (sps_blocks c job f) h h r (sps-Matches c job f h p refl) in
    ap (λ cs. read_sps (calls_bits (put_u32 1 ∷ put_u8 0x67 ∷ cs) r)) (sps_calls-blocks c job f)
    ∙ (read_sps-lem (map value_of framing) h (values (sps_blocks c job f))
          (calls_bits framing (calls_bits first rest)) (calls_bits first rest) rest r a b d
        ∙ ap (λ vs. some (pos 1 ∷ pos 0x67 ∷ vs, r)) (elements-sps c job f p))

-- The sequence parameter set of a context that was set up, appended to any stream, reads back by the
-- syntax of the standard: the profile and level, the numbers' lengths, the size in macroblocks, the
-- selection as crop offsets where it lies inside the coded picture, the aspect ratio and the timing.
pub job_configure_sps_reads :
    (len : List Put → ℕ) (c : Context) (job : Job) (f : Format) (s : Coded)
    → IsSelected c job f
    → (t : List Bool) × (pad : List Bool) × (stream_bits (job_configure_sps len c job f s).puts []
        ≡ stream_bits s.puts t)
      × (read_sps t ≡ some (pos 1 ∷ pos 0x67 ∷ sps_elements c job f, pad))
unfolding job_configure_sps
job_configure_sps_reads len c job f s p =
    let cs = sps_calls c job f in
    let pad = padding len (calls cs (coded_nalu_start 0x67 s)) in
    (
      calls_bits (put_u32 1 ∷ put_u8 0x67 ∷ cs) pad,
      pad,
      nal-bits len 0x67 cs s,
      sps-read c job f pad p,
    )
