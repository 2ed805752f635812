-- ===== src/H264/Headers/Slice.antt =====
-- The slice header, read by the syntax of ITU-T H.264, 7.3.3.
use h618_vpu_port.Base.{
  ℕ, ◌-◌, ◌/◌, ◌%◌, ◌^◌, ◌≤◌, ◌<◌, ◌≡◌, refl, ap, ◌∙◌, List, [], ◌∷◌, ◌++◌, map, append-nil, Bool,
  true, false, not, ◌&&◌, some, All, if◌then◌else◌, ◌==◌, u8, u32, u32_mod, ℤ, pos, diff, arith,
}
use h618_vpu_port.H264.Enums.{is_idr, is_intra}
use h618_vpu_port.H264.Bits.{Coded, coded_nalu_start}
use h618_vpu_port.H264.Bits.Golomb.{Reader, ◌>>=◌, return, IsSigned}
use h618_vpu_port.H264.Bits.Puts.{stream_bits}
use h618_vpu_port.H264.Job.{Context, State, Job}
use h618_vpu_port.H264.Headers.{
  Call, append, ue, se, put_u8, put_u32, put_bit, nalu_header, slice_type, slice_calls,
  job_configure_slice_header,
}
use h618_vpu_port.H264.Headers.Syntax.{
  u, ue_v, se_v, Block, read_all, read_all-calls, bind-some, read_blocks, read_blocks-calls, values,
  join, Matches, map-if, All-if, calls_bits, calls-bits, descriptor, value_of, Fits,
}
use h618_vpu_port.H264.Headers.Decode.{nalu_start-bits, diff-IsSigned}

-- slice_type is the second element, disable_deblocking_filter_idc the second of its block.
second : List ℤ → ℕ
second (x ∷ pos n ∷ vs) = n
second vs = 0

-- For frames, with picture order count type 0, one reference picture and the deblocking control
-- present; `idr` is nal_unit_type 5 and `reference` a nal_ref_idc other than 0, which stand in front of the
-- header. Only a reference picture has dec_ref_pic_marking.
pub slice_syntax : (idr reference cabac : Bool) → (log2_frame_num log2_poc : ℕ) → List Block
slice_syntax idr reference cabac lf lp =
    (λ h l. ue_v ∷ u lf ∷ [])
    ∷ (λ h l. if idr then ue_v ∷ [] else [])
    ∷ (λ h l. u lp ∷ [])
    ∷ (λ h l. if second h == 2 then [] else u 1 ∷ u 1 ∷ [])
    ∷ (λ h l. if reference then (if idr then u 1 ∷ u 1 ∷ [] else u 1 ∷ []) else [])
    ∷ (λ h l. if not (second h == 2) && cabac then ue_v ∷ [] else [])
    ∷ (λ h l. se_v ∷ ue_v ∷ [])
    ∷ (λ h l. if second l == 1 then [] else se_v ∷ se_v ∷ [])
    ∷ []

slice_blocks : Context → State → Job → List (List Call)
slice_blocks c st job =
    (ue job.pic_parameter_set_id ∷ append job.frame_num c.log2_max_frame_num ∷ [])
    ∷ (if is_idr job.frame_type then (ue job.idr_pic_id ∷ []) else [])
    ∷ (append job.pic_order_cnt_lsb c.log2_max_pic_order_cnt_lsb ∷ [])
    ∷ (if slice_type job == 0 then (put_bit 0 ∷ put_bit 0 ∷ []) else [])
    ∷ (if is_idr job.frame_type then (put_bit 0 ∷ put_bit 0 ∷ []) else (put_bit 0 ∷ []))
    ∷ (if not (slice_type job == 2) && job.entropy_coding_mode_flag
        then (ue job.cabac_init_idc ∷ [])
        else [])
    ∷ (se (diff job.qp st.qp_init) ∷ ue job.disable_deblocking_filter_idc ∷ [])
    ∷ (if job.disable_deblocking_filter_idc == 1
        then []
        else (se job.slice_alpha_c0_offset_div2 ∷ se job.slice_beta_offset_div2 ∷ []))
    ∷ []

-- The numbers of a job that `job_prepare` leaves.
abbrev pub IsPrepared : Context → State → Job → Type 0
IsPrepared c st job =
    (job.nal_ref_idc ≡ 2)
    × (job.pic_parameter_set_id < 256)
    × (job.idr_pic_id < 2 ^ 16)
    × (c.log2_max_frame_num ≡ 8)
    × (c.log2_max_pic_order_cnt_lsb ≡ 8)
    × (c.pic_order_cnt_type ≡ 0)
    × (job.frame_num < 256)
    × (job.pic_order_cnt_lsb < 256)
    × (job.qp ≤ 51)
    × (st.qp_init ≤ 51)
    × (job.cabac_init_idc ≤ 2)
    × (job.disable_deblocking_filter_idc ≤ 2)
    × IsSigned job.slice_alpha_c0_offset_div2
    × IsSigned job.slice_beta_offset_div2

slice_calls-blocks :
    (c : Context) (st : State) (job : Job)
    → c.pic_order_cnt_type ≡ 0
    → slice_calls c st job ≡ ue 0 ∷ ue (slice_type job) ∷ join (slice_blocks c st job)
unfolding slice_calls slice_blocks join
slice_calls-blocks c st job h =
    rw
      (
        h,
        append-nil (
            if job.disable_deblocking_filter_idc == 1
            then []
            else (se job.slice_alpha_c0_offset_div2 ∷ se job.slice_beta_offset_div2 ∷ [])),
      )
      refl

-- A slice header's elements in their order.
pub slice_elements : Context → State → Job → List ℤ
slice_elements c st job =
    let intra = is_intra job.frame_type in
    (pos 0 ∷ pos (if intra then 2 else 0) ∷ pos job.pic_parameter_set_id ∷ pos job.frame_num ∷ [])
    ++ ((if is_idr job.frame_type then pos job.idr_pic_id ∷ [] else [])
        ++ ((pos job.pic_order_cnt_lsb ∷ [])
            ++ ((if intra then [] else pos 0 ∷ pos 0 ∷ [])
                ++ ((if is_idr job.frame_type then pos 0 ∷ pos 0 ∷ [] else pos 0 ∷ [])
                    ++ ((if not intra && job.entropy_coding_mode_flag
                          then pos job.cabac_init_idc ∷ []
                          else [])
                        ++ ((diff job.qp st.qp_init ∷ pos job.disable_deblocking_filter_idc ∷ [])
                            ++ (if job.disable_deblocking_filter_idc == 1
                                then []
                                else job.slice_alpha_c0_offset_div2 ∷ job.slice_beta_offset_div2
                                  ∷ [])))))))

type-descriptors :
    (intra : Bool)
    → (if (if intra then 2 else 0) == 2 then [] else u 1 ∷ u 1 ∷ [])
      ≡ map descriptor (if (if intra then 2 else 0) == 0 then (put_bit 0 ∷ put_bit 0 ∷ []) else [])
unfolding descriptor
type-descriptors true = refl
type-descriptors false = refl

type-values :
    (intra : Bool)
    → map value_of (if (if intra then 2 else 0) == 0 then (put_bit 0 ∷ put_bit 0 ∷ []) else [])
      ≡ (if intra then [] else pos 0 ∷ pos 0 ∷ [])
unfolding value_of
type-values true = refl
type-values false = refl

cabac-values :
    (intra cabac : Bool) (n : ℕ)
    → map value_of (if not ((if intra then 2 else 0) == 2) && cabac then (ue n ∷ []) else [])
      ≡ (if not intra && cabac then pos n ∷ [] else [])
unfolding value_of
cabac-values true cabac n = refl
cabac-values false true n = refl
cabac-values false false n = refl

slice-Matches :
    (c : Context) (st : State) (job : Job)
    → IsPrepared c st job
    → Matches
        (slice_syntax (is_idr job.frame_type) true job.entropy_coding_mode_flag 8 8)
        (pos 0 ∷ pos (slice_type job) ∷ [])
        (pos 0 ∷ pos (slice_type job) ∷ [])
        (slice_blocks c st job)
unfolding slice_blocks slice_syntax second slice_type descriptor value_of
slice-Matches c st job (ref, p0, p1, p2, p3, p4, p5, p6, p7, p8, p9, p10, p11, p12) =
    let idr = is_idr job.frame_type in
    let intra = is_intra job.frame_type in
    let cabac = not ((if intra then 2 else 0) == 2) && job.entropy_coding_mode_flag in
    let plain = job.disable_deblocking_filter_idc == 1 in
    let q = diff-IsSigned job.qp st.qp_init (omega arith) (omega arith) in
    let bit : u32 0 < 2 = omega arith in
    let bits : All Fits (put_bit 0 ∷ put_bit 0 ∷ []) = (bit, (bit, tt)) in
    let offsets = se job.slice_alpha_c0_offset_div2 ∷ se job.slice_beta_offset_div2 ∷ [] in
    rw (p2, p3)
      (
        refl,
        (omega arith, (omega arith, tt)),
        (
          map-if descriptor idr (ue job.idr_pic_id ∷ []) [],
          All-if Fits idr (ue job.idr_pic_id ∷ []) [] (omega arith, tt) tt,
          (
            refl,
            (omega arith, tt),
            (
              type-descriptors intra,
              All-if Fits ((if intra then 2 else 0) == 0) (put_bit 0 ∷ put_bit 0 ∷ []) [] bits tt,
              (
                map-if descriptor idr (put_bit 0 ∷ put_bit 0 ∷ []) (put_bit 0 ∷ []),
                All-if Fits idr (put_bit 0 ∷ put_bit 0 ∷ []) (put_bit 0 ∷ []) bits (bit, tt),
                (
                  map-if descriptor cabac (ue job.cabac_init_idc ∷ []) [],
                  All-if Fits cabac (ue job.cabac_init_idc ∷ []) [] (omega arith, tt) tt,
                  (
                    refl,
                    (q, (omega arith, tt)),
                    (
                      map-if descriptor plain [] offsets,
                      All-if Fits plain [] offsets tt (p11, (p12, tt)),
                      tt,
                    ),
                  ),
                ),
              ),
            ),
          ),
        ),
      )

slice-values :
    (c : Context) (st : State) (job : Job)
    → IsPrepared c st job
    → pos 0 ∷ pos (slice_type job) ∷ values (slice_blocks c st job) ≡ slice_elements c st job
unfolding slice_blocks slice_elements values slice_type value_of
slice-values c st job (ref, p0, p1, p2, p3, p4, p5, p6, p7, p8, p9, p10, p11, p12) =
    let idr = is_idr job.frame_type in
    let intra = is_intra job.frame_type in
    let plain = job.disable_deblocking_filter_idc == 1 in
    let a : u32 job.frame_num ≡ job.frame_num = omega arith in
    let b : u32 job.pic_order_cnt_lsb ≡ job.pic_order_cnt_lsb = omega arith in
    let offsets = se job.slice_alpha_c0_offset_div2 ∷ se job.slice_beta_offset_div2 ∷ [] in
    let e = type-values intra in
    let g = cabac-values intra job.entropy_coding_mode_flag job.cabac_init_idc in
    rw
      (
        a,
        b,
        ← map-if value_of idr (ue job.idr_pic_id ∷ []) [],
        e,
        ← map-if value_of idr (put_bit 0 ∷ put_bit 0 ∷ []) (put_bit 0 ∷ []),
        g,
        ← map-if value_of plain [] offsets,
        append-nil,
      )
      refl

type-fits : (intra : Bool) → (if intra then 2 else 0) < u32_mod - 1
type-fits true = omega arith
type-fits false = omega arith

-- A slice NAL unit up to its data: the framing, the first two elements, and the rest of the header.
-- nal_unit_type stands in the low five bits of the NAL header, nal_ref_idc above them.
pub read_slice : Bool → ℕ → ℕ → Reader (List ℤ)
read_slice cabac lf lp = read_all (u 32 ∷ u 8 ∷ []) >>= (λ n. read_all (ue_v ∷ ue_v ∷ []) >>= (λ h.
    read_blocks (slice_syntax (second n % 32 == 5) (not (second n / 32 == 0)) cabac lf lp) h h
    >>= (λ vs. return (n ++ (h ++ vs)))))

-- The NAL header of a job's slice.
abbrev pub slice_header : Job → ℕ
slice_header job = nalu_header (if is_idr job.frame_type then 5 else 1) job.nal_ref_idc

header-type : (idr : Bool) (ref : ℕ) → (u8 (nalu_header (if idr then 5 else 1) ref) % 32 == 5) ≡ idr
header-type true ref = ground arith
header-type false ref = ground arith

header-reference :
    (idr : Bool) (ref : ℕ)
    → ref ≡ 2
    → not (u8 (nalu_header (if idr then 5 else 1) ref) / 32 == 0) ≡ true
header-reference true ref e = ground arith
header-reference false ref e = ground arith

read_slice-lem :
    (cabac : Bool) (n h vs : List ℤ) (s t w r : List Bool)
    → read_all (u 32 ∷ u 8 ∷ []) s ≡ some (n, t)
    → read_all (ue_v ∷ ue_v ∷ []) t ≡ some (h, w)
    → read_blocks (slice_syntax (second n % 32 == 5) (not (second n / 32 == 0)) cabac 8 8) h h w
      ≡ some (vs, r)
    → read_slice cabac 8 8 s ≡ some (n ++ (h ++ vs), r)
unfolding read_slice
read_slice-lem cabac n h vs s t w r a b d =
    bind-some (read_all (u 32 ∷ u 8 ∷ [])) s
      (λ n. read_all (ue_v ∷ ue_v ∷ []) >>= (λ h.
        read_blocks (slice_syntax (second n % 32 == 5) (not (second n / 32 == 0)) cabac 8 8) h h
        >>= (λ vs. return (n ++ (h ++ vs)))))
      a
    ∙ (bind-some (read_all (ue_v ∷ ue_v ∷ [])) t
          (λ h.
            read_blocks (slice_syntax (second n % 32 == 5) (not (second n / 32 == 0)) cabac 8 8) h h
            >>= (λ vs. return (n ++ (h ++ vs))))
          b
        ∙ bind-some
            (read_blocks (slice_syntax (second n % 32 == 5) (not (second n / 32 == 0)) cabac 8 8) h
              h)
            w (λ vs. return (n ++ (h ++ vs))) d)

-- The slice header of a prepared job, whose nal_ref_idc is 2, appended to any stream, reads back by the
-- syntax of the standard, which takes the frame's kind and whether it is a reference from the NAL header
-- and from slice_type: every element of the job, and then what follows.
pub job_configure_slice_header_reads :
    (c : Context) (st : State) (job : Job) (s : Coded) (r : List Bool)
    → IsPrepared c st job
    → (t : List Bool) × (stream_bits (job_configure_slice_header c st job s).puts r
        ≡ stream_bits s.puts t)
      × (read_slice job.entropy_coding_mode_flag 8 8 t
          ≡ some (pos 1 ∷ pos (u8 (slice_header job)) ∷ slice_elements c st job, r))
unfolding job_configure_slice_header second descriptor value_of calls_bits slice_type
job_configure_slice_header_reads c st job s r p =
    let cs = slice_calls c st job in
    let framing = put_u32 1 ∷ put_u8 (slice_header job) ∷ [] in
    let first = ue 0 ∷ ue (slice_type job) ∷ [] in
    let rest = calls_bits (join (slice_blocks c st job)) r in
    let t = calls_bits framing (calls_bits first rest) in
    let bits : stream_bits (job_configure_slice_header c st job s).puts r ≡ stream_bits s.puts t =
      calls-bits cs (coded_nalu_start (slice_header job) s) r
      ∙ (nalu_start-bits (slice_header job) s (calls_bits cs r)
          ∙ ap (λ xs. stream_bits s.puts (calls_bits framing (calls_bits xs r)))
              (slice_calls-blocks c st job p.5)) in
    let a = read_all-calls framing (calls_bits first rest) (tt, (tt, tt)) in
    let z : 0 < u32_mod - 1 = omega arith in
    let b = read_all-calls first rest (z, (type-fits (is_intra job.frame_type), tt)) in
    let h = map value_of first in
    let m = slice-Matches c st job p in
    let d =
      read_blocks-calls (slice_syntax (is_idr job.frame_type) true job.entropy_coding_mode_flag 8 8)
        (slice_blocks c st job) h h r m in
    let d' : read_blocks
          (slice_syntax (u8 (slice_header job) % 32 == 5) (not (u8 (slice_header job) / 32 == 0))
            job.entropy_coding_mode_flag 8 8)
          h h rest
        ≡ some (values (slice_blocks c st job), r) =
      rw
        (
          header-type (is_idr job.frame_type) job.nal_ref_idc,
          header-reference (is_idr job.frame_type) job.nal_ref_idc p.0,
        )
        d in
    (
      t,
      bits,
      read_slice-lem job.entropy_coding_mode_flag (map value_of framing) h
            (values (slice_blocks c st job)) t (calls_bits first rest) rest r a b d'
          ∙ ap (λ vs. some (pos 1 ∷ pos (u8 (slice_header job)) ∷ vs, r)) (slice-values c st job p),
    )
