-- ===== src/H264/Headers.antt =====
-- cedrus-v4l2/cedrus_enc_h264.c: the parameter sets and the slice header of a job. The calls of
-- cedrus_enc_h264_coded_* that a function makes are a list, in their order.
pub mod Decode
pub mod Slice
pub mod Sps
pub mod Steps
pub mod Syntax
use h618_vpu_port.Base.{
  ℕ, zero, suc, ◌+◌, ◌-◌, ◌*◌, ◌/◌, ◌%◌, List, [], ◌∷◌, ◌++◌, Bool, true, false, not, ◌&&◌, ◌||◌,
  if◌then◌else◌, ◌==◌, u8, u16, u32, sub_u32, ℤ, diff, Option, none, some,
}
use h618_vpu_port.H264.Enums.{
  vui_sar_idc, is_extended, is_idr, is_intra, is_p, HeaderStep, step_start, step_sps, step_pps,
  step_slice,
}
use h618_vpu_port.H264.Bits.{
  Put, Coded, coded_append, coded_ue, coded_se, coded_u8, coded_u16, coded_u32, coded_bit,
  coded_align, coded_nalu_start,
}
use h618_vpu_port.H264.Job.{Context, State, Job}

pub data Call : Type 0 where
  append : ℕ → ℕ → Call
  ue : ℕ → Call
  se : ℤ → Call
  put_u8 put_u16 put_u32 put_bit : ℕ → Call

pub call : Call → Coded → Coded
call (append value count) = coded_append value count
call (ue value) = coded_ue value
call (se value) = coded_se value
call (put_u8 value) = coded_u8 value
call (put_u16 value) = coded_u16 value
call (put_u32 value) = coded_u32 value
call (put_bit value) = coded_bit value

pub calls : List Call → Coded → Coded
calls [] s = s
calls (c ∷ cs) s = calls cs (call c s)

-- (type & GENMASK(4, 0)) | ((ref_idc << 5) & GENMASK(6, 5))
abbrev pub nalu_header : ℕ → ℕ → ℕ
nalu_header type ref_idc = ref_idc % 4 * 32 + type % 32

-- What the encoder's settings outside its own context give: selection_picture and timeperframe_coded.
pub record Format : Type 0 where
  pub left : ℕ
  pub top : ℕ
  pub width : ℕ
  pub height : ℕ
  pub numerator : ℕ
  pub denominator : ℕ

flag : Bool → ℕ
flag b = if b then 1 else 0

pub has_chroma_format : ℕ → Bool
has_chroma_format idc =
    idc == 100
    || idc == 110
    || idc == 122
    || idc == 244
    || idc == 44
    || idc == 83
    || idc == 86
    || idc == 118
    || idc == 128
    || idc == 138
    || idc == 139
    || idc == 134
    || idc == 135

pub is_cropped : Context → Format → Bool
is_cropped c f =
    not (f.left == 0)
    || not (f.top == 0)
    || not (f.width == c.width_mbs * 16)
    || not (f.height == c.height_mbs * 16)

pub crop_calls : Context → Format → List Call
crop_calls c f =
    if is_cropped c f
    then (put_bit 1
        ∷ ue (f.left / 2)
        ∷ ue (sub_u32 (sub_u32 (c.width_mbs * 16) f.width) f.left / 2)
        ∷ ue (f.top / 2)
        ∷ ue (sub_u32 (sub_u32 (c.height_mbs * 16) f.height) f.top / 2)
        ∷ [])
    else (put_bit 0 ∷ [])

pub sar_calls : Context → List Call
sar_calls c =
    if c.vui_sar_enable
    then (put_bit 1
        ∷ put_u8 (vui_sar_idc c.vui_sar_idc)
        ∷ (if is_extended c.vui_sar_idc
            then (put_u16 c.vui_ext_sar_width ∷ put_u16 c.vui_ext_sar_height ∷ [])
            else []))
    else (put_bit 0 ∷ [])

pub sps_calls : Context → Job → Format → List Call
sps_calls c job f =
    (put_u8 job.profile_idc
      ∷ put_u8 job.constraint_set_flags
      ∷ put_u8 job.level_idc
      ∷ ue job.seq_parameter_set_id
      ∷ [])
    ++ ((if has_chroma_format (u8 job.profile_idc)
          then (ue 1 ∷ ue 0 ∷ ue 0 ∷ put_bit 0 ∷ put_bit 0 ∷ [])
          else [])
        ++ ((ue (sub_u32 c.log2_max_frame_num 4)
              ∷ ue 0
              ∷ ue (sub_u32 c.log2_max_pic_order_cnt_lsb 4)
              ∷ ue 1
              ∷ put_bit 0
              ∷ ue (sub_u32 c.width_mbs 1)
              ∷ ue (sub_u32 c.height_mbs 1)
              ∷ put_bit 1
              ∷ put_bit 0
              ∷ [])
            ++ (crop_calls c f
                ++ ((put_bit 1 ∷ [])
                    ++ (sar_calls c
                        ++ (put_bit 0
                            ∷ put_bit 0
                            ∷ put_bit 0
                            ∷ put_bit 1
                            ∷ put_u32 f.numerator
                            ∷ put_u32 (f.denominator * 2)
                            ∷ put_bit 1
                            ∷ put_bit 0
                            ∷ put_bit 0
                            ∷ put_bit 0
                            ∷ put_bit 0
                            ∷ put_bit 1
                            ∷ []))))))

-- `stm_bit_len` is what VE_ENC_AVC_STM_BIT_LEN_REG reads after the puts.
pub job_configure_sps : (List Put → ℕ) → Context → Job → Format → Coded → Coded
job_configure_sps stm_bit_len c job f s =
    let s = coded_nalu_start (nalu_header 7 3) s in
    let s = calls (sps_calls c job f) s in coded_align stm_bit_len s

pub pps_calls : State → Job → List Call
pps_calls st job =
    ue job.pic_parameter_set_id
    ∷ ue job.seq_parameter_set_id
    ∷ put_bit (flag job.entropy_coding_mode_flag)
    ∷ put_bit 0
    ∷ ue 0
    ∷ ue 0
    ∷ ue 0
    ∷ put_bit 0
    ∷ append 0 2
    ∷ se (diff st.qp_init 26)
    ∷ se (diff st.qp_init 26)
    ∷ se job.chroma_qp_index_offset
    ∷ put_bit 1
    ∷ put_bit 0
    ∷ put_bit 0
    ∷ put_bit 1
    ∷ []

pub job_configure_pps : (List Put → ℕ) → State → Job → Coded → Coded
job_configure_pps stm_bit_len st job s =
    let s = coded_nalu_start (nalu_header 8 3) s in
    let s = calls (pps_calls st job) s in coded_align stm_bit_len s

pub slice_type : Job → ℕ
slice_type job = if is_intra job.frame_type then 2 else 0

pub slice_calls : Context → State → Job → List Call
slice_calls c st job =
    let is_i = slice_type job == 2 in
    (ue 0
      ∷ ue (slice_type job)
      ∷ ue job.pic_parameter_set_id
      ∷ append job.frame_num c.log2_max_frame_num
      ∷ [])
    ++ ((if is_idr job.frame_type then (ue job.idr_pic_id ∷ []) else [])
        ++ ((if c.pic_order_cnt_type == 0
              then (append job.pic_order_cnt_lsb c.log2_max_pic_order_cnt_lsb ∷ [])
              else [])
            ++ ((if slice_type job == 0 then (put_bit 0 ∷ put_bit 0 ∷ []) else [])
                ++ ((if is_idr job.frame_type
                      then (put_bit 0 ∷ put_bit 0 ∷ [])
                      else (put_bit 0 ∷ []))
                    ++ ((if not is_i && job.entropy_coding_mode_flag
                          then (ue job.cabac_init_idc ∷ [])
                          else [])
                        ++ ((se (diff job.qp st.qp_init)
                              ∷ ue job.disable_deblocking_filter_idc
                              ∷ [])
                            ++ (if job.disable_deblocking_filter_idc == 1
                                then []
                                else (se job.slice_alpha_c0_offset_div2
                                    ∷ se job.slice_beta_offset_div2
                                    ∷ []))))))))

pub job_configure_slice_header : Context → State → Job → Coded → Coded
job_configure_slice_header c st job s =
    let nalu_type = if is_idr job.frame_type then 5 else 1 in
    let s = coded_nalu_start (nalu_header nalu_type job.nal_ref_idc) s in
    calls (slice_calls c st job) s

-- while (active) switch (state->step), with fuel for the turns of the loop; the wait for the engine
-- behind it is not part of the state.
pub job_configure_headers :
    ℕ → (List Put → ℕ) → Context → Job → Format → State × Coded → Option (State × Coded)
job_configure_headers zero len c job f (st, s) = none
job_configure_headers (suc fuel) len c job f (st, s) = elim st.step [
  | step_start ↦ job_configure_headers fuel len c job f (record st { step = step_sps }, s)
  | step_sps ↦
      job_configure_headers fuel len c job f
        (record st { step = step_pps }, job_configure_sps len c job f s)
  | step_pps ↦
      job_configure_headers fuel len c job f
        (record st { step = step_slice }, job_configure_pps len st job s)
  | step_slice ↦ some (st, job_configure_slice_header c st job s)
]
