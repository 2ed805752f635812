-- ===== src/H264/Job.antt =====
-- cedrus-v4l2/cedrus_enc_h264.c and .h: the context of the encoder, its controls, and the choice of a
-- job's frame type, numbers and quantiser.
pub mod Gop
pub mod Start
use h618_vpu_port.Base.{
  ℕ, ◌+◌, ◌-◌, ◌*◌, ◌/◌, ◌%◌, ◌^◌, Bool, true, false, not, ◌&&◌, ◌||◌, if◌then◌else◌, ltb, ◌==◌,
  u32, ℤ, Ret, ok, err, enodev, einval, div_round_up,
}
use h618_vpu_port.H264.Enums.{
  Profile, profile_idc, profile_cabac_check, Level, level_idc, constraint_set_flags, SarIdc,
  LoopFilterMode, disable_deblocking_filter_idc, FrameType, frame_idr, frame_i, frame_p, is_idr,
  is_intra, HeaderStep, step_start, step_sps, step_pps, step_slice, rank,
}

-- struct cedrus_enc_h264_job
pub record Job : Type 0 where
  pub nal_ref_idc : ℕ
  pub frame_type : FrameType
  pub frame_num : ℕ
  pub pic_order_cnt_lsb : ℕ
  pub qp : ℕ
  pub seq_parameter_set_id : ℕ
  pub pic_parameter_set_id : ℕ
  pub idr_pic_id : ℕ
  pub profile_idc : ℕ
  pub level_idc : ℕ
  pub constraint_set_flags : ℕ
  pub entropy_coding_mode_flag : Bool
  pub chroma_qp_index_offset : ℤ
  pub disable_deblocking_filter_idc : ℕ
  pub slice_alpha_c0_offset_div2 : ℤ
  pub slice_beta_offset_div2 : ℤ
  pub cabac_init_idc : ℕ

-- struct cedrus_enc_h264_state
pub record State : Type 0 where
  pub step : HeaderStep
  pub gop_index : ℕ
  pub frame_num : ℕ
  pub pic_order_cnt_lsb : ℕ
  pub qp_init : ℕ

-- struct cedrus_enc_h264_context, without the buffers. A control of two values is a Boolean.
pub record Context : Type 0 where
  pub width_mbs : ℕ
  pub height_mbs : ℕ
  pub pic_order_cnt_type : ℕ
  pub log2_max_pic_order_cnt_lsb : ℕ
  pub log2_max_frame_num : ℕ
  pub prepend_sps_pps_idr : Bool
  pub profile : Profile
  pub level : Level
  pub vui_sar_enable : Bool
  pub vui_sar_idc : SarIdc
  pub vui_ext_sar_width : ℕ
  pub vui_ext_sar_height : ℕ
  -- V4L2_MPEG_VIDEO_H264_ENTROPY_MODE_CABAC
  pub cabac : Bool
  pub chroma_qp_index_offset : ℤ
  pub loop_filter_mode : LoopFilterMode
  pub loop_filter_alpha : ℤ
  pub loop_filter_beta : ℤ
  pub qp_min : ℕ
  pub qp_max : ℕ
  pub qp_i : ℕ
  pub qp_p : ℕ
  pub gop_closure : Bool
  pub gop_size : ℕ
  pub gop_open_i_period : ℕ
  pub force_key_frame : Bool

-- The state and the numbers of the stream when streaming starts, the controls being those of `c`.
pub setup : ℕ → ℕ → Context → State → Context × State
setup width height c s = (
  record c {
    width_mbs = div_round_up width 16;
    height_mbs = div_round_up height 16;
    log2_max_frame_num = 8;
    pic_order_cnt_type = 0;
    log2_max_pic_order_cnt_lsb = 8;
  },
  record s { step = step_start; gop_index = 0; frame_num = 0; pic_order_cnt_lsb = 0 },
)

-- A control and a value of it.
pub data Ctrl : Type 0 where
  ctrl_prepend ctrl_sar_enable : Bool → Ctrl
  ctrl_sar_idc : SarIdc → Ctrl
  ctrl_ext_sar_width ctrl_ext_sar_height : ℕ → Ctrl
  ctrl_profile : Profile → Ctrl
  ctrl_level : Level → Ctrl
  ctrl_entropy_mode : Bool → Ctrl
  ctrl_chroma_qp_index_offset : ℤ → Ctrl
  ctrl_loop_filter_mode : LoopFilterMode → Ctrl
  ctrl_loop_filter_alpha ctrl_loop_filter_beta : ℤ → Ctrl
  ctrl_min_qp ctrl_max_qp ctrl_i_frame_qp ctrl_p_frame_qp : ℕ → Ctrl
  ctrl_gop_closure : Bool → Ctrl
  ctrl_gop_size ctrl_i_period : ℕ → Ctrl
  ctrl_force_key_frame ctrl_unknown : Ctrl

-- The values that V4L2 keeps of the two controls that depend on each other, cur.val of each.
pub record Controls : Type 0 where
  pub profile : Profile
  pub cabac : Bool

-- Of the new value, ctrl->val; every encoder context has a profile control.
unfoldable pub ctrl_validate : Controls → Ctrl → Ret
ctrl_validate k (ctrl_entropy_mode cabac) =
    if not cabac then ok else if not (profile_cabac_check k.profile) then err einval else ok
ctrl_validate k c = ok

-- if (state->step > step) state->step = step;
abbrev pub back_to : HeaderStep → State → State
back_to step s = record s { step = if ltb (rank step) (rank s.step) then step else s.step }

-- The entropy mode control's own handler.
pub prepare_entropy_mode : Bool → Context × State → Context × State
prepare_entropy_mode cabac (c, s) = (record c { cabac = cabac }, back_to step_pps s)

-- __v4l2_ctrl_s_ctrl to CAVLC, by its documentation: where that changes the control, its handler runs while
-- cur.val still has the value from before, and the new one is stored afterwards.
set_cavlc : Controls × Context × State → Controls × Context × State
set_cavlc (k, c, s) =
    let (c', s') = prepare_entropy_mode true (c, s) in
    if k.cabac then (record k { cabac = false }, c', s') else (k, c, s)

-- With a context, and with the value cur.val of the control: while a control is set that is the one from before
-- the change, and in v4l2_ctrl_handler_setup, when streaming starts, the control's value.
pub ctrl_prepare : Ctrl → Controls × Context × State → Controls × Context × State
ctrl_prepare (ctrl_prepend b) (k, c, s) = (k, record c { prepend_sps_pps_idr = b }, s)
ctrl_prepare (ctrl_sar_enable b) (k, c, s) = (k, record c { vui_sar_enable = b }, s)
ctrl_prepare (ctrl_sar_idc v) (k, c, s) = (k, record c { vui_sar_idc = v }, s)
ctrl_prepare (ctrl_ext_sar_width v) (k, c, s) = (k, record c { vui_ext_sar_width = v }, s)
ctrl_prepare (ctrl_ext_sar_height v) (k, c, s) = (k, record c { vui_ext_sar_height = v }, s)
ctrl_prepare (ctrl_profile v) (k, c, s) =
    let c = record c { profile = v } in
    let (k, c, s) = if not (profile_cabac_check v) then set_cavlc (k, c, s) else (k, c, s) in
    (k, c, back_to step_sps s)
ctrl_prepare (ctrl_level v) (k, c, s) = (k, record c { level = v }, back_to step_sps s)
ctrl_prepare (ctrl_entropy_mode v) (k, c, s) =
    let (c, s) = prepare_entropy_mode v (c, s) in (k, c, s)
ctrl_prepare (ctrl_chroma_qp_index_offset v) (k, c, s) =
    (k, record c { chroma_qp_index_offset = v }, s)
ctrl_prepare (ctrl_loop_filter_mode v) (k, c, s) = (k, record c { loop_filter_mode = v }, s)
ctrl_prepare (ctrl_loop_filter_alpha v) (k, c, s) = (k, record c { loop_filter_alpha = v }, s)
ctrl_prepare (ctrl_loop_filter_beta v) (k, c, s) = (k, record c { loop_filter_beta = v }, s)
ctrl_prepare (ctrl_min_qp v) (k, c, s) = (k, record c { qp_min = v }, s)
ctrl_prepare (ctrl_max_qp v) (k, c, s) = (k, record c { qp_max = v }, s)
ctrl_prepare (ctrl_i_frame_qp v) (k, c, s) = (k, record c { qp_i = v }, s)
ctrl_prepare (ctrl_p_frame_qp v) (k, c, s) = (k, record c { qp_p = v }, s)
ctrl_prepare (ctrl_gop_closure b) (k, c, s) = (k, record c { gop_closure = b }, s)
ctrl_prepare (ctrl_gop_size v) (k, c, s) = (k, record c { gop_size = v }, s)
ctrl_prepare (ctrl_i_period v) (k, c, s) = (k, record c { gop_open_i_period = v }, s)
ctrl_prepare ctrl_force_key_frame (k, c, s) = (k, record c { force_key_frame = true }, s)
ctrl_prepare ctrl_unknown cs = cs

-- The frame type by the place in the group of pictures.
pub gop_frame_type : Context → State → FrameType
gop_frame_type c s =
    if c.gop_closure
    then (if s.gop_index == 0 then frame_idr else frame_p)
    else if s.gop_index == 0
    then frame_idr
    else if ltb 0 c.gop_open_i_period && s.gop_index % c.gop_open_i_period == 0
    then frame_i
    else frame_p

-- The frame type of a job: a key frame that was asked for goes before the group of pictures.
pub job_frame_type : Context → State → FrameType
job_frame_type c s = if c.force_key_frame then frame_idr else gop_frame_type c s

pub next_gop_index : Context → State → ℕ
next_gop_index c s =
    if c.gop_closure then u32 (s.gop_index + 1) % c.gop_size else u32 (s.gop_index + 1)

-- The quantiser of the frame type, between the bounds; the upper bound is tested first.
pub job_qp : Context → FrameType → ℕ
job_qp c t =
    let qp = if is_intra t then c.qp_i else c.qp_p in
    if ltb c.qp_max qp then c.qp_max else if ltb qp c.qp_min then c.qp_min else qp

-- With the state as the frame type leaves it: an IDR picture starts the counts again.
pub start_picture : Context → FrameType → State → State
start_picture c t s =
    if is_idr t
    then record s {
      frame_num = 0;
      pic_order_cnt_lsb = 0;
      step = if c.prepend_sps_pps_idr then step_sps else s.step;
    }
    else s

pub job_prepare : Context × State × Job → Context × State × Job
job_prepare (c, s, job) =
    let t = job_frame_type c s in
    let c = record c { force_key_frame = false } in
    let s = record s { gop_index = next_gop_index c s } in
    let s = start_picture c t s in
    let qp = job_qp c t in
    let deblocking = disable_deblocking_filter_idc c.loop_filter_mode in
    let job : Job = record {
      nal_ref_idc = 2;
      frame_type = t;
      frame_num = s.frame_num;
      pic_order_cnt_lsb = s.pic_order_cnt_lsb;
      qp = qp;
      seq_parameter_set_id = 0;
      pic_parameter_set_id = 0;
      idr_pic_id = if is_idr t then 0 else job.idr_pic_id;
      profile_idc = profile_idc c.profile;
      level_idc = level_idc c.level;
      constraint_set_flags = constraint_set_flags c.profile;
      entropy_coding_mode_flag = c.cabac;
      chroma_qp_index_offset = c.chroma_qp_index_offset;
      disable_deblocking_filter_idc = deblocking;
      slice_alpha_c0_offset_div2 =
          if deblocking == 1 then job.slice_alpha_c0_offset_div2 else c.loop_filter_alpha;
      slice_beta_offset_div2 =
          if deblocking == 1 then job.slice_beta_offset_div2 else c.loop_filter_beta;
      cabac_init_idc = if c.cabac then (if is_intra t then 0 else 1) else 0;
    } in
    let s = record s {
      frame_num = u32 (s.frame_num + 1) % 2 ^ c.log2_max_frame_num;
      pic_order_cnt_lsb = u32 (s.pic_order_cnt_lsb + 2) % 2 ^ c.log2_max_pic_order_cnt_lsb;
      qp_init = if ltb (rank s.step) (rank step_slice) then qp else s.qp_init;
    } in
    (c, s, job)
