-- ===== src/H264/Enums.antt =====
-- cedrus-v4l2/cedrus_enc_h264.c and .h: the menus of the controls, and the codes of the standard that
-- the encoder writes for them. A value outside a menu is `other`.
use h618_vpu_port.Base.{ℕ, ◌+◌, Bool, true, false}

-- V4L2_MPEG_VIDEO_H264_PROFILE_*
pub data Profile : Type 0 where
  baseline constrained_baseline main extended high high_10 high_422 high_444_predictive : Profile
  high_10_intra high_422_intra high_444_intra cavlc_444_intra scalable_baseline : Profile
  scalable_high scalable_high_intra stereo_high multiview_high constrained_high other : Profile

pub profile_idc : Profile → ℕ
profile_idc baseline = 66
profile_idc constrained_baseline = 66
profile_idc main = 77
profile_idc extended = 88
profile_idc high = 100
profile_idc constrained_high = 100
profile_idc high_10 = 110
profile_idc high_10_intra = 110
profile_idc high_422 = 122
profile_idc high_422_intra = 122
profile_idc high_444_predictive = 244
profile_idc high_444_intra = 244
profile_idc cavlc_444_intra = 44
profile_idc scalable_baseline = 83
profile_idc scalable_high = 86
profile_idc scalable_high_intra = 86
profile_idc stereo_high = 128
profile_idc multiview_high = 118
profile_idc other = 0

unfoldable pub profile_cabac_check : Profile → Bool
profile_cabac_check baseline = false
profile_cabac_check constrained_baseline = false
profile_cabac_check extended = false
profile_cabac_check cavlc_444_intra = false
profile_cabac_check p = true

-- V4L2_MPEG_VIDEO_H264_LEVEL_*
pub data Level : Type 0 where
  level_1_0 level_1b level_1_1 level_1_2 level_1_3 level_2_0 level_2_1 level_2_2 : Level
  level_3_0 level_3_1 level_3_2 level_4_0 level_4_1 level_4_2 level_5_0 level_5_1 : Level
  level_5_2 level_6_0 level_6_1 level_6_2 level_other : Level

pub level_idc : Level → ℕ
level_idc level_1_0 = 10
level_idc level_1b = 9
level_idc level_1_1 = 11
level_idc level_1_2 = 12
level_idc level_1_3 = 13
level_idc level_2_0 = 20
level_idc level_2_1 = 21
level_idc level_2_2 = 22
level_idc level_3_0 = 30
level_idc level_3_1 = 31
level_idc level_3_2 = 32
level_idc level_4_0 = 40
level_idc level_4_1 = 41
level_idc level_4_2 = 42
level_idc level_5_0 = 50
level_idc level_5_1 = 51
level_idc level_5_2 = 52
level_idc level_6_0 = 60
level_idc level_6_1 = 61
level_idc level_6_2 = 62
level_idc level_other = 0

-- The flags of different bits, added up.
pub constraint_set_flags : Profile → ℕ
constraint_set_flags baseline = 0x80
constraint_set_flags constrained_baseline = 0x80 + 0x40
constraint_set_flags main = 0x40
constraint_set_flags constrained_high = 0x08 + 0x04
constraint_set_flags high_10_intra = 0x10
constraint_set_flags high_422_intra = 0x10
constraint_set_flags high_444_intra = 0x10
constraint_set_flags cavlc_444_intra = 0x10
constraint_set_flags scalable_high_intra = 0x10
constraint_set_flags p = 0

-- V4L2_MPEG_VIDEO_H264_VUI_SAR_IDC_*
pub data SarIdc : Type 0 where
  sar_1x1 sar_12x11 sar_10x11 sar_16x11 sar_40x33 sar_24x11 sar_20x11 sar_32x11 sar_80x33 : SarIdc
  sar_18x11 sar_15x11 sar_64x33 sar_160x99 sar_4x3 sar_3x2 sar_2x1 sar_extended sar_other : SarIdc

unfoldable pub vui_sar_idc : SarIdc → ℕ
vui_sar_idc sar_1x1 = 1
vui_sar_idc sar_12x11 = 2
vui_sar_idc sar_10x11 = 3
vui_sar_idc sar_16x11 = 4
vui_sar_idc sar_40x33 = 5
vui_sar_idc sar_24x11 = 6
vui_sar_idc sar_20x11 = 7
vui_sar_idc sar_32x11 = 8
vui_sar_idc sar_80x33 = 9
vui_sar_idc sar_18x11 = 10
vui_sar_idc sar_15x11 = 11
vui_sar_idc sar_64x33 = 12
vui_sar_idc sar_160x99 = 13
vui_sar_idc sar_4x3 = 14
vui_sar_idc sar_3x2 = 15
vui_sar_idc sar_2x1 = 16
vui_sar_idc sar_extended = 255
vui_sar_idc sar_other = 0

unfoldable pub is_extended : SarIdc → Bool
is_extended sar_extended = true
is_extended s = false

-- V4L2_MPEG_VIDEO_H264_LOOP_FILTER_MODE_*
pub data LoopFilterMode : Type 0 where
  filter_enabled filter_disabled filter_disabled_at_slice_boundary filter_other : LoopFilterMode

pub disable_deblocking_filter_idc : LoopFilterMode → ℕ
disable_deblocking_filter_idc filter_enabled = 0
disable_deblocking_filter_idc filter_disabled = 1
disable_deblocking_filter_idc filter_disabled_at_slice_boundary = 2
disable_deblocking_filter_idc filter_other = 0

-- enum cedrus_enc_h264_frame_type; the encoder makes no B frames.
pub data FrameType : Type 0 where
  frame_idr frame_i frame_p frame_b : FrameType

unfoldable pub is_idr : FrameType → Bool
is_idr frame_idr = true
is_idr f = false

-- IDR or I.
unfoldable pub is_intra : FrameType → Bool
is_intra frame_idr = true
is_intra frame_i = true
is_intra f = false

unfoldable pub is_p : FrameType → Bool
is_p frame_p = true
is_p f = false

-- enum cedrus_enc_h264_step
pub data HeaderStep : Type 0 where
  step_start step_sps step_pps step_slice : HeaderStep

-- The order of the enumeration.
abbrev pub rank : HeaderStep → ℕ
rank step_start = 0
rank step_sps = 1
rank step_pps = 2
rank step_slice = 3
