-- ===== src/H264/Tests.antt =====
-- The H.264 encoder at a picture of 320 by 240.
pub mod Jobs
use h618_vpu_port.Base.{
  ℕ, suc, ◌%◌, ◌^◌, ◌≤◌, ◌<◌, ◌≡◌, refl, List, [], ◌∷◌, Bool, true, false, some, length, pos,
  negsuc, u8, arith,
}
use h618_vpu_port.H264.Enums.{
  frame_p, high, baseline, level_4_0, sar_1x1, filter_enabled, step_start, step_slice,
}
use h618_vpu_port.H264.Bits.{Put, Coded, coded_ue, coded_se, coded_align, signed_ue}
use h618_vpu_port.H264.Bits.Golomb.{to_bits, read_ue, read_se}
use h618_vpu_port.H264.Bits.Puts.{stream_bits, coded_ue_reads, coded_se_reads}
use h618_vpu_port.H264.Job.{
  Context, State, Job, setup, ctrl_profile, ctrl_prepend, ctrl_level, ctrl_entropy_mode,
  ctrl_gop_size, Controls, job_qp, job_prepare,
}
use h618_vpu_port.H264.Job.Start.{apply_ctrls}
use h618_vpu_port.H264.Job.Gop.{
  IsNumbered, IsPicture, jobs, closed_gop, job_prepare-IsNumbered, job_qp_bounds,
}
use h618_vpu_port.H264.Headers.{
  Format, job_configure_sps, job_configure_pps, job_configure_slice_header, job_configure_headers,
}
use h618_vpu_port.H264.Headers.Syntax.{u, read_all}
use h618_vpu_port.H264.Headers.Decode.{
  IsBitLen, coded_align-IsAligned, pps_syntax, pps_elements, job_configure_pps_reads,
}
use h618_vpu_port.H264.Headers.Slice.{
  slice_header, slice_elements, read_slice, job_configure_slice_header_reads,
}
use h618_vpu_port.H264.Headers.Sps.{sps_elements, read_sps, job_configure_sps_reads}
use h618_vpu_port.H264.Headers.Steps.{headers, job_configure_headers-eq-headers}

-- A register that counts the bits that were put.
abbrev bit_len : List Put → ℕ
bit_len ps = length (stream_bits ps [])

bit_len-IsBitLen : IsBitLen bit_len
bit_len-IsBitLen ps = omega arith

abbrev context : Context
context = record {
  width_mbs = 20;
  height_mbs = 15;
  pic_order_cnt_type = 0;
  log2_max_pic_order_cnt_lsb = 8;
  log2_max_frame_num = 8;
  prepend_sps_pps_idr = true;
  profile = high;
  level = level_4_0;
  vui_sar_enable = true;
  vui_sar_idc = sar_1x1;
  vui_ext_sar_width = 1;
  vui_ext_sar_height = 1;
  cabac = true;
  chroma_qp_index_offset = pos 4;
  loop_filter_mode = filter_enabled;
  loop_filter_alpha = negsuc 1;
  loop_filter_beta = pos 2;
  qp_min = 10;
  qp_max = 40;
  qp_i = 26;
  qp_p = 28;
  gop_closure = true;
  gop_size = 12;
  gop_open_i_period = 12;
  force_key_frame = false;
}

abbrev state : State
state = record {
  step = step_start;
  gop_index = 0;
  frame_num = 0;
  pic_order_cnt_lsb = 0;
  qp_init = 26;
}

abbrev job : Job
job = record {
  nal_ref_idc = 2;
  frame_type = frame_p;
  frame_num = 5;
  pic_order_cnt_lsb = 10;
  qp = 28;
  seq_parameter_set_id = 0;
  pic_parameter_set_id = 0;
  idr_pic_id = 0;
  profile_idc = 100;
  level_idc = 40;
  constraint_set_flags = 0;
  entropy_coding_mode_flag = true;
  chroma_qp_index_offset = pos 4;
  disable_deblocking_filter_idc = 0;
  slice_alpha_c0_offset_div2 = negsuc 1;
  slice_beta_offset_div2 = pos 2;
  cabac_init_idc = 1;
}

abbrev format : Format
format = record { left = 0; top = 0; width = 318; height = 238; numerator = 1; denominator = 25 }

abbrev coded : Coded
coded = record { puts = record { value = 1; count = 3; escaped = false } ∷ []; para0 = 0 }

-- The profile was set to baseline while the entropy mode was CABAC.
abbrev baseline_cabac : Controls
baseline_cabac = record { profile = baseline; cabac = true }

abbrev started : Controls × Context × State
started =
    apply_ctrls
      (ctrl_prepend true
        ∷ (ctrl_profile high
            ∷ (ctrl_level level_4_0 ∷ (ctrl_entropy_mode true ∷ (ctrl_gop_size 12 ∷ [])))))
      (baseline_cabac, context, state)

closed_gop_example :
    IsPicture
      (13 % 12)
      (jobs 14 ((setup 320 240 context state).0, (setup 320 240 context state).1, job)).2
closed_gop_example = closed_gop 320 240 context state job 13 refl refl (omega arith) (omega arith)

job_configure_pps_reads_example :
    (t : List Bool) × (pad : List Bool) × (stream_bits
        (job_configure_pps bit_len state job coded).puts
        []
      ≡ stream_bits coded.puts t)
    × (read_all (u 32 ∷ u 8 ∷ pps_syntax) t ≡ some (pos 1 ∷ pos 0x68 ∷ pps_elements state job, pad))
unfolding signed_ue
job_configure_pps_reads_example =
    job_configure_pps_reads bit_len state job coded (omega arith) (omega arith) (omega arith)
      (omega arith)

job_configure_slice_header_reads_example :
    (t : List Bool) × (stream_bits
        (job_configure_slice_header context state job coded).puts
        (true ∷ [])
      ≡ stream_bits coded.puts t)
    × (read_slice true 8 8 t
        ≡ some (pos 1 ∷ pos (u8 (slice_header job)) ∷ slice_elements context state job, true ∷ []))
unfolding signed_ue
job_configure_slice_header_reads_example =
    job_configure_slice_header_reads context state job coded (true ∷ []) (
      refl,
      omega arith,
      omega arith,
      refl,
      refl,
      refl,
      omega arith,
      omega arith,
      omega arith,
      omega arith,
      omega arith,
      omega arith,
      omega arith,
      omega arith,
    )

job_configure_sps_reads_example :
    (t : List Bool) × (pad : List Bool) × (stream_bits
        (job_configure_sps bit_len context job format coded).puts
        []
      ≡ stream_bits coded.puts t)
    × (read_sps t ≡ some (pos 1 ∷ pos 0x67 ∷ sps_elements context job format, pad))
job_configure_sps_reads_example = job_configure_sps_reads bit_len context job format coded (
  omega arith,
  refl,
  refl,
  omega arith,
  omega arith,
  omega arith,
  omega arith,
  omega arith,
  omega arith,
)

job_configure_headers-eq-headers_example :
    job_configure_headers (suc (suc (suc (suc 0)))) bit_len context job format (state, coded)
    ≡ some (
      record state { step = step_slice },
      headers step_start bit_len context state job format coded,
    )
job_configure_headers-eq-headers_example =
    job_configure_headers-eq-headers 0 bit_len context state job format coded
