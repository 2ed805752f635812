-- ===== src/Vp9Dec/Tests.antt =====
-- The VP9 decoder at small inputs; its frames are a key frame that is decoded, an inter frame that fails and one
-- that is decoded.
use h618_vpu_port.Base.{
  length, get_or, ◌≤◌, ◌<◌, ◌≡◌, ◌+◌, ◌/◌, ◌%◌, ◌^◌, ◌==◌, refl, true, false, List, [], ◌∷◌, ◌++◌,
  All, pos, negsuc, arith,
}
use h618_vpu_port.Vp9Dec.Pack.{join, front_fields, pack_probs}
use h618_vpu_port.Vp9Dec.Pack.Coef.{IsRow, Shape1, Shape2, Shape3, Shape4, coef_offset}
use h618_vpu_port.Vp9Dec.Pack.Layout.{IsShaped, pack_probs_layout}
use h618_vpu_port.Vp9Dec.Scale.{valid_reference_size, scale, golden_scale1}
use h618_vpu_port.Vp9Dec.Scale.Fields.{scale_fields}
use h618_vpu_port.Vp9Dec.Tiles.{Tiling, tile_count}
use h618_vpu_port.Vp9Dec.Tiles.Cover.{tile_at, covers, tile_words}
use h618_vpu_port.Vp9Dec.Tiles.Partition.{covers-tile_words}
use h618_vpu_port.Vp9Dec.Sram.{
  Segmentation, Quantization, LoopFilter, dequant_entry, loop_filter_entry,
}
use h618_vpu_port.Vp9Dec.Sram.Reads.{bytes, loop_filter_entry_levels}
use h618_vpu_port.Vp9Dec.Sram.Quantisers.{dc_q, ac_q, dequant_entry_quantisers}
use h618_vpu_port.Vp9Dec.Frame.{segment_input, job_finish, frame_is_intra}
use h618_vpu_port.Vp9Dec.Frame.Segments.{segment_input-job_finish}
use h618_vpu_port.Vp9Dec.Frame.Safety.{new_buffer}
use h618_vpu_port.Vp9.Tests.{fill, fill-All, context, counts, inter_frame, hdr}
use h618_vpu_port.Vp9Dec.Frame.{Job, Vp9Context}
use h618_vpu_port.Vp9Dec.Frame.Safety.{Round}

abbrev inter_job : Job
inter_job = record {
  frame = inter_frame;
  hdr = hdr;
  refresh_frame_ctx = true;
  parallel_dec_mode = false;
  show_frame = true;
  segmentation_enabled = true;
  segmentation_update_map = true;
  width = 64;
  height = 64;
  bit_depth = 8;
}

abbrev key_job : Job
key_job = record inter_job { frame = record inter_frame { key_frame = true } }

abbrev rounds : List Round
rounds =
    record { job = key_job; done = true; counts = counts; output = 1 ∷ [] }
    ∷ record { job = inter_job; done = false; counts = counts; output = 2 ∷ [] }
    ∷ record { job = inter_job; done = true; counts = counts; output = 3 ∷ [] }
    ∷ []

abbrev start : Vp9Context
start = record {
  probability_tables = context 128;
  frame_context = context 100 ∷ context 101 ∷ context 102 ∷ context 103 ∷ [];
  frame_context_idx = 0;
  segment_map = [] ∷ [] ∷ [];
  active_segment_map = 0;
  previous_width = 0;
  previous_height = 0;
  previous_valid = false;
  previous_show_frame = false;
  previous_intra_only = false;
  previous_key_frame = false;
}

-- 1920x1080 predicted from 1280x720.
scale_fields_example :
    (scale 1280 1920 2 / 2 ^ 28 ≡ 2)
    × (scale 1280 1920 2 / 2 ^ 5 % 2 ^ 23 ≡ 10922)
    × (scale 1280 1920 2 % 2 ^ 5 + 1 ≡ 10)
    × (2 ^ 10 ≤ 10922)
    × (10922 ≤ 2 ^ 15)
    × (golden_scale1 720 1080 / 2 ^ 16 ≡ 10922)
    × (golden_scale1 720 1080 % 2 ^ 16 + 1 ≡ 10)
unfolding valid_reference_size
scale_fields_example =
    scale_fields 1280 720 1920 1080 2 refl (omega arith) (omega arith) (omega arith) (omega arith)
      (omega arith) (omega arith) (omega arith)

-- 1920x1080 in four columns and two rows.
abbrev tiling : Tiling
tiling = record { sb_cols = 30; sb_rows = 17; tile_cols_log2 = 2; tile_rows_log2 = 1 }

covers-tile_words_example :
    (tile_at tiling 8 15 < tile_count tiling)
    × (covers (tile_words tiling 6) 8 15 ≡ (6 == tile_at tiling 8 15))
covers-tile_words_example =
    covers-tile_words tiling 8 15 6 (omega arith, omega arith, omega arith, omega arith)
      (omega arith) (omega arith) (omega arith)

-- The second segment has a quantiser and a level of its own, as differences.
abbrev segmentation : Segmentation
segmentation = record {
  enabled = true;
  abs_or_delta_update = false;
  feature_enabled = 0 ∷ 3 ∷ [];
  feature_data = [] ∷ (negsuc 19 ∷ pos 5 ∷ []) ∷ [];
}

abbrev loop_filter : LoopFilter
loop_filter = record {
  level = 30;
  delta_enabled = true;
  ref_deltas = pos 1 ∷ pos 0 ∷ negsuc 0 ∷ negsuc 0 ∷ [];
  mode_deltas = pos 0 ∷ pos 0 ∷ [];
}

loop_filter_entry_levels_example :
    (bytes (loop_filter_entry segmentation loop_filter 1).0
        ++ bytes (loop_filter_entry segmentation loop_filter 1).1
      ≡ 37 ∷ 0 ∷ 35 ∷ 35 ∷ 33 ∷ 33 ∷ 33 ∷ 33 ∷ [])
    × All
        (λ b. b ≤ 63)
        (bytes (loop_filter_entry segmentation loop_filter 1).0
          ++ bytes (loop_filter_entry segmentation loop_filter 1).1)
loop_filter_entry_levels_example = loop_filter_entry_levels segmentation loop_filter 1

abbrev quantization : Quantization
quantization = record {
  base_q_idx = 60;
  delta_q_y_dc = negsuc 3;
  delta_q_uv_dc = pos 2;
  delta_q_uv_ac = pos 0;
}

dequant_entry_quantisers_example :
    ((dequant_entry 8 segmentation quantization 1).0 % 2 ^ 16 ≡ dc_q 8 (pos 36))
    × ((dequant_entry 8 segmentation quantization 1).0 / 2 ^ 16 ≡ ac_q 8 (pos 40))
    × ((dequant_entry 8 segmentation quantization 1).1 % 2 ^ 16 ≡ dc_q 8 (pos 42))
    × ((dequant_entry 8 segmentation quantization 1).1 / 2 ^ 16 ≡ ac_q 8 (pos 40))
dequant_entry_quantisers_example =
    dequant_entry_quantisers 8 segmentation quantization 1 40 refl (omega arith)

segment_input-job_finish_example :
    segment_input
      (0 ∷ [])
      inter_job
      (job_finish (context 128) true counts (7 ∷ []) key_job (new_buffer, start)).1
    ≡ 7 ∷ []
unfolding frame_is_intra
segment_input-job_finish_example =
    segment_input-job_finish (context 128) counts (7 ∷ []) (0 ∷ []) key_job inter_job new_buffer
      start (refl, omega arith) refl refl

context-IsShaped : IsShaped (context 128)
context-IsShaped =
    let bands : Shape2 (fill 6 (fill 6 (fill 3 128))) =
      (refl, fill-All Shape1 6 (fill 6 (fill 3 128)) (refl, fill-All IsRow 6 (fill 3 128) tt)) in
    let kinds : Shape3 (fill 2 (fill 6 (fill 6 (fill 3 128)))) =
      (refl, fill-All Shape2 2 (fill 6 (fill 6 (fill 3 128))) bands) in
    let planes : Shape4 (fill 2 (fill 2 (fill 6 (fill 6 (fill 3 128))))) =
      (refl, fill-All Shape3 2 (fill 2 (fill 6 (fill 6 (fill 3 128)))) kinds) in
    (
      (refl, fill-All Shape4 4 (fill 2 (fill 2 (fill 6 (fill 6 (fill 3 128))))) planes),
      refl,
      refl,
      refl,
      refl,
      refl,
      refl,
    )

pack_probs_layout_example :
    (length (join (front_fields (context 128))) ≡ 0xa94)
    × (length (pack_probs (context 128) true (fill 7 1) (fill 3 2)) ≡ 0xafc)
    × (get_or (pack_probs (context 128) true (fill 7 1) (fill 3 2)) (20 + coef_offset 3 1 0 5 2 1) 0
        ≡ 128)
pack_probs_layout_example =
    pack_probs_layout (context 128) true (fill 7 1) (fill 3 2) 3 1 0 5 2 1 context-IsShaped
      (omega arith) (omega arith) (omega arith) (omega arith) (omega arith) (omega arith)
