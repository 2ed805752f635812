-- ===== src/Vp9Dec/Frame.antt =====
-- cedrus-v4l2/cedrus_dec_vp9.c: what the decoder keeps from frame to frame. The counts that the engine leaves in
-- memory, and the segment map, are arguments; so are the default probabilities.
pub mod Safety
pub mod Segments
use h618_vpu_port.Base.{
  ℕ, ◌+◌, ◌-◌, Bool, true, false, not, ◌&&◌, ◌||◌, if◌then◌else◌, ◌==◌, List, [], set, get_or,
}
use h618_vpu_port.Vp9.Context.{FrameContext, Frame}
use h618_vpu_port.Vp9.Update.{CompressedHdr, reset_frame_ctx, fw_update_probs}
use h618_vpu_port.Vp9.Adapt.{SymbolCounts, adapt_coef_probs, adapt_noncoef_probs}

-- struct cedrus_dec_vp9_job; a flag of the frame or of its segmentation is a Boolean.
pub record Job : Type 0 where
  pub frame : Frame
  pub hdr : CompressedHdr
  pub refresh_frame_ctx : Bool
  pub parallel_dec_mode : Bool
  pub show_frame : Bool
  pub segmentation_enabled : Bool
  pub segmentation_update_map : Bool
  pub width : ℕ
  pub height : ℕ
  pub bit_depth : ℕ

-- The part of struct cedrus_dec_vp9_context that outlives a job, with the contents of the segment maps.
pub record Vp9Context : Type 0 where
  pub probability_tables : FrameContext
  pub frame_context : List FrameContext
  pub frame_context_idx : ℕ
  pub segment_map : List (List ℕ)
  pub active_segment_map : ℕ
  pub previous_width : ℕ
  pub previous_height : ℕ
  pub previous_valid : Bool
  pub previous_show_frame : Bool
  pub previous_intra_only : Bool
  pub previous_key_frame : Bool

-- struct cedrus_dec_vp9_buffer, without the reconstruction of 10-bit pictures
pub record Vp9Buffer : Type 0 where
  pub width : ℕ
  pub height : ℕ
  pub bit_depth : ℕ
  pub valid : Bool

unfoldable pub frame_is_intra : Frame → Bool
frame_is_intra f = f.key_frame || f.intra_only

unfoldable pub use_previous_mvs : Job → Vp9Context → Bool
unfolding frame_is_intra
use_previous_mvs job s =
    not (frame_is_intra job.frame)
    && (s.previous_valid
        && (not job.frame.error_resilient
            && (s.previous_show_frame
                && (not s.previous_intra_only
                    && (s.previous_width == job.width && s.previous_height == job.height)))))

-- The part of cedrus_dec_vp9_job_configure on the probabilities and the segment maps.
unfoldable pub configure_probs : FrameContext → Job → Vp9Context → Vp9Context
configure_probs defaults job s =
    let (idx, contexts) = reset_frame_ctx defaults job.frame s.frame_context in
    record s {
      frame_context_idx = idx;
      frame_context = contexts;
      probability_tables = fw_update_probs (get_or contexts idx defaults) job.hdr job.frame;
    }

-- The segment map that the job reads, `cleared` in place of one that is not used.
unfoldable pub segment_input : List ℕ → Job → Vp9Context → List ℕ
unfolding frame_is_intra
segment_input cleared job s =
    if job.segmentation_enabled && not (frame_is_intra job.frame)
    then get_or s.segment_map s.active_segment_map []
    else cleared

unfoldable pub configure_segments : List ℕ → Job → Vp9Context → Vp9Context
unfolding frame_is_intra
configure_segments cleared job s =
    if frame_is_intra job.frame || job.frame.error_resilient
    then record s {
      segment_map = set (set s.segment_map 0 cleared) 1 cleared;
      active_segment_map = 0;
    }
    else s

-- With the map that the engine wrote; the index is 0 or 1, and `^ 1` changes it.
unfoldable pub finish_segments : List ℕ → Job → Vp9Context → Vp9Context
finish_segments output job s =
    let next = 1 - s.active_segment_map in
    if job.segmentation_enabled && job.segmentation_update_map
    then record s { segment_map = set s.segment_map next output; active_segment_map = next }
    else s

-- The probabilities that are adapted: the saved context, on intra frames with the transform sizes and the
-- skip flags of the frame.
unfoldable pub adapt_base : Bool → FrameContext → FrameContext → FrameContext
adapt_base intra tables saved =
    if intra
    then record saved {
      tx8 = tables.tx8;
      tx16 = tables.tx16;
      tx32 = tables.tx32;
      skip = tables.skip;
    }
    else saved

unfoldable pub adapted : SymbolCounts → Bool → Job → FrameContext → FrameContext → FrameContext
unfolding adapt_base frame_is_intra
adapted counts use_128 job tables saved =
    let intra = frame_is_intra job.frame in
    let p = adapt_coef_probs (adapt_base intra tables saved) counts use_128 intra in
    if not intra
    then adapt_noncoef_probs p counts job.frame.reference_mode job.frame.interpolation_filter
        job.hdr.tx_mode job.frame.allow_high_prec_mv
    else p

unfoldable pub finish_probs : FrameContext → SymbolCounts → Job → Vp9Context → Vp9Context
unfolding adapted
finish_probs defaults counts job s =
    let use_128 = not s.previous_valid || s.previous_key_frame in
    let saved = get_or s.frame_context s.frame_context_idx defaults in
    let p = adapted counts use_128 job s.probability_tables saved in
    if not job.refresh_frame_ctx
    then s
    else if job.parallel_dec_mode
    then record s { frame_context = set s.frame_context s.frame_context_idx s.probability_tables }
    else record s {
      probability_tables = p;
      frame_context = set s.frame_context s.frame_context_idx p;
    }

unfoldable pub finish_previous : Job → Vp9Context → Vp9Context
unfolding frame_is_intra
finish_previous job s = record s {
  previous_width = job.width;
  previous_height = job.height;
  previous_valid = true;
  previous_show_frame = job.show_frame;
  previous_intra_only = frame_is_intra job.frame;
  previous_key_frame = job.frame.key_frame;
}

-- cedrus_dec_vp9_job_finish; `done` is whether the state is VB2_BUF_STATE_DONE.
unfoldable pub job_finish :
    FrameContext
    → (done : Bool) → SymbolCounts
    → List ℕ
    → Job
    → Vp9Buffer × Vp9Context
    → Vp9Buffer × Vp9Context
unfolding finish_previous finish_probs finish_segments
job_finish defaults done counts output job (b, s) = if not done then (b, s) else (
  record { width = job.width; height = job.height; bit_depth = job.bit_depth; valid = true },
  finish_previous job (finish_probs defaults counts job (finish_segments output job s)),
)

-- The part of cedrus_dec_vp9_job_configure that changes what is kept.
unfoldable pub job_configure : FrameContext → List ℕ → Job → Vp9Context → Vp9Context
unfolding configure_probs configure_segments
job_configure defaults cleared job s =
    configure_segments cleared job (configure_probs defaults job s)
