-- ===== src/Vp9Dec/Frame/Segments.antt =====
-- The segment map from one frame to the next.
use h618_vpu_port.Base.{
  ℕ, zero, suc, ◌-◌, ◌≤◌, ◌<◌, ◌≡◌, refl, ◌∙◌, true, false, ◌&&◌, if◌then◌else◌, Bool-cases, inl,
  inr, List, [], ◌∷◌, length, set, get_or, arith,
}
use h618_vpu_port.Vp9.Context.{FrameContext}
use h618_vpu_port.Vp9.Adapt.{SymbolCounts}
use h618_vpu_port.Vp9Dec.Frame.{
  Job, Vp9Context, Vp9Buffer, frame_is_intra, segment_input, finish_segments, finish_probs,
  finish_previous, job_finish,
}

-- There are two maps, and the index is of one of them.
abbrev pub HasMaps : Vp9Context → Type 0
HasMaps s = (length s.segment_map ≡ 2) × (s.active_segment_map ≤ 1)

-- The map that the next frame may read.
abbrev pub active_map : Vp9Context → List ℕ
active_map s = get_or s.segment_map s.active_segment_map []

get_or-set_same {ℓ} :
    {A : Type ℓ} (xs : List A) (i : ℕ) (x d : A) → i < length xs → get_or (set xs i x) i d ≡ x
get_or-set_same [] i x d h = absurd (omega arith)
get_or-set_same (y ∷ ys) zero x d h = refl
get_or-set_same (y ∷ ys) (suc i) x d h = get_or-set_same ys i x d (omega arith)

finish_probs-maps :
    (defaults : FrameContext) (counts : SymbolCounts) (job : Job) (s : Vp9Context)
    → active_map (finish_probs defaults counts job s) ≡ active_map s
unfolding finish_probs
finish_probs-maps defaults counts job s = elim (Bool-cases job.refresh_frame_ctx) [
  | inr e ↦ rw e
  | inl e ↦ elim (Bool-cases job.parallel_dec_mode) [ inl p ↦ rw (e, p) | inr p ↦ rw (e, p) ]
]

finish_segments-map :
    (output : List ℕ) (job : Job) (s : Vp9Context)
    → HasMaps s
    → active_map (finish_segments output job s)
      ≡ (if job.segmentation_enabled && job.segmentation_update_map then output else active_map s)
unfolding finish_segments
finish_segments-map output job s (l, a) =
    elim (Bool-cases (job.segmentation_enabled && job.segmentation_update_map)) [
      | inl e ↦
          rw e (get_or-set_same s.segment_map (1 - s.active_segment_map) output [] (omega arith))
      | inr e ↦ rw e
    ]

-- Where there are two maps: an inter frame with segmentation that follows a decoded frame reads the map that
-- the decoded frame wrote if that one updated it, and otherwise the map that was active before.
pub segment_input-job_finish :
    (defaults : FrameContext) (counts : SymbolCounts) (output cleared : List ℕ) (job next : Job)
    (b : Vp9Buffer) (s : Vp9Context)
    → HasMaps s
    → next.segmentation_enabled ≡ true
    → frame_is_intra next.frame ≡ false
    → segment_input cleared next (job_finish defaults true counts output job (b, s)).1
      ≡ (if job.segmentation_enabled && job.segmentation_update_map then output else active_map s)
unfolding segment_input job_finish finish_previous
segment_input-job_finish defaults counts output cleared job next b s h e i =
    rw (e, i)
      (finish_probs-maps defaults counts job (finish_segments output job s)
        ∙ finish_segments-map output job s h)
