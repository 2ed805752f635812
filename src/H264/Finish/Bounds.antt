-- ===== src/H264/Finish/Bounds.antt =====
-- What a job publishes of the length that the engine reports.
use h618_vpu_port.Base.{ℕ, ◌*◌, ◌/◌, ◌≤◌, ◌<◌, ◌≡◌, ◌⊎◌, Bool, true, false, ◌||◌, arith}
use h618_vpu_port.H264.Enums.{FrameType, frame_idr, frame_i, frame_p, frame_b, is_intra, is_p}
use h618_vpu_port.H264.Finish.{Plane, flag_frame, job_finish}

-- The buffer shows the whole bytes that were written, with the mark of the frame's type.
abbrev pub Published : ℕ → FrameType → Plane → Plane → Type 0
Published bits t b f =
    (f.payload ≡ bits / 8)
    × (f.flag_error ≡ b.flag_error)
    × (f.flag_keyframe ≡ (is_intra t || b.flag_keyframe))
    × (f.flag_pframe ≡ (is_p t || b.flag_pframe))

-- The buffer shows nothing and has no new mark but, where the length was too long, that of an error.
abbrev pub Dropped : ℕ → Plane → Plane → Type 0
Dropped bits b f =
    (f.payload ≡ 0)
    × (f.flag_keyframe ≡ b.flag_keyframe)
    × (f.flag_pframe ≡ b.flag_pframe)
    × ((f.flag_error ≡ b.flag_error) ⊎ ((b.size < bits / 8) × (f.flag_error ≡ true)))

-- However a job ends and whatever length the engine reports, the payload stays inside the plane and
-- inside what was written, and either the frame is published with the mark of its type or nothing is.
pub job_finish_safe :
    (state_done : Bool) (bits : ℕ) (t : FrameType) (b : Plane)
    → let f = job_finish state_done bits t b in
      (f.size ≡ b.size)
      × (f.payload ≤ b.size)
      × (f.payload * 8 ≤ bits)
      × (Published bits t b f ⊎ Dropped bits b f)
unfolding job_finish flag_frame is_intra is_p
job_finish_safe false bits t b = ground arith
job_finish_safe true bits frame_idr b = ground arith
job_finish_safe true bits frame_i b = ground arith
job_finish_safe true bits frame_p b = ground arith
job_finish_safe true bits frame_b b = ground arith
