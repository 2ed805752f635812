-- ===== src/H264/Tests/Jobs.antt =====
-- Two jobs of the H.264 encoder in a row, on the newer encoder.
use h618_vpu_port.Base.{suc, ◌*◌, ◌≤◌, ◌≡◌, ◌⊎◌, [], ◌∷◌, true, false, some, arith}
use h618_vpu_port.Device.Dma.{Device}
use h618_vpu_port.H264.Enums.{frame_p, frame_idr, is_p}
use h618_vpu_port.H264.Tests.{bit_len, context, state, job, format}
use h618_vpu_port.H264.Buffers.{Buffer, Live}
use h618_vpu_port.H264.Finish.{Plane, job_finish}
use h618_vpu_port.H264.Finish.Bounds.{Published, Dropped, job_finish_safe}
use h618_vpu_port.H264.Configure.{JobInput, Last, Configured, job_configure}
use h618_vpu_port.H264.Configure.References.{RefersTo, FollowsOn, job_configure_references}

abbrev device : Device
device = record { capabilities = 0; dma_offset = 0; enc_addr_shift = 4 }

abbrev input : JobInput
input = record {
  width = 320;
  height = 240;
  bytesperline = 320;
  addr = 0x100000;
  size = 0x10000;
  mb_info_dma = 0x200000;
}

abbrev buffer : Buffer
buffer = record {
  rec_dma = 0x300000;
  rec_size = 122880;
  rec_luma_size = 81920;
  rec_chroma_size = 40960;
  subpix_dma = 0x400000;
  subpix_size = 4992;
}

abbrev other_buffer : Buffer
other_buffer = record buffer { rec_dma = 0x500000; subpix_dma = 0x600000 }

abbrev last : Last
last = record { rec_last_dma = 0; rec_last_luma_size = 0; subpix_last_dma = 0 }

abbrev plane : Plane
plane = record {
  size = 65536;
  payload = 0;
  flag_error = false;
  flag_keyframe = false;
  flag_pframe = false;
}

abbrev live : Live
live = (0x200000, 4096) ∷ []

job_configure_references_example :
    (r₁ : Configured) × (r₂ : Configured) × (job_configure
        (suc (suc (suc (suc 0))))
        bit_len
        device
        input
        context
        (record job { frame_type = frame_idr })
        format
        buffer
        0
        (state, last)
      ≡ some r₁)
    × (job_configure
          (suc (suc (suc (suc 0))))
          bit_len
          device
          input
          context
          job
          format
          other_buffer
          0
          (r₁.state, r₁.last)
        ≡ some r₂)
    × (((is_p job.frame_type ≡ true) × RefersTo r₂.after r₁.after)
        ⊎ ((is_p job.frame_type ≡ false) × RefersTo r₂.after r₂.after))
    × FollowsOn r₂.after r₁.after
job_configure_references_example =
    job_configure_references 0 bit_len device input input context context
      (record job { frame_type = frame_idr }) job format format buffer other_buffer 0 0 state last
      (omega arith)

job_finish_safe_example :
    let f = job_finish true 8000 frame_p plane in
    (f.size ≡ 65536)
    × (f.payload ≤ 65536)
    × (f.payload * 8 ≤ 8000)
    × (Published 8000 frame_p plane f ⊎ Dropped 8000 plane f)
job_finish_safe_example = job_finish_safe true 8000 frame_p plane
