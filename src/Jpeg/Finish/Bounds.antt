-- ===== src/Jpeg/Finish/Bounds.antt =====
-- What the interrupt leaves for the completion: a scan that has room for its header, or a failure.
use h618_vpu_port.Base.{
  ℕ, ◌+◌, ◌*◌, ◌/◌, ◌%◌, ◌^◌, ◌≤◌, ◌<◌, ◌≡◌, ◌⊎◌, ◌≢◌, true, some, length, arith,
}
use h618_vpu_port.Base.Bits.{bit_and_seven}
use h618_vpu_port.Jpeg.Quant.{JpegJob}
use h618_vpu_port.Jpeg.Finish.{Coded, JpegBuffer, header_size, finish_length, job_finish}

-- The scan was refused: no payload, and the buffer is marked.
abbrev pub Refused : Coded → Type 0
Refused b = (b.payload ≡ 0) × (b.flag_error ≡ true)

-- The scan of `bits` bits is whole bytes and leaves room for the header and the end marker.
abbrev pub Accepted : ℕ → Coded → Type 0
Accepted bits b =
    (b.payload * 8 ≡ bits) × (b.payload + 625 ≤ length b.bytes) × (b.flag_keyframe ≡ true)

-- The end of a successful job, on a plane of at least 625 bytes whose size an unsigned long holds:
-- the scan is accepted, or the length register held no whole number of bytes or more than fits and
-- the buffer is refused. The memory is not touched, and the job's tables and header size are kept
-- with the buffer.
pub job_finish_cases :
    (bits : ℕ) (job : JpegJob) (b : Coded) (e : JpegBuffer)
    → b.engine_buffer ≡ some e
    → job.header_size ≡ header_size
    → 625 ≤ length b.bytes
    → length b.bytes < 2 ^ 64
    → let f = job_finish true bits job b in
      (f.bytes ≡ b.bytes)
      × (f.engine_buffer
          ≡ some
              (record { quant0 = job.quant0; quant1 = job.quant1; header_size = job.header_size }))
      × ((Accepted bits f × (bits % 8 ≡ 0) × (bits / 8 + 625 ≤ length b.bytes))
          ⊎ (Refused f × ((bits % 8 ≢ 0) ⊎ (length b.bytes < bits / 8 + 625))))
unfolding job_finish finish_length
job_finish_cases bits job b e eb hs l s = ground (arith, bit_and_seven bits)
