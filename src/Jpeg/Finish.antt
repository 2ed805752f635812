-- ===== src/Jpeg/Finish.antt =====
-- cedrus-v4l2/cedrus_enc_jpeg.c: the end of a job, in the interrupt, and the completion of the stream
-- when user space takes the buffer. A coded buffer is its plane's memory with the fields of vb2 that
-- the encoder reads and writes.
pub mod Layout
pub mod Bounds
use h618_vpu_port.Base.{
  ℕ, ◌+◌, ◌-◌, ◌*◌, ◌/◌, ◌%◌, ◌^◌, List, ◌++◌, Bool, true, false, not, ◌||◌, Option, none, some,
  Ret, ok, err, if◌then◌else◌, ltb, ◌==◌, set, take, drop, length, bit_and,
}
use h618_vpu_port.Jpeg.Header.{Header, put_header}
use h618_vpu_port.Jpeg.Quant.{JpegJob}

abbrev pub header_size : ℕ
header_size = 623

-- struct cedrus_enc_jpeg_buffer
pub record JpegBuffer : Type 0 where
  pub quant0 : List ℕ
  pub quant1 : List ℕ
  pub header_size : ℕ

pub record Coded : Type 0 where
  pub bytes : List ℕ
  pub payload : ℕ
  pub flag_error : Bool
  pub flag_keyframe : Bool
  -- vb2_buffer->state is VB2_BUF_STATE_DONE
  pub done : Bool
  -- vb2_plane_vaddr is not NULL
  pub mapped : Bool
  pub engine_buffer : Option JpegBuffer

-- vb2_plane_size - header_size - 2 on unsigned long, which wraps.
abbrev pub room : ℕ → ℕ → ℕ
room plane_size header = (plane_size + 2 * 2 ^ 64 - header - 2) % 2 ^ 64

abbrev pub fail : Coded → Coded
fail b = record b { payload = 0; flag_error = true }

-- The length register counts bits.
finish_length : ℕ → ℕ → Coded → Coded
finish_length bits header b =
    if not (bit_and bits 7 == 0) || ltb (room (length b.bytes) header) (bits / 8)
    then fail b
    else record b { payload = bits / 8; flag_keyframe = true }

-- `state_done`: the job ended in VB2_BUF_STATE_DONE.
pub job_finish : Bool → ℕ → JpegJob → Coded → Coded
job_finish false bits job b = record b { payload = 0 }
job_finish true bits job b = elim b.engine_buffer [
  | none ↦ record b { payload = 0 }
  | some e ↦ finish_length bits job.header_size (record b {
    engine_buffer =
        some (record { quant0 = job.quant0; quant1 = job.quant1; header_size = job.header_size });
  })
]

-- memmove(p + dst, p + src, n) inside the memory of a plane.
abbrev pub memmove : ℕ → ℕ → ℕ → List ℕ → List ℕ
memmove dst src n xs = take dst xs ++ (take n (drop src xs) ++ drop (dst + n) xs)

-- After put_header: the end marker, or the failure.
finish_markers : Ret × Header → ℕ → Coded → Coded
finish_markers (err e, h) header b = fail (record b { bytes = h.bytes })
finish_markers (ok, h) header b =
    if h.position == header
    then (let n = b.payload + header in
        record b { bytes = set (set h.bytes n 0xff) (n + 1) 0xd9; payload = n + 2 })
    else fail (record b { bytes = h.bytes })

finish_stream : ℕ → ℕ → JpegBuffer → Coded → Coded
finish_stream width height e b =
    if not b.mapped || ltb (room (length b.bytes) e.header_size) b.payload
    then fail b
    else finish_markers
        (put_header width height e.quant0 e.quant1 (record {
          bytes = memmove e.header_size 0 b.payload b.bytes;
          size = e.header_size;
          position = 0;
        }))
        e.header_size b

pub buffer_finish : ℕ → ℕ → Coded → Coded
buffer_finish width height b = elim b.engine_buffer [
  | none ↦ b
  | some e ↦
      if not (e.header_size == header_size) || not b.done || b.flag_error
      then b
      else finish_stream width height e b
]
