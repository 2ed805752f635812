-- ===== src/Jpeg/Tests.antt =====
-- The JPEG encoder at a picture of 320 by 240 and a plane of 700 bytes with a scan of 3 bytes.
use h618_vpu_port.Base.{
  ℕ, zero, suc, ◌+◌, ◌/◌, ◌%◌, ◌≤◌, ◌<◌, ◌≡◌, ◌≢◌, ◌⊎◌, refl, List, [], ◌∷◌, ◌++◌, true, false,
  Bool, not, ltb, ◌&&◌, ◌==◌, some, length, take, drop, arith,
}
use h618_vpu_port.Device.Dma.{Device}
use h618_vpu_port.Jpeg.Tables.{luma_quant_base, chroma_quant_base}
use h618_vpu_port.Jpeg.Quant.{JpegContext, JpegJob}
use h618_vpu_port.Jpeg.Finish.{JpegBuffer, Coded, header_size, job_finish, buffer_finish}
use h618_vpu_port.Jpeg.Finish.Layout.{IsReady, HasStream, stream, buffer_finish_layout}
use h618_vpu_port.Jpeg.Finish.Bounds.{Refused, Accepted, job_finish_cases}
use h618_vpu_port.Jpeg.Stream.{decode, decode-buffer_finish}
use h618_vpu_port.Jpeg.Job.{JobInput}

abbrev fill : ℕ → List ℕ
fill zero = []
fill (suc n) = 7 ∷ fill n

abbrev buffer : JpegBuffer
buffer = record { quant0 = luma_quant_base; quant1 = chroma_quant_base; header_size = header_size }

abbrev coded : Coded
coded = record {
  bytes = fill 700;
  payload = 3;
  flag_error = false;
  flag_keyframe = true;
  done = true;
  mapped = true;
  engine_buffer = some buffer;
}

abbrev job : JpegJob
job = record {
  quality = 50;
  quant0 = luma_quant_base;
  quant1 = chroma_quant_base;
  header_size = header_size;
}

abbrev sixteen : ℕ
sixteen = 16

abbrev low : JpegContext
low = record { quality = 10 }

abbrev high : JpegContext
high = record { quality = 90 }

abbrev h618 : Device
h618 = record { capabilities = 0; dma_offset = 0; enc_addr_shift = 8 }

abbrev older : Device
older = record { capabilities = 0; dma_offset = 0; enc_addr_shift = 0 }

abbrev input : JobInput
input = record { width = 320; height = 240; addr = 0x50000000; size = 65536 }

abbrev is_ready : IsReady coded buffer
is_ready = record {
  has_engine = refl;
  own_header = refl;
  is_done = refl;
  no_error = refl;
  is_mapped = refl;
}

decode-buffer_finish_example :
    decode (take (buffer_finish 320 240 coded).payload (buffer_finish 320 240 coded).bytes)
    ≡ some (record {
      width = 320;
      height = 240;
      table0 = luma_quant_base;
      table1 = chroma_quant_base;
      scan = take 3 (fill 700) ++ (0xff ∷ 0xd9 ∷ []);
    })
decode-buffer_finish_example =
    decode-buffer_finish 320 240 buffer coded is_ready (omega arith) (omega arith) (omega arith)
      (omega arith) (refl, omega arith) (refl, omega arith)

buffer_finish_layout_example :
    HasStream
      (buffer_finish 320 240 coded)
      (stream 320 240 luma_quant_base chroma_quant_base (take 3 (fill 700)))
      (drop (3 + 625) (fill 700))
buffer_finish_layout_example =
    buffer_finish_layout 320 240 buffer coded is_ready (omega arith) (omega arith)

job_finish_cases_example :
    ((job_finish true 24 job coded).bytes ≡ coded.bytes)
    × ((job_finish true 24 job coded).engine_buffer ≡ some buffer)
    × ((Accepted 24 (job_finish true 24 job coded)
          × (24 % 8 ≡ 0)
          × (24 / 8 + 625 ≤ length coded.bytes))
        ⊎ (Refused (job_finish true 24 job coded)
            × ((24 % 8 ≢ 0) ⊎ (length coded.bytes < 24 / 8 + 625))))
job_finish_cases_example =
    job_finish_cases 24 job coded buffer refl refl (omega arith) (omega arith)

abbrev is_quants : List ℕ → Bool
is_quants [] = true
is_quants (q ∷ qs) = (not (q == 0) && ltb q 256) && is_quants qs
