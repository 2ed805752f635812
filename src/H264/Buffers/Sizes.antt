-- ===== src/H264/Buffers/Sizes.antt =====
-- The sizes of a coded buffer's memory.
use h618_vpu_port.Base.{mul_le, ℕ, ◌+◌, ◌*◌, ◌≤◌, ◌≡◌, u32, div_round_up, align, arith}
use h618_vpu_port.H264.Buffers.{rec_luma_size_of, rec_chroma_size_of, rec_size_of}

-- For a picture of at most 3840 by 2160 nothing wraps: the reconstruction has room for the luma and the
-- chroma samples of every macroblock, and both parts lie in its memory, one behind the other.
pub rec_size_fits :
    (width_mbs height_mbs : ℕ)
    → width_mbs ≤ 240
    → height_mbs ≤ 135
    → (width_mbs * 16 * (height_mbs * 16) ≤ rec_luma_size_of width_mbs height_mbs)
      × (width_mbs * 16 * (height_mbs * 8) ≤ rec_chroma_size_of width_mbs height_mbs)
      × (rec_luma_size_of width_mbs height_mbs + rec_chroma_size_of width_mbs height_mbs
          ≤ rec_size_of
              (rec_luma_size_of width_mbs height_mbs)
              (rec_chroma_size_of width_mbs height_mbs))
unfolding rec_luma_size_of rec_chroma_size_of rec_size_of
rec_size_fits w h a b =
    let row = align w 2 * 16 in
    let luma = align (h + 1) 4 * 16 in
    let chroma = align (div_round_up h 2) 4 * 16 in
    let r : (w * 16 ≤ row) × (row ≤ 240 * 16) = (omega arith, omega arith) in
    let l : (h * 16 ≤ luma) × (luma ≤ 136 * 16) = (omega arith, omega arith) in
    let c : (h * 8 ≤ chroma) × (chroma ≤ 68 * 16) = (omega arith, omega arith) in
    let l0 = mul_le (w * 16) (h * 16) row luma r.0 l.0 in
    let c0 = mul_le (w * 16) (h * 8) row chroma r.0 c.0 in
    let l1 = mul_le row luma (240 * 16) (136 * 16) r.1 l.1 in
    let c1 = mul_le row chroma (240 * 16) (68 * 16) r.1 c.1 in
    let e : u32 (row * luma) ≡ row * luma = omega arith in
    let f : u32 (row * chroma) ≡ row * chroma = omega arith in rw (e, f) (l0, c0, omega arith)
