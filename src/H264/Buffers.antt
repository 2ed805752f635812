-- ===== src/H264/Buffers.antt =====
-- cedrus-v4l2/cedrus_enc_h264.c: the memory of a context, and that of a coded buffer, for the reconstruction of the picture and
-- its sub-pixel samples. What dma_alloc_attrs answers is an argument; the state is the list of the
-- allocations that live, each an address and a size.
pub mod Sizes
pub mod Ownership
use h618_vpu_port.Base.{
  ℕ, ◌+◌, ◌*◌, ◌/◌, List, [], ◌∷◌, Option, none, some, Ret, ok, err, enomem, enodev, Bool, not,
  if◌then◌else◌, ◌&&◌, ◌==◌, u32, div_round_up, align,
}

-- struct cedrus_enc_h264_buffer
pub record Buffer : Type 0 where
  pub rec_dma : ℕ
  pub rec_size : ℕ
  pub rec_luma_size : ℕ
  pub rec_chroma_size : ℕ
  pub subpix_dma : ℕ
  pub subpix_size : ℕ

abbrev pub Live : Type 0
Live = List (ℕ × ℕ)

-- dma_free_attrs
unfoldable pub release : ℕ → ℕ → Live → Live
release addr size [] = []
release addr size ((a, n) ∷ live) =
    let rest = release addr size live in if a == addr && n == size then live else (a, n) ∷ rest

-- ALIGN_DOWN((width_mbs + 47) * 2 / 3, 32) + ALIGN(width_mbs, 32) * 2, times (height_mbs * 16 + 72) / 8
pub subpix_size_of : ℕ → ℕ → ℕ
subpix_size_of width_mbs height_mbs =
    let subpix_size_width =
      u32 (u32 ((width_mbs + 47) * 2) / 3 / 32 * 32 + u32 (align width_mbs 32 * 2)) in
    let subpix_size_height = u32 (height_mbs * 16 + 72) / 8 in
    u32 (subpix_size_width * subpix_size_height)

pub rec_luma_size_of : ℕ → ℕ → ℕ
rec_luma_size_of width_mbs height_mbs =
    u32 (align width_mbs 2 * 16 * (align (height_mbs + 1) 4 * 16))

pub rec_chroma_size_of : ℕ → ℕ → ℕ
rec_chroma_size_of width_mbs height_mbs =
    u32 (align width_mbs 2 * 16 * (align (div_round_up height_mbs 2) 4 * 16))

pub rec_size_of : ℕ → ℕ → ℕ
rec_size_of luma chroma = align (u32 (luma + chroma)) 4096

pub mb_info_size_of : ℕ → ℕ
mb_info_size_of width = u32 (div_round_up (div_round_up width 16) 32 * 4096)

-- The memory of cedrus_enc_h264_setup. `mb_info` is the answer to the allocation, `found` tells whether
-- the entropy mode control exists, and `applied` is the result of v4l2_ctrl_handler_setup.
pub setup_mb_info : ℕ → Option ℕ → Bool → Ret → ℕ × Live → Ret × ℕ × Live
setup_mb_info width mb_info found applied (mb_info_dma, live) = elim mb_info [
  | none ↦ (err enomem, mb_info_dma, live)
  | some addr ↦
      let size = mb_info_size_of width in
      let free = release addr size ((addr, size) ∷ live) in
      if not found
      then (err enodev, addr, free)
      else elim applied [ ok ↦ (ok, addr, (addr, size) ∷ live) | err e ↦ (err e, addr, free) ]
]

-- cedrus_enc_h264_cleanup
pub cleanup : ℕ → ℕ → Live → Live
cleanup width mb_info_dma live = release mb_info_dma (mb_info_size_of width) live

-- With the sub-pixel buffer allocated.
pub setup_rec : ℕ → ℕ → Option ℕ → Buffer → Live → Ret × Buffer × Live
setup_rec width_mbs height_mbs rec b live =
    let luma = rec_luma_size_of width_mbs height_mbs in
    let chroma = rec_chroma_size_of width_mbs height_mbs in
    let b = record b {
      rec_luma_size = luma;
      rec_chroma_size = chroma;
      rec_size = rec_size_of luma chroma;
    } in
    elim rec [
      | none ↦ (err enomem, b, release b.subpix_dma b.subpix_size live)
      | some addr ↦ (ok, record b { rec_dma = addr }, (addr, b.rec_size) ∷ live)
    ]

-- `subpix` and `rec` are the answers to the two allocations.
pub buffer_setup : ℕ → ℕ → Option ℕ → Option ℕ → Buffer → Live → Ret × Buffer × Live
buffer_setup width height subpix rec b live =
    let width_mbs = div_round_up width 16 in
    let height_mbs = div_round_up height 16 in
    let b = record b { subpix_size = subpix_size_of width_mbs height_mbs } in
    elim subpix [
      | none ↦ (err enomem, b, live)
      | some addr ↦
          setup_rec width_mbs height_mbs rec (record b { subpix_dma = addr })
            ((addr, b.subpix_size) ∷ live)
    ]

pub buffer_cleanup : Buffer → Live → Live
buffer_cleanup b live = release b.subpix_dma b.subpix_size (release b.rec_dma b.rec_size live)
