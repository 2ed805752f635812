-- ===== src/Legacy/Coherent.antt =====
-- legacy-driver/cedar_ve.c: allocation, lookup and release of the coherent buffers of a file, and their mapping.
pub mod Handles
use h618_vpu_port.Base.{
  ℕ, ◌+◌, ◌-◌, ◌*◌, ◌^◌, ◌/◌, Bool, true, false, not, ◌&&◌, ◌||◌, Option, none, some, Ret, ok, err,
  einval, enomem, enospc, enoent, erange, efault, eperm, if◌then◌else◌, ltb, ◌==◌, u32, u32_mod,
  List, [], ◌∷◌, ◌++◌,
}
use h618_vpu_port.Legacy.Engine.{
  Event, dma_free, Dev, CoherentBuf, File, logged, quiesce_dma, deassert,
}

-- The first buffer with the handle.
unfoldable pub find_coherent_buffer : ℕ → List CoherentBuf → Option CoherentBuf
find_coherent_buffer handle [] = none
find_coherent_buffer handle (b ∷ bs) =
    if b.handle == handle then some b else find_coherent_buffer handle bs

-- list_del of the first buffer with the handle
unfoldable pub list_del : ℕ → List CoherentBuf → List CoherentBuf
list_del handle [] = []
list_del handle (b ∷ bs) =
    let rest = list_del handle bs in if b.handle == handle then bs else b ∷ rest

-- PAGE_ALIGN
abbrev pub page_align : ℕ → ℕ
page_align n = (n + 4095) / 4096 * 4096

-- The answers of copy_from_user, kzalloc, dma_alloc_coherent and copy_to_user.
pub record Answers : Type 0 where
  pub copied_from : Bool
  pub allocated : Bool
  pub dma_allocated : Bool
  pub dma_addr : ℕ
  pub copied_to : Bool

-- With the handle that the file's counter gives.
unfoldable pub alloc_with : Answers → ℕ → ℕ → File → Dev → Ret × File × Dev
alloc_with a size handle f d =
    let b : CoherentBuf = record { handle = handle; size = size; dma_addr = a.dma_addr } in
    if handle == 0
    then (err enospc, f, logged (dma_free handle) d)
    else if not a.copied_to
    then (err efault, f, logged (dma_free handle) d)
    else (ok, record f { coherent_buffers = f.coherent_buffers ++ (b ∷ []) }, d)

-- IOCTL_ALLOC_COHERENT of `size` bytes; the buffer has no handle until it is given one.
unfoldable pub alloc_coherent : Answers → ℕ → File → Dev → Ret × File × Dev
alloc_coherent a size f d =
    if not a.copied_from
    then (err efault, f, d)
    else if size == 0 || ltb (2 ^ 26) size
    then (err einval, f, d)
    else if not a.allocated || not a.dma_allocated
    then (err enomem, f, d)
    else if not (a.dma_addr / u32_mod == 0)
    then (err erange, f, logged (dma_free 0) d)
    else alloc_with a (page_align size) f.next_coherent_handle
        (record f { next_coherent_handle = u32 (f.next_coherent_handle + 1) }) d

-- With the buffer that was found.
unfoldable pub free_with : Option CoherentBuf → File → Dev → Ret × File × Dev
free_with none f d = (err enoent, f, d)
free_with (some b) f d =
    let live = not (f.engine_refs == 0) in
    let d1 = logged (dma_free b.handle) (if live then quiesce_dma d else d) in
    (
      ok,
      record f { coherent_buffers = list_del b.handle f.coherent_buffers },
      if live then deassert d1 else d1,
    )

-- IOCTL_FREE_COHERENT
unfoldable pub free_coherent : (copied_from : Bool) → ℕ → File → Dev → Ret × File × Dev
free_coherent copied_from handle f d =
    if not copied_from
    then (err efault, f, d)
    else free_with (find_coherent_buffer handle f.coherent_buffers) f d

-- What cedardev_mmap maps.
pub data Mapping : Type 0 where
  nothing registers : Mapping
  buffer : CoherentBuf → Mapping
  refused : Ret → Mapping

abbrev macc_pgoff : ℕ
macc_pgoff = 0x01c0e

unfoldable pub map_buffer : ℕ → Option CoherentBuf → Mapping
map_buffer length none = refused (err einval)
map_buffer length (some b) = if ltb b.size length then refused (err einval) else buffer b

-- cedardev_mmap of `length` bytes at page `pgoff`, up to the call that maps; `capable` is CAP_SYS_RAWIO.
unfoldable pub mmap : (capable : Bool) (length pgoff : ℕ) → File → Mapping
mmap capable length pgoff f =
    if length == 0
    then nothing
    else if ltb ((2 ^ 64 - 1) / 4096) pgoff
    then refused (err einval)
    else if not (pgoff == 0) && not (pgoff == macc_pgoff)
    then map_buffer length (find_coherent_buffer pgoff f.coherent_buffers)
    else if not capable || ltb 4096 length
    then refused (err eperm)
    else registers
