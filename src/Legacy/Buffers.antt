-- ===== src/Legacy/Buffers.antt =====
-- legacy-driver/cedar_ve.c: the DMA buffers that are mapped for the engine, on the ring of ve_mem_list.h.
-- What the kernel answers is an argument, in which 0 stands for NULL or an error; what it lends is counted.
pub mod Unmap
pub mod Named
pub mod Owned
pub mod Freed
use h618_vpu_port.Base.{
  ℕ, zero, suc, ◌+◌, ◌-◌, Bool, true, false, not, ◌&&◌, ◌||◌, Option, none, some, if◌then◌else◌,
  ◌==◌, u32,
}
use h618_vpu_port.Legacy.MemList.{Heap, Links, mem_list_add_tail, mem_list_del}

-- struct dma_buf_info; its list head has its address.
pub record BufInfo : Type 0 where
  pub fd : ℕ
  pub addr : ℕ
  pub dma_buf : ℕ
  pub attachment : ℕ
  pub sgt : ℕ
  pub p_id : ℕ

-- How many objects of each kind the kernel lends to the driver.
pub record Held : Type 0 where
  pub memory : ℕ
  pub dma_bufs : ℕ
  pub attachments : ℕ
  pub mappings : ℕ

pub record Mem : Type 0 where
  pub heap : Heap
  pub infos : ℕ → BufInfo
  pub held : Held

-- The answers of kmalloc, dma_buf_get, dma_buf_attach and dma_buf_map_attachment, and the table's fields.
pub record Answers : Type 0 where
  pub memory : ℕ
  pub dma_buf : ℕ
  pub attachment : ℕ
  pub sgt : ℕ
  pub nents : ℕ
  pub dma_address : ℕ

abbrev pub kfree : Held → Held
kfree h = record h { memory = h.memory - 1 }

abbrev pub dma_buf_put : Held → Held
dma_buf_put h = record h { dma_bufs = h.dma_bufs - 1 }

abbrev pub dma_buf_detach : Held → Held
dma_buf_detach h = record h { attachments = h.attachments - 1 }

abbrev pub dma_buf_unmap_attachment : Held → Held
dma_buf_unmap_attachment h = record h { mappings = h.mappings - 1 }

-- Each label falls through to the next.
abbrev pub buf_free : Held → Held
buf_free h = kfree h

abbrev pub buf_put : Held → Held
buf_put h = buf_free (dma_buf_put h)

abbrev pub buf_detach : Held → Held
buf_detach h = buf_put (dma_buf_detach h)

abbrev pub buf_unmap : Held → Held
buf_unmap h = buf_detach (dma_buf_unmap_attachment h)

unfoldable pub new_info : ℕ → ℕ → Answers → BufInfo
new_info fd tgid a = record {
  fd = fd;
  addr = a.dma_address;
  dma_buf = a.dma_buf;
  attachment = a.attachment;
  sgt = a.sgt;
  p_id = tgid;
}

abbrev pub set_info : ℕ → BufInfo → (ℕ → BufInfo) → ℕ → BufInfo
set_info p x f = λ a. if a == p then x else f a

-- The address for user space, or `none` for -1. `head` is the list of the device, `tgid` the process.
unfoldable pub map_dma_buf_addr : (head fd tgid : ℕ) → Answers → Mem → Option ℕ × Mem
unfolding new_info
map_dma_buf_addr head fd tgid a m =
    let h1 = record m.held { memory = m.held.memory + 1 } in
    let h2 = record h1 { dma_bufs = h1.dma_bufs + 1 } in
    let h3 = record h2 { attachments = h2.attachments + 1 } in
    let h4 = record h3 { mappings = h3.mappings + 1 } in
    if a.memory == 0
    then (none, m)
    else if a.dma_buf == 0
    then (none, record m { held = buf_free h1 })
    else if a.attachment == 0
    then (none, record m { held = buf_put h2 })
    else if a.sgt == 0
    then (none, record m { held = buf_detach h3 })
    else if not (a.nents == 1)
    then (none, record m { held = buf_unmap h4 })
    else (
      some (u32 a.dma_address),
      record {
        heap = mem_list_add_tail a.memory head m.heap;
        infos = set_info a.memory (new_info fd tgid a) m.infos;
        held = h4;
      },
    )

-- Whether an entry is to go; a file descriptor or an address of `unmap_all` is the entry's own.
unfoldable pub is_wanted : (unmap_all : Bool) (fd addr tgid : ℕ) → BufInfo → Bool
is_wanted unmap_all fd addr tgid b =
    let tmp_fd = if unmap_all then b.fd else fd in
    let tmp_addr = if unmap_all then u32 b.addr else addr in
    b.fd == tmp_fd && (b.p_id == tgid && b.addr == tmp_addr)

-- What an entry holds, given back.
unfoldable pub give_back : BufInfo → Held → Held
give_back b h =
    let attached =
      if b.attachment == 0
      then h
      else dma_buf_detach (if b.sgt == 0 then h else dma_buf_unmap_attachment h) in
    kfree (if b.dma_buf == 0 then h else dma_buf_put attached)

unfoldable pub remove : ℕ → Mem → Mem
unfolding give_back
remove pos m = record m { heap = mem_list_del pos m.heap; held = give_back (m.infos pos) m.held }

-- The loop from `pos`, with its successor `next` read before; `none` is out of fuel.
unmap_loop : (fuel head : ℕ) (unmap_all : Bool) (fd addr tgid pos next : ℕ) → Mem → Option Mem
unfolding is_wanted remove
unmap_loop zero head unmap_all fd addr tgid pos next m = none
unmap_loop (suc k) head unmap_all fd addr tgid pos next m =
    let wanted = is_wanted unmap_all fd addr tgid (m.infos pos) in
    let m' = if wanted then remove pos m else m in
    let rest = unmap_loop k head unmap_all fd addr tgid next (m'.heap next).aw_next m' in
    if pos == head then some m else if wanted && not unmap_all then some m' else rest

pub unmap_dma_buf_addr : (fuel head : ℕ) (unmap_all : Bool) (fd addr tgid : ℕ) → Mem → Option Mem
unfolding unmap_loop
unmap_dma_buf_addr fuel head unmap_all fd addr tgid m =
    let pos = (m.heap head).aw_next in
    if pos == 0 || ((m.heap head).aw_prev == 0 || pos == head)
    then some m
    else unmap_loop fuel head unmap_all fd addr tgid pos (m.heap pos).aw_next m
