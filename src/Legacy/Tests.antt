-- ===== src/Legacy/Tests.antt =====
-- A device with a list head at 100, a client that maps buffers, and files that come and go.
use h618_vpu_port.Base.{
  ℕ, ◌≡◌, ◌⊎◌, inr, refl, true, false, Option, none, some, Ret, ok, u32, [], ◌∷◌, arith,
}
use h618_vpu_port.Legacy.MemList.{Heap, init_list_head, mem_list_add_tail}
use h618_vpu_port.Legacy.MemList.Ring.{init-IsRing, mem_list_add_tail-append}
use h618_vpu_port.Legacy.Buffers.{
  BufInfo, Held, Mem, map_dma_buf_addr, unmap_dma_buf_addr, new_info, set_info,
}
use h618_vpu_port.Legacy.Buffers as Buffers
use h618_vpu_port.Legacy.Buffers.Named.{unnamed, without_named, unmap_dma_buf_addr-unnamed}
use h618_vpu_port.Legacy.Buffers.Unmap.{remaining, Unmapped}
use h618_vpu_port.Legacy.Buffers.Owned.{IsOwned, map_dma_buf_addr-IsOwned}
use h618_vpu_port.Legacy.Buffers.Freed.{Owns, unmap_dma_buf_addr-IsOwned}
use h618_vpu_port.Legacy.Engine.{
  Dev, File, CoherentBuf, engine_req, file_open, file_release, new_file,
}
use h618_vpu_port.Legacy.Engine.Counted.{IsCounted}
use h618_vpu_port.Legacy.Engine.Reach.{here, after, opened, requested, closed, Reach-IsCounted}
use h618_vpu_port.Legacy.Engine.Stopped.{Safe, control, file_release-Safe, file_release_keeps_reset}
use h618_vpu_port.Legacy.Coherent.{Answers, alloc_coherent, page_align}
use h618_vpu_port.Legacy.Coherent.Handles.{IsNumbered, Allocated, alloc_coherent-Allocated}

abbrev no_links : Heap
no_links a = record { aw_next = 0; aw_prev = 0 }

abbrev no_info : BufInfo
no_info = record { fd = 0; addr = 0; dma_buf = 0; attachment = 0; sgt = 0; p_id = 0 }

abbrev no_mem : Mem
no_mem = record {
  heap = init_list_head 100 no_links;
  infos = λ a. no_info;
  held = record { memory = 0; dma_bufs = 0; attachments = 0; mappings = 0 };
}

no_mem-IsOwned : IsOwned 100 [] no_mem
no_mem-IsOwned = record {
  ring = init-IsRing no_links 100;
  non_null = (omega arith, refl);
  mapped = tt;
  balanced = (refl, refl, refl, refl);
}

abbrev lent : Buffers.Answers
lent = record {
  memory = 200;
  dma_buf = 1;
  attachment = 2;
  sgt = 3;
  nents = 1;
  dma_address = 0x50000000;
}

abbrev after_map : Option ℕ × Mem
after_map = map_dma_buf_addr 100 7 42 lent no_mem

map_dma_buf_addr-IsOwned_example :
    ((after_map.0 ≡ none) × (after_map.1 ≡ no_mem))
    ⊎ ((after_map.0 ≡ some (u32 0x50000000))
        × (lent.nents ≡ 1)
        × IsOwned 100 (200 ∷ []) after_map.1)
map_dma_buf_addr-IsOwned_example =
    map_dma_buf_addr-IsOwned 100 7 42 lent [] no_mem no_mem-IsOwned (inr refl)

abbrev one_mem : Mem
one_mem = record {
  heap = mem_list_add_tail 200 100 no_mem.heap;
  infos = set_info 200 (new_info 7 42 lent) no_mem.infos;
  held = record { memory = 1; dma_bufs = 1; attachments = 1; mappings = 1 };
}

one_mem-IsOwned : IsOwned 100 (200 ∷ []) one_mem
unfolding new_info
one_mem-IsOwned = record {
  ring = mem_list_add_tail-append no_mem.heap 100 200 [] no_mem-IsOwned.ring refl;
  non_null = (omega arith, refl);
  mapped = ((omega arith, omega arith, omega arith), tt);
  balanced = (refl, refl, refl, refl);
}

unmap_dma_buf_addr-unnamed_example :
    Unmapped 100 one_mem.infos
      (unnamed true 0 0 42 one_mem.infos (200 ∷ []))
      (without_named true 0 0 42 one_mem.infos (200 ∷ []) one_mem.held)
      (unmap_dma_buf_addr 2 100 true 0 0 42 one_mem)
unmap_dma_buf_addr-unnamed_example =
    unmap_dma_buf_addr-unnamed true 0 0 42 2 100 (200 ∷ []) one_mem one_mem-IsOwned.ring
      one_mem-IsOwned.non_null (omega arith)

unmap_dma_buf_addr-IsOwned_example :
    Owns 100
      (remaining false 7 0x50000000 42 one_mem.infos (200 ∷ []))
      (unmap_dma_buf_addr 2 100 false 7 0x50000000 42 one_mem)
unmap_dma_buf_addr-IsOwned_example =
    unmap_dma_buf_addr-IsOwned false 7 0x50000000 42 2 100 (200 ∷ []) one_mem one_mem-IsOwned
      (omega arith)

abbrev idle_dev : Dev
idle_dev = record {
  ref_count = 0;
  last_min_freq = 0;
  clk_status = false;
  reset_asserted = true;
  bus_clk = 0;
  mbus_clk = 0;
  ve_clk = 0;
  irq_flag = true;
  log = [];
}

abbrev requesting : Ret × File × Dev
requesting = engine_req false ok ok ok ok new_file (file_open idle_dev)

Reach-IsCounted_example : IsCounted [] (file_release requesting.1 requesting.2)
unfolding file_open
Reach-IsCounted_example =
    Reach-IsCounted [] idle_dev [] (file_release requesting.1 requesting.2)
      (refl, inr (refl, refl, (refl, refl, refl)))
      (after
        (after (after here (opened [])) (requested [] [] new_file false ok ok ok ok (omega arith)))
        (closed [] [] requesting.1))

abbrev buf : CoherentBuf
buf = record { handle = 1; size = 8192; dma_addr = 0x50000000 }

abbrev with_buffer : File
with_buffer = record {
  engine_refs = 0;
  lock_flags = 0;
  coherent_buffers = buf ∷ [];
  next_coherent_handle = 2;
}

abbrev busy_dev : Dev
busy_dev = record {
  ref_count = 1;
  last_min_freq = 0;
  clk_status = true;
  reset_asserted = false;
  bus_clk = 1;
  mbus_clk = 1;
  ve_clk = 1;
  irq_flag = false;
  log = [];
}

file_release-Safe_example : Safe (file_release with_buffer busy_dev).log
unfolding Safe
file_release-Safe_example = file_release-Safe with_buffer busy_dev tt

file_release_keeps_reset_example : control (file_release with_buffer busy_dev) ≡ (true, 1, true)
file_release_keeps_reset_example =
    file_release_keeps_reset with_buffer busy_dev refl (inr (omega arith))

with_buffer-IsNumbered : IsNumbered with_buffer
with_buffer-IsNumbered = record {
  counter = (omega arith, omega arith);
  handles = ((omega arith, omega arith), tt);
}

abbrev granted : Answers
granted = record {
  copied_from = true;
  allocated = true;
  dma_allocated = true;
  dma_addr = 0x60000000;
  copied_to = true;
}

alloc_coherent-Allocated_example :
    Allocated
      (page_align 5000)
      0x60000000
      with_buffer
      (alloc_coherent granted 5000 with_buffer busy_dev)
alloc_coherent-Allocated_example =
    alloc_coherent-Allocated granted 5000 with_buffer busy_dev with_buffer-IsNumbered
