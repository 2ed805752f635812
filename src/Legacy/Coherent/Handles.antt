-- ===== src/Legacy/Coherent/Handles.antt =====
-- The handles of a file's coherent buffers.
use h618_vpu_port.Base.{
  ℕ, ◌+◌, ◌/◌, ◌^◌, ◌<◌, ◌≡◌, refl, ap, ◌∙◌, Bool, true, false, not, ◌||◌, Option, some, Ret, ok,
  err, if◌then◌else◌, ltb, ◌==◌, ≡→==, u32, u32_mod, List, [], ◌∷◌, ◌++◌, All, arith,
}
use h618_vpu_port.Legacy.Engine.{Dev, File, CoherentBuf}
use h618_vpu_port.Legacy.Coherent.{
  find_coherent_buffer, list_del, page_align, Answers, alloc_with, alloc_coherent, free_with,
  free_coherent,
}

-- The buffers have handles from 1 to below the counter, which has not wrapped.
pub record IsNumbered (f : File) : Type 0 where
  pub counter : (0 < f.next_coherent_handle) × (f.next_coherent_handle + 1 < u32_mod)
  pub handles : All (λ b. (0 < b.handle) × (b.handle < f.next_coherent_handle)) f.coherent_buffers

find-last :
    (n : ℕ) (bs : List CoherentBuf) (b : CoherentBuf)
    → All (λ b. (0 < b.handle) × (b.handle < n)) bs
    → b.handle ≡ n
    → find_coherent_buffer n (bs ++ (b ∷ [])) ≡ some b
unfolding find_coherent_buffer
find-last n [] b a e = rw (≡→== b.handle n e) refl
find-last n (c ∷ cs) b a e =
    let k : (c.handle == n) ≡ false = let l = a.0.1 in ground arith in rw k (find-last n cs b a.1 e)

list_del-last :
    (n : ℕ) (bs : List CoherentBuf) (b : CoherentBuf)
    → All (λ b. (0 < b.handle) × (b.handle < n)) bs
    → b.handle ≡ n
    → list_del n (bs ++ (b ∷ [])) ≡ bs
unfolding list_del
list_del-last n [] b a e = rw (≡→== b.handle n e) refl
list_del-last n (c ∷ cs) b a e =
    let k : (c.handle == n) ≡ false = let l = a.0.1 in ground arith in
    rw k (ap (λ l. c ∷ l) (list_del-last n cs b a.1 e))

-- What an allocation does to the file: a failure leaves the buffers, a success appends one.
abbrev pub Allocated : ℕ → ℕ → File → Ret × File × Dev → Type 0
Allocated size addr f (err e, f', d') = f'.coherent_buffers ≡ f.coherent_buffers
Allocated size addr f (ok, f', d') =
    let b : CoherentBuf = record {
      handle = f.next_coherent_handle;
      size = size;
      dma_addr = addr;
    } in
    (f'.coherent_buffers ≡ f.coherent_buffers ++ (b ∷ []))
    × (find_coherent_buffer f.next_coherent_handle f'.coherent_buffers ≡ some b)
    × ((free_coherent true f.next_coherent_handle f' d').1.coherent_buffers ≡ f.coherent_buffers)
    × (f'.next_coherent_handle ≡ f.next_coherent_handle + 1)

if-Allocated :
    (b : Bool) (size addr : ℕ) (f : File) (r s : Ret × File × Dev)
    → Allocated size addr f r
    → Allocated size addr f s
    → Allocated size addr f (if b then r else s)
if-Allocated true size addr f r s m n = m
if-Allocated false size addr f r s m n = n

free_found :
    (o : Option CoherentBuf) (b : CoherentBuf) (f : File) (d : Dev)
    → o ≡ some b
    → (free_with o f d).1.coherent_buffers ≡ list_del b.handle f.coherent_buffers
unfolding free_with
free_found o b f d e = rw e refl

appended-Allocated :
    (size addr : ℕ) (f : File) (d : Dev)
    → IsNumbered f
    → let b : CoherentBuf = record {
      handle = f.next_coherent_handle;
      size = size;
      dma_addr = addr;
    } in
      Allocated size addr f (
        ok,
        record f {
          next_coherent_handle = u32 (f.next_coherent_handle + 1);
          coherent_buffers = f.coherent_buffers ++ (b ∷ []);
        },
        d,
      )
unfolding free_coherent
appended-Allocated size addr f d n =
    let h = f.next_coherent_handle in
    let b : CoherentBuf = record { handle = h; size = size; dma_addr = addr } in
    let bs = f.coherent_buffers ++ (b ∷ []) in
    let g : File = record f { next_coherent_handle = u32 (h + 1); coherent_buffers = bs } in
    let x = find-last h f.coherent_buffers b n.handles refl in
    let c = n.counter in
    (
      refl,
      x,
      free_found (find_coherent_buffer h bs) b g d x
          ∙ list_del-last h f.coherent_buffers b n.handles refl,
      omega arith,
    )

-- An allocation that fails leaves the buffers of the file; one that succeeds appends a buffer in whole pages
-- under the next handle, by which the buffer is found, and by which FREE_COHERENT takes it out again and
-- leaves the buffers as they were.
pub alloc_coherent-Allocated :
    (a : Answers) (size : ℕ) (f : File) (d : Dev)
    → IsNumbered f
    → Allocated (page_align size) a.dma_addr f (alloc_coherent a size f d)
unfolding alloc_coherent alloc_with
alloc_coherent-Allocated a size f d n =
    let k = page_align size in
    let x = a.dma_addr in
    if-Allocated (not a.copied_from) k x f _ _ refl (
      if-Allocated (size == 0 || ltb (2 ^ 26) size) k x f _ _ refl (
        if-Allocated (not a.allocated || not a.dma_allocated) k x f _ _ refl (
          if-Allocated (not (x / u32_mod == 0)) k x f _ _ refl (
            if-Allocated (f.next_coherent_handle == 0) k x f _ _ refl
              (if-Allocated (not a.copied_to) k x f _ _ refl (appended-Allocated k x f d n))))))
