-- ===== src/Legacy/Buffers/Owned.antt =====
-- What the kernel lends, against the list of the mapped buffers.
use h618_vpu_port.Base.{
  ℕ, ◌+◌, ◌-◌, ◌≡◌, ◌≢◌, ◌⊎◌, inl, inr, refl, ap, true, false, Bool-cases, none, some, ◌==◌, ≡→==,
  List, [], ◌∷◌, ◌++◌, All, length, length-append, u32, arith,
}
use h618_vpu_port.Legacy.MemList.{mem_list_add_tail}
use h618_vpu_port.Legacy.MemList.Ring.{IsRing, has, has-append, mem_list_add_tail-append}
use h618_vpu_port.Legacy.Buffers.{
  BufInfo, Held, Mem, Answers, map_dma_buf_addr, new_info, buf_free, buf_put, buf_detach, buf_unmap,
  set_info,
}
use h618_vpu_port.Legacy.Buffers.Unmap.{NonNull}

-- A buffer that is mapped.
abbrev pub IsMapped : BufInfo → Type 0
IsMapped b = (b.dma_buf ≢ 0) × (b.attachment ≢ 0) × (b.sgt ≢ 0)

-- Every object that the kernel lends belongs to one entry of the list, and every entry holds one of each.
abbrev pub Balanced : ℕ → Held → Type 0
Balanced n h = (h.memory ≡ n) × (h.dma_bufs ≡ n) × (h.attachments ≡ n) × (h.mappings ≡ n)

pub record IsOwned (head : ℕ) (xs : List ℕ) (m : Mem) : Type 0 where
  pub ring : IsRing m.heap head xs
  pub non_null : NonNull head xs
  pub mapped : All (λ x. IsMapped (m.infos x)) xs
  pub balanced : Balanced (length xs) m.held

-- What kmalloc documents: memory that is not in use.
abbrev pub IsFresh : ℕ → List ℕ → Answers → Type 0
IsFresh head xs a = (a.memory ≡ 0) ⊎ (has a.memory (head ∷ xs) ≡ false)

set_info-All :
    (p : ℕ) (b : BufInfo) (f : ℕ → BufInfo) (xs : List ℕ)
    → has p xs ≡ false
    → All (λ x. IsMapped (f x)) xs
    → All (λ x. IsMapped (set_info p b f x)) xs
set_info-All p b f [] h a = tt
set_info-All p b f (x ∷ xs) h a =
    let e : (x == p) ≡ false = ground arith in (rw e a.0, set_info-All p b f xs (ground arith) a.1)

snoc-All :
    (f : ℕ → BufInfo) (xs : List ℕ) (x : ℕ)
    → All (λ y. IsMapped (f y)) xs
    → IsMapped (f x)
    → All (λ y. IsMapped (f y)) (xs ++ (x ∷ []))
snoc-All f [] x a h = (h, tt)
snoc-All f (y ∷ ys) x a h = (a.0, snoc-All f ys x a.1 h)

buf_free_undo : (h : Held) → buf_free (record h { memory = h.memory + 1 }) ≡ h
buf_free_undo h = ap (λ n. record h { memory = n }) (omega arith)

buf_put_undo :
    (h : Held) → buf_put (record h { memory = h.memory + 1; dma_bufs = h.dma_bufs + 1 }) ≡ h
buf_put_undo h = let e : h.dma_bufs + 1 - 1 ≡ h.dma_bufs = omega arith in rw e (buf_free_undo h)

buf_detach_undo :
    (h : Held)
    → buf_detach (record h {
      memory = h.memory + 1;
      dma_bufs = h.dma_bufs + 1;
      attachments = h.attachments + 1;
    })
      ≡ h
buf_detach_undo h =
    let e : h.attachments + 1 - 1 ≡ h.attachments = omega arith in rw e (buf_put_undo h)

buf_unmap_undo :
    (h : Held)
    → buf_unmap (record h {
      memory = h.memory + 1;
      dma_bufs = h.dma_bufs + 1;
      attachments = h.attachments + 1;
      mappings = h.mappings + 1;
    })
      ≡ h
buf_unmap_undo h = let e : h.mappings + 1 - 1 ≡ h.mappings = omega arith in rw e (buf_detach_undo h)

appended-IsOwned :
    (head fd tgid : ℕ) (a : Answers) (xs : List ℕ) (m : Mem)
    → IsOwned head xs m
    → a.memory ≢ 0
    → has a.memory (head ∷ xs) ≡ false
    → IsMapped (new_info fd tgid a)
    → IsOwned head (xs ++ (a.memory ∷ [])) (record {
      heap = mem_list_add_tail a.memory head m.heap;
      infos = set_info a.memory (new_info fd tgid a) m.infos;
      held = record {
        memory = m.held.memory + 1;
        dma_bufs = m.held.dma_bufs + 1;
        attachments = m.held.attachments + 1;
        mappings = m.held.mappings + 1;
      };
    })
appended-IsOwned head fd tgid a xs m o z f i =
    let g = set_info a.memory (new_info fd tgid a) m.infos in
    let e = has-append 0 xs (a.memory ∷ []) in
    let n = o.non_null.1 in
    let l = length-append xs (a.memory ∷ []) in
    let b = o.balanced in
    let s : (a.memory == a.memory) ≡ true = ≡→== a.memory a.memory refl in
    record {
      ring = mem_list_add_tail-append m.heap head a.memory xs o.ring f;
      non_null = (o.non_null.0, ground arith);
      mapped =
          snoc-All g xs a.memory
            (set_info-All a.memory (new_info fd tgid a) m.infos xs (ground arith) o.mapped)
            (rw s i);
      balanced = (omega arith, omega arith, omega arith, omega arith);
    }

-- map_dma_buf_addr maps a buffer of one segment, appends its entry and returns the low half of its address;
-- or, at whichever call of the kernel it fails, it returns -1 and leaves the list and everything that the
-- kernel lends as they were.
pub map_dma_buf_addr-IsOwned :
    (head fd tgid : ℕ) (a : Answers) (xs : List ℕ) (m : Mem)
    → IsOwned head xs m
    → IsFresh head xs a
    → let r = map_dma_buf_addr head fd tgid a m in
      ((r.0 ≡ none) × (r.1 ≡ m))
      ⊎ ((r.0 ≡ some (u32 a.dma_address))
          × (a.nents ≡ 1)
          × IsOwned head (xs ++ (a.memory ∷ [])) r.1)
unfolding map_dma_buf_addr
map_dma_buf_addr-IsOwned head fd tgid a xs m o f = elim (Bool-cases (a.memory == 0)) [
  | inl k ↦ rw k (inl (refl, refl))
  | inr k ↦ elim (Bool-cases (a.dma_buf == 0)) [
    | inl d ↦ rw (k, d) (inl (refl, ap (λ h. record m { held = h }) (buf_free_undo m.held)))
    | inr d ↦ elim (Bool-cases (a.attachment == 0)) [
      | inl t ↦ rw (k, d, t) (inl (refl, ap (λ h. record m { held = h }) (buf_put_undo m.held)))
      | inr t ↦ elim (Bool-cases (a.sgt == 0)) [
        | inl s ↦
            rw (k, d, t, s) (inl (refl, ap (λ h. record m { held = h }) (buf_detach_undo m.held)))
        | inr s ↦ elim (Bool-cases (a.nents == 1)) [
          | inr n ↦
              rw (k, d, t, s, n)
                (inl (refl, ap (λ h. record m { held = h }) (buf_unmap_undo m.held)))
          | inl n ↦
              rw (k, d, t, s, n)
                (inr (
                  refl,
                  ground arith,
                  appended-IsOwned head fd tgid a xs m o (ground arith) (ground arith)
                      (ground arith, ground arith, ground arith),
                ))
        ]
      ]
    ]
  ]
]
