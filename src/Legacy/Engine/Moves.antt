-- ===== src/Legacy/Engine/Moves.antt =====
-- What each call that is not about a reference does to the references and the clocks.
use h618_vpu_port.Base.{
  bit_and, ℕ, zero, suc, ◌+◌, ◌-◌, ◌^◌, ◌/◌, ◌≤◌, ◌≡◌, inl, inr, refl, sym, ap, Bool, true, false,
  not, ◌||◌, Bool-cases, Ret, if◌then◌else◌, ltb, ◌==◌, u32, u32_mod, Option, none, some, List, [],
  ◌∷◌, arith,
}
use h618_vpu_port.Legacy.Engine.{
  Event, dma_free, unmap_all, Dev, File, logged, quiesce_dma, deassert, disable_hw_clk, CoherentBuf,
  free_coherent_buffers, drop_refs, unlock_lost, is_lock_type, lock_types, lock, unlock, get_lock,
  release_lock, file_release, may_be_live,
}
use h618_vpu_port.Legacy.Coherent.{
  Answers, alloc_coherent, alloc_with, free_coherent, free_with, find_coherent_buffer, page_align,
}
use h618_vpu_port.Legacy.Engine.Counted.{ClocksAt, IsClocked, Moves, disable-IsClocked}

unfoldable pub frees : List CoherentBuf → List Event → List Event
frees [] l = l
frees (b ∷ bs) l = frees bs (dma_free b.handle ∷ l)

pub free_coherent_buffers-frees :
    (bs : List CoherentBuf) (d : Dev)
    → free_coherent_buffers bs d ≡ record d { log = frees bs d.log }
unfolding free_coherent_buffers frees
free_coherent_buffers-frees [] d = refl
free_coherent_buffers-frees (b ∷ bs) d =
    free_coherent_buffers-frees bs (logged (dma_free b.handle) d)

-- The device is left by references that it counts.
abbrev pub Leaves : ℕ → Dev → Dev → Type 0
Leaves refs d d' = (d'.ref_count + refs ≡ d.ref_count) × IsClocked d'

closed-IsClocked :
    (d : Dev) (n : ℕ)
    → d.clk_status ≡ true
    → ClocksAt 1 d
    → let d' = record d { ref_count = n } in
      let r = if n == 0 then disable_hw_clk d' else deassert d' in IsClocked r × (r.ref_count ≡ n)
closed-IsClocked d zero k c = disable-IsClocked (record d { ref_count = 0 }) refl k c
closed-IsClocked d (suc n) k c =
    let e : (suc n == 0) ≡ false = ground arith in rw e (inl (omega arith, k, c), refl)

pub drop_refs-Leaves :
    (refs : ℕ) (d : Dev) → IsClocked d → refs ≤ d.ref_count → Leaves refs d (drop_refs refs d)
unfolding drop_refs
drop_refs-Leaves zero d c l = (omega arith, c)
drop_refs-Leaves (suc n) d (inr (z, k, c)) l = let w : ⊥ = omega arith in elim w [ ]
drop_refs-Leaves (suc n) d (inl (p, k, c)) l =
    let e : (suc n == 0) ≡ false = ground arith in
    let g : ltb d.ref_count (suc n) ≡ false = ground arith in
    let m = d.ref_count - suc n in
    let d' = record d { ref_count = m } in
    let x = closed-IsClocked d m k c in
    let y : Leaves (suc n) d (if m == 0 then disable_hw_clk d' else deassert d') =
      (omega arith, x.0) in
    rw (e, g) y

-- Giving the buffers back changes the log.
frees-IsClocked :
    (bs : List CoherentBuf) (d : Dev)
    → IsClocked d
    → IsClocked (free_coherent_buffers bs d)
      × ((free_coherent_buffers bs d).ref_count ≡ d.ref_count)
frees-IsClocked bs d c = rw (free_coherent_buffers-frees bs d) (c, refl)

marked-IsClocked :
    (d : Dev) (b : Bool)
    → IsClocked d
    → let r = if b then record d { irq_flag = true } else d in
      IsClocked r × (r.ref_count ≡ d.ref_count)
marked-IsClocked d true c = (c, refl)
marked-IsClocked d false c = (c, refl)

stopped-IsClocked :
    (d : Dev) (b : Bool)
    → IsClocked d
    → let r = logged unmap_all (if b then quiesce_dma d else d) in
      IsClocked r × (r.ref_count ≡ d.ref_count)
stopped-IsClocked d true c = (c, refl)
stopped-IsClocked d false c = (c, refl)

pub file_release-Leaves :
    (f : File) (d : Dev)
    → IsClocked d
    → f.engine_refs ≤ d.ref_count
    → Leaves f.engine_refs d (file_release f d)
unfolding file_release
file_release-Leaves f d c l =
    let d1 = logged unmap_all (if may_be_live f then quiesce_dma d else d) in
    let s = stopped-IsClocked d (may_be_live f) c in
    let u = unlock_lost f.lock_flags d1 in
    let d2 = free_coherent_buffers f.coherent_buffers u in
    let b = frees-IsClocked f.coherent_buffers u s.0 in
    let r = drop_refs-Leaves f.engine_refs d2 b.0 (omega arith) in
    let d3 = drop_refs f.engine_refs d2 in
    let m = marked-IsClocked d3 (d3.ref_count == 0) r.1 in (omega arith, m.0)

-- A choice between results that each leave the references and the clocks alone.
if-Moves :
    (b : Bool) (f : File) (d : Dev) (r s : Ret × File × Dev)
    → Moves f d r
    → Moves f d s
    → Moves f d (if b then r else s)
if-Moves true f d r s m n = m
if-Moves false f d r s m n = n

alloc_with-Moves :
    (a : Answers) (size handle : ℕ) (f g : File) (d : Dev)
    → g.engine_refs ≡ f.engine_refs
    → IsClocked d
    → Moves f d (alloc_with a size handle g d)
unfolding alloc_with
alloc_with-Moves a size handle f g d e c =
    let r = ap (λ n. d.ref_count + n) (sym e) in
    if-Moves (handle == 0) f d _ _ (r, c) (if-Moves (not a.copied_to) f d _ _ (r, c) (r, c))

pub alloc_coherent-Moves :
    (a : Answers) (size : ℕ) (f : File) (d : Dev)
    → IsClocked d
    → Moves f d (alloc_coherent a size f d)
unfolding alloc_coherent
alloc_coherent-Moves a size f d c =
    let g = record f { next_coherent_handle = u32 (f.next_coherent_handle + 1) } in
    if-Moves (not a.copied_from) f d _ _ (refl, c)
      (if-Moves (size == 0 || ltb (2 ^ 26) size) f d _ _ (refl, c)
        (if-Moves (not a.allocated || not a.dma_allocated) f d _ _ (refl, c)
          (if-Moves (not (a.dma_addr / u32_mod == 0)) f d _ _ (refl, c)
            (alloc_with-Moves a (page_align size) f.next_coherent_handle f g d refl c))))

free_with-Moves :
    (o : Option CoherentBuf) (f : File) (d : Dev) → IsClocked d → Moves f d (free_with o f d)
unfolding free_with
free_with-Moves none f d c = (refl, c)
free_with-Moves (some b) f d c = elim (Bool-cases (f.engine_refs == 0)) [
  | inl e ↦ rw e (refl, c)
  | inr e ↦ rw e (refl, c)
]

pub free_coherent-Moves :
    (copied : Bool) (handle : ℕ) (f : File) (d : Dev)
    → IsClocked d
    → Moves f d (free_coherent copied handle f d)
unfolding free_coherent
free_coherent-Moves false handle f d c = (refl, c)
free_coherent-Moves true handle f d c =
    free_with-Moves (find_coherent_buffer handle f.coherent_buffers) f d c

logged-IsClocked :
    (b : Bool) (e : Event) (d : Dev) → IsClocked d → IsClocked (if b then logged e d else d)
logged-IsClocked true e d c = c
logged-IsClocked false e d c = c

logged-ref_count :
    (b : Bool) (e : Event) (d : Dev) → (if b then logged e d else d).ref_count ≡ d.ref_count
logged-ref_count true e d = refl
logged-ref_count false e d = refl

pub get_lock-Moves : (t : ℕ) (f : File) (d : Dev) → IsClocked d → Moves f d (get_lock t f d)
unfolding get_lock
get_lock-Moves t f d c =
    let b = is_lock_type t lock_types in
    (ap (λ n. n + f.engine_refs) (logged-ref_count b (lock t) d), logged-IsClocked b (lock t) d c)

pub release_lock-Moves : (t : ℕ) (f : File) (d : Dev) → IsClocked d → Moves f d (release_lock t f d)
unfolding release_lock
release_lock-Moves t f d c =
    let b = is_lock_type t lock_types in
    if-Moves (bit_and f.lock_flags t == 0) f d _ _ (refl, c)
      (
        ap (λ n. n + f.engine_refs) (logged-ref_count b (unlock t) d),
        logged-IsClocked b (unlock t) d c,
      )
