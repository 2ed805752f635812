-- ===== src/Legacy/Engine/Stopped.antt =====
-- The order of stopping the engine and giving memory back.
use h618_vpu_port.Base.{
  bit_and, length, ◌<◌, ℕ, ◌-◌, ◌≡◌, ◌≢◌, ◌⊎◌, inl, inr, refl, ap, ◌∙◌, Bool, true, false, not,
  Bool-cases, if◌then◌else◌, ltb, ◌==◌, ≡→==, List, [], ◌∷◌, ◌++◌, arith,
}
use h618_vpu_port.Legacy.Engine.{
  Event, assert_reset, deassert_reset, init_list, unmap_all, dma_free, lock, unlock, Dev, File,
  CoherentBuf, logged, quiesce_dma, deassert, disable_hw_clk, free_coherent_buffers, drop_refs,
  is_empty, may_be_live, unlock_lost, lost_locks, lock_types, lock_proc_info, file_release,
}
use h618_vpu_port.Legacy.Engine.Moves.{frees, free_coherent_buffers-frees}

-- Whether the engine is in reset after a log, newest first.
unfoldable pub is_stopped : List Event → Bool
is_stopped [] = false
is_stopped (assert_reset ∷ l) = true
is_stopped (deassert_reset ∷ l) = false
is_stopped (init_list ∷ l) = is_stopped l
is_stopped (unmap_all ∷ l) = is_stopped l
is_stopped (dma_free h ∷ l) = is_stopped l
is_stopped (lock t ∷ l) = is_stopped l
is_stopped (unlock t ∷ l) = is_stopped l

-- Coherent memory is given back only while the engine is in reset.
unfoldable pub Safe : List Event → Type 0
unfolding is_stopped
Safe [] = Unit {0}
Safe (assert_reset ∷ l) = Safe l
Safe (deassert_reset ∷ l) = Safe l
Safe (init_list ∷ l) = Safe l
Safe (unmap_all ∷ l) = Safe l
Safe (lock t ∷ l) = Safe l
Safe (unlock t ∷ l) = Safe l
Safe (dma_free h ∷ l) = (is_stopped l ≡ true) × Safe l

frees-Safe :
    (bs : List CoherentBuf) (l : List Event)
    → (is_empty bs ≡ true) ⊎ (is_stopped l ≡ true)
    → Safe l
    → Safe (frees bs l)
unfolding frees Safe is_stopped is_empty
frees-Safe [] l s h = h
frees-Safe (b ∷ bs) l (inl e) h = let w : ⊥ = cc in elim w [ ]
frees-Safe (b ∷ bs) l (inr s) h = frees-Safe bs (dma_free b.handle ∷ l) (inr s) (s, h)

lost_locks-Safe : (flags : ℕ) (ts : List ℕ) (l : List Event) → Safe l → Safe (lost_locks flags ts l)
unfolding lost_locks Safe
lost_locks-Safe flags [] l h = h
lost_locks-Safe flags (t ∷ ts) l h = elim (Bool-cases (bit_and flags t == 0)) [
  | inl e ↦ rw e (lost_locks-Safe flags ts l h)
  | inr e ↦ rw e (lost_locks-Safe flags ts (unlock t ∷ l) h)
]

lost_locks_stopped :
    (flags : ℕ) (ts : List ℕ) (l : List Event)
    → is_stopped l ≡ true
    → is_stopped (lost_locks flags ts l) ≡ true
unfolding lost_locks is_stopped
lost_locks_stopped flags [] l h = h
lost_locks_stopped flags (t ∷ ts) l h = elim (Bool-cases (bit_and flags t == 0)) [
  | inl e ↦ rw e (lost_locks_stopped flags ts l h)
  | inr e ↦ rw e (lost_locks_stopped flags ts (unlock t ∷ l) h)
]

if-Safe : (b : Bool) (d e : Dev) → Safe d.log → Safe e.log → Safe (if b then d else e).log
if-Safe true d e h k = h
if-Safe false d e h k = k

deassert-Safe : (d : Dev) → Safe d.log → Safe (deassert d).log
unfolding Safe
deassert-Safe d h = h

disable-Safe : (d : Dev) → Safe d.log → Safe (disable_hw_clk d).log
unfolding disable_hw_clk Safe
disable-Safe d h = if-Safe (not d.clk_status) d _ h h

drop_refs-Safe : (refs : ℕ) (d : Dev) → Safe d.log → Safe (drop_refs refs d).log
unfolding drop_refs
drop_refs-Safe refs d h =
    let n = if ltb d.ref_count refs then 0 else d.ref_count - refs in
    let d' = record d { ref_count = n } in
    if-Safe (refs == 0) d _ h
      (if-Safe (n == 0) (disable_hw_clk d') (deassert d') (disable-Safe d' h) (deassert-Safe d' h))

-- The buffers of a file that may not have left the engine at work are none.
quiet-is_empty : (f : File) → may_be_live f ≡ false → is_empty f.coherent_buffers ≡ true
unfolding may_be_live
quiet-is_empty f h = elim (Bool-cases (is_empty f.coherent_buffers)) [
  | inl e ↦ e
  | inr e ↦ ground arith
]

released-Safe :
    (bs : List CoherentBuf) (refs : ℕ) (d : Dev)
    → (is_empty bs ≡ true) ⊎ (is_stopped d.log ≡ true)
    → Safe d.log
    → Safe (drop_refs refs (free_coherent_buffers bs d)).log
released-Safe bs refs d s h =
    rw (free_coherent_buffers-frees bs d)
      (drop_refs-Safe refs (record d { log = frees bs d.log }) (frees-Safe bs d.log s h))

-- The engine is stopped before the buffers of a file that is closed are given back, at whatever point of a
-- job its client died.
pub file_release-Safe : (f : File) (d : Dev) → Safe d.log → Safe (file_release f d).log
unfolding file_release Safe is_stopped
file_release-Safe f d h =
    let d1 = logged unmap_all (if may_be_live f then quiesce_dma d else d) in
    let u = unlock_lost f.lock_flags d1 in
    let d2 = drop_refs f.engine_refs (free_coherent_buffers f.coherent_buffers u) in
    let ts = lock_types ++ (lock_proc_info ∷ []) in
    let s : Safe d2.log = elim (Bool-cases (may_be_live f)) [
      | inl e ↦
          let l = unmap_all ∷ assert_reset ∷ d.log in
          rw e (
            released-Safe f.coherent_buffers f.engine_refs
              (unlock_lost f.lock_flags (logged unmap_all (quiesce_dma d)))
              (inr (lost_locks_stopped f.lock_flags ts l refl))
              (lost_locks-Safe f.lock_flags ts l h))
      | inr e ↦ rw e (
          released-Safe f.coherent_buffers f.engine_refs
            (unlock_lost f.lock_flags (logged unmap_all d)) (inl (quiet-is_empty f e))
            (lost_locks-Safe f.lock_flags ts (unmap_all ∷ d.log) h))
    ] in
    if-Safe (d2.ref_count == 0) (record d2 { irq_flag = true }) d2 s s

drop_refs-none : (refs : ℕ) (d : Dev) → refs ≡ 0 → drop_refs refs d ≡ d
unfolding drop_refs
drop_refs-none refs d z = rw (≡→== refs 0 z) refl

-- The reset, the references and the clocks of a device.
abbrev pub control : Dev → Bool × ℕ × Bool
control d = (d.reset_asserted, d.ref_count, d.clk_status)

if-control :
    (b : Bool) (d : Dev) → control (if b then record d { irq_flag = true } else d) ≡ control d
if-control true d = refl
if-control false d = refl

not-is_empty : {A : Type 0} (xs : List A) → 0 < length xs → not (is_empty xs) ≡ true
unfolding is_empty
not-is_empty [] h = absurd (omega arith)
not-is_empty (x ∷ xs) h = refl

quit-may_be_live :
    (f : File) → (f.lock_flags ≢ 0) ⊎ (0 < length f.coherent_buffers) → may_be_live f ≡ true
unfolding may_be_live
quit-may_be_live f (inl n) = ground arith
quit-may_be_live f (inr l) =
    let e : not (is_empty f.coherent_buffers) ≡ true = not-is_empty f.coherent_buffers l in
    elim (Bool-cases (f.engine_refs == 0)) [
      | inr r ↦ rw r refl
      | inl r ↦ elim (Bool-cases (f.lock_flags == 0)) [
        | inr k ↦ rw (r, k) refl
        | inl k ↦ rw (r, k, e) refl
      ]
    ]

-- The close of a file that owns no reference, but a lock or a buffer, leaves the engine in reset, with its
-- clocks and the references of the other files as they were; so it stays in reset under them.
pub file_release_keeps_reset :
    (f : File) (d : Dev)
    → f.engine_refs ≡ 0
    → (f.lock_flags ≢ 0) ⊎ (0 < length f.coherent_buffers)
    → control (file_release f d) ≡ (true, d.ref_count, d.clk_status)
unfolding file_release
file_release_keeps_reset f d z h =
    let m = quit-may_be_live f h in
    let d1 = logged unmap_all (quiesce_dma d) in
    let u = unlock_lost f.lock_flags d1 in
    let g = free_coherent_buffers f.coherent_buffers u in
    let d2 = drop_refs f.engine_refs g in
    rw m (
      if-control (d2.ref_count == 0) d2
      ∙ ap control (drop_refs-none f.engine_refs g z)
      ∙ ap control (free_coherent_buffers-frees f.coherent_buffers u))
