-- ===== src/Legacy/Engine/Reach.antt =====
-- The files of the device over any sequence of calls.
use h618_vpu_port.Base.{
  ℕ, ◌+◌, ◌^◌, ◌<◌, ◌≤◌, ◌≡◌, inl, inr, Bool, Bool-cases, Ret, ok, ◌∙◌, ◌==◌, List, [], ◌∷◌, ◌++◌,
  arith,
}
use h618_vpu_port.Legacy.Engine.{
  Dev, File, engine_req, engine_rel, new_file, file_open, get_lock, release_lock, file_release,
  suspend, resume,
}
use h618_vpu_port.Legacy.Coherent.{Answers, alloc_coherent, free_coherent}
use h618_vpu_port.Legacy.Engine.Counted.{
  total, total-append, IsCounted, Moves, engine_req-Moves, engine_rel-Moves, sleep-IsClocked,
}
use h618_vpu_port.Legacy.Engine.Moves.{
  get_lock-Moves, release_lock-Moves, file_release-Leaves, alloc_coherent-Moves,
  free_coherent-Moves,
}

-- A call on one of the open files: open, IOCTL_ENGINE_REQ and IOCTL_ENGINE_REL, IOCTL_ALLOC_COHERENT and
-- IOCTL_FREE_COHERENT, IOCTL_GET_LOCK and IOCTL_RELEASE_LOCK, and close; or a suspend and the resume after
-- it, which succeeds. The references of the device are an int, which must not overflow.
-- IOCTL_SET_REFCOUNT, which sets the count to any value, and IOCTL_ENABLE_VE and IOCTL_DISABLE_VE, which
-- change a clock and not clk_status, are no steps: neither count nor clocks agree with anything after them.
pub data Call (d : Dev) : List File → List File → Dev → Type 0 where
  opened : (fs : List File) → Call d fs (fs ++ (new_file ∷ [])) (file_open d)
  requested :
      (fs gs : List File) (f : File) (interrupted : Bool) (reset bus mbus ve : Ret)
      → d.ref_count + 1 < 2 ^ 31
      → Call d
          (fs ++ (f ∷ gs))
          (fs ++ ((engine_req interrupted reset bus mbus ve f d).1 ∷ gs))
          (engine_req interrupted reset bus mbus ve f d).2
  released :
      (fs gs : List File) (f : File) (interrupted : Bool)
      → Call d
          (fs ++ (f ∷ gs))
          (fs ++ ((engine_rel interrupted f d).1 ∷ gs))
          (engine_rel interrupted f d).2
  allocated :
      (fs gs : List File) (f : File) (a : Answers) (size : ℕ)
      → Call d
          (fs ++ (f ∷ gs))
          (fs ++ ((alloc_coherent a size f d).1 ∷ gs))
          (alloc_coherent a size f d).2
  freed :
      (fs gs : List File) (f : File) (copied : Bool) (handle : ℕ)
      → Call d
          (fs ++ (f ∷ gs))
          (fs ++ ((free_coherent copied handle f d).1 ∷ gs))
          (free_coherent copied handle f d).2
  locked :
      (fs gs : List File) (f : File) (lock_type : ℕ)
      → Call d (fs ++ (f ∷ gs)) (fs ++ ((get_lock lock_type f d).1 ∷ gs)) (get_lock lock_type f d).2
  unlocked :
      (fs gs : List File) (f : File) (lock_type : ℕ)
      → Call d
          (fs ++ (f ∷ gs))
          (fs ++ ((release_lock lock_type f d).1 ∷ gs))
          (release_lock lock_type f d).2
  closed : (fs gs : List File) (f : File) → Call d (fs ++ (f ∷ gs)) (fs ++ gs) (file_release f d)
  slept :
      (fs : List File) (reset bus mbus ve : Ret)
      → (resume reset bus mbus ve (suspend d)).0 ≡ ok
      → Call d fs fs (resume reset bus mbus ve (suspend d)).1

pub data Reach (fs : List File) (d : Dev) : List File → Dev → Type 0 where
  here : Reach fs d fs d
  after : {gs hs : List File} {e e' : Dev} → Reach fs d gs e → Call e gs hs e' → Reach fs d hs e'

moved-IsCounted :
    (fs gs : List File) (f : File) (d : Dev) (r : Ret × File × Dev)
    → IsCounted (fs ++ (f ∷ gs)) d
    → Moves f d r
    → IsCounted (fs ++ (r.1 ∷ gs)) r.2
moved-IsCounted fs gs f d r c m =
    (omega (arith, c.0, m.0, total-append fs (f ∷ gs), total-append fs (r.1 ∷ gs)), m.1)

refs-le :
    (fs gs : List File) (f : File) (d : Dev)
    → IsCounted (fs ++ (f ∷ gs)) d
    → f.engine_refs ≤ d.ref_count
refs-le fs gs f d c = omega (arith, c.0, total-append fs (f ∷ gs))

opened-IsCounted :
    (fs : List File) (d : Dev) → IsCounted fs d → IsCounted (fs ++ (new_file ∷ [])) (file_open d)
unfolding file_open new_file
opened-IsCounted fs d c =
    let e : d.ref_count ≡ total (fs ++ (new_file ∷ [])) =
      omega (arith, c.0, total-append fs (new_file ∷ [])) in
    elim (Bool-cases (d.ref_count == 0)) [ inl z ↦ rw z (e, c.1) | inr z ↦ rw z (e, c.1) ]

call-IsCounted :
    (d : Dev) (fs gs : List File) (e : Dev) → Call d fs gs e → IsCounted fs d → IsCounted gs e
call-IsCounted d _ _ _ (opened fs) c = opened-IsCounted fs d c
call-IsCounted d _ _ _ (requested fs gs f i r b m v s) c =
    moved-IsCounted fs gs f d (engine_req i r b m v f d) c
      (engine_req-Moves i r b m v f d c.1 (refs-le fs gs f d c) s)
call-IsCounted d _ _ _ (released fs gs f i) c =
    moved-IsCounted fs gs f d (engine_rel i f d) c (engine_rel-Moves i f d c.1)
call-IsCounted d _ _ _ (allocated fs gs f a size) c =
    moved-IsCounted fs gs f d (alloc_coherent a size f d) c (alloc_coherent-Moves a size f d c.1)
call-IsCounted d _ _ _ (freed fs gs f copied handle) c =
    moved-IsCounted fs gs f d (free_coherent copied handle f d) c
      (free_coherent-Moves copied handle f d c.1)
call-IsCounted d _ _ _ (locked fs gs f t) c =
    moved-IsCounted fs gs f d (get_lock t f d) c (get_lock-Moves t f d c.1)
call-IsCounted d _ _ _ (unlocked fs gs f t) c =
    moved-IsCounted fs gs f d (release_lock t f d) c (release_lock-Moves t f d c.1)
call-IsCounted d _ _ _ (closed fs gs f) c =
    let x = file_release-Leaves f d c.1 (refs-le fs gs f d c) in
    (omega (arith, c.0, x.0, total-append fs (f ∷ gs), total-append fs gs), x.1)
call-IsCounted d _ _ _ (slept fs r b m v h) c =
    let x = sleep-IsClocked r b m v d c.1 h in (x.1 ∙ c.0, x.0)

-- Over any sequence of opens, engine requests and releases, allocations and releases of coherent buffers, lock
-- calls, closes, and suspends whose resume succeeds, on any number of files, the calls that fail and the
-- clients that die included, but with no IOCTL_SET_REFCOUNT, IOCTL_ENABLE_VE or IOCTL_DISABLE_VE and no
-- resume that fails among them: the device counts exactly the references that its open files own, and the
-- three clocks are enabled, once each, exactly while there is one.
pub Reach-IsCounted :
    (fs : List File) (d : Dev) (gs : List File) (e : Dev)
    → IsCounted fs d
    → Reach fs d gs e
    → IsCounted gs e
Reach-IsCounted fs d _ _ c here = c
Reach-IsCounted fs d gs e c (after {gs = hs} {e = d'} r s) =
    call-IsCounted d' hs gs e s (Reach-IsCounted fs d hs d' c r)
