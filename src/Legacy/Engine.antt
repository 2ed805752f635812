-- ===== src/Legacy/Engine.antt =====
-- legacy-driver/cedar_ve.c: the references of the engine, its clocks and its reset, and the coherent buffers of
-- a file. A call of the reset or the clock framework that fails changes nothing. The calls that stop the
-- engine, take or leave a mutex or give memory back are logged, newest first; a mutex is named by its flag.
pub mod Counted
pub mod Moves
pub mod Reach
pub mod Stopped
use h618_vpu_port.Base.{
  ℕ, bit_and, bit_or, ◌+◌, ◌-◌, ◌*◌, ◌^◌, ◌/◌, Bool, true, false, not, ◌&&◌, ◌||◌, Option, none,
  some, Ret, ok, err, einval, enomem, enospc, enoent, erange, efault, erestartsys, eperm,
  if◌then◌else◌, ltb, ◌==◌, u32, List, [], ◌∷◌, ◌++◌,
}

pub data Event : Type 0 where
  assert_reset deassert_reset init_list unmap_all : Event
  dma_free lock unlock : ℕ → Event

-- struct cedar_dev, with clk_status, the reset line and how often each clock is enabled.
pub record Dev : Type 0 where
  pub ref_count : ℕ
  pub last_min_freq : ℕ
  pub clk_status : Bool
  pub reset_asserted : Bool
  pub bus_clk : ℕ
  pub mbus_clk : ℕ
  pub ve_clk : ℕ
  pub irq_flag : Bool
  pub log : List Event

-- struct cedar_coherent_buf
pub record CoherentBuf : Type 0 where
  pub handle : ℕ
  pub size : ℕ
  pub dma_addr : ℕ

-- struct ve_info
pub record File : Type 0 where
  pub engine_refs : ℕ
  pub lock_flags : ℕ
  pub coherent_buffers : List CoherentBuf
  pub next_coherent_handle : ℕ

abbrev pub logged : Event → Dev → Dev
logged e d = record d { log = e ∷ d.log }

-- cedar_quiesce_dma, with a reset line
abbrev pub quiesce_dma : Dev → Dev
quiesce_dma d = record d { reset_asserted = true; log = assert_reset ∷ d.log }

abbrev pub deassert : Dev → Dev
deassert d = record d { reset_asserted = false; log = deassert_reset ∷ d.log }

error_state : Ret → Dev → Ret × Dev
error_state res d = (res, record d { clk_status = false })

error_reset : Ret → Dev → Ret × Dev
unfolding error_state
error_reset res d = error_state res (quiesce_dma d)

error_bus : Ret → Dev → Ret × Dev
unfolding error_reset
error_bus res d = error_reset res (record d { bus_clk = d.bus_clk - 1 })

error_mbus : Ret → Dev → Ret × Dev
unfolding error_bus
error_mbus res d = error_bus res (record d { mbus_clk = d.mbus_clk - 1 })

-- With the results of the reset and of the three clocks, in the order of the calls.
enable_with : (reset bus mbus ve : Ret) → Dev → Ret × Dev
unfolding error_mbus
enable_with (err e) bus mbus ve d = error_state (err e) d
enable_with ok (err e) mbus ve d = error_reset (err e) (deassert d)
enable_with ok ok (err e) ve d =
    let d = deassert d in error_bus (err e) (record d { bus_clk = d.bus_clk + 1 })
enable_with ok ok ok (err e) d =
    let d = deassert d in
    error_mbus (err e) (record d { bus_clk = d.bus_clk + 1; mbus_clk = d.mbus_clk + 1 })
enable_with ok ok ok ok d =
    let d = deassert d in
    (
      ok,
      record d {
        bus_clk = d.bus_clk + 1;
        mbus_clk = d.mbus_clk + 1;
        ve_clk = d.ve_clk + 1;
        clk_status = true;
        log = init_list ∷ d.log;
      },
    )

pub enable_hw_clk : (reset bus mbus ve : Ret) → Dev → Ret × Dev
unfolding enable_with
enable_hw_clk reset bus mbus ve d =
    if d.clk_status then (ok, d) else enable_with reset bus mbus ve d

-- It always succeeds.
unfoldable pub disable_hw_clk : Dev → Dev
disable_hw_clk d =
    if not d.clk_status then d else record (quiesce_dma (record d { clk_status = false })) {
      ve_clk = d.ve_clk - 1;
      mbus_clk = d.mbus_clk - 1;
      bus_clk = d.bus_clk - 1;
      log = unmap_all ∷ assert_reset ∷ d.log;
    }

-- After enabling the clocks for the first reference.
req_with : Ret × Dev → File → Ret × File × Dev
req_with (err e, d) f = (err e, f, record d { ref_count = d.ref_count - 1 })
req_with (ok, d) f = (ok, record f { engine_refs = u32 (f.engine_refs + 1) }, d)

-- IOCTL_ENGINE_REQ; `interrupted` is the answer of down_interruptible.
pub engine_req : (interrupted : Bool) (reset bus mbus ve : Ret) → File → Dev → Ret × File × Dev
unfolding enable_hw_clk req_with
engine_req interrupted reset bus mbus ve f d =
    let d' = record d { ref_count = d.ref_count + 1 } in
    if interrupted
    then (err erestartsys, f, d)
    else if d'.ref_count == 1
    then req_with (enable_hw_clk reset bus mbus ve (record d' { last_min_freq = 0 })) f
    else req_with (ok, d') f

-- IOCTL_ENGINE_REL
pub engine_rel : (interrupted : Bool) → File → Dev → Ret × File × Dev
engine_rel interrupted f d =
    let f' = record f { engine_refs = f.engine_refs - 1 } in
    let d' = record d { ref_count = d.ref_count - 1 } in
    if interrupted
    then (err erestartsys, f, d)
    else if f.engine_refs == 0 || d.ref_count == 0
    then (err einval, f, d)
    else (ok, f', if d'.ref_count == 0 then disable_hw_clk d' else d')

-- cedardev_open; the flags of the three interrupts are set together.
pub new_file : File
new_file = record {
  engine_refs = 0;
  lock_flags = 0;
  coherent_buffers = [];
  next_coherent_handle = 1;
}

unfoldable pub file_open : Dev → Dev
file_open d = if d.ref_count == 0 then record d { irq_flag = false } else d

-- free_coherent_buffers
unfoldable pub free_coherent_buffers : List CoherentBuf → Dev → Dev
free_coherent_buffers [] d = d
free_coherent_buffers (b ∷ bs) d = free_coherent_buffers bs (logged (dma_free b.handle) d)

unfoldable pub is_empty {ℓ} : {A : Type ℓ} → List A → Bool
is_empty [] = true
is_empty (x ∷ xs) = false

-- The flags of the mutexes, in the order in which a release looks at them: VE_LOCK_VDEC, _VENC, _JDEC,
-- _00_REG, _04_REG and _PROC_INFO.
abbrev pub lock_types : List ℕ
lock_types = 0x01 ∷ 0x02 ∷ 0x04 ∷ 0x08 ∷ 0x10 ∷ []

abbrev pub lock_proc_info : ℕ
lock_proc_info = 0x1000

-- The mutexes that a dead client left locked.
unfoldable pub lost_locks : ℕ → List ℕ → List Event → List Event
lost_locks flags [] l = l
lost_locks flags (t ∷ ts) l = lost_locks flags ts (if bit_and flags t == 0 then l else unlock t ∷ l)

abbrev pub unlock_lost : ℕ → Dev → Dev
unlock_lost flags d = record d {
  log = lost_locks flags (lock_types ++ (lock_proc_info ∷ [])) d.log;
}

pub is_lock_type : ℕ → List ℕ → Bool
is_lock_type t [] = false
is_lock_type t (x ∷ xs) = t == x || is_lock_type t xs

-- IOCTL_GET_LOCK; the call waits for the mutex, and an invalid type only leaves its flags.
unfoldable pub get_lock : ℕ → File → Dev → Ret × File × Dev
unfolding is_lock_type
get_lock lock_type f d = (
  ok,
  record f { lock_flags = bit_or f.lock_flags lock_type },
  if is_lock_type lock_type lock_types then logged (lock lock_type) d else d,
)

-- IOCTL_RELEASE_LOCK; -1 is -EPERM.
unfoldable pub release_lock : ℕ → File → Dev → Ret × File × Dev
unfolding is_lock_type
release_lock lock_type f d = if bit_and f.lock_flags lock_type == 0 then (err eperm, f, d) else (
  ok,
  record f { lock_flags = bit_and f.lock_flags (0xffffffff - lock_type) },
  if is_lock_type lock_type lock_types then logged (unlock lock_type) d else d,
)

-- Whether a file may have left the engine at work.
unfoldable pub may_be_live : File → Bool
may_be_live f =
    not (f.engine_refs == 0) || (not (f.lock_flags == 0) || not (is_empty f.coherent_buffers))

-- The references that user space did not release.
unfoldable pub drop_refs : ℕ → Dev → Dev
drop_refs refs d =
    let d' = record d { ref_count = if ltb d.ref_count refs then 0 else d.ref_count - refs } in
    if refs == 0 then d else if d'.ref_count == 0 then disable_hw_clk d' else deassert d'

-- cedardev_release
unfoldable pub file_release : File → Dev → Dev
file_release f d =
    let d1 = logged unmap_all (if may_be_live f then quiesce_dma d else d) in
    let d2 =
      drop_refs f.engine_refs
        (free_coherent_buffers f.coherent_buffers (unlock_lost f.lock_flags d1)) in
    if d2.ref_count == 0 then record d2 { irq_flag = true } else d2

-- sunxi_cedar_suspend and sunxi_cedar_resume
unfoldable pub suspend : Dev → Dev
suspend d = disable_hw_clk d

unfoldable pub resume_with : Ret × Dev → Ret × Dev
resume_with (err e, d) = (err efault, d)
resume_with (ok, d) = (ok, d)

unfoldable pub resume : (reset bus mbus ve : Ret) → Dev → Ret × Dev
unfolding enable_hw_clk resume_with
resume reset bus mbus ve d =
    if d.ref_count == 0 then (ok, d) else resume_with (enable_hw_clk reset bus mbus ve d)

-- IOCTL_SET_REFCOUNT, with a number that an int holds: whatever user space gives
pub set_refcount : ℕ → Dev → Dev
set_refcount n d = record d { ref_count = n }

-- IOCTL_ENABLE_VE and IOCTL_DISABLE_VE, which do not look at clk_status
pub enable_ve : Ret → Dev → Dev
enable_ve ok d = record d { ve_clk = d.ve_clk + 1 }
enable_ve (err e) d = d

pub disable_ve : Dev → Dev
disable_ve d = record d { ve_clk = d.ve_clk - 1 }
