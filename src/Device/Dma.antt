-- ===== src/Device/Dma.antt =====
-- cedrus-v4l2/cedrus.h: capabilities, and the translation of DMA addresses for the decoder's and the
-- encoder's registers.
use h618_vpu_port.Base.{
  ℕ, zero, suc, sym, ◌+◌, ◌-◌, ◌*◌, ◌/◌, ◌%◌, ◌^◌, ◌≤◌, ◌<◌, ◌≡◌, ◌≢◌, ◌⊎◌, Bool, ◌||◌, ltb, ◌==◌,
  if◌then◌else◌, bit_and, u32, u32_mod, arith,
}
use native.Mathlib.Nat.{div-add-mod', mod-lt, pow-suc, zero-div}

pub record Device : Type 0 where
  pub capabilities : ℕ
  pub dma_offset : ℕ
  pub enc_addr_shift : ℕ

unfoldable pub capabilities_check : Device → ℕ → Bool
capabilities_check dev capabilities = bit_and dev.capabilities capabilities == capabilities

pub dma_addr : Device → ℕ → ℕ
dma_addr dev addr =
    if addr == 0
    then 0
    else if ltb addr dev.dma_offset || ltb (u32_mod - 1) (addr - dev.dma_offset)
    then 0
    else u32 (addr - dev.dma_offset)

pub enc_dma_addr : Device → ℕ → ℕ
enc_dma_addr dev addr =
    if addr == 0
    then 0
    else if dev.enc_addr_shift == 0
    then dma_addr dev addr
    else if ltb (u32_mod - 1) (addr / 2 ^ dev.enc_addr_shift)
    then 0
    else u32 (addr / 2 ^ dev.enc_addr_shift)

-- The window that the decoder's registers reach.
abbrev pub InWindow : Device → ℕ → Type 0
InWindow dev addr = (dev.dma_offset ≤ addr) × (addr < dev.dma_offset + u32_mod)

-- A translation fits a register. Either the address lies in the window and is the offset above its
-- translation, or it lies outside the window and translates to 0. The null address is left out.
pub dma_addr_window :
    (dev : Device) (addr : ℕ)
    → addr ≢ 0
    → (dma_addr dev addr < u32_mod)
      × ((InWindow dev addr × (dev.dma_offset + dma_addr dev addr ≡ addr))
          ⊎ (((addr < dev.dma_offset) ⊎ (dev.dma_offset + u32_mod ≤ addr))
              × (dma_addr dev addr ≡ 0)))
unfolding dma_addr
dma_addr_window dev addr h = ground arith

two_pow_pos : (k : ℕ) → 0 < 2 ^ k
two_pow_pos zero = omega arith
two_pow_pos (suc k) = omega (arith, two_pow_pos k, pow-suc 2 k)

enc_dma_addr-div :
    (dev : Device) (addr : ℕ)
    → dev.enc_addr_shift ≢ 0
    → addr / 2 ^ dev.enc_addr_shift < u32_mod
    → enc_dma_addr dev addr ≡ addr / 2 ^ dev.enc_addr_shift
unfolding enc_dma_addr
enc_dma_addr-div dev zero h l = sym (zero-div (2 ^ dev.enc_addr_shift))
enc_dma_addr-div dev (suc a) h l = ground arith

-- The encoder's registers take an address in units of 2 ^ shift bytes: the unit that holds the address,
-- so two addresses with one register value are less than a unit apart.
pub enc_dma_addr_unit :
    (dev : Device) (addr : ℕ)
    → dev.enc_addr_shift ≢ 0
    → addr / 2 ^ dev.enc_addr_shift < u32_mod
    → (enc_dma_addr dev addr * 2 ^ dev.enc_addr_shift ≤ addr)
      × (addr < enc_dma_addr dev addr * 2 ^ dev.enc_addr_shift + 2 ^ dev.enc_addr_shift)
enc_dma_addr_unit dev addr h l =
    let u = 2 ^ dev.enc_addr_shift in
    let e : enc_dma_addr dev addr ≡ addr / u = enc_dma_addr-div dev addr h l in
    let d : addr / u * u + addr % u ≡ addr = div-add-mod' addr u in
    let r : addr % u < u = mod-lt addr (two_pow_pos dev.enc_addr_shift) in
    rw e (omega arith, omega arith)
