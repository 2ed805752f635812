-- ===== src/H264/Bits.antt =====
-- cedrus-v4l2/cedrus_enc_h264.c, cedrus_enc_h264_coded_*: the bits that the encoder puts into the
-- stream. The state is what the engine has been told: the puts, each with the escaping that was on,
-- and the register with the switch for it. The wait for VE_ENC_AVC_STATUS_PUT_BITS_READY before each
-- put is not part of the state.
pub mod Golomb
pub mod Puts
use h618_vpu_port.Base.{
  ℕ, zero, suc, ◌+◌, ◌-◌, ◌*◌, ◌/◌, ◌%◌, ◌^◌, List, [], ◌∷◌, ◌++◌, Bool, true, false, not,
  if◌then◌else◌, ltb, ◌==◌, u8, u16, u32, ℤ, pos, negsuc,
}

pub record Put : Type 0 where
  pub value : ℕ
  pub count : ℕ
  pub escaped : Bool

pub record Coded : Type 0 where
  pub puts : List Put
  -- VE_ENC_AVC_PARA0_REG
  pub para0 : ℕ

-- VE_ENC_AVC_PARA0_EPTB_DIS
abbrev pub eptb_dis : ℕ
eptb_dis = 2 ^ 31

abbrev pub has_eptb_dis : ℕ → Bool
has_eptb_dis para0 = para0 / eptb_dis % 2 == 1

-- VE_ENC_AVC_STARTTRIG_NUM_BITS keeps six bits of the count.
pub coded_append : ℕ → ℕ → Coded → Coded
coded_append value count s =
    let put : Put = record {
      value = u32 value;
      count = count % 64;
      escaped = not (has_eptb_dis s.para0);
    } in
    record s { puts = s.puts ++ (put ∷ []) }

-- __fls: the index of the highest bit, of a number below 2 ^ fuel that is not 0.
pub fls : ℕ → ℕ → ℕ
fls zero x = 0
fls (suc fuel) x = let rest = fls fuel (x / 2) in if ltb x 2 then 0 else suc rest

pub coded_ue : ℕ → Coded → Coded
coded_ue value =
    let bits_count = 2 * fls 32 (u32 (value + 1)) + 1 in coded_append (u32 (value + 1)) bits_count

unfoldable pub signed_ue : ℤ → ℕ
signed_ue (pos zero) = 0
signed_ue (pos (suc n)) = 2 * suc n - 1
signed_ue (negsuc n) = 2 * (n + 1)

unfoldable pub coded_se : ℤ → Coded → Coded
coded_se value = coded_ue (signed_ue value)

-- The loop counts `bits` down from 8 * bytes_count by 8.
pub coded_bytes : ℕ → ℕ → Coded → Coded
coded_bytes value zero s = s
coded_bytes value (suc n) s = coded_bytes value n (coded_append (value / 2 ^ (8 * n) % 256) 8 s)

abbrev pub coded_u32 : ℕ → Coded → Coded
coded_u32 value = coded_bytes (u32 value) 4

abbrev pub coded_u16 : ℕ → Coded → Coded
coded_u16 value = coded_append (u16 value) 16

abbrev pub coded_u8 : ℕ → Coded → Coded
coded_u8 value = coded_append (u8 value) 8

abbrev pub coded_bit : ℕ → Coded → Coded
coded_bit value = coded_append value 1

-- `stm_bit_len` is what VE_ENC_AVC_STM_BIT_LEN_REG reads after the puts.
unfoldable pub coded_align : (List Put → ℕ) → Coded → Coded
coded_align stm_bit_len s =
    let bits_count = u32 (stm_bit_len s.puts) % 8 in
    if bits_count == 0 then s else coded_append 0 (8 - bits_count) s

unfoldable pub coded_eptb : Bool → Coded → Coded
coded_eptb true s = record s {
  para0 = if has_eptb_dis s.para0 then s.para0 - eptb_dis else s.para0;
}
coded_eptb false s = record s {
  para0 = if has_eptb_dis s.para0 then s.para0 else s.para0 + eptb_dis;
}

unfoldable pub coded_nalu_start : ℕ → Coded → Coded
coded_nalu_start header s =
    let s = coded_eptb false s in
    let s = coded_u32 0x1 s in let s = coded_u8 header s in coded_eptb true s
