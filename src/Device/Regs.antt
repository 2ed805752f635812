-- ===== src/Device/Regs.antt =====
-- cedrus-v4l2/cedrus_regs.h: the registers of the encoder that the models write, and the list of the
-- writes that an operation makes, oldest first.
use h618_vpu_port.Base.{ℕ, ◌+◌}

-- One cedrus_write: the register's offset and the value.
abbrev pub Write : Type 0
Write = ℕ × ℕ

abbrev pub enc_h264_base : ℕ
enc_h264_base = 0xb00

abbrev pub pic_info_reg : ℕ
pic_info_reg = enc_h264_base + 0x0

abbrev pub para0_reg : ℕ
para0_reg = enc_h264_base + 0x4

abbrev pub para1_reg : ℕ
para1_reg = enc_h264_base + 0x8

abbrev pub int_en_reg : ℕ
int_en_reg = enc_h264_base + 0x14

abbrev pub starttrig_reg : ℕ
starttrig_reg = enc_h264_base + 0x18

abbrev pub status_reg : ℕ
status_reg = enc_h264_base + 0x1c

abbrev pub putbitsdata_reg : ℕ
putbitsdata_reg = enc_h264_base + 0x20

abbrev pub residual_bits_reg : ℕ
residual_bits_reg = enc_h264_base + 0x54

abbrev pub header_bits_reg : ℕ
header_bits_reg = enc_h264_base + 0x58

abbrev pub stm_start_addr_reg : ℕ
stm_start_addr_reg = enc_h264_base + 0x80

abbrev pub stm_end_addr_reg : ℕ
stm_end_addr_reg = enc_h264_base + 0x84

abbrev pub stm_bit_offset_reg : ℕ
stm_bit_offset_reg = enc_h264_base + 0x88

abbrev pub stm_bit_max_reg : ℕ
stm_bit_max_reg = enc_h264_base + 0x8c

abbrev pub stm_bit_len_reg : ℕ
stm_bit_len_reg = enc_h264_base + 0x90

abbrev pub sram_offset_reg : ℕ
sram_offset_reg = enc_h264_base + 0xe0

abbrev pub sram_data_reg : ℕ
sram_data_reg = enc_h264_base + 0xe4

abbrev pub para2_reg : ℕ
para2_reg = enc_h264_base + 0xc

abbrev pub me_para_reg : ℕ
me_para_reg = enc_h264_base + 0x10

abbrev pub overtime_mb_reg : ℕ
overtime_mb_reg = enc_h264_base + 0x24

abbrev pub cyclic_intra_refresh_reg : ℕ
cyclic_intra_refresh_reg = enc_h264_base + 0x28

abbrev pub rc_init_reg : ℕ
rc_init_reg = enc_h264_base + 0x2c

abbrev pub rc_mad_th0_reg : ℕ
rc_mad_th0_reg = enc_h264_base + 0x30

abbrev pub rc_mad_th1_reg : ℕ
rc_mad_th1_reg = enc_h264_base + 0x34

abbrev pub rc_mad_th2_reg : ℕ
rc_mad_th2_reg = enc_h264_base + 0x38

abbrev pub rc_mad_th3_reg : ℕ
rc_mad_th3_reg = enc_h264_base + 0x3c

abbrev pub dynamic_me_par0_reg : ℕ
dynamic_me_par0_reg = enc_h264_base + 0x48

abbrev pub dynamic_me_par1_reg : ℕ
dynamic_me_par1_reg = enc_h264_base + 0x4c

abbrev pub mad_reg : ℕ
mad_reg = enc_h264_base + 0x50

abbrev pub me_info_reg : ℕ
me_info_reg = enc_h264_base + 0x5c

abbrev pub mv_buf_addr_reg : ℕ
mv_buf_addr_reg = enc_h264_base + 0x60

abbrev pub ref0_addr_y_reg : ℕ
ref0_addr_y_reg = enc_h264_base + 0xa0

abbrev pub ref0_addr_c_reg : ℕ
ref0_addr_c_reg = enc_h264_base + 0xa4

abbrev pub rec_addr_y_reg : ℕ
rec_addr_y_reg = enc_h264_base + 0xb0

abbrev pub rec_addr_c_reg : ℕ
rec_addr_c_reg = enc_h264_base + 0xb4

abbrev pub subpix_addr_last_reg : ℕ
subpix_addr_last_reg = enc_h264_base + 0xb8

abbrev pub subpix_addr_new_reg : ℕ
subpix_addr_new_reg = enc_h264_base + 0xbc

abbrev pub mb_info_addr_reg : ℕ
mb_info_addr_reg = enc_h264_base + 0xc0

abbrev pub deblk_addr_reg : ℕ
deblk_addr_reg = enc_h264_base + 0xc4

abbrev pub h618_ctrl_reg : ℕ
h618_ctrl_reg = enc_h264_base + 0xe4

-- VE_ENC_AVC_STARTTRIG_ENCODE_MODE_JPEG, _TYPE_PUT_BITS and _TYPE_ENC_START
abbrev pub encode_mode_jpeg : ℕ
encode_mode_jpeg = 0x10000

abbrev pub type_put_bits : ℕ
type_put_bits = 1

abbrev pub type_enc_start : ℕ
type_enc_start = 8

-- The CEDRUS_IRQ_* results.
pub data IrqStatus : Type 0 where
  none error success : IrqStatus
