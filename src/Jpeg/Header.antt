-- ===== src/Jpeg/Header.antt =====
-- cedrus-v4l2/cedrus_enc_jpeg.c, cedrus_enc_jpeg_put_*: the JPEG header, written byte by byte into a
-- buffer of bounded size. `data` is the memory that the header's pointer reaches.
pub mod Puts
use h618_vpu_port.Base.{
  ℕ, ◌+◌, ◌/◌, List, [], ◌∷◌, map, Step, ok, err, enospc, ◌>>◌, leb, if◌then◌else◌, set, get_or, u8,
}
use h618_vpu_port.Jpeg.Tables.{soi_app0, sos, sof0, dqt, components, dht, zigzag}

pub record Header : Type 0 where
  pub bytes : List ℕ
  pub size : ℕ
  pub position : ℕ

pub put_byte : ℕ → Step Header
put_byte b h =
    if leb h.size h.position
    then (err enospc, h)
    else (ok, record h { bytes = set h.bytes h.position (u8 b); position = h.position + 1 })

pub put_array : List ℕ → Step Header
put_array [] h = (ok, h)
put_array (b ∷ bs) h = (put_byte b >> put_array bs) h

pub put_u16 : ℕ → Step Header
put_u16 value = do put_byte (value / 256); put_byte value

-- The inner loop over the 64 entries, in zigzag order.
pub put_quant_entries : List ℕ → List ℕ → Step Header
put_quant_entries quant [] h = (ok, h)
put_quant_entries quant (z ∷ zs) h = (put_byte (get_or quant z 0) >> put_quant_entries quant zs) h

-- One round of the loop over the two tables.
pub put_quant_table : ℕ → List ℕ → Step Header
put_quant_table table quant = do put_array dqt; put_byte table; put_quant_entries quant zigzag

-- `width` and `height` are those of the picture format, passed as u16.
pub put_header : ℕ → ℕ → List ℕ → List ℕ → Step Header
put_header width height quant0 quant1 = do
  put_array soi_app0
  put_quant_table 0 quant0
  put_quant_table 1 quant1
  put_array sof0
  put_u16 height
  put_u16 width
  put_array components
  put_array dht
  put_array sos
