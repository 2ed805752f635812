-- ===== src/Vp9Dec/Tiles.antt =====
-- cedrus-v4l2/cedrus_dec_vp9.c: the rectangles of superblocks that describe the tiles of a frame.
pub mod Cover
pub mod Partition
use h618_vpu_port.Base.{
  ℕ, zero, suc, ◌+◌, ◌-◌, ◌*◌, ◌/◌, ◌%◌, ◌^◌, u32, sub_u32, bit_or, List, [], ◌∷◌,
}

-- The size of a frame in superblocks and its tiling.
pub record Tiling : Type 0 where
  pub sb_cols : ℕ
  pub sb_rows : ℕ
  pub tile_cols_log2 : ℕ
  pub tile_rows_log2 : ℕ

abbrev pub tile_count : Tiling → ℕ
tile_count f = u32 (u32 (2 ^ f.tile_cols_log2) * u32 (2 ^ f.tile_rows_log2))

-- (index * sbs) >> log2 and ((index + 1) * sbs >> log2) - 1
abbrev pub tile_start : (index sbs log2 : ℕ) → ℕ
tile_start index sbs log2 = u32 (index * sbs) / 2 ^ log2

abbrev pub tile_end : (index sbs log2 : ℕ) → ℕ
tile_end index sbs log2 = sub_u32 (u32 (u32 (index + 1) * sbs) / 2 ^ log2) 1

-- A position of superblocks: y << 16 | x.
abbrev pub position : (y x : ℕ) → ℕ
position y x = bit_or (u32 (y * 2 ^ 16)) x

-- The body of the loop, with the four words of the tile's record.
unfoldable pub tile_entry : Tiling → ℕ → List ℕ
tile_entry f tile =
    let tile_cols = u32 (2 ^ f.tile_cols_log2) in
    let row = tile / tile_cols in
    let col = tile % tile_cols in
    0
    ∷ 0
    ∷ position (tile_start row f.sb_rows f.tile_rows_log2)
        (tile_start col f.sb_cols f.tile_cols_log2)
    ∷ position (tile_end row f.sb_rows f.tile_rows_log2) (tile_end col f.sb_cols f.tile_cols_log2)
    ∷ []

-- for (tile = 1; tile < tile_count; tile++), from `tile` on and for `n` tiles
unfoldable pub tile_entries : Tiling → (tile n : ℕ) → List (List ℕ)
tile_entries f tile zero = []
tile_entries f tile (suc n) = tile_entry f tile ∷ tile_entries f (suc tile) n

-- TILE_START and TILE_END
unfoldable pub first_tile : Tiling → List ℕ
first_tile f =
    0
    ∷ position (sub_u32 (f.sb_rows / 2 ^ f.tile_rows_log2) 1)
        (sub_u32 (f.sb_cols / 2 ^ f.tile_cols_log2) 1)
    ∷ []
