-- ===== src/Vp9Dec/Tiles/Partition.antt =====
-- The tiles of a frame partition its superblocks.
use h618_vpu_port.Base.{
  ℕ, zero, suc, ◌+◌, ◌-◌, ◌*◌, ◌/◌, ◌%◌, ◌^◌, ◌≤◌, ◌<◌, ◌≡◌, refl, sym, ap, ap₂, ◌∙◌, Bool, true,
  false, ◌&&◌, ◌==◌, leb, u32, sub_u32, List, [], ◌∷◌, drop, arith,
}
use h618_vpu_port.Vp9Dec.Tiles.{
  Tiling, tile_count, tile_start, tile_end, position, tile_entry, first_tile,
}
use h618_vpu_port.Vp9Dec.Tiles.Cover.{
  tile_words, covers, index_at, tile_at, IsTiling, position_reads, axis, index_at-lt, row_major,
  get_or-tile_entries, times,
}
use native.Mathlib.Nat.{
  zero-div, mod-lt, div-lt_iff_lt-mul, mul_comm, mod-eq_of_lt, pow-le-pow_right,
}

-- The rectangle of the tile at a row and a column.
abbrev rectangle : Tiling → (row col : ℕ) → List ℕ
rectangle f row col =
    position (tile_start row f.sb_rows f.tile_rows_log2) (tile_start col f.sb_cols f.tile_cols_log2)
    ∷ position (tile_end row f.sb_rows f.tile_rows_log2) (tile_end col f.sb_cols f.tile_cols_log2)
    ∷ []

and_assoc : (a b c : Bool) → (a && (b && c)) ≡ ((a && b) && c)
and_assoc true b c = refl
and_assoc false b c = refl

covers-position :
    (sy sx ey ex y x : ℕ)
    → sy ≤ 1024
    → sx ≤ 1024
    → ey ≤ 1024
    → ex ≤ 1024
    → covers (position sy sx ∷ position ey ex ∷ []) y x
      ≡ ((leb sy y && leb y ey) && (leb sx x && leb x ex))
covers-position sy sx ey ex y x a b c d =
    let first = position_reads sy sx (omega arith) (omega arith) in
    let last = position_reads ey ex (omega arith) (omega arith) in
    rw (first.0, first.1, last.0, last.1) (and_assoc (leb sy y) (leb y ey) _)

covers-rectangle :
    (f : Tiling) (row col y x : ℕ)
    → IsTiling f
    → row < 2 ^ f.tile_rows_log2
    → col < 2 ^ f.tile_cols_log2
    → covers (rectangle f row col) y x ≡ (
        row == index_at y f.sb_rows f.tile_rows_log2
        && col == index_at x f.sb_cols f.tile_cols_log2)
covers-rectangle f row col y x (lc, lr, bc, br) hr hc =
    let r = axis row f.sb_rows f.tile_rows_log2 y hr lr br in
    let c = axis col f.sb_cols f.tile_cols_log2 x hc lc bc in
    covers-position (tile_start row f.sb_rows f.tile_rows_log2)
      (tile_start col f.sb_cols f.tile_cols_log2) (tile_end row f.sb_rows f.tile_rows_log2)
      (tile_end col f.sb_cols f.tile_cols_log2) y x r.0 c.0 r.1 c.1
    ∙ ap₂ (λ a b. a && b) r.2 c.2

first_index :
    (s k : ℕ) → s ≤ 1024 → (tile_start 0 s k ≡ 0) × (tile_end 0 s k ≡ sub_u32 (s / 2 ^ k) 1)
first_index s k b =
    let u : u32 (u32 (0 + 1) * s) ≡ s = omega arith in
    let v : u32 (0 * s) ≡ 0 = omega arith in
    (ap (λ z. z / 2 ^ k) v ∙ zero-div (2 ^ k), ap (λ z. sub_u32 (z / 2 ^ k) 1) u)

-- The registers of the first tile hold what its record would.
first_tile-rectangle :
    (f : Tiling) → f.sb_cols ≤ 1024 → f.sb_rows ≤ 1024 → first_tile f ≡ rectangle f 0 0
unfolding first_tile
first_tile-rectangle f bc br =
    let r = first_index f.sb_rows f.tile_rows_log2 br in
    let c = first_index f.sb_cols f.tile_cols_log2 bc in
    sym (ap₂ (λ a b. a ∷ b ∷ []) (ap₂ position r.0 c.0) (ap₂ position r.1 c.1))

power : (k : ℕ) → 0 < 2 ^ k
power k = pow-le-pow_right {n = 2} (omega arith) {i = 0} {j = k} (omega arith)

tile_count-eq :
    (f : Tiling)
    → IsTiling f
    → (u32 (2 ^ f.tile_cols_log2) ≡ 2 ^ f.tile_cols_log2)
      × (tile_count f ≡ 2 ^ f.tile_rows_log2 * 2 ^ f.tile_cols_log2)
tile_count-eq f (lc, lr, bc, br) =
    let p = 2 ^ f.tile_cols_log2 in
    let q = 2 ^ f.tile_rows_log2 in
    let a : u32 p ≡ p = omega arith in
    let b : u32 q ≡ q = omega arith in
    let m : p * q ≤ 1024 * 1024 = times p 1024 q 1024 (omega arith) (omega arith) in
    let c : u32 (p * q) ≡ p * q = omega arith in
    (a, ap₂ (λ x y. u32 (x * y)) a b ∙ c ∙ mul_comm p q)

-- The words of every tile, from its number.
tile_words-rectangle :
    (f : Tiling) (t : ℕ)
    → IsTiling f
    → t < tile_count f
    → tile_words f t ≡ rectangle f (t / 2 ^ f.tile_cols_log2) (t % 2 ^ f.tile_cols_log2)
unfolding tile_entry
tile_words-rectangle f zero (lc, lr, bc, br) h =
    first_tile-rectangle f bc br
    ∙ sym (
        ap₂ (rectangle f) (zero-div (2 ^ f.tile_cols_log2)) (mod-eq_of_lt (power f.tile_cols_log2)))
tile_words-rectangle f (suc n) v h =
    let e = get_or-tile_entries f 1 (tile_count f - 1) n (omega arith) in
    let one : 1 + n ≡ suc n = omega arith in
    ap (drop 2) (e ∙ ap (tile_entry f) one)
    ∙ ap (λ c. rectangle f (suc n / c) (suc n % c)) (tile_count-eq f v).0

-- If every tile has a superblock and the frame has at most 1024 by 1024 of them, the words of tile `t`
-- cover a superblock of the frame exactly if `t` is the tile at that superblock, which is one of the
-- frame's tiles: the tiles cover the frame and do not overlap.
pub covers-tile_words :
    (f : Tiling) (y x t : ℕ)
    → IsTiling f
    → y < f.sb_rows
    → x < f.sb_cols
    → t < tile_count f
    → (tile_at f y x < tile_count f) × (covers (tile_words f t) y x ≡ (t == tile_at f y x))
covers-tile_words f y x t v hy hx h =
    let (lc, lr, bc, br) = v in
    let p = 2 ^ f.tile_cols_log2 in
    let q = 2 ^ f.tile_rows_log2 in
    let n = (tile_count-eq f v).1 in
    let e : t < q * p = omega (arith, n) in
    let hp = power f.tile_cols_log2 in
    let row : t / p < q = (div-lt_iff_lt-mul hp).1 e in
    let iy = index_at-lt y f.sb_rows f.tile_rows_log2 lr hy (power f.tile_rows_log2) in
    let ix = index_at-lt x f.sb_cols f.tile_cols_log2 lc hx hp in
    let m : (index_at y f.sb_rows f.tile_rows_log2 + 1) * p ≤ q * p =
      times (index_at y f.sb_rows f.tile_rows_log2 + 1) q p p (omega arith) (omega arith) in
    (
      omega (arith, n),
      ap (λ w. covers w y x) (tile_words-rectangle f t v h)
          ∙ covers-rectangle f (t / p) (t % p) y x v row (mod-lt t hp)
          ∙ row_major t p (index_at y f.sb_rows f.tile_rows_log2)
              (index_at x f.sb_cols f.tile_cols_log2) hp ix,
    )
