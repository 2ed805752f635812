-- ===== src/Vp9Dec/Tiles/Cover.antt =====
-- One axis of the tiling of a frame, and the order of the tile records.
use h618_vpu_port.Base.{
  ℕ, zero, suc, ◌+◌, ◌-◌, ◌*◌, ◌/◌, ◌%◌, ◌^◌, ◌≤◌, ◌<◌, ◌≡◌, sym, ap, ap₂, ◌∙◌, ◌↔◌, Bool,
  Bool-cases, inl, inr, ◌&&◌, ◌==◌, leb, u32, sub_u32, bit_or, List, [], get_or, drop, arith,
}
use h618_vpu_port.Base.Bits.{bit_or-shift}
use h618_vpu_port.Vp9Dec.Tiles.{
  Tiling, tile_count, tile_start, tile_end, position, tile_entry, tile_entries, first_tile,
}
use native.Mathlib.Nat.{
  le-div_iff_mul-le, div-lt_iff_lt-mul, mul-le-mul, div-le_of_le-mul, div-add-mod',
  mul-add-div_right, mul-add-mod_self_right, div-eq_of_lt, mod-eq_of_lt, mul_comm,
}

-- The two words of a tile: the first tile has registers, the others have records.
abbrev pub tile_words : Tiling → ℕ → List ℕ
tile_words f zero = first_tile f
tile_words f (suc n) = drop 2 (get_or (tile_entries f 1 (tile_count f - 1)) n [])

-- Whether the superblock is between the two positions.
abbrev pub covers : List ℕ → (y x : ℕ) → Bool
covers ws y x =
    let first = get_or ws 0 0 in
    let last = get_or ws 1 0 in
    leb (first / 2 ^ 16) y
    && (leb y (last / 2 ^ 16) && (leb (first % 2 ^ 16) x && leb x (last % 2 ^ 16)))

-- The last index whose tile does not start after `x`.
abbrev pub index_at : (x sbs log2 : ℕ) → ℕ
index_at x sbs log2 = ((x + 1) * 2 ^ log2 - 1) / sbs

abbrev pub tile_at : Tiling → (y x : ℕ) → ℕ
tile_at f y x =
    index_at y f.sb_rows f.tile_rows_log2 * 2 ^ f.tile_cols_log2
    + index_at x f.sb_cols f.tile_cols_log2

-- Every tile has a superblock, and a position has 16 bits.
abbrev pub IsTiling : Tiling → Type 0
IsTiling f =
    (2 ^ f.tile_cols_log2 ≤ f.sb_cols)
    × (2 ^ f.tile_rows_log2 ≤ f.sb_rows)
    × (f.sb_cols ≤ 1024)
    × (f.sb_rows ≤ 1024)

pub position_reads :
    (y x : ℕ) → y < 2 ^ 16 → x < 2 ^ 16 → (position y x / 2 ^ 16 ≡ y) × (position y x % 2 ^ 16 ≡ x)
position_reads y x h k =
    let w : u32 (y * 2 ^ 16) ≡ y * 2 ^ 16 = omega arith in
    let e = ap (λ z. bit_or z x) w ∙ bit_or-shift 16 y x k in (omega (arith, e), omega (arith, e))

pub times : (a b c d : ℕ) → a ≤ b → c ≤ d → a * c ≤ b * d
times a b c d h k = mul-le-mul h k

-- With `p` tiles over `s` superblocks, tile `c` starts at or before `x` exactly if it is not after the
-- one at `x`.
start-le : (c p s x : ℕ) → 0 < p → 0 < s → (c * s / p ≤ x) ↔ (c ≤ ((x + 1) * p - 1) / s)
start-le c p s x hp hs =
    let m : 1 ≤ (x + 1) * p = times 1 (x + 1) 1 p (omega arith) hp in
    (
      λ h.
          let l : c * s < (x + 1) * p = (div-lt_iff_lt-mul hp).0 (omega arith) in
          (le-div_iff_mul-le hs).1 (omega arith),
      λ h.
          let l : c * s ≤ (x + 1) * p - 1 = (le-div_iff_mul-le hs).0 h in
          let g : c * s / p < x + 1 = (div-lt_iff_lt-mul hp).1 (omega arith) in omega arith,
    )

-- One axis of a frame.
pub axis :
    (c s k x : ℕ)
    → c < 2 ^ k
    → 2 ^ k ≤ s
    → s ≤ 1024
    → (tile_start c s k ≤ 1024)
      × (tile_end c s k ≤ 1024)
      × ((leb (tile_start c s k) x && leb x (tile_end c s k)) ≡ (c == index_at x s k))
axis c s k x h l b =
    let hp : 0 < 2 ^ k = omega arith in
    let lo : c * s ≤ 1024 * 1024 = times c 1024 s 1024 (omega arith) b in
    let hi : (c + 1) * s ≤ 1024 * 1024 = times (c + 1) 1024 s 1024 (omega arith) b in
    let below : (c + 1) * s / 2 ^ k ≤ s =
      div-le_of_le-mul (2 ^ k) (times (c + 1) (2 ^ k) s s (omega arith) (omega arith)) in
    let before : c * s / 2 ^ k ≤ s =
      div-le_of_le-mul (2 ^ k) (times c (2 ^ k) s s (omega arith) (omega arith)) in
    let some : 1 ≤ (c + 1) * s / 2 ^ k =
      (le-div_iff_mul-le hp).1 (times 1 (c + 1) (2 ^ k) s (omega arith) l) in
    let u : u32 (c * s) ≡ c * s = omega arith in
    let v : u32 (u32 (c + 1) * s) ≡ (c + 1) * s =
      let w : u32 (c + 1) ≡ c + 1 = omega arith in ap (λ z. u32 (z * s)) w ∙ omega arith in
    let first : tile_start c s k ≡ c * s / 2 ^ k = ap (λ z. z / 2 ^ k) u in
    let last : tile_end c s k ≡ (c + 1) * s / 2 ^ k - 1 =
      ap (λ z. sub_u32 (z / 2 ^ k) 1) v ∙ omega arith in
    let a = start-le c (2 ^ k) s x hp (omega arith) in
    let e = start-le (c + 1) (2 ^ k) s x hp (omega arith) in
    (omega arith, omega arith, rw (first, last) (grind arith))

-- The tile at a superblock of the frame is one of its tiles.
pub index_at-lt : (x s k : ℕ) → 2 ^ k ≤ s → x < s → 0 < 2 ^ k → index_at x s k < 2 ^ k
index_at-lt x s k l h hp =
    let m : (x + 1) * 2 ^ k ≤ s * 2 ^ k =
      times (x + 1) s (2 ^ k) (2 ^ k) (omega arith) (omega arith) in
    let e = mul_comm s (2 ^ k) in
    let n : 1 ≤ (x + 1) * 2 ^ k = times 1 (x + 1) 1 (2 ^ k) (omega arith) hp in
    (div-lt_iff_lt-mul (omega arith)).1 (omega (arith, e))

-- Row-major order.
pub row_major :
    (t c row col : ℕ) → 0 < c → col < c → (t / c == row && t % c == col) ≡ (t == row * c + col)
row_major t c row col hc h =
    let d : t / c * c + t % c ≡ t = div-add-mod' t c in
    elim (Bool-cases (t == row * c + col)) [
      | inl e ↦
          let g : t ≡ row * c + col = ground arith in
          let q : t / c ≡ row =
            ap (λ z. z / c) g
            ∙ mul-add-div_right hc row col
            ∙ ap (λ z. row + z) (div-eq_of_lt h)
            ∙ omega arith in
          let r : t % c ≡ col =
            ap (λ z. z % c) g ∙ mul-add-mod_self_right row c col ∙ mod-eq_of_lt h in
          ground arith
      | inr e ↦ elim (Bool-cases (t / c == row && t % c == col)) [
        | inr n ↦ n ∙ sym e
        | inl y ↦
            let q : t / c ≡ row = ground arith in
            let r : t % c ≡ col = ground arith in
            let g : t ≡ row * c + col = sym d ∙ ap₂ (λ a b. a * c + b) q r in absurd (ground arith)
      ]
    ]

pub get_or-tile_entries :
    (f : Tiling) (t n i : ℕ) → i < n → get_or (tile_entries f t n) i [] ≡ tile_entry f (t + i)
unfolding tile_entries
get_or-tile_entries f t zero i h = absurd (omega arith)
get_or-tile_entries f t (suc n) zero h = ap (tile_entry f) (omega arith)
get_or-tile_entries f t (suc n) (suc i) h =
    get_or-tile_entries f (suc t) n i (omega arith) ∙ ap (tile_entry f) (omega arith)
