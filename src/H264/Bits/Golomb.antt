-- ===== src/H264/Bits/Golomb.antt =====
-- The bits of a put, and the reading of them by the descriptors u(n), ue(v) and se(v) of ITU-T H.264,
-- 7.2 and 9.1.
use h618_vpu_port.Base.{
  ℕ, zero, suc, ◌+◌, ◌-◌, ◌*◌, ◌/◌, ◌%◌, ◌^◌, ◌≤◌, ◌<◌, ◌≡◌, refl, sym, ap, ◌∙◌, List, [], ◌∷◌,
  ◌++◌, append_assoc, append-nil, ltb→lt, Bool, true, false, Bool-cases, inl, inr, Option, none,
  some, if◌then◌else◌, ltb, ◌==◌, ℤ, pos, negsuc, u32, u32_mod, arith,
}
use native.Mathlib.Nat.{pow-suc}
use h618_vpu_port.H264.Bits.{fls, signed_ue}

-- The low n bits of a number, the highest first.
unfoldable pub to_bits : ℕ → ℕ → List Bool
to_bits zero v = []
to_bits (suc n) v = to_bits n (v / 2) ++ ((v % 2 == 1) ∷ [])

abbrev pub Reader {ℓ} : Type ℓ → Type ℓ
Reader A = List Bool → Option (A × List Bool)

infixl 5 ◌>>=◌
abbrev pub ◌>>=◌ {ℓ κ} : {A : Type ℓ} {B : Type κ} → Reader A → (A → Reader B) → Reader B
◌>>=◌ f g s = elim (f s) [ none ↦ none | some p ↦ g p.0 p.1 ]

abbrev pub return {ℓ} : {A : Type ℓ} → A → Reader A
return x s = some (x, s)

bit : Bool → ℕ
bit b = if b then 1 else 0

-- n bits behind a number that has been read.
pub read_from : ℕ → ℕ → Reader ℕ
read_from zero acc s = some (acc, s)
read_from (suc n) acc [] = none
read_from (suc n) acc (b ∷ s) = read_from n (2 * acc + bit b) s

-- u(n)
abbrev pub read_u : ℕ → Reader ℕ
read_u n = read_from n 0

-- ue(v), behind k zero bits
pub read_ue_from : ℕ → Reader ℕ
read_ue_from k [] = none
read_ue_from k (true ∷ s) = elim (read_from k 1 s) [ none ↦ none | some p ↦ some (p.0 - 1, p.1) ]
read_ue_from k (false ∷ s) = read_ue_from (suc k) s

abbrev pub read_ue : Reader ℕ
read_ue = read_ue_from 0

-- 9.1.1: the k-th value is (-1) ^ (k + 1) * Ceil(k / 2).
pub signed : ℕ → ℤ
signed k = if k % 2 == 1 then pos ((k + 1) / 2) else if k == 0 then pos 0 else negsuc (k / 2 - 1)

abbrev pub read_se : Reader ℤ
read_se = read_ue >>= (λ k. return (signed k))

read_from-snoc :
    (n acc : ℕ) (s : List Bool)
    → read_from (suc n) acc s
      ≡ elim (read_from n acc s) [ none ↦ none | some p ↦ read_from 1 p.0 p.1 ]
unfolding read_from
read_from-snoc zero acc [] = refl
read_from-snoc zero acc (b ∷ s) = refl
read_from-snoc (suc n) acc [] = refl
read_from-snoc (suc n) acc (b ∷ s) = read_from-snoc n (2 * acc + bit b) s

bit-parity : (v : ℕ) → bit (v % 2 == 1) ≡ v % 2
unfolding bit
bit-parity v = ground arith

pub read_from-to_bits :
    (n acc v : ℕ) (r : List Bool)
    → v < 2 ^ n
    → read_from n acc (to_bits n v ++ r) ≡ some (acc * 2 ^ n + v, r)
unfolding to_bits read_from
read_from-to_bits zero acc v r h = ap (λ x. some (x, r)) (omega arith)
read_from-to_bits (suc n) acc v r h =
    let p = pow-suc 2 n in
    let a = append_assoc (to_bits n (v / 2)) ((v % 2 == 1) ∷ []) r in
    let e = read_from-to_bits n acc (v / 2) ((v % 2 == 1) ∷ r) (omega arith) in
    let g : 2 * (acc * 2 ^ n + v / 2) + bit (v % 2 == 1) ≡ acc * 2 ^ suc n + v =
      rw (bit-parity v, p) (omega arith) in
    rw a (
      read_from-snoc n acc (to_bits n (v / 2) ++ ((v % 2 == 1) ∷ r))
      ∙ rw e (ap (λ x. some (x, r)) g))

double : (k hi : ℕ) → hi * 2 ^ suc k ≡ 2 * (hi * 2 ^ k)
double k hi = omega (arith, ap (λ (t : ℕ). hi * t) (pow-suc 2 k))

-- The bits of a number in two parts.
pub to_bits-split :
    (n j k v hi lo : ℕ)
    → n ≡ k + j
    → v ≡ hi * 2 ^ k + lo
    → lo < 2 ^ k
    → to_bits n v ≡ to_bits j hi ++ to_bits k lo
unfolding to_bits
to_bits-split n j zero v hi lo e g h =
    let a : n ≡ j = omega arith in
    let b : v ≡ hi = omega arith in rw (a, b) (sym (append-nil (to_bits j hi)))
to_bits-split zero j (suc k) v hi lo e g h = absurd (omega arith)
to_bits-split (suc m) j (suc k) v hi lo e g h =
    let p = pow-suc 2 k in
    let q = double k hi in
    let r = to_bits-split m j k (v / 2) hi (lo / 2) (omega arith) (omega arith) (omega arith) in
    let b : v % 2 ≡ lo % 2 = omega arith in
    rw (b, r) (append_assoc (to_bits j hi) (to_bits k (lo / 2)) ((lo % 2 == 1) ∷ []))

-- Leading zeros are counted.
read_ue-zeros :
    (k j : ℕ) (s : List Bool) → read_ue_from j (to_bits k 0 ++ s) ≡ read_ue_from (j + k) s
unfolding to_bits read_ue_from
read_ue-zeros zero j s = ap (λ n. read_ue_from n s) (omega arith)
read_ue-zeros (suc k) j s =
    let a = append_assoc (to_bits k 0) (false ∷ []) s in
    let e = read_ue-zeros k j (false ∷ s) in
    let g : suc (j + k) ≡ j + suc k = omega arith in rw a (e ∙ ap (λ n. read_ue_from n s) g)

-- The highest bit.
fls-bounds : (fuel w : ℕ) → 1 ≤ w → w < 2 ^ fuel → (2 ^ fls fuel w ≤ w) × (w < 2 * 2 ^ fls fuel w)
unfolding fls
fls-bounds zero w a b = absurd (omega arith)
fls-bounds (suc fuel) w a b = elim (Bool-cases (ltb w 2)) [
  | inl e ↦ rw e (omega (arith, ltb→lt w 2 e), omega (arith, ltb→lt w 2 e))
  | inr e ↦
      let c : 2 ≤ w = ground arith in
      let p = pow-suc 2 fuel in
      let r = fls-bounds fuel (w / 2) (omega arith) (omega arith) in
      let q = pow-suc 2 (fls fuel (w / 2)) in
      rw e (omega (arith, r.0, r.1, q), omega (arith, r.0, r.1, q))
]

-- The bits that the encoder puts for ue(v).
unfoldable pub ue_bits : ℕ → List Bool
unfolding fls
ue_bits v = to_bits (2 * fls 32 (u32 (v + 1)) + 1) (u32 (v + 1))

read_ue-one :
    (k w : ℕ) (s r : List Bool)
    → read_from k 1 s ≡ some (w, r)
    → read_ue_from k (true ∷ s) ≡ some (w - 1, r)
unfolding read_ue_from
read_ue-one k w s r h = ap (λ o. elim o [ none ↦ none | some p ↦ some (p.0 - 1, p.1) ]) h

-- What the encoder puts for ue(v) reads back, whatever follows.
pub read_ue-ue_bits :
    (v : ℕ) (r : List Bool) → v < u32_mod - 1 → read_ue (ue_bits v ++ r) ≡ some (v, r)
unfolding ue_bits read_ue_from to_bits
read_ue-ue_bits v r h =
    let e : u32 (v + 1) ≡ v + 1 = omega arith in
    let k = fls 32 (v + 1) in
    let b = fls-bounds 32 (v + 1) (omega arith) (omega arith) in
    let lo = v + 1 - 2 ^ k in
    let s1 =
      to_bits-split (2 * k + 1) (suc k) k (v + 1) 1 lo (omega arith) (omega arith) (omega arith) in
    let a1 = append_assoc (to_bits (suc k) 1) (to_bits k lo) r in
    let a2 = append_assoc (to_bits k 0) (true ∷ []) (to_bits k lo ++ r) in
    let z = read_ue-zeros k 0 (true ∷ (to_bits k lo ++ r)) in
    let q = read_from-to_bits k 1 lo r (omega arith) in
    let g : 1 * 2 ^ k + lo - 1 ≡ v = omega arith in
    let n : 0 + k ≡ k = omega arith in
    rw (e, s1, a1, a2)
      (z ∙ rw n (read_ue-one k (1 * 2 ^ k + lo) (to_bits k lo ++ r) r q ∙ ap (λ x. some (x, r)) g))

signed-signed_ue : (z : ℤ) → signed (signed_ue z) ≡ z
unfolding signed signed_ue
signed-signed_ue (pos zero) = refl
signed-signed_ue (pos (suc n)) =
    let a : ((2 * suc n - 1) % 2 == 1) ≡ true = ground arith in
    let b : (2 * suc n - 1 + 1) / 2 ≡ suc n = omega arith in rw (a, b)
signed-signed_ue (negsuc n) =
    let a : (2 * (n + 1) % 2 == 1) ≡ false = ground arith in
    let b : (2 * (n + 1) == 0) ≡ false = ground arith in
    let c : 2 * (n + 1) / 2 - 1 ≡ n = omega arith in rw (a, b, c)

-- The numbers that se(v) can carry in 32 bits.
abbrev pub IsSigned : ℤ → Type 0
IsSigned z = signed_ue z < u32_mod - 1

-- What the encoder puts for se(v) reads back, whatever follows.
pub read_se-ue_bits :
    (z : ℤ) (r : List Bool) → IsSigned z → read_se (ue_bits (signed_ue z) ++ r) ≡ some (z, r)
read_se-ue_bits z r h =
    ap (λ o. elim o [ none ↦ none | some p ↦ return (signed p.0) p.1 ])
      (read_ue-ue_bits (signed_ue z) r h)
    ∙ ap (λ x. some (x, r)) (signed-signed_ue z)

-- What the encoder puts for u(n) reads back, whatever follows.
pub read_u-to_bits :
    (n v : ℕ) (r : List Bool) → v < 2 ^ n → read_u n (to_bits n v ++ r) ≡ some (v, r)
read_u-to_bits n v r h = read_from-to_bits n 0 v r h ∙ ap (λ x. some (x, r)) (omega arith)
