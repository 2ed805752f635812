-- ===== src/Jpeg/Quant/Range.antt =====
-- The range of the quantisation tables, and how they follow the quality.
use h618_vpu_port.Base.{
  ℕ, zero, suc, ◌+◌, ◌-◌, ◌*◌, ◌/◌, ◌≤◌, ◌<◌, ◌≡◌, refl, List, [], ◌∷◌, map, Bool, true, ◌&&◌, leb,
  clamp, clamp_bounds, get_or, length, All, u32, arith,
}
use h618_vpu_port.Jpeg.Tables.{luma_quant_base, chroma_quant_base}
use h618_vpu_port.Jpeg.Quant.{JpegContext, JpegJob, quant_scale, quant_entry, job_prepare}

-- A value that a DQT segment of 8-bit precision may hold.
abbrev pub IsQuant : ℕ → Type 0
IsQuant q = (1 ≤ q) × (q ≤ 255)

quant_entry-IsQuant : (scale base : ℕ) → IsQuant (quant_entry scale base)
unfolding quant_entry
quant_entry-IsQuant scale base =
    let b = clamp_bounds (u32 (base * scale + 50) / 100) 1 255 (omega arith) in omega arith

All-quant_entry : (scale : ℕ) (bases : List ℕ) → All IsQuant (map (quant_entry scale) bases)
All-quant_entry scale [] = tt
All-quant_entry scale (b ∷ bs) = (quant_entry-IsQuant scale b, All-quant_entry scale bs)

-- Whatever the quality control holds, each table of the job has 64 entries from 1 to 255, so no entry
-- is a divisor that is 0 and none leaves its byte; and the quality is from 1 to 100.
pub job_prepare_range :
    (ctx : JpegContext) (job : JpegJob)
    → let j = job_prepare ctx job in
      All IsQuant j.quant0
      × All IsQuant j.quant1
      × (length j.quant0 ≡ 64)
      × (length j.quant1 ≡ 64)
      × (1 ≤ j.quality)
      × (j.quality ≤ 100)
unfolding job_prepare
job_prepare_range ctx job =
    let q = clamp_bounds ctx.quality 1 100 (omega arith) in
    (All-quant_entry _ luma_quant_base, All-quant_entry _ chroma_quant_base, refl, refl, q.0, q.1)

-- The scale falls as the quality grows, by the table of its 100 values.
falls : ℕ → Bool
falls zero = true
falls (suc n) = leb (quant_scale (suc (suc n))) (quant_scale (suc n)) && falls n

falls_sound : (n q : ℕ) → falls n ≡ true → q < n → quant_scale (suc (suc q)) ≤ quant_scale (suc q)
unfolding falls
falls_sound zero q h l = absurd (omega arith)
falls_sound (suc n) q h l = ground (arith, falls_sound n q)

falls_table : falls 99 ≡ true
unfolding falls quant_scale
falls_table = refl

quant_scale_antitone : (d q : ℕ) → suc q + d ≤ 100 → quant_scale (suc q + d) ≤ quant_scale (suc q)
quant_scale_antitone zero q h = let e : suc q + 0 ≡ suc q = omega arith in rw e (omega arith)
quant_scale_antitone (suc d) q h =
    let e : suc q + suc d ≡ suc (suc (q + d)) = omega arith in
    let e' : suc q + d ≡ suc (q + d) = omega arith in
    let one : quant_scale (suc (suc (q + d))) ≤ quant_scale (suc (q + d)) =
      falls_sound 99 (q + d) falls_table (omega arith) in
    let ih : quant_scale (suc (q + d)) ≤ quant_scale (suc q) =
      rw e' at (quant_scale_antitone d q (omega arith)) in
    rw e (omega arith)

quant_scale_one : quant_scale 1 ≡ 5000
unfolding quant_scale
quant_scale_one = refl

quant_scale-le : (q : ℕ) → 1 ≤ q → q ≤ 100 → quant_scale q ≤ 5000
quant_scale-le zero a b = absurd (omega arith)
quant_scale-le (suc q) a b =
    let e : 1 + q ≡ suc q = omega arith in
    let f : quant_scale (suc q) ≤ quant_scale 1 =
      rw e at (quant_scale_antitone q 0 (omega arith)) in
    omega (arith, quant_scale_one)

quant_scale_mono : (q r : ℕ) → 1 ≤ q → q ≤ r → r ≤ 100 → quant_scale r ≤ quant_scale q
quant_scale_mono zero r a b c = absurd (omega arith)
quant_scale_mono (suc q) r a b c =
    let e : suc q + (r - suc q) ≡ r = omega arith in
    rw e at (quant_scale_antitone (r - suc q) q (omega arith))

quant_entry_mono :
    (s t base : ℕ) → s ≤ t → t ≤ 5000 → base ≤ 255 → quant_entry s base ≤ quant_entry t base
unfolding quant_entry
quant_entry_mono s t base a b c =
    let p : base * s ≤ base * t = grind arith in
    let r : base * t ≤ 255 * 5000 = grind arith in ground arith

get_or-quant_entry_mono :
    (s t : ℕ) (bases : List ℕ) (i : ℕ)
    → s ≤ t
    → t ≤ 5000
    → All (λ b. b ≤ 255) bases
    → get_or (map (quant_entry s) bases) i 0 ≤ get_or (map (quant_entry t) bases) i 0
get_or-quant_entry_mono s t [] i a b c = omega arith
get_or-quant_entry_mono s t (x ∷ xs) zero a b c = quant_entry_mono s t x a b c.0
get_or-quant_entry_mono s t (x ∷ xs) (suc i) a b c = get_or-quant_entry_mono s t xs i a b c.1

-- A higher quality never makes a quantiser of either table coarser.
pub job_prepare_antitone :
    (low high : JpegContext) (job : JpegJob) (i : ℕ)
    → low.quality ≤ high.quality
    → (get_or (job_prepare high job).quant0 i 0 ≤ get_or (job_prepare low job).quant0 i 0)
      × (get_or (job_prepare high job).quant1 i 0 ≤ get_or (job_prepare low job).quant1 i 0)
unfolding job_prepare
job_prepare_antitone low high job i h =
    let ql = clamp low.quality 1 100 in
    let qh = clamp high.quality 1 100 in
    let bl = clamp_bounds low.quality 1 100 (omega arith) in
    let bh = clamp_bounds high.quality 1 100 (omega arith) in
    let m : ql ≤ qh = ground arith in
    let s = quant_scale_mono ql qh bl.0 m bh.1 in
    let l = quant_scale-le ql bl.0 bl.1 in
    (
      get_or-quant_entry_mono _ _ luma_quant_base i s l (omega arith),
      get_or-quant_entry_mono _ _ chroma_quant_base i s l (omega arith),
    )

-- At quality 50 the tables are those of ITU-T T.81, Annex K.
pub job_prepare_landmarks :
    (job : JpegJob)
    → ((job_prepare (record { quality = 50 }) job).quant0 ≡ luma_quant_base)
      × ((job_prepare (record { quality = 50 }) job).quant1 ≡ chroma_quant_base)
unfolding job_prepare quant_entry quant_scale
job_prepare_landmarks job = (refl, refl)
