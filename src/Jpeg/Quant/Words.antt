-- ===== src/Jpeg/Quant/Words.antt =====
-- The words of the quantisation SRAM: half the divisor above a 16-bit reciprocal.
use h618_vpu_port.Base.{
  ℕ, ◌+◌, ◌*◌, ◌/◌, ◌%◌, ◌≤◌, ◌<◌, ◌≡◌, ◌⊎◌, inl, inr, refl, sym, ap, ◌∙◌, ◌==◌, false, ltb,
  if◌then◌else◌, arith,
}
use native.Mathlib.Decide.{dec_le}
use native.Mathlib.Nat.{div-add-mod', mod-lt, div-lt_iff_lt-mul}
use h618_vpu_port.Base.Bits.{bit_or-shift}
use h618_vpu_port.Jpeg.Quant.{quant_word}
use h618_vpu_port.Jpeg.Quant.Range.{IsQuant}

-- The reciprocal of a quantiser, as the low half of its word has it.
abbrev reciprocal : ℕ → ℕ
reciprocal q = if ltb (65536 / q) 65535 then 65536 / q + 1 else 65535

reciprocal-lt : (q : ℕ) → reciprocal q < 65536
reciprocal-lt q = ground arith

quant_word-add : (q : ℕ) → quant_word q ≡ q / 2 * 65536 + reciprocal q
unfolding quant_word
quant_word-add q = bit_or-shift 16 (q / 2) (reciprocal q) (reciprocal-lt q)

-- The rounded-up quotient, where the quotient fits below 65535.
reciprocal_two : (q : ℕ) → 2 ≤ q → (65536 < reciprocal q * q) × (reciprocal q * q ≤ 65536 + q)
reciprocal_two q h =
    let d = 65536 / q in
    let m : d * q + 65536 % q ≡ 65536 = div-add-mod' 65536 q in
    let l : 65536 % q < q = mod-lt 65536 (omega arith) in
    let half : d * 2 ≤ d * q = grind arith in
    let e : reciprocal q ≡ d + 1 = ground arith in
    let x : (d + 1) * q ≡ d * q + q = omega arith in rw (e, x) (omega arith)

-- The word of a quantiser q from 1 to 255 fits 32 bits and has two fields that do not overlap: q / 2 in
-- the high half and, in the low half, 65535 for q = 1 and else the least number whose product with q
-- is above 65536, which exceeds it by at most q.
pub quant_word_fields :
    (q : ℕ)
    → IsQuant q
    → (quant_word q < 4294967296)
      × (quant_word q / 65536 ≡ q / 2)
      × (((q ≡ 1) × (quant_word q % 65536 ≡ 65535))
          ⊎ ((2 ≤ q) × (65536 < quant_word q % 65536 * q) × (quant_word q % 65536 * q ≤ 65536 + q)))
quant_word_fields q h =
    let r = reciprocal q in
    let b = reciprocal-lt q in
    let low : (q / 2 * 65536 + r) % 65536 ≡ r = omega arith in
    rw (quant_word-add q) (
      omega arith,
      omega arith,
      elim (dec_le 2 q) [
        | yes t ↦ inr (t, rw low (reciprocal_two q t).0, rw low (reciprocal_two q t).1)
        | no n ↦ let e : q ≡ 1 = omega arith in inl (e, rw (low, e) refl)
      ],
    )

-- The word of a quantiser for the encoder: half of it above the reciprocal in sixteen bits of fraction,
-- rounded up, which for 1 is the largest that fits.
abbrev pub sram_word : ℕ → ℕ
sram_word q = q / 2 * 65536 + (if q == 1 then 65535 else 65536 / q + 1)

pub quant_word-sram_word : (q : ℕ) → IsQuant q → quant_word q ≡ sram_word q
quant_word-sram_word q h = elim (dec_le 2 q) [
  | yes t ↦
      let d : 65536 / q < 65535 =
        (div-lt_iff_lt-mul {k = q} {x = 65536} {y = 65535} (omega arith)).1 (omega arith) in
      let e : reciprocal q ≡ 65536 / q + 1 = ground arith in
      let g : (q == 1) ≡ false = ground arith in quant_word-add q ∙ rw (e, g) refl
  | no n ↦
      let e : q ≡ 1 = omega arith in ap quant_word e ∙ (quant_word-add 1 ∙ ap sram_word (sym e))
]
