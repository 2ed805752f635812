-- ===== src/H264/Bits/Puts.antt =====
-- The stream that the engine makes of the puts, before escaping.
use h618_vpu_port.Base.{
  ℕ, zero, suc, ◌+◌, ◌-◌, ◌*◌, ◌/◌, ◌%◌, ◌^◌, ◌≤◌, ◌<◌, ◌≡◌, refl, ap, ◌∙◌, List, [], ◌∷◌, ◌++◌,
  append_assoc, Bool, true, Bool-cases, inl, inr, ltb, u32, u32_mod, ℤ, some, arith,
}
use native.Mathlib.Nat.{pow-suc}
use h618_vpu_port.H264.Bits.{
  Put, Coded, coded_append, fls, coded_ue, signed_ue, coded_se, coded_bytes, coded_u32,
}
use h618_vpu_port.H264.Bits.Golomb.{
  to_bits, to_bits-split, ue_bits, read_ue, read_se, read_ue-ue_bits, read_se-ue_bits, IsSigned,
}

-- The engine puts the low `count` bits of a value, the highest first, in front of what follows.
unfoldable pub stream_bits : List Put → List Bool → List Bool
stream_bits [] r = r
stream_bits (p ∷ ps) r = to_bits p.count p.value ++ stream_bits ps r

stream_bits-append :
    (ps qs : List Put) (r : List Bool)
    → stream_bits (ps ++ qs) r ≡ stream_bits ps (stream_bits qs r)
unfolding stream_bits
stream_bits-append [] qs r = refl
stream_bits-append (p ∷ ps) qs r =
    ap (λ t. to_bits p.count p.value ++ t) (stream_bits-append ps qs r)

pub append-bits :
    (v n : ℕ) (s : Coded) (r : List Bool)
    → stream_bits (coded_append v n s).puts r ≡ stream_bits s.puts (to_bits (n % 64) (u32 v) ++ r)
unfolding coded_append stream_bits
append-bits v n s r = stream_bits-append s.puts _ r

fls-lt : (fuel w : ℕ) → w < 2 ^ suc fuel → fls (suc fuel) w ≤ fuel
unfolding fls
fls-lt zero w h = let e : ltb w 2 ≡ true = ground arith in rw e (omega arith)
fls-lt (suc n) w h =
    let p = pow-suc 2 (suc n) in
    let r = fls-lt n (w / 2) (omega arith) in
    elim (Bool-cases (ltb w 2)) [ inl e ↦ rw e (omega arith) | inr e ↦ rw e (omega arith) ]

pub ue-bits :
    (v : ℕ) (s : Coded) (r : List Bool)
    → stream_bits (coded_ue v s).puts r ≡ stream_bits s.puts (ue_bits v ++ r)
unfolding coded_ue ue_bits
ue-bits v s r =
    let w = u32 (v + 1) in
    let n = 2 * fls 32 w + 1 in
    let l = fls-lt 31 w (omega arith) in
    let e : n % 64 ≡ n = omega arith in
    let g : u32 w ≡ w = omega arith in
    append-bits w n s r
    ∙ (ap (λ k. stream_bits s.puts (to_bits k (u32 w) ++ r)) e
        ∙ ap (λ k. stream_bits s.puts (to_bits n k ++ r)) g)

four_bytes :
    (v : ℕ) (r : List Bool)
    → to_bits 8 (v / 16777216 % 256)
        ++ (to_bits 8 (v / 65536 % 256)
            ++ (to_bits 8 (v / 256 % 256) ++ (to_bits 8 (v % 256) ++ r)))
      ≡ to_bits 32 (u32 v) ++ r
four_bytes v r =
    let b3 = to_bits 8 (v / 16777216 % 256) in
    let b2 = to_bits 8 (v / 65536 % 256) in
    let b1 = to_bits 8 (v / 256 % 256) in
    let b0 = to_bits 8 (v % 256) in
    let s2 : to_bits 16 (v % 65536) ≡ b1 ++ b0 =
      to_bits-split 16 8 8 (v % 65536) (v / 256 % 256) (v % 256) (omega arith) (omega arith)
        (omega arith) in
    let s3 : to_bits 24 (v % 16777216) ≡ b2 ++ to_bits 16 (v % 65536) =
      to_bits-split 24 8 16 (v % 16777216) (v / 65536 % 256) (v % 65536) (omega arith) (omega arith)
        (omega arith) in
    let s4 : to_bits 32 (u32 v) ≡ b3 ++ to_bits 24 (v % 16777216) =
      to_bits-split 32 8 24 (u32 v) (v / 16777216 % 256) (v % 16777216) (omega arith) (omega arith)
        (omega arith) in
    let a1 = append_assoc b3 (b2 ++ (b1 ++ b0)) r in
    let a2 = append_assoc b2 (b1 ++ b0) r in
    let a3 = append_assoc b1 b0 r in rw (s4, s3, s2, a1, a2, a3)

pub u32-bits :
    (v : ℕ) (s : Coded) (r : List Bool)
    → stream_bits (coded_u32 v s).puts r ≡ stream_bits s.puts (to_bits 32 (u32 v) ++ r)
unfolding coded_bytes
u32-bits v s r =
    let w = u32 v in
    let e0 : u32 (w / 1 % 256) ≡ w % 256 = omega arith in
    let e1 : u32 (w / 256 % 256) ≡ w / 256 % 256 = omega arith in
    let e2 : u32 (w / 65536 % 256) ≡ w / 65536 % 256 = omega arith in
    let e3 : u32 (w / 16777216 % 256) ≡ w / 16777216 % 256 = omega arith in
    let s3 = coded_append (w / 16777216 % 256) 8 s in
    let s2 = coded_append (w / 65536 % 256) 8 s3 in
    let s1 = coded_append (w / 256 % 256) 8 s2 in
    let g : u32 w ≡ w = omega arith in
    let f = four_bytes w r in
    append-bits (w / 1 % 256) 8 s1 r
    ∙ (append-bits (w / 256 % 256) 8 s2 _
        ∙ (append-bits (w / 65536 % 256) 8 s3 _
            ∙ (append-bits (w / 16777216 % 256) 8 s _
                ∙ rw (e0, e1, e2, e3) (ap (λ t. stream_bits s.puts t) (rw g at f)))))

-- An unsigned element below 2 ^ 32 - 1, appended to any stream, reads back as ue(v).
pub coded_ue_reads :
    (v : ℕ) (s : Coded) (r : List Bool)
    → v < u32_mod - 1
    → (t : List Bool) × (stream_bits (coded_ue v s).puts r ≡ stream_bits s.puts t)
      × (read_ue t ≡ some (v, r))
coded_ue_reads v s r h = (ue_bits v ++ r, ue-bits v s r, read_ue-ue_bits v r h)

-- A signed element, appended to any stream, reads back as se(v), where its code is below 2 ^ 32 - 1.
pub coded_se_reads :
    (z : ℤ) (s : Coded) (r : List Bool)
    → IsSigned z
    → (t : List Bool) × (stream_bits (coded_se z s).puts r ≡ stream_bits s.puts t)
      × (read_se t ≡ some (z, r))
unfolding coded_se
coded_se_reads z s r h =
    (ue_bits (signed_ue z) ++ r, ue-bits (signed_ue z) s r, read_se-ue_bits z r h)
