-- ===== src/H264/Headers/Syntax.antt =====
-- The headers as a reader of ITU-T H.264 sees them: the syntax tables of 7.3 as lists of descriptors,
-- with the conditions of the tables decided from what has been read.
use h618_vpu_port.Base.{
  ℕ, ◌-◌, ◌%◌, ◌^◌, ◌<◌, ◌≡◌, refl, ap, ◌∙◌, List, [], ◌∷◌, ◌++◌, map, Bool, true, false, Option,
  none, some, All, if◌then◌else◌, u8, u16, u32, u32_mod, ℤ, pos, arith,
}
use h618_vpu_port.H264.Bits.{Coded, signed_ue, coded_se}
use h618_vpu_port.H264.Bits.Golomb.{
  to_bits, ue_bits, Reader, ◌>>=◌, return, read_u, read_ue, read_se, read_ue-ue_bits,
  read_se-ue_bits, read_u-to_bits, IsSigned,
}
use h618_vpu_port.H264.Bits.Puts.{stream_bits, append-bits, ue-bits, u32-bits}
use h618_vpu_port.H264.Headers.{
  Call, append, ue, se, put_u8, put_u16, put_u32, put_bit, call, calls,
}

-- u(n), ue(v) and se(v)
pub data Descriptor : Type 0 where
  u : ℕ → Descriptor
  ue_v se_v : Descriptor

pub read : Descriptor → Reader ℤ
read (u n) = read_u n >>= (λ v. return (pos v))
read ue_v = read_ue >>= (λ v. return (pos v))
read se_v = read_se

unfoldable pub read_all : List Descriptor → Reader (List ℤ)
read_all [] = return []
read_all (d ∷ ds) = read d >>= (λ v. read_all ds >>= (λ vs. return (v ∷ vs)))

-- The bits of a call, its descriptor and its value.
pub call_bits : Call → List Bool
call_bits (append v n) = to_bits (n % 64) (u32 v)
call_bits (ue v) = ue_bits v
call_bits (se z) = ue_bits (signed_ue z)
call_bits (put_u8 v) = to_bits 8 (u8 v)
call_bits (put_u16 v) = to_bits 16 (u16 v)
call_bits (put_u32 v) = to_bits 32 (u32 v)
call_bits (put_bit v) = to_bits 1 (u32 v)

unfoldable pub calls_bits : List Call → List Bool → List Bool
calls_bits [] r = r
calls_bits (c ∷ cs) r = call_bits c ++ calls_bits cs r

unfoldable pub descriptor : Call → Descriptor
descriptor (append v n) = u (n % 64)
descriptor (ue v) = ue_v
descriptor (se z) = se_v
descriptor (put_u8 v) = u 8
descriptor (put_u16 v) = u 16
descriptor (put_u32 v) = u 32
descriptor (put_bit v) = u 1

unfoldable pub value_of : Call → ℤ
value_of (append v n) = pos (u32 v)
value_of (ue v) = pos v
value_of (se z) = z
value_of (put_u8 v) = pos (u8 v)
value_of (put_u16 v) = pos (u16 v)
value_of (put_u32 v) = pos (u32 v)
value_of (put_bit v) = pos (u32 v)

-- The value fits its descriptor.
abbrev pub Fits : Call → Type 0
Fits (append v n) = u32 v < 2 ^ (n % 64)
Fits (ue v) = v < u32_mod - 1
Fits (se z) = IsSigned z
Fits (put_u8 v) = Unit
Fits (put_u16 v) = Unit
Fits (put_u32 v) = Unit
Fits (put_bit v) = u32 v < 2

read-u : (n v : ℕ) (r : List Bool) → v < 2 ^ n → read (u n) (to_bits n v ++ r) ≡ some (pos v, r)
unfolding read
read-u n v r h =
    ap (λ o. elim o [ none ↦ none | some p ↦ return (pos p.0) p.1 ]) (read_u-to_bits n v r h)

read-call :
    (c : Call) (r : List Bool)
    → Fits c
    → read (descriptor c) (call_bits c ++ r) ≡ some (value_of c, r)
unfolding read descriptor call_bits value_of
read-call (append v n) r h = read-u (n % 64) (u32 v) r h
read-call (ue v) r h =
    ap (λ o. elim o [ none ↦ none | some p ↦ return (pos p.0) p.1 ]) (read_ue-ue_bits v r h)
read-call (se z) r h = read_se-ue_bits z r h
read-call (put_u8 v) r h = read-u 8 (u8 v) r (omega arith)
read-call (put_u16 v) r h = read-u 16 (u16 v) r (omega arith)
read-call (put_u32 v) r h = read-u 32 (u32 v) r (omega arith)
read-call (put_bit v) r h = read-u 1 (u32 v) r h

pub bind-some {ℓ κ} :
    {A : Type ℓ} {B : Type κ} (f : Reader A) (s : List Bool) (g : A → Reader B) {t : List Bool}
    {v : A}
    → f s ≡ some (v, t)
    → (f >>= g) s ≡ g v t
bind-some f s g h = ap (λ o. elim o [ none ↦ none | some p ↦ g p.0 p.1 ]) h

read_all-cons :
    (d : Descriptor) (ds : List Descriptor) (v : ℤ) (vs : List ℤ) (s t r : List Bool)
    → read d s ≡ some (v, t)
    → read_all ds t ≡ some (vs, r)
    → read_all (d ∷ ds) s ≡ some (v ∷ vs, r)
unfolding read_all
read_all-cons d ds v vs s t r h k =
    ap
      (λ (o : Option (ℤ × List Bool)). elim o [
        | none ↦ none
        | some p ↦ (read_all ds >>= (λ ws. return (p.0 ∷ ws))) p.1
      ])
      h
    ∙ ap
        (λ (o : Option (List ℤ × List Bool)). elim o [
          | none ↦ none
          | some p ↦ return (v ∷ p.0) p.1
        ])
        k

-- What a list of calls puts reads back by their descriptors.
pub read_all-calls :
    (cs : List Call) (r : List Bool)
    → All Fits cs
    → read_all (map descriptor cs) (calls_bits cs r) ≡ some (map value_of cs, r)
unfolding read_all calls_bits
read_all-calls [] r h = refl
read_all-calls (c ∷ cs) r h =
    read_all-cons (descriptor c) (map descriptor cs) (value_of c) (map value_of cs)
      (call_bits c ++ calls_bits cs r) (calls_bits cs r) r (read-call c (calls_bits cs r) h.0)
      (read_all-calls cs r h.1)

call-bits :
    (c : Call) (s : Coded) (r : List Bool)
    → stream_bits (call c s).puts r ≡ stream_bits s.puts (call_bits c ++ r)
unfolding call call_bits coded_se
call-bits (append v n) s r = append-bits v n s r
call-bits (ue v) s r = ue-bits v s r
call-bits (se z) s r = ue-bits (signed_ue z) s r
call-bits (put_u8 v) s r =
    append-bits (u8 v) 8 s r ∙ ap (λ x. stream_bits s.puts (to_bits 8 x ++ r)) (omega arith)
call-bits (put_u16 v) s r =
    append-bits (u16 v) 16 s r ∙ ap (λ x. stream_bits s.puts (to_bits 16 x ++ r)) (omega arith)
call-bits (put_u32 v) s r = u32-bits v s r
call-bits (put_bit v) s r = append-bits v 1 s r

-- The stream behind a list of calls.
pub calls-bits :
    (cs : List Call) (s : Coded) (r : List Bool)
    → stream_bits (calls cs s).puts r ≡ stream_bits s.puts (calls_bits cs r)
unfolding calls calls_bits
calls-bits [] s r = refl
calls-bits (c ∷ cs) s r = calls-bits cs (call c s) r ∙ call-bits c s (calls_bits cs r)

pub calls_bits-append :
    (cs ds : List Call) (r : List Bool) → calls_bits (cs ++ ds) r ≡ calls_bits cs (calls_bits ds r)
unfolding calls_bits
calls_bits-append [] ds r = refl
calls_bits-append (c ∷ cs) ds r = ap (λ t. call_bits c ++ t) (calls_bits-append cs ds r)

-- A table with conditions is a list of blocks. The descriptors of a block follow from the values of the
-- table's first block and of the block before.
abbrev pub Block : Type 0
Block = List ℤ → List ℤ → List Descriptor

pub read_blocks : List Block → List ℤ → List ℤ → Reader (List ℤ)
read_blocks [] first last = return []
read_blocks (f ∷ fs) first last =
    read_all (f first last) >>= (λ vs. read_blocks fs first vs >>= (λ ws. return (vs ++ ws)))

-- The calls of blocks, one behind the other.
unfoldable pub join : List (List Call) → List Call
join [] = []
join (cs ∷ css) = cs ++ join css

-- The calls have the descriptors that the table asks for, and values that fit them.
abbrev pub Matches : List Block → List ℤ → List ℤ → List (List Call) → Type 0
Matches [] first last [] = Unit
Matches [] first last (cs ∷ css) = ⊥
Matches (f ∷ fs) first last [] = ⊥
Matches (f ∷ fs) first last (cs ∷ css) =
    (f first last ≡ map descriptor cs) × All Fits cs × Matches fs first (map value_of cs) css

read_blocks-cons :
    (f : Block) (fs : List Block) (first last vs ws : List ℤ) (s t r : List Bool)
    → read_all (f first last) s ≡ some (vs, t)
    → read_blocks fs first vs t ≡ some (ws, r)
    → read_blocks (f ∷ fs) first last s ≡ some (vs ++ ws, r)
unfolding read_blocks
read_blocks-cons f fs first last vs ws s t r h k =
    ap
      (λ (o : Option (List ℤ × List Bool)). elim o [
        | none ↦ none
        | some p ↦ (read_blocks fs first p.0 >>= (λ us. return (p.0 ++ us))) p.1
      ])
      h
    ∙ ap
        (λ (o : Option (List ℤ × List Bool)). elim o [
          | none ↦ none
          | some p ↦ return (vs ++ p.0) p.1
        ])
        k

-- The values of blocks, one behind the other.
unfoldable pub values : List (List Call) → List ℤ
values [] = []
values (cs ∷ css) = map value_of cs ++ values css

-- What the calls of a table's blocks put reads back by the table.
pub read_blocks-calls :
    (fs : List Block) (css : List (List Call)) (first last : List ℤ) (r : List Bool)
    → Matches fs first last css
    → read_blocks fs first last (calls_bits (join css) r) ≡ some (values css, r)
unfolding read_blocks calls_bits join values
read_blocks-calls [] [] first last r h = refl
read_blocks-calls [] (cs ∷ css) first last r h = absurd h
read_blocks-calls (f ∷ fs) [] first last r h = absurd h
read_blocks-calls (f ∷ fs) (cs ∷ css) first last r (e, k, m) =
    let a = calls_bits-append cs (join css) r in
    let b = read_all-calls cs (calls_bits (join css) r) k in
    let b' : read_all (f first last) (calls_bits cs (calls_bits (join css) r))
        ≡ some (map value_of cs, calls_bits (join css) r) =
      rw e b in
    let d = read_blocks-calls fs css first (map value_of cs) r m in
    rw a (
      read_blocks-cons f fs first last (map value_of cs) (values css)
        (calls_bits cs (calls_bits (join css) r)) (calls_bits (join css) r) r b' d)

module _ {A : Type 0} where
  -- A condition commutes with a map.
  pub map-if :
      {B : Type 0} (f : A → B) (b : Bool) (xs ys : List A)
      → (if b then map f xs else map f ys) ≡ map f (if b then xs else ys)
  map-if f true xs ys = refl
  map-if f false xs ys = refl

  pub All-if :
      (P : A → Type 0) (b : Bool) (xs ys : List A)
      → All P xs
      → All P ys
      → All P (if b then xs else ys)
  All-if P true xs ys p q = p
  All-if P false xs ys p q = q
