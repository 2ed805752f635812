-- ===== src/Jpeg/Header/Puts.antt =====
-- What the put functions write: the bytes of a list, one after the other from the position on.
use h618_vpu_port.Base.{
  ℕ, zero, suc, ◌+◌, ◌/◌, ◌≤◌, ◌<◌, ◌≡◌, refl, sym, ap, ap₂, ◌∙◌, List, [], ◌∷◌, ◌++◌, map,
  append_assoc, Step, ok, err, enospc, ◌>>◌, set, get_or, u8, length, take, drop, length-set,
  length-append, arith,
}
use native.Mathlib.Decide.{dec_le}
use h618_vpu_port.Jpeg.Tables.{soi_app0, sos, sof0, dqt, components, dht, zigzag}
use h618_vpu_port.Jpeg.Header.{
  Header, put_byte, put_array, put_u16, put_quant_entries, put_quant_table, put_header,
}

-- `header->data[header->position++] = byte`.
abbrev pub store : Header → ℕ → Header
store h b = record h { bytes = set h.bytes h.position (u8 b); position = h.position + 1 }

-- The header after the bytes `bs` were stored at its position.
pub advance : Header → List ℕ → Header
advance h [] = h
advance h (b ∷ bs) = advance (store h b) bs

pub advance-append :
    (h : Header) (bs cs : List ℕ) → advance h (bs ++ cs) ≡ advance (advance h bs) cs
unfolding advance
advance-append h [] cs = refl
advance-append h (b ∷ bs) cs = advance-append (store h b) bs cs

pub position-advance : (h : Header) (bs : List ℕ) → (advance h bs).position ≡ h.position + length bs
unfolding advance
position-advance h [] = omega arith
position-advance h (b ∷ bs) = omega (arith, position-advance (store h b) bs)

pub size-advance : (h : Header) (bs : List ℕ) → (advance h bs).size ≡ h.size
unfolding advance
size-advance h [] = refl
size-advance h (b ∷ bs) = size-advance (store h b) bs

-- `f` writes `bs` where they fit, and fails with ENOSPC where they do not.
pub record Puts (f : Step Header) (bs : List ℕ) : Type 0 where
  pub fits : (h : Header) → h.position + length bs ≤ h.size → f h ≡ (ok, advance h bs)
  pub full :
      (h : Header) → h.position ≤ h.size → h.size < h.position + length bs → (f h).0 ≡ err enospc

pub put_byte-Puts : (b : ℕ) → Puts (put_byte b) (b ∷ [])
unfolding put_byte advance
put_byte-Puts b = record { fits = λ h p. ground arith; full = λ h r p. ground arith }

-- A step that failed decides the result of the whole.
>>-err : (f g : Step Header) (h : Header) → (f h).0 ≡ err enospc → ((f >> g) h).0 ≡ err enospc
>>-err f g h e = ground arith

>>-ok : (f g : Step Header) (h k : Header) → f h ≡ (ok, k) → (f >> g) h ≡ g k
>>-ok f g h k e = ground arith

pub >>-Puts :
    {f g : Step Header} {bs cs : List ℕ} → Puts f bs → Puts g cs → Puts (f >> g) (bs ++ cs)
>>-Puts {f} {g} {bs} {cs} p q = record {
  fits = λ h l.
      let n = length-append bs cs in
      >>-ok f g h (advance h bs) (p.fits h (omega arith))
      ∙ q.fits (advance h bs) (omega (arith, position-advance h bs, size-advance h bs))
      ∙ ap (λ k. (ok, k)) (sym (advance-append h bs cs));
  full = λ h r l.
      let n = length-append bs cs in
      elim (dec_le (h.position + length bs) h.size) [
        | yes m ↦ rw (>>-ok f g h (advance h bs) (p.fits h m)) (
            q.full (advance h bs) (omega (arith, position-advance h bs, size-advance h bs))
              (omega (arith, position-advance h bs, size-advance h bs)))
        | no m ↦ >>-err f g h (p.full h r (omega arith))
      ];
}

pub put_array-Puts : (bs : List ℕ) → Puts (put_array bs) bs
unfolding put_array advance
put_array-Puts [] = record { fits = λ h l. refl; full = λ h r l. absurd (omega arith) }
put_array-Puts (b ∷ bs) =
    let tail = >>-Puts (put_byte-Puts b) (put_array-Puts bs) in
    record { fits = λ h l. tail.fits h l; full = λ h r l. tail.full h r l }

pub put_u16-Puts : (v : ℕ) → Puts (put_u16 v) (v / 256 ∷ v ∷ [])
unfolding put_u16
put_u16-Puts v = >>-Puts (put_byte-Puts (v / 256)) (put_byte-Puts v)

-- The entries of a quantisation table in the order of `zs`.
abbrev pub in_order : List ℕ → List ℕ → List ℕ
in_order quant zs = map (λ z. get_or quant z 0) zs

put_quant_entries-Puts : (quant zs : List ℕ) → Puts (put_quant_entries quant zs) (in_order quant zs)
unfolding put_quant_entries advance
put_quant_entries-Puts quant [] = record {
  fits = λ h l. refl;
  full = λ h r l. absurd (omega arith);
}
put_quant_entries-Puts quant (z ∷ zs) =
    let tail = >>-Puts (put_byte-Puts (get_or quant z 0)) (put_quant_entries-Puts quant zs) in
    record { fits = λ h l. tail.fits h l; full = λ h r l. tail.full h r l }

-- One DQT segment.
abbrev pub quant_segment : ℕ → List ℕ → List ℕ
quant_segment table quant = dqt ++ ((table ∷ []) ++ in_order quant zigzag)

put_quant_table-Puts :
    (table : ℕ) (quant : List ℕ) → Puts (put_quant_table table quant) (quant_segment table quant)
unfolding put_quant_table
put_quant_table-Puts table quant =
    >>-Puts (put_array-Puts dqt)
      (>>-Puts (put_byte-Puts table) (put_quant_entries-Puts quant zigzag))

-- The whole header: APP0, both DQT segments, SOF0 with the dimensions, the four DHT segments, SOS.
unfoldable pub header_bytes : ℕ → ℕ → List ℕ → List ℕ → List ℕ
header_bytes width height quant0 quant1 =
    soi_app0
    ++ (quant_segment 0 quant0
        ++ (quant_segment 1 quant1
            ++ (sof0
                ++ ((height / 256 ∷ height ∷ [])
                    ++ ((width / 256 ∷ width ∷ []) ++ (components ++ (dht ++ sos)))))))

pub put_header-Puts :
    (width height : ℕ) (quant0 quant1 : List ℕ)
    → Puts (put_header width height quant0 quant1) (header_bytes width height quant0 quant1)
unfolding put_header header_bytes
put_header-Puts width height quant0 quant1 = >>-Puts (put_array-Puts soi_app0) (
    >>-Puts (put_quant_table-Puts 0 quant0) (
      >>-Puts (put_quant_table-Puts 1 quant1) (
        >>-Puts (put_array-Puts sof0) (
          >>-Puts (put_u16-Puts height) (
            >>-Puts (put_u16-Puts width) (
              >>-Puts (put_array-Puts components)
                (>>-Puts (put_array-Puts dht) (put_array-Puts sos))))))))

pub length-header_bytes :
    (width height : ℕ) (quant0 quant1 : List ℕ)
    → length (header_bytes width height quant0 quant1) ≡ 623
unfolding header_bytes
length-header_bytes width height quant0 quant1 = refl

take-suc-set :
    (xs : List ℕ) (i v : ℕ) → i < length xs → take (suc i) (set xs i v) ≡ take i xs ++ (v ∷ [])
take-suc-set [] i v h = elim h [ ]
take-suc-set (x ∷ xs) zero v h = refl
take-suc-set (x ∷ xs) (suc i) v h = ap (λ ys. x ∷ ys) (take-suc-set xs i v (omega arith))

drop_above-set : (xs : List ℕ) (i n v : ℕ) → i < n → drop n (set xs i v) ≡ drop n xs
drop_above-set [] i n v h = refl
drop_above-set (x ∷ xs) i zero v h = elim h [ ]
drop_above-set (x ∷ xs) zero (suc n) v h = refl
drop_above-set (x ∷ xs) (suc i) (suc n) v h = drop_above-set xs i n v (omega arith)

take-append_drop : (n : ℕ) (xs : List ℕ) → take n xs ++ drop n xs ≡ xs
take-append_drop zero xs = refl
take-append_drop (suc n) [] = refl
take-append_drop (suc n) (x ∷ xs) = ap (λ ys. x ∷ ys) (take-append_drop n xs)

-- Where the bytes fit the memory, they replace what was there and nothing else.
pub bytes-advance :
    (bs : List ℕ) (h : Header)
    → h.position + length bs ≤ length h.bytes
    → (advance h bs).bytes
      ≡ take h.position h.bytes ++ (map u8 bs ++ drop (h.position + length bs) h.bytes)
unfolding advance
bytes-advance [] h l =
    let e : h.position + 0 ≡ h.position = omega arith in
    rw e (sym (take-append_drop h.position h.bytes))
bytes-advance (b ∷ bs) h l =
    let p = h.position in
    let xs = h.bytes in
    let v = u8 b in
    let rest = map u8 bs in
    let one : p + 1 ≡ suc p = omega arith in
    let end : p + 1 + length bs ≡ p + suc (length bs) = omega arith in
    let ih = bytes-advance bs (store h b) (omega (arith, length-set xs p v)) in
    let taken : take (p + 1) (set xs p v) ≡ take p xs ++ (v ∷ []) =
      rw one (take-suc-set xs p v (omega arith)) in
    let dropped : drop (p + 1 + length bs) (set xs p v) ≡ drop (p + suc (length bs)) xs =
      rw end (drop_above-set xs p (p + suc (length bs)) v (omega arith)) in
    ih
    ∙ ap₂ (λ ys zs. ys ++ (rest ++ zs)) taken dropped
    ∙ append_assoc (take p xs) (v ∷ []) (rest ++ drop (p + suc (length bs)) xs)
