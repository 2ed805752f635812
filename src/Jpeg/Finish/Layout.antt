-- ===== src/Jpeg/Finish/Layout.antt =====
-- The stream that cedrus_enc_jpeg_buffer_finish leaves in the plane.
use h618_vpu_port.Base.{
  ℕ, zero, suc, ◌+◌, ◌^◌, ◌≤◌, ◌<◌, ◌≡◌, refl, sym, ap, ◌∙◌, List, [], ◌∷◌, ◌++◌, map, append_assoc,
  true, false, ltb, some, ok, u8, set, take, drop, length, length-append, length-take, length-drop,
  length-map, take-append_length, drop-append_length, arith,
}
use h618_vpu_port.Jpeg.Header.{Header, put_header}
use h618_vpu_port.Jpeg.Header.Puts.{
  advance, header_bytes, put_header-Puts, length-header_bytes, bytes-advance, position-advance,
}
use h618_vpu_port.Jpeg.Finish.{
  Coded, JpegBuffer, header_size, room, memmove, finish_markers, finish_stream, buffer_finish,
}

drop-append : (n : ℕ) (xs ys : List ℕ) → length xs ≡ n → drop n (xs ++ ys) ≡ ys
drop-append n xs ys e = rw (← e) (drop-append_length xs ys)

take-append : (n : ℕ) (xs ys : List ℕ) → length xs ≡ n → take n (xs ++ ys) ≡ xs
take-append n xs ys e = rw (← e) (take-append_length xs ys)

set-append : (xs ys : List ℕ) (y v : ℕ) → set (xs ++ (y ∷ ys)) (length xs) v ≡ xs ++ (v ∷ ys)
set-append [] ys y v = refl
set-append (x ∷ xs) ys y v = ap (λ zs. x ∷ zs) (set-append xs ys y v)

-- Both bytes of the end marker, stored after `xs`.
set-append_two :
    (n : ℕ) (xs ys : List ℕ) (v w : ℕ)
    → length xs ≡ n
    → 2 ≤ length ys
    → set (set (xs ++ ys) n v) (n + 1) w ≡ xs ++ (v ∷ w ∷ drop 2 ys)
set-append_two n xs [] v w e h = absurd (omega arith)
set-append_two n xs (y ∷ []) v w e h = absurd (omega arith)
set-append_two n xs (y ∷ z ∷ ys) v w e h =
    let one = rw e at (set-append xs (z ∷ ys) y v) in
    let l : length (xs ++ (v ∷ [])) ≡ n + 1 = omega (arith, length-append xs (v ∷ [])) in
    let two = rw l at (set-append (xs ++ (v ∷ [])) ys z w) in
    rw (one, ← append_assoc xs (v ∷ []) (z ∷ ys), two, append_assoc xs (v ∷ []) (w ∷ ys))

length-memmove :
    (xs : List ℕ) (n : ℕ) → n + 625 ≤ length xs → length (memmove 623 0 n xs) ≡ length xs
length-memmove xs n l = omega (
  arith,
  length-append (take 623 xs) (take n xs ++ drop (623 + n) xs),
  length-append (take n xs) (drop (623 + n) xs),
  length-take 623 xs,
  length-take n xs,
  length-drop (623 + n) xs,
)

module _ (width height : ℕ) (quant0 quant1 : List ℕ) where
  abbrev head : List ℕ
  head = map u8 (header_bytes width height quant0 quant1)

  length-head : length head ≡ 623
  length-head =
      length-map u8 (header_bytes width height quant0 quant1)
      ∙ length-header_bytes width height quant0 quant1

  -- The whole stream for the entropy-coded bytes `scan`.
  abbrev pub stream : List ℕ → List ℕ
  stream scan = head ++ (scan ++ (0xff ∷ 0xd9 ∷ []))

  put_header-memmove :
      (xs : List ℕ) (n : ℕ)
      → n + 625 ≤ length xs
      → (h : Header) × (put_header width height quant0 quant1
            (record { bytes = memmove 623 0 n xs; size = 623; position = 0 })
          ≡ (ok, h))
        × (h.position ≡ 623)
        × (h.bytes ≡ (head ++ take n xs) ++ drop (623 + n) xs)
  put_header-memmove xs n l =
      let h : Header = record { bytes = memmove 623 0 n xs; size = 623; position = 0 } in
      let hb = header_bytes width height quant0 quant1 in
      let lh = length-header_bytes width height quant0 quant1 in
      let p = put_header-Puts width height quant0 quant1 in
      let t : length (take 623 xs) ≡ 623 = omega (arith, length-take 623 xs) in
      let d : drop 623 h.bytes ≡ take n xs ++ drop (623 + n) xs =
        drop-append 623 (take 623 xs) (take n xs ++ drop (623 + n) xs) t in
      let lm = length-memmove xs n l in
      let z : 0 + length hb ≡ 623 = omega arith in
      let b : (advance h hb).bytes ≡ head ++ drop 623 h.bytes =
        rw z at (bytes-advance hb h (omega arith)) in
      (
        advance h hb,
        p.fits h (omega arith),
        omega (arith, position-advance h hb),
        b ∙ rw d (sym (append_assoc head (take n xs) (drop (623 + n) xs))),
      )

regroup : (a s m d : List ℕ) → (a ++ s) ++ (m ++ d) ≡ (a ++ (s ++ m)) ++ d
regroup a s m d = simp append_assoc

drop-nil : (m : ℕ) → drop {A = ℕ} m [] ≡ []
drop-nil zero = refl
drop-nil (suc m) = refl

drop-drop : (n m : ℕ) (xs : List ℕ) → drop m (drop n xs) ≡ drop (n + m) xs
drop-drop zero m xs = let e : 0 + m ≡ m = omega arith in rw e
drop-drop (suc n) m [] = let e : suc n + m ≡ suc (n + m) = omega arith in rw e (drop-nil m)
drop-drop (suc n) m (x ∷ xs) =
    let e : suc n + m ≡ suc (n + m) = omega arith in rw e (drop-drop n m xs)

-- A buffer that is ready for its header.
pub record IsReady (b : Coded) (e : JpegBuffer) : Type 0 where
  pub has_engine : b.engine_buffer ≡ some e
  pub own_header : e.header_size ≡ header_size
  pub is_done : b.done ≡ true
  pub no_error : b.flag_error ≡ false
  pub is_mapped : b.mapped ≡ true

finish_markers-ok :
    (h : Header) (b : Coded)
    → h.position ≡ 623
    → finish_markers (ok, h) 623 b ≡ record b {
      bytes = set (set h.bytes (b.payload + 623) 0xff) (b.payload + 623 + 1) 0xd9;
      payload = b.payload + 623 + 2;
    }
unfolding finish_markers
finish_markers-ok h b e = ground arith

finish_stream-room :
    (width height : ℕ) (e : JpegBuffer) (b : Coded)
    → b.mapped ≡ true
    → e.header_size ≡ 623
    → b.payload + 625 ≤ length b.bytes
    → length b.bytes < 2 ^ 64
    → finish_stream width height e b
      ≡ finish_markers
          (put_header width height e.quant0 e.quant1
            (record { bytes = memmove 623 0 b.payload b.bytes; size = 623; position = 0 }))
          623
          b
unfolding finish_stream
finish_stream-room width height e b m eh l s =
    let t : ltb (room (length b.bytes) 623) b.payload ≡ false = ground arith in simp (m, eh, t)

buffer_finish-ready :
    (width height : ℕ) (e : JpegBuffer) (b : Coded)
    → IsReady b e
    → buffer_finish width height b ≡ finish_stream width height e b
unfolding buffer_finish
buffer_finish-ready width height e b r = ground arith

-- The stream in the plane: its bytes, its payload, and the memory behind it.
pub record HasStream (b : Coded) (content rest : List ℕ) : Type 0 where
  pub exact : b.bytes ≡ content ++ rest
  pub payload_eq : b.payload ≡ length content
  pub valid : b.flag_error ≡ false

-- A finished buffer whose plane has room for 625 more bytes than its scan, and whose size an unsigned
-- long holds, ends as header, scan and end marker; the payload is the length of exactly that, no byte
-- of the memory behind it changes, and the buffer is not marked as faulty.
pub buffer_finish_layout :
    (width height : ℕ) (e : JpegBuffer) (b : Coded)
    → IsReady b e
    → b.payload + 625 ≤ length b.bytes
    → length b.bytes < 2 ^ 64
    → HasStream
        (buffer_finish width height b)
        (stream width height e.quant0 e.quant1 (take b.payload b.bytes))
        (drop (b.payload + 625) b.bytes)
buffer_finish_layout width height e b r l s =
    let n = b.payload in
    let xs = b.bytes in
    let (h, put, pos, mem) = put_header-memmove width height e.quant0 e.quant1 xs n l in
    let hd = length-head width height e.quant0 e.quant1 in
    let front : List ℕ = head width height e.quant0 e.quant1 ++ take n xs in
    let tail : List ℕ = drop (623 + n) xs in
    let lf : length front ≡ n + 623 =
      omega (
        arith,
        length-append (head width height e.quant0 e.quant1) (take n xs),
        length-take n xs,
      ) in
    let lt : 2 ≤ length tail = omega (arith, length-drop (623 + n) xs) in
    let marked = set-append_two (n + 623) front tail 0xff 0xd9 lf lt in
    let behind : drop 2 tail ≡ drop (n + 625) xs =
      let a : 623 + n + 2 ≡ n + 625 = omega arith in drop-drop (623 + n) 2 xs ∙ rw a in
    let done =
      buffer_finish-ready width height e b r
      ∙ finish_stream-room width height e b r.is_mapped r.own_header l s
      ∙ ap (λ k. finish_markers k 623 b) put
      ∙ finish_markers-ok h b pos in
    rw done (record {
      exact =
          ap (λ ys. set (set ys (n + 623) 0xff) (n + 623 + 1) 0xd9) mem
          ∙ marked
          ∙ regroup (head width height e.quant0 e.quant1) (take n xs) (0xff ∷ 0xd9 ∷ [])
              (drop 2 tail)
          ∙ ap (λ ys. stream width height e.quant0 e.quant1 (take n xs) ++ ys) behind;
      payload_eq = omega (
        arith,
        length-append (head width height e.quant0 e.quant1) (take n xs ++ (0xff ∷ 0xd9 ∷ [])),
        length-append (take n xs) (0xff ∷ 0xd9 ∷ []),
        length-take n xs,
      );
      valid = r.no_error;
    })
