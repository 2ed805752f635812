-- ===== src/Jpeg/Stream.antt =====
-- An independent reading of a JPEG stream, by the marker syntax of ITU-T T.81: a start marker, then
-- segments of a marker, a 16-bit length and as many bytes, up to the start of the scan, and by the zigzag
-- order of its tables. Against it the header of cedrus-v4l2/cedrus_enc_jpeg.c is checked.
use h618_vpu_port.Base.{
  ℕ, zero, suc, ◌+◌, ◌-◌, ◌*◌, ◌/◌, ◌%◌, ◌≤◌, ◌<◌, ◌≡◌, refl, sym, ap, ap₂, ◌∙◌, List, [], ◌∷◌,
  ◌++◌, map, min, Option, none, some, ◌&&◌, ◌==◌, if◌then◌else◌, u8, length, take, drop,
  take-append_length, ◌^◌, set, get_or, All, arith,
}
use h618_vpu_port.Jpeg.Tables.{zigzag}
use h618_vpu_port.Jpeg.Header.Puts.{header_bytes, in_order}
use h618_vpu_port.Jpeg.Finish.{Coded, JpegBuffer, buffer_finish}
use h618_vpu_port.Jpeg.Finish.Layout.{stream, IsReady, buffer_finish_layout}

pub record Segment : Type 0 where
  pub marker : ℕ
  pub content : List ℕ

-- The segments up to SOS, and the entropy-coded data behind it. The fuel bounds their number.
pub segments : ℕ → List ℕ → Option (List Segment × List ℕ)
segments zero xs = none
segments (suc fuel) (ff ∷ marker ∷ hi ∷ lo ∷ xs) =
    let size = hi * 256 + lo - 2 in
    let content = take size xs in
    let scan = drop size xs in
    let seg : Segment = record { marker = marker; content = content } in
    let rest = segments fuel scan in
    if ff == 0xff && length content == size
    then (if marker == 0xda
        then some (seg ∷ [], scan)
        else elim rest [ none ↦ none | some (segs, scan') ↦ some (seg ∷ segs, scan') ])
    else none
segments (suc fuel) xs = none

pub record Picture : Type 0 where
  pub width : ℕ
  pub height : ℕ
  -- in natural order
  pub table0 : List ℕ
  pub table1 : List ℕ
  pub scan : List ℕ

-- A table in natural order, from its entries in zigzag order.
pub place : List ℕ → List ℕ → List ℕ → List ℕ
place [] zz t = t
place (z ∷ zs) [] t = t
place (z ∷ zs) (q ∷ qs) t = place zs qs (set t z q)

-- The zigzag order of ITU-T T.81, figure 5: the diagonals of the block in turn, an even one upwards and an odd
-- one downwards; an index is eight times the row and the column.
abbrev climb : (n row diagonal : ℕ) → List ℕ
climb zero row diagonal = []
climb (suc n) row diagonal = (row * 8 + (diagonal - row)) ∷ climb n (row - 1) diagonal

abbrev descend : (n row diagonal : ℕ) → List ℕ
descend zero row diagonal = []
descend (suc n) row diagonal = (row * 8 + (diagonal - row)) ∷ descend n (row + 1) diagonal

abbrev diagonals : (n diagonal : ℕ) → List ℕ
diagonals zero diagonal = []
diagonals (suc n) diagonal =
    let low = diagonal - 7 in
    let high = min diagonal 7 in
    (if diagonal % 2 == 0
      then climb (high + 1 - low) high diagonal
      else descend (high + 1 - low) low diagonal)
    ++ diagonals n (diagonal + 1)

abbrev pub scan_order : List ℕ
scan_order = diagonals 15 0

zeros : ℕ → List ℕ
zeros zero = []
zeros (suc n) = 0 ∷ zeros n

pub natural : List ℕ → List ℕ
natural zz = place scan_order zz (zeros 64)

pub read_frame : List ℕ → Picture → Option Picture
read_frame (precision ∷ hh ∷ hl ∷ wh ∷ wl ∷ xs) p =
    if precision == 8
    then some (record p { width = wh * 256 + wl; height = hh * 256 + hl })
    else none
read_frame xs p = none

pub read_table : List ℕ → Picture → Option Picture
read_table [] p = none
read_table (id ∷ zz) p =
    if length zz == 64
    then (if id == 0
        then some (record p { table0 = natural zz })
        else if id == 1
        then some (record p { table1 = natural zz })
        else none)
    else none

pub read_segment : Segment → Picture → Option Picture
read_segment s p =
    if s.marker == 0xc0
    then read_frame s.content p
    else if s.marker == 0xdb
    then read_table s.content p
    else some p

pub read_segments : List Segment → Picture → Option Picture
read_segments [] p = some p
read_segments (s ∷ ss) p = elim (read_segment s p) [ none ↦ none | some p' ↦ read_segments ss p' ]

pub decode : List ℕ → Option Picture
decode (ff ∷ soi ∷ xs) =
    if ff == 0xff && soi == 0xd8
    then elim (segments 16 xs) [
      | none ↦ none
      | some (segs, scan) ↦
          read_segments segs
            (record { width = 0; height = 0; table0 = []; table1 = []; scan = scan })
    ]
    else none
decode xs = none

-- The entries of a table that a byte each can hold.
abbrev pub IsTable : List ℕ → Type 0
IsTable q = (length q ≡ 64) × All (λ v. v ≤ 255) q

entries : ℕ → ℕ → List ℕ → List ℕ
entries zero i q = []
entries (suc n) i q = get_or q i 0 ∷ entries n (suc i) q

entries-suc : (n i x : ℕ) (xs : List ℕ) → entries n (suc i) (x ∷ xs) ≡ entries n i xs
unfolding entries
entries-suc zero i x xs = refl
entries-suc (suc n) i x xs = ap (λ ys. get_or xs i 0 ∷ ys) (entries-suc n (suc i) x xs)

map-u8-entries : (q : List ℕ) → All (λ v. v ≤ 255) q → map u8 (entries (length q) 0 q) ≡ q
unfolding entries
map-u8-entries [] h = refl
map-u8-entries (x ∷ xs) h =
    let e : u8 x ≡ x = omega arith in
    ap₂ ◌∷◌ e (ap (map u8) (entries-suc (length xs) 0 x xs) ∙ map-u8-entries xs h.1)

-- The order of the table in the header is undone by its reader: the zigzag visits each entry once.
natural-in_order : (q : List ℕ) → IsTable q → natural (map u8 (in_order q zigzag)) ≡ q
unfolding natural place zeros entries
natural-in_order q h =
    let e : natural (map u8 (in_order q zigzag)) ≡ map u8 (entries 64 0 q) = refl in
    e ∙ ap (λ n. map u8 (entries n 0 q)) (sym h.0) ∙ map-u8-entries q h.1

decode-stream_raw :
    (width height : ℕ) (q0 q1 scan : List ℕ)
    → decode (stream width height q0 q1 scan)
      ≡ some (record {
        width = u8 (width / 256) * 256 + u8 width;
        height = u8 (height / 256) * 256 + u8 height;
        table0 = natural (map u8 (in_order q0 zigzag));
        table1 = natural (map u8 (in_order q1 zigzag));
        scan = scan ++ (0xff ∷ 0xd9 ∷ []);
      })
unfolding decode segments read_segments read_segment read_frame read_table header_bytes
decode-stream_raw width height q0 q1 scan = refl

-- The stream that the encoder lays out decodes: a reader that knows only the marker syntax finds the
-- width and the height, if a u16 holds each, both quantisation tables in natural order, if they have
-- 64 entries of a byte each, and the scan up to and with the end marker.
pub decode-stream :
    (width height : ℕ) (q0 q1 scan : List ℕ)
    → width < 65536
    → height < 65536
    → IsTable q0
    → IsTable q1
    → decode (stream width height q0 q1 scan)
      ≡ some (record {
        width = width;
        height = height;
        table0 = q0;
        table1 = q1;
        scan = scan ++ (0xff ∷ 0xd9 ∷ []);
      })
decode-stream width height q0 q1 scan hw hh h0 h1 =
    let w : u8 (width / 256) * 256 + u8 width ≡ width = omega arith in
    let h : u8 (height / 256) * 256 + u8 height ≡ height = omega arith in
    decode-stream_raw width height q0 q1 scan ∙ (λ i. some (record {
      width = w i;
      height = h i;
      table0 = natural-in_order q0 h0 i;
      table1 = natural-in_order q1 h1 i;
      scan = scan ++ (0xff ∷ 0xd9 ∷ []);
    }))

take-length_append : (xs ys zs : List ℕ) (n : ℕ) → zs ≡ xs ++ ys → n ≡ length xs → take n zs ≡ xs
take-length_append xs ys zs n e l = rw (e, l) (take-append_length xs ys)

-- What user space takes decodes. Of a finished buffer whose plane has room for the header and the end
-- marker beside its scan, the bytes of the payload are a JPEG stream: a reader that knows only the
-- marker syntax finds the width and the height, if a u16 holds each, both quantisation tables in
-- natural order, if they have 64 entries of a byte each, and the scan with the end marker.
pub decode-buffer_finish :
    (width height : ℕ) (e : JpegBuffer) (b : Coded)
    → IsReady b e
    → b.payload + 625 ≤ length b.bytes
    → length b.bytes < 2 ^ 64
    → width < 65536
    → height < 65536
    → IsTable e.quant0
    → IsTable e.quant1
    → decode (take (buffer_finish width height b).payload (buffer_finish width height b).bytes)
      ≡ some (record {
        width = width;
        height = height;
        table0 = e.quant0;
        table1 = e.quant1;
        scan = take b.payload b.bytes ++ (0xff ∷ 0xd9 ∷ []);
      })
decode-buffer_finish width height e b r l s w h h0 h1 =
    let scan = take b.payload b.bytes in
    let t = buffer_finish_layout width height e b r l s in
    let k =
      take-length_append (stream width height e.quant0 e.quant1 scan)
        (drop (b.payload + 625) b.bytes) (buffer_finish width height b).bytes
        (buffer_finish width height b).payload t.exact t.payload_eq in
    ap decode k ∙ decode-stream width height e.quant0 e.quant1 scan w h h0 h1
