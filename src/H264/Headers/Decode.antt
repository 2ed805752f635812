-- ===== src/H264/Headers/Decode.antt =====
-- A NAL unit of the encoder, read by the syntax of ITU-T H.264: its framing, its alignment and the
-- picture parameter set.
use h618_vpu_port.Base.{
  ℕ, zero, suc, ◌+◌, ◌-◌, ◌/◌, ◌%◌, ◌^◌, ◌≤◌, ◌<◌, ◌≡◌, refl, ap, ◌∙◌, List, [], ◌∷◌, ◌++◌,
  append-nil, Bool, true, false, Bool-cases, inl, inr, some, if◌then◌else◌, ◌==◌, ==→≡, leb, u32,
  u32_mod, ℤ, pos, diff, length, length-append, arith,
}
use h618_vpu_port.H264.Bits.{Put, Coded, signed_ue, coded_align, coded_nalu_start, coded_eptb}
use h618_vpu_port.H264.Bits.Golomb.{to_bits, IsSigned}
use h618_vpu_port.H264.Bits.Puts.{stream_bits, append-bits}
use h618_vpu_port.H264.Job.{State, Job}
use h618_vpu_port.H264.Headers.{
  Call, put_u8, put_u32, call, calls, flag, pps_calls, job_configure_pps,
}
use h618_vpu_port.H264.Headers.Syntax.{
  Descriptor, u, ue_v, se_v, read_all, read_all-calls, calls_bits, calls-bits, descriptor, value_of,
}

-- The framing of a NAL unit is the start code and the header.
pub nalu_start-bits :
    (header : ℕ) (s : Coded) (r : List Bool)
    → stream_bits (coded_nalu_start header s).puts r
      ≡ stream_bits s.puts (calls_bits (put_u32 1 ∷ put_u8 header ∷ []) r)
unfolding coded_nalu_start coded_eptb call calls
nalu_start-bits header s r = calls-bits (put_u32 1 ∷ put_u8 header ∷ []) (coded_eptb false s) r

pub padding : (List Put → ℕ) → Coded → List Bool
padding len s = let b = u32 (len s.puts) % 8 in if b == 0 then [] else to_bits (8 - b) 0

pub align-bits :
    (len : List Put → ℕ) (s : Coded)
    → stream_bits (coded_align len s).puts [] ≡ stream_bits s.puts (padding len s)
unfolding coded_align padding
align-bits len s = elim (Bool-cases (u32 (len s.puts) % 8 == 0)) [
  | inl e ↦ rw e
  | inr e ↦
      let b = u32 (len s.puts) % 8 in
      let m : (8 - b) % 64 ≡ 8 - b = omega arith in
      rw e (
        append-bits 0 (8 - b) s []
        ∙ (ap (λ k. stream_bits s.puts (to_bits k 0 ++ [])) m
            ∙ ap (λ t. stream_bits s.puts t) (append-nil (to_bits (8 - b) 0))))
]

length-to_bits : (n v : ℕ) → length (to_bits n v) ≡ n
unfolding to_bits
length-to_bits zero v = refl
length-to_bits (suc n) v =
    length-append (to_bits n (v / 2)) _ ∙ omega (arith, length-to_bits n (v / 2))

length-stream_bits :
    (ps : List Put) (r : List Bool)
    → length (stream_bits ps r) ≡ length (stream_bits ps []) + length r
unfolding stream_bits
length-stream_bits [] r = omega arith
length-stream_bits (p ∷ ps) r =
    let a = length-append (to_bits p.count p.value) (stream_bits ps r) in
    let b = length-append (to_bits p.count p.value) (stream_bits ps []) in
    omega (arith, a, b, length-stream_bits ps r)

-- What the length register is relied on for: modulo a byte it counts the bits that were put. Bytes
-- that the escaping adds do not change that.
abbrev pub IsBitLen : (List Put → ℕ) → Type 0
IsBitLen len = (ps : List Put) → u32 (len ps) % 8 ≡ length (stream_bits ps []) % 8

-- After an alignment the stream is a whole number of bytes, and it is the stream before with at most
-- seven zero bits behind it.
pub coded_align-IsAligned :
    (len : List Put → ℕ) (s : Coded)
    → IsBitLen len
    → (length (stream_bits (coded_align len s).puts []) % 8 ≡ 0)
      × ((k : ℕ) × (k < 8)
          × (stream_bits (coded_align len s).puts [] ≡ stream_bits s.puts (to_bits k 0)))
unfolding padding to_bits
coded_align-IsAligned len s h =
    let b = u32 (len s.puts) % 8 in
    let q : b ≡ length (stream_bits s.puts []) % 8 = h s.puts in
    elim (Bool-cases (b == 0)) [
      | inl e ↦
          let z : b ≡ 0 = ==→≡ b 0 e in
          let a : stream_bits (coded_align len s).puts [] ≡ stream_bits s.puts [] =
            rw e at (align-bits len s) in
          (rw a (omega arith), (0, omega arith, a))
      | inr e ↦
          let nz : 1 ≤ b = ground arith in
          let a : stream_bits (coded_align len s).puts [] ≡ stream_bits s.puts (to_bits (8 - b) 0) =
            rw e at (align-bits len s) in
          let l = length-stream_bits s.puts (to_bits (8 - b) 0) in
          let m = length-to_bits (8 - b) 0 in
          (rw a (omega (arith, l, m, q, nz)), (8 - b, omega arith, a))
    ]

-- A NAL unit reads as the start code, its header and its elements, up to the padding.
pub nal-bits :
    (len : List Put → ℕ) (header : ℕ) (cs : List Call) (s : Coded)
    → stream_bits (coded_align len (calls cs (coded_nalu_start header s))).puts []
      ≡ stream_bits s.puts (
          calls_bits
            (put_u32 1 ∷ put_u8 header ∷ cs)
            (padding len (calls cs (coded_nalu_start header s))))
unfolding calls_bits
nal-bits len header cs s =
    let t = calls cs (coded_nalu_start header s) in
    align-bits len t
    ∙ (calls-bits cs (coded_nalu_start header s) (padding len t)
        ∙ nalu_start-bits header s (calls_bits cs (padding len t)))

-- 7.3.2.2, with one slice group and without an extension, and the stop bit of 7.3.2.11.
pub pps_syntax : List Descriptor
pps_syntax =
    ue_v
    ∷ ue_v
    ∷ u 1
    ∷ u 1
    ∷ ue_v
    ∷ ue_v
    ∷ ue_v
    ∷ u 1
    ∷ u 2
    ∷ se_v
    ∷ se_v
    ∷ se_v
    ∷ u 1
    ∷ u 1
    ∷ u 1
    ∷ u 1
    ∷ []

-- The elements of the picture parameter set of a job.
abbrev pub pps_elements : State → Job → List ℤ
pps_elements st job =
    pos job.pic_parameter_set_id
    ∷ pos job.seq_parameter_set_id
    ∷ pos (if job.entropy_coding_mode_flag then 1 else 0)
    ∷ pos 0
    ∷ pos 0
    ∷ pos 0
    ∷ pos 0
    ∷ pos 0
    ∷ pos 0
    ∷ diff st.qp_init 26
    ∷ diff st.qp_init 26
    ∷ job.chroma_qp_index_offset
    ∷ pos 1
    ∷ pos 0
    ∷ pos 0
    ∷ pos 1
    ∷ []

pos-IsSigned : (n : ℕ) → n < 2 ^ 16 → IsSigned (pos n)
unfolding signed_ue
pos-IsSigned zero h = omega arith
pos-IsSigned (suc n) h = omega arith

pub diff-IsSigned : (a b : ℕ) → a < 2 ^ 16 → b < 2 ^ 16 → IsSigned (diff a b)
unfolding signed_ue
diff-IsSigned a b h k = elim (Bool-cases (leb b a)) [
  | inl e ↦ rw e (pos-IsSigned (a - b) (omega arith))
  | inr e ↦ rw e (omega arith)
]

flag-u32 : (b : Bool) → (u32 (flag b) ≡ (if b then 1 else 0)) × (u32 (flag b) < 2)
unfolding flag
flag-u32 true = (refl, omega arith)
flag-u32 false = (refl, omega arith)

pps-read :
    (st : State) (job : Job) (pad : List Bool)
    → job.pic_parameter_set_id < 256
    → job.seq_parameter_set_id < 32
    → st.qp_init ≤ 51
    → IsSigned job.chroma_qp_index_offset
    → read_all
        (u 32 ∷ u 8 ∷ pps_syntax)
        (calls_bits (put_u32 1 ∷ put_u8 0x68 ∷ pps_calls st job) pad)
      ≡ some (pos 1 ∷ pos 0x68 ∷ pps_elements st job, pad)
unfolding pps_syntax pps_calls descriptor value_of
pps-read st job pad a b c d =
    let q = diff-IsSigned st.qp_init 26 (omega arith) (omega arith) in
    let f = flag-u32 job.entropy_coding_mode_flag in
    let z : 0 < u32_mod - 1 = omega arith in
    let bit : u32 0 < 2 = omega arith in
    let one : u32 1 < 2 = omega arith in
    let two : u32 0 < 2 ^ (2 % 64) = omega arith in
    read_all-calls (put_u32 1 ∷ put_u8 0x68 ∷ pps_calls st job) pad (
      tt,
      (
        tt,
        (
          omega arith,
          (
            omega arith,
            (
              f.1,
              (bit, (z, (z, (z, (bit, (two, (q, (q, (d, (one, (bit, (bit, (one, tt))))))))))))),
            ),
          ),
        ),
      ),
    )
    ∙ rw f.0 refl

-- The picture parameter set of a job, appended to any stream, reads back by the syntax of the standard:
-- the start code, the NAL header of a parameter set, and the job's elements with the quantiser and the
-- entropy mode, whatever is behind them.
pub job_configure_pps_reads :
    (len : List Put → ℕ) (st : State) (job : Job) (s : Coded)
    → job.pic_parameter_set_id < 256
    → job.seq_parameter_set_id < 32
    → st.qp_init ≤ 51
    → IsSigned job.chroma_qp_index_offset
    → (t : List Bool) × (pad : List Bool) × (stream_bits (job_configure_pps len st job s).puts []
        ≡ stream_bits s.puts t)
      × (read_all (u 32 ∷ u 8 ∷ pps_syntax) t ≡ some (pos 1 ∷ pos 0x68 ∷ pps_elements st job, pad))
unfolding job_configure_pps
job_configure_pps_reads len st job s a b c d =
    let cs = pps_calls st job in
    let pad = padding len (calls cs (coded_nalu_start 0x68 s)) in
    (
      calls_bits (put_u32 1 ∷ put_u8 0x68 ∷ cs) pad,
      pad,
      nal-bits len 0x68 cs s,
      pps-read st job pad a b c d,
    )
