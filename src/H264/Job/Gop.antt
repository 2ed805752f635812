-- ===== src/H264/Job/Gop.antt =====
-- The groups of pictures: which jobs are IDR pictures, and the numbers of the pictures in between.
use h618_vpu_port.Base.{
  ℕ, zero, suc, ◌+◌, ◌*◌, ◌%◌, ◌^◌, ◌≤◌, ◌<◌, ◌≡◌, ◌⊎◌, refl, sym, ap, ◌∙◌, true, false, Bool-cases,
  inl, inr, if◌then◌else◌, ◌==◌, ==→≡, u32, u32_mod, arith,
}
use native.Mathlib.Nat.{mod-lt, zero-mod, one-le-pow, mod_self, mod-eq_of_lt, suc-mod}
use h618_vpu_port.H264.Enums.{FrameType, frame_idr, frame_p, is_idr, is_intra}
use h618_vpu_port.H264.Job.{
  Context, State, Job, setup, gop_frame_type, job_frame_type, next_gop_index, job_qp, start_picture,
  job_prepare,
}

-- The numbers fit the fields of the slice header.
abbrev pub IsNumbered : Context → State → Type 0
IsNumbered c s =
    (s.frame_num < 2 ^ c.log2_max_frame_num)
    × (s.pic_order_cnt_lsb < 2 ^ c.log2_max_pic_order_cnt_lsb)

-- The quantiser of every frame type is between the bounds, where the bounds do not cross.
pub job_qp_bounds :
    (c : Context) (t : FrameType)
    → c.qp_min ≤ c.qp_max
    → (c.qp_min ≤ job_qp c t) × (job_qp c t ≤ c.qp_max)
unfolding job_qp
job_qp_bounds c t h = elim (Bool-cases (is_intra t)) [
  | inl e ↦ rw e (ground arith)
  | inr e ↦ rw e (ground arith)
]

-- x jobs in a row.
pub jobs : ℕ → Context × State × Job → Context × State × Job
jobs zero x = x
jobs (suc n) x = job_prepare (jobs n x)

-- The place of the next job in its group of pictures.
next_place : (n g : ℕ) → 1 ≤ g → (suc n % g ≡ 0) ⊎ (suc n % g ≡ suc (n % g))
next_place n g h =
    let l : n % g < g = mod-lt n (omega arith) in
    let e = suc-mod n g in
    elim (Bool-cases (suc (n % g) == g)) [
      | inl q ↦
          let p : suc (n % g) ≡ g = ==→≡ (suc (n % g)) g q in
          inl (e ∙ (ap (λ x. x % g) p ∙ mod_self g))
      | inr q ↦ let p : suc (n % g) < g = ground arith in inr (e ∙ mod-eq_of_lt p)
    ]

-- The settings of a closed group of g pictures, with the number lengths of `setup`.
abbrev Repeats : ℕ → Context → Type 0
Repeats g c =
    (c.gop_closure ≡ true)
    × (c.force_key_frame ≡ false)
    × (c.gop_size ≡ g)
    × (c.log2_max_frame_num ≡ 8)
    × (c.log2_max_pic_order_cnt_lsb ≡ 8)

-- The state before the job at `place`: an IDR picture starts the counts again.
abbrev IsAt : ℕ → State → Type 0
IsAt place s =
    (s.gop_index ≡ place)
    × ((place ≡ 0) ⊎ (s.frame_num ≡ place % 256) × (s.pic_order_cnt_lsb ≡ 2 * place % 256))

-- The picture at `place`.
abbrev pub IsPicture : ℕ → Job → Type 0
IsPicture place job =
    (job.frame_type ≡ (if place == 0 then frame_idr else frame_p))
    × (job.frame_num ≡ place % 256)
    × (job.pic_order_cnt_lsb ≡ 2 * place % 256)

gop_step :
    (n g : ℕ) (c : Context) (s : State) (job : Job)
    → 1 ≤ g
    → g < u32_mod
    → Repeats g c
    → IsAt (n % g) s
    → Repeats g (job_prepare (c, s, job)).0
      × IsAt (suc n % g) (job_prepare (c, s, job)).1
      × IsPicture (n % g) (job_prepare (c, s, job)).2
unfolding job_prepare job_frame_type gop_frame_type next_gop_index start_picture is_idr
gop_step n g c s job a b (h0, h1, h2, h3, h4) (i, f) =
    let l : n % g < g = mod-lt n (omega arith) in
    let w : u32 (n % g + 1) ≡ suc (n % g) = omega arith in
    let e : suc (n % g) % g ≡ suc n % g = sym (suc-mod n g) in
    let k = next_place n g a in
    elim (Bool-cases (n % g == 0)) [
      | inl q ↦
          let z : n % g ≡ 0 = ==→≡ (n % g) 0 q in
          rw (h0, h1, h2, h3, h4, i, w, e, q)
            (
              (refl, refl, refl, refl, refl),
              (refl, elim k [ inl y ↦ inl y | inr y ↦ inr (omega arith, omega arith) ]),
              (refl, omega arith, omega arith),
            )
      | inr q ↦
          let nz : 1 ≤ n % g = ground arith in
          rw (h0, h1, h2, h3, h4, i, w, e, q)
            (
              (refl, refl, refl, refl, refl),
              (
                refl,
                elim k [
                  | inl y ↦ inl y
                  | inr y ↦ elim f [
                    | inl y' ↦ absurd (omega arith)
                    | inr y' ↦ inr (omega arith, omega arith)
                  ]
                ],
              ),
              (
                refl,
                elim f [ inl y' ↦ absurd (omega arith) | inr y' ↦ y'.0 ],
                elim f [ inl y' ↦ absurd (omega arith) | inr y' ↦ y'.1 ],
              ),
            )
    ]

gop_jobs :
    (n g : ℕ) (x : Context × State × Job)
    → 1 ≤ g
    → g < u32_mod
    → Repeats g x.0
    → IsAt (0 % g) x.1
    → Repeats g (jobs n x).0 × IsAt (n % g) (jobs n x).1
unfolding jobs
gop_jobs zero g x a b h i = (h, i)
gop_jobs (suc n) g x a b h i =
    let r = gop_jobs n g x a b h i in
    let y = jobs n x in let t = gop_step n g y.0 y.1 y.2 a b r.0 r.1 in (t.0, t.1)

-- When streaming has started with closed groups of `gop_size` pictures and no key frame is asked for,
-- the n-th job is an IDR picture exactly where `gop_size` divides n, and a P picture elsewhere, and the
-- numbers of a picture are its place in its group, and twice that, in their 8 bits.
pub closed_gop :
    (width height : ℕ) (c : Context) (s : State) (job : Job) (n : ℕ)
    → c.gop_closure ≡ true
    → c.force_key_frame ≡ false
    → 1 ≤ c.gop_size
    → c.gop_size < u32_mod
    → IsPicture
        (n % c.gop_size)
        (jobs (suc n) ((setup width height c s).0, (setup width height c s).1, job)).2
unfolding setup jobs
closed_gop width height c s job n h0 h1 a b =
    let x : Context × State × Job = ((setup width height c s).0, (setup width height c s).1, job) in
    let z = zero-mod c.gop_size in
    let r = gop_jobs n c.gop_size x a b (h0, h1, refl, refl, refl) (sym z, inl z) in
    let y = jobs n x in (gop_step n c.gop_size y.0 y.1 y.2 a b r.0 r.1).2

-- The numbers that a job gets, and those that are left for the next, fit the fields of the slice header.
pub job_prepare-IsNumbered :
    (c : Context) (s : State) (job : Job)
    → IsNumbered c s
    → IsNumbered c (job_prepare (c, s, job)).1
      × ((job_prepare (c, s, job)).2.frame_num < 2 ^ c.log2_max_frame_num)
      × ((job_prepare (c, s, job)).2.pic_order_cnt_lsb < 2 ^ c.log2_max_pic_order_cnt_lsb)
unfolding job_prepare start_picture
job_prepare-IsNumbered c s job h =
    let a = one-le-pow c.log2_max_frame_num 2 (omega arith) in
    let b = one-le-pow c.log2_max_pic_order_cnt_lsb 2 (omega arith) in
    let t = job_frame_type c s in
    elim (Bool-cases (is_idr t)) [
      | inl e ↦ rw e ((mod-lt 1 (omega arith), mod-lt 2 (omega arith)), omega arith, omega arith)
      | inr e ↦ rw e (
        (
          mod-lt (u32 (s.frame_num + 1)) (omega arith),
          mod-lt (u32 (s.pic_order_cnt_lsb + 2)) (omega arith),
        ),
        h.0,
        h.1,
      )
    ]
