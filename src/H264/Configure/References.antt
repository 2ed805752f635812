-- ===== src/H264/Configure/References.antt =====
-- The reference picture of a job, over two jobs in a row.
use h618_vpu_port.Base.{
  ℕ, suc, ◌+◌, ◌≡◌, ◌≢◌, ◌⊎◌, inl, inr, refl, ap₂, ◌∙◌, Bool, true, false, not, List, [], ◌++◌, ap,
  Option, some, ◌==◌, arith,
}
use h618_vpu_port.Device.Dma.{Device, enc_dma_addr}
use h618_vpu_port.Device.Regs.{
  Write, rec_addr_y_reg, rec_addr_c_reg, ref0_addr_y_reg, ref0_addr_c_reg, subpix_addr_new_reg,
  subpix_addr_last_reg,
}
use h618_vpu_port.H264.Enums.{FrameType, frame_idr, frame_i, frame_p, frame_b, step_slice, is_p}
use h618_vpu_port.H264.Bits.{Put}
use h618_vpu_port.H264.Job.{Context, State, Job}
use h618_vpu_port.H264.Headers.{Format}
use h618_vpu_port.H264.Headers.Steps.{headers, job_configure_headers-eq-headers}
use h618_vpu_port.H264.Buffers.{Buffer}
use h618_vpu_port.H264.Configure.{
  JobInput, Last, Configured, stream_writes, ref_addr, ref_luma_size, subpix_last, picture_writes,
  parameter_writes, configure_with, job_configure,
}
use h618_vpu_port.H264.Configure.Values.{last_value, ref_values, own_values}

-- The result of a job, whatever the step of the headers.
configured :
    Bool
    → (List Put → ℕ)
    → Device
    → JobInput
    → Context
    → Job
    → Format
    → Buffer
    → ℕ
    → State × Last
    → Configured
configured h618 len dev i c job f b para0_value (st, last) = record {
  before = stream_writes dev h618 i;
  headers = headers st.step len c st job f (record { puts = []; para0 = para0_value });
  after = picture_writes dev i job.frame_type b last ++ parameter_writes h618 i job;
  state = record st { step = step_slice };
  last = record {
    rec_last_dma = b.rec_dma;
    rec_last_luma_size = b.rec_luma_size;
    subpix_last_dma = b.subpix_dma;
  };
}

job_configure-eq-configured :
    (fuel : ℕ) (len : List Put → ℕ) (dev : Device) (i : JobInput) (c : Context) (job : Job)
    (f : Format) (b : Buffer) (v : ℕ) (st : State) (last : Last)
    → job_configure (suc (suc (suc (suc fuel)))) len dev i c job f b v (st, last)
      ≡ some (configured (not (dev.enc_addr_shift == 0)) len dev i c job f b v (st, last))
unfolding job_configure configure_with configured
job_configure-eq-configured fuel len dev i c job f b v st last =
    ap (configure_with (not (dev.enc_addr_shift == 0)) dev i job b last)
      (job_configure_headers-eq-headers fuel len c st job f (record { puts = []; para0 = v }))

-- Two register lists agree on what the reference registers of the second and the picture registers of
-- `own` hold: that a picture refers to the reconstruction of `own`.
abbrev pub RefersTo : List Write → List Write → Type 0
RefersTo ws own =
    ((a : ℕ) × (last_value ref0_addr_y_reg ws ≡ some a) × (last_value rec_addr_y_reg own ≡ some a))
    × ((a : ℕ) × (last_value ref0_addr_c_reg ws ≡ some a)
        × (last_value rec_addr_c_reg own ≡ some a))

-- The same for the sub-pixel samples of the picture before.
abbrev pub FollowsOn : List Write → List Write → Type 0
FollowsOn ws own =
    (a : ℕ) × (last_value subpix_addr_last_reg ws ≡ some a)
    × (last_value subpix_addr_new_reg own ≡ some a)

-- The reference of a picture is the buffer `x`, and `own` reconstructs into `x`.
refers_by :
    (h618 : Bool) (dev : Device) (i : JobInput) (job : Job) (t : FrameType) (b : Buffer) (l : Last)
    (own : List Write) (x : Buffer)
    → ref_addr t b l ≡ x.rec_dma
    → ref_luma_size t b l ≡ x.rec_luma_size
    → last_value rec_addr_y_reg own ≡ some (enc_dma_addr dev x.rec_dma)
    → last_value rec_addr_c_reg own ≡ some (enc_dma_addr dev (x.rec_dma + x.rec_luma_size))
    → RefersTo (picture_writes dev i t b l ++ parameter_writes h618 i job) own
refers_by h618 dev i job t b l own x ey ec oy oc =
    let ref = ref_values h618 dev i job t b l in
    let addr : ℕ → Option ℕ = λ a. some (enc_dma_addr dev a) in
    ((_, ref.0 ∙ ap addr ey, oy), (_, ref.1 ∙ ap addr (ap₂ (λ a n. a + n) ey ec), oc))

-- A P picture goes back to the buffer of the job before, any other to its own.
refers :
    (h618 : Bool) (dev : Device) (i₁ i₂ : JobInput) (job₁ job₂ : Job) (t₁ t₂ : FrameType)
    (b₁ b₂ : Buffer) (last : Last) (sub : ℕ)
    → let l : Last = record {
      rec_last_dma = b₁.rec_dma;
      rec_last_luma_size = b₁.rec_luma_size;
      subpix_last_dma = sub;
    } in
      let ws₁ = picture_writes dev i₁ t₁ b₁ last ++ parameter_writes h618 i₁ job₁ in
      let ws₂ = picture_writes dev i₂ t₂ b₂ l ++ parameter_writes h618 i₂ job₂ in
      ((is_p t₂ ≡ true) × RefersTo ws₂ ws₁) ⊎ ((is_p t₂ ≡ false) × RefersTo ws₂ ws₂)
unfolding ref_addr ref_luma_size is_p
refers h618 dev i₁ i₂ job₁ job₂ t₁ frame_p b₁ b₂ last sub =
    let own = own_values h618 dev i₁ job₁ t₁ b₁ last in
    inl (refl, refers_by h618 dev i₂ job₂ frame_p b₂ _ _ b₁ refl refl own.0 own.1)
refers h618 dev i₁ i₂ job₁ job₂ t₁ frame_idr b₁ b₂ last sub =
    let own = own_values h618 dev i₂ job₂ frame_idr b₂ _ in
    inr (refl, refers_by h618 dev i₂ job₂ frame_idr b₂ _ _ b₂ refl refl own.0 own.1)
refers h618 dev i₁ i₂ job₁ job₂ t₁ frame_i b₁ b₂ last sub =
    let own = own_values h618 dev i₂ job₂ frame_i b₂ _ in
    inr (refl, refers_by h618 dev i₂ job₂ frame_i b₂ _ _ b₂ refl refl own.0 own.1)
refers h618 dev i₁ i₂ job₁ job₂ t₁ frame_b b₁ b₂ last sub =
    let own = own_values h618 dev i₂ job₂ frame_b b₂ _ in
    inr (refl, refers_by h618 dev i₂ job₂ frame_b b₂ _ _ b₂ refl refl own.0 own.1)

-- The samples of the picture before are taken from it, unless it had none.
subpix_last_of :
    (b : Buffer) (r s n : ℕ)
    → n ≢ 0
    → subpix_last b (record { rec_last_dma = r; rec_last_luma_size = s; subpix_last_dma = n }) ≡ n
unfolding subpix_last
subpix_last_of b r s n h = ground arith

-- Two jobs in a row, whatever the headers that they write: both are configured, with fuel for four turns
-- of the loop over the headers. A P picture refers to the buffer that the job before reconstructs into,
-- luma and chroma, and any other picture to its own. The sub-pixel samples of the picture before come
-- from the buffer where the job before put them, if that has an address other than 0.
pub job_configure_references :
    (fuel : ℕ) (len : List Put → ℕ) (dev : Device) (i₁ i₂ : JobInput) (c₁ c₂ : Context)
    (job₁ job₂ : Job) (f₁ f₂ : Format) (b₁ b₂ : Buffer) (v₁ v₂ : ℕ) (st : State) (last : Last)
    → b₁.subpix_dma ≢ 0
    → (r₁ : Configured) × (r₂ : Configured) × (job_configure
          (suc (suc (suc (suc fuel))))
          len
          dev
          i₁
          c₁
          job₁
          f₁
          b₁
          v₁
          (st, last)
        ≡ some r₁)
      × (job_configure (suc (suc (suc (suc fuel)))) len dev i₂ c₂ job₂ f₂ b₂ v₂ (r₁.state, r₁.last)
          ≡ some r₂)
      × (((is_p job₂.frame_type ≡ true) × RefersTo r₂.after r₁.after)
          ⊎ ((is_p job₂.frame_type ≡ false) × RefersTo r₂.after r₂.after))
      × FollowsOn r₂.after r₁.after
unfolding configured
job_configure_references fuel len dev i₁ i₂ c₁ c₂ job₁ job₂ f₁ f₂ b₁ b₂ v₁ v₂ st last h =
    let h618 = not (dev.enc_addr_shift == 0) in
    let r₁ = configured h618 len dev i₁ c₁ job₁ f₁ b₁ v₁ (st, last) in
    let r₂ = configured h618 len dev i₂ c₂ job₂ f₂ b₂ v₂ (r₁.state, r₁.last) in
    let e₁ = job_configure-eq-configured fuel len dev i₁ c₁ job₁ f₁ b₁ v₁ st last in
    let e₂ = job_configure-eq-configured fuel len dev i₂ c₂ job₂ f₂ b₂ v₂ r₁.state r₁.last in
    let own₁ = own_values h618 dev i₁ job₁ job₁.frame_type b₁ last in
    let ref₂ = ref_values h618 dev i₂ job₂ job₂.frame_type b₂ r₁.last in
    (
      r₁,
      r₂,
      e₁,
      e₂,
      refers h618 dev i₁ i₂ job₁ job₂ job₁.frame_type job₂.frame_type b₁ b₂ last b₁.subpix_dma,
      (
        _,
        ref₂.2
            ∙ ap (λ a. some (enc_dma_addr dev a))
                (subpix_last_of b₂ b₁.rec_dma b₁.rec_luma_size b₁.subpix_dma h),
        own₁.2,
      ),
    )
