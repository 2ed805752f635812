-- ===== src/Proc/Ioctls/Agree.antt =====
-- VIDIOC_TRY_FMT, VIDIOC_S_FMT and VIDIOC_G_FMT agree.
use h618_vpu_port.Base.{ℕ, ◌≡◌, ◌⊎◌, Bool, Ret, ok, err, enodev}
use h618_vpu_port.Proc.Tables.{FrmSize, coded, Proc, proc_format_type}
use h618_vpu_port.Proc.Formats.{PixFormat, Ctx, role_propagate}
use h618_vpu_port.Proc.Ioctls.{set_format, g_fmt}

module _ (apply : FrmSize → ℕ × ℕ → ℕ × ℕ) where
  -- What a store returns: the error of the preparation, that of the propagation to the other format, or that
  -- of the search for the engine of a coded format.
  abbrev pub Stored : Proc → Bool → Ret × PixFormat → Ctx → Ret × Ctx → Type 0
  Stored p output (err e, f) ctx r = r ≡ (err e, ctx)
  Stored p output (ok, f) ctx r =
      let t = proc_format_type p.role output in
      (g_fmt p output r.1 ≡ f)
      × ((r.0 ≡ (role_propagate apply p.role p t (set_format t f ctx)).0)
          ⊎ ((t ≡ coded) × (r.0 ≡ err enodev)))
