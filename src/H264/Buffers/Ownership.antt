-- ===== src/H264/Buffers/Ownership.antt =====
-- A buffer's set-up and its failures own what they allocate.
use h618_vpu_port.Base.{
  ℕ, ◌≡◌, ◌⊎◌, inl, inr, refl, ap, ◌∙◌, ◌∷◌, Option, none, some, Ret, ok, err, enomem, Bool, true,
  false, enodev, ◌==◌, ≡→==,
}
use h618_vpu_port.H264.Buffers.{
  Buffer, Live, release, setup_rec, buffer_setup, buffer_cleanup, setup_mb_info, cleanup,
  mb_info_size_of,
}

release-head : (a n : ℕ) (live : Live) → release a n ((a, n) ∷ live) ≡ live
unfolding release
release-head a n live =
    let e : (a == a) ≡ true = ≡→== a a refl in
    let f : (n == n) ≡ true = ≡→== n n refl in rw (e, f) refl

-- Either the set-up succeeds, and the clean-up then frees exactly what it allocated, or it fails with
-- -ENOMEM and has freed whatever it had allocated.
pub buffer_setup_owns :
    (width height : ℕ) (subpix rec : Option ℕ) (b : Buffer) (live : Live)
    → (((buffer_setup width height subpix rec b live).0 ≡ ok)
        × (buffer_cleanup
              (buffer_setup width height subpix rec b live).1
              (buffer_setup width height subpix rec b live).2
            ≡ live))
      ⊎ (((buffer_setup width height subpix rec b live).0 ≡ err enomem)
          × ((buffer_setup width height subpix rec b live).2 ≡ live))
unfolding buffer_setup setup_rec buffer_cleanup
buffer_setup_owns width height none rec b live = inr (refl, refl)
buffer_setup_owns width height (some s) none b live = inr (refl, release-head s _ live)
buffer_setup_owns width height (some s) (some r) b live =
    inl (refl, ap (release s _) (release-head r _ _) ∙ release-head s _ live)

-- The set-up of a context returns 0 and holds one allocation more, which its clean-up frees, or it fails,
-- with -ENOMEM, -ENODEV or the error of the controls, and holds what it held before.
pub setup_mb_info_owns :
    (width : ℕ) (mb_info : Option ℕ) (found : Bool) (applied : Ret) (dma : ℕ) (live : Live)
    → let r = setup_mb_info width mb_info found applied (dma, live) in
      ((r.0 ≡ ok)
        × (applied ≡ ok)
        × (cleanup width r.1 r.2 ≡ live)
        × (r.2 ≡ (r.1, mb_info_size_of width) ∷ live))
      ⊎ (((r.0 ≡ err enomem) ⊎ ((r.0 ≡ err enodev) ⊎ (r.0 ≡ applied))) × (r.2 ≡ live))
unfolding setup_mb_info cleanup
setup_mb_info_owns width none found applied dma live = inr (inl refl, refl)
setup_mb_info_owns width (some a) false applied dma live =
    inr (inr (inl refl), release-head a _ live)
setup_mb_info_owns width (some a) true ok dma live = inl (refl, refl, release-head a _ live, refl)
setup_mb_info_owns width (some a) true (err e) dma live =
    inr (inr (inr refl), release-head a _ live)
