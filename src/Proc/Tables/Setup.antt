-- ===== src/Proc/Tables/Setup.antt =====
-- The two passes of a set-up agree: the array is as long as what is kept, and it is filled.
use h618_vpu_port.Base.{
  ℕ, suc, ◌+◌, ◌≡◌, refl, sym, ap, ◌∙◌, List, [], ◌∷◌, ◌++◌, Option, some, Bool, not, if◌then◌else◌,
  ◌==◌, Bool-cases, inl, inr, ok, err, enodev, enomem, ap₂, map, set, length, length-append,
  length-map, append-nil, append_assoc, arith,
}
use native.Mathlib.Nat.{zero-add}
use h618_vpu_port.Device.Dma.{Device}
use h618_vpu_port.Proc.Tables.{
  Engine, Format, zeroed, count_kept, fill_kept, engine_usable, engines_setup, format_usable,
  engine_format, fill_engines, formats_setup,
}

-- The entries that are kept.
pub kept {ℓ} : {A : Type ℓ} → (A → Bool) → List A → List A
kept keep [] = []
kept keep (x ∷ xs) = let rest = kept keep xs in if keep x then x ∷ rest else rest

count_kept-eq-length {ℓ} :
    {A : Type ℓ} (keep : A → Bool) (xs : List A) (n : ℕ)
    → count_kept keep xs n ≡ n + length (kept keep xs)
unfolding count_kept kept
count_kept-eq-length keep [] n = omega arith
count_kept-eq-length keep (x ∷ xs) n = elim (Bool-cases (keep x)) [
  | inl e ↦ rw e (omega (arith, count_kept-eq-length keep xs (n + 1)))
  | inr e ↦ rw e (count_kept-eq-length keep xs n)
]

module _ {ℓ} {A : Type ℓ} where
  -- Slots whose first are filled with `done`.
  slots : List A → ℕ → List (Option A)
  slots [] n = zeroed n
  slots (x ∷ xs) n = some x ∷ slots xs n

  slots_full : (xs : List A) → slots xs 0 ≡ map some xs
  unfolding slots zeroed
  slots_full [] = refl
  slots_full (x ∷ xs) = ap (λ ys. some x ∷ ys) (slots_full xs)

  set-slots :
      (done : List A) (n : ℕ) (x : A)
      → set (slots done (suc n)) (length done) (some x) ≡ slots (done ++ (x ∷ [])) n
  unfolding slots zeroed
  set-slots [] n x = refl
  set-slots (y ∷ ys) n x = ap (λ zs. some y ∷ zs) (set-slots ys n x)

  fill_kept-step :
      (keep : A → Bool) (x : A) (xs done : List A) (n : ℕ)
      → fill_kept keep xs (length done + 1) (set (slots done (suc n)) (length done) (some x))
        ≡ fill_kept keep xs (length (done ++ (x ∷ []))) (slots (done ++ (x ∷ [])) n)
  fill_kept-step keep x xs done n =
      ap₂ (fill_kept keep xs) (omega (arith, length-append done (x ∷ []))) (set-slots done n x)

  fill_kept-slots :
      (keep : A → Bool) (xs done : List A)
      → fill_kept keep xs (length done) (slots done (length (kept keep xs)))
        ≡ map some (done ++ kept keep xs)
  unfolding fill_kept kept
  fill_kept-slots keep [] done = slots_full done ∙ ap (map some) (sym (append-nil done))
  fill_kept-slots keep (x ∷ xs) done = elim (Bool-cases (keep x)) [
    | inl e ↦ rw e (
        fill_kept-step keep x xs done (length (kept keep xs))
        ∙ fill_kept-slots keep xs (done ++ (x ∷ []))
        ∙ ap (map some) (append_assoc done (x ∷ []) (kept keep xs)))
    | inr e ↦ rw e (fill_kept-slots keep xs done)
  ]

  -- From the empty array on.
  fill_kept-zeroed :
      (keep : A → Bool) (xs : List A)
      → fill_kept keep xs 0 (zeroed (length (kept keep xs))) ≡ map some (kept keep xs)
  unfolding slots
  fill_kept-zeroed keep xs = fill_kept-slots keep xs []

  count_kept_zero : (keep : A → Bool) (xs : List A) → count_kept keep xs 0 ≡ length (kept keep xs)
  count_kept_zero keep xs = omega (arith, count_kept-eq-length keep xs 0)

-- The set-up of the engines gives, in the order of the configuration, exactly the engines that the device
-- can run and that have a pixel format and a frame size; without any it fails with -ENODEV, and without
-- memory with -ENOMEM. No slot stays empty, and none is missing.
pub engines_setup-eq-kept :
    (dev : Device) (allocated : Bool) (config : List Engine)
    → let es = kept (engine_usable dev) config in
      engines_setup dev allocated config ≡ (
        if length es == 0
        then (err enodev, [])
        else if not allocated
        then (err enomem, [])
        else (ok, map some es))
unfolding engines_setup
engines_setup-eq-kept dev allocated config =
    let keep = engine_usable dev in
    rw (count_kept_zero keep config, fill_kept-zeroed keep config) refl

fill_engines-slots :
    (es : List Engine) (done : List Format) (n : ℕ)
    → fill_engines es (length done) (slots done (length es + n))
      ≡ slots (done ++ map engine_format es) n
unfolding fill_engines
fill_engines-slots [] done n = rw (zero-add n, append-nil done) refl
fill_engines-slots (e ∷ es) done n =
    let x = engine_format e in
    let k : suc (length es) + n ≡ suc (length es + n) = omega arith in
    rw k (
      ap₂ (fill_engines es) (omega (arith, length-append done (x ∷ [])))
        (set-slots done (length es + n) x)
      ∙ fill_engines-slots es (done ++ (x ∷ [])) n
      ∙ ap (λ xs. slots xs n) (append_assoc done (x ∷ []) (map engine_format es)))

module _ (dev : Device) (engines : List Engine) (config : List Format) where
  -- The formats of a processor.
  abbrev pub kept_formats : List Format
  kept_formats = map engine_format engines ++ kept (format_usable dev) config

  length-kept_formats :
      length kept_formats ≡ length engines + length (kept (format_usable dev) config)
  length-kept_formats = omega (
    arith,
    length-append (map engine_format engines) (kept (format_usable dev) config),
    length-map engine_format engines,
  )

  count_formats : count_kept (format_usable dev) config (length engines) ≡ length kept_formats
  count_formats =
      omega (
        arith,
        count_kept-eq-length (format_usable dev) config (length engines),
        length-kept_formats,
      )

  fill_formats :
      fill_kept
        (format_usable dev)
        config
        (length engines)
        (fill_engines engines 0 (zeroed (length kept_formats)))
      ≡ map some kept_formats
  unfolding slots
  fill_formats =
      let keep = format_usable dev in
      let fs = map engine_format engines in
      let n = length (kept keep config) in
      ap₂ (fill_kept keep config) (sym (length-map engine_format engines)) (
        ap (λ k. fill_engines engines 0 (zeroed k)) length-kept_formats
        ∙ fill_engines-slots engines [] n)
      ∙ fill_kept-slots keep config fs

-- The set-up of the formats gives the coded formats of all engines and, behind them, exactly the formats
-- of the configuration that the device has, in their order; without any it fails with -ENODEV, and
-- without memory with -ENOMEM.
pub formats_setup-eq-kept :
    (dev : Device) (allocated : Bool) (engines : List Engine) (config : List Format)
    → let fs = kept_formats dev engines config in
      formats_setup dev allocated engines config ≡ (
        if length fs == 0
        then (err enodev, [])
        else if not allocated
        then (err enomem, [])
        else (ok, map some fs))
unfolding formats_setup
formats_setup-eq-kept dev allocated engines config =
    rw (count_formats dev engines config, fill_formats dev engines config) refl
