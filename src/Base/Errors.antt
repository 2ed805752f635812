-- ===== src/Base/Errors.antt =====
-- The int results of the drivers (0 or a negative errno), and steps on a state that stop at an error.
use mathlib.Core.Path.{◌≡◌, refl}
use mathlib.Core.Logic.{◌⊎◌, inl, inr}

pub data Errno : Type 0 where
  enodev enomem einval enospc eopnotsupp eoverflow enoent efault ebusy erange erestartsys eperm :
      Errno

pub data Ret : Type 0 where
  ok : Ret
  err : Errno → Ret

-- An operation on a state `S` that returns an int.
abbrev pub Step {ℓ} : Type ℓ → Type ℓ
Step S = S → Ret × S

-- ret = f(s); if (ret) return ret; return g(s);
infixl 5 ◌>>◌
abbrev pub ◌>>◌ {ℓ} : {S : Type ℓ} → Step S → Step S → Step S
◌>>◌ f g s = let (r, t) = f s in elim r [ ok ↦ g t | err e ↦ (err e, t) ]

pub Ret-cases : (r : Ret) → (r ≡ ok) ⊎ ((e : Errno) × (r ≡ err e))
Ret-cases ok = inl refl
Ret-cases (err e) = inr (e, refl)
