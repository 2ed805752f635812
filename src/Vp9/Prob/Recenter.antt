-- ===== src/Vp9/Prob/Recenter.antt =====
-- The inverse remapping of a forward-updated probability.
use h618_vpu_port.Base.{ℕ, ◌-◌, ◌*◌, ◌≤◌, ◌<◌, ◌≡◌, ◌≢◌, if◌then◌else◌, ltb, leb, ◌==◌, arith}
use h618_vpu_port.Vp9.Prob.{inv_recenter_nonneg, update_prob}

-- A probability of the bool coder.
abbrev pub IsProb : ℕ → Type 0
IsProb p = (1 ≤ p) × (p ≤ 255)

-- The remapped value is below 2 * m or the value itself, and the subtraction never went below 0.
inv_recenter_nonneg-le :
    (v m : ℕ)
    → (v ≤ 2 * m → inv_recenter_nonneg v m ≤ 2 * m) × (2 * m < v → inv_recenter_nonneg v m ≡ v)
unfolding inv_recenter_nonneg
inv_recenter_nonneg-le v m = ground arith

-- A forward update by a delta of at most 254 keeps a probability from 1 to 255.
pub update_prob-IsProb :
    (delta prob : ℕ) → delta ≤ 254 → IsProb prob → IsProb (update_prob delta prob)
unfolding update_prob inv_recenter_nonneg
update_prob-IsProb delta prob d p = ground arith

-- The remapping of an encoder, recenter_nonneg of the VP9 specification.
pub recenter_nonneg : ℕ → ℕ → ℕ
recenter_nonneg v m = if ltb (2 * m) v then v else if leb m v then (v - m) * 2 else (m - v) * 2 - 1

recenter_inv : (v m : ℕ) → 1 ≤ v → recenter_nonneg (inv_recenter_nonneg v m) m ≡ v
unfolding recenter_nonneg inv_recenter_nonneg
recenter_inv v m h = ground arith

inv_recenter : (v m : ℕ) → v ≢ m → inv_recenter_nonneg (recenter_nonneg v m) m ≡ v
unfolding recenter_nonneg inv_recenter_nonneg
inv_recenter v m h = ground arith

-- The delta that an encoder sends to turn `prob` into `target`.
pub delta_of : ℕ → ℕ → ℕ
delta_of target prob =
    if target == prob
    then 0
    else if leb prob 128
    then recenter_nonneg (target - 1) (prob - 1)
    else recenter_nonneg (255 - target) (255 - prob)

delta_of-update_prob :
    (delta prob : ℕ) → delta ≤ 254 → IsProb prob → delta_of (update_prob delta prob) prob ≡ delta
unfolding delta_of update_prob recenter_nonneg inv_recenter_nonneg
delta_of-update_prob delta prob d p = ground arith

update_prob-delta_of :
    (target prob : ℕ)
    → IsProb target
    → IsProb prob
    → (update_prob (delta_of target prob) prob ≡ target) × (delta_of target prob ≤ 254)
unfolding delta_of update_prob recenter_nonneg inv_recenter_nonneg
update_prob-delta_of target prob t p = ground arith

-- Update and choice of the delta are inverse to one another: from a probability, the deltas of at most
-- 254 reach every probability from 1 to 255, each by exactly one delta.
pub update_prob_inverse :
    (target delta prob : ℕ)
    → IsProb target
    → delta ≤ 254
    → IsProb prob
    → (update_prob (delta_of target prob) prob ≡ target)
      × (delta_of target prob ≤ 254)
      × (delta_of (update_prob delta prob) prob ≡ delta)
update_prob_inverse target delta prob t d p =
    let r = update_prob-delta_of target prob t p in (r.0, r.1, delta_of-update_prob delta prob d p)
