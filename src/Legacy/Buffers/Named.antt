-- ===== src/Legacy/Buffers/Named.antt =====
-- The loop that unmaps, against what its caller means: which entries are named and what they hold.
use h618_vpu_port.Base.{
  ℕ, ◌-◌, ◌*◌, ◌^◌, ◌<◌, ◌≡◌, refl, ap, ap₂, ◌∙◌, Bool, true, false, ◌&&◌, Bool-cases, inl, inr,
  if◌then◌else◌, ltb, u32, ◌==◌, ≡→==, List, [], ◌∷◌, length, arith,
}
use mathlib.Core.Path.{subst}
use h618_vpu_port.Legacy.MemList.Ring.{IsRing}
use h618_vpu_port.Legacy.Buffers.{BufInfo, Held, Mem, is_wanted, give_back, unmap_dma_buf_addr}
use h618_vpu_port.Legacy.Buffers.Unmap.{
  remaining, given_back, Unmapped, NonNull, unmap_dma_buf_addr-remaining,
}

-- 1 for an object that is there.
abbrev present : ℕ → ℕ
present p = if p == 0 then 0 else 1

-- An entry is its memory and, where it has a buffer, that, its attachment and the mapping of that.
abbrev pub without : BufInfo → Held → Held
without b h = record {
  memory = h.memory - 1;
  dma_bufs = h.dma_bufs - present b.dma_buf;
  attachments = h.attachments - present b.dma_buf * present b.attachment;
  mappings = h.mappings - present b.dma_buf * (present b.attachment * present b.sgt);
}

module _ (unmap_all : Bool) (fd addr tgid : ℕ) where
  -- With unmap_all the entries of the process whose address has at most 32 bits, without it those of the
  -- process with the descriptor and the address.
  abbrev pub named : BufInfo → Bool
  named b =
      if unmap_all
      then b.p_id == tgid && ltb b.addr (2 ^ 32)
      else b.fd == fd && b.p_id == tgid && b.addr == addr

  -- The entries that are not named; without unmap_all the first named one goes.
  unfoldable pub unnamed : (ℕ → BufInfo) → List ℕ → List ℕ
  unnamed infos [] = []
  unnamed infos (x ∷ xs) =
      let rest = unnamed infos xs in
      if named (infos x) then (if unmap_all then rest else xs) else x ∷ rest

  unfoldable pub without_named : (ℕ → BufInfo) → List ℕ → Held → Held
  without_named infos [] h = h
  without_named infos (x ∷ xs) h =
      let skip = without_named infos xs h in
      let go = without_named infos xs (without (infos x) h) in
      if named (infos x) then (if unmap_all then go else without (infos x) h) else skip

held-eq :
    {m b a p n c d q : ℕ}
    → m ≡ n
    → b ≡ c
    → a ≡ d
    → p ≡ q
    → let h : Held = record { memory = m; dma_bufs = b; attachments = a; mappings = p } in
      let k : Held = record { memory = n; dma_bufs = c; attachments = d; mappings = q } in h ≡ k
held-eq x y z w = λ i. record { memory = x i; dma_bufs = y i; attachments = z i; mappings = w i }

give_back-without : (b : BufInfo) (h : Held) → give_back b h ≡ without b h
unfolding give_back
give_back-without b h = elim (Bool-cases (b.dma_buf == 0)) [
  | inl d ↦ rw d (held-eq refl (omega arith) (omega arith) (omega arith))
  | inr d ↦ elim (Bool-cases (b.attachment == 0)) [
    | inl a ↦ rw (d, a) (held-eq refl refl (omega arith) (omega arith))
    | inr a ↦ elim (Bool-cases (b.sgt == 0)) [
      | inl s ↦ rw (d, a, s) (held-eq refl refl refl (omega arith))
      | inr s ↦ rw (d, a, s) (held-eq refl refl refl refl)
    ]
  ]
]

low_address : (a : ℕ) → (a == u32 a) ≡ ltb a (2 ^ 32)
low_address a = ground arith

is_wanted-named :
    (unmap_all : Bool) (fd addr tgid : ℕ) (b : BufInfo)
    → is_wanted unmap_all fd addr tgid b ≡ named unmap_all fd addr tgid b
unfolding is_wanted
is_wanted-named true fd addr tgid b =
    rw (≡→== b.fd b.fd refl) (ap (λ x. b.p_id == tgid && x) (low_address b.addr))
is_wanted-named false fd addr tgid b = ground arith

remaining-unnamed :
    (unmap_all : Bool) (fd addr tgid : ℕ) (infos : ℕ → BufInfo) (xs : List ℕ)
    → remaining unmap_all fd addr tgid infos xs ≡ unnamed unmap_all fd addr tgid infos xs
unfolding remaining unnamed
remaining-unnamed all fd addr tgid infos [] = refl
remaining-unnamed all fd addr tgid infos (x ∷ xs) =
    ap₂ (λ b ys. if b then (if all then ys else xs) else x ∷ ys)
      (is_wanted-named all fd addr tgid (infos x)) (remaining-unnamed all fd addr tgid infos xs)

given_back-without_named :
    (unmap_all : Bool) (fd addr tgid : ℕ) (infos : ℕ → BufInfo) (xs : List ℕ) (h : Held)
    → given_back unmap_all fd addr tgid infos xs h ≡ without_named unmap_all fd addr tgid infos xs h
unfolding given_back without_named
given_back-without_named all fd addr tgid infos [] h = refl
given_back-without_named all fd addr tgid infos (x ∷ xs) h =
    let w = is_wanted-named all fd addr tgid (infos x) in
    let g = give_back-without (infos x) h in
    let s = given_back-without_named all fd addr tgid infos xs h in
    let r =
      ap (given_back all fd addr tgid infos xs) g
      ∙ given_back-without_named all fd addr tgid infos xs (without (infos x) h) in
    λ i. if w i then (if all then r i else g i) else s i

-- unmap_dma_buf_addr ends within one turn for each entry and one more. With unmap_all it removes from the list
-- every entry of the process whose address has at most 32 bits; without it, the first entry of the
-- process with the descriptor and the address. The other entries stay, in their order, and of each entry
-- that goes the memory, and where it has a buffer the buffer, its attachment and the mapping, are given back.
pub unmap_dma_buf_addr-unnamed :
    (unmap_all : Bool) (fd addr tgid fuel head : ℕ) (xs : List ℕ) (m : Mem)
    → IsRing m.heap head xs
    → NonNull head xs
    → length xs < fuel
    → Unmapped head m.infos
        (unnamed unmap_all fd addr tgid m.infos xs)
        (without_named unmap_all fd addr tgid m.infos xs m.held)
        (unmap_dma_buf_addr fuel head unmap_all fd addr tgid m)
unmap_dma_buf_addr-unnamed all fd addr tgid fuel head xs m r n l =
    let o = unmap_dma_buf_addr fuel head all fd addr tgid m in
    let u = unmap_dma_buf_addr-remaining all fd addr tgid fuel head xs m r n l in
    subst (λ h. Unmapped head m.infos (unnamed all fd addr tgid m.infos xs) h o)
      (given_back-without_named all fd addr tgid m.infos xs m.held)
      (subst (λ ys. Unmapped head m.infos ys (given_back all fd addr tgid m.infos xs m.held) o)
        (remaining-unnamed all fd addr tgid m.infos xs) u)
