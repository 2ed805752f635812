-- ===== src/Legacy/Buffers/Freed.antt =====
-- What the kernel lends after buffers are unmapped.
use h618_vpu_port.Base.{
  ℕ, suc, ◌+◌, ◌<◌, ◌≡◌, inl, inr, Bool, true, false, Bool-cases, Option, none, some, List, [], ◌∷◌,
  All, length, arith,
}
use h618_vpu_port.Legacy.MemList.Ring.{has}
use h618_vpu_port.Legacy.Buffers.{BufInfo, Held, Mem, is_wanted, give_back, unmap_dma_buf_addr}
use h618_vpu_port.Legacy.Buffers.Unmap.{
  remaining, given_back, Unmapped, NonNull, unmap_dma_buf_addr-remaining,
}
use h618_vpu_port.Legacy.Buffers.Owned.{IsMapped, Balanced, IsOwned}

give_back-Balanced :
    (b : BufInfo) (n : ℕ) (h : Held) → IsMapped b → Balanced (suc n) h → Balanced n (give_back b h)
unfolding give_back
give_back-Balanced b n h m e = ground arith

module _ (infos : ℕ → BufInfo) where
  given_back-Balanced :
      (all : Bool) (fd addr tgid n : ℕ) (xs : List ℕ) (h : Held)
      → All (λ x. IsMapped (infos x)) xs
      → Balanced (n + length xs) h
      → Balanced
          (n + length (remaining all fd addr tgid infos xs))
          (given_back all fd addr tgid infos xs h)
  unfolding remaining given_back
  given_back-Balanced all fd addr tgid n [] h m b = b
  given_back-Balanced true fd addr tgid n (x ∷ xs) h m b =
      elim (Bool-cases (is_wanted true fd addr tgid (infos x))) [
        | inl w ↦ rw w (
            given_back-Balanced true fd addr tgid n xs (give_back (infos x) h) m.1 (
              give_back-Balanced (infos x) (n + length xs) h m.0
                (omega arith, omega arith, omega arith, omega arith)))
        | inr w ↦
            let i =
              given_back-Balanced true fd addr tgid (suc n) xs h m.1
                (omega arith, omega arith, omega arith, omega arith) in
            rw w (omega arith, omega arith, omega arith, omega arith)
      ]
  given_back-Balanced false fd addr tgid n (x ∷ xs) h m b =
      elim (Bool-cases (is_wanted false fd addr tgid (infos x))) [
        | inl w ↦ rw w (
            give_back-Balanced (infos x) (n + length xs) h m.0
              (omega arith, omega arith, omega arith, omega arith))
        | inr w ↦
            let i =
              given_back-Balanced false fd addr tgid (suc n) xs h m.1
                (omega arith, omega arith, omega arith, omega arith) in
            rw w (omega arith, omega arith, omega arith, omega arith)
      ]

  remaining-All :
      (P : ℕ → Type 0) (all : Bool) (fd addr tgid : ℕ) (xs : List ℕ)
      → All P xs
      → All P (remaining all fd addr tgid infos xs)
  unfolding remaining
  remaining-All P all fd addr tgid [] a = tt
  remaining-All P true fd addr tgid (x ∷ xs) a =
      elim (Bool-cases (is_wanted true fd addr tgid (infos x))) [
        | inl w ↦ rw w (remaining-All P true fd addr tgid xs a.1)
        | inr w ↦ rw w (a.0, remaining-All P true fd addr tgid xs a.1)
      ]
  remaining-All P false fd addr tgid (x ∷ xs) a =
      elim (Bool-cases (is_wanted false fd addr tgid (infos x))) [
        | inl w ↦ rw w a.1
        | inr w ↦ rw w (a.0, remaining-All P false fd addr tgid xs a.1)
      ]

  remaining-has :
      (all : Bool) (fd addr tgid a : ℕ) (xs : List ℕ)
      → has a xs ≡ false
      → has a (remaining all fd addr tgid infos xs) ≡ false
  unfolding remaining
  remaining-has all fd addr tgid a [] h = h
  remaining-has true fd addr tgid a (x ∷ xs) h =
      let i = remaining-has true fd addr tgid a xs (ground arith) in
      elim (Bool-cases (is_wanted true fd addr tgid (infos x))) [
        | inl w ↦ rw w i
        | inr w ↦ rw w (ground arith)
      ]
  remaining-has false fd addr tgid a (x ∷ xs) h =
      let i = remaining-has false fd addr tgid a xs (ground arith) in
      elim (Bool-cases (is_wanted false fd addr tgid (infos x))) [
        | inl w ↦ rw w (ground arith)
        | inr w ↦ rw w (ground arith)
      ]

-- A result that owns what it holds.
abbrev pub Owns : ℕ → List ℕ → Option Mem → Type 0
Owns head xs none = ⊥
Owns head xs (some m) = IsOwned head xs m

from-Unmapped :
    (head : ℕ) (infos : ℕ → BufInfo) (xs : List ℕ) (held : Held) (o : Option Mem)
    → NonNull head xs
    → All (λ x. IsMapped (infos x)) xs
    → Balanced (length xs) held
    → Unmapped head infos xs held o
    → Owns head xs o
from-Unmapped head infos xs held none n a b u = u
from-Unmapped head infos xs held (some m) n a b (r, e, h) = record {
  ring = r;
  non_null = n;
  mapped = rw e a;
  balanced = rw h b;
}

-- unmap_dma_buf_addr ends, and what the kernel still lends belongs to the entries that stay in the list, one
-- object of each kind to each of them; nothing is leaked and nothing is freed twice.
pub unmap_dma_buf_addr-IsOwned :
    (all : Bool) (fd addr tgid fuel head : ℕ) (xs : List ℕ) (m : Mem)
    → IsOwned head xs m
    → length xs < fuel
    → Owns head
        (remaining all fd addr tgid m.infos xs)
        (unmap_dma_buf_addr fuel head all fd addr tgid m)
unmap_dma_buf_addr-IsOwned all fd addr tgid fuel head xs m o l =
    let e = o.balanced in
    let b =
      given_back-Balanced m.infos all fd addr tgid 0 xs m.held o.mapped
        (omega arith, omega arith, omega arith, omega arith) in
    from-Unmapped head m.infos (remaining all fd addr tgid m.infos xs)
      (given_back all fd addr tgid m.infos xs m.held)
      (unmap_dma_buf_addr fuel head all fd addr tgid m)
      (o.non_null.0, remaining-has m.infos all fd addr tgid 0 xs o.non_null.1)
      (remaining-All m.infos (λ x. IsMapped (m.infos x)) all fd addr tgid xs o.mapped)
      (omega arith, omega arith, omega arith, omega arith)
      (unmap_dma_buf_addr-remaining all fd addr tgid fuel head xs m o.ring o.non_null l)
