-- ===== src/Legacy/Buffers/Unmap.antt =====
-- The loop that unmaps, against the sequence that the ring stands for.
use h618_vpu_port.Base.{
  ℕ, zero, suc, ◌<◌, ◌≡◌, ◌≢◌, inl, inr, refl, sym, Bool, true, false, ◌||◌, Bool-cases, Option,
  none, some, if◌then◌else◌, ◌==◌, ≡→==, List, [], ◌∷◌, ◌++◌, append_assoc, length, arith,
}
use mathlib.Core.Path.{subst}
use h618_vpu_port.Legacy.MemList.{Heap}
use h618_vpu_port.Legacy.MemList.Ring.{
  IsRing, prev-has, has, has-append, first, next-first, mem_list_del-drop,
}
use h618_vpu_port.Legacy.Buffers.{
  BufInfo, Held, Mem, is_wanted, give_back, remove, unmap_loop, unmap_dma_buf_addr,
}

module _ (unmap_all : Bool) (fd addr tgid : ℕ) where
  -- The entries that stay: without the wanted ones, or without the first of them.
  unfoldable pub remaining : (ℕ → BufInfo) → List ℕ → List ℕ
  remaining infos [] = []
  remaining infos (x ∷ xs) =
      let rest = remaining infos xs in
      if is_wanted unmap_all fd addr tgid (infos x)
      then (if unmap_all then rest else xs)
      else x ∷ rest

  -- What is held after they are given back, in the order of the list.
  unfoldable pub given_back : (ℕ → BufInfo) → List ℕ → Held → Held
  given_back infos [] h = h
  given_back infos (x ∷ xs) h =
      let skip = given_back infos xs h in
      let go = given_back infos xs (give_back (infos x) h) in
      if is_wanted unmap_all fd addr tgid (infos x)
      then (if unmap_all then go else give_back (infos x) h)
      else skip

-- The result of a run: the list, the entries' contents and what is held.
abbrev pub Unmapped : ℕ → (ℕ → BufInfo) → List ℕ → Held → Option Mem → Type 0
Unmapped head infos xs held none = ⊥
Unmapped head infos xs held (some m) = IsRing m.heap head xs × (m.infos ≡ infos) × (m.held ≡ held)

-- The rest of the loop, at the successor that was read.
abbrev run_from : (unmap_all : Bool) (fd addr tgid k head : ℕ) (pos : ℕ) → Mem → Option Mem
run_from all fd addr tgid k head pos m =
    unmap_loop k head all fd addr tgid pos (m.heap pos).aw_next m

-- What the rest does from the successor that was read is what it does from the list's next entry.
from_next :
    (all : Bool) (fd addr tgid k head : ℕ) (done xs ys : List ℕ) (x : ℕ) (held : Held) (m m' : Mem)
    → IsRing m.heap head (done ++ (x ∷ xs))
    → Unmapped head m.infos ys held (run_from all fd addr tgid k head (first xs head) m')
    → Unmapped head m.infos ys held (run_from all fd addr tgid k head (m.heap x).aw_next m')
from_next all fd addr tgid k head done xs ys x held m m' r u =
    subst (λ y. Unmapped head m.infos ys held (run_from all fd addr tgid k head y m'))
      (sym (next-first m.heap head done x xs r)) u

snoc-Unmapped :
    (head : ℕ) (infos : ℕ → BufInfo) (done ys : List ℕ) (x : ℕ) (held : Held) (o : Option Mem)
    → Unmapped head infos ((done ++ (x ∷ [])) ++ ys) held o
    → Unmapped head infos (done ++ (x ∷ ys)) held o
snoc-Unmapped head infos done ys x held o u =
    subst (λ zs. Unmapped head infos zs held o) (append_assoc done (x ∷ []) ys) u

not-head :
    (h : Heap) (head : ℕ) (done xs : List ℕ) (x : ℕ)
    → IsRing h head (done ++ (x ∷ xs))
    → (x == head) ≡ false
not-head h head done xs x r =
    let a = has-append head done (x ∷ xs) in let f = r.fresh in ground arith

snoc-IsRing :
    (h : Heap) (head : ℕ) (done xs : List ℕ) (x : ℕ)
    → IsRing h head (done ++ (x ∷ xs))
    → IsRing h head ((done ++ (x ∷ [])) ++ xs)
snoc-IsRing h head done xs x r = subst (IsRing h head) (sym (append_assoc done (x ∷ []) xs)) r

loop-Unmapped :
    (all : Bool) (fd addr tgid k head : ℕ) (done xs : List ℕ) (m : Mem)
    → IsRing m.heap head (done ++ xs)
    → length xs < k
    → Unmapped head m.infos
        (done ++ remaining all fd addr tgid m.infos xs)
        (given_back all fd addr tgid m.infos xs m.held)
        (run_from all fd addr tgid k head (first xs head) m)
unfolding unmap_loop remove remaining given_back
loop-Unmapped all fd addr tgid zero head done xs m r l = omega arith
loop-Unmapped all fd addr tgid (suc k) head done [] m r l = rw (≡→== head head refl) (r, refl, refl)
loop-Unmapped true fd addr tgid (suc k) head done (x ∷ xs) m r l =
    let out = not-head m.heap head done xs x r in
    let ys = remaining true fd addr tgid m.infos xs in
    let held = given_back true fd addr tgid m.infos xs in
    let kept =
      loop-Unmapped true fd addr tgid k head (done ++ (x ∷ [])) xs m
        (snoc-IsRing m.heap head done xs x r) (omega arith) in
    let gone =
      loop-Unmapped true fd addr tgid k head done xs (remove x m)
        (mem_list_del-drop m.heap head done x xs r) (omega arith) in
    elim (Bool-cases (is_wanted true fd addr tgid (m.infos x))) [
      | inl w ↦
          rw (w, out)
            (from_next true fd addr tgid k head done xs (done ++ ys) x
              (held (give_back (m.infos x) m.held)) m (remove x m) r gone)
      | inr w ↦
          rw (w, out)
            (from_next true fd addr tgid k head done xs (done ++ (x ∷ ys)) x (held m.held) m m r
              (snoc-Unmapped head m.infos done ys x (held m.held) _ kept))
    ]
loop-Unmapped false fd addr tgid (suc k) head done (x ∷ xs) m r l =
    let out = not-head m.heap head done xs x r in
    let ys = remaining false fd addr tgid m.infos xs in
    let held = given_back false fd addr tgid m.infos xs m.held in
    let kept =
      loop-Unmapped false fd addr tgid k head (done ++ (x ∷ [])) xs m
        (snoc-IsRing m.heap head done xs x r) (omega arith) in
    elim (Bool-cases (is_wanted false fd addr tgid (m.infos x))) [
      | inl w ↦ rw (w, out) (mem_list_del-drop m.heap head done x xs r, refl, refl)
      | inr w ↦
          rw (w, out)
            (from_next false fd addr tgid k head done xs (done ++ (x ∷ ys)) x held m m r
              (snoc-Unmapped head m.infos done ys x held _ kept))
    ]

-- In a list of mapped buffers no address is 0.
abbrev pub NonNull : ℕ → List ℕ → Type 0
NonNull head xs = (head ≢ 0) × (has 0 xs ≡ false)

-- The ring is not empty and has no null pointer, so the loop is entered.
entered :
    (h : Heap) (head x : ℕ) (xs : List ℕ)
    → IsRing h head (x ∷ xs)
    → NonNull head (x ∷ xs)
    → (((h head).aw_next == 0) || (((h head).aw_prev == 0) || ((h head).aw_next == head))) ≡ false
entered h head x xs r n =
    let k = r.linked.0 in
    let f = r.fresh in
    let p = prev-has h head (x ∷ xs) head r.linked in
    let o = n.1 in let z : ((h head).aw_prev == 0) ≡ false = ground arith in ground arith

-- unmap_dma_buf_addr removes from the list what its arguments name, and gives back what the entries hold:
-- with unmap_all every entry of the process whose address fits 32 bits, without it the first entry with the
-- descriptor, the address and the process. The rest stays, in order; one turn for each entry and one
-- more are enough.
pub unmap_dma_buf_addr-remaining :
    (unmap_all : Bool) (fd addr tgid fuel head : ℕ) (xs : List ℕ) (m : Mem)
    → IsRing m.heap head xs
    → NonNull head xs
    → length xs < fuel
    → Unmapped head m.infos
        (remaining unmap_all fd addr tgid m.infos xs)
        (given_back unmap_all fd addr tgid m.infos xs m.held)
        (unmap_dma_buf_addr fuel head unmap_all fd addr tgid m)
unfolding unmap_dma_buf_addr remaining given_back
unmap_dma_buf_addr-remaining all fd addr tgid fuel head [] m r n l =
    let s : ((m.heap head).aw_next == head) ≡ true = ≡→== _ head r.linked.0 in
    let c : (((m.heap head).aw_next == 0)
          || (((m.heap head).aw_prev == 0) || ((m.heap head).aw_next == head)))
        ≡ true =
      ground arith in
    rw c (r, refl, refl)
unmap_dma_buf_addr-remaining all fd addr tgid fuel head (x ∷ xs) m r n l =
    rw (entered m.heap head x xs r n) (
      subst
        (λ y.
          Unmapped head m.infos (remaining all fd addr tgid m.infos (x ∷ xs))
            (given_back all fd addr tgid m.infos (x ∷ xs) m.held)
            (run_from all fd addr tgid fuel head y m))
        (sym r.linked.0) (loop-Unmapped all fd addr tgid fuel head [] (x ∷ xs) m r l))
