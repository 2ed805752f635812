-- ===== src/Legacy/MemList/Ring.antt =====
-- What a ring of list heads stands for: a sequence of distinct addresses.
use h618_vpu_port.Base.{
  ℕ, ◌≡◌, ◌≢◌, refl, Bool, true, false, ◌||◌, ◌==◌, List, [], ◌∷◌, ◌++◌, arith,
}
use h618_vpu_port.Legacy.MemList.{
  Heap, list_add_between, mem_list_add, mem_list_add_tail, list_del_between, mem_list_del,
  init_list_head,
}

abbrev pub has : ℕ → List ℕ → Bool
has a [] = false
has a (x ∷ xs) = (a == x) || has a xs

-- No address twice.
abbrev pub NoDup : List ℕ → Type 0
NoDup [] = Unit {0}
NoDup (x ∷ xs) = (has x xs ≡ false) × NoDup xs

-- From `a` through `xs` to `b`, forwards and backwards.
abbrev pub Linked : Heap → ℕ → List ℕ → ℕ → Type 0
Linked h a [] b = ((h a).aw_next ≡ b) × ((h b).aw_prev ≡ a)
Linked h a (x ∷ xs) b = ((h a).aw_next ≡ x) × ((h x).aw_prev ≡ a) × Linked h x xs b

pub record IsRing (h : Heap) (head : ℕ) (xs : List ℕ) : Type 0 where
  pub linked : Linked h head xs head
  pub fresh : has head xs ≡ false
  pub distinct : NoDup xs

-- The forward link of the first and all of `xs`, and the backward links of `xs` and the end, are read.
frame :
    (h g : Heap) (a : ℕ) (xs : List ℕ) (b : ℕ)
    → ((i : ℕ) → ((i == a) || has i xs) ≡ true → (g i).aw_next ≡ (h i).aw_next)
    → ((i : ℕ) → ((i == b) || has i xs) ≡ true → (g i).aw_prev ≡ (h i).aw_prev)
    → Linked h a xs b
    → Linked g a xs b
frame h g a [] b n p l = ground (arith, n a, p b)
frame h g a (x ∷ xs) b n p (f, k, l) = (
  ground (arith, n a),
  ground (arith, p x),
  frame h g x xs b (λ i e. n i (ground arith)) (λ i e. p i (ground arith)) l,
)

pub prev-has :
    (h : Heap) (a : ℕ) (xs : List ℕ) (b : ℕ)
    → Linked h a xs b
    → (((h b).aw_prev == a) || has (h b).aw_prev xs) ≡ true
prev-has h a [] b l = ground arith
prev-has h a (x ∷ xs) b l = let e = prev-has h x xs b l.2 in ground arith

next-has :
    (h : Heap) (a : ℕ) (xs : List ℕ) (b : ℕ)
    → Linked h a xs b
    → (((h a).aw_next == b) || has (h a).aw_next xs) ≡ true
next-has h a [] b l = ground arith
next-has h a (x ∷ xs) b l = ground arith

add_tail-Linked :
    (h : Heap) (new a : ℕ) (xs : List ℕ) (b : ℕ)
    → Linked h a xs b
    → has new xs ≡ false
    → new ≢ a
    → new ≢ b
    → has a xs ≡ false
    → has b xs ≡ false
    → NoDup xs
    → Linked (list_add_between new (h b).aw_prev b h) a (xs ++ (new ∷ [])) b
unfolding list_add_between
add_tail-Linked h new a [] b l m na nb ax bx d =
    (ground arith, ground arith, (ground arith, ground arith))
add_tail-Linked h new a (x ∷ xs) b (f, p, l) m na nb ax bx d =
    let e = prev-has h x xs b l in
    let k : (a == (h b).aw_prev) ≡ false = ground arith in
    (
      ground arith,
      ground arith,
      add_tail-Linked h new x xs b l (ground arith) (ground arith) nb d.0 (ground arith) d.1,
    )

pub has-append : (a : ℕ) (xs ys : List ℕ) → has a (xs ++ ys) ≡ (has a xs || has a ys)
has-append a [] ys = refl
has-append a (x ∷ xs) ys = let e = has-append a xs ys in ground arith

-- The neighbours of an entry are linked to each other.
del-Linked :
    (h : Heap) (a : ℕ) (xs : List ℕ) (x : ℕ) (ys : List ℕ) (b : ℕ)
    → Linked h a xs x
    → Linked h x ys b
    → has a (xs ++ ys) ≡ false
    → has b (xs ++ ys) ≡ false
    → NoDup (xs ++ ys)
    → Linked (list_del_between (h x).aw_prev (h x).aw_next h) a (xs ++ ys) b
unfolding list_del_between
del-Linked h a [] x [] b (f, p) (n, q) ax bx d = (ground arith, ground arith)
del-Linked h a [] x (y ∷ ys) b (f, p) (n, q, l) ax bx d = (
  ground arith,
  ground arith,
  frame h (list_del_between (h x).aw_prev (h x).aw_next h) y ys b (λ i e. ground arith)
      (λ i e. ground arith) l,
)
del-Linked h a (c ∷ cs) x ys b (f, p, l) m ax bx d =
    let u = prev-has h c cs x l in
    let v = next-has h x ys b m in
    let ac = has-append a cs ys in
    let cc' = has-append c cs ys in
    let k : (a == (h x).aw_prev) ≡ false = ground arith in
    let j : (c == (h x).aw_next) ≡ false = ground arith in
    (ground arith, ground arith, del-Linked h c cs x ys b l m d.0 (ground arith) d.1)

split-Linked :
    (h : Heap) (a : ℕ) (xs : List ℕ) (x : ℕ) (ys : List ℕ) (b : ℕ)
    → Linked h a (xs ++ (x ∷ ys)) b
    → Linked h a xs x × Linked h x ys b
split-Linked h a [] x ys b (f, p, l) = ((f, p), l)
split-Linked h a (c ∷ cs) x ys b (f, p, l) =
    let r = split-Linked h c cs x ys b l in ((f, p, r.0), r.1)

NoDup-drop : (xs : List ℕ) (x : ℕ) (ys : List ℕ) → NoDup (xs ++ (x ∷ ys)) → NoDup (xs ++ ys)
NoDup-drop [] x ys d = d.1
NoDup-drop (c ∷ cs) x ys d =
    let e = has-append c cs (x ∷ ys) in
    let f = has-append c cs ys in (ground arith, NoDup-drop cs x ys d.1)

NoDup-middle :
    (xs : List ℕ) (x : ℕ) (ys : List ℕ) → NoDup (xs ++ (x ∷ ys)) → has x (xs ++ ys) ≡ false
NoDup-middle [] x ys d = d.0
NoDup-middle (c ∷ cs) x ys d =
    let e = has-append c cs (x ∷ ys) in let i = NoDup-middle cs x ys d.1 in ground arith

NoDup-snoc : (xs : List ℕ) (x : ℕ) → has x xs ≡ false → NoDup xs → NoDup (xs ++ (x ∷ []))
NoDup-snoc [] x h d = (refl, tt)
NoDup-snoc (c ∷ cs) x h d =
    let e = has-append c cs (x ∷ []) in (ground arith, NoDup-snoc cs x (ground arith) d.1)

pub init-IsRing : (h : Heap) (head : ℕ) → IsRing (init_list_head head h) head []
unfolding init_list_head
init-IsRing h head = record { linked = (ground arith, ground arith); fresh = refl; distinct = tt }

-- aw_mem_list_add_tail appends a new entry.
pub mem_list_add_tail-append :
    (h : Heap) (head new : ℕ) (xs : List ℕ)
    → IsRing h head xs
    → has new (head ∷ xs) ≡ false
    → IsRing (mem_list_add_tail new head h) head (xs ++ (new ∷ []))
unfolding mem_list_add_tail
mem_list_add_tail-append h head new xs r n =
    let e = has-append head xs (new ∷ []) in
    record {
      linked =
          add_tail-Linked h new head xs head r.linked (ground arith) (ground arith) (ground arith)
            r.fresh r.fresh r.distinct;
      fresh = let f = r.fresh in ground arith;
      distinct = NoDup-snoc xs new (ground arith) r.distinct;
    }

add-Linked :
    (h : Heap) (new head : ℕ) (xs : List ℕ)
    → Linked h head xs head
    → has new (head ∷ xs) ≡ false
    → has head xs ≡ false
    → NoDup xs
    → Linked (list_add_between new head (h head).aw_next h) head (new ∷ xs) head
unfolding list_add_between
add-Linked h new head [] l n f d = (ground arith, ground arith, (ground arith, ground arith))
add-Linked h new head (x ∷ xs) (f, p, l) n a d = (
  ground arith,
  ground arith,
  (
    ground arith,
    ground arith,
    frame h (list_add_between new head (h head).aw_next h) x xs head (λ i e. ground arith)
        (λ i e. ground arith) l,
  ),
)

-- aw_mem_list_add puts a new entry first.
pub mem_list_add-cons :
    (h : Heap) (head new : ℕ) (xs : List ℕ)
    → IsRing h head xs
    → has new (head ∷ xs) ≡ false
    → IsRing (mem_list_add new head h) head (new ∷ xs)
unfolding mem_list_add
mem_list_add-cons h head new xs r n =
    let f = r.fresh in
    record {
      linked = add-Linked h new head xs r.linked n r.fresh r.distinct;
      fresh = ground arith;
      distinct = (ground arith, r.distinct);
    }

-- The entry after one, or the head.
abbrev pub first : List ℕ → ℕ → ℕ
first [] b = b
first (x ∷ xs) b = x

pub next-first :
    (h : Heap) (head : ℕ) (xs : List ℕ) (x : ℕ) (ys : List ℕ)
    → IsRing h head (xs ++ (x ∷ ys))
    → (h x).aw_next ≡ first ys head
next-first h head xs x [] r = (split-Linked h head xs x [] head r.linked).1.0
next-first h head xs x (y ∷ ys) r = (split-Linked h head xs x (y ∷ ys) head r.linked).1.0

-- aw_mem_list_del removes an entry, and only that, and leaves the poison in its links.
pub mem_list_del-drop :
    (h : Heap) (head : ℕ) (xs : List ℕ) (x : ℕ) (ys : List ℕ)
    → IsRing h head (xs ++ (x ∷ ys))
    → IsRing (mem_list_del x h) head (xs ++ ys)
unfolding mem_list_del
mem_list_del-drop h head xs x ys r =
    let s = split-Linked h head xs x ys head r.linked in
    let e = has-append head xs (x ∷ ys) in
    let f = has-append head xs ys in
    let g = r.fresh in
    let n = NoDup-middle xs x ys r.distinct in
    let d = NoDup-drop xs x ys r.distinct in
    let fresh : has head (xs ++ ys) ≡ false = ground arith in
    let ne : (head == x) ≡ false = ground arith in
    record {
      linked =
          frame (list_del_between (h x).aw_prev (h x).aw_next h) (mem_list_del x h) head (xs ++ ys)
            head (λ i e. ground arith) (λ i e. ground arith)
            (del-Linked h head xs x ys head s.0 s.1 fresh fresh d);
      fresh = fresh;
      distinct = d;
    }
