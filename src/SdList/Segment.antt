-- ===== src/SdList/Segment.antt =====
-- Doubly linked segments of the heap of zm_sdlist.h.
use izem.Prelude.{
  ◌≡◌, ◌≢◌, refl, Bool, true, false, ◌||◌, Option, none, some, List, [], ◌∷◌, ◌++◌, arith, ◌==◌, ap,
  ◌∙◌, if◌then◌else◌, length,
}
use izem.Prelude.Int.{pos}
use izem.Prelude.Family.{put}
use izem.Heap.{Ptr, null, Heap}
use izem.SdList.{Node, node, SdList}

-- What a list stands for: the address and the data of each node, in order.
abbrev pub Cells : Type 0
Cells = List (Ptr × Ptr)

abbrev pub has : Ptr → Cells → Bool
has a [] = false
has a ((p, _) ∷ xs) = (a == p) || has a xs

-- The address of the first node, or `q` if there is none; of the last, or `p`.
abbrev pub first : Cells → Ptr → Ptr
first [] q = q
first ((a, _) ∷ xs) q = a

abbrev pub last : Ptr → Cells → Ptr
last p [] = p
last p ((a, _) ∷ xs) = last a xs

-- The distinct nodes `xs` are linked both ways, between `p` and `q`.
abbrev pub Seg : Heap Node → Ptr → Cells → Ptr → Type 0
Seg h p [] q = Unit
Seg h p ((a, d) ∷ xs) q =
    (a ≢ null) × (has a xs ≡ false) × (h a ≡ some (node d (first xs q) p)) × Seg h a xs q

-- The handle of a list.
abbrev pub handle : Cells → SdList
handle xs = record { head = first xs null; tail = last null xs; length = pos (length xs) }

pub record IsList (h : Heap Node) (l : SdList) (xs : Cells) : Type 0 where
  pub same : l ≡ handle xs
  pub chain : Seg h null xs null

-- `g` is `h` but at the nodes `xs`.
abbrev pub SameOutside : Cells → Heap Node → Heap Node → Type 0
SameOutside xs h g = (a : Ptr) → has a xs ≡ false → g a ≡ h a

abbrev pub Apart : Cells → Cells → Type 0
Apart xs ys = (a : Ptr) → has a xs ≡ true → has a ys ≡ false

pub has-append : (a : Ptr) (xs ys : Cells) → has a (xs ++ ys) ≡ (has a xs || has a ys)
has-append a [] ys = refl
has-append a (x ∷ xs) ys = ground (arith, has-append a xs ys)

pub first-append : (xs ys : Cells) (q : Ptr) → first (xs ++ ys) q ≡ first xs (first ys q)
first-append [] ys q = refl
first-append (x ∷ xs) ys q = refl

pub last-append : (p : Ptr) (xs ys : Cells) → last p (xs ++ ys) ≡ last (last p xs) ys
last-append p [] ys = refl
last-append p ((a, d) ∷ xs) ys = last-append a xs ys

-- The last node is one of the nodes.
pub has-last : (p a d : Ptr) (xs : Cells) → has (last p ((a, d) ∷ xs)) ((a, d) ∷ xs) ≡ true
has-last p a d [] = ground arith
has-last p a d ((b, e) ∷ xs) = ground (arith, has-last a b e xs)

module _ (h : Heap Node) where
  -- A segment survives a change that spares its nodes.
  pub frame :
      (g : Heap Node) (p q : Ptr) (xs : Cells)
      → Seg h p xs q
      → ((a : Ptr) → has a xs ≡ true → g a ≡ h a)
      → Seg g p xs q
  frame g p q [] s same = tt
  frame g p q ((a, d) ∷ xs) (ne, out, at, s) same =
      (ne, out, ground (arith, same a), frame g a q xs s (λ b i. same b (ground arith)))

  pub frame-put :
      (b p q : Ptr) (xs : Cells) (c : Option Node)
      → Seg h p xs q
      → has b xs ≡ false
      → Seg (put h b c) p xs q
  frame-put b p q xs c s out = frame (put h b c) p q xs s (λ a i. ground arith)

  pub Seg-ne_null : (p q a : Ptr) (xs : Cells) → Seg h p xs q → has a xs ≡ true → a ≢ null
  Seg-ne_null p q a [] s i = cc
  Seg-ne_null p q a ((b, d) ∷ xs) (ne, out, at, s) i = ground (arith, Seg-ne_null b q a xs s)

  pub not-has_of_none : (p q a : Ptr) (xs : Cells) → Seg h p xs q → h a ≡ none → has a xs ≡ false
  not-has_of_none p q a [] s e = refl
  not-has_of_none p q a ((b, d) ∷ xs) (ne, out, at, s) e =
      ground (arith, not-has_of_none b q a xs s)

  pub split :
      (p q : Ptr) (xs ys : Cells)
      → Seg h p (xs ++ ys) q
      → Seg h p xs (first ys q) × Seg h (last p xs) ys q × Apart xs ys
  split p q [] ys s = (tt, s, λ a i. cc)
  split p q ((a, d) ∷ xs) ys (ne, out, at, s) =
      let (front, back, apart) = split a q xs ys s in
      (
        (ne, ground (arith, has-append a xs ys), rw (← first-append xs ys q) at, front),
        back,
        λ b i. ground (arith, has-append a xs ys, apart b),
      )

  pub join :
      (p q : Ptr) (xs ys : Cells)
      → Seg h p xs (first ys q)
      → Seg h (last p xs) ys q
      → Apart xs ys
      → Seg h p (xs ++ ys) q
  join p q [] ys front back apart = back
  join p q ((a, d) ∷ xs) ys (ne, out, at, front) back apart = (
    ne,
    ground (arith, has-append a xs ys, apart a),
    rw (first-append xs ys q) at,
    join a q xs ys front back (λ b i. apart b (ground arith)),
  )

-- What `if (p != NULL) p->next = q` and `if (p != NULL) p->prev = q` make of the heap.
abbrev pub set_cell_next : Ptr → Option Node → Option Node
set_cell_next q none = none
set_cell_next q (some n) = some (record n { next = q })

abbrev pub set_cell_prev : Ptr → Option Node → Option Node
set_cell_prev q none = none
set_cell_prev q (some n) = some (record n { prev = q })

abbrev pub relink_next : Heap Node → Ptr → Ptr → Heap Node
relink_next h p q = if p == null then h else put h p (set_cell_next q (h p))

abbrev pub relink_prev : Heap Node → Ptr → Ptr → Heap Node
relink_prev h p q = if p == null then h else put h p (set_cell_prev q (h p))

pub relink_next_other : (h : Heap Node) (p q a : Ptr) → a ≢ p → relink_next h p q a ≡ h a
relink_next_other h p q a ne = ground arith

pub relink_prev_other : (h : Heap Node) (p q a : Ptr) → a ≢ p → relink_prev h p q a ≡ h a
relink_prev_other h p q a ne = ground arith

pub ne_of_has : (a b : Ptr) (xs : Cells) → has a xs ≡ false → has b xs ≡ true → a ≢ b
ne_of_has a b xs out in_ e = cc (ap (λ c. has c xs) e)

module _ (h : Heap Node) where
  pub relink_last :
      (p q r : Ptr) (xs : Cells) → Seg h p xs q → Seg (relink_next h (last p xs) r) p xs r
  relink_last p q r [] s = tt
  relink_last p q r ((a, d) ∷ []) (ne, out, at, s) = (ne, refl, ground arith, tt)
  relink_last p q r ((a, d) ∷ (b, e) ∷ xs) (ne, out, at, s) = (
    ne,
    out,
    relink_next_other h (last a ((b, e) ∷ xs)) r a
          (ne_of_has a _ ((b, e) ∷ xs) out (has-last a b e xs))
        ∙ at,
    relink_last a q r ((b, e) ∷ xs) s,
  )

  pub relink_first :
      (p q r : Ptr) (xs : Cells) → Seg h p xs q → Seg (relink_prev h (first xs null) r) r xs q
  relink_first p q r [] s = tt
  relink_first p q r ((a, d) ∷ xs) (ne, out, at, s) =
      (ne, out, ground arith, frame h (relink_prev h a r) a q xs s (λ b i. ground arith))

  -- The last node, and the first, hold what the segment says.
  pub at_last :
      (p a d q : Ptr) (xs : Cells)
      → Seg h p ((a, d) ∷ xs) q
      → (e r : Ptr) × (h (last p ((a, d) ∷ xs)) ≡ some (node e q r))
  at_last p a d q [] (ne, out, at, s) = (d, p, at)
  at_last p a d q ((b, e) ∷ xs) (ne, out, at, s) = at_last a b e q xs s
