-- ===== src/SdList/Remove.antt =====
-- `zm_sdlist_rmnode` and `zm_sdlist_remove`.
use izem.Prelude.{
  suc, ◌≡◌, ◌≢◌, inl, inr, refl, true, false, none, some, [], ◌∷◌, ◌++◌, arith, ◌==◌, if◌then◌else◌,
  length, length-append, ap, ◌∙◌, Bool-cases,
}
use mathlib.Core.List.{append-nil}
use izem.Prelude.Int.{pos, ◌-ℤ◌, pos_pred}
use izem.Prelude.Family.{put}
use izem.Heap.{Ptr, null, Heap, ok, pure, Ensures, load-ok, modify, modify-ok, free-ok}
use izem.SdList.{Node, node, SdList, unhook, rmnode}
use izem.SdList.Segment.{
  Cells, has, first, last, Seg, IsList, handle, SameOutside, Apart, has-append, last-append,
  has-last, frame, join, split, Seg-ne_null, relink_next, relink_prev, relink_next_other,
  relink_prev_other, relink_last, relink_first, at_last, ne_of_has,
}

relink_next-run :
    (h : Heap Node) (r q : Ptr)
    → (r ≢ null → (m : Node) × (h r ≡ some m))
    → (if r == null then pure tt else modify r (λ m. record m { next = q })) h
      ≡ ok tt (relink_next h r q)
relink_next-run h r q held = elim (Bool-cases (r == null)) [
  | inl none_ ↦ rw none_ refl
  | inr some_ ↦
      let ne : r ≢ null = ground arith in
      let (m, at) = held ne in
      rw (some_, at, modify-ok h r m (λ m. record m { next = q }) ne at) refl
]

relink_prev-run :
    (h : Heap Node) (q r : Ptr)
    → (q ≢ null → (m : Node) × (h q ≡ some m))
    → (if q == null then pure tt else modify q (λ m. record m { prev = r })) h
      ≡ ok tt (relink_prev h q r)
relink_prev-run h q r held = elim (Bool-cases (q == null)) [
  | inl none_ ↦ rw none_ refl
  | inr some_ ↦
      let ne : q ≢ null = ground arith in
      let (m, at) = held ne in
      rw (some_, at, modify-ok h q m (λ m. record m { prev = r }) ne at) refl
]

-- The heap after the removal of `p` between `r` and `q`.
abbrev unlinked : Heap Node → Ptr → Ptr → Ptr → Heap Node
unlinked h p q r = put (relink_prev (relink_next h r q) q r) p none

rmnode-run :
    (h : Heap Node) (l : SdList) (p d q r : Ptr)
    → p ≢ null
    → h p ≡ some (node d q r)
    → p ≢ q
    → p ≢ r
    → (r ≢ null → (m : Node) × (h r ≡ some m))
    → (q ≢ null → (m : Node) × (relink_next h r q q ≡ some m))
    → rmnode l p h ≡ ok (unhook l p (node d q r)) (unlinked h p q r)
unfolding rmnode
rmnode-run h l p d q r ne at p_q p_r held held' =
    let h1 = relink_next h r q in
    let h2 = relink_prev h1 q r in
    let at1 : h1 p ≡ some (node d q r) = relink_next_other h r q p p_r ∙ at in
    let at2 : h2 p ≡ some (node d q r) = relink_prev_other h1 q r p p_q ∙ at1 in
    rw
      (
        load-ok h p _ ne at,
        relink_next-run h r q held,
        load-ok h1 p _ ne at1,
        relink_prev-run h1 q r held',
        free-ok h2 p _ ne at2,
      )
      refl

ne_first : (c : Ptr) (ys : Cells) → c ≢ null → has c ys ≡ false → c ≢ first ys null
ne_first c [] ne out = ne
ne_first c ((b, e) ∷ ys) ne out = ground arith

ne_last : (c : Ptr) (xs ys : Cells) → c ≢ null → has c ys ≡ true → Apart xs ys → c ≢ last null xs
ne_last c [] ys ne i apart q = ne q
ne_last c ((b, e) ∷ xs) ys ne i apart q =
    cc (apart (last b xs) (has-last null b e xs), ap (λ x. has x ys) q)

unhook_head :
    (a d : Ptr) (zs ys : Cells)
    → has a zs ≡ false
    → (if a == first (zs ++ (a, d) ∷ ys) null
        then first ys null
        else first (zs ++ (a, d) ∷ ys) null)
      ≡ first (zs ++ ys) null
unhook_head a d [] ys o = ground arith
unhook_head a d ((b, e) ∷ zs) ys o = ground arith

unhook_tail :
    (a d : Ptr) (zs ys : Cells)
    → has a ys ≡ false
    → (if a == last null (zs ++ (a, d) ∷ ys) then last null zs else last null (zs ++ (a, d) ∷ ys))
      ≡ last null (zs ++ ys)
unhook_tail a d zs [] o = rw (last-append null zs ((a, d) ∷ []), append-nil zs) (ground arith)
unhook_tail a d zs ((b, e) ∷ ys) o =
    let i = has-last a b e ys in
    let ne = ne_of_has a (last b ys) ((b, e) ∷ ys) o i in
    rw (last-append null zs ((a, d) ∷ (b, e) ∷ ys), last-append null zs ((b, e) ∷ ys))
      (ground arith)

-- The writes of a removal go to nodes of the list.
back_in : (xs : Cells) → last null xs ≢ null → has (last null xs) xs ≡ true
back_in [] ne = absurd (ne refl)
back_in ((a, d) ∷ xs) ne = has-last null a d xs

front_in : (xs : Cells) → first xs null ≢ null → has (first xs null) xs ≡ true
front_in [] ne = absurd (ne refl)
front_in ((a, d) ∷ xs) ne = ground arith

unlinked_other :
    (h : Heap Node) (a q r c : Ptr)
    → c ≢ a
    → (q ≢ null → c ≢ q)
    → (r ≢ null → c ≢ r)
    → unlinked h a q r c ≡ h c
unlinked_other h a q r c c_a c_q c_r = ground arith

unlinked_same :
    (h : Heap Node) (xs ys : Cells) (a d : Ptr)
    → SameOutside (xs ++ (a, d) ∷ ys) h (unlinked h a (first ys null) (last null xs))
unlinked_same h xs ys a d c o =
    let e = has-append c xs ((a, d) ∷ ys) in
    let o_xs : has c xs ≡ false = ground arith in
    let o_ys : has c ys ≡ false = ground arith in
    unlinked_other h a (first ys null) (last null xs) c (ground arith)
      (λ ne. ne_of_has c _ ys o_ys (front_in ys ne)) (λ ne. ne_of_has c _ xs o_xs (back_in xs ne))

unlinked_freed :
    (h : Heap Node) (xs ys : Cells) (a d c : Ptr)
    → has c (xs ++ (a, d) ∷ ys) ≡ true
    → has c (xs ++ ys) ≡ false
    → unlinked h a (first ys null) (last null xs) c ≡ none
unlinked_freed h xs ys a d c i o =
    let e = has-append c xs ((a, d) ∷ ys) in
    let e' = has-append c xs ys in let is_a : c ≡ a = ground arith in ground arith

-- Taking a node out of a segment by relinking its neighbours.
module _ (h : Heap Node) (xs ys : Cells) (a d : Ptr)
    (whole : Seg h null (xs ++ (a, d) ∷ ys) null) where
  parts : Seg h null xs a × Seg h (last null xs) ((a, d) ∷ ys) null × Apart xs ((a, d) ∷ ys)
  parts = split h null null xs ((a, d) ∷ ys) whole

  disjoint_rest : Apart xs ys
  disjoint_rest c i = ground (arith, parts.2 c i)

  first_facts :
      (a ≢ null)
      × (has a ys ≡ false)
      × (h a ≡ some (node d (first ys null) (last null xs)))
      × Seg h a ys null
  first_facts = parts.1

  not_before : has a xs ≡ false
  not_before = elim (Bool-cases (has a xs)) [
    | inl i ↦ let o = parts.2 a i in absurd (ground arith)
    | inr o ↦ o
  ]

  abbrev relinked : Heap Node
  relinked = relink_next h (last null xs) (first ys null)

  a_ne_first : a ≢ first ys null
  a_ne_first = ne_first a ys first_facts.0 first_facts.1

  a_ne_last : a ≢ last null xs
  a_ne_last = ne_last a xs ((a, d) ∷ ys) first_facts.0 (ground arith) parts.2

  unlinked-Seg : Seg (unlinked h a (first ys null) (last null xs)) null (xs ++ ys) null
  unlinked-Seg =
      let q = first ys null in
      let r = last null xs in
      let g = unlinked h a q r in
      let (front, back, apart) = parts in
      let (ne, out, at, rest) = first_facts in
      let front1 = relink_last h null a q xs front in
      let front2 = frame relinked g null q xs front1 (λ c i.
        let c_ne = Seg-ne_null h null a c xs front i in
        let o = apart c i in
        let c_q = ne_first c ys c_ne (disjoint_rest c i) in
        let c_a : c ≢ a = ground arith in ground arith) in
      let rest1 = frame h relinked a null ys rest (λ c i.
        relink_next_other h r q c
          (ne_last c xs ys (Seg-ne_null h a null c ys rest i) i disjoint_rest)) in
      let rest2 = relink_first relinked a null r ys rest1 in
      let rest3 =
        frame (relink_prev relinked q r) g r null ys rest2
          (λ c i. let c_a : c ≢ a = ground (arith, i, out) in ground arith) in
      join g null null xs ys front2 rest3 disjoint_rest

  held_last : last null xs ≢ null → (m : Node) × (h (last null xs) ≡ some m)
  held_last = held xs parts.0
    where
      held :
          (zs : Cells)
          → Seg h null zs a
          → last null zs ≢ null
          → (m : Node) × (h (last null zs) ≡ some m)
      held [] s ne = absurd (ne refl)
      held ((b, e) ∷ zs) s ne = let (e', r, at) = at_last h null b e a zs s in (_, at)

  held_first : first ys null ≢ null → (m : Node) × (relinked (first ys null) ≡ some m)
  held_first ne = held ys first_facts.3 (λ c i. disjoint_rest c i) ne
    where
      held :
          (zs : Cells)
          → Seg h a zs null
          → Apart xs zs
          → first zs null ≢ null
          → (m : Node) × (relink_next h (last null xs) (first ys null) (first zs null) ≡ some m)
      held [] s apart ne = absurd (ne refl)
      held ((b, e) ∷ zs) s apart ne = (
        _,
        relink_next_other h (last null xs) (first ys null) b
              (ne_last b xs ((b, e) ∷ zs) s.0 (ground arith) apart)
            ∙ s.2,
      )

  unhook-handle :
      unhook (handle (xs ++ (a, d) ∷ ys)) a (node d (first ys null) (last null xs))
      ≡ handle (xs ++ ys)
  unfolding unhook
  unhook-handle =
      let p = unhook_head a d xs ys not_before in
      let q = unhook_tail a d xs ys first_facts.1 in
      let n : length (xs ++ (a, d) ∷ ys) ≡ suc (length (xs ++ ys)) =
        omega (arith, length-append {0} xs ((a, d) ∷ ys), length-append {0} xs ys) in
      let r : pos (length (xs ++ (a, d) ∷ ys)) -ℤ pos 1 ≡ pos (length (xs ++ ys)) =
        rw n (pos_pred (length (xs ++ ys))) in
      λ i. record { head = p i; tail = q i; length = r i }

-- `g` holds the list `zs`, differs from `h` at most at the nodes `ws`, and has no node that is one
-- of `ws` but not of `zs`.
abbrev pub Shrunk : Heap Node → Cells → SdList → Cells → Heap Node → Type 0
Shrunk h ws l zs g =
    IsList g l zs
    × SameOutside ws h g
    × ((c : Ptr) → has c ws ≡ true → has c zs ≡ false → g c ≡ none)

-- `zm_sdlist_rmnode` of a node of the list takes it out, frees it, and writes nowhere else.
pub rmnode_lem :
    (h : Heap Node) (l : SdList) (xs ys : Cells) (a d : Ptr)
    → IsList h l (xs ++ (a, d) ∷ ys)
    → Ensures (λ l' g. Shrunk h (xs ++ (a, d) ∷ ys) l' (xs ++ ys) g) (rmnode l a h)
rmnode_lem h l xs ys a d is =
    let whole = is.chain in
    let q = first ys null in
    let r = last null xs in
    let (ne, out, at, rest) = first_facts h xs ys a d whole in
    let run =
      rmnode-run h (handle (xs ++ (a, d) ∷ ys)) a d q r ne at (a_ne_first h xs ys a d whole)
        (a_ne_last h xs ys a d whole) (held_last h xs ys a d whole)
        (held_first h xs ys a d whole) in
    rw (is.same, run)
      (
        record { same = unhook-handle h xs ys a d whole; chain = unlinked-Seg h xs ys a d whole },
        λ c o. unlinked_same h xs ys a d c o,
        λ c i o. unlinked_freed h xs ys a d c i o,
      )
