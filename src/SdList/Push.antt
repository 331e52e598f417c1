-- ===== src/SdList/Push.antt =====
-- `zm_sdlist_init`, `zm_sdlist_push_back` and `zm_sdlist_pop_front`.
use izem.Prelude.{
  ℕ, suc, ◌≡◌, ◌≢◌, refl, true, false, none, some, [], ◌∷◌, ◌++◌, arith, ◌==◌, length,
  length-append, ap,
}
use izem.Prelude.Int.{pos, negsuc, pos_zero_pred, ◌+ℤ◌, ◌-ℤ◌, pos_suc, pos_pred}
use izem.Prelude.Family.{put}
use izem.Heap.{Ptr, null, Heap, ok, Ensures, load-ok, modify-ok, free-ok}
use izem.SdList.{Node, node, SdList, push_back, pop_front}
use izem.SdList.Segment.{
  Cells, has, last, Seg, IsList, handle, SameOutside, last-append, has-last, frame, join,
  Seg-ne_null, not-has_of_none, relink_next, relink_prev, relink_last, at_last, ne_of_has,
  has-append,
}

-- The heap after a push behind the node `t`, which held the data `e`.
abbrev pushed : Heap Node → Ptr → Ptr → Ptr → Ptr → Ptr → Heap Node
pushed h t e r fresh d =
    put (put (put h fresh (some (node d null null))) t (some (node e fresh r))) fresh
      (some (node d null t))

push-run :
    (h : Heap Node) (l : SdList) (fresh d e r : Ptr)
    → l.tail ≢ null
    → fresh ≢ null
    → fresh ≢ l.tail
    → h l.tail ≡ some (node e null r)
    → push_back fresh l d h
      ≡ ok (record l { tail = fresh; length = l.length +ℤ pos 1 }) (pushed h l.tail e r fresh d)
unfolding push_back
push-run h l fresh d e r ne ne' apart at =
    let h1 = put h fresh (some (node d null null)) in
    let e1 =
      modify-ok h1 l.tail (node e null r) (λ n. record n { next = fresh }) ne (ground arith) in
    let h2 = put h1 l.tail (some (node e fresh r)) in
    let e2 =
      modify-ok h2 fresh (node d null null) (λ n. record n { prev = l.tail }) ne' (ground arith) in
    let busy : (l.tail == null) ≡ false = ground arith in rw (busy, e1, e2)

pushed-Seg :
    (h : Heap Node) (xs : Cells) (fresh d e r : Ptr)
    → Seg h null xs null
    → last null xs ≢ null
    → fresh ≢ null
    → has fresh xs ≡ false
    → fresh ≢ last null xs
    → h (last null xs) ≡ some (node e null r)
    → Seg (pushed h (last null xs) e r fresh d) null (xs ++ (fresh, d) ∷ []) null
pushed-Seg h xs fresh d e r chain t_ne ne out apart at =
    let t = last null xs in
    join (pushed h t e r fresh d) null null xs ((fresh, d) ∷ [])
      (frame (relink_next h t fresh) (pushed h t e r fresh d) null fresh xs
        (relink_last h null null fresh xs chain) (λ a i. ground (arith, i, out)))
      (ne, refl, ground arith, tt) (λ a i. ground (arith, i, out))

pushed_same :
    (h : Heap Node) (xs : Cells) (fresh d e r : Ptr)
    → has (last null xs) xs ≡ true
    → SameOutside (xs ++ (fresh, d) ∷ []) h (pushed h (last null xs) e r fresh d)
pushed_same h xs fresh d e r inside c o =
    let t = last null xs in
    let both = has-append c xs ((fresh, d) ∷ []) in
    let out : has c xs ≡ false = ground arith in
    let c_ne : c ≢ t = ne_of_has c t xs out inside in
    let c_ne' : c ≢ fresh = ground arith in ground arith

-- `zm_sdlist_push_back`, at an unused address, puts the data behind the list and writes only the
-- new node and the list's own.
pub push_back-append :
    (h : Heap Node) (l : SdList) (xs : Cells) (fresh d : Ptr)
    → IsList h l xs
    → fresh ≢ null
    → h fresh ≡ none
    → Ensures
        (λ l' g. IsList g l' (xs ++ (fresh, d) ∷ []) × SameOutside (xs ++ (fresh, d) ∷ []) h g)
        (push_back fresh l d h)
unfolding push_back
push_back-append h l [] fresh d is ne unused = rw is.same (
  record { same = rw (pos_suc 0) refl; chain = (ne, refl, ground arith, tt) },
  λ a o. ground arith,
)
push_back-append h l ((a, b) ∷ xs) fresh d is ne unused =
    let whole = (a, b) ∷ xs in
    let t = last null whole in
    let (e, r, at) = at_last h null a b null xs is.chain in
    let out = not-has_of_none h null null fresh whole is.chain unused in
    let inside = has-last null a b xs in
    let t_ne = Seg-ne_null h null null t whole is.chain inside in
    let apart = ne_of_has fresh t whole out inside in
    rw (is.same, push-run h (handle whole) fresh d e r t_ne ne apart at)
      (
        record {
          same =
              rw
                (
                  last-append a xs ((fresh, d) ∷ []),
                  length-append xs ((fresh, d) ∷ []),
                  pos_suc (length whole),
                )
                (ap (λ (n : ℕ). record { head = a; tail = fresh; length = pos (suc n) })
                  (omega arith));
          chain = pushed-Seg h whole fresh d e r is.chain t_ne ne out apart at;
        },
        pushed_same h whole fresh d e r inside,
      )

-- The heap after a pop of the node `a`, with `b` the next one.
abbrev popped : Heap Node → Ptr → Ptr → Heap Node
popped h a b = put (relink_prev h b null) a none

pop-run :
    (h : Heap Node) (l : SdList) (d b e q : Ptr)
    → l.head ≢ null
    → b ≢ null
    → l.head ≢ b
    → h l.head ≡ some (node d b null)
    → h b ≡ some (node e q l.head)
    → pop_front l h
      ≡ ok
          (d, record l { head = b; length = l.length -ℤ pos 1 })
          (put (put h b (some (node e q null))) l.head none)
unfolding pop_front
pop-run h l d b e q ne b_ne apart at at' =
    let nz : (l.head == null) ≡ false = ground arith in
    let bz : (b == null) ≡ false = ground arith in
    let h1 = put h b (some (node e q null)) in
    let at1 : h1 l.head ≡ some (node d b null) = ground arith in
    rw (
      nz,
      load-ok h l.head _ ne at,
      bz,
      modify-ok h b _ (λ n. record n { prev = null }) b_ne at',
      load-ok h1 l.head _ ne at1,
      free-ok h1 l.head _ ne at1,
    )

-- `zm_sdlist_pop_front` returns the data of the first node, frees that node, leaves the rest of the
-- list, and writes nowhere else.
pub pop_front-cons :
    (h : Heap Node) (l : SdList) (a d : Ptr) (xs : Cells)
    → IsList h l ((a, d) ∷ xs)
    → Ensures
        (λ (out, l') g. (out ≡ d) × (g a ≡ none) × IsList g l' xs × SameOutside ((a, d) ∷ xs) h g)
        (pop_front l h)
unfolding pop_front
pop_front-cons h l a d [] is =
    let (ne, out, at, rest) = is.chain in
    let nz : (a == null) ≡ false = ground arith in
    rw (is.same, nz, load-ok h a _ ne at, load-ok h a _ ne at, free-ok h a _ ne at)
      (refl, ground arith, record { same = rw (pos_pred 0) refl; chain = tt }, ground arith)
pop_front-cons h l a d ((b, e) ∷ xs) is =
    let (ne, out, at, (b_ne, b_out, at', rest)) = is.chain in
    let apart : a ≢ b = ground arith in
    rw (is.same, pop-run h (handle ((a, d) ∷ (b, e) ∷ xs)) d b e _ ne b_ne apart at at')
      (
        refl,
        ground arith,
        record {
          same = rw (pos_pred (suc (length xs))) refl;
          chain = (
            b_ne,
            b_out,
            ground arith,
            frame h _ b null xs rest (λ c i. ground (arith, i, b_out, out)),
          );
        },
        λ c o. ground arith,
      )

-- On an empty list `zm_sdlist_pop_front` returns `NULL` and leaves the heap alone, but it counts
-- the list's length down: a further push makes a list of one node that says it has none.
pub pop_front-empty :
    (h : Heap Node) (l : SdList)
    → IsList h l []
    → pop_front l h ≡ ok (null, record l { length = negsuc 0 }) h
unfolding pop_front
pop_front-empty h l is = rw is.same (rw pos_zero_pred refl)
