-- ===== src/SdList/Search.antt =====
-- `zm_sdlist_remove`, which looks for data, and `zm_sdlist_free`.
use izem.Prelude.{
  ℕ, zero, suc, ◌<◌, ◌≡◌, ◌≢◌, inl, inr, refl, Bool, true, false, ◌||◌, none, [], ◌∷◌, ◌++◌, arith,
  ◌==◌, if◌then◌else◌, length, Bool-cases, sym, ap, ◌∙◌,
}
use mathlib.Core.Path.{subst}
use mathlib.Core.List.{append_assoc}
use izem.Prelude.Int.{negsuc}
use izem.Heap.{Ptr, null, Heap, Ensures, Ensures-mono, Ensures-bind, load-ok}
use izem.SdList.{Node, SdList, rmnode, remove_loop, remove, free_list, pop_front}
use izem.SdList.Segment.{Cells, has, first, IsList, SameOutside, split}
use izem.SdList.Push.{pop_front-cons, pop_front-empty}
use izem.SdList.Remove.{Shrunk, rmnode_lem}

-- Is there a cell with the data `d`?
abbrev pub contains : Cells → Ptr → Bool
contains [] d = false
contains ((a, e) ∷ xs) d = (e == d) || contains xs d

-- The list without its first cell with the data `d`.
abbrev pub erase : Cells → Ptr → Cells
erase [] d = []
erase ((a, e) ∷ xs) d = if e == d then xs else (a, e) ∷ erase xs d

abbrev pub Erased : Heap Node → Cells → Cells → Ptr → Bool × SdList → Heap Node → Type 0
Erased h xs ys d (found, l) g = (found ≡ contains ys d) × Shrunk h (xs ++ ys) l (xs ++ erase ys d) g

-- The loop, with the cells `xs` behind it and `ys` ahead.
remove_loop_lem :
    (fuel : ℕ) (h : Heap Node) (l : SdList) (xs ys : Cells) (d : Ptr)
    → IsList h l (xs ++ ys)
    → length ys < fuel
    → Ensures (Erased h xs ys d) (remove_loop fuel l (first ys null) d h)
unfolding remove_loop
remove_loop_lem zero h l xs ys d is enough = absurd (omega arith)
remove_loop_lem (suc fuel) h l xs [] d is enough =
    (refl, (is, λ c o. refl, λ c i o. ground (arith, i, o)))
remove_loop_lem (suc fuel) h l xs ((a, e) ∷ ys) d is enough =
    let (front, (ne, out, at, rest), apart) = split h null null xs ((a, e) ∷ ys) is.chain in
    let nz : (a == null) ≡ false = ground arith in
    rw (nz, load-ok h a _ ne at)
      (elim (Bool-cases (e == d)) [
        | inl hit ↦ rw hit (
            Ensures-bind _ (Erased h xs ((a, e) ∷ ys) d) (rmnode l a h) _
              (λ l' g shrunk. rw hit (refl, shrunk)) (rmnode_lem h l xs ys a e is))
        | inr miss ↦ rw miss (
            Ensures-mono (Erased h (xs ++ (a, e) ∷ []) ys d) (Erased h xs ((a, e) ∷ ys) d)
              (remove_loop fuel l (first ys null) d h)
              (λ r g p. rw miss (
                p.0,
                (rw (append_assoc xs ((a, e) ∷ []) ys, append_assoc xs ((a, e) ∷ []) (erase ys d))
                    at p.1),
              ))
              (remove_loop_lem fuel h l (xs ++ (a, e) ∷ []) ys d
                (subst (IsList h l) (sym (append_assoc xs ((a, e) ∷ []) ys)) is) (omega arith)))
      ])

-- `zm_sdlist_remove`, with fuel above the length, answers whether a node holds the data, takes out
-- the first one that does and frees it, and writes nowhere outside the list.
pub remove-erase :
    (fuel : ℕ) (h : Heap Node) (l : SdList) (xs : Cells) (d : Ptr)
    → IsList h l xs
    → length xs < fuel
    → Ensures (Erased h [] xs d) (remove fuel l d h)
unfolding remove
remove-erase fuel h l xs d is enough =
    subst (λ p. Ensures (Erased h [] xs d) (remove_loop fuel l p d h))
      (sym (ap (λ (m : SdList). m.head) is.same)) (remove_loop_lem fuel h l [] xs d is enough)

-- No node of the list holds `NULL` as its data.
abbrev pub NoNull : Cells → Type 0
NoNull [] = Unit
NoNull ((a, d) ∷ xs) = (d ≢ null) × NoNull xs

abbrev pub Freed : Heap Node → Cells → SdList → Heap Node → Type 0
Freed h xs l g =
    (l ≡ record { head = null; tail = null; length = negsuc 0 })
    × ((a : Ptr) → has a xs ≡ true → g a ≡ none)
    × SameOutside xs h g

freed_all :
    (h g f : Heap Node) (a d : Ptr) (xs : Cells)
    → g a ≡ none
    → ((c : Ptr) → has c xs ≡ true → f c ≡ none)
    → SameOutside xs g f
    → (c : Ptr) → has c ((a, d) ∷ xs) ≡ true
    → f c ≡ none
freed_all h g f a d xs gone gone' same c i = elim (Bool-cases (has c xs)) [
  | inl later ↦ gone' c later
  | inr now ↦ let is_a : c ≡ a = ground arith in let e = same c now in ground arith
]

-- `zm_sdlist_free`, with fuel above the length, frees every node of a list whose data are not
-- `NULL`, and writes nowhere else; the handle is left empty but with the length -1.
pub free_list-Freed :
    (fuel : ℕ) (h : Heap Node) (l : SdList) (xs : Cells)
    → IsList h l xs
    → NoNull xs
    → length xs < fuel
    → Ensures (Freed h xs) (free_list fuel l h)
unfolding free_list
free_list-Freed zero h l xs is data_ enough = absurd (omega arith)
free_list-Freed (suc fuel) h l [] is data_ enough =
    rw (pop_front-empty h l is)
      (ap (λ (m : SdList). record m { length = negsuc 0 }) is.same, λ a i. cc, λ a o. refl)
free_list-Freed (suc fuel) h l ((a, d) ∷ xs) is (ne, data_) enough =
    Ensures-bind _ (Freed h ((a, d) ∷ xs)) (pop_front l h) _
      (λ r g (out, gone, is', same).
        let nz : (r.0 == null) ≡ false = ground arith in
        rw nz (
          Ensures-mono (Freed g xs) (Freed h ((a, d) ∷ xs)) (free_list fuel r.1 g)
            (λ l' f (empty, gone', same'). (
              empty,
              λ c i. freed_all h g f a d xs gone gone' same' c i,
              λ c o. same' c (ground arith) ∙ same c o,
            ))
            (free_list-Freed fuel g r.1 xs is' data_ (omega arith))))
      (pop_front-cons h l a d xs is)
