-- ===== src/SdList/Tests.antt =====
-- A concrete list, and the theorems there.
use izem.Prelude.{ℕ, suc, ◌≡◌, ◌≢◌, refl, true, false, some, none, List, [], ◌∷◌, ◌++◌, arith}
use izem.Prelude.Int.{pos}
use izem.Prelude.Family.{put}
use izem.Heap.{Ptr, null, Heap, Ensures, ok, load, modify, free}
use izem.SdList.{Node, node, init, push_back, rmnode, remove, free_list}
use izem.SdList.Segment.{Cells, IsList, handle}
use izem.SdList.Search.{Erased, Freed, remove-erase, free_list-Freed}

abbrev none_yet : Heap Node
none_yet a = none

abbrev three : Cells
three = (1, 10) ∷ (2, 20) ∷ (3, 10) ∷ []

abbrev heap : Heap Node
heap =
    put (put (put none_yet 1 (some (node 10 2 null))) 2 (some (node 20 3 1))) 3
      (some (node 10 null 2))

three-IsList : IsList heap (handle three) three
three-IsList = record {
  same = refl;
  chain = (omega arith, refl, refl, (omega arith, refl, refl, (omega arith, refl, refl, tt)));
}

-- Three pushes on a new list build it, and a removal of 10 takes out the first node.
built :
    Ensures
      (λ r g. (r.0 ≡ true) × (r.1 ≡ handle ((2, 20) ∷ (3, 10) ∷ [])) × (g 1 ≡ none))
      (izem.Heap.and_then (push_back 1 init 10 none_yet) λ l g.
        izem.Heap.and_then
          (push_back 2 l 20 g)
          λ l g. izem.Heap.and_then (push_back 3 l 10 g) λ l g. remove 4 l 10 g)
unfolding init push_back remove rmnode load modify free izem.Prelude.Int.◌+ℤ◌ izem.Prelude.Int.◌-ℤ◌
built = (refl, refl, refl)

remove-erase_example : Ensures (Erased heap [] three 10) (remove 4 (handle three) 10 heap)
remove-erase_example = remove-erase 4 heap (handle three) three 10 three-IsList (omega arith)

free_list-Freed_example : Ensures (Freed heap three) (free_list 4 (handle three) heap)
free_list-Freed_example =
    free_list-Freed 4 heap (handle three) three three-IsList (omega arith) (omega arith)
