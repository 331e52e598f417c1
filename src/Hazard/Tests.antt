-- ===== src/Hazard/Tests.antt =====
-- Two threads' nodes and a list of three retired nodes, and the theorems there.
use izem.Prelude.{ℕ, ◌+◌, ◌≡◌, refl, true, some, none, List, [], ◌∷◌, ◌++◌, arith}
use izem.Prelude.Int.{pos}
use izem.Prelude.Family.{put}
use izem.Heap.{Ptr, null, Heap, Ensures}
use izem.SdList.{Node, node, SdList}
use izem.SdList.Segment.{Cells, IsList, handle}
use izem.Hazard.{LNode, Hazards, scan, retire}
use izem.Hazard.Cells.{kept, held}
use izem.Hazard.Scan.{Fresh, Scanned, scan-Scanned}
use izem.Hazard.Retire.{Retired, retire-Retired}

abbrev none_yet : Heap Node
none_yet a = none

abbrev retired_cells : Cells
retired_cells = (1, 10) ∷ (2, 20) ∷ (3, 30) ∷ []

abbrev heap : Heap Node
heap =
    put (put (put none_yet 1 (some (node 10 2 null))) 2 (some (node 20 3 1))) 3
      (some (node 30 null 2))

abbrev empty_list : SdList
empty_list = record { head = null; tail = null; length = pos 0 }

abbrev two_nodes : List LNode
two_nodes =
    record { place = 50; hzdptr0 = 20; hzdptr1 = null; active = true; rlist = empty_list }
    ∷ record { place = 60; hzdptr0 = 7; hzdptr1 = 40; active = true; rlist = empty_list }
    ∷ []

abbrev hazards : Hazards
hazards = record { lnodes = two_nodes; count = 2 }

abbrev fresh : ℕ → Ptr
fresh k = 100 + k

retired-IsList : IsList heap (handle retired_cells) retired_cells
retired-IsList = record {
  same = refl;
  chain = (omega arith, refl, refl, (omega arith, refl, refl, (omega arith, refl, refl, tt)));
}

fresh-Fresh : Fresh fresh heap 0
fresh-Fresh = record {
  good = λ i le. omega arith;
  new = λ i le. ground arith;
  distinct = λ i j e. omega arith;
}

-- Only the node that is held stays.
kept_run : kept (held fresh 0 two_nodes) retired_cells ≡ (2, 20) ∷ []
kept_run = refl

scan-Scanned_example :
    Ensures
      (Scanned heap two_nodes retired_cells)
      (scan 9 fresh two_nodes (handle retired_cells) heap)
scan-Scanned_example =
    scan-Scanned 9 heap fresh two_nodes (handle retired_cells) retired_cells fresh-Fresh
      retired-IsList (omega arith) (omega arith)

retire-Retired_example :
    Ensures
      (Retired hazards (retired_cells ++ (100, 40) ∷ []))
      (retire 9 fresh (λ i j k. 0) hazards (handle retired_cells) 40 heap)
retire-Retired_example =
    retire-Retired 9 heap fresh (λ i j k. 0) hazards (handle retired_cells) retired_cells 40
      fresh-Fresh retired-IsList (refl, (refl, tt)) refl (omega arith) (omega arith) (omega arith)
