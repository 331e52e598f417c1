-- ===== src/Lock/Hmcs/Destroy/Tests.antt =====
-- Eight hardware threads, in pairs and in groups of four.
use native.Mathlib.Nat.{dvd_of_mod-eq-zero}
use izem.Prelude.{ℕ, ◌≡◌, refl, List, [], ◌∷◌, arith}
use izem.Lock.Hmcs.Hierarchy.{total_locks, parent_links, leaf_place}
use izem.Lock.Hmcs.Hierarchy.Places.{Regular}
use izem.Lock.Hmcs.Hierarchy.Total.{Doubling}
use izem.Lock.Hmcs.Free.{found, free_lock, mark_node}
use izem.Lock.Hmcs.Destroy.{parents_after, leaf_nodes, destroy}
use izem.Lock.Hmcs.Destroy.Freed.{AllFreed, destroy-AllFreed}

abbrev groups : List ℕ
groups = 2 ∷ 4 ∷ 8 ∷ []

groups-Regular : Regular 8 groups
groups-Regular = (
  omega arith,
  dvd_of_mod-eq-zero 2 refl,
  dvd_of_mod-eq-zero 2 refl,
  (
    omega arith,
    dvd_of_mod-eq-zero 4 refl,
    dvd_of_mod-eq-zero 4 refl,
    (omega arith, dvd_of_mod-eq-zero 8 refl),
  ),
)

groups-Doubling : Doubling 8 groups
groups-Doubling = (omega arith, omega arith, (omega arith, omega arith, (omega arith, omega arith)))

run_destroy : destroy 8 groups 8 ≡ found (0 ∷ 4 ∷ 6 ∷ 1 ∷ 2 ∷ 5 ∷ 3 ∷ [])
unfolding destroy free_lock mark_node parent_links leaf_place
run_destroy = refl

destroy-AllFreed_example :
    AllFreed (parents_after 8 groups 8) (leaf_nodes 8 groups 8 0) (destroy 8 groups 8)
unfolding total_locks
destroy-AllFreed_example =
    destroy-AllFreed 8 2 (4 ∷ 8 ∷ []) groups-Regular groups-Doubling 8 (omega arith)
