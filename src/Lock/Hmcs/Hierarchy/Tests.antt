-- ===== src/Lock/Hmcs/Hierarchy/Tests.antt =====
-- Eight hardware threads, in pairs and in groups of four.
use native.Mathlib.Nat.{dvd_of_mod-eq-zero}
use izem.Prelude.{ℕ, ◌≤◌, ◌<◌, ◌+◌, ◌≡◌, refl, List, [], ◌∷◌, arith, ◌==◌, if◌then◌else◌}
use izem.Lock.Hmcs.Hierarchy.{detect, participants, total_locks, locations, parent_links}
use izem.Lock.Hmcs.Hierarchy.Places.{Regular, All, Placed, locations_bound, parents-Placed}

abbrev nobjs_at : ℕ → ℕ
nobjs_at d = if d == 2 then 2 else 4

abbrev groups : List ℕ
groups = 2 ∷ 4 ∷ 8 ∷ []

run_participants : participants nobjs_at 8 3 5 ≡ groups
unfolding participants detect
run_participants = refl

-- Thread 4 leads a pair and a group of four.
run_locations : locations 8 4 groups 0 ≡ 2 ∷ 5 ∷ []
unfolding locations
run_locations = refl

run_parent_links : parent_links 8 4 groups 0 ≡ (2, 5) ∷ (5, 6) ∷ []
unfolding parent_links
run_parent_links = refl

groups-Regular : Regular 8 groups
groups-Regular = (
  omega arith,
  dvd_of_mod-eq-zero 2 refl,
  dvd_of_mod-eq-zero 2 refl,
  (
    omega arith,
    dvd_of_mod-eq-zero 4 refl,
    dvd_of_mod-eq-zero 4 refl,
    (omega arith, dvd_of_mod-eq-zero 8 refl),
  ),
)

locations_bound_example :
    All (λ x. (0 ≤ x) × (x < 0 + total_locks 8 groups)) (locations 8 4 groups 0)
locations_bound_example = locations_bound 8 4 groups 0 groups-Regular (omega arith)

parents-Placed_example : All (λ (x, y). Placed 8 groups 0 y) (parent_links 8 4 groups 0)
parents-Placed_example = parents-Placed 8 4 2 (4 ∷ 8 ∷ []) 0 groups-Regular (omega arith)
