-- ===== src/Lock/Hmcs/Free/Tests.antt =====
-- The trees of two machines, from what hwloc answers to what freeing the tree does.
use izem.Prelude.{ℕ, ◌≡◌, refl, Option, none, some, List, [], ◌∷◌, ◌==◌, ltb, if◌then◌else◌, arith}
use izem.Lock.Hmcs.Hierarchy.{participants, parent_links}
use izem.Lock.Hmcs.Free.{found, aborted, mark_node, free_lock}
use izem.Lock.Hmcs.Free.Freed.{Destroyed, free_lock-Destroyed}

-- Four hardware threads on two cores: two nodes, and the root over them.
abbrev starts : List ℕ
starts = 0 ∷ 0 ∷ 1 ∷ 1 ∷ []

abbrev parent : ℕ → Option ℕ
parent p = if ltb p 2 then some 2 else none

free_two_groups : free_lock parent 4 3 starts ≡ found (0 ∷ 2 ∷ 1 ∷ [])
unfolding free_lock mark_node
free_two_groups = refl

-- Two cores of one package: a node for each core, one for the package and one for the machine.
abbrev nobjs_at : ℕ → ℕ
nobjs_at d = if d == 3 then 2 else 1

abbrev parent_two : ℕ → Option ℕ
parent_two p = if ltb p 2 then some 2 else if p == 2 then some 3 else none

levels_two_cores : participants nobjs_at 2 3 5 ≡ 1 ∷ 2 ∷ 2 ∷ []
unfolding participants
levels_two_cores = refl

links_two_cores : parent_links 2 0 (1 ∷ 2 ∷ 2 ∷ []) 0 ≡ (0, 2) ∷ (2, 3) ∷ []
unfolding parent_links
links_two_cores = refl

-- There the assertion fails.
free_two_cores : free_lock parent_two 2 4 (0 ∷ 1 ∷ []) ≡ aborted
unfolding free_lock mark_node
free_two_cores = refl

free_lock-Destroyed_example : Destroyed parent starts 4 (free_lock parent 4 3 starts)
free_lock-Destroyed_example =
    free_lock-Destroyed parent starts 4 (λ p. if ltb p 2 then 1 else 0) (λ p q e. ground arith) 3
      (λ s i. ground arith) (omega arith)
