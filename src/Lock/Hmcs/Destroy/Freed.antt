-- ===== src/Lock/Hmcs/Destroy/Freed.antt =====
-- What `zm_hmcs_destroy` of zm_hmcs.c frees of the tree that `new_lock` has made.
use izem.Prelude.{
  ℕ, zero, suc, ◌-◌, ◌*◌, ◌≤◌, ◌<◌, ◌≡◌, refl, true, Option, List, [], ◌∷◌, arith, ℕ_discrete,
  member, length, Distinct, length-Distinct,
}
use izem.Lock.Hmcs.Hierarchy.{total_locks}
use izem.Lock.Hmcs.Hierarchy.Places.{Regular}
use izem.Lock.Hmcs.Hierarchy.Total.{Doubling, total_locks_bound}
use izem.Lock.Hmcs.Free.{Outcome, found, aborted, out_of_fuel}
use izem.Lock.Hmcs.Free.Walk.{Reached, at_leaf, above, SomeNodes}
use izem.Lock.Hmcs.Free.Freed.{Destroyed, freed, too_many, free_lock-Destroyed}
use izem.Lock.Hmcs.Destroy.{parents_after, leaf_nodes, destroy}
use izem.Lock.Hmcs.Destroy.Links.{parents-Up, leaves_bound}

-- The numbers below `n`.
below : ℕ → List ℕ
below zero = []
below (suc n) = n ∷ below n

length-below : (n : ℕ) → length (below n) ≡ n
unfolding below
length-below zero = refl
length-below (suc n) = omega (arith, length-below n)

member-below : (n c : ℕ) → c < n → member c (below n) ≡ true
unfolding below
member-below zero c lt = absurd (omega (arith, lt))
member-below (suc n) c lt = elim (ℕ_discrete c n) [
  | yes same ↦ ground (arith, same)
  | no other ↦ ground (arith, member-below n c (omega (arith, lt, other)))
]

-- The outcome: exactly the nodes of the tree are freed, each once.
abbrev pub AllFreed : (ℕ → Option ℕ) → List ℕ → Outcome → Type 0
AllFreed parent starts (found nodes) =
    Distinct nodes
    × ((c : ℕ) → member c nodes ≡ true → Reached parent starts c)
    × ((c : ℕ) → Reached parent starts c → member c nodes ≡ true)
AllFreed parent starts aborted = ⊥
AllFreed parent starts out_of_fuel = ⊥

module _ (n p : ℕ) (ps : List ℕ) (regular : Regular n (p ∷ ps)) where
  abbrev parent : ℕ → Option ℕ
  parent = parents_after n (p ∷ ps) n

  abbrev starts : List ℕ
  starts = leaf_nodes n (p ∷ ps) n 0

  -- Every node of the tree is in the table.
  in_table : (c : ℕ) → Reached parent starts c → c < total_locks n (p ∷ ps)
  in_table c (at_leaf _ i) = leaves_bound n p ps regular n 0 (omega arith) c i
  in_table c (above q _ r e) = (parents-Up n p ps regular n (omega arith) q c e).1

  few : (nodes : List ℕ) → SomeNodes parent starts nodes → length nodes ≤ total_locks n (p ∷ ps)
  few nodes some_nodes =
      let le =
        length-Distinct nodes (below (total_locks n (p ∷ ps))) some_nodes.distinct
          (λ c i. member-below _ c (in_table c (some_nodes.reached c i))) in
      omega (arith, le, length-below (total_locks n (p ∷ ps)))

  room-AllFreed :
      (r : Outcome)
      → total_locks n (p ∷ ps) < 2 * n
      → Destroyed parent starts n r
      → AllFreed parent starts r
  room-AllFreed _ room (freed nodes s all _) = (s.distinct, s.reached, all)
  room-AllFreed _ room (too_many nodes s many) = absurd (omega (arith, few nodes s, room, many))

  -- On a regular machine whose groups at least double from level to level, with more fuel than the
  -- table has entries, `zm_hmcs_destroy` on the tree that `new_lock` has made ends without a failed
  -- assertion, and it frees exactly the nodes from the leaves of the threads up, each once.
  pub destroy-AllFreed :
      Doubling n (p ∷ ps)
      → (fuel : ℕ) → total_locks n (p ∷ ps) < fuel
      → AllFreed parent starts (destroy n (p ∷ ps) fuel)
  unfolding destroy
  destroy-AllFreed doubling fuel enough =
      let room = total_locks_bound n p ps doubling in
      room-AllFreed _ room (
        free_lock-Destroyed parent starts n (λ c. total_locks n (p ∷ ps) - c)
          (λ c q e. (let up = parents-Up n p ps regular n (omega arith) c q e in omega (arith, up)))
          fuel (λ s i. omega (arith, enough)) (omega (arith, room)))
