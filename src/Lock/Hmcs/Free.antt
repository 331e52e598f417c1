-- ===== src/Lock/Hmcs/Free.antt =====
-- src/lock/zm_hmcs.c, `free_lock` and `search_nodes_rec`: which nodes of the tree are freed. The
-- walk to the root runs on fuel, and one round more than the depth of a leaf's node is enough.
pub mod Walk
pub mod Freed
mod Tests
use izem.Prelude.{
  ℕ, zero, suc, ◌*◌, Bool, Option, none, some, List, [], ◌∷◌, ◌++◌, length, member, ltb,
  if◌then◌else◌,
}

pub data Outcome : Type 0 where
  found : (nodes : List ℕ) → Outcome  -- `nodes_to_free`, `num_ptrs` of them
  aborted : Outcome  -- the assertion failed
  out_of_fuel : Outcome

-- A node is put in the table when it is not yet there: `none` where the assertion fails.
unfoldable pub mark_node : (max_threads node : ℕ) (nodes : List ℕ) → Option (List ℕ)
mark_node max_threads node nodes =
    if member node nodes
    then some nodes
    else if ltb (suc (length nodes)) (2 * max_threads)
    then some (nodes ++ node ∷ [])
    else none

module _ (parent : ℕ → Option ℕ) (max_threads : ℕ) where
  -- `search_nodes_rec`
  pub search : (fuel : ℕ) → (node : Option ℕ) → (nodes : List ℕ) → Outcome
  search fuel none nodes = found nodes
  search zero (some p) nodes = out_of_fuel
  search (suc fuel) (some p) nodes = elim (mark_node max_threads p nodes) [
    | none ↦ aborted
    | some more ↦ search fuel (parent p) more
  ]

  -- The loop over the threads, with `cur_node` of each one's leaf.
  pub search_all : (fuel : ℕ) → (starts : List ℕ) → (nodes : List ℕ) → Outcome
  unfolding search
  search_all fuel [] nodes = found nodes
  search_all fuel (s ∷ starts) nodes = elim (search fuel (some s) nodes) [
    | found more ↦ search_all fuel starts more
    | aborted ↦ aborted
    | out_of_fuel ↦ out_of_fuel
  ]

  -- The nodes that `free_lock` frees, in their order.
  unfoldable pub free_lock : (fuel : ℕ) → (starts : List ℕ) → Outcome
  unfolding search_all
  free_lock fuel starts = search_all fuel starts []
