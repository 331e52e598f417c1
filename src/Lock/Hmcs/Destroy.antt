-- ===== src/Lock/Hmcs/Destroy.antt =====
-- src/lock/zm_hmcs.c, `zm_hmcs_destroy` on the tree that `new_lock` has made: a node is known by its
-- place in `lock_locations`.
pub mod Links
pub mod Freed
mod Tests
use izem.Prelude.{ℕ, zero, suc, Option, none, some, List, [], ◌∷◌}
use izem.Prelude.Family.{put}
use izem.Lock.Hmcs.Hierarchy.{parent_links, leaf_place}
use izem.Lock.Hmcs.Free.{Outcome, free_lock}

-- The assignments to `parent`, in their order.
pub set_parents : List (ℕ × ℕ) → (ℕ → Option ℕ) → (ℕ → Option ℕ)
set_parents [] parent = parent
set_parents ((node, above) ∷ links) parent = set_parents links (put parent node (some above))

module _ (max_threads : ℕ) (participants : List ℕ) where
  -- `parent` of every node after the passes of the first `threads` threads
  pub parents_after : (threads : ℕ) → (ℕ → Option ℕ)
  unfolding set_parents
  parents_after zero = λ _. none
  parents_after (suc tid) =
      set_parents (parent_links max_threads tid participants 0) (parents_after tid)

  -- `cur_node` of the leaves of `threads` threads from `tid` on
  pub leaf_nodes : (threads tid : ℕ) → List ℕ
  leaf_nodes zero tid = []
  leaf_nodes (suc threads) tid =
      leaf_place max_threads tid participants ∷ leaf_nodes threads (suc tid)

  pub destroy : (fuel : ℕ) → Outcome
  unfolding parents_after leaf_nodes
  destroy fuel = free_lock (parents_after max_threads) max_threads fuel (leaf_nodes max_threads 0)
