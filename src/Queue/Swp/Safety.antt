-- ===== src/Queue/Swp/Safety.antt =====
-- What zm_swpqueue.c guarantees in every reachable state.
use izem.Prelude.{
  ℕ, suc, ◌≤◌, ◌<◌, ◌≡◌, ◌≢◌, ◌⊎◌, inl, inr, Bool, true, false, some, arith, ℕ_discrete,
}
use izem.Interleave.{State, Reach, Any}
use izem.Queue.Swp.{Ptr, null, Swp, Pc, at_head, got, touches, strong_told, Move, init}
use izem.Queue.Swp.Invariant.{linked_from}
use izem.Queue.Swp.Keeps.{num, Reach-Inv}

-- What the answer `b` says, where `k` is the number of the last node when the tail was read.
abbrev pub Answers : Swp → Bool → ℕ → Type 0
Answers m true k = k ≡ m.left
Answers m false k = m.left < m.entered

module _ {n : ℕ} {p : Ptr} (value next : Ptr → Ptr) {s : State Swp Pc} (ne : p ≢ null)
    (run : Reach Move Any n (init p value next) s) where
  open s use {mem, pc}

  -- First in, first out, from any contents of memory and with any number of producers: when a
  -- dequeue has taken its data, it is the data of the enqueue whose swap was the `left`-th, where
  -- `left` counts the dequeues that moved the head, this one included; so the data come out in the
  -- order of the swaps, each once.
  pub swp_fifo :
      (i : ℕ) (h v : Ptr)
      → pc i ≡ got h v
      → (v ≡ mem.given mem.left) × (0 < mem.left) × (mem.left ≤ mem.entered)
  swp_fifo i h v e =
      let inv = Reach-Inv value next ne run in ground (arith, inv.locals i, inv.ordered)

  -- No thread is about to read, write or free a node that is not allocated: the consumer never
  -- frees a node that a producer is still to link onwards.
  pub swp_no_use_after_free : (i : ℕ) (a : Ptr) → touches (pc i) a ≡ true → mem.live a ≡ true
  swp_no_use_after_free i a t =
      let inv = Reach-Inv value next ne run in
      ground (
        arith,
        inv.locals i,
        inv.ordered,
        inv.stored mem.left,
        inv.private_live i a,
        inv.stored (num (pc i)),
      )

  -- A dequeue that reads `NULL` behind the head answers empty rightly: either all nodes that were
  -- swapped in have left, or the next one is not linked yet and some thread is about to link it.
  pub swp_empty :
      (i : ℕ) (h : Ptr)
      → pc i ≡ at_head h
      → mem.next h ≡ null
      → (mem.left ≡ mem.entered) ⊎ ((j : ℕ) × (linked_from (pc j) ≡ some mem.left))
  swp_empty i h e z =
      let inv = Reach-Inv value next ne run in
      let o = inv.ordered in
      elim (ℕ_discrete mem.left mem.entered) [
        | yes all ↦ inl all
        | no some_left ↦ elim (inv.chain mem.left (omega arith) (omega arith)) [
          | inl linked ↦ absurd (ground (arith, inv.locals i, inv.stored (suc mem.left)))
          | inr (unlinked, linker) ↦ inr linker
        ]
      ]

  -- An answer of `zm_swpqueue_isempty_strong`, with other threads moving between its reads: yes says
  -- that all nodes that had been swapped in when it read the tail have left the queue; no says that
  -- some node has been swapped in and has not left.
  pub swp_isempty_strong : (i : ℕ) (b : Bool) (k : ℕ) → pc i ≡ strong_told b k → Answers mem b k
  swp_isempty_strong i true k e =
      let inv = Reach-Inv value next ne run in ground (arith, inv.locals i)
  swp_isempty_strong i false k e =
      let inv = Reach-Inv value next ne run in ground (arith, inv.locals i)
