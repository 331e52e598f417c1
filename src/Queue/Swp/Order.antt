-- ===== src/Queue/Swp/Order.antt =====
-- Every access of zm_swpqueue.c keeps the nodes in the order of the swaps.
use izem.Prelude.{ℕ, ◌≤◌, ◌<◌, ◌≡◌, ◌≢◌, true, arith, ℕ_discrete}
use izem.Interleave.{State}
use izem.Queue.Swp.{
  null, Swp, Pc, allocate, fill, swap_tail, link, move_head, release, Move, enqueue_fill,
  enqueue_swap, enqueue_link, dequeue_move, dequeue_free,
}
use izem.Queue.Swp.Invariant.{InQueue, Inv}

module _ {s : State Swp Pc} (inv : Inv s) (i : ℕ) where
  open s use {mem, pc}

  pub ordered_keeps :
      {p : Pc} {m : Swp} {p' : Pc} → Move i mem p m p' → pc i ≡ p → m.left ≤ m.entered
  unfolding allocate fill swap_tail link move_head release
  ordered_keeps dequeue_move at =
      ground (arith, inv.ordered, inv.locals i, inv.last, ℕ_discrete mem.left mem.entered)
  ordered_keeps enqueue_swap at = ground (arith, inv.ordered)
  ordered_keeps mv at = ground (arith, inv.ordered)

  pub head_keeps :
      {p : Pc} {m : Swp} {p' : Pc} → Move i mem p m p' → pc i ≡ p → m.head ≡ m.order m.left
  unfolding allocate fill swap_tail link move_head release
  head_keeps dequeue_move at = ground (
    arith,
    inv.ordered,
    inv.locals i,
    inv.last,
    ℕ_discrete mem.left mem.entered,
    inv.chain mem.left,
  )
  head_keeps enqueue_swap at = ground (arith, inv.head, inv.ordered)
  head_keeps mv at = ground (arith, inv.head)

  pub tail_keeps :
      {p : Pc} {m : Swp} {p' : Pc} → Move i mem p m p' → pc i ≡ p → m.tail ≡ m.order m.entered
  unfolding allocate fill swap_tail link move_head release
  tail_keeps enqueue_swap at = ground (arith, inv.tail)
  tail_keeps mv at = ground (arith, inv.tail)

  pub stored_keeps :
      {p : Pc} {m : Swp} {p' : Pc}
      → Move i mem p m p'
      → pc i ≡ p
      → (k : ℕ) → InQueue m k
      → (m.live (m.order k) ≡ true) × (m.order k ≢ null)
  unfolding allocate fill swap_tail link move_head release
  stored_keeps (enqueue_swap {p}) at k in_ = ground (arith, inv.stored k, inv.private_live i p)
  stored_keeps (dequeue_free {h}) at k in_ = ground (arith, inv.stored k, inv.private_out i h k)
  stored_keeps mv at k in_ = ground (arith, inv.stored k)

  pub distinct_keeps :
      {p : Pc} {m : Swp} {p' : Pc}
      → Move i mem p m p'
      → pc i ≡ p
      → (j k : ℕ) → InQueue m j
      → InQueue m k
      → m.order j ≡ m.order k
      → j ≡ k
  unfolding allocate fill swap_tail link move_head release
  distinct_keeps (enqueue_swap {p}) at j k in_j in_k e =
      ground (arith, inv.distinct j k, inv.private_out i p j, inv.private_out i p k)
  distinct_keeps mv at j k in_j in_k e = ground (arith, inv.distinct j k)

  pub contents_keeps :
      {p : Pc} {m : Swp} {p' : Pc}
      → Move i mem p m p'
      → pc i ≡ p
      → (k : ℕ) → InQueue m k
      → 0 < k
      → m.value (m.order k) ≡ m.given k
  unfolding allocate fill swap_tail link move_head release
  contents_keeps (enqueue_fill {p}) at k in_ pos =
      ground (arith, inv.contents k, inv.private_out i p k)
  contents_keeps enqueue_swap at k in_ pos = ground (arith, inv.contents k, inv.locals i)
  contents_keeps mv at k in_ pos = ground (arith, inv.contents k)

  pub last_keeps :
      {p : Pc} {m : Swp} {p' : Pc}
      → Move i mem p m p'
      → pc i ≡ p
      → m.next (m.order m.entered) ≡ null
  unfolding allocate fill swap_tail link move_head release
  last_keeps (enqueue_fill {p}) at =
      ground (arith, inv.last, inv.private_out i p mem.entered, inv.ordered)
  last_keeps enqueue_swap at = ground (arith, inv.locals i)
  last_keeps (enqueue_link {k}) at =
      ground (arith, inv.last, inv.locals i, inv.distinct k mem.entered, inv.ordered)
  last_keeps mv at = ground (arith, inv.last)
