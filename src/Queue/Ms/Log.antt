-- ===== src/Queue/Ms/Log.antt =====
-- Every access of zm_msqueue.c keeps the order of the nodes: their numbers, links and data.
use izem.Prelude.{ℕ, suc, ◌≤◌, ◌<◌, ◌≡◌, ◌≢◌, true, false, arith}
use izem.Prelude.Family.{put}
use izem.Interleave.{State}
use izem.Queue.Ms.{
  Ptr, null, Ms, Pc, holding, looping, tail_read, tail_held, tail_safe, linking, helping, swinging,
  head_safe, both_read, next_read, next_held, pushing, taking, taken, retiring, allocate, fill,
  protect0, protect1, link, move_tail, move_head, retire, reclaim, Move, enqueue_fill, enqueue_link,
  enqueue_help, enqueue_swing, dequeue_help, dequeue_take, dequeue_retire, scan_free,
}
use izem.Queue.Ms.Invariant.{Inv}

-- The state after thread `i` has gone to `p` and left memory `m`.
abbrev pub after : State Ms Pc → ℕ → Ms → Pc → State Ms Pc
after s i m p = record { mem = m; pc = put s.pc i p }

-- The new node and the number in a thread's hands, if any.
abbrev pub own : Pc → Ptr
own (holding p _) = p
own (looping p _) = p
own (tail_read p _ _) = p
own (tail_held p _ _) = p
own (tail_safe p _ _ _) = p
own (linking p _ _ _) = p
own (helping p _ _ _ _) = p
own _ = null

abbrev pub num : Pc → ℕ
num (tail_safe _ _ _ a) = a
num (linking _ _ _ a) = a
num (helping _ _ _ _ a) = a
num (swinging _ _ a) = a
num (head_safe _ a) = a
num (both_read _ _ a) = a
num (next_read _ _ _ a) = a
num (next_held _ _ _ a) = a
num (pushing _ _ a) = a
num (taking _ _ a) = a
num (taken _ _ a) = a
num (retiring _ _ a) = a
num _ = 0

module _ {s : State Ms Pc} (inv : Inv s) (i : ℕ) where
  open s use {mem, pc}

  pub ordered_keeps :
      {p : Pc} {m : Ms} {p' : Pc}
      → Move i mem p m p'
      → pc i ≡ p
      → (m.head_number ≤ m.tail_number) × (m.tail_number ≤ m.last_number)
  unfolding allocate fill protect0 protect1 link move_tail move_head retire reclaim
  ordered_keeps (enqueue_help {a}) at = ground (
    arith,
    inv.ordered,
    inv.head,
    inv.tail,
    inv.locals i,
    inv.ordered,
    inv.kept mem.tail_number,
    inv.kept mem.head_number,
    inv.distinct a mem.tail_number,
  )
  ordered_keeps (enqueue_swing {a}) at = ground (
    arith,
    inv.ordered,
    inv.head,
    inv.tail,
    inv.locals i,
    inv.ordered,
    inv.kept mem.tail_number,
    inv.kept mem.head_number,
    inv.distinct a mem.tail_number,
  )
  ordered_keeps (dequeue_help {a}) at = ground (
    arith,
    inv.ordered,
    inv.head,
    inv.tail,
    inv.locals i,
    inv.ordered,
    inv.kept mem.tail_number,
    inv.kept mem.head_number,
    inv.distinct a mem.tail_number,
  )
  ordered_keeps (dequeue_take {a}) at = ground (
    arith,
    inv.ordered,
    inv.head,
    inv.tail,
    inv.locals i,
    inv.ordered,
    inv.kept mem.tail_number,
    inv.kept mem.head_number,
    inv.distinct a mem.head_number,
  )
  ordered_keeps enqueue_link at =
      ground (arith, inv.ordered, inv.ordered, inv.kept mem.tail_number, inv.kept mem.head_number)
  ordered_keeps mv at = ground (arith, inv.ordered)

  pub head_keeps :
      {p : Pc} {m : Ms} {p' : Pc} → Move i mem p m p' → pc i ≡ p → m.head ≡ m.order m.head_number
  unfolding allocate fill protect0 protect1 link move_tail move_head retire reclaim
  head_keeps (enqueue_help {a}) at = ground (
    arith,
    inv.head,
    inv.head,
    inv.tail,
    inv.locals i,
    inv.ordered,
    inv.kept mem.tail_number,
    inv.kept mem.head_number,
    inv.distinct a mem.tail_number,
  )
  head_keeps (enqueue_swing {a}) at = ground (
    arith,
    inv.head,
    inv.head,
    inv.tail,
    inv.locals i,
    inv.ordered,
    inv.kept mem.tail_number,
    inv.kept mem.head_number,
    inv.distinct a mem.tail_number,
  )
  head_keeps (dequeue_help {a}) at = ground (
    arith,
    inv.head,
    inv.head,
    inv.tail,
    inv.locals i,
    inv.ordered,
    inv.kept mem.tail_number,
    inv.kept mem.head_number,
    inv.distinct a mem.tail_number,
  )
  head_keeps (dequeue_take {a}) at = ground (
    arith,
    inv.head,
    inv.head,
    inv.tail,
    inv.locals i,
    inv.ordered,
    inv.kept mem.tail_number,
    inv.kept mem.head_number,
    inv.distinct a mem.head_number,
  )
  head_keeps enqueue_link at =
      ground (arith, inv.head, inv.ordered, inv.kept mem.tail_number, inv.kept mem.head_number)
  head_keeps mv at = ground (arith, inv.head)

  pub tail_keeps :
      {p : Pc} {m : Ms} {p' : Pc} → Move i mem p m p' → pc i ≡ p → m.tail ≡ m.order m.tail_number
  unfolding allocate fill protect0 protect1 link move_tail move_head retire reclaim
  tail_keeps (enqueue_help {a}) at = ground (
    arith,
    inv.tail,
    inv.head,
    inv.tail,
    inv.locals i,
    inv.ordered,
    inv.kept mem.tail_number,
    inv.kept mem.head_number,
    inv.distinct a mem.tail_number,
  )
  tail_keeps (enqueue_swing {a}) at = ground (
    arith,
    inv.tail,
    inv.head,
    inv.tail,
    inv.locals i,
    inv.ordered,
    inv.kept mem.tail_number,
    inv.kept mem.head_number,
    inv.distinct a mem.tail_number,
  )
  tail_keeps (dequeue_help {a}) at = ground (
    arith,
    inv.tail,
    inv.head,
    inv.tail,
    inv.locals i,
    inv.ordered,
    inv.kept mem.tail_number,
    inv.kept mem.head_number,
    inv.distinct a mem.tail_number,
  )
  tail_keeps (dequeue_take {a}) at = ground (
    arith,
    inv.tail,
    inv.head,
    inv.tail,
    inv.locals i,
    inv.ordered,
    inv.kept mem.tail_number,
    inv.kept mem.head_number,
    inv.distinct a mem.head_number,
  )
  tail_keeps enqueue_link at =
      ground (arith, inv.tail, inv.ordered, inv.kept mem.tail_number, inv.kept mem.head_number)
  tail_keeps mv at = ground (arith, inv.tail)

  pub kept_keeps :
      {p : Pc} {m : Ms} {p' : Pc}
      → Move i mem p m p'
      → pc i ≡ p
      → (k : ℕ) → m.head_number ≤ k
      → m.gone k ≡ false
  unfolding allocate fill protect0 protect1 link move_tail move_head retire reclaim
  kept_keeps (scan_free a r gn h0 h1) at k le = ground (arith, inv.kept k, inv.past a)
  kept_keeps mv at k le = ground (arith, inv.kept k)

  pub past_keeps :
      {p : Pc} {m : Ms} {p' : Pc}
      → Move i mem p m p'
      → pc i ≡ p
      → (k : ℕ) → m.retired k ≡ true
      → k < m.head_number
  unfolding allocate fill protect0 protect1 link move_tail move_head retire reclaim
  past_keeps dequeue_retire at k is = ground (arith, inv.past k, inv.locals i)
  past_keeps mv at k is = ground (arith, inv.past k)

  pub stored_keeps :
      {p : Pc} {m : Ms} {p' : Pc}
      → Move i mem p m p'
      → pc i ≡ p
      → (k : ℕ) → k ≤ m.last_number
      → m.gone k ≡ false
      → m.live (m.order k) ≡ true
  unfolding allocate fill protect0 protect1 link move_tail move_head retire reclaim
  stored_keeps (scan_free a r gn h0 h1) at k le kept =
      ground (arith, inv.stored k, inv.past a, inv.ordered, inv.distinct a k)
  stored_keeps (enqueue_link {p}) at k le kept = ground (arith, inv.stored k, inv.private_live i p)
  stored_keeps mv at k le kept = ground (arith, inv.stored k)

  pub named_keeps :
      {p : Pc} {m : Ms} {p' : Pc}
      → Move i mem p m p'
      → pc i ≡ p
      → (k : ℕ) → k ≤ m.last_number
      → m.order k ≢ null
  unfolding allocate fill protect0 protect1 link move_tail move_head retire reclaim
  named_keeps (enqueue_link {p}) at k le = ground (arith, inv.named k, inv.private_live i p)
  named_keeps mv at k le = ground (arith, inv.named k)

  pub distinct_keeps :
      {p : Pc} {m : Ms} {p' : Pc}
      → Move i mem p m p'
      → pc i ≡ p
      → (j k : ℕ) → j ≤ m.last_number
      → m.gone j ≡ false
      → k ≤ m.last_number
      → m.gone k ≡ false
      → m.order j ≡ m.order k
      → j ≡ k
  unfolding allocate fill protect0 protect1 link move_tail move_head retire reclaim
  distinct_keeps (enqueue_link {p}) at j k lj gj lk gk e =
      ground (arith, inv.distinct j k, inv.private_out i p j, inv.private_out i p k)
  distinct_keeps mv at j k lj gj lk gk e = ground (arith, inv.distinct j k)

  pub contents_keeps :
      {p : Pc} {m : Ms} {p' : Pc}
      → Move i mem p m p'
      → pc i ≡ p
      → (k : ℕ) → k ≤ m.last_number
      → m.gone k ≡ false
      → 0 < k
      → m.value (m.order k) ≡ m.given k
  unfolding allocate fill protect0 protect1 link move_tail move_head retire reclaim
  contents_keeps (enqueue_fill {p}) at k le g pos =
      ground (arith, inv.contents k, inv.private_out i p k)
  contents_keeps (enqueue_link {p}) at k le g pos = ground (arith, inv.contents k, inv.locals i)
  contents_keeps mv at k le g pos = ground (arith, inv.contents k)

  pub final_keeps :
      {p : Pc} {m : Ms} {p' : Pc}
      → Move i mem p m p'
      → pc i ≡ p
      → m.next (m.order m.last_number) ≡ null
  unfolding allocate fill protect0 protect1 link move_tail move_head retire reclaim
  final_keeps (enqueue_fill {p}) at =
      ground (
        arith,
        inv.final,
        inv.private_out i p mem.last_number,
        inv.kept mem.last_number,
        inv.ordered,
      )
  final_keeps (enqueue_link {p} {a}) at =
      ground (arith, inv.final, inv.locals i, inv.private_out i p a, inv.ordered)
  final_keeps mv at = ground (arith, inv.final)

  pub chain_keeps :
      {p : Pc} {m : Ms} {p' : Pc}
      → Move i mem p m p'
      → pc i ≡ p
      → (k : ℕ) → k < m.last_number
      → m.gone k ≡ false
      → m.next (m.order k) ≡ m.order (suc k)
  unfolding allocate fill protect0 protect1 link move_tail move_head retire reclaim
  chain_keeps (enqueue_fill {p}) at k lt g = ground (arith, inv.chain k, inv.private_out i p k)
  chain_keeps (enqueue_link {p} {a}) at k lt g = ground (
    arith,
    inv.chain k,
    inv.chain a,
    inv.locals i,
    inv.ordered,
    inv.named (suc a),
    inv.distinct a k,
    inv.private_out i p k,
  )
  chain_keeps mv at k lt g = ground (arith, inv.chain k)
