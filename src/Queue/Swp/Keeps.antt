-- ===== src/Queue/Swp/Keeps.antt =====
-- Every access of zm_swpqueue.c keeps the invariant.
use izem.Prelude.{ℕ, suc, ◌≤◌, ◌<◌, ◌≡◌, ◌≢◌, ◌⊎◌, inl, inr, refl, true, some, arith, ℕ_discrete}
use izem.Prelude.Family.{put, put_all}
use izem.Interleave.{State, Step, pick, Reach, Any, Reach-invariant}
use izem.Queue.Swp.{
  Ptr, null, Swp, Pc, holding, filled, linking, moved, got, allocate, fill, swap_tail, link,
  move_head, release, Move, enqueue_alloc, enqueue_fill, enqueue_swap, enqueue_link, dequeue_load,
  dequeue_test, dequeue_next, dequeue_move, dequeue_data, dequeue_free, weak_head, strong_head,
  strong_tail, strong_next, init,
}
use izem.Queue.Swp.Order.{
  ordered_keeps, head_keeps, tail_keeps, stored_keeps, distinct_keeps, contents_keeps, last_keeps,
}
use izem.Queue.Swp.Invariant.{owned, linked_from, InQueue, Local, Inv}

-- The state after thread `i` has gone to `p` and left memory `m`.
abbrev pub after : State Swp Pc → ℕ → Swp → Pc → State Swp Pc
after s i m p = record { mem = m; pc = put s.pc i p }

-- The node and the number in a thread's hands, if any.
abbrev own : Pc → Ptr
own (holding p _) = p
own (filled p _) = p
own (moved h _) = h
own (got h _) = h
own _ = null

abbrev pub num : Pc → ℕ
num (linking _ _ k) = k
num _ = 0

module _ {s : State Swp Pc} (inv : Inv s) (i : ℕ) where
  open s use {mem, pc}

  ends : InQueue mem mem.left × InQueue mem mem.entered
  ends = ground (arith, inv.ordered)

  single_keeps :
      {p : Pc} {m : Swp} {p' : Pc}
      → Move i mem p m p'
      → pc i ≡ p
      → (a b k : ℕ) → linked_from (put pc i p' a) ≡ some k
      → linked_from (put pc i p' b) ≡ some k
      → a ≡ b
  unfolding allocate fill swap_tail link move_head release
  single_keeps enqueue_swap at a b k e f =
      ground (arith, inv.single a b k, inv.locals a, inv.locals b)
  single_keeps mv at a b k e f = ground (arith, inv.single a b k)

  private_live_keeps :
      {p : Pc} {m : Swp} {p' : Pc}
      → Move i mem p m p'
      → pc i ≡ p
      → (a q : ℕ) → owned (put pc i p' a) ≡ some q
      → (m.live q ≡ true) × (q ≢ null)
  unfolding allocate fill swap_tail link move_head release
  private_live_keeps (enqueue_alloc ne free) at a q e = ground (arith, inv.private_live a q)
  private_live_keeps dequeue_move at a q e =
      ground (arith, inv.private_live a q, inv.locals i, inv.stored mem.left, ends)
  private_live_keeps (dequeue_free {h}) at a q e =
      ground (arith, inv.private_live a q, inv.private_alone i a h)
  private_live_keeps mv at a q e = ground (arith, inv.private_live a q)

  private_alone_keeps :
      {p : Pc} {m : Swp} {p' : Pc}
      → Move i mem p m p'
      → pc i ≡ p
      → (a b q : ℕ) → owned (put pc i p' a) ≡ some q
      → owned (put pc i p' b) ≡ some q
      → a ≡ b
  unfolding allocate fill swap_tail link move_head release
  private_alone_keeps (enqueue_alloc ne free) at a b q e f =
      ground (arith, inv.private_alone a b q, inv.private_live a q, inv.private_live b q)
  private_alone_keeps dequeue_move at a b q e f = ground (
    arith,
    inv.private_alone a b q,
    inv.locals i,
    inv.private_out a q mem.left,
    inv.private_out b q mem.left,
    ends,
  )
  private_alone_keeps mv at a b q e f = ground (arith, inv.private_alone a b q)

  private_out_keeps :
      {p : Pc} {m : Swp} {p' : Pc}
      → Move i mem p m p'
      → pc i ≡ p
      → (a q k : ℕ) → owned (put pc i p' a) ≡ some q
      → InQueue m k
      → m.order k ≢ q
  unfolding allocate fill swap_tail link move_head release
  private_out_keeps (enqueue_alloc ne free) at a q k e in_ same =
      ground (arith, inv.private_out a q k, inv.stored k)
  private_out_keeps (enqueue_swap {p}) at a q k e in_ same =
      ground (arith, inv.private_out a q k, inv.private_alone a i p)
  private_out_keeps dequeue_move at a q k e in_ same =
      ground (arith, inv.private_out a q k, inv.locals i, inv.distinct mem.left k, ends)
  private_out_keeps mv at a q k e in_ same = ground (arith, inv.private_out a q k)

  -- A node that is linked, or has a linker, keeps it but for the link that this move writes.
  chain_keeps :
      {p : Pc} {m : Swp} {p' : Pc}
      → Move i mem p m p'
      → pc i ≡ p
      → (k : ℕ) → m.left ≤ k
      → k < m.entered
      → (m.next (m.order k) ≡ m.order (suc k))
        ⊎ ((m.next (m.order k) ≡ null) × ((a : ℕ) × (linked_from (put pc i p' a) ≡ some k)))
  unfolding allocate fill swap_tail link move_head release
  chain_keeps (enqueue_swap {p}) at k lo hi = elim (ℕ_discrete k mem.entered) [
    | yes e ↦
        inr (ground (arith, inv.last, inv.locals i, inv.private_out i p k, ends), (i, ground arith))
    | no ne ↦ elim (inv.chain k lo (omega arith)) [
      | inl linked ↦ inl (ground arith)
      | inr (unlinked, (a, e)) ↦ inr (ground arith, (a, ground arith))
    ]
  ]
  chain_keeps (enqueue_link {k = l}) at k lo hi = elim (ℕ_discrete k l) [
    | yes e ↦ inl (ground (arith, inv.locals i))
    | no ne ↦ elim (inv.chain k lo hi) [
      | inl linked ↦ inl (ground (arith, inv.locals i, inv.distinct k l, inv.ordered))
      | inr (unlinked, (a, e)) ↦
          inr (ground (arith, inv.locals i, inv.distinct k l, inv.ordered), (a, ground arith))
    ]
  ]
  chain_keeps (enqueue_fill {p}) at k lo hi = elim (inv.chain k lo hi) [
    | inl linked ↦ inl (ground (arith, inv.private_out i p k))
    | inr (unlinked, (a, e)) ↦ inr (ground (arith, inv.private_out i p k), (a, ground arith))
  ]
  chain_keeps dequeue_move at k lo hi = elim (inv.chain k (omega arith) hi) [
    | inl linked ↦ inl linked
    | inr (unlinked, (a, e)) ↦ inr (unlinked, (a, ground arith))
  ]
  chain_keeps mv at k lo hi = elim (inv.chain k lo hi) [
    | inl linked ↦ inl linked
    | inr (unlinked, (a, e)) ↦ inr (unlinked, (a, ground arith))
  ]

  mover_knows : {p : Pc} {m : Swp} {p' : Pc} → Move i mem p m p' → pc i ≡ p → Local m i p'
  unfolding allocate fill swap_tail link move_head release
  mover_knows enqueue_swap at = ground (
    arith,
    inv.tail,
    inv.ordered,
    inv.locals i,
    inv.last,
    inv.private_out i (own (pc i)) mem.entered,
  )
  mover_knows (dequeue_load e) at = ground (arith, inv.head)
  mover_knows dequeue_test at = ground (arith, inv.locals i)
  mover_knows dequeue_next at = ground (arith, inv.locals i)
  mover_knows dequeue_move at = ground (
    arith,
    inv.locals i,
    inv.last,
    inv.ordered,
    ℕ_discrete mem.left mem.entered,
    inv.chain mem.left,
  )
  mover_knows dequeue_data at = ground (arith, inv.locals i, inv.contents mem.left, ends)
  mover_knows dequeue_free at = tt
  mover_knows (weak_head e) at = ground (arith, inv.head)
  mover_knows (strong_head e) at = ground (arith, inv.head)
  mover_knows strong_tail at = ground (arith, inv.locals i, inv.tail, inv.ordered)
  mover_knows (strong_next {h} {t} {k}) at =
      ground (arith, inv.locals i, inv.last, inv.ordered, inv.distinct mem.left k)
  mover_knows mv at = ground (arith, inv.locals i)

  others_know :
      {p : Pc} {m : Swp} {p' : Pc}
      → Move i mem p m p'
      → pc i ≡ p
      → (j : ℕ) → j ≢ i
      → (q : Pc) → pc j ≡ q
      → Local m j q
  unfolding allocate fill swap_tail link move_head release
  others_know (enqueue_fill {p}) at j ne q is = ground (
    arith,
    inv.locals j,
    inv.private_alone i j p,
    inv.private_out i p (num q),
    inv.private_out i p mem.left,
    ends,
  )
  others_know enqueue_swap at j ne q is = ground (arith, inv.locals j, inv.ordered)
  others_know (enqueue_link {k}) at j ne q is = ground (
    arith,
    inv.locals j,
    inv.locals i,
    inv.private_out j (own q) k,
    inv.single i j k,
    inv.distinct k (num q),
    inv.stored (suc k),
    inv.ordered,
  )
  others_know dequeue_move at j ne q is = ground (arith, inv.locals j, inv.locals i)
  others_know mv at j ne q is = ground (arith, inv.locals j, inv.locals i)

  pub Move-Inv : {p' : Pc} {m : Swp} → Move i mem (pc i) m p' → Inv (after s i m p')
  Move-Inv {p'} {m} mv = record {
    ordered = ordered_keeps inv i mv refl;
    head = head_keeps inv i mv refl;
    tail = tail_keeps inv i mv refl;
    stored = stored_keeps inv i mv refl;
    distinct = distinct_keeps inv i mv refl;
    contents = contents_keeps inv i mv refl;
    last = last_keeps inv i mv refl;
    chain = chain_keeps mv refl;
    single = single_keeps mv refl;
    private_live = private_live_keeps mv refl;
    private_alone = private_alone_keeps mv refl;
    private_out = private_out_keeps mv refl;
    locals =
        put_all (Local m) pc i p' (mover_knows mv refl)
          (λ j ne. others_know mv refl j ne (pc j) refl);
  }

pub Inv-init : (p : Ptr) (value next : Ptr → Ptr) → p ≢ null → Inv (init p value next)
Inv-init p value next ne = record {
  ordered = omega arith;
  head = refl;
  tail = refl;
  stored = λ k in_. ground arith;
  distinct = λ j k in_j in_k e. omega arith;
  contents = λ k in_ pos. absurd (omega arith);
  last = ground arith;
  chain = λ k lo hi. absurd (omega arith);
  single = λ i j k e. cc;
  private_live = λ i q e. cc;
  private_alone = λ i j q e. cc;
  private_out = λ i q k e. cc;
  locals = λ i. tt;
}

pub Reach-Inv :
    {n : ℕ} {p : Ptr} (value next : Ptr → Ptr) {s : State Swp Pc}
    → p ≢ null
    → Reach Move Any n (init p value next) s
    → Inv s
Reach-Inv {n} {p} value next {s} ne run =
    Reach-invariant Inv (Inv-init p value next ne) (λ r t inv ok st. Step-Inv r t inv st) s run
  where
    Step-Inv : (r t : State Swp Pc) → Inv r → Step Move n r t → Inv t
    Step-Inv r t inv (pick i lt mv) = Move-Inv inv i mv
