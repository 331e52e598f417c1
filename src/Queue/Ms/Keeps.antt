-- ===== src/Queue/Ms/Keeps.antt =====
-- Every access of zm_msqueue.c keeps the invariant.
use izem.Prelude.{ℕ, suc, ◌≤◌, ◌<◌, ◌≡◌, ◌≢◌, refl, true, false, some, arith, ℕ_discrete}
use izem.Prelude.Family.{put, put_all}
use izem.Interleave.{State, Step, pick, Reach, Any, Reach-invariant}
use izem.Queue.Ms.{
  Ptr, null, Ms, Pc, taking, allocate, fill, protect0, protect1, link, move_tail, move_head, retire,
  reclaim, Move, enqueue_alloc, enqueue_fill, enqueue_load, enqueue_hazard, enqueue_check,
  enqueue_next, enqueue_link, enqueue_help, enqueue_help_fails, enqueue_swing, enqueue_swing_fails,
  dequeue_call, dequeue_load, dequeue_hazard, dequeue_check, dequeue_tail, dequeue_next,
  dequeue_hazard_next, dequeue_test, dequeue_help, dequeue_help_fails, dequeue_take, dequeue_data,
  dequeue_retire, scan_free, init,
}
use izem.Queue.Ms.Invariant.{owned, took, Local, Inv}
use izem.Queue.Ms.Log.{
  own, after, ordered_keeps, head_keeps, tail_keeps, kept_keeps, past_keeps, stored_keeps,
  named_keeps, distinct_keeps, contents_keeps, final_keeps, chain_keeps,
}

module _ {s : State Ms Pc} (inv : Inv s) (i : ℕ) where
  open s use {mem, pc}

  live_keeps :
      {p : Pc} {m : Ms} {p' : Pc}
      → Move i mem p m p'
      → pc i ≡ p
      → (j q : ℕ) → owned (put pc i p' j) ≡ some q
      → (m.live q ≡ true) × (q ≢ null)
  unfolding allocate fill protect0 protect1 link move_tail move_head retire reclaim
  live_keeps (scan_free a r gn h0 h1) at j q e =
      ground (arith, inv.private_live j q, inv.private_out j q a, inv.past a, inv.ordered)
  live_keeps (enqueue_alloc nn free) at j q e = ground (arith, inv.private_live j q)
  live_keeps mv at j q e = ground (arith, inv.private_live j q, inv.private_live i q)

  alone_keeps :
      {p : Pc} {m : Ms} {p' : Pc}
      → Move i mem p m p'
      → pc i ≡ p
      → (a b q : ℕ) → owned (put pc i p' a) ≡ some q
      → owned (put pc i p' b) ≡ some q
      → a ≡ b
  unfolding allocate fill protect0 protect1 link move_tail move_head retire reclaim
  alone_keeps (enqueue_alloc nn free) at a b q e f =
      ground (arith, inv.private_alone a b q, inv.private_live a q, inv.private_live b q)
  alone_keeps mv at a b q e f = ground (arith, inv.private_alone a b q)

  out_keeps :
      {p : Pc} {m : Ms} {p' : Pc}
      → Move i mem p m p'
      → pc i ≡ p
      → (j q k : ℕ) → owned (put pc i p' j) ≡ some q
      → k ≤ m.last_number
      → m.gone k ≡ false
      → m.order k ≢ q
  unfolding allocate fill protect0 protect1 link move_tail move_head retire reclaim
  out_keeps (enqueue_alloc nn free) at j q k e le g =
      ground (arith, inv.private_out j q k, inv.stored k)
  out_keeps (enqueue_link {p}) at j q k e le g =
      ground (arith, inv.private_out j q k, inv.private_alone i j q)
  out_keeps mv at j q k e le g = ground (arith, inv.private_out j q k)

  -- A head that a thread has taken is no longer in the queue.
  took_below : (j k : ℕ) → took (pc j) ≡ some k → k < mem.head_number
  took_below j k e = ground (arith, inv.locals j)

  -- The exchange of the head succeeds only on the number that the thread has checked.
  take_front : (h n : Ptr) (a : ℕ) → pc i ≡ taking h n a → mem.head ≡ h → a ≡ mem.head_number
  take_front h n a at e = ground (
    arith,
    inv.locals i,
    inv.head,
    inv.ordered,
    inv.kept mem.head_number,
    inv.distinct a mem.head_number,
  )

  single_keeps :
      {p : Pc} {m : Ms} {p' : Pc}
      → Move i mem p m p'
      → pc i ≡ p
      → (a b k : ℕ) → took (put pc i p' a) ≡ some k
      → took (put pc i p' b) ≡ some k
      → a ≡ b
  unfolding allocate fill protect0 protect1 link move_tail move_head retire reclaim
  single_keeps (dequeue_take {h} {n} {a = c}) at a b k e f =
      let front = take_front h n c at in
      ground (arith, inv.single a b k, took_below a k, took_below b k)
  single_keeps mv at a b k e f = ground (arith, inv.single a b k)

  -- What the thread that moves knows then.
  mover_knows : {p : Pc} {m : Ms} {p' : Pc} → Move i mem p m p' → pc i ≡ p → Local m i p'
  unfolding allocate fill protect0 protect1 link move_tail move_head retire reclaim
  mover_knows (enqueue_alloc nn free) at = ground (arith, inv.locals i, inv.ordered)
  mover_knows enqueue_fill at = ground (arith, inv.locals i, inv.ordered)
  mover_knows enqueue_load at = ground (arith, inv.locals i, inv.ordered)
  mover_knows enqueue_hazard at = ground (arith, inv.locals i, inv.ordered)
  mover_knows enqueue_check at =
      ground (arith, inv.locals i, inv.ordered, inv.tail, inv.kept mem.tail_number)
  mover_knows (enqueue_next {a}) at =
      ground
        (arith, inv.locals i, inv.ordered, inv.chain a, inv.final, ℕ_discrete a mem.last_number)
  mover_knows (enqueue_link {p} {d} {t} {a}) at =
      ground
        (arith, inv.locals i, inv.ordered, inv.chain a, inv.named (suc a), inv.private_out i p a)
  mover_knows (enqueue_help {p} {d} {t} {n} {a}) at = ground (arith, inv.locals i, inv.ordered)
  mover_knows enqueue_help_fails at = ground (arith, inv.locals i, inv.ordered)
  mover_knows enqueue_swing at = ground (arith, inv.locals i, inv.ordered)
  mover_knows enqueue_swing_fails at = ground (arith, inv.locals i, inv.ordered)
  mover_knows dequeue_call at = ground (arith, inv.locals i, inv.ordered)
  mover_knows dequeue_load at = ground (arith, inv.locals i, inv.ordered)
  mover_knows dequeue_hazard at = ground (arith, inv.locals i, inv.ordered)
  mover_knows dequeue_check at =
      ground (arith, inv.locals i, inv.ordered, inv.head, inv.kept mem.head_number)
  mover_knows (dequeue_tail {a}) at = ground (arith, inv.locals i, inv.ordered, inv.tail)
  mover_knows (dequeue_next {a}) at = ground (
    arith,
    inv.locals i,
    inv.ordered,
    inv.chain a,
    inv.final,
    inv.named (suc a),
    ℕ_discrete a mem.last_number,
  )
  mover_knows dequeue_hazard_next at = ground (arith, inv.locals i, inv.ordered)
  mover_knows dequeue_test at = ground (arith, inv.locals i, inv.ordered)
  mover_knows dequeue_help at = ground (arith, inv.locals i, inv.ordered)
  mover_knows dequeue_help_fails at = ground (arith, inv.locals i, inv.ordered)
  mover_knows (dequeue_take {a}) at = ground (
    arith,
    inv.locals i,
    inv.ordered,
    inv.head,
    inv.ordered,
    inv.kept mem.tail_number,
    inv.kept mem.head_number,
    inv.distinct a mem.head_number,
    inv.kept (suc mem.head_number),
  )
  mover_knows (dequeue_data {a}) at =
      ground (arith, inv.locals i, inv.ordered, inv.contents (suc a))
  mover_knows dequeue_retire at = ground (arith, inv.locals i, inv.ordered)
  mover_knows (scan_free k r gn h0 h1) at = ground (arith, inv.locals i, inv.ordered)

  -- What the others know stays true.
  others_know :
      {p : Pc} {m : Ms} {p' : Pc}
      → Move i mem p m p'
      → pc i ≡ p
      → (j : ℕ) → j ≢ i
      → (q : Pc) → pc j ≡ q
      → Local m j q
  unfolding allocate fill protect0 protect1 link move_tail move_head retire reclaim
  others_know (enqueue_alloc nn free) at j ne q is = ground (arith, inv.locals j, inv.ordered)
  others_know (enqueue_fill {p}) at j ne q is =
      ground (arith, inv.locals j, inv.ordered, inv.private_alone i j p)
  others_know enqueue_load at j ne q is = ground (arith, inv.locals j, inv.ordered)
  others_know enqueue_hazard at j ne q is = ground (arith, inv.locals j, inv.ordered)
  others_know enqueue_check at j ne q is = ground (arith, inv.locals j, inv.ordered)
  others_know enqueue_next at j ne q is = ground (arith, inv.locals j, inv.ordered)
  others_know (enqueue_link {p} {d} {t} {a}) at j ne q is =
      ground (arith, inv.locals j, inv.ordered, inv.locals i, inv.private_out j (own q) a)
  others_know enqueue_help at j ne q is = ground (arith, inv.locals j, inv.ordered)
  others_know enqueue_help_fails at j ne q is = ground (arith, inv.locals j, inv.ordered)
  others_know enqueue_swing at j ne q is = ground (arith, inv.locals j, inv.ordered)
  others_know enqueue_swing_fails at j ne q is = ground (arith, inv.locals j, inv.ordered)
  others_know dequeue_call at j ne q is = ground (arith, inv.locals j, inv.ordered)
  others_know dequeue_load at j ne q is = ground (arith, inv.locals j, inv.ordered)
  others_know dequeue_hazard at j ne q is = ground (arith, inv.locals j, inv.ordered)
  others_know dequeue_check at j ne q is = ground (arith, inv.locals j, inv.ordered)
  others_know dequeue_tail at j ne q is = ground (arith, inv.locals j, inv.ordered)
  others_know dequeue_next at j ne q is = ground (arith, inv.locals j, inv.ordered)
  others_know dequeue_hazard_next at j ne q is = ground (arith, inv.locals j, inv.ordered)
  others_know dequeue_test at j ne q is = ground (arith, inv.locals j, inv.ordered)
  others_know dequeue_help at j ne q is = ground (arith, inv.locals j, inv.ordered)
  others_know dequeue_help_fails at j ne q is = ground (arith, inv.locals j, inv.ordered)
  others_know dequeue_take at j ne q is = ground (arith, inv.locals j, inv.ordered)
  others_know dequeue_data at j ne q is = ground (arith, inv.locals j, inv.ordered)
  others_know dequeue_retire at j ne q is = ground (arith, inv.locals j, inv.ordered)
  others_know (scan_free k r gn h0 h1) at j ne q is = ground (arith, inv.locals j, h0 j, h1 j)

  Move-Inv : {p' : Pc} {m : Ms} → Move i mem (pc i) m p' → Inv (after s i m p')
  Move-Inv {p'} {m} mv = record {
    ordered = ordered_keeps inv i mv refl;
    head = head_keeps inv i mv refl;
    tail = tail_keeps inv i mv refl;
    kept = kept_keeps inv i mv refl;
    past = past_keeps inv i mv refl;
    stored = stored_keeps inv i mv refl;
    named = named_keeps inv i mv refl;
    distinct = distinct_keeps inv i mv refl;
    contents = contents_keeps inv i mv refl;
    final = final_keeps inv i mv refl;
    chain = chain_keeps inv i mv refl;
    private_live = live_keeps mv refl;
    private_alone = alone_keeps mv refl;
    private_out = out_keeps mv refl;
    single = single_keeps mv refl;
    locals =
        put_all (Local m) pc i p' (mover_knows mv refl)
          (λ j ne. others_know mv refl j ne (pc j) refl);
  }

Inv-init : (p : Ptr) (value next : Ptr → Ptr) → p ≢ null → Inv (init p value next)
Inv-init p value next ne = record {
  ordered = (omega arith, omega arith);
  head = refl;
  tail = refl;
  kept = λ k le. refl;
  past = λ k is. cc;
  stored = λ k le g. ground arith;
  named = λ k le. ne;
  distinct = λ j k lj gj lk gk e. omega arith;
  contents = λ k le g pos. absurd (omega arith);
  final = ground arith;
  chain = λ k lt g. absurd (omega arith);
  private_live = λ i q e. cc;
  private_alone = λ i j q e f. cc;
  private_out = λ i q k e le g. cc;
  single = λ i j k e f. cc;
  locals = λ i. tt;
}

pub Reach-Inv :
    {n : ℕ} (p : Ptr) (value next : Ptr → Ptr) {s : State Ms Pc}
    → p ≢ null
    → Reach Move Any n (init p value next) s
    → Inv s
Reach-Inv {n} p value next {s} ne run =
    Reach-invariant Inv (Inv-init p value next ne) (λ r t inv ok st. Step-Inv r t inv st) s run
  where
    Step-Inv : (r t : State Ms Pc) → Inv r → Step Move n r t → Inv t
    Step-Inv r t inv (pick i lt mv) = Move-Inv inv i mv
