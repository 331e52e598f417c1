-- ===== src/Lock/Mcs/Keeps.antt =====
-- Every access of zm_mcs.c keeps the invariant.
use izem.Prelude.{ℕ, suc, ◌-◌, ◌<◌, ◌≡◌, ◌≢◌, refl, some, arith}
use izem.Prelude.Family.{put, put_all}
use izem.Interleave.{State, Step, pick, Reach, Any, Reach-invariant}
use izem.Lock.Fifo.{number}
use izem.Lock.Fifo.Laws.{FifoStep-FifoInv, FifoInv-empty}
use izem.Lock.Mcs.{
  Ptr, null, node_of, Mcs, Pc, spin, clear_next, swap_lock, set_locked, link_behind, unlock_free,
  hand_over, Move, acquire_reset, acquire_swap, acquire_mark, acquire_link, acquire_spin, try_reset,
  try_cas, release_load, release_cas, release_spin, release_reload, release_store, init, role_of,
}
use izem.Lock.Mcs.Invariant.{Local, owner, place, Inv, after, Move-FifoStep}

module _ {n : ℕ} {s : State Mcs Pc} (inv : Inv n s) (i : ℕ) (lt : i < n) where
  -- A free lock has nobody in line.
  free_keeps :
      {p : Pc} {m : Mcs} {p' : Pc}
      → Move i s.mem p m p'
      → s.pc i ≡ p
      → m.lock ≡ null
      → m.arrivals ≡ m.served
  unfolding clear_next swap_lock set_locked link_behind unlock_free hand_over
  free_keeps (release_cas {k}) at e = ground (arith, inv.free, inv.last, inv.fifo.turn i k)
  free_keeps (release_store {k}) at e = ground (arith, inv.free, inv.fifo.range i k)
  free_keeps mv at e = ground (arith, inv.free)

  last_keeps :
      {p : Pc} {m : Mcs} {p' : Pc}
      → Move i s.mem p m p'
      → s.pc i ≡ p
      → m.lock ≢ null
      → (m.served < m.arrivals)
        × (number (role_of (put s.pc i p' (owner m.lock))) ≡ some (m.arrivals - 1))
  unfolding clear_next swap_lock set_locked link_behind unlock_free hand_over
  last_keeps acquire_swap at e = ground (arith, inv.free, inv.last)
  last_keeps try_cas at e = ground (arith, inv.free, inv.last)
  last_keeps (release_store {k}) at e = ground (
    arith,
    inv.last,
    inv.fifo.turn i k,
    inv.linked i k,
    inv.locals i,
    inv.fifo.range (owner (s.mem.next (node_of i))) (suc k),
  )
  last_keeps mv at e = ground (arith, inv.last)

  linked_keeps :
      {p : Pc} {m : Mcs} {p' : Pc}
      → Move i s.mem p m p'
      → s.pc i ≡ p
      → (j k : ℕ) → number (role_of (put s.pc i p' j)) ≡ some k
      → m.next (node_of j) ≢ null
      → put s.pc i p' (owner (m.next (node_of j))) ≡ spin (suc k)
  unfolding clear_next swap_lock set_locked link_behind unlock_free hand_over
  linked_keeps acquire_swap at j l has ne = ground (arith, inv.linked j l, inv.locals i)
  linked_keeps (acquire_link {pred} {k}) at j l has ne =
      ground (arith, inv.linked j l, inv.locals i, inv.fifo.unique j (owner pred) l)
  linked_keeps (acquire_spin {k}) at j l has ne =
      ground (arith, inv.linked j l, inv.locals i, inv.fifo.range j l)
  linked_keeps try_cas at j l has ne = ground (arith, inv.linked j l, inv.locals i)
  linked_keeps mv at j l has ne = ground (arith, inv.linked j l)

  backed_keeps :
      {p : Pc} {m : Mcs} {p' : Pc}
      → Move i s.mem p m p'
      → s.pc i ≡ p
      → (a j k : ℕ) → put s.pc i p' j ≡ spin k
      → m.served < k
      → number (role_of (put s.pc i p' a)) ≡ some (k - 1)
      → m.next (node_of a) ≡ node_of j
  unfolding clear_next swap_lock set_locked link_behind unlock_free hand_over
  backed_keeps acquire_swap at a j k is lt has =
      ground (arith, inv.backed a j k, inv.fifo.range j k)
  backed_keeps try_cas at a j k is lt has = ground (arith, inv.backed a j k, inv.fifo.range j k)
  backed_keeps (acquire_link {pred} {k = l}) at a j k is lt has = ground (
    arith,
    inv.backed a j k,
    inv.locals i,
    inv.fifo.unique a (owner pred) (k - 1),
    inv.fifo.unique i j k,
  )
  backed_keeps (release_cas {k = l}) at a j k is lt has = ground (arith, inv.backed a j k)
  backed_keeps (release_store {k = l}) at a j k is lt has = ground (arith, inv.backed a j k)
  backed_keeps mv at a j k is lt has = ground (arith, inv.backed a j k, inv.locals j)

  -- What the thread that moves knows then.
  mover_knows :
      {p : Pc} {m : Mcs} {p' : Pc} → Move i s.mem p m p' → s.pc i ≡ p → Local (after s i m p') i p'
  unfolding clear_next swap_lock set_locked link_behind unlock_free hand_over
  mover_knows acquire_swap at = ground (
    arith,
    inv.last,
    inv.linked (owner s.mem.lock) (s.mem.arrivals - 1),
    inv.fifo.range (owner (s.mem.next s.mem.lock)) s.mem.arrivals,
  )
  mover_knows (release_cas {k}) at =
      ground (arith, inv.free, inv.last, inv.fifo.range i k, inv.fifo.unique i (owner s.mem.lock) k)
  mover_knows (acquire_mark {pred} {k}) at = ground (arith, inv.locals i)
  mover_knows (acquire_link {pred} {k}) at = ground (arith, inv.locals i)
  mover_knows (acquire_spin {k}) at = ground (arith, inv.locals i)
  mover_knows (release_load {k}) at = ground (arith, inv.locals i)
  mover_knows (release_spin {k}) at = ground (arith, inv.locals i)
  mover_knows (release_reload {k}) at = ground (arith, inv.locals i)
  mover_knows (release_store {k}) at = tt
  mover_knows mv at = ground arith

  -- What the others know stays true.
  others_know :
      {p : Pc} {m : Mcs} {p' : Pc}
      → Move i s.mem p m p'
      → s.pc i ≡ p
      → (j : ℕ) → j ≢ i
      → (q : Pc) → s.pc j ≡ q
      → Local (after s i m p') j q
  unfolding clear_next swap_lock set_locked link_behind unlock_free hand_over
  others_know acquire_reset at j ne q is = ground (arith, inv.locals j)
  others_know acquire_swap at j ne q is = ground (arith, inv.locals j)
  others_know acquire_mark at j ne q is = ground (arith, inv.locals j)
  others_know (acquire_link {pred} {k}) at j ne q is =
      ground (arith, inv.locals j, inv.locals i, inv.fifo.unique i j k)
  others_know acquire_spin at j ne q is = ground (arith, inv.locals j)
  others_know try_reset at j ne q is = ground (arith, inv.locals j)
  others_know try_cas at j ne q is = ground (arith, inv.locals j)
  others_know release_load at j ne q is = ground (arith, inv.locals j)
  others_know (release_cas {k}) at j ne q is = ground (
    arith,
    inv.locals j,
    inv.last,
    inv.fifo.turn i k,
    inv.fifo.range j (place q),
    inv.fifo.unique i j k,
  )
  others_know release_spin at j ne q is = ground (arith, inv.locals j)
  others_know release_reload at j ne q is = ground (arith, inv.locals j)
  others_know (release_store {k} {succ}) at j ne q is = ground (
    arith,
    inv.locals j,
    inv.locals i,
    inv.linked i k,
    inv.fifo.turn i k,
    inv.fifo.range j (place q),
    inv.fifo.unique i j k,
    inv.fifo.unique j (owner succ) (suc k),
  )

  pub Move-Inv : {p' : Pc} {m : Mcs} → Move i s.mem (s.pc i) m p' → Inv n (after s i m p')
  Move-Inv {p'} {m} mv = record {
    fifo = FifoStep-FifoInv inv.fifo (Move-FifoStep inv i lt mv refl);
    free = free_keeps mv refl;
    last = last_keeps mv refl;
    linked = linked_keeps mv refl;
    backed = backed_keeps mv refl;
    locals =
        put_all (Local (after s i m p')) s.pc i p' (mover_knows mv refl)
          (λ j ne. others_know mv refl j ne (s.pc j) refl);
  }

Inv-init : (n : ℕ) (status : Ptr → ℕ) (next : Ptr → Ptr) → Inv n (init status next)
Inv-init n status next = record {
  fifo = FifoInv-empty n;
  free = λ e. refl;
  last = λ e. absurd (e refl);
  linked = λ i k q. cc;
  backed = λ i j k q. cc;
  locals = λ i. tt;
}

pub Reach-Inv :
    {n : ℕ} {status : Ptr → ℕ} {next : Ptr → Ptr} {s : State Mcs Pc}
    → Reach Move Any n (init status next) s
    → Inv n s
Reach-Inv {n} {status} {next} {s} run =
    Reach-invariant (Inv n) (Inv-init n status next) (λ r t inv ok st. Step-Inv r t inv st) s run
  where
    Step-Inv : (r t : State Mcs Pc) → Inv n r → Step Move n r t → Inv n t
    Step-Inv r t inv (pick i lt mv) = Move-Inv inv i lt mv
