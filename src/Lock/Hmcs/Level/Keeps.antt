-- ===== src/Lock/Hmcs/Level/Keeps.antt =====
-- Every access of a node of zm_hmcs.c keeps the invariant.
use izem.Prelude.{ℕ, suc, ◌-◌, ◌<◌, ◌≡◌, ◌≢◌, refl, some, arith, false}
use izem.Prelude.Family.{put, put_all}
use izem.Interleave.{State}
use izem.Lock.Fifo.{number}
use izem.Lock.Fifo.Laws.{FifoStep-FifoInv, FifoInv-empty}
use izem.Lock.Hmcs.Level.{
  Ptr, null, node_of, Config, IsFit, Level, Pc, spin, set_wait, clear_next, swap_lock, link_behind,
  start_cohort, set_held, count_in, unlock_free, tap, Move, reuse_status, reuse_next, acquire_swap,
  try_cas, first_start, acquire_link, acquire_spin, next_start, acquire_up, release_count,
  release_next, release_up, release_root, release_load, release_cas, release_spin, release_store,
  init, role_of,
}
use izem.Lock.Hmcs.Level.Invariant.{Local, owner, place, Inv, after, Move-FifoStep}

module _ {g : Config} (fit : IsFit g) {n : ℕ} {s : State Level Pc} (inv : Inv g n s) (i : ℕ)
    (lt : i < n) where
  free_keeps :
      {p : Pc} {m : Level} {p' : Pc}
      → Move g i s.mem p m p'
      → s.pc i ≡ p
      → m.lock ≡ null
      → m.arrivals ≡ m.served
  unfolding set_wait clear_next swap_lock link_behind start_cohort set_held count_in unlock_free tap
  free_keeps (release_cas {k}) at e = ground (arith, inv.free, inv.last, inv.fifo.turn i k)
  free_keeps (release_store {k}) at e = ground (arith, inv.free, inv.fifo.range i k)
  free_keeps mv at e = ground (arith, inv.free)

  dropped_keeps :
      {p : Pc} {m : Level} {p' : Pc}
      → Move g i s.mem p m p'
      → s.pc i ≡ p
      → m.lock ≡ null
      → g.root ≡ false
      → m.held ≡ false
  unfolding set_wait clear_next swap_lock link_behind start_cohort set_held count_in unlock_free tap
  dropped_keeps (release_cas {k}) at e r = ground (arith, inv.dropped, inv.locals i)
  dropped_keeps (acquire_up {k}) at e r = ground (arith, inv.free, inv.fifo.range i k)
  dropped_keeps mv at e r = ground (arith, inv.dropped)

  last_keeps :
      {p : Pc} {m : Level} {p' : Pc}
      → Move g i s.mem p m p'
      → s.pc i ≡ p
      → m.lock ≢ null
      → (m.served < m.arrivals)
        × (number (role_of (put s.pc i p' (owner m.lock))) ≡ some (m.arrivals - 1))
  unfolding set_wait clear_next swap_lock link_behind start_cohort set_held count_in unlock_free tap
  last_keeps acquire_swap at e = ground (arith, inv.free, inv.last)
  last_keeps try_cas at e = ground (arith, inv.free, inv.last)
  last_keeps (release_store {k}) at e = ground (
    arith,
    inv.last,
    inv.fifo.turn i k,
    inv.linked i k,
    inv.locals i,
    inv.fifo.range (owner (s.mem.next (node_of i))) (suc k),
  )
  last_keeps mv at e = ground (arith, inv.last)

  linked_keeps :
      {p : Pc} {m : Level} {p' : Pc}
      → Move g i s.mem p m p'
      → s.pc i ≡ p
      → (j k : ℕ) → number (role_of (put s.pc i p' j)) ≡ some k
      → m.next (node_of j) ≢ null
      → put s.pc i p' (owner (m.next (node_of j))) ≡ spin (suc k)
  unfolding set_wait clear_next swap_lock link_behind start_cohort set_held count_in unlock_free tap
  linked_keeps acquire_swap at j l has ne = ground (arith, inv.linked j l, inv.locals i)
  linked_keeps (acquire_link {pred} {k}) at j l has ne =
      ground (arith, inv.linked j l, inv.locals i, inv.fifo.unique j (owner pred) l)
  linked_keeps (acquire_spin {k}) at j l has ne =
      ground (arith, inv.linked j l, inv.locals i, inv.fifo.range j l)
  linked_keeps try_cas at j l has ne = ground (arith, inv.linked j l, inv.locals i)
  linked_keeps mv at j l has ne = ground (arith, inv.linked j l)

  -- What the one that moves knows then.
  mover_knows :
      {p : Pc} {m : Level} {p' : Pc}
      → Move g i s.mem p m p'
      → s.pc i ≡ p
      → Local g (after s i m p') i p'
  unfolding set_wait clear_next swap_lock link_behind start_cohort set_held count_in unlock_free tap
  mover_knows acquire_swap at = ground (
    arith,
    inv.last,
    inv.dropped,
    inv.locals i,
    inv.linked (owner s.mem.lock) (s.mem.arrivals - 1),
    inv.fifo.range (owner (s.mem.next s.mem.lock)) s.mem.arrivals,
  )
  mover_knows (release_count {k} q) at = ground (arith, inv.locals i)
  mover_knows (release_root {k} q) at = ground (arith, inv.locals i)
  mover_knows (release_cas {k}) at = ground (
    arith,
    inv.locals i,
    inv.free,
    inv.last,
    inv.fifo.range i k,
    inv.fifo.unique i (owner s.mem.lock) k,
  )
  mover_knows (release_store {k}) at = tt
  mover_knows mv at = ground (arith, inv.locals i)

  -- What the others know stays true.
  others_know :
      {p : Pc} {m : Level} {p' : Pc}
      → Move g i s.mem p m p'
      → s.pc i ≡ p
      → (j : ℕ) → j ≢ i
      → (q : Pc) → s.pc j ≡ q
      → Local g (after s i m p') j q
  unfolding set_wait clear_next swap_lock link_behind start_cohort set_held count_in unlock_free tap
  others_know (reuse_status t) at j ne q is = ground (arith, inv.locals j)
  others_know reuse_next at j ne q is = ground (arith, inv.locals j)
  others_know acquire_swap at j ne q is = ground (arith, inv.locals j)
  others_know try_cas at j ne q is = ground (arith, inv.locals j)
  others_know first_start at j ne q is = ground (arith, inv.locals j)
  others_know (acquire_link {pred} {k}) at j ne q is =
      ground (arith, inv.locals j, inv.locals i, inv.fifo.unique i j k)
  others_know (acquire_spin {k}) at j ne q is =
      ground (arith, inv.locals j, inv.locals i, inv.fifo.turn j (place q), inv.fifo.unique i j k)
  others_know next_start at j ne q is = ground (arith, inv.locals j)
  others_know (acquire_up {k}) at j ne q is = ground (
    arith,
    inv.locals j,
    inv.locals i,
    inv.fifo.turn i k,
    inv.fifo.turn j (place q),
    inv.fifo.unique i j k,
  )
  others_know (release_count e) at j ne q is = ground (arith, inv.locals j)
  others_know release_next at j ne q is = ground (arith, inv.locals j)
  others_know (release_up {k}) at j ne q is = ground (
    arith,
    inv.locals j,
    inv.locals i,
    inv.fifo.turn i k,
    inv.fifo.turn j (place q),
    inv.fifo.unique i j k,
  )
  others_know (release_root e) at j ne q is = ground (arith, inv.locals j)
  others_know release_load at j ne q is = ground (arith, inv.locals j)
  others_know (release_cas {k}) at j ne q is = ground (
    arith,
    inv.locals j,
    inv.last,
    inv.fifo.turn i k,
    inv.fifo.range j (place q),
    inv.fifo.unique i j k,
  )
  others_know release_spin at j ne q is = ground (arith, inv.locals j)
  others_know (release_store {k} {succ} {v}) at j ne q is = ground (
    arith,
    inv.locals j,
    inv.locals i,
    inv.linked i k,
    inv.fifo.turn i k,
    inv.fifo.range j (place q),
    inv.fifo.unique i j k,
    inv.fifo.unique j (owner succ) (suc k),
  )

  pub Move-Inv : {p' : Pc} {m : Level} → Move g i s.mem (s.pc i) m p' → Inv g n (after s i m p')
  Move-Inv {p'} {m} mv = record {
    fifo = FifoStep-FifoInv inv.fifo (Move-FifoStep fit inv i lt mv refl);
    free = free_keeps mv refl;
    dropped = dropped_keeps mv refl;
    last = last_keeps mv refl;
    linked = linked_keeps mv refl;
    locals =
        put_all (Local g (after s i m p')) s.pc i p' (mover_knows mv refl)
          (λ j ne. others_know mv refl j ne (s.pc j) refl);
  }

pub Inv-init :
    (g : Config) (n : ℕ) (status : Ptr → ℕ) (next : Ptr → Ptr) → Inv g n (init status next)
Inv-init g n status next = record {
  fifo = FifoInv-empty n;
  free = λ e. refl;
  dropped = λ e r. refl;
  last = λ e. absurd (e refl);
  linked = λ i k q. cc;
  locals = λ i. tt;
}
