-- ===== src/Lock/Mcs/Safety.antt =====
-- What zm_mcs.c guarantees in every reachable state.
use izem.Prelude.{ℕ, suc, ◌<◌, ◌≡◌, ◌⊎◌, false, refl, arith}
use izem.Interleave.{State, Step, pick, Reach, Any}
use izem.Lock.Fifo.{waiting, inside, FifoStep}
use izem.Lock.Fifo.Laws.{Fifo-exclusive, Fifo-order, Fifo-progress}
use izem.Lock.Mcs.{
  Ptr, null, node_of, unlocked, Mcs, Pc, behind, marked, spin, awaiting, Move, init, nowaiters,
  role_of, abstract,
}
use izem.Lock.Mcs.Invariant.{owner, Move-FifoStep}
use izem.Lock.Mcs.Keeps.{Reach-Inv}

-- The node behind which a thread has swapped itself in.
abbrev before : Pc → Ptr
before (behind pred k) = pred
before (marked pred k) = pred
before _ = null

module _ {n : ℕ} {status : Ptr → ℕ} {next : Ptr → Ptr} {s : State Mcs Pc}
    (run : Reach Move Any n (init status next) s) where
  -- Every access of shared memory by zm_mcs.c, from any contents of the queue nodes, changes the
  -- abstract first-come-first-served lock by one of its steps, or not at all.
  pub mcs_refines : {t : State Mcs Pc} → Step Move n s t → FifoStep n (abstract s) (abstract t)
  mcs_refines (pick i lt mv) = Move-FifoStep (Reach-Inv run) i lt mv refl

  -- Two threads are never between the end of an acquisition and the end of `release_c` together.
  pub mcs_exclusive :
      (i j k l : ℕ) → role_of (s.pc i) ≡ inside k → role_of (s.pc j) ≡ inside l → i ≡ j
  mcs_exclusive = Fifo-exclusive (Reach-Inv run).fifo

  -- The owner of the lock swapped itself into the lock word before every thread that waits.
  pub mcs_order : (i j k l : ℕ) → role_of (s.pc i) ≡ inside k → role_of (s.pc j) ≡ waiting l → k < l
  mcs_order = Fifo-order (Reach-Inv run).fifo

  -- While a thread waits, some thread owns the lock, or spins on a status that is already
  -- unlocked: no hand-over is lost.
  pub mcs_progress :
      (i k : ℕ)
      → role_of (s.pc i) ≡ waiting k
      → (j : ℕ) × ((role_of (s.pc j) ≡ inside s.mem.served)
          ⊎ ((s.pc j ≡ spin s.mem.served) × (s.mem.status (node_of j) ≡ unlocked)))
  mcs_progress i k q =
      let inv = Reach-Inv run in
      let (j, has) = Fifo-progress inv.fifo i k q in (j, ground (arith, inv.locals j))

  -- When `release_c` spins on `I->next`, a thread that arrived later has still to set it, so the
  -- spin ends: that thread stands right before its write of the link, or before the write of its
  -- own status that comes first.
  pub mcs_awaited :
      (i k : ℕ)
      → s.pc i ≡ awaiting k
      → s.mem.next (node_of i) ≡ null
      → (j : ℕ) × ((s.pc j ≡ behind (node_of i) (suc k)) ⊎ (s.pc j ≡ marked (node_of i) (suc k)))
  mcs_awaited i k q e =
      let inv = Reach-Inv run in
      let r = inv.fifo.range i k (ground arith) in
      let later : suc k < s.mem.arrivals = ground (arith, inv.locals i) in
      let (j, has) = inv.fifo.covered (suc k) (omega arith) later in
      (
        j,
        ground (
          arith,
          r,
          inv.locals j,
          inv.backed i j (suc k),
          inv.fifo.unique (owner (before (s.pc j))) i k,
          inv.fifo.turn i k,
          inv.fifo.turn j (suc k),
        ),
      )

  -- `nowaiters_c` never denies a waiter that is not there: when it answers no, the node that the
  -- owner's link leads to is that of the next thread in the order of arrival, which spins.
  pub mcs_nowaiters-false :
      (i k : ℕ)
      → role_of (s.pc i) ≡ inside k
      → nowaiters i s.mem ≡ false
      → s.pc (owner (s.mem.next (node_of i))) ≡ spin (suc k)
  unfolding nowaiters
  mcs_nowaiters-false i k q h = (Reach-Inv run).linked i k (ground arith) (ground arith)
