-- ===== src/Lock/Hmcs/Level/Safety.antt =====
-- What one node of zm_hmcs.c guarantees in every reachable state, with any number of participants.
use izem.Prelude.{ℕ, ◌≤◌, ◌≡◌, ◌≢◌, ◌⊎◌, refl, true, false, arith}
use izem.Interleave.{State, Step, pick, Reach, Any, Reach-invariant}
use izem.Lock.Fifo.{waiting, inside, FifoStep}
use izem.Lock.Fifo.Laws.{Fifo-progress}
use izem.Lock.Hmcs.Level.{
  Ptr, node_of, wait, Config, IsFit, Level, Pc, spin, critical, Move, init, role_of, abstract,
}
use izem.Lock.Hmcs.Level.Invariant.{Inv, Move-FifoStep}
use izem.Lock.Hmcs.Level.Keeps.{Inv-init, Move-Inv}

Reach-Inv :
    {g : Config} (fit : IsFit g) {n : ℕ} {status : Ptr → ℕ} {next : Ptr → Ptr} {s : State Level Pc}
    → Reach (Move g) Any n (init status next) s
    → Inv g n s
Reach-Inv {g} fit {n} {status} {next} {s} run =
    Reach-invariant (Inv g n) (Inv-init g n status next) (λ r t inv ok st. Step-Inv r t inv st) s
      run
  where
    Step-Inv : (r t : State Level Pc) → Inv g n r → Step (Move g) n r t → Inv g n t
    Step-Inv r t inv (pick i lt mv) = Move-Inv fit inv i lt mv

module _ {g : Config} (fit : IsFit g) {n : ℕ} {status : Ptr → ℕ} {next : Ptr → Ptr}
    {s : State Level Pc} (run : Reach (Move g) Any n (init status next) s) where
  -- With a threshold of at least 1 and below `ACQUIRE_PARENT`, every access of a node of zm_hmcs.c,
  -- from any contents of its queue nodes, is a step of the abstract first-come-first-served lock,
  -- or none.
  pub hnode_refines :
      {t : State Level Pc} → Step (Move g) n s t → FifoStep n (abstract s) (abstract t)
  hnode_refines (pick i lt mv) = Move-FifoStep fit (Reach-Inv fit run) i lt mv refl

  -- With such a threshold, while one waits at a node, another is past its wait or spins on a status
  -- that is no longer `WAIT`.
  pub hnode_progress :
      (i k : ℕ)
      → role_of (s.pc i) ≡ waiting k
      → (j : ℕ) × ((role_of (s.pc j) ≡ inside s.mem.served)
          ⊎ ((s.pc j ≡ spin s.mem.served) × (s.mem.status (node_of j) ≢ wait)))
  hnode_progress i k q =
      let inv = Reach-Inv fit run in
      let (j, has) = Fifo-progress inv.fifo i k q in (j, ground (arith, inv.locals j))

  -- With such a threshold, below the root: one past its acquisition of a node has the parent, and
  -- its status is the number of those who have come past their acquisition since the parent was
  -- last acquired, itself included; that number is at least 1 and at most the threshold.
  pub hnode_cohort :
      g.root ≡ false
      → (i k : ℕ) → s.pc i ≡ critical k
      → (s.mem.held ≡ true)
        × (s.mem.status (node_of i) ≡ s.mem.cohort)
        × (1 ≤ s.mem.cohort)
        × (s.mem.cohort ≤ g.threshold)
  hnode_cohort r i k e = ground (arith, (Reach-Inv fit run).locals i)
