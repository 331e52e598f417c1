-- ===== src/Lock/Mcs/Invariant.antt =====
-- What links the queue nodes of zm_mcs.c to the order of arrival, kept by every access.
use izem.Prelude.{ℕ, suc, ◌-◌, ◌<◌, ◌≡◌, ◌≢◌, refl, ◌⊎◌, inl, inr, ◌==◌, some, arith, Bool-cases}
use izem.Prelude.Family.{put}
use izem.Interleave.{State}
use izem.Lock.Fifo.{FifoStep, arrive, try_enter, leave, stutter, number, FifoInv}
use izem.Lock.Mcs.{
  Ptr, null, node_of, locked, unlocked, Mcs, Pc, reset, behind, marked, spin, trying, critical,
  unlocking, awaiting, passing, handing, clear_next, swap_lock, set_locked, link_behind,
  unlock_free, hand_over, Move, acquire_reset, acquire_swap, acquire_mark, acquire_link,
  acquire_spin, try_reset, try_cas, release_load, release_cas, release_spin, release_reload,
  release_store, role_of, abstract,
}

-- The thread whose node is at `p`.
abbrev pub owner : Ptr → ℕ
owner p = p - 1

-- `pred` is the node of the thread that arrived just before number `k`, not yet linked onwards.
abbrev pub Behind : State Mcs Pc → Ptr → ℕ → Type 0
Behind s pred k =
    (0 < pred)
    × (s.mem.served < k)
    × (number (role_of (s.pc (owner pred))) ≡ some (k - 1))
    × (s.mem.next pred ≡ null)

-- What a thread's place says about shared memory.
abbrev pub Local : State Mcs Pc → ℕ → Pc → Type 0
Local s i reset = s.mem.next (node_of i) ≡ null
Local s i trying = s.mem.next (node_of i) ≡ null
Local s i (behind pred k) = Behind s pred k
Local s i (marked pred k) = Behind s pred k × (s.mem.status (node_of i) ≡ locked)
Local s i (spin k) =
    ((s.mem.status (node_of i) ≡ locked) × (s.mem.served < k))
    ⊎ ((s.mem.status (node_of i) ≡ unlocked) × (k ≡ s.mem.served))
Local s i (awaiting k) = suc k < s.mem.arrivals
Local s i (passing k) = s.mem.next (node_of i) ≢ null
Local s i (handing k succ) = (s.mem.next (node_of i) ≡ succ) × (succ ≢ null)
Local s i _ = Unit

-- The number of a thread in line.
abbrev pub place : Pc → ℕ
place (behind _ k) = k
place (marked _ k) = k
place (spin k) = k
place (critical k) = k
place (unlocking k) = k
place (awaiting k) = k
place (passing k) = k
place (handing k _) = k
place _ = 0

pub record Inv (n : ℕ) (s : State Mcs Pc) : Type 0 where
  pub fifo : FifoInv n (abstract s)
  pub free : s.mem.lock ≡ null → s.mem.arrivals ≡ s.mem.served
  -- the lock word holds the node of the last arrival
  pub last :
      s.mem.lock ≢ null
      → (s.mem.served < s.mem.arrivals)
        × (number (role_of (s.pc (owner s.mem.lock))) ≡ some (s.mem.arrivals - 1))
  -- a link leads to the next arrival, which spins
  pub linked :
      (i k : ℕ)
      → number (role_of (s.pc i)) ≡ some k
      → s.mem.next (node_of i) ≢ null
      → s.pc (owner (s.mem.next (node_of i))) ≡ spin (suc k)
  -- and a thread that spins in line is linked from the arrival before it
  pub backed :
      (i j k : ℕ)
      → s.pc j ≡ spin k
      → s.mem.served < k
      → number (role_of (s.pc i)) ≡ some (k - 1)
      → s.mem.next (node_of i) ≡ node_of j
  pub locals : (i : ℕ) → Local s i (s.pc i)

-- The state after thread `i` has gone to `p` and left memory `m`.
abbrev pub after : State Mcs Pc → ℕ → Mcs → Pc → State Mcs Pc
after s i m p = record { mem = m; pc = put s.pc i p }

module _ {n : ℕ} {s : State Mcs Pc} (inv : Inv n s) (i : ℕ) (lt : i < n) where
  -- The step of the abstract lock.
  pub Move-FifoStep :
      {p : Pc} {m : Mcs} {p' : Pc}
      → Move i s.mem p m p'
      → s.pc i ≡ p
      → FifoStep n (abstract s) (abstract (after s i m p'))
  unfolding clear_next swap_lock set_locked link_behind unlock_free hand_over
  Move-FifoStep acquire_reset at = stutter (λ j. ground arith) refl refl
  Move-FifoStep acquire_swap at = elim (Bool-cases (s.mem.lock == null)) [
    | inl yes_free ↦
        try_enter i lt (λ j ne. ground arith) (ground arith) (ground (arith, inv.free))
          (ground (arith, inv.free)) refl refl
    | inr taken ↦ arrive i lt (λ j ne. ground arith) (ground arith) (ground arith) refl refl
  ]
  Move-FifoStep acquire_mark at = stutter (λ j. ground arith) refl refl
  Move-FifoStep acquire_link at = stutter (λ j. ground arith) refl refl
  Move-FifoStep (acquire_spin {k}) at = elim (Bool-cases (s.mem.status (node_of i) == unlocked)) [
    | inl go ↦
        FifoStep.enter i lt (λ j ne. ground arith) (ground (arith, inv.locals i))
          (ground (arith, inv.locals i)) refl refl
    | inr stay ↦ stutter (λ j. ground arith) refl refl
  ]
  Move-FifoStep try_reset at = stutter (λ j. ground arith) refl refl
  Move-FifoStep try_cas at = elim (Bool-cases (s.mem.lock == null)) [
    | inl yes_free ↦
        try_enter i lt (λ j ne. ground arith) (ground arith) (ground (arith, inv.free))
          (ground (arith, inv.free)) (ground arith) (ground arith)
    | inr taken ↦ stutter (λ j. ground arith) (ground arith) (ground arith)
  ]
  Move-FifoStep release_load at = stutter (λ j. ground arith) refl refl
  Move-FifoStep (release_cas {k}) at = elim (Bool-cases (s.mem.lock == node_of i)) [
    | inl mine ↦
        leave i lt (λ j ne. ground arith) (ground (arith, inv.fifo.turn i k)) (ground arith)
          (ground arith) (ground arith)
    | inr more ↦ stutter (λ j. ground arith) (ground arith) (ground arith)
  ]
  Move-FifoStep release_spin at = stutter (λ j. ground arith) refl refl
  Move-FifoStep release_reload at = stutter (λ j. ground arith) refl refl
  Move-FifoStep (release_store {k}) at =
      leave i lt (λ j ne. ground arith) (ground (arith, inv.fifo.turn i k)) (ground arith) refl refl
