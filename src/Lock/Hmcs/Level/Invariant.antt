-- ===== src/Lock/Hmcs/Level/Invariant.antt =====
-- What links the queue nodes of a node of zm_hmcs.c, their counts, and the parent.
use izem.Prelude.{
  ℕ, suc, ◌-◌, ◌<◌, ◌≤◌, ◌≡◌, ◌≢◌, refl, ◌⊎◌, inl, inr, ◌==◌, some, arith, Bool-cases, true, false,
}
use izem.Prelude.Family.{put}
use izem.Interleave.{State}
use izem.Lock.Fifo.{FifoStep, arrive, try_enter, leave, stutter, number, FifoInv}
use izem.Lock.Hmcs.Level.{
  Ptr, null, node_of, wait, acquire_parent, Config, IsFit, Level, Pc, reusing, ready, first, behind,
  spin, asked, climbing, critical, counted, descending, tapping, unlocking, awaiting, passing,
  set_wait, clear_next, swap_lock, link_behind, start_cohort, set_held, count_in, unlock_free, tap,
  Move, reuse_status, reuse_next, acquire_swap, try_cas, first_start, acquire_link, acquire_spin,
  next_start, acquire_up, release_count, release_next, release_up, release_root, release_load,
  release_cas, release_spin, release_store, role_of, abstract,
}

-- Whose queue node is at `p`.
abbrev pub owner : Ptr → ℕ
owner p = p - 1

-- What is handed on by status `v`: the parent with it, or the order to acquire the parent.
abbrev pub Handed : Config → Level → ℕ → Type 0
Handed g m v =
    (v ≢ wait)
    × (g.root ≡ false
        → ((v ≡ acquire_parent) × (m.held ≡ false))
          ⊎ ((v ≡ suc m.cohort) × (v ≤ g.threshold) × (m.held ≡ true)))

abbrev pub Behind : State Level Pc → Ptr → ℕ → Type 0
Behind s pred k =
    (0 < pred)
    × (s.mem.served < k)
    × (number (role_of (s.pc (owner pred))) ≡ some (k - 1))
    × (s.mem.next pred ≡ null)

-- What a place says about shared memory.
abbrev pub Local : Config → State Level Pc → ℕ → Pc → Type 0
Local g s i (reusing t) = (s.mem.status (node_of i) ≡ wait) × (t ≡ true → g.root ≡ true)
Local g s i (ready t) =
    (s.mem.status (node_of i) ≡ wait) × (s.mem.next (node_of i) ≡ null) × (t ≡ true → g.root ≡ true)
Local g s i (behind pred k) = Behind s pred k × (s.mem.status (node_of i) ≡ wait)
Local g s i (spin k) =
    ((s.mem.status (node_of i) ≡ wait) × (s.mem.served < k))
    ⊎ ((k ≡ s.mem.served) × Handed g s.mem (s.mem.status (node_of i)))
Local g s i (first k) = (g.root ≡ false) × (s.mem.held ≡ false)
Local g s i (asked k) = (g.root ≡ false) × (s.mem.held ≡ false)
Local g s i (climbing k) = (g.root ≡ false) × (s.mem.held ≡ false) × (s.mem.status (node_of i) ≡ 1)
Local g s i (critical k) =
    g.root ≡ false
    → (s.mem.held ≡ true)
      × (s.mem.status (node_of i) ≡ s.mem.cohort)
      × (1 ≤ s.mem.cohort)
      × (s.mem.cohort ≤ g.threshold)
Local g s i (counted k c) =
    (g.root ≡ false) × (s.mem.held ≡ true) × (c ≡ s.mem.cohort) × (1 ≤ c) × (c < g.threshold)
Local g s i (descending k) = (g.root ≡ false) × (s.mem.held ≡ true)
Local g s i (tapping k) = g.root ≡ false → s.mem.held ≡ false
Local g s i (unlocking k) = g.root ≡ false → s.mem.held ≡ false
Local g s i (awaiting k) = (suc k < s.mem.arrivals) × (g.root ≡ false → s.mem.held ≡ false)
Local g s i (passing k succ v) = (s.mem.next (node_of i) ≡ succ) × (succ ≢ null) × Handed g s.mem v
Local g s i _ = Unit

-- The number of one in line.
abbrev pub place : Pc → ℕ
place (first k) = k
place (behind _ k) = k
place (spin k) = k
place (asked k) = k
place (climbing k) = k
place (critical k) = k
place (counted k _) = k
place (descending k) = k
place (tapping k) = k
place (unlocking k) = k
place (awaiting k) = k
place (passing k _ _) = k
place _ = 0

pub record Inv (g : Config) (n : ℕ) (s : State Level Pc) : Type 0 where
  pub fifo : FifoInv n (abstract s)
  pub free : s.mem.lock ≡ null → s.mem.arrivals ≡ s.mem.served
  pub dropped : s.mem.lock ≡ null → g.root ≡ false → s.mem.held ≡ false
  pub last :
      s.mem.lock ≢ null
      → (s.mem.served < s.mem.arrivals)
        × (number (role_of (s.pc (owner s.mem.lock))) ≡ some (s.mem.arrivals - 1))
  pub linked :
      (i k : ℕ)
      → number (role_of (s.pc i)) ≡ some k
      → s.mem.next (node_of i) ≢ null
      → s.pc (owner (s.mem.next (node_of i))) ≡ spin (suc k)
  pub locals : (i : ℕ) → Local g s i (s.pc i)

-- The state after `i` has gone to `p` and left memory `m`.
abbrev pub after : State Level Pc → ℕ → Level → Pc → State Level Pc
after s i m p = record { mem = m; pc = put s.pc i p }

module _ {g : Config} (fit : IsFit g) {n : ℕ} {s : State Level Pc} (inv : Inv g n s) (i : ℕ)
    (lt : i < n) where
  -- The step of the abstract lock.
  pub Move-FifoStep :
      {p : Pc} {m : Level} {p' : Pc}
      → Move g i s.mem p m p'
      → s.pc i ≡ p
      → FifoStep n (abstract s) (abstract (after s i m p'))
  unfolding set_wait clear_next swap_lock link_behind start_cohort set_held count_in unlock_free tap
  Move-FifoStep (reuse_status t) at = stutter (λ j. ground arith) refl refl
  Move-FifoStep reuse_next at = stutter (λ j. ground arith) refl refl
  Move-FifoStep acquire_swap at = elim (Bool-cases (s.mem.lock == null)) [
    | inl yes_free ↦
        try_enter i lt (λ j ne. ground arith) (ground arith) (ground (arith, inv.free))
          (ground (arith, inv.free)) refl refl
    | inr taken ↦ arrive i lt (λ j ne. ground arith) (ground arith) (ground arith) refl refl
  ]
  Move-FifoStep try_cas at = elim (Bool-cases (s.mem.lock == null)) [
    | inl yes_free ↦
        try_enter i lt (λ j ne. ground arith) (ground arith) (ground (arith, inv.free))
          (ground (arith, inv.free)) (ground arith) (ground arith)
    | inr taken ↦ stutter (λ j. ground arith) (ground arith) (ground arith)
  ]
  Move-FifoStep first_start at = stutter (λ j. ground arith) refl refl
  Move-FifoStep acquire_link at = stutter (λ j. ground arith) refl refl
  Move-FifoStep (acquire_spin {k}) at = elim (Bool-cases (s.mem.status (node_of i) == wait)) [
    | inl stay ↦ stutter (λ j. ground arith) refl refl
    | inr go ↦
        FifoStep.enter i lt (λ j ne. ground arith) (ground (arith, inv.locals i))
          (ground (arith, inv.locals i)) refl refl
  ]
  Move-FifoStep next_start at = stutter (λ j. ground arith) refl refl
  Move-FifoStep acquire_up at = stutter (λ j. ground arith) refl refl
  Move-FifoStep (release_count e) at = stutter (λ j. ground arith) refl refl
  Move-FifoStep release_next at = stutter (λ j. ground arith) refl refl
  Move-FifoStep release_up at = stutter (λ j. ground arith) refl refl
  Move-FifoStep (release_root e) at = stutter (λ j. ground arith) refl refl
  Move-FifoStep release_load at = stutter (λ j. ground arith) refl refl
  Move-FifoStep (release_cas {k}) at = elim (Bool-cases (s.mem.lock == node_of i)) [
    | inl mine ↦
        leave i lt (λ j ne. ground arith) (ground (arith, inv.fifo.turn i k)) (ground arith)
          (ground arith) (ground arith)
    | inr more ↦ stutter (λ j. ground arith) (ground arith) (ground arith)
  ]
  Move-FifoStep release_spin at = stutter (λ j. ground arith) refl refl
  Move-FifoStep (release_store {k}) at =
      leave i lt (λ j ne. ground arith) (ground (arith, inv.fifo.turn i k)) (ground arith) refl refl
