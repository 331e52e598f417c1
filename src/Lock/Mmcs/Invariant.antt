-- ===== src/Lock/Mmcs/Invariant.antt =====
-- zm_mmcs.c runs the MCS lock: the state of that lock that a state stands for, and what `cur_ctx`
-- holds.
use izem.Prelude.{ℕ, ◌≡◌, ◌⊎◌, inl, inr, refl, Bool, true, false, ◌==◌, if◌then◌else◌}
use mathlib.Core.Path.{subst}
use izem.Interleave.{State}
use izem.Lock.Mcs
use izem.Lock.Mcs.{Ptr, null, node_of, unlocked, Mcs, role_of}
use izem.Lock.Mmcs.{
  Mmcs, Pc, idle, reset, behind, marked, spin, acquired, owning, releasing, cleared, unlocking,
  awaiting, passing, handing, set_mcs, set_ctx, Move, acquire_reset, acquire_swap, acquire_mark,
  acquire_link, acquire_spin, acquire_save, release_context, release_clear, release_load,
  release_cas, release_spin, release_reload, release_store,
}

-- The place of the MCS lock that a place stands for.
abbrev pub mcs_pc : Pc → izem.Lock.Mcs.Pc
mcs_pc idle = izem.Lock.Mcs.idle
mcs_pc reset = izem.Lock.Mcs.reset
mcs_pc (behind pred k) = izem.Lock.Mcs.behind pred k
mcs_pc (marked pred k) = izem.Lock.Mcs.marked pred k
mcs_pc (spin k) = izem.Lock.Mcs.spin k
mcs_pc (acquired k) = izem.Lock.Mcs.critical k
mcs_pc (owning k) = izem.Lock.Mcs.critical k
mcs_pc (releasing k _) = izem.Lock.Mcs.critical k
mcs_pc (cleared k _) = izem.Lock.Mcs.critical k
mcs_pc (unlocking k _) = izem.Lock.Mcs.unlocking k
mcs_pc (awaiting k _) = izem.Lock.Mcs.awaiting k
mcs_pc (passing k _) = izem.Lock.Mcs.passing k
mcs_pc (handing k _ succ) = izem.Lock.Mcs.handing k succ

abbrev pub as_mcs : State Mmcs Pc → State Mcs izem.Lock.Mcs.Pc
as_mcs s = record { mem = s.mem.mcs; pc = λ i. mcs_pc (s.pc i) }

-- Between the write of `cur_ctx` by an acquisition and that by the release.
abbrev pub keeps_context : Pc → Bool
keeps_context (owning _) = true
keeps_context (releasing _ _) = true
keeps_context _ = false

-- The release works on the thread's own node.
abbrev pub Own : ℕ → Pc → Type 0
Own i (releasing _ I) = I ≡ node_of i
Own i (cleared _ I) = I ≡ node_of i
Own i (unlocking _ I) = I ≡ node_of i
Own i (awaiting _ I) = I ≡ node_of i
Own i (passing _ I) = I ≡ node_of i
Own i (handing _ I _) = I ≡ node_of i
Own i _ = Unit

-- A move of the MCS lock, or none.
abbrev pub McsMove : ℕ → Mmcs → Pc → Mmcs → Pc → Type 0
McsMove i m p m' p' =
    izem.Lock.Mcs.Move i m.mcs (mcs_pc p) m'.mcs (mcs_pc p')
    ⊎ ((m'.mcs ≡ m.mcs) × (mcs_pc p' ≡ mcs_pc p))

mcs_pc-if : (b : Bool) (p q : Pc) → (if b then mcs_pc p else mcs_pc q) ≡ mcs_pc (if b then p else q)
mcs_pc-if true p q = refl
mcs_pc-if false p q = refl

mcs-if : (b : Bool) (m n : Mmcs) → (if b then m.mcs else n.mcs) ≡ (if b then m else n).mcs
mcs-if true m n = refl
mcs-if false m n = refl

pub Move-McsMove :
    {i : ℕ} {m m' : Mmcs} {p p' : Pc} → Move i m p m' p' → Own i p → McsMove i m p m' p'
unfolding set_mcs set_ctx
Move-McsMove acquire_reset own = inl izem.Lock.Mcs.acquire_reset
Move-McsMove {i} {m} acquire_swap own = inl (
    subst (λ q. izem.Lock.Mcs.Move i m.mcs izem.Lock.Mcs.reset (izem.Lock.Mcs.swap_lock i m.mcs) q)
      (mcs_pc-if (m.mcs.lock == null) (acquired m.mcs.arrivals) (behind m.mcs.lock m.mcs.arrivals))
      izem.Lock.Mcs.acquire_swap)
Move-McsMove acquire_mark own = inl izem.Lock.Mcs.acquire_mark
Move-McsMove acquire_link own = inl izem.Lock.Mcs.acquire_link
Move-McsMove {i} {m} (acquire_spin {k}) own = inl (
    subst (λ q. izem.Lock.Mcs.Move i m.mcs (izem.Lock.Mcs.spin k) m.mcs q)
      (mcs_pc-if (m.mcs.status (node_of i) == unlocked) (acquired k) (spin k))
      izem.Lock.Mcs.acquire_spin)
Move-McsMove acquire_save own = inr (refl, refl)
Move-McsMove release_context own = inr (refl, refl)
Move-McsMove release_clear own = inr (refl, refl)
Move-McsMove {i} {m} (release_load {k} {I}) own = inl (
    subst (λ q. izem.Lock.Mcs.Move i m.mcs (izem.Lock.Mcs.critical k) m.mcs q)
      (mcs_pc-if (m.mcs.next I == null) (unlocking k I) (passing k I))
      (rw own izem.Lock.Mcs.release_load))
Move-McsMove {i} {m} (release_cas {k} {I}) own = inl (
    subst
      (λ q.
        izem.Lock.Mcs.Move i m.mcs (izem.Lock.Mcs.unlocking k)
          (if m.mcs.lock == I then set_mcs (izem.Lock.Mcs.unlock_free m.mcs) m else m).mcs q)
      (mcs_pc-if (m.mcs.lock == I) idle (awaiting k I))
      (subst
        (λ l.
          izem.Lock.Mcs.Move i m.mcs (izem.Lock.Mcs.unlocking k) l
            (if m.mcs.lock == I then izem.Lock.Mcs.idle else izem.Lock.Mcs.awaiting k))
        (mcs-if (m.mcs.lock == I) (set_mcs (izem.Lock.Mcs.unlock_free m.mcs) m) m)
        (rw own izem.Lock.Mcs.release_cas)))
Move-McsMove {i} {m} (release_spin {k} {I}) own = inl (
    subst (λ q. izem.Lock.Mcs.Move i m.mcs (izem.Lock.Mcs.awaiting k) m.mcs q)
      (mcs_pc-if (m.mcs.next I == null) (awaiting k I) (passing k I))
      (rw own izem.Lock.Mcs.release_spin))
Move-McsMove {i} {m} (release_reload {k} {I}) own = inl (rw own izem.Lock.Mcs.release_reload)
Move-McsMove release_store own = inl izem.Lock.Mcs.release_store
