-- ===== src/Lock/Mcs/Tests.antt =====
-- A concrete run of the MCS lock, and its theorems there.
use izem.Prelude.{ℕ, ◌≡◌, ◌⊎◌, refl, arith}
use izem.Prelude.Family.{put}
use izem.Interleave.{State, Reach, start, later, pick, Any}
use izem.Lock.Fifo.{FifoStep, inside}
use izem.Lock.Mcs.{
  null, node_of, unlocked, Mcs, Pc, idle, reset, behind, marked, spin, critical, unlocking,
  awaiting, clear_next, swap_lock, set_locked, Move, acquire_reset, acquire_swap, acquire_mark,
  release_load, release_cas, init, role_of, abstract,
}
use izem.Lock.Mcs.Safety.{mcs_refines, mcs_progress}

abbrev zeros : ℕ → ℕ
zeros _ = 0

-- Thread 1 has swapped itself in behind thread 0, which waits in `release_c` for the link.
abbrev contended : State Mcs Pc
contended = record {
  mem = record {
    lock = 2;
    status = zeros;
    next = put (put zeros 1 null) 2 null;
    arrivals = 2;
    served = 0;
  };
  pc =
      put
        (put (put (put (put (put (λ _. idle) 0 reset) 0 (critical 0)) 1 reset) 1 (behind 1 1)) 0
          (unlocking 0))
        0 (awaiting 0);
}

contended_run : Reach Move Any 2 (init zeros zeros) contended
unfolding clear_next swap_lock
contended_run =
    later
      (later
        (later
          (later
            (later (later (start tt) (pick 0 (omega arith) acquire_reset) tt)
              (pick 0 (omega arith) acquire_swap) tt)
            (pick 1 (omega arith) acquire_reset) tt)
          (pick 1 (omega arith) acquire_swap) tt)
        (pick 0 (omega arith) (release_load {k = 0})) tt)
      (pick 0 (omega arith) (release_cas {k = 0})) tt

mcs_refines_example : FifoStep 2 (abstract contended) (
    abstract (record {
      mem = record {
        lock = 2;
        status = put zeros 2 1;
        next = put (put zeros 1 null) 2 null;
        arrivals = 2;
        served = 0;
      };
      pc = put contended.pc 1 (marked 1 1);
    }))
unfolding set_locked
mcs_refines_example =
    mcs_refines contended_run (pick 1 (omega arith) (acquire_mark {pred = 1} {k = 1}))

mcs_progress_example :
    (j : ℕ) × ((role_of (contended.pc j) ≡ inside 0)
      ⊎ ((contended.pc j ≡ spin 0) × (contended.mem.status (node_of j) ≡ unlocked)))
mcs_progress_example = mcs_progress contended_run 1 1 refl
