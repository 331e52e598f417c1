-- ===== src/Lock/Mmcs/Tests.antt =====
-- A run of zm_mmcs.c in which a thread owns the lock, and the theorems there.
use izem.Prelude.{ℕ, ◌≡◌, ◌⊎◌, arith}
use izem.Prelude.Family.{put}
use izem.Interleave.{State, Reach, start, later, pick, Any}
use izem.Lock.Fifo.{inside}
use izem.Lock.Mcs
use izem.Lock.Mcs.{null, node_of, clear_next, swap_lock, link_behind, set_locked, role_of}
use izem.Lock.Mmcs.{
  Mmcs, Pc, idle, reset, behind, marked, spin, acquired, owning, set_mcs, set_ctx, Move,
  acquire_reset, acquire_swap, acquire_mark, acquire_link, acquire_save, init, context,
}
use izem.Lock.Mmcs.Invariant.{mcs_pc, as_mcs}
use izem.Lock.Mmcs.Safety.{mmcs_simulates, mmcs_context-null}

abbrev zeros : ℕ → ℕ
zeros _ = 0

-- Thread 0 owns the lock, and thread 1 spins behind it.
abbrev contended : State Mmcs Pc
contended = record {
  mem = record {
    mcs = record {
      lock = 2;
      status = put zeros 2 1;
      next = put (put (put zeros 1 null) 2 null) 1 2;
      arrivals = 2;
      served = 0;
    };
    cur_ctx = 1;
  };
  pc =
      put
        (put
          (put (put (put (put (put (λ _. idle) 0 reset) 0 (acquired 0)) 0 (owning 0)) 1 reset) 1
            (behind 1 1))
          1 (marked 1 1))
        1 (spin 1);
}

contended_run : Reach Move Any 2 (init zeros zeros) contended
unfolding clear_next swap_lock link_behind set_locked set_mcs set_ctx
contended_run =
    later
      (later
        (later
          (later
            (later
              (later (later (start tt) (pick 0 (omega arith) acquire_reset) tt)
                (pick 0 (omega arith) acquire_swap) tt)
              (pick 0 (omega arith) (acquire_save {k = 0})) tt)
            (pick 1 (omega arith) acquire_reset) tt)
          (pick 1 (omega arith) acquire_swap) tt)
        (pick 1 (omega arith) (acquire_mark {pred = 1} {k = 1})) tt)
      (pick 1 (omega arith) (acquire_link {pred = 1} {k = 1})) tt

mmcs_simulates_example :
    Reach izem.Lock.Mcs.Move Any 2 (izem.Lock.Mcs.init zeros zeros) (as_mcs contended)
mmcs_simulates_example = mmcs_simulates contended_run

mmcs_context-null_example :
    (context null contended.mem ≡ null)
    ⊎ ((i k : ℕ) × (context null contended.mem ≡ node_of i)
        × (role_of (mcs_pc (contended.pc i)) ≡ inside k))
mmcs_context-null_example = mmcs_context-null contended_run
