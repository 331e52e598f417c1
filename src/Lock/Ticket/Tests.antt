-- ===== src/Lock/Ticket/Tests.antt =====
-- Concrete runs of the ticket lock, and its theorems there.
use izem.Prelude.{ℕ, ◌≡◌, ◌⊎◌, refl, arith}
use izem.Prelude.Family.{put}
use izem.Interleave.{State, Reach, start, later, pick}
use izem.Lock.Fifo.{FifoStep}
use izem.Lock.Ticket.{
  ticket_init, draw_ticket, ticket_release, Shared, Pc, idle, spin, critical, Move, draw, enter,
  release, init, Prompt, abstract,
}
use izem.Lock.Ticket.Refinement.{ticket_refines}
use izem.Lock.Ticket.Safety.{ticket_exclusive, ticket_progress}

abbrev tickets : ℕ → Shared
tickets k = record { lock = record { next_ticket = k; now_serving = 0 }; issued = k; released = 0 }

-- Thread 0 owns the lock and thread 1 spins.
abbrev contended : State Shared Pc
contended = record {
  mem = tickets 2;
  pc = put (put (put (λ _. idle) 0 (spin 0 0)) 1 (spin 1 1)) 0 (critical 0);
}

contended_run : Reach Move Prompt 2 init contended
unfolding ticket_init draw_ticket
contended_run =
    later
      (later
        (later (start (λ i my k h. ground arith))
          (pick 0 {m = tickets 1} (omega arith) (draw refl refl refl refl refl))
          (λ i my k h. ground arith))
        (pick 1 {m = tickets 2} (omega arith) (draw refl refl refl refl refl))
        (λ i my k h. ground arith))
      (pick 0 (omega arith) (enter 0 0 refl refl refl refl)) (λ i my k h. ground arith)

-- Thread 0 has released, and thread 1 is next.
abbrev released : Shared
released = record { lock = record { next_ticket = 2; now_serving = 1 }; issued = 2; released = 1 }

ticket_refines_example :
    FifoStep 2
      (abstract contended)
      (abstract (record { mem = released; pc = put contended.pc 0 idle }))
unfolding ticket_release
ticket_refines_example =
    ticket_refines (omega arith) contended_run
      (pick 0 {m = released} (omega arith) (release 0 refl refl refl refl refl))

ticket_exclusive_example : ◌≡◌ {A = ℕ} 0 0
ticket_exclusive_example = ticket_exclusive (omega arith) contended_run 0 0 0 0 refl refl

ticket_progress_example : (j k : ℕ) × ((contended.pc j ≡ critical k) ⊎ (contended.pc j ≡ spin 0 k))
ticket_progress_example = ticket_progress (omega arith) contended_run 1 1 1 refl
