-- ===== src/Lock/Ticket/Safety.antt =====
-- What zm_ticket.c guarantees in every reachable state.
use izem.Prelude.{ℕ, ◌-◌, ◌^◌, ◌<◌, ◌≡◌, ◌≢◌, ◌⊎◌, ◌↔◌, true, arith, sym}
use izem.Prelude.Word.{sub32, sub32_lem, u32_injective}
use izem.Interleave.{State, Reach}
use izem.Lock.Fifo.{out}
use izem.Lock.Fifo.Laws.{Fifo-exclusive, Fifo-order, Fifo-progress, Fifo-free, Fifo-alone}
use izem.Lock.Ticket.{
  try_ticket, ticket_tryacq, ticket_nowaiters, Shared, Pc, spin, critical, Move, init, Prompt,
  role_of,
}
use izem.Lock.Ticket.Refinement.{room, Reach-Inv}

module _ {n : ℕ} {s : State Shared Pc} (few : n < 2 ^ 32) (run : Reach Move Prompt n init s) where
  -- Two threads never own the lock together, whether they came by `zm_ticket_acquire` or by
  -- `zm_ticket_tryacq`: with fewer than 2 ^ 32 threads, in a run where no thread sleeps inside
  -- `zm_ticket_tryacq` while the tickets go once round.
  pub ticket_exclusive : (i j k l : ℕ) → s.pc i ≡ critical k → s.pc j ≡ critical l → i ≡ j
  ticket_exclusive i j k l p q =
      Fifo-exclusive (Reach-Inv few run).fifo i j k l (ground arith) (ground arith)

  -- With fewer than 2 ^ 32 threads, in a run where no thread sleeps inside `zm_ticket_tryacq` while
  -- the tickets go once round, the owner drew its ticket before every thread that spins.
  pub ticket_order : (i j k my l : ℕ) → s.pc i ≡ critical k → s.pc j ≡ spin my l → k < l
  ticket_order i j k my l p q =
      Fifo-order (Reach-Inv few run).fifo i j k l (ground arith) (ground arith)

  -- With fewer than 2 ^ 32 threads, in a run where no thread sleeps inside `zm_ticket_tryacq` while
  -- the tickets go once round, while a thread spins, some thread owns the lock or finds
  -- its ticket served, so that its next test of `now_serving` lets it in: a release is never lost.
  pub ticket_progress :
      (i my l : ℕ)
      → s.pc i ≡ spin my l
      → (j k : ℕ) × ((s.pc j ≡ critical k) ⊎ (s.pc j ≡ spin s.mem.lock.now_serving k))
  ticket_progress i my l q =
      let inv = Reach-Inv few run in
      let (j, has) = Fifo-progress inv.fifo i l (ground arith) in
      (j, s.mem.released, ground (arith, inv.serving, inv.locals j))

  -- With fewer than 2 ^ 32 threads, in a run where no thread sleeps inside `zm_ticket_tryacq` while
  -- the tickets go once round, `zm_ticket_tryacq`, when no other thread moves meanwhile,
  -- succeeds exactly when no thread owns the lock or waits for it.
  pub ticket_tryacq-free :
      ((ticket_tryacq s.mem.lock).1 ≡ true) ↔ ((j : ℕ) → role_of (s.pc j) ≡ out)
  unfolding ticket_tryacq try_ticket
  ticket_tryacq-free =
      let inv = Reach-Inv few run in
      let r = room few inv in
      let a = inv.next in
      let b = inv.serving in
      let free = Fifo-free inv.fifo in
      (
        λ won. free.0 (sym (u32_injective s.mem.released s.mem.issued r.0 r.1 (ground arith))),
        λ all. let e = free.1 all in ground arith,
      )

  -- With fewer than 2 ^ 32 threads, in a run where no thread sleeps inside `zm_ticket_tryacq` while
  -- the tickets go once round, `zm_ticket_nowaiters`, called by the owner, tells whether
  -- every other thread is outside the lock and its queue.
  pub ticket_nowaiters_lem :
      (i k : ℕ)
      → s.pc i ≡ critical k
      → (ticket_nowaiters s.mem.lock ≡ true) ↔ ((j : ℕ) → j ≢ i → role_of (s.pc j) ≡ out)
  unfolding ticket_nowaiters
  ticket_nowaiters_lem i k q =
      let inv = Reach-Inv few run in
      let r = room few inv in
      let a = inv.next in
      let b = inv.serving in
      let d = sub32_lem s.mem.issued s.mem.released r.0 r.1 in
      let alone = Fifo-alone inv.fifo i k (ground arith) in
      let same : sub32 s.mem.lock.next_ticket s.mem.lock.now_serving
          ≡ s.mem.issued - s.mem.released =
        rw (a, b) d in
      (λ h. alone.0 (ground arith), λ h. let e = alone.1 h in ground arith)
