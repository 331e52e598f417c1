-- ===== src/Lock/Ticket/Refinement.antt =====
-- Every access of zm_ticket.c is a step of the abstract lock of Lock/Fifo.antt, or none.
use izem.Prelude.{ℕ, ◌+◌, ◌^◌, ◌≤◌, ◌<◌, ◌≡◌, refl, inl, inr, arith}
use izem.Prelude.Family.{put, put_all, total-le}
use izem.Prelude.Word.{u32, u32_injective}
use izem.Interleave.{State, Step, pick, Reach, Reach-Ok, Reach-invariant}
use izem.Lock.Fifo.{Role, FifoStep, arrive, try_enter, leave, stutter, weight, FifoInv}
use izem.Lock.Fifo.Laws.{FifoStep-FifoInv, FifoInv-empty}
use izem.Lock.Ticket.{
  ticket_init, draw_ticket, try_ticket, ticket_release, Shared, Pc, spin, tried, casing, Move, draw,
  wait, try_next, try_serving, cas_win, cas_lose, release, init, Prompt, abstract,
}

-- What the local variables of a thread say about the shared counts.
abbrev pub Local : Shared → Pc → Type 0
Local m (spin my_ticket k) = my_ticket ≡ u32 k
Local m (tried my_ticket stamp) =
    (my_ticket ≡ u32 stamp) × (stamp ≤ m.issued) × (stamp < m.released + 2 ^ 32)
Local m (casing my_ticket stamp) =
    (my_ticket ≡ u32 stamp) × (stamp ≤ m.issued) × (stamp ≤ m.released)
Local m _ = Unit

pub record Inv (n : ℕ) (s : State Shared Pc) : Type 0 where
  pub fifo : FifoInv n (abstract s)
  pub next : s.mem.lock.next_ticket ≡ u32 s.mem.issued
  pub serving : s.mem.lock.now_serving ≡ u32 s.mem.released
  pub locals : (i : ℕ) → Local s.mem (s.pc i)

weight-le : (r : Role) → weight r ≤ 1
weight-le r = ground arith

-- The counts are never a full turn apart.
pub room :
    {n : ℕ} {s : State Shared Pc}
    → n < 2 ^ 32
    → Inv n s
    → (s.mem.released ≤ s.mem.issued) × (s.mem.issued < s.mem.released + 2 ^ 32)
room {n} {s} few inv =
    let c = inv.fifo.counted in
    let l = total-le weight n (abstract s).role (λ i. weight-le _) in (omega arith, omega arith)

module _ {n : ℕ} {s : State Shared Pc} (few : n < 2 ^ 32) (inv : Inv n s) (prompt : Prompt s)
    (i : ℕ) (lt : i < n) (m : Shared) (p : Pc) where
  abbrev after : State Shared Pc
  after = record { mem = m; pc = put s.pc i p }

  -- The step of the abstract lock.
  Move-FifoStep : Move i s.mem (s.pc i) m p → FifoStep n (abstract s) (abstract after)
  unfolding draw_ticket try_ticket ticket_release
  Move-FifoStep (draw was now next more still) =
      arrive i lt (λ j ne. ground arith) (ground arith) (ground arith) more still
  Move-FifoStep (wait my k was busy now same) =
      stutter (λ j. ground arith) (ground arith) (ground arith)
  Move-FifoStep (Move.enter my k was turn now same) =
      let r = room few inv in
      let c = inv.serving in
      let l : my ≡ u32 k = ground (arith, inv.locals i) in
      let q : (s.mem.released ≤ k) × (k < s.mem.issued) = inv.fifo.range i k (ground arith) in
      let e : s.mem.released ≡ k =
        u32_injective s.mem.released k (omega arith) (omega arith) (omega arith) in
      FifoStep.enter i lt (λ j ne. ground arith) (ground arith) (ground arith) (ground arith)
        (ground arith)
  Move-FifoStep (try_next was now same) = stutter (λ j. ground arith) (ground arith) (ground arith)
  Move-FifoStep (try_serving my stamp was now same) =
      stutter (λ j. ground arith) (ground arith) (ground arith)
  Move-FifoStep (cas_win my stamp was won now next more still) =
      let r = room few inv in
      let c = inv.next in
      let l : (my ≡ u32 stamp) × (stamp ≤ s.mem.issued) × (stamp ≤ s.mem.released) =
        ground (arith, inv.locals i) in
      let t : s.mem.issued < stamp + 2 ^ 32 = prompt i my stamp (inr was) in
      let f : s.mem.lock.next_ticket ≡ my = ground arith in
      let e : stamp ≡ s.mem.issued =
        u32_injective stamp s.mem.issued (omega arith) (omega arith) (omega arith) in
      try_enter i lt (λ j ne. ground arith) (ground arith) (omega arith) (ground arith) more still
  Move-FifoStep (cas_lose my stamp was lost now same) =
      stutter (λ j. ground arith) (ground arith) (ground arith)
  Move-FifoStep (release k was now next more still) =
      let e : k ≡ s.mem.released = inv.fifo.turn i k (ground arith) in
      leave i lt (λ j ne. ground arith) (ground arith) (ground arith) more still

  next_keeps : Move i s.mem (s.pc i) m p → m.lock.next_ticket ≡ u32 m.issued
  unfolding draw_ticket try_ticket ticket_release
  next_keeps (draw was now next more still) = ground (arith, inv.next)
  next_keeps (cas_win my stamp was won now next more still) = ground (arith, inv.next)
  next_keeps mv = ground (arith, inv.next)

  serving_keeps : Move i s.mem (s.pc i) m p → m.lock.now_serving ≡ u32 m.released
  unfolding draw_ticket try_ticket ticket_release
  serving_keeps (draw was now next more still) = ground (arith, inv.serving)
  serving_keeps (cas_win my stamp was won now next more still) = ground (arith, inv.serving)
  serving_keeps mv = ground (arith, inv.serving)

  -- The locals of the thread that moves.
  mover_knows : Move i s.mem (s.pc i) m p → Local m p
  unfolding draw_ticket try_ticket ticket_release
  mover_knows (draw was now next more still) = ground (arith, inv.next)
  mover_knows (wait my k was busy now same) = ground (arith, inv.locals i)
  mover_knows (try_next was now same) = ground (arith, inv.next, room few inv)
  mover_knows (try_serving my stamp was now same) =
      let c = inv.serving in
      let r = room few inv in
      let t : s.mem.issued < stamp + 2 ^ 32 = prompt i my stamp (inl was) in
      ground (arith, inv.locals i)
  mover_knows (Move.enter my k was turn now same) = ground arith
  mover_knows (cas_win my stamp was won now next more still) = ground arith
  mover_knows (cas_lose my stamp was lost now same) = ground arith
  mover_knows (release k was now next more still) = ground arith

  -- The locals of another thread.
  others_know : Move i s.mem (s.pc i) m p → (q : Pc) → Local s.mem q → Local m q
  others_know (draw was now next more still) q h = ground arith
  others_know mv q h = ground arith

  Move-Inv : Move i s.mem (s.pc i) m p → Inv n after
  Move-Inv mv = record {
    fifo = FifoStep-FifoInv inv.fifo (Move-FifoStep mv);
    next = next_keeps mv;
    serving = serving_keeps mv;
    locals =
        put_all (λ j. Local m) s.pc i p (mover_knows mv) (λ j ne. others_know mv _ (inv.locals j));
  }

Inv-init : (n : ℕ) → Inv n init
unfolding ticket_init
Inv-init n = record { fifo = FifoInv-empty n; next = refl; serving = refl; locals = λ i. tt }

pub Reach-Inv : {n : ℕ} {s : State Shared Pc} → n < 2 ^ 32 → Reach Move Prompt n init s → Inv n s
Reach-Inv {n} {s} few run =
    Reach-invariant (Inv n) (Inv-init n) (λ r t inv ok st. Step-Inv r t inv ok st) s run
  where
    Step-Inv : (r t : State Shared Pc) → Inv n r → Prompt r → Step Move n r t → Inv n t
    Step-Inv r t inv ok (pick i {m} {p} lt mv) = Move-Inv few inv ok i lt m p mv

-- In a run of fewer than 2 ^ 32 threads in which `zm_ticket_tryacq` is prompt, each access of
-- shared memory changes the abstract first-come-first-served lock by one of its steps, or not at
-- all: the wrap-around of the 32-bit tickets does not show.
pub ticket_refines :
    {n : ℕ} {s t : State Shared Pc}
    → n < 2 ^ 32
    → Reach Move Prompt n init s
    → Step Move n s t
    → FifoStep n (abstract s) (abstract t)
ticket_refines few run (pick i {m} {p} lt mv) =
    Move-FifoStep few (Reach-Inv few run) (Reach-Ok run) i lt m p mv
