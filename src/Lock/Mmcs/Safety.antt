-- ===== src/Lock/Mmcs/Safety.antt =====
-- What zm_mmcs.c guarantees in every reachable state.
use izem.Prelude.{
  ℕ, suc, ◌-◌, ◌<◌, ◌≡◌, ◌≢◌, ◌⊎◌, inl, inr, refl, true, false, ◌==◌, arith, Bool-cases, fun_ext,
  ap, sym,
}
use mathlib.Core.Path.{subst}
use izem.Prelude.Family.{put, put_all}
use izem.Interleave.{State, Step, pick, Reach, start, later, Any, Reach-invariant}
use izem.Lock.Fifo.{inside}
use izem.Lock.Mcs
use izem.Lock.Mcs.{Ptr, null, node_of, Mcs, role_of}
use izem.Lock.Mcs.Safety.{mcs_exclusive, mcs_nowaiters-false}
use izem.Lock.Mmcs.{
  Mmcs, Pc, acquired, owning, releasing, set_mcs, set_ctx, Move, acquire_save, release_context,
  release_clear, init, context, nowaiters,
}
use izem.Lock.Mmcs.Invariant.{mcs_pc, as_mcs, keeps_context, Own, Move-McsMove}

-- `nowaiters_c` of zm_mcs.c, computed.
nowaiters_lem : (i : ℕ) (m : Mcs) → izem.Lock.Mcs.nowaiters i m ≡ (m.next (node_of i) == null)
unfolding izem.Lock.Mcs.nowaiters
nowaiters_lem i m = refl

record Inv (n : ℕ) (status : Ptr → ℕ) (next : Ptr → Ptr) (s : State Mmcs Pc) : Type 0 where
  pub run : Reach izem.Lock.Mcs.Move Any n (izem.Lock.Mcs.init status next) (as_mcs s)
  pub keeper : (i : ℕ) → keeps_context (s.pc i) ≡ true → s.mem.cur_ctx ≡ node_of i
  pub kept : s.mem.cur_ctx ≢ null → keeps_context (s.pc (s.mem.cur_ctx - 1)) ≡ true
  pub own : (i : ℕ) → Own i (s.pc i)

abbrev after : State Mmcs Pc → ℕ → Mmcs → Pc → State Mmcs Pc
after s i m p = record { mem = m; pc = put s.pc i p }

as_mcs-after :
    (s : State Mmcs Pc) (i : ℕ) (m : Mmcs) (p : Pc)
    → ◌≡◌ {A = State Mcs izem.Lock.Mcs.Pc}
        (record { mem = m.mcs; pc = put (as_mcs s).pc i (mcs_pc p) })
        (as_mcs (after s i m p))
as_mcs-after s i m p =
    ap (λ f. record { mem = m.mcs; pc = f })
      (fun_ext
        (λ j. elim (Bool-cases (i == j)) [ inl same ↦ rw same refl | inr other ↦ rw other refl ]))

as_mcs-still :
    (s : State Mmcs Pc) (i : ℕ) (m : Mmcs) (p : Pc)
    → m.mcs ≡ s.mem.mcs
    → mcs_pc p ≡ mcs_pc (s.pc i)
    → as_mcs s ≡ as_mcs (after s i m p)
as_mcs-still s i m p same stay = λ t. record { mem = sym same t; pc = λ j. others j t }
  where
    others : (j : ℕ) → mcs_pc (s.pc j) ≡ mcs_pc (put s.pc i p j)
    others j = elim (Bool-cases (i == j)) [
      | inl here ↦
          let e : i ≡ j = ground arith in
          rw here (subst (λ c. mcs_pc (s.pc c) ≡ mcs_pc p) e (sym stay))
      | inr other ↦ rw other refl
    ]

-- A place that owns the lock of zm_mcs.c.
keeper_inside :
    (p : Pc)
    → (keeps_context p ≡ true) ⊎ ((k : ℕ) × (p ≡ acquired k))
    → (k : ℕ) × (role_of (mcs_pc p) ≡ inside k)
keeper_inside (acquired k) h = (k, refl)
keeper_inside (owning k) h = (k, refl)
keeper_inside (releasing k I) h = (k, refl)
keeper_inside p h = ground arith

module _ {n : ℕ} {status : Ptr → ℕ} {next : Ptr → Ptr} {s : State Mmcs Pc}
    (inv : Inv n status next s) (i : ℕ) (lt : i < n) where
  run_keeps :
      {p : Pc} {m : Mmcs} {p' : Pc}
      → s.pc i ≡ p
      → Move i s.mem p m p'
      → Reach izem.Lock.Mcs.Move Any n (izem.Lock.Mcs.init status next) (as_mcs (after s i m p'))
  run_keeps {p} {m} {p'} at mv =
      let own_p : Own i p = subst (Own i) at (inv.own i) in
      elim (Move-McsMove mv own_p) [
        | inl step ↦
            later inv.run
              (subst (Step izem.Lock.Mcs.Move n (as_mcs s)) (as_mcs-after s i m p') (
                pick i lt (
                  subst (λ q. izem.Lock.Mcs.Move i s.mem.mcs (mcs_pc q) m.mcs (mcs_pc p')) (sym at)
                    step)))
              tt
        | inr (same, stay) ↦
            subst (Reach izem.Lock.Mcs.Move Any n (izem.Lock.Mcs.init status next))
              (as_mcs-still s i m p' same (rw at stay)) inv.run
      ]

  keeper_keeps :
      {p : Pc} {m : Mmcs} {p' : Pc}
      → s.pc i ≡ p
      → Move i s.mem p m p'
      → (j : ℕ) → keeps_context (put s.pc i p' j) ≡ true
      → m.cur_ctx ≡ node_of j
  unfolding set_mcs set_ctx
  keeper_keeps at (acquire_save {k}) j h = elim (Bool-cases (i == j)) [
    | inl same ↦ ground arith
    | inr other ↦
        let (l, has) = keeper_inside (s.pc j) (inl (ground arith)) in
        let e = mcs_exclusive inv.run i j k l (rw at refl) has in ground arith
  ]
  keeper_keeps at release_clear j h = ground (arith, inv.keeper i, inv.keeper j)
  keeper_keeps at mv j h = ground (arith, inv.keeper j)

  kept_keeps :
      {p : Pc} {m : Mmcs} {p' : Pc}
      → s.pc i ≡ p
      → Move i s.mem p m p'
      → m.cur_ctx ≢ null
      → keeps_context (put s.pc i p' (m.cur_ctx - 1)) ≡ true
  unfolding set_mcs set_ctx
  kept_keeps at acquire_save ne = ground (arith, inv.kept)
  kept_keeps at release_clear ne = ground (arith, inv.kept)
  kept_keeps at mv ne = ground (arith, inv.kept)

  mover_owns : {p : Pc} {m : Mmcs} {p' : Pc} → s.pc i ≡ p → Move i s.mem p m p' → Own i p'
  unfolding set_mcs set_ctx
  mover_owns at (release_context {k}) = inv.keeper i (rw at refl)
  mover_owns at mv = ground (arith, inv.own i)

  Move-Inv : {m : Mmcs} {p' : Pc} → Move i s.mem (s.pc i) m p' → Inv n status next (after s i m p')
  Move-Inv {m} {p'} mv = record {
    run = run_keeps refl mv;
    keeper = keeper_keeps refl mv;
    kept = kept_keeps refl mv;
    own = put_all Own s.pc i p' (mover_owns refl mv) (λ j ne. inv.own j);
  }

Reach-Inv :
    {n : ℕ} {status : Ptr → ℕ} {next : Ptr → Ptr} {s : State Mmcs Pc}
    → Reach Move Any n (init status next) s
    → Inv n status next s
Reach-Inv {n} {status} {next} {s} run =
    Reach-invariant (Inv n status next)
      (record { run = start tt; keeper = λ i h. cc; kept = λ ne. absurd (ne refl); own = λ i. tt })
      (λ r t inv ok st. Step-Inv r t inv st) s run
  where
    Step-Inv : (r t : State Mmcs Pc) → Inv n status next r → Step Move n r t → Inv n status next t
    Step-Inv r t inv (pick i lt mv) = Move-Inv inv i lt mv

module _ {n : ℕ} {status : Ptr → ℕ} {next : Ptr → Ptr} {s : State Mmcs Pc}
    (run : Reach Move Any n (init status next) s) where
  -- Every run of zm_mmcs.c, from any contents of the queue nodes, is a run of the MCS lock of
  -- zm_mcs.c.
  pub mmcs_simulates : Reach izem.Lock.Mcs.Move Any n (izem.Lock.Mcs.init status next) (as_mcs s)
  mmcs_simulates = (Reach-Inv run).run

  -- Two threads are never between the end of `zm_mmcs_acquire` and the end of `zm_mmcs_release`
  -- together.
  pub mmcs_exclusive :
      (i j k l : ℕ)
      → role_of (mcs_pc (s.pc i)) ≡ inside k
      → role_of (mcs_pc (s.pc j)) ≡ inside l
      → i ≡ j
  mmcs_exclusive = mcs_exclusive (Reach-Inv run).run

  -- An acquisition that is given `NULL` for its context would use `NULL`, or the node of a thread
  -- that owns the lock.
  pub mmcs_context-null :
      (context null s.mem ≡ null)
      ⊎ ((i k : ℕ) × (context null s.mem ≡ node_of i) × (role_of (mcs_pc (s.pc i)) ≡ inside k))
  unfolding context
  mmcs_context-null =
      let inv = Reach-Inv run in
      elim (Bool-cases (s.mem.cur_ctx == null)) [
        | inl empty ↦ inl (ground arith)
        | inr full ↦
            let ne : s.mem.cur_ctx ≢ null = ground arith in
            let i = s.mem.cur_ctx - 1 in
            let (k, has) = keeper_inside (s.pc i) (inl (inv.kept ne)) in
            inr (i, k, inv.keeper i (inv.kept ne), has)
      ]

  -- `zm_mmcs_nowaiters`, called by the owner, never denies a waiter that is not there: when it answers
  -- no, the link of the owner's node leads to that of the next thread in the order of arrival,
  -- which spins.
  pub mmcs_nowaiters-false :
      (i k : ℕ)
      → s.pc i ≡ owning k
      → nowaiters s.mem ≡ false
      → mcs_pc (s.pc (s.mem.mcs.next s.mem.cur_ctx - 1)) ≡ izem.Lock.Mcs.spin (suc k)
  unfolding nowaiters
  mmcs_nowaiters-false i k at denied =
      let inv = Reach-Inv run in
      let e : s.mem.cur_ctx ≡ node_of i = inv.keeper i (rw at refl) in
      let mine : izem.Lock.Mcs.nowaiters i s.mem.mcs ≡ false =
        rw (nowaiters_lem i s.mem.mcs, ← e) denied in
      rw e (mcs_nowaiters-false inv.run i k (rw at refl) mine)
