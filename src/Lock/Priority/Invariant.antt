-- ===== src/Lock/Priority/Invariant.antt =====
-- The two-level priority locks let in one thread at a time.
use izem.Prelude.{ℕ, ◌≡◌, refl, Bool, true, false, some, arith}
use izem.Prelude.Family.{put}
use izem.Interleave.{State, Step, pick, Reach, Any, Reach-invariant}
use izem.Lock.Priority.{
  Priority, new, Pc, in_high, high_filter, high_through, critical_high, ending, opening,
  leaving_high, in_low, low_through, critical_low, opening_low, leaving_low, take_high, take_low,
  drop_high, drop_low, set_filter, set_straight, set_low_acq, Move, acquire_high, acquire_low,
  acquire_filter, acquire_low_filter, release_high_as_low, release_low_as_high, init, critical,
  is_low,
}

abbrev owns_high : Pc → Bool
owns_high in_high = true
owns_high high_filter = true
owns_high high_through = true
owns_high critical_high = true
owns_high ending = true
owns_high opening = true
owns_high leaving_high = true
owns_high _ = false

abbrev owns_low : Pc → Bool
owns_low in_low = true
owns_low low_through = true
owns_low critical_low = true
owns_low opening_low = true
owns_low leaving_low = true
owns_low _ = false

-- The thread holds the filter by itself, not for its class.
abbrev holds_filter : Pc → Bool
holds_filter high_through = true
holds_filter opening = true
holds_filter low_through = true
holds_filter critical_low = true
holds_filter opening_low = true
holds_filter _ = false

-- What a thread's place says about the flags.
abbrev Local : Priority → Pc → Type 0
Local m high_filter = m.go_straight ≡ false
Local m critical_high = m.go_straight ≡ true
Local m ending = m.go_straight ≡ true
Local m critical_low = m.low_p_acq ≡ true
Local m _ = Unit

record Inv (s : State Priority Pc) : Type 0 where
  high : (i : ℕ) → owns_high (s.pc i) ≡ true → s.mem.high_p ≡ some i
  low : (i : ℕ) → owns_low (s.pc i) ≡ true → s.mem.low_p ≡ some i
  -- the high class holds the filter while it goes straight
  straight : s.mem.go_straight ≡ true → s.mem.filter ≡ true
  held :
      (i : ℕ) → holds_filter (s.pc i) ≡ true → (s.mem.filter ≡ true) × (s.mem.go_straight ≡ false)
  alone : (i j : ℕ) → holds_filter (s.pc i) ≡ true → holds_filter (s.pc j) ≡ true → i ≡ j
  marked : s.mem.low_p_acq ≡ true → (s.mem.filter ≡ true) × (s.mem.go_straight ≡ false)
  whose : (i : ℕ) → s.mem.low_p_acq ≡ true → holds_filter (s.pc i) ≡ true → s.pc i ≡ critical_low
  locals : (i : ℕ) → Local s.mem (s.pc i)

module _ {s : State Priority Pc} (inv : Inv s) (i : ℕ) where
  open s use {mem, pc}

  high_keeps :
      {p : Pc} {m : Priority} {p' : Pc}
      → Move i mem p m p'
      → pc i ≡ p
      → (j : ℕ) → owns_high (put pc i p' j) ≡ true
      → m.high_p ≡ some j
  unfolding take_high take_low drop_high drop_low set_filter set_straight set_low_acq
  high_keeps (acquire_high e) at j o =
      ground (arith, inv.high j, inv.high i, inv.locals i, inv.marked)
  high_keeps (release_low_as_high w e) at j o =
      ground (arith, inv.high j, inv.high i, inv.locals i, inv.marked)
  high_keeps mv at j o = ground (arith, inv.high j, inv.high i, inv.locals i, inv.marked)

  low_keeps :
      {p : Pc} {m : Priority} {p' : Pc}
      → Move i mem p m p'
      → pc i ≡ p
      → (j : ℕ) → owns_low (put pc i p' j) ≡ true
      → m.low_p ≡ some j
  unfolding take_high take_low drop_high drop_low set_filter set_straight set_low_acq
  low_keeps (acquire_low e) at j o = ground (arith, inv.low j, inv.low i, inv.locals i, inv.marked)
  low_keeps (release_high_as_low e) at j o =
      ground (arith, inv.low j, inv.low i, inv.locals i, inv.marked)
  low_keeps mv at j o = ground (arith, inv.low j, inv.low i, inv.locals i, inv.marked)

  straight_keeps :
      {p : Pc} {m : Priority} {p' : Pc}
      → Move i mem p m p'
      → pc i ≡ p
      → m.go_straight ≡ true
      → m.filter ≡ true
  unfolding take_high take_low drop_high drop_low set_filter set_straight set_low_acq
  straight_keeps (acquire_high e) at g = ground (arith, inv.straight, inv.held i, inv.locals i)
  straight_keeps mv at g = ground (arith, inv.straight, inv.held i, inv.locals i)

  held_keeps :
      {p : Pc} {m : Priority} {p' : Pc}
      → Move i mem p m p'
      → pc i ≡ p
      → (j : ℕ) → holds_filter (put pc i p' j) ≡ true
      → (m.filter ≡ true) × (m.go_straight ≡ false)
  unfolding take_high take_low drop_high drop_low set_filter set_straight set_low_acq
  held_keeps (acquire_low_filter e) at j o =
      ground (arith, inv.held j, inv.held i, inv.straight, inv.locals i, inv.alone i j, inv.marked)
  held_keeps (release_high_as_low e) at j o =
      ground (arith, inv.held j, inv.held i, inv.straight, inv.locals i, inv.alone i j, inv.marked)
  held_keeps mv at j o =
      ground (arith, inv.held j, inv.held i, inv.straight, inv.locals i, inv.alone i j, inv.marked)

  alone_keeps :
      {p : Pc} {m : Priority} {p' : Pc}
      → Move i mem p m p'
      → pc i ≡ p
      → (a b : ℕ) → holds_filter (put pc i p' a) ≡ true
      → holds_filter (put pc i p' b) ≡ true
      → a ≡ b
  unfolding take_high take_low drop_high drop_low set_filter set_straight set_low_acq
  alone_keeps (acquire_filter e) at a b o o' =
      ground (arith, inv.alone a b, inv.held a, inv.held b, inv.locals i, inv.marked)
  alone_keeps (acquire_low_filter e) at a b o o' =
      ground (arith, inv.alone a b, inv.held a, inv.held b, inv.locals i, inv.marked)
  alone_keeps mv at a b o o' =
      ground (arith, inv.alone a b, inv.held a, inv.held b, inv.locals i, inv.marked)

  marked_keeps :
      {p : Pc} {m : Priority} {p' : Pc}
      → Move i mem p m p'
      → pc i ≡ p
      → m.low_p_acq ≡ true
      → (m.filter ≡ true) × (m.go_straight ≡ false)
  unfolding take_high take_low drop_high drop_low set_filter set_straight set_low_acq
  marked_keeps (acquire_high e) at l =
      ground (arith, inv.marked, inv.held i, inv.whose i, inv.locals i)
  marked_keeps mv at l = ground (arith, inv.marked, inv.held i, inv.whose i, inv.locals i)

  whose_keeps :
      {p : Pc} {m : Priority} {p' : Pc}
      → Move i mem p m p'
      → pc i ≡ p
      → (j : ℕ) → m.low_p_acq ≡ true
      → holds_filter (put pc i p' j) ≡ true
      → put pc i p' j ≡ critical_low
  unfolding take_high take_low drop_high drop_low set_filter set_straight set_low_acq
  whose_keeps (acquire_filter e) at j l o =
      ground (arith, inv.whose j, inv.marked, inv.alone i j, inv.locals i, inv.held i)
  whose_keeps (acquire_low_filter e) at j l o =
      ground (arith, inv.whose j, inv.marked, inv.alone i j, inv.locals i, inv.held i)
  whose_keeps mv at j l o =
      ground (arith, inv.whose j, inv.marked, inv.alone i j, inv.locals i, inv.held i)

  locals_keep :
      {p : Pc} {m : Priority} {p' : Pc}
      → Move i mem p m p'
      → pc i ≡ p
      → (j : ℕ) → Local m (put pc i p' j)
  unfolding take_high take_low drop_high drop_low set_filter set_straight set_low_acq
  locals_keep (release_low_as_high w e) at j = ground (
    arith,
    inv.locals j,
    inv.locals i,
    inv.high i,
    inv.high j,
    inv.held i,
    inv.alone i j,
    inv.whose i,
    inv.marked,
  )
  locals_keep mv at j = ground (
    arith,
    inv.locals j,
    inv.locals i,
    inv.high i,
    inv.high j,
    inv.held i,
    inv.alone i j,
    inv.whose i,
    inv.marked,
  )

  Move-Inv :
      {p' : Pc} {m : Priority} → Move i mem (pc i) m p' → Inv (record { mem = m; pc = put pc i p' })
  Move-Inv mv = record {
    high = high_keeps mv refl;
    low = low_keeps mv refl;
    straight = straight_keeps mv refl;
    held = held_keeps mv refl;
    alone = alone_keeps mv refl;
    marked = marked_keeps mv refl;
    whose = whose_keeps mv refl;
    locals = locals_keep mv refl;
  }

Inv-init : Inv init
unfolding new
Inv-init = record {
  high = λ i. cc;
  low = λ i. cc;
  straight = cc;
  held = λ i. cc;
  alone = λ i j. cc;
  marked = cc;
  whose = λ i. cc;
  locals = λ i. tt;
}

Reach-Inv : {n : ℕ} {s : State Priority Pc} → Reach Move Any n init s → Inv s
Reach-Inv {n} {s} run = Reach-invariant Inv Inv-init (λ r t inv ok st. Step-Inv r t inv st) s run
  where
    Step-Inv : (r t : State Priority Pc) → Inv r → Step Move n r t → Inv t
    Step-Inv r t inv (pick i lt mv) = Move-Inv inv i mv

module _ {n : ℕ} {s : State Priority Pc} (run : Reach Move Any n init s) where
  -- With blocking acquisitions of both classes, two threads are never in the critical section
  -- together, whatever the class locks answer about waiters.
  pub priority_exclusive : (i j : ℕ) → critical (s.pc i) ≡ true → critical (s.pc j) ≡ true → i ≡ j
  priority_exclusive i j p q =
      let inv = Reach-Inv run in
      ground (
        arith,
        inv.locals i,
        inv.locals j,
        inv.high i,
        inv.high j,
        inv.alone i j,
        inv.held i,
        inv.held j,
      )

  -- Then also the flag that a release reads tells the class by which its thread came in, and the
  -- filter is taken while a thread is in the critical section.
  pub priority_release_class :
      (i : ℕ)
      → critical (s.pc i) ≡ true
      → (s.mem.low_p_acq ≡ is_low (s.pc i)) × (s.mem.filter ≡ true)
  priority_release_class i e =
      let inv = Reach-Inv run in
      let a = inv.straight in let b = inv.marked in ground (arith, inv.locals i)
