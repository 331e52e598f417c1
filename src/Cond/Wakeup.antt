-- ===== src/Cond/Wakeup.antt =====
-- A counting condition variable wakes its waiters when the count has come down to 0, and not
-- before, unless a wake-up is forced.
use izem.Prelude.{ℕ, ◌<◌, ◌≡◌, ◌⊎◌, refl, Bool, true, false, Option, none, some, arith}
use izem.Prelude.Family.{put}
use izem.Interleave.{State, Step, pick, Reach, Any, Reach-invariant}
use izem.Cond.{
  Cond, new, mark, clear, force, count_down, take_lock, drop_lock, Pc, idle, marking, unlocking,
  spinning, relocking, waited, counting, testing, clearing, reported, Move, lock_acquire,
  wait_acquire, init,
}

abbrev owns : Pc → Bool
owns idle = false
owns spinning = false
owns relocking = false
owns _ = true

-- What a thread's place says of the count and of the flag.
abbrev Local : Cond → Pc → Type 0
Local m marking = 0 < m.count
Local m unlocking = (0 < m.count) × ((m.waiting ≡ true) ⊎ (m.forced ≡ true))
Local m spinning = m.waiting ≡ false → (m.count ≡ 0) ⊎ (m.forced ≡ true)
Local m relocking = (m.count ≡ 0) ⊎ (m.forced ≡ true)
Local m waited = (m.count ≡ 0) ⊎ (m.forced ≡ true)
Local m (reported c) = c ≡ m.count
Local m counting = 0 < m.count
Local m clearing = m.count ≡ 0
Local m _ = Unit

-- On the way from the decrement to the clearing of the flag.
abbrev ending : Pc → Bool
ending testing = true
ending clearing = true
ending _ = false

abbrev owner_ending : Option ℕ → (ℕ → Pc) → Bool
owner_ending none pc = false
owner_ending (some i) pc = ending (pc i)

record Inv (s : State Cond Pc) : Type 0 where
  own : (i : ℕ) → owns (s.pc i) ≡ true → s.mem.owner ≡ some i
  locals : (i : ℕ) → Local s.mem (s.pc i)
  lost : s.mem.waiting ≡ true → s.mem.count ≡ 0 → owner_ending s.mem.owner s.pc ≡ true

module _ {s : State Cond Pc} (inv : Inv s) (i : ℕ) where
  open s use {mem, pc}

  own_keeps :
      {p : Pc} {m : Cond} {p' : Pc}
      → Move i mem p m p'
      → pc i ≡ p
      → (j : ℕ) → owns (put pc i p' j) ≡ true
      → m.owner ≡ some j
  unfolding take_lock drop_lock mark clear force count_down
  own_keeps (lock_acquire e) at j o = ground (arith, inv.own j, inv.own i)
  own_keeps (wait_acquire e) at j o = ground (arith, inv.own j, inv.own i)
  own_keeps mv at j o = ground (arith, inv.own j, inv.own i)

  locals_keep :
      {p : Pc} {m : Cond} {p' : Pc}
      → Move i mem p m p'
      → pc i ≡ p
      → (j : ℕ) → Local m (put pc i p' j)
  unfolding take_lock drop_lock mark clear force count_down
  locals_keep (lock_acquire e) at j =
      ground (arith, inv.own j, inv.own i, inv.locals i, inv.locals j)
  locals_keep (wait_acquire e) at j =
      ground (arith, inv.own j, inv.own i, inv.locals i, inv.locals j)
  locals_keep mv at j = ground (arith, inv.own j, inv.own i, inv.locals i, inv.locals j)

  lost_keeps :
      {p : Pc} {m : Cond} {p' : Pc}
      → Move i mem p m p'
      → pc i ≡ p
      → m.waiting ≡ true
      → m.count ≡ 0
      → owner_ending m.owner (put pc i p') ≡ true
  unfolding take_lock drop_lock mark clear force count_down
  lost_keeps (lock_acquire e) at w z = ground (arith, inv.own i, inv.locals i, inv.lost)
  lost_keeps (wait_acquire e) at w z = ground (arith, inv.own i, inv.locals i, inv.lost)
  lost_keeps mv at w z = ground (arith, inv.own i, inv.locals i, inv.lost)

  Move-Inv :
      {p' : Pc} {m : Cond} → Move i mem (pc i) m p' → Inv (record { mem = m; pc = put pc i p' })
  Move-Inv mv = record {
    own = own_keeps mv refl;
    locals = locals_keep mv refl;
    lost = lost_keeps mv refl;
  }

Inv-init : (n : ℕ) → Inv (init n)
unfolding init new
Inv-init n = record { own = λ i. cc; locals = λ i. tt; lost = cc }

Reach-Inv : (k : ℕ) {n : ℕ} {s : State Cond Pc} → Reach Move Any n (init k) s → Inv s
Reach-Inv k {n} {s} run =
    Reach-invariant Inv (Inv-init k) (λ r t inv ok st. Step-Inv r t inv st) s run
  where
    Step-Inv : (r t : State Cond Pc) → Inv r → Step Move n r t → Inv t
    Step-Inv r t inv (pick i lt mv) = Move-Inv inv i mv

module _ (k : ℕ) {n : ℕ} {s : State Cond Pc} (run : Reach Move Any n (init k) s) where
  -- A thread that waited comes back only when the count is 0, or a wake-up has been forced, and then
  -- it owns the lock.
  pub scount_wait_done :
      (i : ℕ)
      → s.pc i ≡ waited
      → ((s.mem.count ≡ 0) ⊎ (s.mem.forced ≡ true)) × (s.mem.owner ≡ some i)
  scount_wait_done i e = let inv = Reach-Inv k run in ground (arith, inv.locals i, inv.own i)

  -- When the count is 0 and no thread has the lock, the flag is clear: no waiter spins on.
  pub scount_no_lost_wakeup : s.mem.count ≡ 0 → s.mem.owner ≡ none → s.mem.waiting ≡ false
  scount_no_lost_wakeup z e = let inv = Reach-Inv k run in let l = inv.lost in ground arith

  -- What `zm_scount_signal` leaves in `*out_count` is the count, as long as the caller keeps the lock;
  -- where it is 0, the flag is clear, so no waiter spins on.
  pub scount_signal_reports :
      (i c : ℕ) → s.pc i ≡ reported c → (c ≡ s.mem.count) × ((c ≡ 0) → s.mem.waiting ≡ false)
  scount_signal_reports i c e =
      let inv = Reach-Inv k run in
      (ground (arith, inv.locals i), λ z. ground (arith, inv.locals i, inv.own i, inv.lost))

  -- While the count is positive and no wake-up was forced, no thread leaves the spin of a wait.
  pub scount_wait_blocks :
      (i : ℕ) → s.pc i ≡ spinning → 0 < s.mem.count → s.mem.forced ≡ false → s.mem.waiting ≡ true
  scount_wait_blocks i e lt calm = let inv = Reach-Inv k run in ground (arith, inv.locals i)
