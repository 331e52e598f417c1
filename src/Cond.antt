-- ===== src/Cond.antt =====
-- src/cond/zm_ccond.c and src/cond/zm_scount.c: a flag that waiters spin on, and the count that
-- clears it. The callers hold the user's lock at a wait and at a signal, as for any condition
-- variable; the lock is taken as one that a single thread owns. `zm_scond_signalf`
-- may be called with the lock and without it.
pub mod Wakeup
pub mod Skip
mod Tests
use izem.Prelude.{ℕ, ◌-◌, ◌<◌, ◌≡◌, Bool, true, false, Option, none, some, ◌==◌, if◌then◌else◌}
use izem.Interleave.{State}

-- `struct zm_scount` with its `struct zm_ccond`, and who owns the user's lock; and a history that the
-- code does not keep, whether a wake-up was ever forced.
pub record Cond : Type 0 where
  pub count : ℕ
  pub waiting : Bool  -- `cvar.flag` is `ZM_COND_WAIT`
  pub owner : Option ℕ
  pub forced : Bool

-- `zm_scount_init`
pub new : ℕ → Cond
new n = record { count = n; waiting = false; owner = none; forced = false }

-- The store of `zm_ccond_wait`.
pub mark : Cond → Cond
mark m = record m { waiting = true }

-- `zm_ccond_signal`, `zm_ccond_bcast`
pub clear : Cond → Cond
clear m = record m { waiting = false }

-- `zm_scond_signalf`
pub force : Cond → Cond
force m = record m { waiting = false; forced = true }

pub count_down : Cond → Cond
count_down m = record m { count = m.count - 1 }

pub take_lock : ℕ → Cond → Cond
take_lock i m = record m { owner = some i }

pub drop_lock : Cond → Cond
drop_lock m = record m { owner = none }

-- Where a thread stands.
pub data Pc : Type 0 where
  idle : Pc
  owning : Pc  -- it owns the lock
  marking : Pc  -- in a wait, `count > 0` seen
  unlocking : Pc  -- before the release of the lock
  spinning : Pc
  relocking : Pc  -- before the new acquisition of the lock
  waited : Pc  -- back from a wait that spun
  counting : Pc  -- in a signal, `count > 0` seen
  testing : Pc  -- before the test for 0
  clearing : Pc  -- before the store of `ZM_COND_CLEAR`
  reporting : Pc  -- before the read for `*out_count`
  reported : (out_count : ℕ) → Pc

-- One step of thread `i`.
pub data Move (i : ℕ) (m : Cond) : Pc → Cond → Pc → Type 0 where
  lock_acquire : m.owner ≡ none → Move i m idle (take_lock i m) owning
  lock_release : Move i m owning (drop_lock m) idle
  wait_test : Move i m owning m (if m.count == 0 then owning else marking)
  wait_mark : Move i m marking (mark m) unlocking
  wait_release : Move i m unlocking (drop_lock m) spinning
  wait_spin : Move i m spinning m (if m.waiting then spinning else relocking)
  wait_acquire : m.owner ≡ none → Move i m relocking (take_lock i m) waited
  wait_return : Move i m waited m owning
  signal_test : Move i m owning m (if m.count == 0 then reporting else counting)
  signal_count : Move i m counting (count_down m) testing
  signal_zero : Move i m testing m (if m.count == 0 then clearing else reporting)
  signal_clear : Move i m clearing (clear m) reporting
  signal_report : Move i m reporting m (reported m.count)
  signal_return : {c : ℕ} → Move i m (reported c) m owning
  force_owning : Move i m owning (force m) owning
  force_idle : Move i m idle (force m) idle

pub init : ℕ → State Cond Pc
init n = record { mem = new n; pc = λ _. idle }
