-- ===== src/Lock/Mcs.antt =====
-- src/lock/zm_mcs.c: the MCS queue lock, one shared access at a time, for any number of threads.
-- `mcs_acquire`, `mcs_tryacq`, `mcs_release` and their `_c` variants run `acquire_c`, `tryacq_c` and
-- `release_c` on a queue node of the calling thread: `&L->local_nodes[tid]`, or the caller's own.
pub mod Binding
pub mod Invariant
mod Keeps
pub mod Safety
mod Tests
use izem.Prelude.{ℕ, zero, suc, ◌+◌, ◌≡◌, ◌≢◌, Bool, true, false, ◌==◌, if◌then◌else◌}
use izem.Prelude.Family.{put}
use izem.Interleave.{State}
use izem.Lock.Fifo.{Role, out, waiting, inside, Fifo}

abbrev pub Ptr : Type 0
Ptr = ℕ

abbrev pub null : Ptr
null = 0

-- The queue node of thread `i`: distinct threads have distinct nodes, as Binding shows,
-- and none is at `NULL`.
abbrev pub node_of : ℕ → Ptr
node_of i = suc i

-- `ZM_LOCKED` and `ZM_UNLOCKED`
abbrev pub locked : ℕ
locked = 1

abbrev pub unlocked : ℕ
unlocked = 0

-- `struct zm_mcs` and the `struct zm_mcs_qnode`s, by address; and two counts that the code does not
-- keep, of arrivals and of releases.
pub record Mcs : Type 0 where
  pub lock : Ptr
  pub status : Ptr → ℕ
  pub next : Ptr → Ptr
  pub arrivals : ℕ
  pub served : ℕ

-- Where a thread stands. `number` is its place in the order of arrival, which the code has not.
pub data Pc : Type 0 where
  idle : Pc
  reset : Pc  -- `acquire_c` has cleared `I->next`
  behind : (pred : Ptr) (number : ℕ) → Pc  -- it has swapped itself in behind `pred`
  marked : (pred : Ptr) (number : ℕ) → Pc  -- it has set `I->status`
  spin : (number : ℕ) → Pc  -- its `while`
  trying : Pc  -- `tryacq_c` has cleared `I->next`
  critical : (number : ℕ) → Pc  -- the thread owns the lock
  unlocking : (number : ℕ) → Pc  -- `release_c` has read `I->next` as `NULL`
  awaiting : (number : ℕ) → Pc  -- its exchange failed: its `while`
  passing : (number : ℕ) → Pc  -- `I->next` is set; before the last statement
  handing : (number : ℕ) (succ : Ptr) → Pc  -- it has read `I->next` there

-- The fields that the operations write.
unfoldable pub clear_next : ℕ → Mcs → Mcs
clear_next i m = record m { next = put m.next (node_of i) null }

unfoldable pub swap_lock : ℕ → Mcs → Mcs
swap_lock i m = record m { lock = node_of i; arrivals = suc m.arrivals }

unfoldable pub set_locked : ℕ → Mcs → Mcs
set_locked i m = record m { status = put m.status (node_of i) locked }

unfoldable pub link_behind : Ptr → ℕ → Mcs → Mcs
link_behind pred i m = record m { next = put m.next pred (node_of i) }

-- The exchange of `release_c` when it succeeds.
pub unlock_free : Mcs → Mcs
unlock_free m = record m { lock = null; served = suc m.served }

-- Its last statement.
pub hand_over : Ptr → Mcs → Mcs
hand_over succ m = record m { status = put m.status succ unlocked; served = suc m.served }

-- One access of thread `i`.
pub data Move (i : ℕ) (m : Mcs) : Pc → Mcs → Pc → Type 0 where
  acquire_reset : Move i m idle (clear_next i m) reset
  acquire_swap :
      Move i m reset
        (swap_lock i m)
        (if m.lock == null then critical m.arrivals else behind m.lock m.arrivals)
  acquire_mark : {pred : Ptr} {k : ℕ} → Move i m (behind pred k) (set_locked i m) (marked pred k)
  acquire_link : {pred : Ptr} {k : ℕ} → Move i m (marked pred k) (link_behind pred i m) (spin k)
  acquire_spin :
      {k : ℕ}
      → Move i m (spin k) m (if m.status (node_of i) == unlocked then critical k else spin k)
  try_reset : Move i m idle (clear_next i m) trying
  try_cas :
      Move i m trying
        (if m.lock == null then swap_lock i m else m)
        (if m.lock == null then critical m.arrivals else idle)
  release_load :
      {k : ℕ}
      → Move i m (critical k) m (if m.next (node_of i) == null then unlocking k else passing k)
  release_cas :
      {k : ℕ}
      → Move i m
          (unlocking k)
          (if m.lock == node_of i then unlock_free m else m)
          (if m.lock == node_of i then idle else awaiting k)
  release_spin :
      {k : ℕ}
      → Move i m (awaiting k) m (if m.next (node_of i) == null then awaiting k else passing k)
  release_reload : {k : ℕ} → Move i m (passing k) m (handing k (m.next (node_of i)))
  release_store : {k : ℕ} {succ : Ptr} → Move i m (handing k succ) (hand_over succ m) idle

-- `new_lock`: the lock is free, and the nodes hold whatever the allocator left in them.
abbrev pub init : (Ptr → ℕ) → (Ptr → Ptr) → State Mcs Pc
init status next = record {
  mem = record { lock = null; status = status; next = next; arrivals = 0; served = 0 };
  pc = λ _. idle;
}

-- `nowaiters_c`
unfoldable pub nowaiters : ℕ → Mcs → Bool
nowaiters i m = m.next (node_of i) == null

-- The abstract lock that a state stands for.
abbrev pub role_of : Pc → Role
role_of idle = out
role_of reset = out
role_of trying = out
role_of (behind _ k) = waiting k
role_of (marked _ k) = waiting k
role_of (spin k) = waiting k
role_of (critical k) = inside k
role_of (unlocking k) = inside k
role_of (awaiting k) = inside k
role_of (passing k) = inside k
role_of (handing k _) = inside k

abbrev pub abstract : State Mcs Pc → Fifo
abstract s = record {
  arrivals = s.mem.arrivals;
  served = s.mem.served;
  role = λ i. role_of (s.pc i);
}
