-- ===== src/Lock/Mmcs.antt =====
-- src/lock/zm_mmcs.c: the MCS lock that keeps the owner's queue node in the lock, `cur_ctx`, one
-- shared access at a time. Each thread acquires with a queue node of its own; `zm_mmcs_release`
-- finds the node in `cur_ctx`.
mod Invariant
pub mod Safety
mod Tests
use izem.Prelude.{ℕ, Bool, true, false, ◌==◌, if◌then◌else◌}
use izem.Interleave.{State}
use izem.Lock.Mcs.{
  Ptr, null, node_of, unlocked, Mcs, clear_next, swap_lock, set_locked, link_behind, unlock_free,
  hand_over,
}

-- `zm_mmcs_t`, with the queue nodes.
pub record Mmcs : Type 0 where
  pub mcs : Mcs
  pub cur_ctx : Ptr

-- Where a thread stands; `k` is its place in the order of arrival, which the code has not, and `I`
-- the local variable of `zm_mmcs_release`.
pub data Pc : Type 0 where
  idle : Pc
  reset : Pc  -- `zm_mmcs_acquire` has cleared `I->next`
  behind : (pred : Ptr) (k : ℕ) → Pc  -- it has swapped itself in behind `pred`
  marked : (pred : Ptr) (k : ℕ) → Pc  -- it has set `I->status`
  spin : (k : ℕ) → Pc  -- its `while`
  acquired : (k : ℕ) → Pc  -- before it sets `L->cur_ctx`
  owning : (k : ℕ) → Pc  -- after its return
  releasing : (k : ℕ) (I : Ptr) → Pc  -- `zm_mmcs_release` has read `L->cur_ctx`
  cleared : (k : ℕ) (I : Ptr) → Pc  -- it has set it to `NULL`
  unlocking : (k : ℕ) (I : Ptr) → Pc  -- it has read `I->next` as `NULL`
  awaiting : (k : ℕ) (I : Ptr) → Pc  -- its exchange failed: its `while`
  passing : (k : ℕ) (I : Ptr) → Pc  -- `I->next` is set; before the last statement
  handing : (k : ℕ) (I succ : Ptr) → Pc  -- it has read `I->next` there

pub set_mcs : Mcs → Mmcs → Mmcs
set_mcs l m = record m { mcs = l }

pub set_ctx : Ptr → Mmcs → Mmcs
set_ctx p m = record m { cur_ctx = p }

-- One access of thread `i`.
pub data Move (i : ℕ) (m : Mmcs) : Pc → Mmcs → Pc → Type 0 where
  acquire_reset : Move i m idle (set_mcs (clear_next i m.mcs) m) reset
  acquire_swap :
      Move i m reset
        (set_mcs (swap_lock i m.mcs) m)
        (if m.mcs.lock == null then acquired m.mcs.arrivals else behind m.mcs.lock m.mcs.arrivals)
  acquire_mark :
      {pred : Ptr} {k : ℕ}
      → Move i m (behind pred k) (set_mcs (set_locked i m.mcs) m) (marked pred k)
  acquire_link :
      {pred : Ptr} {k : ℕ}
      → Move i m (marked pred k) (set_mcs (link_behind pred i m.mcs) m) (spin k)
  acquire_spin :
      {k : ℕ}
      → Move i m (spin k) m (if m.mcs.status (node_of i) == unlocked then acquired k else spin k)
  acquire_save : {k : ℕ} → Move i m (acquired k) (set_ctx (node_of i) m) (owning k)
  release_context : {k : ℕ} → Move i m (owning k) m (releasing k m.cur_ctx)
  release_clear : {k : ℕ} {I : Ptr} → Move i m (releasing k I) (set_ctx null m) (cleared k I)
  release_load :
      {k : ℕ} {I : Ptr}
      → Move i m (cleared k I) m (if m.mcs.next I == null then unlocking k I else passing k I)
  release_cas :
      {k : ℕ} {I : Ptr}
      → Move i m
          (unlocking k I)
          (if m.mcs.lock == I then set_mcs (unlock_free m.mcs) m else m)
          (if m.mcs.lock == I then idle else awaiting k I)
  release_spin :
      {k : ℕ} {I : Ptr}
      → Move i m (awaiting k I) m (if m.mcs.next I == null then awaiting k I else passing k I)
  release_reload : {k : ℕ} {I : Ptr} → Move i m (passing k I) m (handing k I (m.mcs.next I))
  release_store :
      {k : ℕ} {I succ : Ptr} → Move i m (handing k I succ) (set_mcs (hand_over succ m.mcs) m) idle

-- `zm_mmcs_init`: the lock is free, and the nodes hold whatever they did.
abbrev pub init : (Ptr → ℕ) → (Ptr → Ptr) → State Mmcs Pc
init status next = record {
  mem = record {
    mcs = record { lock = null; status = status; next = next; arrivals = 0; served = 0 };
    cur_ctx = null;
  };
  pc = λ _. idle;
}

-- The node that `zm_mmcs_acquire` uses for the context `I`.
pub context : Ptr → Mmcs → Ptr
context I m = if I == null then m.cur_ctx else I

-- `zm_mmcs_nowaiters`, which reads through `cur_ctx`.
pub nowaiters : Mmcs → Bool
nowaiters m = m.mcs.next m.cur_ctx == null
