-- ===== src/Lock/Hmpr.antt =====
-- src/lock/zm_hmpr.c: a lock with two classes whose waiters can be raised to the high class, over the
-- lock of zm_hmcs.c and the waiting queue of zm_wskip.c. One operation at a time; the lock is taken
-- as one that a single thread owns, and the topology's choice of a queue node is an argument.
pub mod Turns
mod Tests
use izem.Prelude.{
  ℕ, ◌-◌, Bool, true, false, ◌&&◌, not, ◌==◌, leb, if◌then◌else◌, Option, none, some,
}
use izem.Cond.Skip.{Ptr, null, Wskip, enq, wait, skip, wake}

-- `struct zm_hmpr`: the lock is taken or free; `znode` is the address of the node in it.
pub record Hmpr : Type 0 where
  pub locked : Bool
  pub go_straight : Bool
  pub znode : Ptr
  pub low_p_acq : Bool
  pub waitq : Wskip

-- `struct zm_hmpr_pnode`
pub record Pnode : Type 0 where
  pub p : ℕ
  pub qnode : Ptr

-- `zm_hmcs_acquire`; without a result, it waits for the owner.
pub hmcs_acquire : Hmpr → Option Hmpr
hmcs_acquire l = if l.locked then none else some (record l { locked = true })

-- The high class, after it has the lock.
acquire_high : Hmpr → Option Hmpr
acquire_high l = if l.go_straight then some l else elim (enq l.znode l.waitq) [
  | none ↦ none
  | some (_, q) ↦ some (record l { waitq = q; go_straight = true })
]

pub then_with : {A B : Type 0} → Option A → (A → Option B) → Option B
then_with none k = none
then_with (some a) k = k a

-- `zm_hmpr_acquire`; `mine` is the node that `zm_wskip_wait` gives the thread.
pub acquire : (mine : Ptr) → Hmpr → Pnode → Option (Hmpr × Pnode)
unfolding hmcs_acquire acquire_high then_with
acquire mine l n =
    if n.p == 0
    then then_with (hmcs_acquire l) (λ l1. then_with (acquire_high l1) (λ l2. some (l2, n)))
    else then_with (wait mine l.waitq) (λ q.
      then_with (hmcs_acquire (record l { waitq = q }))
        (λ l1. some (record l1 { low_p_acq = true }, record n { qnode = mine })))

-- The release of either class; `idle` is what `zm_hmcs_nowaiters` answers.
pub release : (fuel : ℕ) (no_waiters : Bool) → Hmpr → Pnode → Option Hmpr
unfolding then_with
release fuel no_waiters l n =
    if l.low_p_acq
    then then_with (wake fuel n.qnode l.waitq)
        (λ q. some (record l { low_p_acq = false; locked = false; waitq = q }))
    else if no_waiters
    then then_with (wake fuel l.znode l.waitq)
        (λ q. some (record l { go_straight = false; locked = false; waitq = q }))
    else some (record l { locked = false })

-- `zm_hmpr_raise_prio`
pub raise_prio : Wskip → Pnode → Wskip × Pnode
raise_prio q n = if n.p == 0 then (q, n) else (
  (if (n.p - 1 == 0) && not (n.qnode == null) then skip n.qnode q else q),
  record n { p = n.p - 1 },
)
