-- ===== src/Lock/Hmpr/Tests.antt =====
-- A free lock, one with a waiter of the low class, and the theorems there.
use izem.Prelude.{refl, true, false, arith}
use izem.Prelude.Family.{put}
use izem.Cond.Skip.{null}
use izem.Lock.Hmpr.{Hmpr, Pnode, then_with, acquire, release}
use izem.Lock.Hmpr.Turns.{AsBefore, Unqueued, release-acquire, acquire-Unqueued}

abbrev free_lock : Hmpr
free_lock = record {
  locked = false;
  go_straight = false;
  znode = 1;
  low_p_acq = false;
  waitq = record { lock = null; status = λ _. 3; next = λ _. null };
}

abbrev low_class : Pnode
low_class = record { p = 2; qnode = null }

release-acquire_example :
    AsBefore free_lock.waitq
      (then_with (acquire 2 free_lock low_class) (λ r. release 3 true r.0 r.1))
release-acquire_example =
    release-acquire 3 2 free_lock low_class refl refl refl refl (omega arith) (omega arith) refl
      refl (omega arith)

-- A thread of the high class owns the lock; node 2 was skipped, and node 3 waits.
abbrev owned : Hmpr
owned = record {
  locked = true;
  go_straight = true;
  znode = 1;
  low_p_acq = false;
  waitq = record {
    lock = 3;
    status = put (put (put (λ _. 3) 1 1) 2 2) 3 0;
    next = put (put (λ _. null) 1 2) 2 3;
  };
}

-- The node of a lock in zeroed memory.
abbrev zeroed : Hmpr
zeroed = record {
  locked = false;
  go_straight = false;
  znode = 1;
  low_p_acq = false;
  waitq = record { lock = null; status = put (λ _. 3) 1 0; next = λ _. null };
}

acquire-Unqueued_example : Unqueued 3 (acquire 2 zeroed (record { p = 0; qnode = null }))
acquire-Unqueued_example =
    acquire-Unqueued 2 3 zeroed (record { p = 0; qnode = null }) refl refl refl refl (omega arith)
      (omega arith) (omega arith) refl
