-- ===== src/Lock/Hmpr/Turns.antt =====
-- What an acquisition and a release of zm_hmpr.c make of the lock and its waiting queue.
use izem.Prelude.{
  ℕ, suc, ◌<◌, ◌≡◌, ◌≢◌, inl, inr, refl, true, false, ◌==◌, Option, none, some, List, [], ◌∷◌,
  arith, length, member, Bool-cases,
}
use izem.Prelude.Family.{put}
use izem.Cond.Skip.{Ptr, null, wait_status, wake_status, recycle, check, Wskip, wait, wake}
use izem.Cond.Skip.Wake.{Woken, wake-Woken, Line, Passing, last}
use izem.Cond.Skip.Enqueue.{first_in, enq-first_in, wait-first_in, enq_stale}
use izem.Lock.Hmpr.{Hmpr, Pnode, hmcs_acquire, acquire_high, then_with, acquire, release}

-- The lock is free and its flags are clear, and the queue is empty with the status of every node as
-- in `q`.
abbrev pub AsBefore : Wskip → Option Hmpr → Type 0
AsBefore q none = ⊥
AsBefore q (some m) =
    (m.locked ≡ false)
    × (m.go_straight ≡ false)
    × (m.low_p_acq ≡ false)
    × (m.waitq.lock ≡ null)
    × ((c : Ptr) → m.waitq.status c ≡ q.status c)

-- `wake` by the only node of the queue.
wake_only :
    (fuel : ℕ) (q : Wskip) (p : Ptr)
    → p ≢ null
    → 1 < fuel
    → Woken (first_in p q) p [] null (wake fuel p (first_in p q))
wake_only fuel q p ne enough =
    wake-Woken fuel (first_in p q) p null [] (ground arith) ne (ground arith) tt
      (λ e. absurd (e refl)) (λ e. refl) refl (ground arith) (omega arith)

only-Woken :
    (q : Wskip) (p : Ptr) (v : Wskip)
    → q.status p ≡ recycle
    → Woken (first_in p q) p [] null (some v)
    → (v.lock ≡ null) × ((c : Ptr) → v.status c ≡ q.status c)
only-Woken q p v free (lock, status) = (lock, λ c. ground (arith, status c))

released :
    (q : Wskip) (z p : Ptr) (r : Option Wskip)
    → q.status p ≡ recycle
    → Woken (first_in p q) p [] null r
    → AsBefore q (
        then_with r (λ v. some (record {
          locked = false;
          go_straight = false;
          znode = z;
          low_p_acq = false;
          waitq = v;
        })))
unfolding then_with
released q z p none free w = w
released q z p (some v) free w =
    let (lock, status) = only-Woken q p v free w in (refl, refl, refl, lock, status)

-- On a free lock with an empty queue, whose two nodes are recycled, an acquisition of either class
-- has a result, and a release after it, when `zm_hmcs_nowaiters` says so, leaves the lock free, the
-- flags as they were, the queue empty, and the status of every node as it was.
pub release-acquire :
    (fuel : ℕ) (mine : Ptr) (l : Hmpr) (n : Pnode)
    → l.locked ≡ false
    → l.go_straight ≡ false
    → l.low_p_acq ≡ false
    → l.waitq.lock ≡ null
    → l.znode ≢ null
    → mine ≢ null
    → l.waitq.status l.znode ≡ recycle
    → l.waitq.status mine ≡ recycle
    → 1 < fuel
    → AsBefore l.waitq (then_with (acquire mine l n) (λ r. release fuel true r.0 r.1))
unfolding acquire release hmcs_acquire acquire_high then_with
release-acquire fuel mine l n free straight low empty nz nm zfree mfree enough =
    elim (Bool-cases (n.p == 0)) [
      | inl is_high ↦
          rw (is_high, free, straight, enq-first_in l.waitq l.znode empty zfree, low)
            (released l.waitq l.znode l.znode _ zfree (wake_only fuel l.waitq l.znode nz enough))
      | inr is_low ↦
          rw (is_low, wait-first_in l.waitq mine empty mfree, free, straight)
            (released l.waitq l.znode mine _ mfree (wake_only fuel l.waitq mine nm enough))
    ]

-- The lock is free, and the queue is as after a wake-up by the lock's own node.
abbrev pub HandedOn : Hmpr → List Ptr → Ptr → Option Hmpr → Type 0
HandedOn l xs y none = ⊥
HandedOn l xs y (some m) = (m.locked ≡ false) × Woken l.waitq l.znode xs y (some m.waitq)

some-Woken :
    (l : Hmpr) (xs : List Ptr) (y : Ptr) (f : Wskip → Hmpr) (r : Option Wskip)
    → ((v : Wskip) → ((f v).locked ≡ false) × ((f v).waitq ≡ v))
    → Woken l.waitq l.znode xs y r
    → HandedOn l xs y (then_with r (λ v. some (f v)))
unfolding then_with
some-Woken l xs y f none same w = w
some-Woken l xs y f (some v) same w = let (free, is) = same v in (free, rw is w)

-- A release of the high class, when `zm_hmcs_nowaiters` says so, ends with the lock free: where the
-- lock's own node has the turn and the nodes after it are `xs`, which do not wait, and then `y`,
-- which does, or the end of the queue, it wakes `y` and recycles the own node and `xs`.
pub release-HandedOn :
    (fuel : ℕ) (l : Hmpr) (n : Pnode) (y : Ptr) (xs : List Ptr)
    → l.low_p_acq ≡ false
    → l.waitq.status l.znode ≡ wake_status
    → l.znode ≢ null
    → Line l.waitq.next (l.waitq.next l.znode) xs y
    → Passing l.waitq xs
    → (y ≢ null → l.waitq.status y ≡ wait_status)
    → (y ≡ null → l.waitq.lock ≡ last l.znode xs)
    → member l.znode xs ≡ false
    → member y (l.znode ∷ xs) ≡ false
    → suc (length xs) < fuel
    → HandedOn l xs y (release fuel true l n)
unfolding release then_with
release-HandedOn fuel l n y xs low turn nz line pass ends_not ends out out_y enough = rw low (
    some-Woken l xs y _ (wake fuel l.znode l.waitq) (λ v. (refl, refl))
      (wake-Woken fuel l.waitq l.znode y xs turn nz line pass ends_not ends out out_y enough))

-- The thread has the lock, the queue is empty, and `wait` by `other` passes at once.
abbrev pub Unqueued : Ptr → Option (Hmpr × Pnode) → Type 0
Unqueued other none = ⊥
Unqueued other (some (m, n)) =
    (m.locked ≡ true) × (m.waitq.lock ≡ null) × (wait other m.waitq ≡ some (first_in other m.waitq))

-- On a free lock with an empty queue, where the status of the lock's own node is not that of a
-- recycled node, nor of one about to be, an acquisition of the high class ends with the lock and
-- leaves the queue empty, so that a thread of the low class, with another node that is recycled,
-- does not wait there behind it.
pub acquire-Unqueued :
    (mine other : Ptr) (l : Hmpr) (n : Pnode)
    → n.p ≡ 0
    → l.locked ≡ false
    → l.go_straight ≡ false
    → l.waitq.lock ≡ null
    → l.waitq.status l.znode ≢ recycle
    → l.waitq.status l.znode ≢ check
    → other ≢ l.znode
    → l.waitq.status other ≡ recycle
    → Unqueued other (acquire mine l n)
unfolding acquire hmcs_acquire acquire_high then_with
acquire-Unqueued mine other l n high free straight empty not_free not_leaving apart ready =
    rw (high, free, straight, enq_stale l.waitq l.znode not_free not_leaving)
      (
        refl,
        empty,
        wait-first_in (record l.waitq { status = put l.waitq.status l.znode wait_status }) other
            empty (ground (arith, ready)),
      )
