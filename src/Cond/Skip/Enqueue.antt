-- ===== src/Cond/Skip/Enqueue.antt =====
-- `enq` of zm_wskip.c.
use izem.Prelude.{
  ◌≡◌, ◌≢◌, refl, Bool, true, false, ◌==◌, Option, none, some, List, [], ◌∷◌, ◌++◌, arith, ◌∙◌,
  member, Distinct,
}
use izem.Prelude.Family.{put}
use izem.Cond.Skip.{
  Ptr, null, wait_status, wake_status, recycle, check, Wskip, set_status, set_next, insert, enq,
  wait,
}
use izem.Cond.Skip.Wake.{Line, last}

member-last : (x : Ptr) (xs : List Ptr) → member (last x xs) (x ∷ xs) ≡ true
member-last x [] = ground arith
member-last x (y ∷ xs) = ground (arith, member-last y xs)

-- A link from the last node makes the line longer.
Line-extend :
    (f : Ptr → Ptr) (I p : Ptr) (xs : List Ptr)
    → Line f (f I) xs null
    → Distinct (I ∷ xs)
    → p ≢ null
    → member p (I ∷ xs) ≡ false
    → Line
        (put (put f p null) (last I xs) p)
        (put (put f p null) (last I xs) p I)
        (xs ++ p ∷ [])
        null
Line-extend f I p [] line far ne out =
    let here : put (put f p null) I p I ≡ p = ground arith in
    let there : put (put f p null) I p p ≡ null = ground arith in (here, ne, there)
Line-extend f I p (x ∷ xs) (at, nx, line) (out_I, (out_x, far)) ne out =
    let apart : I ≢ last x xs = λ e. ground (arith, member-last x xs, e) in
    let here : put (put f p null) (last x xs) p I ≡ f I = ground arith in
    (here ∙ at, nx, Line-extend f x p xs line (out_x, far) ne (ground arith))

-- What `enq` of `p` leaves of the line `xs` behind `I`.
abbrev pub Enqueued : Wskip → Ptr → List Ptr → Ptr → Option (Bool × Wskip) → Type 0
Enqueued m I xs p none = ⊥
Enqueued m I xs p (some (waits, v)) =
    (waits ≡ true)
    × (v.lock ≡ p)
    × Line v.next (v.next I) (xs ++ p ∷ []) null
    × (v.status p ≡ wait_status)
    × ((c : Ptr) → c ≢ p → v.status c ≡ m.status c)

-- Where the queue is the distinct nodes `xs` after `I`, `enq` of another node that is recycled has a
-- result: the caller must wait, its node is the last of the queue and waits, and no other node's
-- status changes.
pub enq-Enqueued :
    (m : Wskip) (I p : Ptr) (xs : List Ptr)
    → m.lock ≡ last I xs
    → m.lock ≢ null
    → Line m.next (m.next I) xs null
    → Distinct (I ∷ xs)
    → p ≢ null
    → member p (I ∷ xs) ≡ false
    → m.status p ≡ recycle
    → Enqueued m I xs p (enq p m)
unfolding enq insert set_status set_next
enq-Enqueued m I p xs tail ne line far nz out free =
    let not_check : (m.status p == check) ≡ false = ground arith in
    let is_free : (m.status p == recycle) ≡ true = ground arith in
    let taken : (m.lock == null) ≡ false = ground arith in
    rw (not_check, is_free, taken)
      (
        refl,
        refl,
        rw tail (Line-extend m.next I p xs line far nz out),
        ground arith,
        λ c o. ground arith,
      )

-- The queue after the first node has entered it: `p` has the turn.
abbrev pub first_in : Ptr → Wskip → Wskip
first_in p m = record {
  lock = p;
  status = put (put m.status p wait_status) p wake_status;
  next = put m.next p null;
}

pub enq-first_in :
    (m : Wskip) (p : Ptr)
    → m.lock ≡ null
    → m.status p ≡ recycle
    → enq p m ≡ some (false, first_in p m)
unfolding enq insert set_status set_next
enq-first_in m p empty free =
    let not_check : (m.status p == check) ≡ false = ground arith in
    let is_free : (m.status p == recycle) ≡ true = ground arith in
    let not_taken : (m.lock == null) ≡ true = ground arith in
    rw (not_check, is_free, not_taken) refl

pub wait-first_in :
    (m : Wskip) (p : Ptr) → m.lock ≡ null → m.status p ≡ recycle → wait p m ≡ some (first_in p m)
unfolding wait
wait-first_in m p empty free = rw (wait, enq-first_in m p empty free) refl

-- A node that is neither recycled nor about to be stays out of the queue.
pub enq_stale :
    (m : Wskip) (p : Ptr)
    → m.status p ≢ recycle
    → m.status p ≢ check
    → enq p m ≡ some (true, record m { status = put m.status p wait_status })
unfolding enq set_status
enq_stale m p not_free not_leaving =
    let not_check : (m.status p == check) ≡ false = ground arith in
    let in_use : (m.status p == recycle) ≡ false = ground arith in rw (not_check, in_use) refl
