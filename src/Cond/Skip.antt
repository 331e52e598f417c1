-- ===== src/Cond/Skip.antt =====
-- src/cond/zm_wskip.c: a queue of waiting threads in which a waiter can be skipped. One operation
-- at a time runs over the queue nodes, with no other thread moving; a loop that waits for another
-- thread then has no result, and the walks of `wake` run on fuel.
pub mod Wake
pub mod Enqueue
mod Tests
use izem.Prelude.{
  ℕ, zero, suc, Bool, true, false, ◌&&◌, ◌||◌, not, ◌==◌, if◌then◌else◌, Option, none, some,
}
use izem.Prelude.Family.{put}

abbrev pub Ptr : Type 0
Ptr = ℕ

abbrev pub null : Ptr
null = 0

-- `ZM_WAIT` and so on
abbrev pub wait_status : ℕ
wait_status = 0

abbrev pub wake_status : ℕ
wake_status = 1

abbrev pub skip_status : ℕ
skip_status = 2

abbrev pub recycle : ℕ
recycle = 3

abbrev pub check : ℕ
check = 4

-- `struct zm_mcs` of this file and its nodes, by address.
pub record Wskip : Type 0 where
  pub lock : Ptr
  pub status : Ptr → ℕ
  pub next : Ptr → Ptr

pub set_status : Ptr → ℕ → Wskip → Wskip
set_status p v m = record m { status = put m.status p v }

pub set_next : Ptr → Ptr → Wskip → Wskip
set_next p q m = record m { next = put m.next p q }

-- `new_wskip`
pub new : (next : Ptr → Ptr) → Wskip
new next = record { lock = null; status = λ _. recycle; next = next }

-- The insertion of `enq`; the result is `*wait`.
pub insert : Ptr → Wskip → Bool × Wskip
unfolding set_status set_next
insert I m =
    if m.lock == null
    then (false, set_status I wake_status (record (set_next I null m) { lock = I }))
    else (true, set_next m.lock I (record (set_next I null m) { lock = I }))

-- Without a result, it waits for `wake` to recycle the node.
pub enq : Ptr → Wskip → Option (Bool × Wskip)
unfolding insert set_status
enq I m =
    if m.status I == check
    then none
    else if m.status I == recycle
    then some (insert I (set_status I wait_status m))
    else some (true, set_status I wait_status m)

-- Without a result, it spins.
pub wait : Ptr → Wskip → Option Wskip
unfolding enq
wait I m = elim (enq I m) [
  | none ↦ none
  | some (waits, m') ↦
      if waits && not ((m'.status I == wake_status) || (m'.status I == recycle))
      then none
      else some m'
]

pub skip : Ptr → Wskip → Wskip
unfolding set_status
skip I m = if m.status I == wait_status then set_status I skip_status m else m

pub nowaiters : Wskip → Ptr → Bool
nowaiters m I = m.next I == null

-- `cur_node`, `next` and `pred` of `wake`, with the memory.
pub record Walk : Type 0 where
  pub cur : Ptr
  pub ahead : Ptr
  pub pred : Ptr
  pub mem : Wskip

-- The first loop of `wake`.
pub pass : ℕ → Walk → Option Walk
unfolding set_status set_next
pass zero w = none
pass (suc fuel) w =
    if w.ahead == null
    then some w
    else if w.mem.status w.ahead == wait_status
    then some (record w { mem = set_status w.ahead wake_status w.mem })
    else pass fuel (record {
      cur = w.ahead;
      ahead = put w.mem.next w.cur w.pred w.ahead;
      pred = w.cur;
      mem = set_next w.cur w.pred (set_status w.ahead check w.mem);
    })

-- The second loop, from `rev` on.
pub recycle_back : ℕ → Ptr → Wskip → Option Wskip
unfolding set_status
recycle_back zero p m = none
recycle_back (suc fuel) p m =
    if p == null then some m else recycle_back fuel (m.next p) (set_status p recycle m)

-- The end of `wake`, on the node where the walk stopped.
pub finish : (I cur ahead : Ptr) → Wskip → Option Wskip
unfolding set_status set_next
finish I cur ahead m =
    if ahead == null
    then if m.lock == cur
      then some (record m { lock = null })
      else if m.next cur == null
      then none
      else some (set_next I null (set_status (m.next cur) wake_status m))
    else some (set_next I null m)

after_back : (I : Ptr) → Walk → Option Wskip → Option Wskip
after_back I w none = none
after_back I w (some m) = finish I w.cur w.ahead m

-- From the end of the first loop on.
after_pass : ℕ → (I : Ptr) → Option Walk → Option Wskip
unfolding recycle_back finish set_status after_back
after_pass fuel I none = none
after_pass fuel I (some w) =
    after_back I w (recycle_back fuel w.pred (set_status w.cur recycle w.mem))

pub wake : ℕ → Ptr → Wskip → Option Wskip
unfolding pass after_pass set_status
wake fuel I m =
    if m.status I == wake_status
    then after_pass fuel I (
        pass fuel (record { cur = I; ahead = m.next I; pred = null; mem = set_status I recycle m }))
    else some m
