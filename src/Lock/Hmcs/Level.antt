-- ===== src/Lock/Hmcs/Level.antt =====
-- One node of the tree of zm_hmcs.c, one shared access at a time: `acquire_helper`,
-- `release_helper` and `tryacq_root` on a `struct hnode`. Those who queue there are numbered from 0
-- on: threads at a leaf or on the fast path, child nodes by their `node` elsewhere. The recursive
-- calls on the parent are single steps here, which note whether the parent is owned for this node.
pub mod Invariant
pub mod Keeps
pub mod Held
pub mod Coupling
pub mod Safety
mod Tests
use izem.Prelude.{
  ℕ, zero, suc, ◌+◌, ◌<◌, ◌≤◌, ◌≡◌, ◌≢◌, Bool, true, false, ◌&&◌, not, ◌==◌, ltb, if◌then◌else◌,
}
use izem.Prelude.Family.{put}
use izem.Interleave.{State}
use izem.Lock.Fifo.{Role, out, waiting, inside, Fifo}

abbrev pub Ptr : Type 0
Ptr = ℕ

abbrev pub null : Ptr
null = 0

-- The `zm_mcs_qnode_t` with which number `i` queues.
abbrev pub node_of : ℕ → Ptr
node_of i = suc i

-- `WAIT`
abbrev pub wait : ℕ
wait = 4294967295

abbrev pub cohort_start : ℕ
cohort_start = 1

abbrev pub acquire_parent : ℕ
acquire_parent = 3489660924

-- `level == 1`, and the `threshold` of the node
pub record Config : Type 0 where
  pub root : Bool
  pub threshold : ℕ

-- The threshold lets a cohort start, and is told from the two other values of a status.
abbrev pub IsFit : Config → Type 0
IsFit g = (1 ≤ g.threshold) × (g.threshold < acquire_parent)

-- `struct hnode` and the queue nodes, by address; whether its parent is owned for it; and
-- three counts that the code does not keep: of arrivals, of releases, and of the acquisitions since the
-- parent was last acquired.
pub record Level : Type 0 where
  pub lock : Ptr
  pub status : Ptr → ℕ
  pub next : Ptr → Ptr
  pub held : Bool
  pub cohort : ℕ
  pub arrivals : ℕ
  pub served : ℕ

-- Where an acquisition or a release stands. `number` is its place in the order of arrival.
pub data Pc : Type 0 where
  idle : Pc
  reusing : (try : Bool) → Pc  -- `reuse_qnode` has set `status`
  ready : (try : Bool) → Pc  -- and `next`
  first : (number : ℕ) → Pc  -- the exchange gave `NULL`
  behind : (pred : Ptr) (number : ℕ) → Pc
  spin : (number : ℕ) → Pc
  asked : (number : ℕ) → Pc  -- it has read `ACQUIRE_PARENT`
  climbing : (number : ℕ) → Pc  -- before the acquisition of the parent
  critical : (number : ℕ) → Pc
  counted : (number count : ℕ) → Pc  -- it has read `cur_count`, which is not the threshold
  descending : (number : ℕ) → Pc  -- before the release of the parent
  tapping : (number : ℕ) → Pc  -- in `normal_mcs_release_with_value`
  unlocking : (number : ℕ) → Pc  -- it has read `next` as `NULL` there
  awaiting : (number : ℕ) → Pc  -- the exchange failed
  passing : (number : ℕ) (succ : Ptr) (value : ℕ) → Pc  -- before the store of `value` there

unfoldable pub set_wait : ℕ → Level → Level
set_wait i m = record m { status = put m.status (node_of i) wait }

unfoldable pub clear_next : ℕ → Level → Level
clear_next i m = record m { next = put m.next (node_of i) null }

unfoldable pub swap_lock : ℕ → Level → Level
swap_lock i m = record m { lock = node_of i; arrivals = suc m.arrivals }

unfoldable pub link_behind : Ptr → ℕ → Level → Level
link_behind pred i m = record m { next = put m.next pred (node_of i) }

unfoldable pub start_cohort : ℕ → Level → Level
start_cohort i m = record m { status = put m.status (node_of i) cohort_start }

unfoldable pub set_held : Bool → Level → Level
set_held b m = record m { held = b; cohort = if b then 1 else m.cohort }

-- The one that finds a count in its status has joined a cohort.
unfoldable pub count_in : ℕ → Level → Level
count_in i m = record m {
  cohort =
      if not (m.status (node_of i) == wait) && ltb (m.status (node_of i)) acquire_parent
      then suc m.cohort
      else m.cohort;
}

pub unlock_free : Level → Level
unlock_free m = record m { lock = null; served = suc m.served }

pub tap : Ptr → ℕ → Level → Level
tap succ v m = record m { status = put m.status succ v; served = suc m.served }

-- What `normal_mcs_release_with_value` stores.
abbrev pub released_value : Config → ℕ
released_value g = if g.root then cohort_start else acquire_parent

-- Where the one that finds status `v` goes.
abbrev pub spun : Config → ℕ → ℕ → Pc
spun g v k =
    if v == wait
    then spin k
    else if g.root
    then critical k
    else if ltb v acquire_parent
    then critical k
    else if v == acquire_parent
    then asked k
    else spin k

-- One access by number `i`.
pub data Move (g : Config) (i : ℕ) (m : Level) : Pc → Level → Pc → Type 0 where
  reuse_status : (try : Bool) → Move g i m idle (set_wait i m) (reusing (try && g.root))
  reuse_next : {try : Bool} → Move g i m (reusing try) (clear_next i m) (ready try)
  acquire_swap : Move g i m (ready false) (swap_lock i m) (
      if m.lock == null
      then if g.root then critical m.arrivals else first m.arrivals
      else behind m.lock m.arrivals)
  try_cas :
      Move g i m
        (ready true)
        (if m.lock == null then swap_lock i m else m)
        (if m.lock == null then critical m.arrivals else idle)
  first_start : {k : ℕ} → Move g i m (first k) (start_cohort i m) (climbing k)
  acquire_link : {pred : Ptr} {k : ℕ} → Move g i m (behind pred k) (link_behind pred i m) (spin k)
  acquire_spin : {k : ℕ} → Move g i m (spin k) (count_in i m) (spun g (m.status (node_of i)) k)
  next_start : {k : ℕ} → Move g i m (asked k) (start_cohort i m) (climbing k)
  acquire_up : {k : ℕ} → Move g i m (climbing k) (set_held true m) (critical k)
  release_count :
      {k : ℕ}
      → g.root ≡ false
      → Move g i m (critical k) m (
          if m.status (node_of i) == g.threshold
          then descending k
          else counted k (m.status (node_of i)))
  release_next :
      {k c : ℕ}
      → Move g i m (counted k c) m (
          if m.next (node_of i) == null
          then descending k
          else passing k (m.next (node_of i)) (c + 1))
  release_up : {k : ℕ} → Move g i m (descending k) (set_held false m) (tapping k)
  release_root : {k : ℕ} → g.root ≡ true → Move g i m (critical k) m (tapping k)
  release_load :
      {k : ℕ}
      → Move g i m (tapping k) m (
          if m.next (node_of i) == null
          then unlocking k
          else passing k (m.next (node_of i)) (released_value g))
  release_cas :
      {k : ℕ}
      → Move g i m
          (unlocking k)
          (if m.lock == node_of i then unlock_free m else m)
          (if m.lock == node_of i then idle else awaiting k)
  release_spin :
      {k : ℕ}
      → Move g i m (awaiting k) m (
          if m.next (node_of i) == null
          then awaiting k
          else passing k (m.next (node_of i)) (released_value g))
  release_store : {k : ℕ} {succ : Ptr} {v : ℕ} → Move g i m (passing k succ v) (tap succ v m) idle

-- A new node: its lock is free, its parent is not owned for it, and the queue nodes hold anything.
abbrev pub init : (Ptr → ℕ) → (Ptr → Ptr) → State Level Pc
init status next = record {
  mem = record {
    lock = null;
    status = status;
    next = next;
    held = false;
    cohort = 0;
    arrivals = 0;
    served = 0;
  };
  pc = λ _. idle;
}

-- The abstract lock that a state stands for: whoever is at the head of the queue is inside.
abbrev pub role_of : Pc → Role
role_of idle = out
role_of (reusing _) = out
role_of (ready _) = out
role_of (behind _ k) = waiting k
role_of (spin k) = waiting k
role_of (first k) = inside k
role_of (asked k) = inside k
role_of (climbing k) = inside k
role_of (critical k) = inside k
role_of (counted k _) = inside k
role_of (descending k) = inside k
role_of (tapping k) = inside k
role_of (unlocking k) = inside k
role_of (awaiting k) = inside k
role_of (passing k _ _) = inside k

abbrev pub abstract : State Level Pc → Fifo
abstract s = record {
  arrivals = s.mem.arrivals;
  served = s.mem.served;
  role = λ i. role_of (s.pc i);
}
