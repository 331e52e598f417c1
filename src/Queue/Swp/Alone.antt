-- ===== src/Queue/Swp/Alone.antt =====
-- src/queue/zm_swpqueue.c by one thread at a time: an operation is all its accesses in a row. `malloc`
-- gives the least address above those in use.
pub mod Laws
use izem.Prelude.{
  ◌==◌, ◌&&◌, ℕ, zero, suc, ◌≤◌, ◌≡◌, ◌≢◌, Bool, false, List, [], ◌∷◌, if◌then◌else◌,
}
use izem.Interleave.{State}
use izem.Queue.Swp.{
  Ptr, null, Swp, Pc, idle, allocate, fill, swap_tail, link, move_head, release, init,
}

-- `zm_swpqueue_enqueue` with its node at `p`
pub enqueue : Ptr → Ptr → Swp → Swp
unfolding allocate fill swap_tail link
enqueue p d m = let m' = swap_tail p d (fill p d (allocate p m)) in link m.tail p m'

-- `zm_swpqueue_isempty_weak` and `zm_swpqueue_isempty_strong`
pub isempty_weak : Swp → Bool
isempty_weak m = m.next m.head == null

pub isempty_strong : Swp → Bool
isempty_strong m = (m.next m.head == null) && (m.head == m.tail)

-- `zm_swpqueue_dequeue`: the queue after it, and `*data`
pub dequeue : Swp → Swp × Ptr
unfolding isempty_weak move_head release
dequeue m =
    if isempty_weak m
    then (m, null)
    else (release m.head (move_head (m.next m.head) m), m.value (m.next m.head))

-- No thread is in the middle of an operation.
abbrev pub alone : Swp → State Swp Pc
alone m = record { mem = m; pc = λ _. idle }

-- The data of the nodes `lo + 1`, …, `lo + n`.
abbrev pub window : (ℕ → Ptr) → (lo n : ℕ) → List Ptr
window f lo zero = []
window f lo (suc n) = f (suc lo) ∷ window f (suc lo) n
