-- ===== src/Queue/Swp.antt =====
-- src/queue/zm_swpqueue.c: the queue that producers enter by a swap of the tail, one shared access
-- at a time, for any number of producers and one consumer, thread 0, which may produce as well and
-- makes the tests for emptiness.
-- A thread owns the node that it has allocated until its swap, and the node that it is to free.
-- `malloc` returns any address that is not in use, but not `NULL`.
pub mod Invariant
pub mod Order
pub mod Keeps
pub mod Safety
pub mod Alone
mod Tests
use izem.Prelude.{ℕ, zero, suc, ◌≡◌, ◌≢◌, Bool, true, false, ◌&&◌, ◌==◌, if◌then◌else◌}
use izem.Prelude.Family.{put}
use izem.Interleave.{State}

abbrev pub Ptr : Type 0
Ptr = ℕ

abbrev pub null : Ptr
null = 0

-- The queue and its nodes by address, `live` where they are allocated; and a history that the code
-- does not keep: how many nodes have been swapped in and how many moved out, which node was the
-- `k`-th (the first, made by `zm_swpqueue_init`, has number 0), and its data.
pub record Swp : Type 0 where
  pub head : Ptr
  pub tail : Ptr
  pub value : Ptr → Ptr  -- the field `data`
  pub next : Ptr → Ptr
  pub live : Ptr → Bool
  pub entered : ℕ
  pub left : ℕ
  pub order : ℕ → Ptr
  pub given : ℕ → Ptr

-- Where a thread stands.
pub data Pc : Type 0 where
  idle : Pc
  holding : (node value : Ptr) → Pc  -- `zm_swpqueue_enqueue` has allocated its node
  filled : (node value : Ptr) → Pc  -- it has written the node
  linking : (pred node : Ptr) (number : ℕ) → Pc  -- it has swapped; `number` is that of `pred`
  at_head : (head : Ptr) → Pc  -- `zm_swpqueue_dequeue` has read `q->head`
  found : (head : Ptr) → Pc  -- it has seen `head->next` set
  ahead : (head next : Ptr) → Pc  -- it has read `next`
  moved : (head next : Ptr) → Pc  -- it has written `q->head`
  got : (head value : Ptr) → Pc  -- it has read the data, and is to free the old head
  weak_at : (head : Ptr) → Pc  -- `zm_swpqueue_isempty_weak` has read `q->head`
  weak_told : (answer : Bool) → Pc
  strong_at : (head : Ptr) → Pc  -- `zm_swpqueue_isempty_strong` has read `q->head`
  strong_both : (head tail : Ptr) (number : ℕ) → Pc  -- and `q->tail`; `number` is that of the last node then
  strong_told : (answer : Bool) (number : ℕ) → Pc

pub allocate : Ptr → Swp → Swp
allocate p m = record m { live = put m.live p true }

pub fill : Ptr → Ptr → Swp → Swp
fill p d m = record m { value = put m.value p d; next = put m.next p null }

pub swap_tail : Ptr → Ptr → Swp → Swp
swap_tail p d m = record m {
  tail = p;
  entered = suc m.entered;
  order = put m.order (suc m.entered) p;
  given = put m.given (suc m.entered) d;
}

pub link : Ptr → Ptr → Swp → Swp
link pred p m = record m { next = put m.next pred p }

pub move_head : Ptr → Swp → Swp
move_head q m = record m { head = q; left = suc m.left }

pub release : Ptr → Swp → Swp
release p m = record m { live = put m.live p false }

-- One access of thread `i`.
pub data Move (i : ℕ) (m : Swp) : Pc → Swp → Pc → Type 0 where
  enqueue_alloc :
      {p d : Ptr} → p ≢ null → m.live p ≡ false → Move i m idle (allocate p m) (holding p d)
  enqueue_fill : {p d : Ptr} → Move i m (holding p d) (fill p d m) (filled p d)
  enqueue_swap : {p d : Ptr} → Move i m (filled p d) (swap_tail p d m) (linking m.tail p m.entered)
  enqueue_link : {pred p : Ptr} {k : ℕ} → Move i m (linking pred p k) (link pred p m) idle
  dequeue_load : i ≡ 0 → Move i m idle m (at_head m.head)
  dequeue_test : {h : Ptr} → Move i m (at_head h) m (if m.next h == null then idle else found h)
  dequeue_next : {h : Ptr} → Move i m (found h) m (ahead h (m.next h))
  dequeue_move : {h q : Ptr} → Move i m (ahead h q) (move_head q m) (moved h q)
  dequeue_data : {h q : Ptr} → Move i m (moved h q) m (got h (m.value q))
  dequeue_free : {h v : Ptr} → Move i m (got h v) (release h m) idle
  weak_head : i ≡ 0 → Move i m idle m (weak_at m.head)
  weak_next : {h : Ptr} → Move i m (weak_at h) m (weak_told (m.next h == null))
  weak_return : {b : Bool} → Move i m (weak_told b) m idle
  strong_head : i ≡ 0 → Move i m idle m (strong_at m.head)
  strong_tail : {h : Ptr} → Move i m (strong_at h) m (strong_both h m.tail m.entered)
  strong_next :
      {h t : Ptr} {k : ℕ}
      → Move i m (strong_both h t k) m (strong_told ((m.next h == null) && (h == t)) k)
  strong_return : {b : Bool} {k : ℕ} → Move i m (strong_told b k) m idle

-- `zm_swpqueue_init` with its node at `p`; other memory holds anything, and nothing else is
-- allocated to the queue.
abbrev pub init : Ptr → (Ptr → Ptr) → (Ptr → Ptr) → State Swp Pc
init p value next = record {
  mem = record {
    head = p;
    tail = p;
    value = put value p null;
    next = put next p null;
    live = λ a. p == a;
    entered = 0;
    left = 0;
    order = λ _. p;
    given = λ _. null;
  };
  pc = λ _. idle;
}

-- The addresses that a thread's next accesses go to.
abbrev pub touches : Pc → Ptr → Bool
touches idle a = false
touches (holding p _) a = p == a
touches (filled p _) a = p == a
touches (linking pred _ _) a = pred == a
touches (at_head h) a = h == a
touches (found h) a = h == a
touches (ahead h q) a = h == a
touches (moved h q) a = if h == a then true else q == a
touches (got h _) a = h == a
touches (weak_at h) a = h == a
touches (weak_told _) a = false
touches (strong_at h) a = h == a
touches (strong_both h _ _) a = h == a
touches (strong_told _ _) a = false
