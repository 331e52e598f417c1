-- ===== src/Queue/Ms.antt =====
-- src/queue/zm_msqueue.c: the queue of Michael and Scott, one shared access at a time, with any
-- number of threads that enqueue and dequeue. Nodes are protected by the two hazard pointers of each
-- thread, which are part of the memory. `zm_hzdptr_retire` is modelled by its promise: a retired
-- node may be freed, and its address handed out again, when no hazard pointer holds it.
pub mod Invariant
mod Log
mod Keeps
pub mod Safety
mod Tests
use izem.Prelude.{ℕ, suc, ◌≡◌, ◌≢◌, Bool, true, false, ◌==◌, if◌then◌else◌}
use izem.Prelude.Family.{put}
use izem.Interleave.{State}

abbrev pub Ptr : Type 0
Ptr = ℕ

abbrev pub null : Ptr
null = 0

-- `struct zm_msqueue`, the nodes by address, the hazard pointers by thread, and which addresses are
-- allocated. The rest is history, which the code does not keep: the nodes and data in the order of
-- their links, numbered from 0 for the first dummy, with the numbers of the last node, of the tail
-- and of the head, and which numbers have been retired and freed.
pub record Ms : Type 0 where
  pub head : Ptr
  pub tail : Ptr
  pub value : Ptr → Ptr
  pub next : Ptr → Ptr
  pub hazard0 : ℕ → Ptr
  pub hazard1 : ℕ → Ptr
  pub live : Ptr → Bool
  pub order : ℕ → Ptr
  pub given : ℕ → Ptr
  pub last_number : ℕ
  pub tail_number : ℕ
  pub head_number : ℕ
  pub retired : ℕ → Bool
  pub gone : ℕ → Bool

-- Where a thread stands. `node` is its new node, and `number` that of the tail or head it has checked.
pub data Pc : Type 0 where
  idle : Pc
  holding : (node datum : Ptr) → Pc  -- `zm_msqueue_enqueue` has allocated its node
  looping : (node datum : Ptr) → Pc  -- before its load of the tail
  tail_read : (node datum tail : Ptr) → Pc  -- before `hzdptrs[0] = tail`
  tail_held : (node datum tail : Ptr) → Pc  -- before the second load of the tail
  tail_safe : (node datum tail : Ptr) (number : ℕ) → Pc  -- before the load of `tail->next`
  linking : (node datum tail : Ptr) (number : ℕ) → Pc  -- before the exchange of `tail->next`
  helping : (node datum tail next : Ptr) (number : ℕ) → Pc  -- before it moves a tail that lags
  swinging : (node tail : Ptr) (number : ℕ) → Pc  -- linked; before it moves the tail
  starting : Pc  -- `zm_msqueue_dequeue`, before its load of the head
  head_read : (head : Ptr) → Pc  -- before `hzdptrs[0] = head`
  head_held : (head : Ptr) → Pc  -- before the second load of the head
  head_safe : (head : Ptr) (number : ℕ) → Pc  -- before the load of the tail
  both_read : (head tail : Ptr) (number : ℕ) → Pc  -- before the load of `head->next`
  next_read : (head tail next : Ptr) (number : ℕ) → Pc  -- before `hzdptrs[1] = next`
  next_held : (head tail next : Ptr) (number : ℕ) → Pc  -- before the tests
  pushing : (tail next : Ptr) (number : ℕ) → Pc  -- before it moves a tail that lags
  taking : (head next : Ptr) (number : ℕ) → Pc  -- before the exchange of the head
  taken : (head next : Ptr) (number : ℕ) → Pc  -- before its load of the data
  retiring : (head value : Ptr) (number : ℕ) → Pc  -- before `zm_hzdptr_retire(head)`

pub allocate : Ptr → Ms → Ms
allocate p m = record m { live = put m.live p true }

pub fill : Ptr → Ptr → Ms → Ms
fill p d m = record m { value = put m.value p d; next = put m.next p null }

pub protect0 : ℕ → Ptr → Ms → Ms
protect0 i p m = record m { hazard0 = put m.hazard0 i p }

pub protect1 : ℕ → Ptr → Ms → Ms
protect1 i p m = record m { hazard1 = put m.hazard1 i p }

-- The exchange of `tail->next` when it succeeds.
pub link : Ptr → Ptr → Ptr → Ms → Ms
link t p d m = record m {
  next = put m.next t p;
  last_number = suc m.last_number;
  order = put m.order (suc m.last_number) p;
  given = put m.given (suc m.last_number) d;
}

pub move_tail : Ptr → Ms → Ms
move_tail p m = record m { tail = p; tail_number = suc m.tail_number }

pub move_head : Ptr → Ms → Ms
move_head p m = record m { head = p; head_number = suc m.head_number }

pub retire : ℕ → Ms → Ms
retire k m = record m { retired = put m.retired k true }

pub reclaim : ℕ → Ms → Ms
reclaim k m = record m { live = put m.live (m.order k) false; gone = put m.gone k true }

-- One access of thread `i`. The weak exchanges may also fail without cause.
pub data Move (i : ℕ) (m : Ms) : Pc → Ms → Pc → Type 0 where
  enqueue_alloc :
      {p d : Ptr} → p ≢ null → m.live p ≡ false → Move i m idle (allocate p m) (holding p d)
  enqueue_fill : {p d : Ptr} → Move i m (holding p d) (fill p d m) (looping p d)
  enqueue_load : {p d : Ptr} → Move i m (looping p d) m (tail_read p d m.tail)
  enqueue_hazard : {p d t : Ptr} → Move i m (tail_read p d t) (protect0 i t m) (tail_held p d t)
  enqueue_check :
      {p d t : Ptr}
      → Move i m
          (tail_held p d t)
          m
          (if t == m.tail then tail_safe p d t m.tail_number else looping p d)
  enqueue_next :
      {p d t : Ptr} {a : ℕ}
      → Move i m
          (tail_safe p d t a)
          m
          (if m.next t == null then linking p d t a else helping p d t (m.next t) a)
  enqueue_link :
      {p d t : Ptr} {a : ℕ}
      → Move i m
          (linking p d t a)
          (if m.next t == null then link t p d m else m)
          (if m.next t == null then swinging p t a else looping p d)
  enqueue_help :
      {p d t n : Ptr} {a : ℕ}
      → Move i m (helping p d t n a) (if m.tail == t then move_tail n m else m) (looping p d)
  enqueue_help_fails : {p d t n : Ptr} {a : ℕ} → Move i m (helping p d t n a) m (looping p d)
  enqueue_swing :
      {p t : Ptr} {a : ℕ}
      → Move i m (swinging p t a) (if m.tail == t then move_tail p m else m) idle
  enqueue_swing_fails : {p t : Ptr} {a : ℕ} → Move i m (swinging p t a) m idle
  dequeue_call : Move i m idle m starting
  dequeue_load : Move i m starting m (head_read m.head)
  dequeue_hazard : {h : Ptr} → Move i m (head_read h) (protect0 i h m) (head_held h)
  dequeue_check :
      {h : Ptr}
      → Move i m (head_held h) m (if h == m.head then head_safe h m.head_number else starting)
  dequeue_tail : {h : Ptr} {a : ℕ} → Move i m (head_safe h a) m (both_read h m.tail a)
  dequeue_next : {h t : Ptr} {a : ℕ} → Move i m (both_read h t a) m (next_read h t (m.next h) a)
  dequeue_hazard_next :
      {h t n : Ptr} {a : ℕ} → Move i m (next_read h t n a) (protect1 i n m) (next_held h t n a)
  -- Its answer is empty where it goes back to `idle`.
  dequeue_test :
      {h t n : Ptr} {a : ℕ}
      → Move i m
          (next_held h t n a)
          m
          (if h == t then if n == null then idle else pushing t n a else taking h n a)
  dequeue_help :
      {t n : Ptr} {a : ℕ}
      → Move i m (pushing t n a) (if m.tail == t then move_tail n m else m) starting
  dequeue_help_fails : {t n : Ptr} {a : ℕ} → Move i m (pushing t n a) m starting
  dequeue_take :
      {h n : Ptr} {a : ℕ}
      → Move i m
          (taking h n a)
          (if m.head == h then move_head n m else m)
          (if m.head == h then taken h n a else starting)
  dequeue_data : {h n : Ptr} {a : ℕ} → Move i m (taken h n a) m (retiring h (m.value n) a)
  dequeue_retire : {h v : Ptr} {a : ℕ} → Move i m (retiring h v a) (retire a m) idle
  -- A scan by the thread, in one of its calls of `zm_hzdptr_retire`, frees number `k`.
  scan_free :
      (k : ℕ)
      → m.retired k ≡ true
      → m.gone k ≡ false
      → ((j : ℕ) → m.hazard0 j ≢ m.order k)
      → ((j : ℕ) → m.hazard1 j ≢ m.order k)
      → Move i m idle (reclaim k m) idle

-- `zm_msqueue_init` with its node at `p`; other memory holds anything.
abbrev pub init : Ptr → (Ptr → Ptr) → (Ptr → Ptr) → State Ms Pc
init p value next = record {
  mem = record {
    head = p;
    tail = p;
    value = put value p null;
    next = put next p null;
    hazard0 = λ _. null;
    hazard1 = λ _. null;
    live = λ a. p == a;
    order = λ _. p;
    given = λ _. null;
    last_number = 0;
    tail_number = 0;
    head_number = 0;
    retired = λ _. false;
    gone = λ _. false;
  };
  pc = λ _. idle;
}

-- The addresses that a thread's next access goes to.
abbrev pub touches : Pc → Ptr → Bool
touches (holding p _) a = p == a
touches (tail_safe _ _ t _) a = t == a
touches (linking _ _ t _) a = t == a
touches (both_read h _ _) a = h == a
touches (taken _ n _) a = n == a
touches _ a = false
