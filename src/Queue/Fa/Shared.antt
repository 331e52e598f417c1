-- ===== src/Queue/Fa/Shared.antt =====
-- src/queue/zm_faqueue.c, one shared access at a time, for any number of producers and one consumer,
-- thread 0, which may produce as well. `malloc` returns any address that is not in use, but not
-- `NULL`, and a new segment is filled in one move, as no other thread knows it. No address of a
-- retired segment is used again.
pub mod Invariant
pub mod Segments
pub mod Cells
pub mod Private
pub mod Keeps
pub mod Safety
mod Tests
use izem.Prelude.{
  ℕ, zero, suc, ◌+◌, ◌/◌, ◌%◌, ◌^◌, ◌<◌, ◌≡◌, ◌≢◌, Bool, true, false, not, ◌&&◌, ◌==◌, ltb,
  if◌then◌else◌,
}
use izem.Prelude.Family.{put}
use izem.Interleave.{State}
use izem.Queue.Fa.{seg_size, alpha}

abbrev pub Ptr : Type 0
Ptr = ℕ

abbrev pub null : Ptr
null = 0

-- The queue and its segments by address; and a history that the code does not keep: how many cells
-- have been given out and the data for each, which segment was the `k`-th, and the number of the
-- last one.
pub record FaMem : Type 0 where
  pub head : ℕ
  pub tail : ℕ
  pub seg_head : Ptr
  pub id : Ptr → ℕ
  pub cells : Ptr → ℕ → ℕ
  pub next : Ptr → Ptr
  pub live : Ptr → Bool  -- allocated
  pub retired : Ptr → Bool
  pub hazard : ℕ → Ptr  -- `hzdptrs[0]` of a thread
  pub entered : ℕ
  pub given : ℕ → ℕ
  pub segs : ℕ → Ptr
  pub last : ℕ

-- Where a thread stands; a producer has its data `d` and its cell `c`.
pub data Pc : Type 0 where
  idle : Pc
  added : (d c : ℕ) → Pc
  headed : (d c : ℕ) (seg : Ptr) → Pc  -- it has read `q->seg_head`
  walking : (d c : ℕ) (seg : Ptr) (i : ℕ) → Pc  -- the loop of `zm_facell_find`, with `cur_seg`
  loaded : (d c : ℕ) (seg : Ptr) (i : ℕ) (next : Ptr) → Pc  -- `zm_faseg_advance` has read `next`
  making : (d c : ℕ) (seg : Ptr) (i : ℕ) → Pc  -- there was none
  made : (d c : ℕ) (seg : Ptr) (i : ℕ) (tmp_seg : Ptr) → Pc
  lost : (d c : ℕ) (seg : Ptr) (i : ℕ) (tmp_seg : Ptr) → Pc  -- the exchange failed
  linked : (d c : ℕ) (seg : Ptr) (i : ℕ) → Pc  -- before `next` is read again
  looked : (next : Ptr) → Pc  -- `zm_faqueue_dequeue` has read `seg_head->next`
  moved : (old : Ptr) → Pc  -- it has written `q->seg_head`
  ready : Pc
  seen : Pc  -- it has seen data in the cell
  taken : (value : ℕ) → Pc
  got : (value : ℕ) → Pc  -- it has written `q->head`
  fault : Pc  -- it has accessed a cell of a segment that is not allocated, or has been retired

pub add_tail : ℕ → FaMem → FaMem
add_tail d m = record m {
  tail = (m.tail + 1) % 2 ^ 64;
  entered = suc m.entered;
  given = put m.given m.entered d;
}

pub store : Ptr → ℕ → ℕ → FaMem → FaMem
store s c d m = record m { cells = put m.cells s (put (m.cells s) (c % seg_size) d) }

pub protect : ℕ → Ptr → FaMem → FaMem
protect i p m = record m { hazard = put m.hazard i p }

-- `zm_faseg_alloc`
pub seg_new : Ptr → ℕ → FaMem → FaMem
seg_new t k m = record m {
  live = put m.live t true;
  id = put m.id t k;
  next = put m.next t null;
  cells = put m.cells t (λ _. alpha);
}

pub link : Ptr → Ptr → FaMem → FaMem
link s t m = record m { next = put m.next s t; segs = put m.segs (suc m.last) t; last = suc m.last }

-- `zm_faseg_free`, by a thread that has a node in the list of hazard pointers
pub retire : Ptr → FaMem → FaMem
retire t m = record m { retired = put m.retired t true }

pub move_head : Ptr → FaMem → FaMem
move_head p m = record m { seg_head = p }

pub add_head : FaMem → FaMem
add_head m = record m { head = (m.head + 1) % 2 ^ 64 }

-- A cell of the segment may be accessed.
abbrev pub usable : FaMem → Ptr → Bool
usable m s = m.live s && not (m.retired s)

-- One access of thread `i`.
pub data Move (i : ℕ) (m : FaMem) : Pc → FaMem → Pc → Type 0 where
  enqueue_add : {d : ℕ} → Move i m idle (add_tail d m) (added d m.tail)
  enqueue_head : {d c : ℕ} → Move i m (added d c) m (headed d c m.seg_head)
  find_id : {d c : ℕ} {s : Ptr} → Move i m (headed d c s) m (walking d c s (m.id s))
  find_next :
      {d c : ℕ} {s : Ptr} {k : ℕ}
      → k < c / seg_size
      → Move i m (walking d c s k) m (loaded d c s k (m.next s))
  find_store :
      {d c : ℕ} {s : Ptr} {k : ℕ}
      → ltb k (c / seg_size) ≡ false
      → Move i m (walking d c s k) (store s c d m) (if usable m s then idle else fault)
  advance_protect :
      {d c : ℕ} {s : Ptr} {k : ℕ} {n : Ptr}
      → Move i m
          (loaded d c s k n)
          (protect i n m)
          (if n == null then making d c s k else walking d c n (suc k))
  advance_alloc :
      {d c : ℕ} {s : Ptr} {k : ℕ} {t : Ptr}
      → t ≢ null
      → m.live t ≡ false
      → Move i m (making d c s k) (seg_new t (suc k) m) (made d c s k t)
  advance_link :
      {d c : ℕ} {s : Ptr} {k : ℕ} {t : Ptr}
      → m.next s ≡ null
      → Move i m (made d c s k t) (link s t m) (linked d c s k)
  advance_lose :
      {d c : ℕ} {s : Ptr} {k : ℕ} {t : Ptr}
      → m.next s ≢ null
      → Move i m (made d c s k t) m (lost d c s k t)
  advance_free :
      {d c : ℕ} {s : Ptr} {k : ℕ} {t : Ptr}
      → Move i m (lost d c s k t) (retire t m) (linked d c s k)
  advance_reload :
      {d c : ℕ} {s : Ptr} {k : ℕ} → Move i m (linked d c s k) m (walking d c (m.next s) (suc k))
  dequeue_load : i ≡ 0 → Move i m idle m (looked (m.next m.seg_head))
  dequeue_stay :
      {n : Ptr} → ltb (m.id m.seg_head) (m.head / seg_size) ≡ false → Move i m (looked n) m ready
  dequeue_wait : ltb (m.id m.seg_head) (m.head / seg_size) ≡ true → Move i m (looked null) m idle
  dequeue_move :
      {n : Ptr}
      → ltb (m.id m.seg_head) (m.head / seg_size) ≡ true
      → n ≢ null
      → Move i m (looked n) (move_head n m) (moved m.seg_head)
  dequeue_free : {old : Ptr} → Move i m (moved old) (retire old m) ready
  dequeue_test : Move i m ready m (
      if usable m m.seg_head
      then if m.cells m.seg_head (m.head % seg_size) == alpha then idle else seen
      else fault)
  dequeue_data :
      Move i m seen m
        (if usable m m.seg_head then taken (m.cells m.seg_head (m.head % seg_size)) else fault)
  dequeue_count : {v : ℕ} → Move i m (taken v) (add_head m) (got v)
  dequeue_done : {v : ℕ} → Move i m (got v) m idle

-- `zm_faqueue_init` with its segment at `p`; other memory holds anything.
abbrev pub init : Ptr → (Ptr → ℕ) → (Ptr → ℕ → ℕ) → (Ptr → Ptr) → State FaMem Pc
init p id cells next = record {
  mem = record {
    head = 0;
    tail = 0;
    seg_head = p;
    id = put id p 0;
    cells = put cells p (λ _. alpha);
    next = put next p null;
    live = λ a. p == a;
    retired = λ _. false;
    hazard = λ _. null;
    entered = 0;
    given = λ _. 0;
    segs = λ _. p;
    last = 0;
  };
  pc = λ _. idle;
}

-- Fewer than 2^64 cells have been given out.
abbrev pub Unwrapped : State FaMem Pc → Type 0
Unwrapped s = s.mem.entered < 2 ^ 64
