-- ===== src/Queue/Fa.antt =====
-- src/queue/zm_faqueue.c: an unbounded array of cells in segments of 1024, linked from `seg_head` on.
-- Here one operation at a time: the chain of segments is a list, the first one at `seg_head`, and
-- `free` by hazard pointers drops a segment. Shared has the same access by access. `tail` is an
-- unsigned long of 64 bits.
pub mod Cells
pub mod Dequeue
pub mod Shared
mod Tests
use izem.Prelude.{
  ℕ, zero, suc, ◌+◌, ◌-◌, ◌/◌, ◌%◌, ◌^◌, Option, none, some, List, [], ◌∷◌, ◌==◌, ltb,
  if◌then◌else◌,
}
use izem.Prelude.Family.{put}

-- `ZM_MAX_FASEG_SIZE`
abbrev pub seg_size : ℕ
seg_size = 1024

-- `ZM_FAQUEUE_ALPHA`: the cell is empty
abbrev pub alpha : ℕ
alpha = 18446744073709551615

-- `struct zm_faseg`; the link is the place in the list
pub record Seg : Type 0 where
  pub id : ℕ
  pub cells : ℕ → ℕ

-- `struct zm_faqueue`; `seg_tail` is only ever set once, and not read
pub record FaQueue : Type 0 where
  pub head : ℕ
  pub tail : ℕ
  pub seg_head : Seg
  pub others : List Seg  -- behind `seg_head`

pub seg_alloc : ℕ → Seg
seg_alloc i = record { id = i; cells = λ _. alpha }

pub faqueue_init : FaQueue
unfolding seg_alloc
faqueue_init = record { head = 0; tail = 0; seg_head = seg_alloc 0; others = [] }

-- `zm_facell_find`, with `n` rounds to go from segment `s`, and the store into the cell found. A
-- round is `zm_faseg_advance`, which allocates the next segment where there is none.
pub store_cell : (n : ℕ) → (cell d : ℕ) → Seg → List Seg → Seg × List Seg
unfolding seg_alloc
store_cell zero j d s ss = (record s { cells = put s.cells j d }, ss)
store_cell (suc n) j d s [] =
    let (t, ts) = store_cell n j d (seg_alloc (suc s.id)) [] in (s, t ∷ ts)
store_cell (suc n) j d s (next ∷ ss) = let (t, ts) = store_cell n j d next ss in (s, t ∷ ts)

pub faqueue_enqueue : FaQueue → ℕ → FaQueue
unfolding store_cell
faqueue_enqueue q d =
    let cell_id = q.tail in
    let (s, ss) =
      store_cell (cell_id / seg_size - q.seg_head.id) (cell_id % seg_size) d q.seg_head q.others in
    record q { tail = (cell_id + 1) % 2 ^ 64; seg_head = s; others = ss }

-- The test of the cell and the step of `head`.
pub take_cell : FaQueue → FaQueue × Option ℕ
take_cell q =
    let d = q.seg_head.cells (q.head % seg_size) in
    if d == alpha then (q, none) else (record q { head = q.head + 1 }, some d)

-- `none` stands for `*data == NULL` with the return value 0.
pub faqueue_dequeue : FaQueue → FaQueue × Option ℕ
unfolding take_cell
faqueue_dequeue q =
    if ltb q.seg_head.id (q.head / seg_size)
    then elim q.others [
      | [] ↦ (q, none)
      | next ∷ rest ↦ take_cell (record q { seg_head = next; others = rest })
    ]
    else take_cell q
