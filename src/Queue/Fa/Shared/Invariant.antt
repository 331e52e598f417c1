-- ===== src/Queue/Fa/Shared/Invariant.antt =====
-- What ties the segments and cells of zm_faqueue.c to the order of the enqueues.
use izem.Prelude.{
  ℕ, suc, ◌+◌, ◌-◌, ◌*◌, ◌/◌, ◌%◌, ◌^◌, ◌≤◌, ◌<◌, ◌≡◌, ◌≢◌, ◌⊎◌, true, false, Option, none, some,
}
use izem.Interleave.{State}
use izem.Queue.Fa.{seg_size, alpha}
use izem.Queue.Fa.Shared.{
  Ptr, null, FaMem, Pc, added, headed, walking, loaded, making, made, lost, linked, looked, moved,
  ready, seen, taken, got, fault,
}

-- The cell that this thread is to fill.
abbrev pub cell_of : Pc → Option ℕ
cell_of (added d c) = some c
cell_of (headed d c s) = some c
cell_of (walking d c s k) = some c
cell_of (loaded d c s k n) = some c
cell_of (making d c s k) = some c
cell_of (made d c s k t) = some c
cell_of (lost d c s k t) = some c
cell_of (linked d c s k) = some c
cell_of _ = none

-- Its data.
abbrev pub data_of : Pc → ℕ
data_of (added d c) = d
data_of (headed d c s) = d
data_of (walking d c s k) = d
data_of (loaded d c s k n) = d
data_of (making d c s k) = d
data_of (made d c s k t) = d
data_of (lost d c s k t) = d
data_of (linked d c s k) = d
data_of _ = 0

-- The segment that only this thread knows.
abbrev pub owned : Pc → Option Ptr
owned (made d c s k t) = some t
owned (lost d c s k t) = some t
owned _ = none

-- `s` is the `k`-th segment, which is not past the one of cell `c`.
abbrev pub At : FaMem → ℕ → Ptr → ℕ → Type 0
At m c s k = (s ≡ m.segs k) × (k ≤ m.last) × (k ≤ c / seg_size)

-- What cell number `c` holds.
abbrev pub content : FaMem → ℕ → ℕ
content m c = m.cells (m.segs (c / seg_size)) (c % seg_size)

-- The number of the cell that the consumer is to take is in its segment.
abbrev pub InSegment : FaMem → Type 0
InSegment m = m.head < (m.id m.seg_head + 1) * seg_size

-- What a thread's place says about shared memory.
abbrev pub Local : FaMem → ℕ → Pc → Type 0
Local m i (headed d c s) = At m c s (m.id s)
Local m i (walking d c s k) = At m c s k
Local m i (loaded d c s k n) =
    At m c s k × (k < c / seg_size) × ((n ≡ null) ⊎ ((n ≡ m.segs (suc k)) × (k < m.last)))
Local m i (making d c s k) = At m c s k × (k < c / seg_size)
Local m i (made d c s k t) = At m c s k × (k < c / seg_size) × (m.id t ≡ suc k) × (m.next t ≡ null)
Local m i (lost d c s k t) = At m c s k × (k < c / seg_size) × (k < m.last)
Local m i (linked d c s k) = At m c s k × (k < c / seg_size) × (k < m.last)
Local m i (looked n) =
    (i ≡ 0) × ((n ≡ null) ⊎ ((n ≡ m.segs (suc (m.id m.seg_head))) × (m.id m.seg_head < m.last)))
Local m i (moved old) =
    (i ≡ 0) × InSegment m × (0 < m.id m.seg_head) × (old ≡ m.segs (m.id m.seg_head - 1))
Local m i ready = (i ≡ 0) × InSegment m
Local m i seen = (i ≡ 0) × InSegment m × (content m m.head ≢ alpha)
Local m i (taken v) = (i ≡ 0) × InSegment m × (content m m.head ≢ alpha) × (v ≡ m.given m.head)
Local m i (got v) = (i ≡ 0) × (0 < m.head) × (v ≡ m.given (m.head - 1))
Local m i fault = ⊥
Local m i _ = Unit

pub record Inv (s : State FaMem Pc) : Type 0 where
  pub tail : s.mem.tail ≡ s.mem.entered % 2 ^ 64
  pub ordered : s.mem.head ≤ s.mem.entered
  -- the consumer's segment
  pub first : s.mem.seg_head ≡ s.mem.segs (s.mem.id s.mem.seg_head)
  pub first_last : s.mem.id s.mem.seg_head ≤ s.mem.last
  pub first_low : s.mem.id s.mem.seg_head * seg_size ≤ s.mem.head
  pub first_high : s.mem.head ≤ (s.mem.id s.mem.seg_head + 1) * seg_size
  -- the chain of segments
  pub numbered : (k : ℕ) → k ≤ s.mem.last → s.mem.id (s.mem.segs k) ≡ k
  pub stored : (k : ℕ) → k ≤ s.mem.last → (s.mem.live (s.mem.segs k) ≡ true) × (s.mem.segs k ≢ null)
  pub chain : (k : ℕ) → k < s.mem.last → s.mem.next (s.mem.segs k) ≡ s.mem.segs (suc k)
  pub end : s.mem.next (s.mem.segs s.mem.last) ≡ null
  -- the cells
  pub contents :
      (c : ℕ)
      → c / seg_size ≤ s.mem.last
      → content s.mem c ≢ alpha
      → (c < s.mem.entered) × (content s.mem c ≡ s.mem.given c)
  pub filled :
      (c : ℕ)
      → c < s.mem.entered
      → ((i : ℕ) × (cell_of (s.pc i) ≡ some c))
        ⊎ ((c / seg_size ≤ s.mem.last) × (content s.mem c ≡ s.mem.given c))
  -- a cell that a thread is to fill has no data, and is not behind the consumer
  pub pending :
      (i c : ℕ)
      → cell_of (s.pc i) ≡ some c
      → (s.mem.head ≤ c) × (c < s.mem.entered) × (data_of (s.pc i) ≡ s.mem.given c)
  pub unfilled :
      (i c : ℕ) → cell_of (s.pc i) ≡ some c → c / seg_size ≤ s.mem.last → content s.mem c ≡ alpha
  pub single : (i j c : ℕ) → cell_of (s.pc i) ≡ some c → cell_of (s.pc j) ≡ some c → i ≡ j
  -- a segment that a thread has made is in nobody else's hands
  pub private_live : (i t : ℕ) → owned (s.pc i) ≡ some t → (s.mem.live t ≡ true) × (t ≢ null)
  pub private_alone : (i j t : ℕ) → owned (s.pc i) ≡ some t → owned (s.pc j) ≡ some t → i ≡ j
  pub private_out : (i t k : ℕ) → owned (s.pc i) ≡ some t → k ≤ s.mem.last → s.mem.segs k ≢ t
  pub private_empty : (i t j : ℕ) → owned (s.pc i) ≡ some t → s.mem.cells t j ≡ alpha
  pub private_kept : (i t : ℕ) → owned (s.pc i) ≡ some t → s.mem.retired t ≡ false
  -- only segments behind the consumer's are retired
  pub retired_live : (t : ℕ) → s.mem.retired t ≡ true → s.mem.live t ≡ true
  pub retired_old :
      (k : ℕ) → k ≤ s.mem.last → s.mem.retired (s.mem.segs k) ≡ true → k < s.mem.id s.mem.seg_head
  pub locals : (i : ℕ) → Local s.mem i (s.pc i)
