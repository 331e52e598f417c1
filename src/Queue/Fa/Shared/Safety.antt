-- ===== src/Queue/Fa/Shared/Safety.antt =====
-- What zm_faqueue.c guarantees in every reachable state.
use izem.Prelude.{
  ℕ, ◌+◌, ◌-◌, ◌/◌, ◌%◌, ◌≤◌, ◌<◌, ◌≡◌, ◌≢◌, refl, Bool, true, false, ◌&&◌, arith, ◌==◌, ltb,
  if◌then◌else◌,
}
use izem.Interleave.{State, Reach}
use izem.Queue.Fa.{seg_size, alpha}
use izem.Queue.Fa.Shared.{
  Ptr, null, FaMem, Pc, idle, walking, looked, ready, seen, got, fault, usable, Move, init,
  Unwrapped,
}
use izem.Queue.Fa.Shared.Invariant.{Inv}
use izem.Queue.Fa.Shared.Cells.{head_usable, pending_usable}
use izem.Queue.Fa.Shared.Segments.{at_head}
use izem.Queue.Fa.Shared.Keeps.{place, Reach-Inv}

-- What the consumer's next move reads decides that it answers empty: there is no next segment, and its
-- cell is in that one, or its cell has no data.
abbrev pub answers_empty : FaMem → Pc → Bool
answers_empty m idle = (m.next m.seg_head == null) && ltb (m.id m.seg_head) (m.head / seg_size)
answers_empty m ready = m.cells m.seg_head (m.head % seg_size) == alpha
answers_empty m _ = false

-- The assertions of the source that a thread is at.
abbrev pub asserted : FaMem → Pc → Bool
asserted m (walking d c s k) =
    (m.id s == k) && (if ltb k (c / seg_size) then true else m.id s == c / seg_size)
asserted m (looked n) =
    if (n == null) && ltb (m.id m.seg_head) (m.head / seg_size)
    then true
    else if ltb (m.id m.seg_head) (m.head / seg_size)
    then m.head / seg_size == m.id m.seg_head + 1
    else true
asserted m ready = m.head / seg_size == m.id m.seg_head
asserted m _ = true

-- The segment whose cell a thread is about to read or write may be used, and no thread has used the
-- cell of one that may not.
abbrev pub accessible : FaMem → Pc → Bool
accessible m (walking d c s k) = if ltb k (c / seg_size) then true else usable m s
accessible m ready = usable m m.seg_head
accessible m seen = usable m m.seg_head
accessible m fault = false
accessible m _ = true

-- Under the invariant, each of them may be used.
cells_usable :
    {s : State FaMem Pc} (inv : Inv s) (i : ℕ) (p : Pc) → s.pc i ≡ p → accessible s.mem p ≡ true
cells_usable inv i (walking d c q k) at = ground (arith, pending_usable inv i at)
cells_usable inv i p at = ground (arith, inv.locals i, head_usable inv)

module _ {n : ℕ} {p : Ptr} (id : Ptr → ℕ) (cells : Ptr → ℕ → ℕ) (next : Ptr → Ptr)
    {s : State FaMem Pc} (ne : p ≢ null)
    (run : Reach Move Unwrapped n (init p id cells next) s) where
  open s use {mem, pc}

  -- First in, first out, with any number of producers and as long as fewer than 2^64 cells have been
  -- given out: when a dequeue has stepped the head, its data is that of the enqueue whose fetch-and-add
  -- was the `head`-th; so the data come out in the order of the fetch-and-adds, each once.
  pub fa_fifo :
      (i v : ℕ)
      → pc i ≡ got v
      → (v ≡ mem.given (mem.head - 1)) × (0 < mem.head) × (mem.head ≤ mem.entered)
  fa_fifo i v at =
      let inv = Reach-Inv id cells next ne run in ground (arith, inv.locals i, inv.ordered)

  -- Under the same bound, no assertion of the source fails: each segment has the number that the walk
  -- expects, the walk ends at the segment of the cell, and the consumer is never more than one segment
  -- behind its cell.
  pub fa_assertions : (i : ℕ) → asserted mem (pc i) ≡ true
  fa_assertions i =
      let inv = Reach-Inv id cells next ne run in
      ground (
        arith,
        inv.locals i,
        inv.numbered (place (pc i)),
        inv.first_high,
        inv.first_low,
        inv.first_last,
        at_head inv,
      )

  -- Under the same bound, no thread ever reads or writes a cell of a segment that is not allocated or
  -- that has been retired: not a producer that fills its cell, and not the consumer at either of its two
  -- reads, in the past or in its next move.
  pub fa_cells_live : (i : ℕ) → accessible mem (pc i) ≡ true
  fa_cells_live i = cells_usable (Reach-Inv id cells next ne run) i (pc i) refl
