-- ===== src/Queue/Swp/Invariant.antt =====
-- What ties the nodes of zm_swpqueue.c to the order of the swaps.
use izem.Prelude.{ℕ, suc, ◌≤◌, ◌<◌, ◌≡◌, ◌≢◌, ◌⊎◌, true, false, Option, none, some}
use izem.Interleave.{State}
use izem.Queue.Swp.{
  Ptr, null, Swp, Pc, holding, filled, linking, at_head, found, ahead, moved, got, weak_at,
  strong_at, strong_both, strong_told,
}

-- The node that only this thread knows.
abbrev pub owned : Pc → Option Ptr
owned (holding p _) = some p
owned (filled p _) = some p
owned (moved h _) = some h
owned (got h _) = some h
owned _ = none

-- The number of the node that this thread is to link onwards.
abbrev pub linked_from : Pc → Option ℕ
linked_from (linking _ _ k) = some k
linked_from _ = none

-- The node at `p` is in the queue, from the head on, with number `k`.
abbrev pub InQueue : Swp → ℕ → Type 0
InQueue m k = (m.left ≤ k) × (k ≤ m.entered)

-- What a thread's place says about shared memory; `i` is the thread.
abbrev pub Local : Swp → ℕ → Pc → Type 0
Local m i (filled p d) = (m.value p ≡ d) × (m.next p ≡ null)
Local m i (linking pred p k) =
    (m.left ≤ k)
    × (k < m.entered)
    × (m.order k ≡ pred)
    × (m.order (suc k) ≡ p)
    × (m.next pred ≡ null)
Local m i (at_head h) = (i ≡ 0) × (h ≡ m.order m.left)
Local m i (found h) = (i ≡ 0) × (h ≡ m.order m.left) × (m.next h ≢ null)
Local m i (ahead h q) = (i ≡ 0) × (h ≡ m.order m.left) × (m.next h ≡ q) × (q ≢ null)
Local m i (moved h q) = (i ≡ 0) × (q ≡ m.order m.left) × (0 < m.left)
Local m i (got h v) = (i ≡ 0) × (v ≡ m.given m.left) × (0 < m.left)
Local m i (weak_at h) = (i ≡ 0) × (h ≡ m.order m.left)
Local m i (strong_at h) = (i ≡ 0) × (h ≡ m.order m.left)
Local m i (strong_both h t k) =
    (i ≡ 0) × (h ≡ m.order m.left) × (t ≡ m.order k) × (m.left ≤ k) × (k ≤ m.entered)
Local m i (strong_told true k) = (i ≡ 0) × (k ≡ m.left)
Local m i (strong_told false k) = (i ≡ 0) × (m.left < m.entered)
Local m i _ = Unit

pub record Inv (s : State Swp Pc) : Type 0 where
  pub ordered : s.mem.left ≤ s.mem.entered
  pub head : s.mem.head ≡ s.mem.order s.mem.left
  pub tail : s.mem.tail ≡ s.mem.order s.mem.entered
  pub stored :
      (k : ℕ) → InQueue s.mem k → (s.mem.live (s.mem.order k) ≡ true) × (s.mem.order k ≢ null)
  pub distinct :
      (j k : ℕ) → InQueue s.mem j → InQueue s.mem k → s.mem.order j ≡ s.mem.order k → j ≡ k
  pub contents : (k : ℕ) → InQueue s.mem k → 0 < k → s.mem.value (s.mem.order k) ≡ s.mem.given k
  pub last : s.mem.next (s.mem.order s.mem.entered) ≡ null
  -- a node is linked onwards, or a thread is about to link it
  pub chain :
      (k : ℕ)
      → s.mem.left ≤ k
      → k < s.mem.entered
      → (s.mem.next (s.mem.order k) ≡ s.mem.order (suc k))
        ⊎ ((s.mem.next (s.mem.order k) ≡ null) × ((i : ℕ) × (linked_from (s.pc i) ≡ some k)))
  pub single : (i j k : ℕ) → linked_from (s.pc i) ≡ some k → linked_from (s.pc j) ≡ some k → i ≡ j
  -- an owned node is allocated, in nobody else's hands and not in the queue
  pub private_live : (i p : ℕ) → owned (s.pc i) ≡ some p → (s.mem.live p ≡ true) × (p ≢ null)
  pub private_alone : (i j p : ℕ) → owned (s.pc i) ≡ some p → owned (s.pc j) ≡ some p → i ≡ j
  pub private_out : (i p k : ℕ) → owned (s.pc i) ≡ some p → InQueue s.mem k → s.mem.order k ≢ p
  pub locals : (i : ℕ) → Local s.mem i (s.pc i)
