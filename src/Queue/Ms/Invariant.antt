-- ===== src/Queue/Ms/Invariant.antt =====
-- What ties the nodes of zm_msqueue.c to the order of their links.
use izem.Prelude.{ℕ, suc, ◌≤◌, ◌<◌, ◌≡◌, ◌≢◌, true, false, Option, none, some}
use izem.Interleave.{State}
use izem.Queue.Ms.{
  Ptr, null, Ms, Pc, holding, looping, tail_read, tail_held, tail_safe, linking, helping, swinging,
  head_held, head_safe, both_read, next_read, next_held, pushing, taking, taken, retiring,
}

-- The node that only this thread knows.
abbrev pub owned : Pc → Option Ptr
owned (holding p _) = some p
owned (looping p _) = some p
owned (tail_read p _ _) = some p
owned (tail_held p _ _) = some p
owned (tail_safe p _ _ _) = some p
owned (linking p _ _ _) = some p
owned (helping p _ _ _ _) = some p
owned _ = none

-- The number of the old head that this thread has taken and is to retire.
abbrev pub took : Pc → Option ℕ
took (taken _ _ a) = some a
took (retiring _ _ a) = some a
took _ = none

-- The new node has its data, and no successor.
abbrev pub Filled : Ms → Ptr → Ptr → Type 0
Filled m p d = (m.value p ≡ d) × (m.next p ≡ null)

-- Thread `i` protects the node at `p`, which has number `a`, and is not freed.
abbrev pub Guarded : Ms → ℕ → Ptr → ℕ → Type 0
Guarded m i p a = (m.hazard0 i ≡ p) × (m.order a ≡ p) × (m.gone a ≡ false) × (a ≤ m.tail_number)

-- What a thread's place says about shared memory.
abbrev pub Local : Ms → ℕ → Pc → Type 0
Local m i (looping p d) = Filled m p d
Local m i (tail_read p d t) = Filled m p d
Local m i (tail_held p d t) = Filled m p d × (m.hazard0 i ≡ t)
Local m i (tail_safe p d t a) = Filled m p d × Guarded m i t a
Local m i (linking p d t a) = Filled m p d × Guarded m i t a
Local m i (helping p d t n a) =
    Filled m p d × Guarded m i t a × (a < m.last_number) × (n ≡ m.order (suc a))
Local m i (swinging p t a) = Guarded m i t a × (a < m.last_number) × (p ≡ m.order (suc a))
Local m i (head_held h) = m.hazard0 i ≡ h
Local m i (head_safe h a) = Guarded m i h a × (a ≤ m.head_number)
Local m i (both_read h t a) = Guarded m i h a × (a ≤ m.head_number) × (h ≢ t → a < m.tail_number)
Local m i (next_read h t n a) =
    Guarded m i h a
    × (a ≤ m.head_number)
    × (h ≢ t → a < m.tail_number)
    × (h ≢ t → n ≢ null)
    × (n ≢ null → (a < m.last_number) × (n ≡ m.order (suc a)))
Local m i (next_held h t n a) =
    Guarded m i h a
    × (a ≤ m.head_number)
    × (h ≢ t → a < m.tail_number)
    × (h ≢ t → n ≢ null)
    × (n ≢ null → (a < m.last_number) × (n ≡ m.order (suc a)))
    × (m.hazard1 i ≡ n)
Local m i (pushing t n a) = Guarded m i t a × (a < m.last_number) × (n ≡ m.order (suc a))
Local m i (taking h n a) =
    Guarded m i h a × (a < m.tail_number) × (n ≡ m.order (suc a)) × (m.hazard1 i ≡ n)
Local m i (taken h n a) =
    Guarded m i h a
    × (a < m.head_number)
    × (n ≡ m.order (suc a))
    × (m.hazard1 i ≡ n)
    × (m.gone (suc a) ≡ false)
Local m i (retiring h v a) = Guarded m i h a × (a < m.head_number) × (v ≡ m.given (suc a))
Local m i _ = Unit

pub record Inv (s : State Ms Pc) : Type 0 where
  pub ordered : (s.mem.head_number ≤ s.mem.tail_number) × (s.mem.tail_number ≤ s.mem.last_number)
  pub head : s.mem.head ≡ s.mem.order s.mem.head_number
  pub tail : s.mem.tail ≡ s.mem.order s.mem.tail_number
  pub kept : (k : ℕ) → s.mem.head_number ≤ k → s.mem.gone k ≡ false
  pub past : (k : ℕ) → s.mem.retired k ≡ true → k < s.mem.head_number
  pub stored :
      (k : ℕ) → k ≤ s.mem.last_number → s.mem.gone k ≡ false → s.mem.live (s.mem.order k) ≡ true
  pub named : (k : ℕ) → k ≤ s.mem.last_number → s.mem.order k ≢ null
  pub distinct :
      (j k : ℕ)
      → j ≤ s.mem.last_number
      → s.mem.gone j ≡ false
      → k ≤ s.mem.last_number
      → s.mem.gone k ≡ false
      → s.mem.order j ≡ s.mem.order k
      → j ≡ k
  pub contents :
      (k : ℕ)
      → k ≤ s.mem.last_number
      → s.mem.gone k ≡ false
      → 0 < k
      → s.mem.value (s.mem.order k) ≡ s.mem.given k
  pub final : s.mem.next (s.mem.order s.mem.last_number) ≡ null
  pub chain :
      (k : ℕ)
      → k < s.mem.last_number
      → s.mem.gone k ≡ false
      → s.mem.next (s.mem.order k) ≡ s.mem.order (suc k)
  pub private_live : (i p : ℕ) → owned (s.pc i) ≡ some p → (s.mem.live p ≡ true) × (p ≢ null)
  pub private_alone : (i j p : ℕ) → owned (s.pc i) ≡ some p → owned (s.pc j) ≡ some p → i ≡ j
  pub private_out :
      (i p k : ℕ)
      → owned (s.pc i) ≡ some p
      → k ≤ s.mem.last_number
      → s.mem.gone k ≡ false
      → s.mem.order k ≢ p
  pub single : (i j k : ℕ) → took (s.pc i) ≡ some k → took (s.pc j) ≡ some k → i ≡ j
  pub locals : (i : ℕ) → Local s.mem i (s.pc i)
