-- ===== src/Lock/Fifo.antt =====
-- What a first-come-first-served lock promises, with no representation: threads take numbers in the
-- order of arrival, and are let in one at a time in that order. The ticket and MCS locks refine it.
pub mod Laws
use izem.Prelude.{ℕ, suc, ◌+◌, ◌≤◌, ◌<◌, ◌≡◌, ◌≢◌, Option, none, some}
use izem.Prelude.Family.{total}

-- What a thread is to the lock. The numbers count arrivals and never wrap.
pub data Role : Type 0 where
  out : Role
  waiting : (number : ℕ) → Role
  inside : (number : ℕ) → Role

pub record Fifo : Type 0 where
  pub arrivals : ℕ
  pub served : ℕ
  pub role : ℕ → Role

-- Only thread `i` changes its role.
abbrev pub Others : ℕ → Fifo → Fifo → Type 0
Others i s t = (j : ℕ) → j ≢ i → t.role j ≡ s.role j

-- One atomic change of the abstract lock, by a thread below `n`.
pub data FifoStep (n : ℕ) (s t : Fifo) : Type 0 where
  arrive :
      (i : ℕ)
      → i < n
      → Others i s t
      → s.role i ≡ out
      → t.role i ≡ waiting s.arrivals
      → t.arrivals ≡ suc s.arrivals
      → t.served ≡ s.served
      → FifoStep n s t
  enter :
      (i : ℕ)
      → i < n
      → Others i s t
      → s.role i ≡ waiting s.served
      → t.role i ≡ inside s.served
      → t.arrivals ≡ s.arrivals
      → t.served ≡ s.served
      → FifoStep n s t
  try_enter :
      (i : ℕ)
      → i < n
      → Others i s t
      → s.role i ≡ out
      → s.arrivals ≡ s.served
      → t.role i ≡ inside s.served
      → t.arrivals ≡ suc s.arrivals
      → t.served ≡ s.served
      → FifoStep n s t
  leave :
      (i : ℕ)
      → i < n
      → Others i s t
      → s.role i ≡ inside s.served
      → t.role i ≡ out
      → t.arrivals ≡ s.arrivals
      → t.served ≡ suc s.served
      → FifoStep n s t
  -- The implementation moves, and the abstract lock does not.
  stutter :
      ((j : ℕ) → t.role j ≡ s.role j)
      → t.arrivals ≡ s.arrivals
      → t.served ≡ s.served
      → FifoStep n s t

abbrev pub number : Role → Option ℕ
number out = none
number (waiting k) = some k
number (inside k) = some k

abbrev pub weight : Role → ℕ
weight out = 0
weight _ = 1

-- A thread with number `k`.
abbrev pub Has : Fifo → ℕ → Type 0
Has s k = (i : ℕ) × (number (s.role i) ≡ some k)

pub record FifoInv (n : ℕ) (s : Fifo) : Type 0 where
  -- as many numbers are out as there are threads in line
  pub counted : s.arrivals ≡ s.served + total weight n s.role
  -- only threads below `n` take part
  pub idle : (i : ℕ) → n ≤ i → s.role i ≡ out
  pub range : (i k : ℕ) → number (s.role i) ≡ some k → (s.served ≤ k) × (k < s.arrivals)
  pub turn : (i k : ℕ) → s.role i ≡ inside k → k ≡ s.served
  pub unique : (i j k : ℕ) → number (s.role i) ≡ some k → number (s.role j) ≡ some k → i ≡ j
  pub covered : (k : ℕ) → s.served ≤ k → k < s.arrivals → Has s k
