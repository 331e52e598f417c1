-- ===== src/Interleave.antt =====
-- Threads that share memory, one atomic access at a time, in any order (sequential consistency).
-- A component gives the moves of one thread; this file gives the runs of any number of threads.
use izem.Prelude.{ℕ, ◌<◌}
use izem.Prelude.Family.{put}

-- The shared memory, and where each thread stands.
pub record State (Mem Pc : Type 0) : Type 0 where
  pub mem : Mem
  pub pc : ℕ → Pc

-- `Move i m p m' p'`: thread `i` at `p` over memory `m` can go to `p'` and leave `m'`.
abbrev pub Moves : Type 0 → Type 0 → Type 1
Moves Mem Pc = ℕ → Mem → Pc → Mem → Pc → Type 0

-- One of the threads below `n` moves.
pub data Step {Mem Pc : Type 0} (Move : Moves Mem Pc) (n : ℕ) (s : State Mem Pc)
    : State Mem Pc → Type 0 where
  pick :
      (i : ℕ) {m : Mem} {p : Pc}
      → i < n
      → Move i s.mem (s.pc i) m p
      → Step Move n s (record { mem = m; pc = put s.pc i p })

-- Runs from `init` through states that satisfy `Ok` only.
pub data Reach {Mem Pc : Type 0} (Move : Moves Mem Pc) (Ok : State Mem Pc → Type 0) (n : ℕ)
    (init : State Mem Pc) : State Mem Pc → Type 0 where
  start : Ok init → Reach Move Ok n init init
  later :
      {s t : State Mem Pc}
      → Reach Move Ok n init s
      → Step Move n s t
      → Ok t
      → Reach Move Ok n init t

-- No restriction on the runs.
abbrev pub Any : {Mem Pc : Type 0} → State Mem Pc → Type 0
Any s = Unit

pub Reach-Ok :
    {Mem Pc : Type 0} {Move : Moves Mem Pc} {Ok : State Mem Pc → Type 0} {n : ℕ}
    {init s : State Mem Pc}
    → Reach Move Ok n init s
    → Ok s
Reach-Ok (start ok) = ok
Reach-Ok (later r st ok) = ok

-- What holds at first and is kept by every move holds in every reachable state.
pub Reach-invariant :
    {Mem Pc : Type 0} {Move : Moves Mem Pc} {Ok : State Mem Pc → Type 0} {n : ℕ}
    {init : State Mem Pc} (Inv : State Mem Pc → Type 0)
    → Inv init
    → ((s t : State Mem Pc) → Inv s → Ok s → Step Move n s t → Inv t)
    → (s : State Mem Pc) → Reach Move Ok n init s
    → Inv s
Reach-invariant Inv base keep s (start ok) = base
Reach-invariant Inv base keep s (later {s = r} before st ok) =
    keep r s (Reach-invariant Inv base keep r before) (Reach-Ok before) st
