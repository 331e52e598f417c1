-- ===== src/Lock/Mcs/Binding.antt =====
-- src/lock/zm_mcs.c, the context-less calls: which entry of the table of queue nodes a thread uses. The
-- number of its hardware thread is asked of hwloc at its first acquisition, and kept. What hwloc
-- answers is a parameter: the logical indices of the hardware threads that a thread may run on.
pub mod Apart
mod Tests
use izem.Prelude.{
  ℕ, zero, suc, ◌≡◌, Bool, true, false, Option, none, some, List, [], ◌∷◌, ◌==◌, length, get_elem?,
  if◌then◌else◌,
}
use izem.Prelude.Family.{put}

-- `tid` of each thread: `none` for -1
abbrev pub Tids : Type 0
Tids = ℕ → Option ℕ

module _ (bound : ℕ → List ℕ) where
  -- `check_affinity` lets the thread pass.
  pub check_affinity : ℕ → Bool
  check_affinity t = length (bound t) == 1

  -- `none` where there is no such object.
  pub get_hwthread_id : ℕ → Option ℕ
  get_hwthread_id t = get_elem? (bound t) 0

  -- The start of `mcs_acquire` and of `mcs_tryacq`: `none` where the process exits.
  pub mcs_enter : Tids → ℕ → Option Tids
  unfolding check_affinity get_hwthread_id
  mcs_enter tids t = elim (tids t) [
    | some id ↦ some tids
    | none ↦ if check_affinity t then some (put tids t (get_hwthread_id t)) else none
  ]

  -- Threads that acquire one after the other.
  pub enter_all : Tids → List ℕ → Option Tids
  unfolding mcs_enter
  enter_all tids [] = some tids
  enter_all tids (t ∷ ts) = elim (mcs_enter tids t) [
    | none ↦ none
    | some tids' ↦ enter_all tids' ts
  ]

-- The entry that `mcs_release` and `mcs_nowaiters` use: `none` where their assertion fails.
pub mcs_held : Tids → ℕ → Option ℕ
mcs_held tids t = tids t
