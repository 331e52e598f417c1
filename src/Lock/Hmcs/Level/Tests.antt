-- ===== src/Lock/Hmcs/Level/Tests.antt =====
-- A concrete run at a node below the root, and its theorems there.
use izem.Prelude.{ℕ, ◌≤◌, ◌≡◌, refl, true, false, arith}
use izem.Prelude.Family.{put}
use izem.Interleave.{State, Reach, start, later, pick, Any}
use izem.Lock.Fifo.{FifoStep}
use izem.Lock.Hmcs.Level.{
  node_of, Config, IsFit, Level, Pc, set_wait, clear_next, swap_lock, link_behind, start_cohort,
  set_held, Move, reuse_status, reuse_next, acquire_swap, first_start, acquire_link, acquire_up,
  release_count, release_next, release_store, acquire_spin, tap, count_in, init, abstract,
}
use izem.Lock.Hmcs.Level.Safety.{hnode_refines, hnode_cohort}

abbrev config : Config
config = record { root = false; threshold = 2 }

config-IsFit : IsFit config
config-IsFit = (omega arith, omega arith)

abbrev zeros : ℕ → ℕ
zeros _ = 0

record Run : Type 0 where
  last : State Level Pc
  reach : Reach (Move config) Any 2 (init zeros zeros) last

-- Number 0 is past its acquisition.
abbrev entered : Run
unfolding set_wait clear_next swap_lock start_cohort set_held
entered = record {
  last = _;
  reach =
      later
        (later
          (later
            (later (later (start tt) (pick 0 (omega arith) (reuse_status false)) tt)
              (pick 0 (omega arith) reuse_next) tt)
            (pick 0 (omega arith) acquire_swap) tt)
          (pick 0 (omega arith) first_start) tt)
        (pick 0 (omega arith) acquire_up) tt;
}

-- And number 1 spins behind it.
abbrev queued : Run
unfolding set_wait clear_next swap_lock start_cohort set_held link_behind
queued = record {
  last = _;
  reach =
      later
        (later
          (later (later entered.reach (pick 1 (omega arith) (reuse_status false)) tt)
            (pick 1 (omega arith) reuse_next) tt)
          (pick 1 (omega arith) acquire_swap) tt)
        (pick 1 (omega arith) acquire_link) tt;
}

-- Number 0 has handed the parent on, and number 1 is past its acquisition.
abbrev handed : Run
unfolding set_wait clear_next swap_lock start_cohort set_held link_behind tap count_in
handed = record {
  last = _;
  reach =
      later
        (later
          (later (later queued.reach (pick 0 (omega arith) (release_count refl)) tt)
            (pick 0 (omega arith) release_next) tt)
          (pick 0 (omega arith) release_store) tt)
        (pick 1 (omega arith) acquire_spin) tt;
}

hnode_cohort_example :
    (handed.last.mem.held ≡ true)
    × (handed.last.mem.status (node_of 1) ≡ handed.last.mem.cohort)
    × (1 ≤ handed.last.mem.cohort)
    × (handed.last.mem.cohort ≤ 2)
unfolding set_wait clear_next swap_lock start_cohort set_held link_behind tap count_in
hnode_cohort_example = hnode_cohort config-IsFit handed.reach refl 1 1 refl

hnode_refines_example :
    FifoStep 2
      (abstract queued.last)
      (abstract (record queued.last { pc = put queued.last.pc 0 (Pc.counted 0 1) }))
unfolding set_wait clear_next swap_lock start_cohort set_held link_behind
hnode_refines_example =
    hnode_refines config-IsFit queued.reach (pick 0 (omega arith) (release_count {k = 0} refl))
