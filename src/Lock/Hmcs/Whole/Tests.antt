-- ===== src/Lock/Hmcs/Whole/Tests.antt =====
-- Thread 3 owns the lock by the fast path, and thread 4 waits for it by way of node 1; the theorems
-- there.
use izem.Prelude.{ℕ, ◌≡◌, refl, true, false, ltb, ◌==◌, if◌then◌else◌, arith}
use izem.Lock.Hmcs.Level.{
  set_wait, clear_next, swap_lock, link_behind, start_cohort, reuse_status, reuse_next,
  acquire_swap, acquire_link, first_start,
}
use izem.Lock.Hmcs.Whole.{
  Plan, Hmcs, by_acquire, by_node, test_leaf, test_root, begin, move, enter, HmcsReach, start,
  later, new_hmcs, nowaiters,
}
use izem.Lock.Hmcs.Whole.Invariant.{IsTree}
use izem.Lock.Hmcs.Whole.Safety.{Waited, hmcs_lock_exclusive, hmcs_nowaiters-false}

-- Node 0 is the root, nodes 1 and 2 are below it, and all other numbers are threads of node 1.
abbrev plan : Plan
plan = record {
  config = λ p. record { root = p == 0; threshold = 256 };
  parent = λ _. 0;
  is_node = λ a. ltb a 3;
  root = 0;
  leaf = λ _. 1;
}

abbrev depth : ℕ → ℕ
depth p = if p == 0 then 0 else 1

plan-IsTree : IsTree plan depth
plan-IsTree = record {
  fit = λ p. (omega arith, omega arith);
  root_node = refl;
  root_depth = refl;
  not_root = λ c is ne. ground arith;
  deeper = λ c is ne. ground arith;
  parent_node = λ c is ne. refl;
  leaf_node = λ t is. refl;
  leaf_depth = λ t u is is'. refl;
}

abbrev zeros : ℕ → ℕ
zeros _ = 0

record Run : Type 0 where
  last : Hmcs
  reach : HmcsReach plan 9 (new_hmcs zeros zeros) last

abbrev owned : Run
unfolding set_wait clear_next swap_lock
owned = record {
  last = _;
  reach =
      later
        (later
          (later
            (later (later (later start (test_leaf 3 false refl refl)) (test_root 3 false refl refl))
              (begin 3 false true (omega arith) refl refl refl))
            (move 0 3 (omega arith) (by_acquire false true refl refl refl refl refl) reuse_next
              (λ k. cc) (λ k. cc)))
          (move 0 3 (omega arith) (by_acquire false true refl refl refl refl refl) acquire_swap
            (λ k. cc) (λ k. cc)))
        (enter 3 false true 0 refl refl refl);
}

abbrev climbed : Run
unfolding set_wait clear_next swap_lock start_cohort
climbed = record {
  last = _;
  reach =
      later
        (later
          (later
            (later
              (later (later owned.reach (test_leaf 4 false refl refl))
                (test_root 4 false refl refl))
              (begin 4 false false (omega arith) refl refl refl))
            (move 1 4 (omega arith) (by_acquire false false refl refl refl refl refl) reuse_next
              (λ k. cc) (λ k. cc)))
          (move 1 4 (omega arith) (by_acquire false false refl refl refl refl refl) acquire_swap
            (λ k. cc) (λ k. cc)))
        (move 1 4 (omega arith) (by_acquire false false refl refl refl refl refl)
          (first_start {k = 0}) (λ k. cc) (λ k. cc));
}

abbrev waiting : Run
unfolding set_wait clear_next swap_lock start_cohort link_behind
waiting = record {
  last = _;
  reach =
      later
        (later
          (later
            (later climbed.reach (
              move 0 1 (omega arith) (by_node refl refl (λ e. (4, 0, refl)) (λ e. cc))
                (reuse_status false) (λ k. cc) (λ k. cc)))
            (move 0 1 (omega arith) (by_node refl refl (λ e. cc) (λ e. cc)) reuse_next (λ k. cc)
              (λ k. cc)))
          (move 0 1 (omega arith) (by_node refl refl (λ e. cc) (λ e. cc)) acquire_swap (λ k. cc)
            (λ k. cc)))
        (move 0 1 (omega arith) (by_node refl refl (λ e. cc) (λ e. cc))
          (acquire_link {pred = 4} {k = 1}) (λ k. cc) (λ k. cc));
}

hmcs_lock_exclusive_example : ◌≡◌ {A = ℕ} 3 3
unfolding set_wait clear_next swap_lock start_cohort link_behind
hmcs_lock_exclusive_example = hmcs_lock_exclusive plan-IsTree waiting.reach 3 3 refl refl refl refl

hmcs_nowaiters-false_example : Waited waiting.last
unfolding set_wait clear_next swap_lock start_cohort link_behind nowaiters
hmcs_nowaiters-false_example =
    hmcs_nowaiters-false plan-IsTree waiting.reach 2 3 refl refl refl refl
