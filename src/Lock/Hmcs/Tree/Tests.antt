-- ===== src/Lock/Hmcs/Tree/Tests.antt =====
-- Thread 0 is past its acquisition of child 0, and the theorems there.
use izem.Prelude.{ℕ, refl, true, false, ltb, arith}
use izem.Lock.Hmcs.Level.{
  set_wait, clear_next, swap_lock, start_cohort, set_held, reuse_status, reuse_next, acquire_swap,
  first_start, acquire_up,
}
use izem.Lock.Hmcs.Tree.{Tree, Shape, at_child, at_parent, TreeReach, start, later, new_tree}
use izem.Lock.Hmcs.Tree.Exclusion.{Fits}

-- Numbers 0 and 1 stand for children of the root.
abbrev shape : Shape
shape = record {
  top = record { root = true; threshold = 256 };
  below = λ _. record { root = false; threshold = 256 };
  is_child = λ c. ltb c 2;
}

shape-Fits : Fits shape
shape-Fits = record {
  top = (omega arith, omega arith);
  below = λ c. (omega arith, omega arith);
  not_root = λ c. refl;
}

abbrev zeros : ℕ → ℕ
zeros _ = 0

record Run : Type 0 where
  last : Tree
  reach : TreeReach shape 2 (new_tree zeros zeros) last

abbrev climbed : Run
unfolding set_wait clear_next swap_lock start_cohort set_held
climbed = record {
  last = _;
  reach =
      later
        (later
          (later
            (later start (at_child 0 0 refl (omega arith) (reuse_status false) (λ k. cc) (λ k. cc)))
            (at_child 0 0 refl (omega arith) reuse_next (λ k. cc) (λ k. cc)))
          (at_child 0 0 refl (omega arith) acquire_swap (λ k. cc) (λ k. cc)))
        (at_child 0 0 refl (omega arith) first_start (λ k. cc) (λ k. cc));
}

abbrev entered : Run
unfolding set_wait clear_next swap_lock start_cohort set_held
entered = record {
  last = _;
  reach =
      later
        (later
          (later (later climbed.reach (at_parent 0 (omega arith) (reuse_status false) (λ k e. cc)))
            (at_parent 0 (omega arith) reuse_next (λ k e. cc)))
          (at_parent 0 (omega arith) acquire_swap (λ k e. cc)))
        (at_child 0 0 refl (omega arith) acquire_up (λ k e. (0, refl)) (λ k. cc));
}
