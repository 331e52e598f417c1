-- ===== src/Lock/Priority/Tests.antt =====
-- Concrete runs of the two-level priority locks, and their theorems there.
use izem.Prelude.{ℕ, ◌≡◌, refl, true, false, none, some, arith}
use izem.Interleave.{State, Reach, start, later, pick, Any}
use izem.Lock.Priority.{
  Priority, new, Pc, take_high, set_filter, set_straight, Move, acquire_high, acquire_test,
  acquire_filter, acquire_straight, init,
}
use izem.Lock.Priority.Invariant.{priority_exclusive, priority_release_class}

record Run : Type 0 where
  last : State Priority Pc
  reach : Reach Move Any 2 init last

-- Thread 0 is in the critical section, by the high class.
abbrev entered : Run
unfolding new take_high set_filter set_straight
entered = record {
  last = _;
  reach =
      later
        (later
          (later (later (start tt) (pick 0 (omega arith) (acquire_high refl)) tt)
            (pick 0 (omega arith) acquire_test) tt)
          (pick 0 (omega arith) (acquire_filter refl)) tt)
        (pick 0 (omega arith) acquire_straight) tt;
}

priority_exclusive_example : ◌≡◌ {A = ℕ} 0 0
unfolding new take_high set_filter set_straight
priority_exclusive_example = priority_exclusive entered.reach 0 0 refl refl

priority_release_class_example :
    (entered.last.mem.low_p_acq ≡ false) × (entered.last.mem.filter ≡ true)
unfolding new take_high set_filter set_straight
priority_release_class_example = priority_release_class entered.reach 0 refl

-- Thread 7 of the low class is in the critical section.
abbrev low_inside : Priority
low_inside = record {
  high_p = none;
  low_p = some 7;
  filter = true;
  go_straight = false;
  low_p_acq = true;
}

-- Thread 5 of the high class has yet to pass the filter.
abbrev high_outside : Priority
high_outside = record {
  high_p = some 5;
  low_p = none;
  filter = false;
  go_straight = false;
  low_p_acq = false;
}
