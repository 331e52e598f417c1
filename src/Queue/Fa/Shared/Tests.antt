-- ===== src/Queue/Fa/Shared/Tests.antt =====
-- Thread 1 has got the first cell, thread 2 has filled the second, and the consumer has found nothing;
-- then thread 1 fills its cell and the consumer takes the data; the theorems there.
use izem.Prelude.{ℕ, ◌≡◌, ◌≤◌, ◌<◌, refl, true, arith}
use izem.Interleave.{State, Reach, start, later, pick}
use izem.Queue.Fa.Shared.{
  FaMem, Pc, add_tail, store, add_head, Move, enqueue_add, enqueue_head, find_id, find_store,
  dequeue_load, dequeue_stay, dequeue_test, dequeue_data, dequeue_count, init, Unwrapped,
}
use izem.Queue.Fa.Shared.Safety.{fa_fifo, fa_assertions, fa_cells_live, asserted, accessible}

abbrev zeros : ℕ → ℕ
zeros _ = 0

abbrev cells : ℕ → ℕ → ℕ
cells _ _ = 0

record Run : Type 0 where
  last : State FaMem Pc
  reach : Reach Move Unwrapped 3 (init 5 zeros cells zeros) last

abbrev half_filled : Run
unfolding add_tail store
half_filled = record {
  last = _;
  reach =
      later
        (later
          (later
            (later
              (later
                (later
                  (later (start (omega arith)) (pick 1 (omega arith) (enqueue_add {d = 7}))
                    (omega arith))
                  (pick 2 (omega arith) (enqueue_add {d = 8})) (omega arith))
                (pick 2 (omega arith) enqueue_head) (omega arith))
              (pick 2 (omega arith) find_id) (omega arith))
            (pick 2 (omega arith) (find_store refl)) (omega arith))
          (pick 0 (omega arith) (dequeue_load refl)) (omega arith))
        (pick 0 (omega arith) (dequeue_stay refl)) (omega arith);
}

abbrev filling : Run
unfolding add_tail store
filling = record {
  last = _;
  reach =
      later (later half_filled.reach (pick 1 (omega arith) enqueue_head) (omega arith))
        (pick 1 (omega arith) find_id) (omega arith);
}

abbrev done : Run
unfolding add_tail store add_head
done = record {
  last = _;
  reach =
      later
        (later
          (later (later filling.reach (pick 1 (omega arith) (find_store refl)) (omega arith))
            (pick 0 (omega arith) dequeue_test) (omega arith))
          (pick 0 (omega arith) dequeue_data) (omega arith))
        (pick 0 (omega arith) dequeue_count) (omega arith);
}

fa_fifo_example : (◌≡◌ {A = ℕ} 7 7) × (0 < 1) × (1 ≤ 2)
unfolding add_tail store add_head
fa_fifo_example = fa_fifo zeros cells zeros (omega arith) done.reach 0 7 refl

fa_assertions_example : asserted filling.last.mem (filling.last.pc 1) ≡ true
unfolding add_tail store
fa_assertions_example = fa_assertions zeros cells zeros (omega arith) filling.reach 1

fa_cells_live_example : accessible filling.last.mem (filling.last.pc 1) ≡ true
unfolding add_tail store
fa_cells_live_example = fa_cells_live zeros cells zeros (omega arith) filling.reach 1
