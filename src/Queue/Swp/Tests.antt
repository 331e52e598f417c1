-- ===== src/Queue/Swp/Tests.antt =====
-- A concrete run of the swap queue, and its theorems there.
use izem.Prelude.{false, ℕ, ◌≤◌, ◌<◌, ◌≡◌, true, refl, arith}
use izem.Interleave.{State, Reach, start, later, pick, Any}
use izem.Queue.Swp.{
  Swp, Pc, allocate, fill, swap_tail, link, move_head, Move, enqueue_alloc, enqueue_fill,
  enqueue_swap, enqueue_link, dequeue_load, dequeue_test, dequeue_next, dequeue_move, dequeue_data,
  strong_head, strong_tail, strong_next, init,
}
use izem.Queue.Swp.Safety.{Answers, swp_fifo, swp_no_use_after_free, swp_isempty_strong}

abbrev zeros : ℕ → ℕ
zeros _ = 0

abbrev new : State Swp Pc
new = init 1 zeros zeros

record Run : Type 0 where
  last : State Swp Pc
  reach : Reach Move Any 2 new last

-- Thread 1 has swapped in node 2 with the data 7, and the consumer has read the head.
abbrev swapped : Run
unfolding allocate fill swap_tail
swapped = record {
  last = _;
  reach =
      later
        (later
          (later
            (later (start tt)
              (pick 1 (omega arith) (enqueue_alloc {p = 2} {d = 7} (omega arith) refl)) tt)
            (pick 1 (omega arith) (enqueue_fill {p = 2} {d = 7})) tt)
          (pick 1 (omega arith) (enqueue_swap {p = 2} {d = 7})) tt)
        (pick 0 (omega arith) (dequeue_load refl)) tt;
}

-- It links the node, and the consumer takes the data.
abbrev taken : Run
unfolding allocate fill swap_tail link move_head
taken = record {
  last = _;
  reach =
      later
        (later
          (later
            (later
              (later swapped.reach (pick 1 (omega arith) (enqueue_link {pred = 1} {p = 2} {k = 0}))
                tt)
              (pick 0 (omega arith) (dequeue_test {h = 1})) tt)
            (pick 0 (omega arith) (dequeue_next {h = 1})) tt)
          (pick 0 (omega arith) (dequeue_move {h = 1} {q = 2})) tt)
        (pick 0 (omega arith) (dequeue_data {h = 1} {q = 2})) tt;
}

swp_fifo_example : (7 ≡ taken.last.mem.given 1) × (0 < 1) × (1 ≤ taken.last.mem.entered)
unfolding allocate fill swap_tail link move_head
swp_fifo_example = swp_fifo zeros zeros (omega arith) taken.reach 0 1 7 refl

swp_no_use_after_free_example : swapped.last.mem.live 1 ≡ true
unfolding allocate fill swap_tail
swp_no_use_after_free_example =
    swp_no_use_after_free zeros zeros (omega arith) swapped.reach 1 1 refl

-- The consumer tests for emptiness while thread 1 swaps its node in, which is not linked yet.
abbrev tested : Run
unfolding allocate fill swap_tail
tested = record {
  last = _;
  reach =
      later
        (later
          (later
            (later
              (later
                (later (start tt)
                  (pick 1 (omega arith) (enqueue_alloc {p = 2} {d = 7} (omega arith) refl)) tt)
                (pick 1 (omega arith) (enqueue_fill {p = 2} {d = 7})) tt)
              (pick 0 (omega arith) (strong_head refl)) tt)
            (pick 1 (omega arith) (enqueue_swap {p = 2} {d = 7})) tt)
          (pick 0 (omega arith) strong_tail) tt)
        (pick 0 (omega arith) strong_next) tt;
}

swp_isempty_strong_example : Answers tested.last.mem false 1
unfolding allocate fill swap_tail
swp_isempty_strong_example =
    swp_isempty_strong zeros zeros (omega arith) tested.reach 0 false 1 refl
