-- ===== src/Queue/Ms/Tests.antt =====
-- Thread 0 puts in 9, and thread 1 takes it out.
use izem.Prelude.{ℕ, suc, ◌<◌, ◌≡◌, refl, true, arith}
use izem.Interleave.{State, Reach, start, later, pick, Any}
use izem.Queue.Ms.{
  Ms, Pc, allocate, fill, protect0, protect1, link, move_tail, move_head, Move, enqueue_alloc,
  enqueue_fill, enqueue_load, enqueue_hazard, enqueue_check, enqueue_next, enqueue_link,
  enqueue_swing, dequeue_call, dequeue_load, dequeue_hazard, dequeue_check, dequeue_tail,
  dequeue_next, dequeue_hazard_next, dequeue_test, dequeue_take, dequeue_data, init,
}
use izem.Queue.Ms.Safety.{ms_no_use_after_free, ms_fifo}

abbrev zeros : ℕ → ℕ
zeros _ = 0

record Run : Type 0 where
  last : State Ms Pc
  reach : Reach Move Any 2 (init 1 zeros zeros) last

-- Thread 1 has read the head and the tail of the empty queue.
abbrev looked : Run
unfolding protect0
looked = record {
  last = _;
  reach =
      later
        (later
          (later
            (later (later (start tt) (pick 1 (omega arith) dequeue_call) tt)
              (pick 1 (omega arith) dequeue_load) tt)
            (pick 1 (omega arith) dequeue_hazard) tt)
          (pick 1 (omega arith) dequeue_check) tt)
        (pick 1 (omega arith) dequeue_tail) tt;
}

-- Thread 0 has linked its node, and moved the tail.
abbrev filled : Run
unfolding allocate fill protect0 link move_tail
filled = record {
  last = _;
  reach =
      later
        (later
          (later
            (later
              (later
                (later
                  (later
                    (later (start tt)
                      (pick 0 (omega arith) (enqueue_alloc {p = 2} {d = 9} (omega arith) refl)) tt)
                    (pick 0 (omega arith) enqueue_fill) tt)
                  (pick 0 (omega arith) enqueue_load) tt)
                (pick 0 (omega arith) enqueue_hazard) tt)
              (pick 0 (omega arith) enqueue_check) tt)
            (pick 0 (omega arith) enqueue_next) tt)
          (pick 0 (omega arith) enqueue_link) tt)
        (pick 0 (omega arith) enqueue_swing) tt;
}

-- Thread 1 has taken the data, and is to retire the old head.
abbrev emptied : Run
unfolding allocate fill protect0 protect1 link move_tail move_head
emptied = record {
  last = _;
  reach =
      later
        (later
          (later
            (later
              (later
                (later
                  (later
                    (later
                      (later (later filled.reach (pick 1 (omega arith) dequeue_call) tt)
                        (pick 1 (omega arith) dequeue_load) tt)
                      (pick 1 (omega arith) dequeue_hazard) tt)
                    (pick 1 (omega arith) dequeue_check) tt)
                  (pick 1 (omega arith) dequeue_tail) tt)
                (pick 1 (omega arith) dequeue_next) tt)
              (pick 1 (omega arith) dequeue_hazard_next) tt)
            (pick 1 (omega arith) dequeue_test) tt)
          (pick 1 (omega arith) dequeue_take) tt)
        (pick 1 (omega arith) dequeue_data) tt;
}

ms_no_use_after_free_example : looked.last.mem.live 1 ≡ true
unfolding allocate fill protect0 protect1 link move_tail move_head
ms_no_use_after_free_example =
    ms_no_use_after_free 1 zeros zeros (omega arith) looked.reach 1 1 refl

ms_fifo_example : (9 ≡ emptied.last.mem.given (suc 0)) × (0 < emptied.last.mem.head_number)
unfolding allocate fill protect0 protect1 link move_tail move_head
ms_fifo_example = ms_fifo 1 zeros zeros (omega arith) emptied.reach 1 0 1 9 refl
