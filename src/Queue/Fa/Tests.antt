-- ===== src/Queue/Fa/Tests.antt =====
-- Two data put in and one taken out, and the theorems there.
use izem.Prelude.{◌+◌, ◌^◌, ◌<◌, ◌≡◌, refl, some, [], ◌∷◌, arith}
use izem.Queue.Fa.{FaQueue, faqueue_init, faqueue_enqueue, faqueue_dequeue}
use izem.Queue.Fa.Cells.{Holds, faqueue_init-Holds, faqueue_enqueue-append}

abbrev one : FaQueue
one = faqueue_enqueue faqueue_init 7

first_small : faqueue_init.tail + 1 < 2 ^ 64
unfolding faqueue_init
first_small = omega arith

second_small : one.tail + 1 < 2 ^ 64
unfolding faqueue_init faqueue_enqueue
second_small = omega arith

one-Holds : Holds one (7 ∷ [])
one-Holds = faqueue_enqueue-append faqueue_init [] 7 faqueue_init-Holds (omega arith) first_small

run_dequeue : (faqueue_dequeue one).1 ≡ some 7
unfolding faqueue_init faqueue_enqueue faqueue_dequeue
run_dequeue = refl
