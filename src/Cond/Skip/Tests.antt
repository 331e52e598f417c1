-- ===== src/Cond/Skip/Tests.antt =====
-- A queue of four nodes with two skipped, and the theorem there.
use izem.Prelude.{ℕ, refl, [], ◌∷◌, arith}
use izem.Prelude.Family.{put}
use izem.Cond.Skip.{null, Wskip, wake, enq}
use izem.Cond.Skip.Wake.{Woken, wake-Woken}
use izem.Cond.Skip.Enqueue.{Enqueued, enq-Enqueued}

abbrev zeros : ℕ → ℕ
zeros _ = 0

-- Node 1 has its turn, 2 and 3 are skipped, and 4 waits.
abbrev queue : Wskip
queue = record {
  lock = 4;
  status = put (put (put (put zeros 1 1) 2 2) 3 2) 4 0;
  next = put (put (put zeros 1 2) 2 3) 3 4;
}

wake-Woken_example : Woken queue 1 (2 ∷ 3 ∷ []) 4 (wake 4 1 queue)
wake-Woken_example =
    wake-Woken 4 queue 1 4 (2 ∷ 3 ∷ []) refl (omega arith)
      (refl, omega arith, (refl, omega arith, refl)) (omega arith, refl, (omega arith, refl, tt))
      (λ ne. refl) (λ e. ground (arith, e)) refl refl (omega arith)

-- Node 2 waits behind node 1, and node 3 is recycled.
abbrev short : Wskip
short = record {
  lock = 2;
  status = put (put (put zeros 1 1) 2 0) 3 3;
  next = put (put zeros 1 2) 2 null;
}

enq-Enqueued_example : Enqueued short 1 (2 ∷ []) 3 (enq 3 short)
enq-Enqueued_example =
    enq-Enqueued short 1 3 (2 ∷ []) refl (omega arith) (refl, omega arith, refl) (refl, (refl, tt))
      (omega arith) refl refl
