-- ===== src/Queue/Ms/Safety.antt =====
-- What zm_msqueue.c guarantees in every reachable state.
use izem.Prelude.{ℕ, suc, ◌<◌, ◌≡◌, ◌≢◌, true, arith}
use izem.Interleave.{State, Reach, Any}
use izem.Queue.Ms.{Ptr, null, Ms, Pc, retiring, Move, init, touches}
use izem.Queue.Ms.Log.{num}
use izem.Queue.Ms.Keeps.{Reach-Inv}

module _ {n : ℕ} (p : Ptr) (value next : Ptr → Ptr) {s : State Ms Pc} (ne : p ≢ null)
    (run : Reach Move Any n (init p value next) s) where
  -- No thread is about to read or write a node that is not allocated, though retired nodes are freed
  -- and their addresses used again as soon as no hazard pointer holds them.
  pub ms_no_use_after_free : (i : ℕ) (a : Ptr) → touches (s.pc i) a ≡ true → s.mem.live a ≡ true
  ms_no_use_after_free i a e =
      let inv = Reach-Inv p value next ne run in
      ground (
        arith,
        inv.locals i,
        inv.ordered,
        inv.private_live i a,
        inv.stored (num (s.pc i)),
        inv.stored (suc (num (s.pc i))),
      )

  -- The dequeue that moves the head on from number `k` returns the data of the enqueue whose link
  -- was number `k + 1`: the data come out in the order of the links, with any number of threads.
  pub ms_fifo :
      (i k : ℕ) (h v : Ptr)
      → s.pc i ≡ retiring h v k
      → (v ≡ s.mem.given (suc k)) × (k < s.mem.head_number)
  ms_fifo i k h v e = ground (arith, (Reach-Inv p value next ne run).locals i)

  -- No two threads have moved the head on from the same number: no data come out twice.
  pub ms_once :
      (i j k : ℕ) (h v g w : Ptr) → s.pc i ≡ retiring h v k → s.pc j ≡ retiring g w k → i ≡ j
  ms_once i j k h v g w e f =
      (Reach-Inv p value next ne run).single i j k (ground arith) (ground arith)
