-- ===== src/Queue/Bucket.antt =====
-- What zm_mpbqueue.c relies on of its buckets, the queues of zm_swpqueue.c, while no producer is
-- in the middle of an enqueue.
use izem.Prelude.{ℕ, ◌≡◌, ◌↔◌, Bool, true, List, [], ◌∷◌, ◌++◌}

pub record Bucket (Q : Type 0) : Type 0 where
  pub new : Q
  pub enqueue : ℕ → Q → Q
  -- the queue after it, and `*data`
  pub dequeue : Q → Q × ℕ
  pub isempty_weak : Q → Bool
  pub isempty_strong : Q → Bool
  -- the data in the queue, the oldest first
  pub view : Q → List ℕ
  pub view_new : view new ≡ []
  pub view_enqueue : (d : ℕ) (q : Q) → view (enqueue d q) ≡ view q ++ d ∷ []
  pub view_dequeue :
      (q : Q) → isempty_weak q ≡ izem.Prelude.false → view q ≡ (dequeue q).1 ∷ view (dequeue q).0
  pub weak_iff : (q : Q) → (isempty_weak q ≡ true) ↔ (view q ≡ [])
  pub strong_iff : (q : Q) → (isempty_strong q ≡ true) ↔ (view q ≡ [])
  pub dequeue_empty : (q : Q) → isempty_weak q ≡ true → dequeue q ≡ (q, 0)
