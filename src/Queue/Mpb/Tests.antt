-- ===== src/Queue/Mpb/Tests.antt =====
-- Buckets as lists, a queue of eight of them, and the theorems there.
use izem.Prelude.{none, ℕ, ◌≡◌, ◌↔◌, refl, Bool, true, false, some, List, [], ◌∷◌, ◌++◌, arith}
use izem.Queue.Bucket.{Bucket}
use izem.Queue.Swp.Alone.Laws.{Quiet, swp_bucket}
use izem.Queue.Mpb.{Mpb, init, mpb_init, mpb_enqueue, mpb_dequeue, mpb_dequeue_range}
use izem.Queue.Mpb.Finds.{tries, mpb_dequeue_finds}
use izem.Queue.Mpb.Take.{Takes, mpb_dequeue-Takes}

abbrev is_nil : List ℕ → Bool
is_nil [] = true
is_nil (x ∷ xs) = false

abbrev pop : List ℕ → List ℕ × ℕ
pop [] = ([], 0)
pop (x ∷ xs) = (xs, x)

pop_view : (q : List ℕ) → is_nil q ≡ false → q ≡ (pop q).1 ∷ (pop q).0
pop_view [] e = ground arith
pop_view (x ∷ xs) e = refl

is_nil_iff : (q : List ℕ) → (is_nil q ≡ true) ↔ (q ≡ [])
is_nil_iff [] = (λ e. refl, λ e. refl)
is_nil_iff (x ∷ xs) = (λ e. ground arith, λ e. ground arith)

pop_empty : (q : List ℕ) → is_nil q ≡ true → pop q ≡ (q, 0)
pop_empty [] e = refl
pop_empty (x ∷ xs) e = ground arith

abbrev listed : Bucket (List ℕ)
listed = record {
  new = [];
  enqueue = λ d q. q ++ d ∷ [];
  dequeue = pop;
  isempty_weak = is_nil;
  isempty_strong = is_nil;
  view = λ q. q;
  view_new = refl;
  view_enqueue = λ d q. refl;
  view_dequeue = pop_view;
  weak_iff = is_nil_iff;
  strong_iff = is_nil_iff;
  dequeue_empty = pop_empty;
}

-- Two data in bucket 2, and one in bucket 5.
abbrev filled : Mpb (List ℕ)
unfolding init mpb_enqueue
filled =
    mpb_enqueue listed (mpb_enqueue listed (mpb_enqueue listed (init listed 8 0) 21 2) 51 5) 22 2

-- A number of buckets that is no multiple of 8 is refused, unless it is below 8.
run_init : (mpb_init listed 3 0 ≡ some (init listed 8 0)) × (mpb_init listed 9 0 ≡ none)
unfolding mpb_init
run_init = (refl, refl)

run_dequeue : (mpb_dequeue listed filled).1 ≡ some 21
unfolding init mpb_enqueue mpb_dequeue
run_dequeue = refl

run_range : (mpb_dequeue_range listed filled 1 8 2).1 ≡ 21 ∷ 51 ∷ []
unfolding init mpb_enqueue mpb_dequeue_range
run_range = refl

mpb_dequeue-Takes_example :
    Takes listed filled (mpb_dequeue listed filled).0 (mpb_dequeue listed filled).1
mpb_dequeue-Takes_example = mpb_dequeue-Takes listed filled

-- The same with buckets that are swap queues.
abbrev linked : Mpb Quiet
unfolding init mpb_enqueue
linked =
    mpb_enqueue swp_bucket
      (mpb_enqueue swp_bucket (mpb_enqueue swp_bucket (init swp_bucket 8 0) 21 2) 51 5) 22 2

linked-Takes :
    Takes swp_bucket linked (mpb_dequeue swp_bucket linked).0 (mpb_dequeue swp_bucket linked).1
linked-Takes = mpb_dequeue-Takes swp_bucket linked

unmarked_buckets : (c : ℕ) → filled.bucket_states c ≡ 0
unfolding init mpb_enqueue
unmarked_buckets c = refl

mpb_dequeue_finds_example : (d : ℕ) × (tries listed 2 filled ≡ some d)
unfolding init mpb_enqueue
mpb_dequeue_finds_example = mpb_dequeue_finds listed 5 2 filled (omega arith) refl (omega arith)
