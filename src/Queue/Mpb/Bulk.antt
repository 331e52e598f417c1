-- ===== src/Queue/Mpb/Bulk.antt =====
-- What `zm_mpbqueue_dequeue_bulk` sees of the buckets.
use izem.Prelude.{ℕ, zero, suc, ◌+◌, ◌*◌, ◌/◌, ◌%◌, ◌≡◌, refl, ap, ◌∙◌, false, [], arith}
use izem.Queue.Bucket.{Bucket}
use izem.Queue.Mpb.{Mpb, set_size, word_at, set_marked, bulk_round, bulk_loop, mpb_dequeue_bulk}

word_at-zero : (n : ℕ) (bytes : ℕ → ℕ) (b : ℕ) → ((c : ℕ) → bytes c ≡ 0) → word_at n bytes b ≡ 0
unfolding word_at
word_at-zero zero bytes b z = refl
word_at-zero (suc n) bytes b z = omega (arith, z b, word_at-zero n bytes (suc b) z)

unmarked : (bytes : ℕ → ℕ) (offset : ℕ) → ((c : ℕ) → bytes c ≡ 0) → set_marked bytes offset ≡ false
unfolding set_marked
unmarked bytes offset z = rw (word_at-zero set_size bytes (offset * set_size) z) refl

module _ {Q : Type 0} (bucket : Bucket Q) where
  blind_round :
      (q : Mpb Q) (offset in_count out : ℕ)
      → ((c : ℕ) → q.bucket_states c ≡ 0)
      → bulk_round bucket q offset in_count out ≡ (q, [], false)
  unfolding bulk_round
  blind_round q offset in_count out z = rw (unmarked q.bucket_states offset z) refl

  blind_loop :
      (n : ℕ) (q : Mpb Q) (i in_count out : ℕ)
      → ((c : ℕ) → q.bucket_states c ≡ 0)
      → bulk_loop bucket n q i in_count out ≡ (q, [], i + n)
  unfolding bulk_loop
  blind_loop zero q i in_count out z = ap (λ k. (q, [], k)) (omega arith)
  blind_loop (suc n) q i in_count out z =
      let offset = (q.last_bucket_set + i) % (q.nbuckets / set_size) in
      let e : suc i + n ≡ i + suc n = omega arith in
      rw (blind_round q offset in_count out z)
        (blind_loop n q (suc i) in_count (out + 0) z ∙ ap (λ k. (q, [], k)) e)

  -- `zm_mpbqueue_dequeue_bulk`, where no bucket is marked, puts out nothing, whatever the buckets
  -- hold, and yet counts one.
  pub mpb_dequeue_bulk-blind :
      (q : Mpb Q) (in_count : ℕ)
      → ((c : ℕ) → q.bucket_states c ≡ 0)
      → ((mpb_dequeue_bulk bucket q in_count).1 ≡ []) × ((mpb_dequeue_bulk bucket q in_count).2 ≡ 1)
  unfolding mpb_dequeue_bulk
  mpb_dequeue_bulk-blind q in_count z =
      rw (blind_loop (q.nbuckets / set_size) q 0 in_count 0 z) (refl, refl)
