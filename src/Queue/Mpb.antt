-- ===== src/Queue/Mpb.antt =====
-- src/queue/zm_mpbqueue.c: a queue of many buckets, with a state byte for each, read eight at a time
-- as a `long long`, and a backoff for the search of a set of eight that looks empty. No producer
-- moves during an operation here. Indices are in range, and counters do not overflow.
pub mod Take
pub mod Bulk
pub mod Rounds
pub mod Finds
mod Tests
use izem.Prelude.{
  ℕ, zero, suc, ◌+◌, ◌-◌, ◌*◌, ◌/◌, ◌%◌, ◌^◌, Bool, true, false, not, ◌&&◌, Option, none, some,
  List, [], ◌∷◌, ◌++◌, ◌==◌, ltb, leb, length, if◌then◌else◌,
}
use izem.Prelude.Family.{put}
use izem.Queue.Bucket.{Bucket}

-- `sizeof(long long)`: the number of buckets in a set
abbrev pub set_size : ℕ
set_size = 8

abbrev pub max_backoff : ℕ
max_backoff = 1024

-- `struct zm_mpbqueue`; the tables are families by index
pub record Mpb (Q : Type 0) : Type 0 where
  pub buckets : ℕ → Q
  pub nbuckets : ℕ
  pub bucket_states : ℕ → ℕ
  pub backoff_counters : ℕ → ℕ
  pub backoff_bounds : ℕ → ℕ
  pub last_bucket_set : ℕ

-- The bytes from `b` on as one little-endian word.
pub word_at : ℕ → (ℕ → ℕ) → ℕ → ℕ
word_at zero bytes b = 0
word_at (suc n) bytes b = bytes b + 256 * word_at n bytes (suc b)

-- `LOAD(&bucket_state_sets[offset]) > EMPTY_BUCKET`, as a signed 64-bit number
pub set_marked : (ℕ → ℕ) → ℕ → Bool
unfolding word_at
set_marked states offset =
    let w = word_at set_size states (offset * set_size) in ltb 0 w && ltb w (2 ^ 63)

module _ {Q : Type 0} (bucket : Bucket Q) where
  open bucket use {new, enqueue, dequeue, isempty_weak, isempty_strong}

  -- The first of the buckets `b`, …, `b + n - 1` that is not empty.
  pub first_nonempty : ℕ → (ℕ → Q) → ℕ → Option ℕ
  first_nonempty zero buckets b = none
  first_nonempty (suc n) buckets b =
      let rest = first_nonempty n buckets (suc b) in
      if isempty_weak (buckets b) then rest else some b

  -- The search of `get_set_state`, once the backoff is over.
  pub search_set : Mpb Q → ℕ → Mpb Q × Bool
  unfolding first_nonempty
  search_set q offset = elim (first_nonempty set_size q.buckets (offset * set_size)) [
    | some b ↦ (record q { bucket_states = put q.bucket_states b 1 }, true)
    | none ↦ (
      record q {
        backoff_counters = put q.backoff_counters offset 0;
        backoff_bounds =
            if ltb (q.backoff_bounds offset) max_backoff
            then put q.backoff_bounds offset (q.backoff_bounds offset * 2)
            else q.backoff_bounds;
      },
      false,
    )
  ]

  -- `get_set_state`: the queue after it, and whether the answer is `NONEMPTY_BUCKET`.
  pub get_set_state : Mpb Q → ℕ → Mpb Q × Bool
  unfolding search_set set_marked
  get_set_state q offset =
      if set_marked q.bucket_states offset
      then (q, true)
      else (let counter = suc (q.backoff_counters offset) in
          let q' = record q { backoff_counters = put q.backoff_counters offset counter } in
          if leb (q.backoff_bounds offset) counter then search_set q' offset else (q', false))

  -- What `zm_mpbqueue_init` makes of a number of buckets that it accepts; the code does not set
  -- `last_bucket_set`, which is `last` here.
  pub init : (nbuckets last : ℕ) → Mpb Q
  init nbuckets last = record {
    buckets = λ _. new;
    nbuckets = nbuckets;
    bucket_states = λ _. 0;
    backoff_counters = λ _. 0;
    backoff_bounds = λ _. 1;
    last_bucket_set = last;
  }

  -- `zm_mpbqueue_init`: `none` where its assertion fails.
  pub mpb_init : (nbuckets last : ℕ) → Option (Mpb Q)
  unfolding init
  mpb_init nbuckets last =
      let adjusted = if ltb nbuckets set_size then set_size else nbuckets in
      if adjusted % set_size == 0 then some (init adjusted last) else none

  pub mpb_enqueue : Mpb Q → ℕ → ℕ → Mpb Q
  mpb_enqueue q d b = record q { buckets = put q.buckets b (enqueue d (q.buckets b)) }

  -- The inner loop of `zm_mpbqueue_dequeue`: the data, or `none` if all `n` buckets are empty.
  pub take_from : ℕ → Mpb Q → ℕ → Mpb Q × Option ℕ
  take_from zero q b = (q, none)
  take_from (suc n) q b =
      let cleared = take_from n (record q { bucket_states = put q.bucket_states b 0 }) (suc b) in
      if isempty_weak (q.buckets b) then cleared else (
        record q { buckets = put q.buckets b (dequeue (q.buckets b)).0 },
        some (dequeue (q.buckets b)).1,
      )

  -- One round of the outer loop.
  pub round : Mpb Q → ℕ → Mpb Q × Option ℕ
  unfolding get_set_state take_from
  round q offset =
      let (q', nonempty) = get_set_state q offset in
      if nonempty then take_from set_size q' (offset * set_size) else (q', none)

  -- The outer loop, from `i` on with `n` rounds left: the queue, the data and the last `i`.
  pub take_loop : ℕ → Mpb Q → ℕ → Mpb Q × Option ℕ × ℕ
  unfolding round
  take_loop zero q i = (q, none, i)
  take_loop (suc n) q i =
      let (q', found) = round q ((q.last_bucket_set + i) % (q.nbuckets / set_size)) in
      let rest = take_loop n q' (suc i) in elim found [ none ↦ rest | some d ↦ (q', some d, i) ]

  -- `zm_mpbqueue_dequeue`: `none` stands for `*data == NULL` with nothing dequeued.
  pub mpb_dequeue : Mpb Q → Mpb Q × Option ℕ
  unfolding take_loop
  mpb_dequeue q =
      let sets = q.nbuckets / set_size in
      let (q', found, i) = take_loop sets q 0 in
      (record q' { last_bucket_set = (q'.last_bucket_set + i) % sets }, found)

  -- `zm_mpbqueue_dequeue_range`, from bucket `b` on with `n` buckets left: the queue, and what is
  -- put into `data` from place `count` on.
  pub range_loop : ℕ → Mpb Q → ℕ → (in_count count : ℕ) → Mpb Q × List ℕ
  range_loop zero q b in_count count = (q, [])
  range_loop (suc n) q b in_count count =
      let skip = range_loop n q (suc b) in_count count in
      let q' = record q { buckets = put q.buckets b (dequeue (q.buckets b)).0 } in
      let d = (dequeue (q.buckets b)).1 in
      let more = range_loop n q' (suc b) in_count (suc count) in
      if isempty_weak (q.buckets b)
      then skip
      else (if leb in_count (suc count) then (q', d ∷ []) else (more.0, d ∷ more.1))

  pub mpb_dequeue_range : Mpb Q → (start stop in_count : ℕ) → Mpb Q × List ℕ
  unfolding range_loop
  mpb_dequeue_range q start stop in_count = range_loop (stop - start) q start in_count 0

  -- The inner loop of `zm_mpbqueue_dequeue_bulk`, from bucket `b` on with `n` buckets left, `out`
  -- data put out before: the queue, the data put out, and whether it ended by `break`.
  pub bulk_set : ℕ → Mpb Q → ℕ → (in_count out : ℕ) → Mpb Q × List ℕ × Bool
  bulk_set zero q b in_count out = (q, [], false)
  bulk_set (suc n) q b in_count out =
      let (u, d) = dequeue (q.buckets b) in
      let q' = record q {
        buckets = put q.buckets b u;
        bucket_states =
            if isempty_weak u && isempty_strong u then put q.bucket_states b 0 else q.bucket_states;
      } in
      let (q'', ds, broke) = bulk_set n q' (suc b) in_count (suc out) in
      let skip = bulk_set n q (suc b) in_count out in
      if q.bucket_states b == 1
      then (if leb (in_count - 1) (suc out) then (q', d ∷ [], true) else (q'', d ∷ ds, broke))
      else skip

  -- One round of the outer loop.
  pub bulk_round : Mpb Q → (offset in_count out : ℕ) → Mpb Q × List ℕ × Bool
  unfolding bulk_set set_marked
  bulk_round q offset in_count out =
      if set_marked q.bucket_states offset
      then bulk_set set_size q (offset * set_size) in_count out
      else (q, [], false)

  -- The outer loop, from `i` on with `n` rounds left: the queue, the data and the last `i`.
  pub bulk_loop : ℕ → Mpb Q → ℕ → (in_count out : ℕ) → Mpb Q × List ℕ × ℕ
  unfolding bulk_round
  bulk_loop zero q i in_count out = (q, [], i)
  bulk_loop (suc n) q i in_count out =
      let (q', ds, broke) =
        bulk_round q ((q.last_bucket_set + i) % (q.nbuckets / set_size)) in_count out in
      let (q'', es, last) = bulk_loop n q' (suc i) in_count (out + length ds) in
      if broke then (q', ds, i) else (q'', ds ++ es, last)

  -- `zm_mpbqueue_dequeue_bulk`: the queue, the data put out and `*out_count`.
  pub mpb_dequeue_bulk : Mpb Q → (in_count : ℕ) → Mpb Q × List ℕ × ℕ
  unfolding bulk_loop
  mpb_dequeue_bulk q in_count =
      let sets = q.nbuckets / set_size in
      let (q', ds, i) = bulk_loop sets q 0 in_count 0 in
      (record q' { last_bucket_set = (q'.last_bucket_set + i) % sets }, ds, length ds + 1)
