-- ===== src/Queue/Mpb/Finds.antt =====
-- How long `zm_mpbqueue_dequeue` can miss data that are in the buckets.
use izem.Prelude.{
  ℕ, zero, suc, ◌+◌, ◌-◌, ◌*◌, ◌/◌, ◌%◌, ◌≤◌, ◌<◌, ◌≡◌, refl, sym, ap, ◌∙◌, inl, inr, false, Option,
  none, some, arith, leb, Bool-cases, Option-cases, ℕ_discrete,
}
use mathlib.Core.Path.{subst}
use native.Mathlib.Nat.{mod-lt, mod-add-mod, mod-eq_of_lt, add-mod_right}
use izem.Queue.Bucket.{Bucket}
use izem.Queue.Mpb.Rounds.{Still, round_other, round_here}
use izem.Queue.Mpb.{Mpb, set_size, round, take_loop, mpb_dequeue}

-- Every set comes up among as many rounds as there are sets.
comes_up : (last sets off : ℕ) → off < sets → (j : ℕ) × (j < sets) × ((last + j) % sets ≡ off)
comes_up last sets off lt =
    let r = last % sets in
    let small = mod-lt last {m = sets} (omega (arith, lt)) in
    elim (Bool-cases (leb r off)) [
      | inl le ↦
          let is : r + (off - r) ≡ off = ground arith in
          (
            off - r,
            omega (arith, lt),
            sym (mod-add-mod last sets (off - r)) ∙ ap (λ x. x % sets) is ∙ mod-eq_of_lt lt,
          )
      | inr gt ↦
          let j = off + sets - r in
          let is : r + j ≡ off + sets = omega (arith, small) in
          (
            j,
            ground (arith, small),
            sym (mod-add-mod last sets j)
                ∙ ap (λ x. x % sets) is
                ∙ add-mod_right off sets
                ∙ mod-eq_of_lt lt,
          )
    ]

-- One of the rounds to come uses up one more, where this one or a later one does.
use_up :
    (last sets last' sets' i n c0 c1 c2 off : ℕ)
    → last' ≡ last
    → sets' ≡ sets
    → c2 ≤ c1
    → c1 ≤ c0
    → ((last + i) % sets ≡ off → c1 < c0)
    → ((j : ℕ) → j < n → (last' + (suc i + j)) % sets' ≡ off → c2 < c1)
    → (j : ℕ) → j < suc n
    → (last + (i + j)) % sets ≡ off
    → c2 < c0
use_up last sets last' sets' i n c0 c1 c2 off el es le le' now later zero lt at =
    let h : i ≡ i + 0 = omega arith in
    let u = now (ap (λ x. (last + x) % sets) h ∙ at) in omega (arith, u, le)
use_up last sets last' sets' i n c0 c1 c2 off el es le le' now later (suc j) lt at =
    let h : suc i + j ≡ i + suc j = omega arith in
    let u = later j (omega (arith, lt)) (
      ap (λ x. (last' + x) % sets') h
      ∙ ap (λ x. (x + (i + suc j)) % sets') el
      ∙ ap (λ x. (last + (i + suc j)) % x) es
      ∙ at) in
    omega (arith, u, le')

module _ {Q : Type 0} (bucket : Bucket Q) where
  open bucket use {isempty_weak}

  -- The data of the first of `n` dequeues that finds some.
  pub tries : ℕ → Mpb Q → Option ℕ
  tries zero q = none
  tries (suc n) q =
      let rest = tries n (mpb_dequeue bucket q).0 in
      elim (mpb_dequeue bucket q).1 [ none ↦ rest | some d ↦ some d ]

  -- How many dequeues can still miss the set at `off`.
  abbrev pub credit : ℕ → Mpb Q → ℕ
  credit off q = q.backoff_bounds off - q.backoff_counters off

  -- One round that finds nothing.
  round-credit :
      (off b here : ℕ) (q : Mpb Q)
      → off * set_size ≤ b
      → b < off * set_size + set_size
      → isempty_weak (q.buckets b) ≡ false
      → (round bucket q here).1 ≡ none
      → Still bucket off q (round bucket q here).0
        × (credit off (round bucket q here).0 ≤ credit off q)
        × (here ≡ off → credit off (round bucket q here).0 < credit off q)
  round-credit off b here q le lt e missed = elim (ℕ_discrete off here) [
    | yes same ↦
        subst
          (λ x.
            (round bucket q x).1 ≡ none
            → Still bucket off q (round bucket q x).0
              × (credit off (round bucket q x).0 ≤ credit off q)
              × (x ≡ off → credit off (round bucket q x).0 < credit off q))
          same
          (λ z.
            let (still, k, under) = round_here bucket off b q le lt e z in
            let (a, n, l, d) = still in
            (still, omega (arith, d, k), λ _. omega (arith, d, k, under)))
          missed
    | no ne ↦
        let ((a, n, l, d), k) = round_other bucket off here q ne missed in
        ((a, n, l, d), omega (arith, d, k), λ same. absurd (ne (sym same)))
  ]

  -- The loop over the sets, when it finds nothing: it has used up one of them if it came by `off`.
  take_loop-credit :
      (off b n : ℕ) (q : Mpb Q) (i : ℕ)
      → off * set_size ≤ b
      → b < off * set_size + set_size
      → isempty_weak (q.buckets b) ≡ false
      → (take_loop bucket n q i).1 ≡ none
      → Still bucket off q (take_loop bucket n q i).0
        × (credit off (take_loop bucket n q i).0 ≤ credit off q)
        × ((j : ℕ)
            → j < n
            → (q.last_bucket_set + (i + j)) % (q.nbuckets / set_size) ≡ off
            → credit off (take_loop bucket n q i).0 < credit off q)
  unfolding take_loop
  take_loop-credit off b zero q i le lt e =
      λ z. ((refl, refl, refl, refl), omega arith, λ j j_lt. absurd (omega arith))
  take_loop-credit off b (suc n) q i le lt e =
      let here = (q.last_bucket_set + i) % (q.nbuckets / set_size) in
      let q' = (round bucket q here).0 in
      elim (Option-cases (round bucket q here).1) [
        | inr (d, found) ↦ rw (take_loop, found) (λ z. cc)
        | inl missed ↦
            rw (take_loop, missed)
              (λ z.
                let ((a, s, l, d), down, used) = round-credit off b here q le lt e missed in
                let still = ap (λ f. isempty_weak (f b)) a ∙ e in
                let ((a', s', l', d'), down', used') =
                  take_loop-credit off b n q' (suc i) le lt still z in
                (
                  (a' ∙ a, s' ∙ s, l' ∙ l, d' ∙ d),
                  omega (arith, down, down'),
                  use_up q.last_bucket_set (q.nbuckets / set_size) q'.last_bucket_set
                      (q'.nbuckets / set_size) i n (credit off q) (credit off q')
                      (credit off (take_loop bucket n q' (suc i)).0) off l
                      (ap (λ x. x / set_size) s) down' down used used',
                ))
      ]

  -- A dequeue that finds nothing, though a bucket of the set at `off` has data, uses up one more of the
  -- dequeues that can miss the set.
  dequeue_credit :
      (off b : ℕ) (q : Mpb Q)
      → off < q.nbuckets / set_size
      → off * set_size ≤ b
      → b < off * set_size + set_size
      → isempty_weak (q.buckets b) ≡ false
      → (mpb_dequeue bucket q).1 ≡ none
      → ((mpb_dequeue bucket q).0.buckets ≡ q.buckets)
        × ((mpb_dequeue bucket q).0.nbuckets ≡ q.nbuckets)
        × (credit off (mpb_dequeue bucket q).0 < credit off q)
  unfolding mpb_dequeue
  dequeue_credit off b q in_ le lt e z =
      let sets = q.nbuckets / set_size in
      let ((a, s, l, d), down, used) = take_loop-credit off b sets q 0 le lt e z in
      let (j, j_lt, at) = comes_up q.last_bucket_set sets off in_ in
      let h : 0 + j ≡ j = omega arith in
      (a, s, used j j_lt (ap (λ x. (q.last_bucket_set + x) % sets) h ∙ at))

  tries-credit :
      (off b n : ℕ) (q : Mpb Q)
      → off < q.nbuckets / set_size
      → off * set_size ≤ b
      → b < off * set_size + set_size
      → isempty_weak (q.buckets b) ≡ false
      → credit off q < n
      → (d : ℕ) × (tries n q ≡ some d)
  unfolding tries
  tries-credit off b zero q in_ le lt e enough = absurd (omega (arith, enough))
  tries-credit off b (suc n) q in_ le lt e enough = elim (Option-cases (mpb_dequeue bucket q).1) [
    | inr (d, found) ↦ rw (tries, found) (d, refl)
    | inl missed ↦
        let (a, s, used) = dequeue_credit off b q in_ le lt e missed in
        rw (tries, missed)
          (tries-credit off b n (mpb_dequeue bucket q).0
            (subst (λ x. off < x / set_size) (sym s) in_) le lt (ap (λ f. isempty_weak (f b)) a ∙ e)
            (omega (arith, used, enough)))
  ]

  -- As long as nothing is put in or taken out otherwise, data in a bucket of the queue are not missed
  -- for ever: where some bucket is not empty, one of the next `n` dequeues finds data, if `n` is above
  -- the backoff bound of its set.
  pub mpb_dequeue_finds :
      (b n : ℕ) (q : Mpb Q)
      → b / set_size < q.nbuckets / set_size
      → isempty_weak (q.buckets b) ≡ false
      → q.backoff_bounds (b / set_size) < n
      → (d : ℕ) × (tries n q ≡ some d)
  mpb_dequeue_finds b n q in_ e enough =
      tries-credit (b / set_size) b n q in_ (omega arith) (omega arith) e (omega (arith, enough))
