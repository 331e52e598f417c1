-- ===== src/Queue/Mpb/Rounds.antt =====
-- What one round of `zm_mpbqueue_dequeue` that finds nothing leaves as it was.
use izem.Prelude.{
  ℕ, zero, suc, ◌+◌, ◌*◌, ◌≤◌, ◌<◌, ◌≡◌, ◌≢◌, ◌⊎◌, refl, ap, ◌∙◌, inl, inr, true, false, none, some,
  arith, leb, Bool-cases,
}
use izem.Prelude.Family.{put}
use izem.Queue.Bucket.{Bucket}
use izem.Queue.Mpb.Take.{get_set_state-buckets}
use izem.Queue.Mpb.{
  Mpb, set_size, set_marked, first_nonempty, search_set, get_set_state, take_from, round,
}

module _ {Q : Type 0} (bucket : Bucket Q) where
  open bucket use {isempty_weak}

  first_nonempty-some :
      (n : ℕ) (buckets : ℕ → Q) (b c : ℕ)
      → b ≤ c
      → c < b + n
      → isempty_weak (buckets c) ≡ false
      → (x : ℕ) × (first_nonempty bucket n buckets b ≡ some x)
  unfolding first_nonempty
  first_nonempty-some zero buckets b c le lt e = absurd (omega (arith, le, lt))
  first_nonempty-some (suc n) buckets b c le lt e = elim (Bool-cases (isempty_weak (buckets b))) [
    | inl w ↦
        let ne : b ≢ c =
          λ same. (let z = ap (λ x. isempty_weak (buckets x)) same in cc (z, e, w)) in
        rw w (first_nonempty-some n buckets (suc b) c (omega (arith, le, ne)) (omega (arith, lt)) e)
    | inr w ↦ rw w (b, refl)
  ]

  take_from-some :
      (n : ℕ) (q : Mpb Q) (b c : ℕ)
      → b ≤ c
      → c < b + n
      → isempty_weak (q.buckets c) ≡ false
      → (x : ℕ) × ((take_from bucket n q b).1 ≡ some x)
  unfolding take_from
  take_from-some zero q b c le lt e = absurd (omega (arith, le, lt))
  take_from-some (suc n) q b c le lt e = elim (Bool-cases (isempty_weak (q.buckets b))) [
    | inl w ↦
        let ne : b ≢ c =
          λ same. (let z = ap (λ x. isempty_weak (q.buckets x)) same in cc (z, e, w)) in
        rw w (
          take_from-some n (record q { bucket_states = put q.bucket_states b 0 }) (suc b) c
            (omega (arith, le, ne)) (omega (arith, lt)) e)
    | inr w ↦ rw w (_, refl)
  ]

  -- The fields that a dequeue reads again later, for the set at `off`.
  abbrev pub Still : ℕ → Mpb Q → Mpb Q → Type 0
  Still off q q' =
      (q'.buckets ≡ q.buckets)
      × (q'.nbuckets ≡ q.nbuckets)
      × (q'.last_bucket_set ≡ q.last_bucket_set)
      × (q'.backoff_bounds off ≡ q.backoff_bounds off)

  take_from-Still :
      (off n : ℕ) (q : Mpb Q) (b : ℕ)
      → (take_from bucket n q b).1 ≡ none
      → Still off q (take_from bucket n q b).0
        × ((take_from bucket n q b).0.backoff_counters off ≡ q.backoff_counters off)
  unfolding take_from
  take_from-Still off zero q b = λ e. ((refl, refl, refl, refl), refl)
  take_from-Still off (suc n) q b = elim (Bool-cases (isempty_weak (q.buckets b))) [
    | inl w ↦
        rw w (take_from-Still off n (record q { bucket_states = put q.bucket_states b 0 }) (suc b))
    | inr w ↦ rw w (λ e. cc)
  ]

  -- A round over another set leaves what is kept for this one.
  other-Still :
      (off off' : ℕ) (q : Mpb Q)
      → off ≢ off'
      → Still off q (get_set_state bucket q off').0
        × ((get_set_state bucket q off').0.backoff_counters off ≡ q.backoff_counters off)
  unfolding get_set_state search_set
  other-Still off off' q ne = ground arith

  pub round_other :
      (off off' : ℕ) (q : Mpb Q)
      → off ≢ off'
      → (round bucket q off').1 ≡ none
      → Still off q (round bucket q off').0
        × ((round bucket q off').0.backoff_counters off ≡ q.backoff_counters off)
  unfolding round
  round_other off off' q ne =
      let (q', r) = get_set_state bucket q off' in
      let ((a, b, c, d), k) = other-Still off off' q ne in
      elim (Bool-cases (get_set_state bucket q off').1) [
        | inl t ↦ rw t (λ e.
            let ((a', b', c', d'), k') = take_from-Still off set_size q' (off' * set_size) e in
            ((a' ∙ a, b' ∙ b, c' ∙ c, d' ∙ d), k' ∙ k))
        | inr t ↦ rw t (λ e. ((a, b, c, d), k))
      ]

  -- A set with data is seen to have some, or its backoff goes on.
  get_here :
      (off b : ℕ) (q : Mpb Q)
      → off * set_size ≤ b
      → b < off * set_size + set_size
      → isempty_weak (q.buckets b) ≡ false
      → ((get_set_state bucket q off).1 ≡ true)
        ⊎ (((get_set_state bucket q off).1 ≡ false)
            × Still off q (get_set_state bucket q off).0
            × ((get_set_state bucket q off).0.backoff_counters off ≡ suc (q.backoff_counters off))
            × (suc (q.backoff_counters off) < q.backoff_bounds off))
  unfolding get_set_state search_set
  get_here off b q le lt e =
      let (x, first) = first_nonempty-some set_size q.buckets (off * set_size) b le lt e in
      elim (Bool-cases (set_marked q.bucket_states off)) [
        | inl marked ↦ rw marked (inl refl)
        | inr unmarked ↦
            elim (Bool-cases (leb (q.backoff_bounds off) (suc (q.backoff_counters off)))) [
              | inl due ↦ rw unmarked (rw due (rw (search_set, first) (inl refl)))
              | inr early ↦
                  rw unmarked
                    (rw early (inr (refl, (refl, refl, refl, refl), ground arith, ground arith)))
            ]
      ]

  -- A round over a set with data finds some, or is one of a bounded number that do not look.
  pub round_here :
      (off b : ℕ) (q : Mpb Q)
      → off * set_size ≤ b
      → b < off * set_size + set_size
      → isempty_weak (q.buckets b) ≡ false
      → (round bucket q off).1 ≡ none
      → Still off q (round bucket q off).0
        × ((round bucket q off).0.backoff_counters off ≡ suc (q.backoff_counters off))
        × (suc (q.backoff_counters off) < q.backoff_bounds off)
  unfolding round
  round_here off b q le lt e = elim (get_here off b q le lt e) [
    | inl looks ↦
        let q' = (get_set_state bucket q off).0 in
        let still = ap (λ f. isempty_weak (f b)) (get_set_state-buckets bucket q off) ∙ e in
        let (x, has) = take_from-some set_size q' (off * set_size) b le lt still in
        rw looks (λ z. absurd (cc (z, has)))
    | inr (waits, still, counted, under) ↦ rw waits (λ z. (still, counted, under))
  ]
