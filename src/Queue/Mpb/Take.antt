-- ===== src/Queue/Mpb/Take.antt =====
-- What `zm_mpbqueue_dequeue` and `zm_mpbqueue_dequeue_range` take out of the buckets, and what they
-- leave in them.
use izem.Prelude.{
  ℕ, zero, suc, ◌+◌, ◌-◌, ◌*◌, ◌/◌, ◌%◌, ◌≤◌, ◌≡◌, ◌≢◌, refl, sym, ap, ◌∙◌, inl, inr, true, false,
  Option, none, some, List, [], ◌∷◌, arith, leb, if◌then◌else◌, take, Bool-cases, Option-cases,
}
use mathlib.Core.Path.{subst}
use izem.Prelude.Family.{put, put_same, put_other}
use izem.Queue.Bucket.{Bucket}
use izem.Queue.Mpb.{
  Mpb, set_size, search_set, get_set_state, take_from, round, take_loop, mpb_dequeue, range_loop,
  mpb_dequeue_range,
}

-- The first data of each list of the family that is not empty, from the index `b` on.
abbrev pub heads : ℕ → (ℕ → List ℕ) → ℕ → List ℕ
heads zero vs b = []
heads (suc n) vs b = elim (vs b) [ [] ↦ heads n vs (suc b) | d ∷ _ ↦ d ∷ heads n vs (suc b) ]

take-empty : (n : ℕ) → take {A = ℕ} n [] ≡ []
take-empty zero = refl
take-empty (suc n) = refl

module _ {Q : Type 0} (bucket : Bucket Q) where
  open bucket use {view, dequeue, isempty_weak, view_dequeue, weak_iff}

  abbrev pub views : Mpb Q → ℕ → List ℕ
  views q b = view (q.buckets b)

  -- Either nothing was found and the buckets hold what they held, or one bucket lost its first
  -- data, which is what was found, and the others hold what they held.
  abbrev pub Takes : Mpb Q → Mpb Q → Option ℕ → Type 0
  Takes q q' none = (b : ℕ) → views q' b ≡ views q b
  Takes q q' (some d) =
      (b : ℕ) × (views q b ≡ d ∷ views q' b) × ((c : ℕ) → c ≢ b → views q' c ≡ views q c)

  views-put : (q : Mpb Q) (b : ℕ) (u : Q) (c : ℕ) → c ≢ b → view (put q.buckets b u c) ≡ views q c
  views-put q b u c ne = ap view (put_other q.buckets b c u (λ e. ne (sym e)))

  -- Queues with the same buckets take the same.
  Takes-same :
      (q q1 q2 : Mpb Q) (r : Option ℕ) → q1.buckets ≡ q.buckets → Takes q1 q2 r → Takes q q2 r
  Takes-same q q1 q2 none e t = λ b. let h = t b in cc
  Takes-same q q1 q2 (some d) e (b, h, k) = (b, cc, λ c ne. let g = k c ne in cc)

  take_from-Takes :
      (n : ℕ) (q : Mpb Q) (b : ℕ) → Takes q (take_from bucket n q b).0 (take_from bucket n q b).1
  unfolding take_from
  take_from-Takes zero q b = λ c. refl
  take_from-Takes (suc n) q b = elim (Bool-cases (isempty_weak (q.buckets b))) [
    | inl e ↦ rw e (
        let q1 = record q { bucket_states = put q.bucket_states b 0 } in
        Takes-same q q1 (take_from bucket n q1 (suc b)).0 (take_from bucket n q1 (suc b)).1 refl
          (take_from-Takes n q1 (suc b)))
    | inr e ↦ rw e (
      b,
      view_dequeue (q.buckets b) e
          ∙ ap (λ u. (dequeue (q.buckets b)).1 ∷ view u)
              (sym (put_same q.buckets b (dequeue (q.buckets b)).0)),
      λ c ne. views-put q b (dequeue (q.buckets b)).0 c ne,
    )
  ]

  pub get_set_state-buckets :
      (q : Mpb Q) (offset : ℕ) → (get_set_state bucket q offset).0.buckets ≡ q.buckets
  unfolding get_set_state search_set
  get_set_state-buckets q offset = ground arith

  round-Takes :
      (q : Mpb Q) (offset : ℕ) → Takes q (round bucket q offset).0 (round bucket q offset).1
  unfolding round
  round-Takes q offset =
      let q' = (get_set_state bucket q offset).0 in
      elim (Bool-cases (get_set_state bucket q offset).1) [
        | inl e ↦ rw e (
            Takes-same q q' (take_from bucket set_size q' (offset * set_size)).0
              (take_from bucket set_size q' (offset * set_size)).1 (get_set_state-buckets q offset)
              (take_from-Takes set_size q' (offset * set_size)))
        | inr e ↦ rw e (λ b. ap (λ f. view (f b)) (get_set_state-buckets q offset))
      ]

  -- A round that finds nothing leaves the work to the next ones.
  Takes-trans : (q q1 q2 : Mpb Q) (r : Option ℕ) → Takes q q1 none → Takes q1 q2 r → Takes q q2 r
  Takes-trans q q1 q2 none t u = λ b. let h = t b in let k = u b in cc
  Takes-trans q q1 q2 (some d) t (b, h, k) =
      (b, (let g = t b in cc), λ c ne. let g = t c in let l = k c ne in cc)

  take_loop-Takes :
      (n : ℕ) (q : Mpb Q) (i : ℕ) → Takes q (take_loop bucket n q i).0 (take_loop bucket n q i).1
  unfolding take_loop
  take_loop-Takes zero q i = λ b. refl
  take_loop-Takes (suc n) q i =
      let offset = (q.last_bucket_set + i) % (q.nbuckets / set_size) in
      let (q', r) = round bucket q offset in
      elim (Option-cases (round bucket q offset).1) [
        | inl e ↦
            rw (take_loop, e)
              (Takes-trans q q' (take_loop bucket n q' (suc i)).0 (take_loop bucket n q' (suc i)).1
                (subst (Takes q q') e (round-Takes q offset)) (take_loop-Takes n q' (suc i)))
        | inr (d, e) ↦ rw (take_loop, e) (subst (Takes q q') e (round-Takes q offset))
      ]

  Takes-last :
      (q q' : Mpb Q) (r : Option ℕ) (l : ℕ)
      → Takes q q' r
      → Takes q (record q' { last_bucket_set = l }) r
  Takes-last q q' none l t = t
  Takes-last q q' (some d) l t = t

  -- `zm_mpbqueue_dequeue` either finds nothing and leaves all buckets as they are, or finds the
  -- first data of one bucket, takes them out of it and leaves the other buckets as they are.
  pub mpb_dequeue-Takes : (q : Mpb Q) → Takes q (mpb_dequeue bucket q).0 (mpb_dequeue bucket q).1
  unfolding mpb_dequeue
  mpb_dequeue-Takes q =
      let r = take_loop bucket (q.nbuckets / set_size) q 0 in
      Takes-last q r.0 r.1 ((r.0.last_bucket_set + r.2) % (q.nbuckets / set_size))
        (take_loop-Takes (q.nbuckets / set_size) q 0)

  heads_congr :
      (n : ℕ) (vs ws : ℕ → List ℕ) (b : ℕ)
      → ((c : ℕ) → b ≤ c → ws c ≡ vs c)
      → heads n ws b ≡ heads n vs b
  heads_congr zero vs ws b h = refl
  heads_congr (suc n) vs ws b h =
      let e = h b (omega arith) in
      let rest = heads_congr n vs ws (suc b) (λ c le. h c (omega arith)) in
      ap (λ (v : List ℕ). elim v [ [] ↦ heads n ws (suc b) | d ∷ _ ↦ d ∷ heads n ws (suc b) ]) e
      ∙ ap (λ (r : List ℕ). elim (vs b) [ [] ↦ r | d ∷ _ ↦ d ∷ r ]) rest

  heads_nil :
      (n : ℕ) (vs : ℕ → List ℕ) (b : ℕ) → vs b ≡ [] → heads (suc n) vs b ≡ heads n vs (suc b)
  heads_nil n vs b e =
      ap (λ (v : List ℕ). elim v [ [] ↦ heads n vs (suc b) | d ∷ _ ↦ d ∷ heads n vs (suc b) ]) e

  heads_cons :
      (n : ℕ) (vs : ℕ → List ℕ) (b d : ℕ) (ds : List ℕ)
      → vs b ≡ d ∷ ds
      → heads (suc n) vs b ≡ d ∷ heads n vs (suc b)
  heads_cons n vs b d ds e =
      ap (λ (v : List ℕ). elim v [ [] ↦ heads n vs (suc b) | d ∷ _ ↦ d ∷ heads n vs (suc b) ]) e

  range_loop-heads :
      (n : ℕ) (q : Mpb Q) (b in_count count k : ℕ)
      → count + suc k ≡ in_count
      → (range_loop bucket n q b in_count count).1 ≡ take (suc k) (heads n (views q) b)
  unfolding range_loop
  range_loop-heads zero q b in_count count k e = refl
  range_loop-heads (suc n) q b in_count count k e =
      let u = dequeue (q.buckets b) in
      elim (Bool-cases (isempty_weak (q.buckets b))) [
        | inl w ↦ rw w (
            range_loop-heads n q (suc b) in_count count k e
            ∙ ap (take (suc k)) (sym (heads_nil n (views q) b ((weak_iff (q.buckets b)).0 w))))
        | inr w ↦ rw w (
            next
              (λ j e'.
                range_loop-heads n
                  (record q { buckets = put q.buckets b (dequeue (q.buckets b)).0 }) (suc b)
                  in_count (suc count) j e')
              k e
            ∙ ap (take (suc k))
                (sym (heads_cons n (views q) b u.1 (view u.0) (view_dequeue (q.buckets b) w))))
      ]
    where
      after : Mpb Q
      after = record q { buckets = put q.buckets b (dequeue (q.buckets b)).0 }

      next :
          ((j : ℕ)
            → suc count + suc j ≡ in_count
            → (range_loop bucket n after (suc b) in_count (suc count)).1
              ≡ take (suc j) (heads n (views after) (suc b)))
          → (k : ℕ) → count + suc k ≡ in_count
          → (if◌then◌else◌ {A = Mpb Q × List ℕ}
              (leb in_count (suc count))
              (after, (dequeue (q.buckets b)).1 ∷ [])
              (
                (range_loop bucket n after (suc b) in_count (suc count)).0,
                (dequeue (q.buckets b)).1
                    ∷ (range_loop bucket n after (suc b) in_count (suc count)).1,
              )).1
            ≡ (dequeue (q.buckets b)).1 ∷ take k (heads n (views q) (suc b))
      next rest zero e = let t : leb in_count (suc count) ≡ true = ground arith in rw t refl
      next rest (suc k) e =
          let t : leb in_count (suc count) ≡ false = ground arith in
          rw t (
            ap (λ r. (dequeue (q.buckets b)).1 ∷ r)
              (rest k (omega arith)
                ∙ ap (take (suc k)) (
                    heads_congr n (views q) (views after) (suc b)
                      (λ c le. views-put q b (dequeue (q.buckets b)).0 c (λ e. omega arith)))))

  -- `zm_mpbqueue_dequeue_range`, asked for one or more, gives the first data of the first buckets
  -- of the range that are not empty, in their order, one of each and at most as many as asked for.
  pub mpb_dequeue_range-heads :
      (q : Mpb Q) (start stop in_count : ℕ)
      → 1 ≤ in_count
      → (mpb_dequeue_range bucket q start stop in_count).1
        ≡ take in_count (heads (stop - start) (views q) start)
  unfolding mpb_dequeue_range
  mpb_dequeue_range-heads q start stop in_count le =
      range_loop-heads (stop - start) q start in_count 0 (in_count - 1) (omega arith)
      ∙ (let e : suc (in_count - 1) ≡ in_count = omega arith in
          ap (λ k. take k (heads (stop - start) (views q) start)) e)
