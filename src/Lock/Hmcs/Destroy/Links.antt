-- ===== src/Lock/Hmcs/Destroy/Links.antt =====
-- The links that `new_lock` of zm_hmcs.c sets go up in the table, and stay in it.
use izem.Prelude.{
  ℕ, zero, suc, ◌+◌, ◌/◌, ◌%◌, ◌≤◌, ◌<◌, ◌≡◌, true, ◌==◌, Option, some, List, [], ◌∷◌, arith,
  Bool-cases, inl, inr, ℕ_discrete, member,
}
use izem.Prelude.Family.{put}
use izem.Lock.Hmcs.Hierarchy.{total_locks, parent_links, leaf_place}
use izem.Lock.Hmcs.Hierarchy.Places.{Regular, Regular-head, All, All-mono, group_bound}
use izem.Lock.Hmcs.Destroy.{set_parents, parents_after, leaf_nodes}

-- A node and its parent: the parent is further on, and both are below the end.
abbrev pub Up : ℕ → ℕ × ℕ → Type 0
Up end (c, q) = (c < q) × (q < end)

module _ (n : ℕ) where
  links-Up :
      (tid p : ℕ) (ps : List ℕ) (last : ℕ)
      → Regular n (p ∷ ps)
      → tid < n
      → All (Up (last + total_locks n (p ∷ ps))) (parent_links n tid (p ∷ ps) last)
  unfolding parent_links total_locks
  links-Up tid p [] last h lt = tt
  links-Up tid p (p' ∷ ps) last (pos, d, up, h) lt =
      let end = last + n / p in
      let b = group_bound n p tid pos d lt in
      let (pos', d') = Regular-head n p' ps h in
      let b' = group_bound n p' tid pos' d' lt in
      elim (Bool-cases (tid % p == 0)) [
        | inl master ↦ rw master (
          (omega (arith, b), omega (arith, b')),
          All-mono (Up (end + total_locks n (p' ∷ ps))) _ (parent_links n tid (p' ∷ ps) end)
              (λ (x, y) (a, c). (a, omega (arith, c))) (links-Up tid p' ps end h lt),
        )
        | inr other ↦ rw other (
            All-mono (Up (last + total_locks n (p' ∷ ps))) _ (parent_links n tid (p' ∷ ps) last)
              (λ (x, y) (a, c). (a, omega (arith, c))) (links-Up tid p' ps last h lt))
      ]

  -- So do the parents that they set.
  set_parents-Up :
      (end : ℕ) (links : List (ℕ × ℕ)) (parent : ℕ → Option ℕ)
      → All (Up end) links
      → ((c q : ℕ) → parent c ≡ some q → Up end (c, q))
      → (c q : ℕ) → set_parents links parent c ≡ some q
      → Up end (c, q)
  unfolding set_parents
  set_parents-Up end [] parent h old c q e = old c q e
  set_parents-Up end ((x, y) ∷ links) parent (here, h) old c q e =
      set_parents-Up end links (put parent x (some y)) h
        (λ c' q' e'. ground (arith, here, old c' q')) c q e

  module _ (p : ℕ) (ps : List ℕ) (regular : Regular n (p ∷ ps)) where
    pub parents-Up :
        (threads : ℕ)
        → threads ≤ n
        → (c q : ℕ) → parents_after n (p ∷ ps) threads c ≡ some q
        → Up (total_locks n (p ∷ ps)) (c, q)
    unfolding parents_after
    parents-Up zero le c q e = cc
    parents-Up (suc tid) le c q e =
        set_parents-Up (total_locks n (p ∷ ps)) (parent_links n tid (p ∷ ps) 0)
          (parents_after n (p ∷ ps) tid)
          (All-mono (Up (0 + total_locks n (p ∷ ps))) _ (parent_links n tid (p ∷ ps) 0)
            (λ (x, y) (a, b). (a, omega (arith, b)))
            (links-Up tid p ps 0 regular (omega (arith, le))))
          (parents-Up tid (omega (arith, le))) c q e

    -- The leaves start in the table.
    pub leaves_bound :
        (threads tid : ℕ)
        → tid + threads ≤ n
        → (s : ℕ) → member s (leaf_nodes n (p ∷ ps) threads tid) ≡ true
        → s < total_locks n (p ∷ ps)
    unfolding leaf_nodes total_locks leaf_place
    leaves_bound zero tid le s e = absurd (ground arith)
    leaves_bound (suc threads) tid le s e =
        let (pos, d) = Regular-head n p ps regular in
        let b = group_bound n p tid pos d (omega (arith, le)) in
        elim (ℕ_discrete s (tid / p)) [
          | yes same ↦ omega (arith, same, b)
          | no other ↦
              leaves_bound threads (suc tid) (omega (arith, le)) s (ground (arith, e, other))
        ]
