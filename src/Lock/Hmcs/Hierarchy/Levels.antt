-- ===== src/Lock/Hmcs/Hierarchy/Levels.antt =====
-- How many levels `set_hierarchy` writes into its table of `max_levels` entries.
use izem.Prelude.{
  ℕ, zero, suc, ◌+◌, ◌-◌, ◌≤◌, ◌≡◌, refl, inl, inr, Option, none, some, [], ◌∷◌, ◌++◌, arith, leb,
  length, length-append, Bool-cases,
}
use izem.Lock.Hmcs.Hierarchy.{same_count, detect, participants}

module _ (nobjs_at : ℕ → ℕ) (max_threads max_levels : ℕ) where
  length-detect :
      (r : ℕ) (prev : Option ℕ) (levels : ℕ)
      → suc levels ≤ max_levels - 1
      → length (detect nobjs_at max_threads max_levels r prev levels) + levels ≤ max_levels - 1
  unfolding detect
  length-detect zero prev levels le = omega arith
  length-detect (suc r) prev levels le =
      elim (Bool-cases (same_count prev (nobjs_at (suc (suc r))))) [
        | inl same ↦ rw same (length-detect r prev levels le)
        | inr other ↦ rw other (elim (Bool-cases (leb (max_levels - 1) (suc levels))) [
          | inl full ↦ rw full (omega arith)
          | inr room ↦ rw room (
              let lt : suc (suc levels) ≤ max_levels - 1 = ground arith in
              omega (arith, length-detect r (some (nobjs_at (suc (suc r)))) (suc levels) lt))
        ])
      ]

  -- With room for two levels or more, the detection writes no more levels than the table has room
  -- for.
  pub participants_bound :
      (max_depth : ℕ)
      → 2 ≤ max_levels
      → length (participants nobjs_at max_threads max_levels max_depth) ≤ max_levels
  unfolding participants
  participants_bound max_depth le =
      let d = length-detect (max_depth - 3) none 0 (omega arith) in
      omega (
        arith,
        length-append (detect nobjs_at max_threads max_levels (max_depth - 3) none 0)
            (max_threads ∷ []),
      )

  -- With room for one level only, on a machine with a level between the whole and the last, the
  -- detection writes two.
  pub participants_overflow :
      (max_depth : ℕ)
      → 4 ≤ max_depth
      → max_levels ≡ 1
      → length (participants nobjs_at max_threads max_levels max_depth) ≡ 2
  unfolding participants detect
  participants_overflow max_depth le one = overflow (max_depth - 4) (max_depth - 3) (omega arith)
    where
      overflow :
          (r k : ℕ)
          → k ≡ suc r
          → length (detect nobjs_at max_threads max_levels k none 0 ++ max_threads ∷ []) ≡ 2
      overflow r k e = rw (e, one) refl
