-- ===== src/Lock/Hmcs/Hierarchy/Total.antt =====
-- How many nodes `new_lock` makes on a machine whose groups at least double from level to level.
use native.Mathlib.Nat.{div-mul-le_self, le-div_iff_mul-le, div-le_self, mul-le-mul_left}
use izem.Prelude.{ℕ, ◌*◌, ◌/◌, ◌≤◌, ◌<◌, ◌≡◌, List, [], ◌∷◌, arith}
use izem.Lock.Hmcs.Hierarchy.{total_locks}

-- Each group is at least twice one of the level below, and none is larger than the machine.
abbrev pub Doubling : ℕ → List ℕ → Type 0
Doubling n [] = Unit
Doubling n (p ∷ []) = (0 < p) × (p ≤ n)
Doubling n (p ∷ p' ∷ ps) = (0 < p) × (2 * p ≤ p') × Doubling n (p' ∷ ps)

halves : (n p p' : ℕ) → 0 < p → 2 * p ≤ p' → 2 * (n / p') ≤ n / p
halves n p p' pos le =
    let m = n / p' in
    let a = mul-le-mul_left m le in
    let b = div-mul-le_self n p' in
    let c : 2 * m * p ≡ m * (2 * p) = omega arith in
    (le-div_iff_mul-le pos).1 (omega (arith, a, b, c))

module _ (n : ℕ) where
  below_twice : (p : ℕ) (ps : List ℕ) → Doubling n (p ∷ ps) → total_locks n (p ∷ ps) < 2 * (n / p)
  unfolding total_locks
  below_twice p [] (pos, le) =
      let one = (le-div_iff_mul-le {x = 1} {y = n} pos).1 (omega (arith, le)) in omega (arith, one)
  below_twice p (p' ∷ ps) (pos, le, more) =
      omega (arith, below_twice p' ps more, halves n p p' pos le)

  -- Where the groups at least double from level to level, and the smallest has at least one hardware
  -- thread and the largest no more than the machine, `total_locks_needed` is below twice the number of
  -- hardware threads.
  pub total_locks_bound :
      (p : ℕ) (ps : List ℕ) → Doubling n (p ∷ ps) → total_locks n (p ∷ ps) < 2 * n
  total_locks_bound p ps d = let small = div-le_self n p in omega (arith, below_twice p ps d, small)
