-- ===== src/Prelude/Family.antt =====
-- Families indexed by numbers (memory cells by address, threads by number): change at one index.
use Prim.Native.Nat.{ℕ, zero, suc, ◌+◌, ◌≤◌, ◌<◌}
use mathlib.Core.Path.{◌≡◌, refl, ap, sym, subst}
use mathlib.Core.Logic.{◌≢◌}
use native.Mathlib.Decide.{ℕ_discrete}
use native.Mathlib.Omega.{arith}
use izem.Prelude.Tests.{◌==◌, if◌then◌else◌}

module _ {ℓ} {A : Type ℓ} where
  -- `f` with the value at `i` replaced by `a`.
  abbrev pub put : (ℕ → A) → ℕ → A → ℕ → A
  put f i a j = if i == j then a else f j

  pub put_same : (f : ℕ → A) (i : ℕ) (a : A) → put f i a i ≡ a
  put_same f i a = ground arith

  pub put_other : (f : ℕ → A) (i j : ℕ) (a : A) → i ≢ j → put f i a j ≡ f j
  put_other f i j a h = ground arith

-- What holds of the new member and of the others holds of all.
pub put_all {ℓ κ} :
    {A : Type ℓ} (P : ℕ → A → Type κ) (f : ℕ → A) (i : ℕ) (a : A)
    → P i a
    → ((j : ℕ) → j ≢ i → P j (f j))
    → (j : ℕ) → P j (put f i a j)
put_all P f i a new old j = elim (ℕ_discrete i j) [
  | yes e ↦ subst (λ k. P k (put f i a k)) e (subst (P i) (sym (put_same f i a)) new)
  | no ne ↦ subst (P j) (sym (put_other f i j a ne)) (old j (λ e. ne (sym e)))
]

-- The sum of the weights of the first `n` members.
module _ {ℓ} {A : Type ℓ} (w : A → ℕ) where
  pub total : ℕ → (ℕ → A) → ℕ
  total zero f = 0
  total (suc n) f = total n f + w (f n)

  pub total_congr :
      (n : ℕ) (f g : ℕ → A) → ((j : ℕ) → j < n → w (g j) ≡ w (f j)) → total n g ≡ total n f
  unfolding total
  total_congr zero f g h = refl
  total_congr (suc n) f g h =
      omega (arith, total_congr n f g (λ j lt. h j (omega arith)), h n (omega arith))

  -- A change at one index changes the sum by the two weights there.
  pub total_change :
      (n : ℕ) (f g : ℕ → A) (i : ℕ)
      → i < n
      → ((j : ℕ) → j ≢ i → g j ≡ f j)
      → total n g + w (f i) ≡ total n f + w (g i)
  unfolding total
  total_change zero f g i lt same = absurd (omega arith)
  total_change (suc n) f g i lt same = elim (ℕ_discrete n i) [
    | yes e ↦ omega (
      arith,
      total_congr n f g (λ j below. ap w (same j (omega arith))),
      ap (λ t. w (f t)) e,
      ap (λ t. w (g t)) e,
    )
    | no ne ↦ omega (arith, total_change n f g i (omega arith) same, ap w (same n ne))
  ]

  pub total-le : (n : ℕ) (f : ℕ → A) → ((i : ℕ) → w (f i) ≤ 1) → total n f ≤ n
  unfolding total
  total-le zero f small = omega arith
  total-le (suc n) f small = omega (arith, small n, total-le n f small)

  pub total-zero : (n : ℕ) (f : ℕ → A) → ((i : ℕ) → w (f i) ≡ 0) → total n f ≡ 0
  unfolding total
  total-zero zero f h = refl
  total-zero (suc n) f h = omega (arith, total-zero n f h, h n)

  pub le-total : (n : ℕ) (f : ℕ → A) (i : ℕ) → i < n → w (f i) ≤ total n f
  unfolding total
  le-total zero f i lt = absurd (omega arith)
  le-total (suc n) f i lt = elim (ℕ_discrete n i) [
    | yes e ↦ omega (arith, ap (λ t. w (f t)) e)
    | no ne ↦ omega (arith, le-total n f i (omega arith))
  ]

  -- Two members count twice.
  pub two-le-total :
      (n : ℕ) (f : ℕ → A) (i j : ℕ) → i < n → j < n → i ≢ j → w (f i) + w (f j) ≤ total n f
  unfolding total
  two-le-total zero f i j lt lt' ne = absurd (omega arith)
  two-le-total (suc n) f i j lt lt' ne = elim (ℕ_discrete n i) [
    | yes e ↦ omega (arith, ap (λ t. w (f t)) e, le-total n f j (omega arith))
    | no ne_i ↦ elim (ℕ_discrete n j) [
      | yes e ↦ omega (arith, ap (λ t. w (f t)) e, le-total n f i (omega arith))
      | no ne_j ↦ omega (arith, two-le-total n f i j (omega arith) (omega arith) ne)
    ]
  ]
