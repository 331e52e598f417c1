-- ===== src/Prelude/Lists.antt =====
-- Lists measured and indexed by native numbers, under the library's names.
use Prim.Native.Nat.{ℕ, zero, suc, ◌+◌, ◌-◌, ◌<◌, ◌≤◌, min}
use mathlib.Core.Path.{◌≡◌, refl, ap, sym, ◌∙◌}
use mathlib.Core.Bool.{Bool, true, false, ◌||◌}
use izem.Prelude.Tests.{◌==◌, if◌then◌else◌}
use mathlib.Core.Logic.{◌≢◌}
use mathlib.Core.List.{List, [], ◌∷◌, ◌++◌, map}
use mathlib.Core.Option.{Option, none, some}
use native.Mathlib.Omega.{arith}

module _ {ℓ} {A : Type ℓ} where
  abbrev pub length : List A → ℕ
  length [] = 0
  length (x ∷ xs) = suc (length xs)

  abbrev pub get_elem? : List A → ℕ → Option A
  get_elem? [] i = none
  get_elem? (x ∷ xs) zero = some x
  get_elem? (x ∷ xs) (suc i) = get_elem? xs i

  -- A write out of bounds changes nothing.
  abbrev pub set : List A → ℕ → A → List A
  set [] i v = []
  set (x ∷ xs) zero v = v ∷ xs
  set (x ∷ xs) (suc i) v = x ∷ set xs i v

  pub length-append : (xs ys : List A) → length (xs ++ ys) ≡ length xs + length ys
  length-append [] ys = omega arith
  length-append (x ∷ xs) ys = omega (arith, length-append xs ys)

module _ {ℓ} {A : Type ℓ} where
  pub length-set : (xs : List A) (i : ℕ) (v : A) → length (set xs i v) ≡ length xs
  length-set [] i v = refl
  length-set (x ∷ xs) zero v = refl
  length-set (x ∷ xs) (suc i) v = ap suc (length-set xs i v)

  pub get_elem?-set_self :
      (xs : List A) (i : ℕ) (v : A) → i < length xs → get_elem? (set xs i v) i ≡ some v
  get_elem?-set_self [] i v h = elim h [ ]
  get_elem?-set_self (x ∷ xs) zero v h = refl
  get_elem?-set_self (x ∷ xs) (suc i) v h = get_elem?-set_self xs i v (omega arith)

  pub get_elem?-set_ne :
      (xs : List A) {i j : ℕ} (v : A) → i ≢ j → get_elem? (set xs i v) j ≡ get_elem? xs j
  get_elem?-set_ne [] v h = refl
  get_elem?-set_ne (x ∷ xs) {i = zero} {j = zero} v h = absurd (h refl)
  get_elem?-set_ne (x ∷ xs) {i = zero} {j = suc j} v h = refl
  get_elem?-set_ne (x ∷ xs) {i = suc i} {j = zero} v h = refl
  get_elem?-set_ne (x ∷ xs) {i = suc i} {j = suc j} v h = get_elem?-set_ne xs v (λ e. h (ap suc e))

module _ {ℓ} {A : Type ℓ} where
  abbrev pub get_or : List A → ℕ → A → A
  get_or [] i d = d
  get_or (x ∷ xs) zero d = x
  get_or (x ∷ xs) (suc i) d = get_or xs i d

  abbrev pub take : ℕ → List A → List A
  take zero xs = []
  take (suc n) [] = []
  take (suc n) (x ∷ xs) = x ∷ take n xs

  abbrev pub drop : ℕ → List A → List A
  drop zero xs = xs
  drop (suc n) [] = []
  drop (suc n) (x ∷ xs) = drop n xs

  abbrev pub replicate : ℕ → A → List A
  replicate zero a = []
  replicate (suc n) a = a ∷ replicate n a

  pub take-append-drop : (n : ℕ) (xs : List A) → take n xs ++ drop n xs ≡ xs
  take-append-drop zero xs = refl
  take-append-drop (suc n) [] = refl
  take-append-drop (suc n) (x ∷ xs) = rw (take-append-drop n xs)

  pub length-take : (n : ℕ) (xs : List A) → length (take n xs) ≡ min n (length xs)
  length-take zero xs = omega arith
  length-take (suc n) [] = omega arith
  length-take (suc n) (x ∷ xs) = omega (arith, length-take n xs)

  pub length-drop : (n : ℕ) (xs : List A) → length (drop n xs) ≡ length xs - n
  length-drop zero xs = omega arith
  length-drop (suc n) [] = omega arith
  length-drop (suc n) (x ∷ xs) = omega (arith, length-drop n xs)

  pub length-replicate : (n : ℕ) (a : A) → length (replicate n a) ≡ n
  length-replicate zero a = refl
  length-replicate (suc n) a = ap suc (length-replicate n a)

  pub length-map {κ} : {B : Type κ} (xs : List A) (f : A → B) → length (map f xs) ≡ length xs
  length-map [] f = refl
  length-map (x ∷ xs) f = ap suc (length-map xs f)

-- Lists of numbers, such as addresses.
abbrev pub member : ℕ → List ℕ → Bool
member c [] = false
member c (x ∷ xs) = (c == x) || member c xs

abbrev pub Distinct : List ℕ → Type 0
Distinct [] = Unit
Distinct (x ∷ xs) = (member x xs ≡ false) × Distinct xs

pub member-append : (c : ℕ) (xs ys : List ℕ) → member c (xs ++ ys) ≡ (member c xs || member c ys)
member-append c [] ys = refl
member-append c (x ∷ xs) ys = ground (arith, member-append c xs ys)

pub Distinct-snoc :
    (xs : List ℕ) (c : ℕ) → Distinct xs → member c xs ≡ false → Distinct (xs ++ c ∷ [])
Distinct-snoc [] c far out = (refl, tt)
Distinct-snoc (x ∷ xs) c (out_x, far) out =
    (ground (arith, member-append x xs (c ∷ [])), Distinct-snoc xs c far (ground arith))

-- The list without its first `c`.
abbrev pub remove_first : ℕ → List ℕ → List ℕ
remove_first c [] = []
remove_first c (x ∷ xs) = if c == x then xs else x ∷ remove_first c xs

length-remove_first :
    (c : ℕ) (xs : List ℕ) → member c xs ≡ true → suc (length (remove_first c xs)) ≡ length xs
length-remove_first c [] i = cc
length-remove_first c (x ∷ xs) i = ground (arith, length-remove_first c xs)

member-remove_first : (c d : ℕ) (xs : List ℕ) → d ≢ c → member d (remove_first c xs) ≡ member d xs
member-remove_first c d [] ne = refl
member-remove_first c d (x ∷ xs) ne = ground (arith, member-remove_first c d xs)

-- Distinct numbers that are all in a list are no more than it has.
pub length-Distinct :
    (xs ys : List ℕ)
    → Distinct xs
    → ((c : ℕ) → member c xs ≡ true → member c ys ≡ true)
    → length xs ≤ length ys
length-Distinct [] ys far sub = omega arith
length-Distinct (x ∷ xs) ys (out, far) sub =
    let here : member x ys ≡ true = sub x (ground arith) in
    let rest = length-Distinct xs (remove_first x ys) far (λ c i.
      let ne : c ≢ x =
        λ e. (let z : member x xs ≡ true = ap (λ a. member a xs) (sym e) ∙ i in cc (z, out)) in
      member-remove_first x c ys ne ∙ sub c (ground arith)) in
    omega (arith, rest, length-remove_first x ys here)
