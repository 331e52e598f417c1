-- ===== src/Lock/Hmcs/Hierarchy/Places.antt =====
-- Where `new_lock` puts the nodes, on a machine whose levels divide one another evenly.
use Prim.Native.Nat.{◌∣◌}
use native.Mathlib.Nat.{
  dvd_of_mod-eq-zero, mod-eq-zero_of_dvd, div-mul_cancel, div-lt_iff_lt-mul, div-mul-le_self,
  dvd_trans, dvd-mul_left, mul-div_cancel,
}
use izem.Prelude.{
  ℕ, ◌+◌, ◌*◌, ◌/◌, ◌%◌, ◌≤◌, ◌<◌, ◌≡◌, refl, sym, ap, ◌⊎◌, inl, inr, true, false, List, [], ◌∷◌,
  arith, ◌==◌, Bool-cases,
}
use izem.Lock.Hmcs.Hierarchy.{total_locks, locations, parent_links}

-- Every group of threads has the same size, and is made up of whole groups of the level below.
abbrev pub Regular : ℕ → List ℕ → Type 0
Regular n [] = Unit
Regular n (p ∷ []) = (0 < p) × (p ∣ n)
Regular n (p ∷ p' ∷ ps) = (0 < p) × (p ∣ n) × (p ∣ p') × Regular n (p' ∷ ps)

abbrev pub All {ℓ} : {A : Type ℓ} → (A → Type 0) → List A → Type 0
All P [] = Unit
All P (x ∷ xs) = P x × All P xs

abbrev pub In : ℕ → List ℕ → Type 0
In x [] = ⊥
In x (y ∷ ys) = (x ≡ y) ⊎ In x ys

pub Regular-head : (n p : ℕ) (ps : List ℕ) → Regular n (p ∷ ps) → (0 < p) × (p ∣ n)
Regular-head n p [] h = h
Regular-head n p (p' ∷ ps) (a, b, c, d) = (a, b)

Regular-tail : (n p : ℕ) (ps : List ℕ) → Regular n (p ∷ ps) → Regular n ps
Regular-tail n p [] h = tt
Regular-tail n p (p' ∷ ps) (a, b, c, d) = d

pub All-mono {ℓ} :
    {A : Type ℓ} (P R : A → Type 0) (xs : List A) → ((x : A) → P x → R x) → All P xs → All R xs
All-mono P R [] f h = tt
All-mono P R (x ∷ xs) f (a, h) = (f x a, All-mono P R xs f h)

-- A group's number is below the number of groups.
pub group_bound : (n p tid : ℕ) → 0 < p → p ∣ n → tid < n → tid / p < n / p
group_bound n p tid pos d lt =
    let e = div-mul_cancel p d in (div-lt_iff_lt-mul pos).1 (omega (arith, e))

module _ (n : ℕ) where
  -- On a regular machine, every place where a node is put lies in the table of
  -- `total_locks_needed` entries.
  pub locations_bound :
      (tid : ℕ) (ps : List ℕ) (last : ℕ)
      → Regular n ps
      → tid < n
      → All (λ x. (last ≤ x) × (x < last + total_locks n ps)) (locations n tid ps last)
  unfolding locations total_locks
  locations_bound tid [] last h lt = tt
  locations_bound tid (p ∷ ps) last h lt =
      let (pos, d) = Regular-head n p ps h in
      let b = group_bound n p tid pos d lt in
      elim (Bool-cases (tid % p == 0)) [
        | inl master ↦ rw master (
          (omega arith, omega (arith, b)),
          All-mono _ _ (locations n tid ps (last + n / p))
              (λ x q. (omega (arith, q), omega (arith, q)))
              (locations_bound tid ps (last + n / p) (Regular-tail n p ps h) lt),
        )
        | inr other ↦ rw other (
            All-mono _ _ (locations n tid ps last) (λ x q. (omega (arith, q), omega (arith, q)))
              (locations_bound tid ps last (Regular-tail n p ps h) lt))
      ]

  -- The place is one where the pass of some thread puts a node.
  abbrev pub Placed : List ℕ → ℕ → ℕ → Type 0
  Placed [] last y = ⊥
  Placed (p ∷ ps) last y = (t : ℕ) × (t < n) × (p ∣ t) × In y (locations n t (p ∷ ps) last)

  In-locations :
      (t p : ℕ) (ps : List ℕ) (last y : ℕ)
      → p ∣ t
      → (y ≡ last + t / p) ⊎ In y (locations n t ps (last + n / p))
      → In y (locations n t (p ∷ ps) last)
  unfolding locations
  In-locations t p ps last y d h =
      let e : (t % p == 0) ≡ true = let z = mod-eq-zero_of_dvd p d in ground arith in rw e h

  -- The thread that leads the group of `tid` places the parent.
  leader_places :
      (tid p p' : ℕ) (ps : List ℕ) (last : ℕ)
      → Regular n (p ∷ p' ∷ ps)
      → tid < n
      → Placed (p ∷ p' ∷ ps) last (last + n / p + tid / p')
  leader_places tid p p' ps last (pos, d, up, h) lt =
      let t = tid / p' * p' in
      let pos' = (Regular-head n p' ps h).0 in
      let whole : p' ∣ t = dvd-mul_left p' (tid / p') in
      let le = div-mul-le_self tid p' in
      let same : t / p' ≡ tid / p' = mul-div_cancel (tid / p') pos' in
      let part : p ∣ t = dvd_trans p up whole in
      (
        t,
        omega (arith, le),
        part,
        In-locations t p (p' ∷ ps) last _ part (
            inr (
              In-locations t p' ps (last + n / p) _ whole
                (inl (ap (λ k. last + n / p + k) (sym same))))),
      )

  -- A place of the levels above is one of all levels.
  Placed-below :
      (p p' : ℕ) (ps : List ℕ) (last y : ℕ)
      → p ∣ p'
      → Placed (p' ∷ ps) (last + n / p) y
      → Placed (p ∷ p' ∷ ps) last y
  Placed-below p p' ps last y up (t, lt, d, h) =
      (t, lt, dvd_trans p up d, In-locations t p (p' ∷ ps) last y (dvd_trans p up d) (inr h))

  -- A thread that does not lead a group leads none above.
  no_links :
      (tid p : ℕ) (ps : List ℕ) (last : ℕ)
      → Regular n (p ∷ ps)
      → (tid % p == 0) ≡ false
      → parent_links n tid (p ∷ ps) last ≡ []
  unfolding parent_links
  no_links tid p [] last h e = refl
  no_links tid p (p' ∷ ps) last (pos, d, up, h) e = rw e (elim (Bool-cases (tid % p' == 0)) [
    | inl master ↦
        let m : tid % p' ≡ 0 = ground arith in
        let z : tid % p ≡ 0 = mod-eq-zero_of_dvd p (dvd_trans p up (dvd_of_mod-eq-zero p' m)) in
        absurd (ground arith)
    | inr other ↦ no_links tid p' ps last h other
  ])

  -- On a regular machine, every parent that a pass links to is a node that a pass has put there.
  pub parents-Placed :
      (tid p : ℕ) (ps : List ℕ) (last : ℕ)
      → Regular n (p ∷ ps)
      → tid < n
      → All (λ (x, y). Placed (p ∷ ps) last y) (parent_links n tid (p ∷ ps) last)
  unfolding parent_links
  parents-Placed tid p [] last h lt = tt
  parents-Placed tid p (p' ∷ ps) last h lt = elim (Bool-cases (tid % p == 0)) [
    | inl master ↦ rw master (
      leader_places tid p p' ps last h lt,
      All-mono (λ (x, y). Placed (p' ∷ ps) (last + n / p) y) (λ (x, y). Placed (p ∷ p' ∷ ps) last y)
          (parent_links n tid (p' ∷ ps) (last + n / p))
          (λ (x, y) q. Placed-below p p' ps last y h.2 q)
          (parents-Placed tid p' ps (last + n / p) h.3 lt),
    )
    | inr other ↦ rw (no_links tid p (p' ∷ ps) last h other) tt
  ]
