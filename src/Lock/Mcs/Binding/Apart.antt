-- ===== src/Lock/Mcs/Binding/Apart.antt =====
-- Distinct threads of zm_mcs.c use distinct queue nodes.
use izem.Prelude.{
  ℕ, ◌<◌, ◌≡◌, refl, ap, ◌∙◌, inl, inr, true, false, Option, none, some, List, [], ◌∷◌, ◌==◌,
  length, get_elem?, member, arith, Bool-cases, Option-cases, ℕ_discrete,
}
use izem.Prelude.Family.{put}
use izem.Lock.Mcs.Binding.{Tids, check_affinity, get_hwthread_id, mcs_enter, enter_all, mcs_held}

-- What is said of the outcome of first acquisitions by the threads `ts`: one of them is not bound to a
-- single hardware thread, and the process exits; or each has the entry of the hardware thread to which
-- it is bound, the entries are in the table, and no two threads have the same.
pub data Entered (bound : ℕ → List ℕ) (max_threads : ℕ) (ts : List ℕ) : Option Tids → Type 0 where
  exits :
      (t : ℕ)
      → member t ts ≡ true
      → (length (bound t) == 1) ≡ false
      → Entered bound max_threads ts none
  enters :
      (tids : Tids)
      → ((t : ℕ) → member t ts ≡ true → (p : ℕ) × (mcs_held tids t ≡ some p) × (bound t ≡ p ∷ []))
      → ((t u p : ℕ) → mcs_held tids t ≡ some p → mcs_held tids u ≡ some p → t ≡ u)
      → ((t p : ℕ) → mcs_held tids t ≡ some p → p < max_threads)
      → Entered bound max_threads ts (some tids)

module _ (bound : ℕ → List ℕ) where
  abbrev OwnEntry : Tids → Type 0
  OwnEntry tids = (t p : ℕ) → tids t ≡ some p → bound t ≡ p ∷ []

  abbrev Kept : Tids → Tids → Type 0
  Kept tids tids' = (t p : ℕ) → tids t ≡ some p → tids' t ≡ some p

  data Walked (tids : Tids) (ts : List ℕ) : Option Tids → Type 0 where
    stops : (t : ℕ) → member t ts ≡ true → (length (bound t) == 1) ≡ false → Walked tids ts none
    walks :
        (tids' : Tids)
        → OwnEntry tids'
        → Kept tids tids'
        → ((t : ℕ) → member t ts ≡ true → (p : ℕ) × (tids' t ≡ some p))
        → Walked tids ts (some tids')

  single :
      (t : ℕ)
      → check_affinity bound t ≡ true
      → (p : ℕ) × (bound t ≡ p ∷ []) × (get_hwthread_id bound t ≡ some p)
  unfolding check_affinity get_hwthread_id
  single t e = single_list (bound t) e
    where
      single_list :
          (ps : List ℕ)
          → (length ps == 1) ≡ true
          → (p : ℕ) × (ps ≡ p ∷ []) × (get_elem? ps 0 ≡ some p)
      single_list [] e = absurd (ground arith)
      single_list (p ∷ []) e = (p, refl, refl)
      single_list (p ∷ q ∷ ps) e = absurd (ground arith)

  alone_not : (t : ℕ) → check_affinity bound t ≡ false → (length (bound t) == 1) ≡ false
  unfolding check_affinity
  alone_not t e = e

  mcs_enter-Walked :
      (tids : Tids) (t : ℕ) → OwnEntry tids → Walked tids (t ∷ []) (mcs_enter bound tids t)
  unfolding mcs_enter
  mcs_enter-Walked tids t own = elim (Option-cases (tids t)) [
    | inr (p, has) ↦
        rw (mcs_enter, has)
          (walks tids own (λ u q e. e) (λ u i. (p, ap tids (ground (arith, i)) ∙ has)))
    | inl fresh ↦ elim (Bool-cases (check_affinity bound t)) [
      | inl pass ↦
          let (p, is, id) = single t pass in
          rw (mcs_enter, fresh)
            (rw pass (
              walks (put tids t (get_hwthread_id bound t))
                (λ u q e. elim (ℕ_discrete u t) [
                  | yes same ↦ ap bound same ∙ is ∙ ap (λ x. x ∷ []) (ground (arith, id, e, same))
                  | no ne ↦ own u q (ground (arith, e, ne))
                ])
                (λ u q e. ground (arith, fresh, e)) (λ u i. (p, ground (arith, i, id)))))
      | inr fails ↦ rw (mcs_enter, fresh) (rw fails (stops t (ground arith) (alone_not t fails)))
    ]
  ]

  went_on :
      (tids tids' : Tids) (t : ℕ) (ts : List ℕ) (r : Option Tids)
      → Kept tids tids'
      → ((u : ℕ) → member u (t ∷ []) ≡ true → (p : ℕ) × (tids' u ≡ some p))
      → Walked tids' ts r
      → Walked tids (t ∷ ts) r
  went_on tids tids' t ts _ kept has (stops u i long) = stops u (ground (arith, i)) long
  went_on tids tids' t ts _ kept has (walks last own kept' all) =
      walks last own (λ u p e. kept' u p (kept u p e))
        (λ u i. elim (Bool-cases (u == t)) [
          | inl same ↦ let (p, e) = has u (ground (arith, same)) in (p, kept' u p e)
          | inr other ↦ all u (ground (arith, i, other))
        ])

  enter_rest :
      (t : ℕ) (ts : List ℕ) (tids : Tids) (r : Option Tids)
      → Walked tids (t ∷ []) r
      → ((tids' : Tids) → OwnEntry tids' → Walked tids' ts (enter_all bound tids' ts))
      → Walked tids (t ∷ ts) (elim r [ none ↦ none | some tids' ↦ enter_all bound tids' ts ])
  enter_rest t ts tids _ (stops u i long) next = stops u (ground (arith, i)) long
  enter_rest t ts tids _ (walks tids' own kept has) next =
      went_on tids tids' t ts _ kept has (next tids' own)

  enter_all-Walked :
      (ts : List ℕ) (tids : Tids) → OwnEntry tids → Walked tids ts (enter_all bound tids ts)
  unfolding enter_all
  enter_all-Walked [] tids own = walks tids own (λ t p e. e) (λ t i. absurd (ground (arith, i)))
  enter_all-Walked (t ∷ ts) tids own =
      enter_rest t ts tids (mcs_enter bound tids t) (mcs_enter-Walked tids t own)
        (λ tids' own'. enter_all-Walked ts tids' own')

  -- Where no two threads are bound to the same hardware thread, and hwloc numbers these below the size
  -- of the table: first acquisitions by any threads, in any order and with repetitions, either end the
  -- process, and then one of them is not bound to a single hardware thread, or leave each with an entry
  -- of the table that no other thread has.
  pub enter_all-Entered :
      (max_threads : ℕ) (ts : List ℕ)
      → ((t u p : ℕ) → bound t ≡ p ∷ [] → bound u ≡ p ∷ [] → t ≡ u)
      → ((t p : ℕ) → bound t ≡ p ∷ [] → p < max_threads)
      → Entered bound max_threads ts (enter_all bound (λ _. none) ts)
  unfolding mcs_held
  enter_all-Entered max_threads ts apart in_range =
      result (enter_all bound (λ _. none) ts) (enter_all-Walked ts (λ _. none) (λ t p. cc))
    where
      result : (r : Option Tids) → Walked (λ _. none) ts r → Entered bound max_threads ts r
      result _ (stops t i long) = exits t i long
      result _ (walks tids own kept has) =
          enters tids (λ t i. let (p, e) = has t i in (p, e, own t p e))
            (λ t u p e e'. apart t u p (own t p e) (own u p e')) (λ t p e. in_range t p (own t p e))
