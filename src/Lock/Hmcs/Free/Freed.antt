-- ===== src/Lock/Hmcs/Free/Freed.antt =====
-- Which nodes of the tree `free_lock` of zm_hmcs.c frees, and when its assertion fails.
use izem.Prelude.{
  ℕ, ◌*◌, ◌<◌, ◌≤◌, ◌≡◌, refl, ◌⊎◌, inl, inr, true, Option, none, some, List, [], ◌∷◌, length,
  member, arith, ◌==◌, Bool-cases,
}
use izem.Lock.Hmcs.Free.{Outcome, found, aborted, out_of_fuel, search_all, free_lock}
use izem.Lock.Hmcs.Free.Walk.{
  Reached, at_leaf, above, SomeNodes, Held, Searched, walked, stopped, search-Searched,
}

-- What is said of the outcome: all nodes of the tree are freed, each once, and they are fewer than
-- twice the threads; or the assertion failed, and there are at least as many.
pub data Destroyed (parent : ℕ → Option ℕ) (starts : List ℕ) (max_threads : ℕ)
    : Outcome → Type 0 where
  freed :
      (nodes : List ℕ)
      → SomeNodes parent starts nodes
      → ((c : ℕ) → Reached parent starts c → member c nodes ≡ true)
      → length nodes < 2 * max_threads
      → Destroyed parent starts max_threads (found nodes)
  too_many :
      (nodes : List ℕ)
      → SomeNodes parent starts nodes
      → 2 * max_threads ≤ length nodes
      → Destroyed parent starts max_threads aborted

module _ (parent : ℕ → Option ℕ) (starts : List ℕ) (max_threads : ℕ) where
  -- When the walks have ended, they have been at every node.
  closed-Reached :
      (nodes : List ℕ)
      → Held parent starts max_threads none nodes
      → ((s : ℕ) → member s starts ≡ true → (member s [] ≡ true) ⊎ (member s nodes ≡ true))
      → (c : ℕ) → Reached parent starts c
      → member c nodes ≡ true
  closed-Reached nodes held cover _ (at_leaf c i) = elim (cover c i) [
    | inl no_more ↦ cc
    | inr k ↦ k
  ]
  closed-Reached nodes held cover _ (above q c r e) =
      elim (held.closed q c (closed-Reached nodes held cover q r) e) [ inl k ↦ k | inr e' ↦ cc ]

  all_round :
      (fuel s : ℕ) (left nodes : List ℕ) (o : Outcome)
      → ((t : ℕ) → member t (s ∷ left) ≡ true → member t starts ≡ true)
      → ((t : ℕ) → member t starts ≡ true → (member t (s ∷ left) ≡ true) ⊎ (member t nodes ≡ true))
      → Searched parent starts max_threads (some s) nodes o
      → ((more : List ℕ)
          → ((t : ℕ) → member t left ≡ true → member t starts ≡ true)
          → ((t : ℕ) → member t starts ≡ true → (member t left ≡ true) ⊎ (member t more ≡ true))
          → Held parent starts max_threads none more
          → Destroyed parent starts max_threads (search_all parent max_threads fuel left more))
      → Destroyed parent starts max_threads (elim o [
        | found more ↦ search_all parent max_threads fuel left more
        | aborted ↦ aborted
        | out_of_fuel ↦ out_of_fuel
      ])
  all_round fuel s left nodes _ sub cover (walked more held old self) next =
      next more (λ t i. sub t (ground (arith, i)))
        (λ t i. elim (cover t i) [
          | inl k ↦ elim (Bool-cases (t == s)) [
            | inl same ↦ inr (ground (arith, self s refl))
            | inr other ↦ inl (ground (arith, k))
          ]
          | inr k ↦ inr (old t k)
        ])
        held
  all_round fuel s left nodes _ sub cover (stopped all some_nodes many) next =
      too_many all some_nodes many

  -- The loop over the threads.
  all-Destroyed :
      (rank : ℕ → ℕ)
      → ((p q : ℕ) → parent p ≡ some q → rank q < rank p)
      → (fuel : ℕ) → ((s : ℕ) → member s starts ≡ true → rank s < fuel)
      → (left nodes : List ℕ) → ((s : ℕ) → member s left ≡ true → member s starts ≡ true)
      → ((s : ℕ) → member s starts ≡ true → (member s left ≡ true) ⊎ (member s nodes ≡ true))
      → Held parent starts max_threads none nodes
      → Destroyed parent starts max_threads (search_all parent max_threads fuel left nodes)
  unfolding search_all
  all-Destroyed rank lower fuel enough [] nodes sub cover held =
      freed nodes held.some_nodes (closed-Reached nodes held cover) held.few
  all-Destroyed rank lower fuel enough (s ∷ left) nodes sub cover held =
      all_round fuel s left nodes _ sub cover
        (search-Searched parent starts max_threads rank lower fuel (some s) nodes
          (λ p e. at_leaf p (sub p (ground (arith, e))))
          (λ p e. enough p (sub p (ground (arith, e))))
          record {
            some_nodes = held.some_nodes;
            closed = λ c q i e. elim (held.closed c q i e) [ inl k ↦ inl k | inr e' ↦ cc ];
            few = held.few;
          })
        (λ more sub' cover' held'. all-Destroyed rank lower fuel enough left more sub' cover' held')

  -- On a tree whose parents go down in rank to the root, with more fuel than the rank of any leaf's node and at
  -- least one thread, `free_lock` ends: it frees every node of the tree, each once, and these are
  -- fewer than twice the threads; or its assertion fails, and the tree has at least as many nodes.
  pub free_lock-Destroyed :
      (rank : ℕ → ℕ)
      → ((p q : ℕ) → parent p ≡ some q → rank q < rank p)
      → (fuel : ℕ) → ((s : ℕ) → member s starts ≡ true → rank s < fuel)
      → 0 < max_threads
      → Destroyed parent starts max_threads (free_lock parent max_threads fuel starts)
  unfolding free_lock
  free_lock-Destroyed rank lower fuel enough pos =
      all-Destroyed rank lower fuel enough starts [] (λ s i. i) (λ s i. inl i)
        record {
          some_nodes = record { distinct = tt; reached = λ c. cc };
          closed = λ c q. cc;
          few = omega (arith, pos);
        }
