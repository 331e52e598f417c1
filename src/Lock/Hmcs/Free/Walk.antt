-- ===== src/Lock/Hmcs/Free/Walk.antt =====
-- One walk of `search_nodes_rec` of zm_hmcs.c.
use izem.Prelude.{
  ℕ, zero, suc, ◌*◌, ◌<◌, ◌≤◌, ◌≡◌, refl, ◌⊎◌, inl, inr, sym, ap, ◌∙◌, true, false, Option, none,
  some, List, [], ◌∷◌, ◌++◌, length, member, Distinct, member-append, Distinct-snoc, length-append,
  ltb, arith, Bool-cases,
}
use mathlib.Core.Path.{subst}
use izem.Lock.Hmcs.Free.{Outcome, found, aborted, mark_node, search}

-- A node is that of a leaf, or above one.
pub data Reached (parent : ℕ → Option ℕ) (starts : List ℕ) : ℕ → Type 0 where
  at_leaf : (p : ℕ) → member p starts ≡ true → Reached parent starts p
  above : (q p : ℕ) → Reached parent starts q → parent q ≡ some p → Reached parent starts p

-- Distinct nodes of the tree.
pub record SomeNodes (parent : ℕ → Option ℕ) (starts : List ℕ) (nodes : List ℕ) : Type 0 where
  pub distinct : Distinct nodes
  pub reached : (c : ℕ) → member c nodes ≡ true → Reached parent starts c

module _ (parent : ℕ → Option ℕ) (starts : List ℕ) (max_threads : ℕ) where
  -- Between two rounds of the walk, which is at `node`.
  pub record Held (node : Option ℕ) (nodes : List ℕ) : Type 0 where
    pub some_nodes : SomeNodes parent starts nodes
    pub closed :
        (c q : ℕ)
        → member c nodes ≡ true
        → parent c ≡ some q
        → (member q nodes ≡ true) ⊎ (node ≡ some q)
    pub few : length nodes < 2 * max_threads

  pub data Searched (node : Option ℕ) (nodes : List ℕ) : Outcome → Type 0 where
    walked :
        (more : List ℕ)
        → Held none more
        → ((c : ℕ) → member c nodes ≡ true → member c more ≡ true)
        → ((p : ℕ) → node ≡ some p → member p more ≡ true)
        → Searched node nodes (found more)
    stopped :
        (all : List ℕ)
        → SomeNodes parent starts all
        → 2 * max_threads ≤ length all
        → Searched node nodes aborted

  with_node :
      (p : ℕ) (nodes : List ℕ)
      → Reached parent starts p
      → SomeNodes parent starts nodes
      → member p nodes ≡ false
      → SomeNodes parent starts (nodes ++ p ∷ [])
  with_node p nodes at s out = record {
    distinct = Distinct-snoc nodes p s.distinct out;
    reached = λ c i. elim (Bool-cases (member c nodes)) [
      | inl old ↦ s.reached c old
      | inr new ↦
          let e : c ≡ p = ground (arith, member-append c nodes (p ∷ [])) in
          subst (Reached parent starts) (sym e) at
    ];
  }

  -- One round of the walk.
  data Marked (p : ℕ) (nodes : List ℕ) : Option (List ℕ) → Type 0 where
    marked :
        (more : List ℕ)
        → Held (parent p) more
        → ((c : ℕ) → member c nodes ≡ true → member c more ≡ true)
        → member p more ≡ true
        → Marked p nodes (some more)
    full :
        SomeNodes parent starts (nodes ++ p ∷ [])
        → 2 * max_threads ≤ suc (length nodes)
        → Marked p nodes none

  extended :
      (p : ℕ) (nodes : List ℕ)
      → Reached parent starts p
      → Held (some p) nodes
      → member p nodes ≡ false
      → ltb (suc (length nodes)) (2 * max_threads) ≡ true
      → Held (parent p) (nodes ++ p ∷ [])
  extended p nodes at held new room = record {
    some_nodes = with_node p nodes at held.some_nodes new;
    closed = λ c q i e. elim (Bool-cases (member c nodes)) [
      | inl old ↦ elim (held.closed c q old e) [
        | inl k ↦ inl (ground (arith, k, member-append q nodes (p ∷ [])))
        | inr same ↦ inl (ground (arith, same, member-append q nodes (p ∷ [])))
      ]
      | inr out ↦
          let is : c ≡ p = ground (arith, member-append c nodes (p ∷ [])) in
          inr (ap parent (sym is) ∙ e)
    ];
    few =
        let fits : suc (length nodes) < 2 * max_threads = ground arith in
        omega (arith, length-append nodes (p ∷ []), fits);
  }

  mark_node-Marked :
      (p : ℕ) (nodes : List ℕ)
      → Reached parent starts p
      → Held (some p) nodes
      → Marked p nodes (mark_node max_threads p nodes)
  unfolding mark_node
  mark_node-Marked p nodes at held = elim (Bool-cases (member p nodes)) [
    | inl old ↦ rw old (
        marked nodes
          record {
            some_nodes = held.some_nodes;
            closed = λ c q i e. elim (held.closed c q i e) [
              | inl k ↦ inl k
              | inr same ↦ inl (ground (arith, old, same))
            ];
            few = held.few;
          }
          (λ c i. i) old)
    | inr new ↦ elim (Bool-cases (ltb (suc (length nodes)) (2 * max_threads))) [
      | inl room ↦ rw new (
          rw room (
            marked (nodes ++ p ∷ []) (extended p nodes at held new room)
              (λ c i. ground (arith, i, member-append c nodes (p ∷ [])))
              (ground (arith, member-append p nodes (p ∷ [])))))
      | inr no_room ↦
          rw new (rw no_room (full (with_node p nodes at held.some_nodes new) (ground arith)))
    ]
  ]

  went :
      (p : ℕ) (nodes more : List ℕ) (o : Outcome)
      → Searched (parent p) more o
      → ((c : ℕ) → member c nodes ≡ true → member c more ≡ true)
      → member p more ≡ true
      → Searched (some p) nodes o
  went p nodes more _ (walked all held keep here) old self =
      walked all held (λ c i. keep c (old c i)) (λ q e. ground (arith, keep p self, e))
  went p nodes more _ (stopped all s many) old self = stopped all s many

  next_round :
      (p : ℕ) (nodes : List ℕ) (fuel : ℕ) (r : Option (List ℕ))
      → Marked p nodes r
      → ((more : List ℕ)
          → Held (parent p) more
          → Searched (parent p) more (search parent max_threads fuel (parent p) more))
      → Searched
          (some p)
          nodes
          (elim r [ none ↦ aborted | some more ↦ search parent max_threads fuel (parent p) more ])
  next_round p nodes fuel none (full all many) next =
      stopped (nodes ++ p ∷ []) all (omega (arith, many, length-append nodes (p ∷ [])))
  next_round p nodes fuel (some more) (marked _ held old self) next =
      went p nodes more _ (next more held) old self

  pub search-Searched :
      (rank : ℕ → ℕ)
      → ((p q : ℕ) → parent p ≡ some q → rank q < rank p)
      → (fuel : ℕ) (node : Option ℕ) (nodes : List ℕ)
      → ((p : ℕ) → node ≡ some p → Reached parent starts p)
      → ((p : ℕ) → node ≡ some p → rank p < fuel)
      → Held node nodes
      → Searched node nodes (search parent max_threads fuel node nodes)
  unfolding search
  search-Searched rank lower fuel none nodes at enough held = walked nodes held (λ c i. i) (λ p. cc)
  search-Searched rank lower zero (some p) nodes at enough held =
      let z : rank p < 0 = enough p refl in absurd (omega (arith, z))
  search-Searched rank lower (suc fuel) (some p) nodes at enough held =
      let enough' : rank p < suc fuel = enough p refl in
      next_round p nodes fuel (mark_node max_threads p nodes)
        (mark_node-Marked p nodes (at p refl) held)
        (λ more.
          search-Searched rank lower fuel (parent p) more (λ q e. above p q (at p refl) e)
            (λ q e. let l = lower p q e in omega (arith, l, enough')))
