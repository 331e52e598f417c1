-- ===== src/Lock/Hmcs/Whole/Invariant.antt =====
-- What holds of the whole lock of zm_hmcs.c: the invariant of each node, the hold of each node on its
-- parent, and the places of the threads.
use izem.Prelude.{
  ℕ, zero, suc, ◌≡◌, ◌≢◌, ◌⊎◌, inl, inr, refl, Bool, true, false, arith, ℕ_discrete, ap, sym, ◌∙◌,
  Bool-cases,
}
use mathlib.Core.Path.{subst}
use izem.Lock.Fifo.Laws.{Fifo-exclusive}
use izem.Lock.Hmcs.Level.{IsFit, critical, descending, role_of}
use izem.Lock.Hmcs.Level.Held.{descends}
use izem.Lock.Hmcs.Level.Invariant.{Inv}
use izem.Lock.Hmcs.Level.Coupling.{Coupling, descending_of}
use izem.Lock.Hmcs.Whole.{
  Plan, Spot, outside, tested, entering, acquiring, owner, releasing, Hmcs, base,
}

-- A tree: the threshold of every node fits, the root and no other node is the root, every other node
-- is one below its parent, and all threads start at the same depth.
pub record IsTree (f : Plan) (depth : ℕ → ℕ) : Type 0 where
  pub fit : (p : ℕ) → IsFit (f.config p)
  pub root_node : f.is_node f.root ≡ true
  pub root_depth : depth f.root ≡ 0
  pub not_root : (c : ℕ) → f.is_node c ≡ true → c ≢ f.root → (f.config c).root ≡ false
  pub deeper : (c : ℕ) → f.is_node c ≡ true → c ≢ f.root → depth c ≡ suc (depth (f.parent c))
  pub parent_node : (c : ℕ) → f.is_node c ≡ true → c ≢ f.root → f.is_node (f.parent c) ≡ true
  pub leaf_node : (t : ℕ) → f.is_node t ≡ false → f.is_node (f.leaf t) ≡ true
  pub leaf_depth :
      (t u : ℕ) → f.is_node t ≡ false → f.is_node u ≡ false → depth (f.leaf t) ≡ depth (f.leaf u)

-- What `took_fast_path` is at each place.
abbrev pub Took : Spot → Bool → Type 0
Took outside b = b ≡ false
Took (tested try) b = b ≡ false
Took (entering try fast) b = (try ≡ false → b ≡ fast) × (try ≡ true → (fast ≡ true) × (b ≡ false))
Took (acquiring try fast) b = (try ≡ false → b ≡ fast) × (try ≡ true → (fast ≡ true) × (b ≡ false))
Took owner b = Unit
Took (releasing fast) b = b ≡ fast

pub record HmcsInv (f : Plan) (n : ℕ) (h : Hmcs) : Type 0 where
  pub nodes : (p : ℕ) → Inv (f.config p) n (h.node p)
  pub coupled :
      (c : ℕ) → f.is_node c ≡ true → c ≢ f.root → Coupling (h.node (f.parent c)) c (h.node c)
  pub took : (t : ℕ) → Took (h.spot t) (h.took t)
  pub owns :
      (t : ℕ)
      → f.is_node t ≡ false
      → h.spot t ≡ owner
      → (k : ℕ) × ((h.node (base f t (h.took t))).pc t ≡ critical k)

module _ {f : Plan} {depth : ℕ → ℕ} (tree : IsTree f depth) {n : ℕ} {h : Hmcs}
    (inv : HmcsInv f n h) where
  -- Whoever is past its acquisition of a node below the root has that node past the acquisition of
  -- its parent.
  pub owns_parent :
      (c i k : ℕ)
      → f.is_node c ≡ true
      → c ≢ f.root
      → (h.node c).pc i ≡ critical k
      → (l : ℕ) × ((h.node (f.parent c)).pc c ≡ critical l)
  owns_parent c i k is ne e =
      let low = tree.not_root c is ne in
      inv.coupled c is ne (ground (arith, (inv.nodes c).locals i)) (λ j.
        elim (Bool-cases (descends ((h.node c).pc j))) [
          | inl d ↦
              let (a, q) = descending_of ((h.node c).pc j) d in
              let same = Fifo-exclusive (inv.nodes c).fifo i j k a (ap role_of e) (ap role_of q) in
              let q' : (h.node c).pc i ≡ descending a = ap (h.node c).pc same ∙ q in
              absurd (ground arith)
          | inr d ↦ d
        ])

  -- A node without depth is the root.
  root_of_depth : (p : ℕ) → f.is_node p ≡ true → depth p ≡ 0 → p ≡ f.root
  root_of_depth p is e = elim (ℕ_discrete p f.root) [
    | yes same ↦ same
    | no ne ↦ absurd (omega (arith, tree.deeper p is ne, e))
  ]

  not_root_of_depth : (p d : ℕ) → depth p ≡ suc d → p ≢ f.root
  not_root_of_depth p d e same =
      let e' : depth p ≡ 0 = ap depth same ∙ tree.root_depth in omega arith

  -- At one depth, one number is past its acquisition of one node.
  pub level_exclusive :
      (d p q a b k l : ℕ)
      → f.is_node p ≡ true
      → f.is_node q ≡ true
      → depth p ≡ d
      → depth q ≡ d
      → (h.node p).pc a ≡ critical k
      → (h.node q).pc b ≡ critical l
      → (p ≡ q) × (a ≡ b)
  level_exclusive zero p q a b k l is is' e e' at at' =
      let same : p ≡ q = root_of_depth p is e ∙ sym (root_of_depth q is' e') in
      let at'' : (h.node q).pc a ≡ critical k = subst (λ x. (h.node x).pc a ≡ critical k) same at in
      (same, Fifo-exclusive (inv.nodes q).fifo a b k l (ap role_of at'') (ap role_of at'))
  level_exclusive (suc d) p q a b k l is is' e e' at at' =
      let ne = not_root_of_depth p d e in
      let ne' = not_root_of_depth q d e' in
      let (x, up) = owns_parent p a k is ne at in
      let (y, up') = owns_parent q b l is' ne' at' in
      let above =
        level_exclusive d (f.parent p) (f.parent q) p q x y (tree.parent_node p is ne)
          (tree.parent_node q is' ne') (omega (arith, tree.deeper p is ne))
          (omega (arith, tree.deeper q is' ne')) up up' in
      let at'' : (h.node q).pc a ≡ critical k =
        subst (λ x. (h.node x).pc a ≡ critical k) above.1 at in
      (above.1, Fifo-exclusive (inv.nodes q).fifo a b k l (ap role_of at'') (ap role_of at'))

  -- Whoever is past its acquisition of a node has the root, by itself or by a node.
  pub owns_root :
      (d p a k : ℕ)
      → f.is_node p ≡ true
      → depth p ≡ d
      → (h.node p).pc a ≡ critical k
      → (b l : ℕ) × ((h.node f.root).pc b ≡ critical l)
        × (((p ≡ f.root) × (a ≡ b)) ⊎ (f.is_node b ≡ true))
  owns_root zero p a k is e at =
      let same = root_of_depth p is e in
      (a, k, subst (λ x. (h.node x).pc a ≡ critical k) same at, inl (same, refl))
  owns_root (suc d) p a k is e at =
      let ne = not_root_of_depth p d e in
      let (x, up) = owns_parent p a k is ne at in
      let (b, l, has, who) =
        owns_root d (f.parent p) p x (tree.parent_node p is ne) (omega (arith, tree.deeper p is ne))
          up in
      (
        b,
        l,
        has,
        elim who [ inl (top, same) ↦ inr (ap f.is_node (sym same) ∙ is) | inr node ↦ inr node ],
      )
