-- ===== src/Lock/Hmcs/Whole/Safety.antt =====
-- What the whole lock of zm_hmcs.c guarantees in every reachable state.
use izem.Prelude.{
  ℕ, zero, suc, ◌≡◌, ◌≢◌, inl, inr, refl, true, false, ◌==◌, arith, ap, sym, ◌∙◌, Bool-cases,
}
use izem.Lock.Fifo.Laws.{Fifo-exclusive}
use izem.Lock.Hmcs.Level.{Ptr, null, node_of, spin, critical, role_of}
use izem.Lock.Hmcs.Whole.{Plan, owner, Hmcs, HmcsReach, new_hmcs, nowaiters_helper, nowaiters}
use izem.Lock.Hmcs.Whole.Invariant.{IsTree, HmcsInv, level_exclusive, owns_root, owns_parent}
use izem.Lock.Hmcs.Whole.Keeps.{HmcsReach-HmcsInv}

module _ {f : Plan} {depth : ℕ → ℕ} (tree : IsTree f depth) {n : ℕ} {status : Ptr → ℕ}
    {next : Ptr → Ptr} {h : Hmcs} (run : HmcsReach f n (new_hmcs status next) h) where
  -- The two paths meet at the root.
  slow_fast :
      (t u k l : ℕ)
      → f.is_node t ≡ false
      → f.is_node u ≡ false
      → (h.node (f.leaf t)).pc t ≡ critical k
      → (h.node f.root).pc u ≡ critical l
      → t ≡ u
  slow_fast t u k l is is' e e' =
      let inv = HmcsReach-HmcsInv tree run in
      let (b, j, has, who) =
        owns_root tree inv (depth (f.leaf t)) (f.leaf t) t k (tree.leaf_node t is) refl e in
      let same = Fifo-exclusive (inv.nodes f.root).fifo b u j l (ap role_of has) (ap role_of e') in
      elim who [
        | inl (top, self) ↦ self ∙ same
        | inr node ↦
            let x : f.is_node u ≡ true = ap f.is_node (sym same) ∙ node in absurd (ground arith)
      ]

  -- In a tree of any depth whose leaves are equally deep, with thresholds of at least 1 and below
  -- `ACQUIRE_PARENT`: no two threads own the lock together, whichever of the two paths they took and
  -- whether by `zm_hmcs_acquire` or `zm_hmcs_tryacq`.
  pub hmcs_lock_exclusive :
      (t u : ℕ)
      → f.is_node t ≡ false
      → f.is_node u ≡ false
      → h.spot t ≡ owner
      → h.spot u ≡ owner
      → t ≡ u
  hmcs_lock_exclusive t u is is' e e' =
      let inv = HmcsReach-HmcsInv tree run in
      let (k, has) = inv.owns t is e in
      let (l, has') = inv.owns u is' e' in
      elim (Bool-cases (h.took t)) [
        | inl fast ↦ elim (Bool-cases (h.took u)) [
          | inl fast' ↦
              Fifo-exclusive (inv.nodes f.root).fifo t u k l (ap role_of (rw fast at has))
                (ap role_of (rw fast' at has'))
          | inr slow' ↦ sym (slow_fast u t l k is' is (rw slow' at has') (rw fast at has))
        ]
        | inr slow ↦ elim (Bool-cases (h.took u)) [
          | inl fast' ↦ slow_fast t u k l is is' (rw slow at has) (rw fast' at has')
          | inr slow' ↦
              (level_exclusive tree inv (depth (f.leaf u)) (f.leaf t) (f.leaf u) t u k l
                (tree.leaf_node t is) (tree.leaf_node u is') (tree.leaf_depth t u is is') refl
                (rw slow at has) (rw slow' at has')).1
        ]
      ]

-- At some node, one number spins right behind another that is past its acquisition there.
abbrev pub Waited : Hmcs → Type 0
Waited h = (p a b k : ℕ) × ((h.node p).pc a ≡ critical k) × ((h.node p).pc b ≡ spin (suc k))

module _ {f : Plan} {depth : ℕ → ℕ} (tree : IsTree f depth) {n : ℕ} {h : Hmcs}
    (inv : HmcsInv f n h) where
  next_waits :
      (p a k : ℕ)
      → (h.node p).pc a ≡ critical k
      → ((h.node p).mem.next (node_of a) == null) ≡ false
      → Waited h
  next_waits p a k at e = (p, a, _, k, at, (inv.nodes p).linked a k (ground arith) (ground arith))

  nowaiters_helper-false :
      (level p a k : ℕ)
      → f.is_node p ≡ true
      → level ≡ suc (depth p)
      → (h.node p).pc a ≡ critical k
      → nowaiters_helper f h level p a ≡ false
      → Waited h
  unfolding nowaiters_helper
  nowaiters_helper-false zero p a k is deep at e = absurd (omega (arith, deep))
  nowaiters_helper-false (suc zero) p a k is deep at e = next_waits p a k at e
  nowaiters_helper-false (suc (suc level)) p a k is deep at e =
      elim (Bool-cases ((h.node p).mem.next (node_of a) == null)) [
        | inl last ↦
            let ne : p ≢ f.root =
              λ same. (let z : depth p ≡ 0 = ap depth same ∙ tree.root_depth in omega arith) in
            let (l, up) = owns_parent tree inv p a k is ne at in
            nowaiters_helper-false (suc level) (f.parent p) p l (tree.parent_node p is ne)
              (omega (arith, tree.deeper p is ne)) up (rw last at e)
        | inr more ↦ next_waits p a k at more
      ]

module _ {f : Plan} {depth : ℕ → ℕ} (tree : IsTree f depth) {n : ℕ} {status : Ptr → ℕ}
    {next : Ptr → Ptr} {h : Hmcs} (run : HmcsReach f n (new_hmcs status next) h) where
  -- In such a tree, `zm_hmcs_nowaiters` never denies a waiter that is not there: when the owner gets
  -- the answer no, at some node a number spins right behind one that is past its acquisition.
  pub hmcs_nowaiters-false :
      (level t : ℕ)
      → f.is_node t ≡ false
      → level ≡ suc (depth (f.leaf t))
      → h.spot t ≡ owner
      → nowaiters f h level t ≡ false
      → Waited h
  unfolding nowaiters
  hmcs_nowaiters-false level t is deep at e =
      let inv = HmcsReach-HmcsInv tree run in
      let (k, has) = inv.owns t is at in
      elim (Bool-cases (h.took t)) [
        | inl fast ↦ next_waits tree inv f.root t k (rw fast at has) (rw fast at e)
        | inr slow ↦
            nowaiters_helper-false tree inv level (f.leaf t) t k (tree.leaf_node t is) deep
              (rw slow at has) (rw slow at e)
      ]
