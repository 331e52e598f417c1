-- ===== src/Lock/Hmcs/Whole/Keeps.antt =====
-- Every step of the whole lock of zm_hmcs.c keeps the invariant.
use izem.Prelude.{
  ℕ, ◌<◌, ◌≡◌, ◌≢◌, inl, inr, refl, Bool, true, false, ◌&&◌, not, ◌==◌, if◌then◌else◌, arith,
  ℕ_discrete, ap, sym, ◌∙◌, Bool-cases,
}
use mathlib.Core.Path.{subst}
use izem.Prelude.Family.{put, put_all, put_same, put_other}
use izem.Interleave.{State}
use izem.Lock.Hmcs.Level.{Ptr, Level, Pc, reusing, climbing, critical, set_wait, Move, reuse_status}
use izem.Lock.Hmcs.Level.Coupling.{Coupling, Coupling-cong, child_keeps, parent_keeps}
use izem.Lock.Hmcs.Level.Invariant.{Inv}
use izem.Lock.Hmcs.Level.Keeps.{Inv-init, Move-Inv}
use izem.Lock.Hmcs.Whole.{
  Plan, Spot, outside, tested, entering, acquiring, owner, releasing, Hmcs, base, Descends, Caller,
  by_acquire, by_release, by_node, moved, to_spot, HmcsStep, test_leaf, test_root, begin, move,
  enter, fail, release, leave, HmcsReach, start, later, new_hmcs,
}
use izem.Lock.Hmcs.Whole.Invariant.{IsTree, Took, HmcsInv}

module _ {f : Plan} {depth : ℕ → ℕ} (tree : IsTree f depth) {n : ℕ} {h : Hmcs}
    (inv : HmcsInv f n h) where
  -- A thread goes to another place.
  to_spot-HmcsInv :
      (t : ℕ) (s : Spot) (b : Bool)
      → Took s b
      → (s ≡ owner → (k : ℕ) × ((h.node (base f t b)).pc t ≡ critical k))
      → HmcsInv f n (to_spot h t s b)
  to_spot-HmcsInv t s b flag has = record {
    nodes = inv.nodes;
    coupled = inv.coupled;
    took = λ u. took_of u;
    owns = λ u is e. owns_of u is e;
  }
    where
      took_of : (u : ℕ) → Took (put h.spot t s u) (put h.took t b u)
      took_of u = elim (Bool-cases (t == u)) [
        | inl same ↦ rw same flag
        | inr other ↦ rw other (inv.took u)
      ]

      owns_of :
          (u : ℕ)
          → f.is_node u ≡ false
          → put h.spot t s u ≡ owner
          → (k : ℕ) × ((h.node (base f u (put h.took t b u))).pc u ≡ critical k)
      owns_of u is e = elim (Bool-cases (t == u)) [
        | inl same ↦
            let eq : t ≡ u = ground arith in
            let e' : s ≡ owner = rw same at e in
            rw same (subst (λ v. (k : ℕ) × ((h.node (base f v b)).pc v ≡ critical k)) eq (has e'))
        | inr other ↦ let e' : h.spot u ≡ owner = rw other at e in rw other (inv.owns u is e')
      ]

  -- A node is never its own parent.
  parent_ne : (c : ℕ) → f.is_node c ≡ true → c ≢ f.root → f.parent c ≢ c
  parent_ne c is ne e =
      let d = tree.deeper c is ne in
      let d' : depth (f.parent c) ≡ depth c = ap depth e in omega (arith, d, d')

  -- A number moves at a node; neither an owner's own, nor a node's that does not release it.
  moved-HmcsInv :
      (p a : ℕ) {m : Level} {q : Pc}
      → a < n
      → Move (f.config p) a (h.node p).mem ((h.node p).pc a) m q
      → ((k : ℕ)
          → (h.node p).pc a ≡ climbing k
          → (l : ℕ) × ((h.node (f.parent p)).pc p ≡ critical l))
      → (f.is_node a ≡ true
          → f.parent a ≡ p
          → (k : ℕ) → (h.node p).pc a ≡ critical k
          → Descends (h.node a))
      → (f.is_node a ≡ false → h.spot a ≢ owner)
      → HmcsInv f n (moved h p a m q)
  moved-HmcsInv p a {m} {q} lt mv up down busy = record {
    nodes =
        put_all (λ d s. Inv (f.config d) n s) h.node p s'
          (Move-Inv (tree.fit p) (inv.nodes p) a lt mv) (λ d ne. inv.nodes d);
    coupled = coupled_of;
    took = inv.took;
    owns = owns_of;
  }
    where
      s' : State Level Pc
      s' = record { mem = m; pc = put (h.node p).pc a q }

      at_parent :
          (c : ℕ) → f.is_node c ≡ true → c ≢ f.root → f.parent c ≡ p → Coupling s' c (h.node c)
      at_parent c is ne e =
          let old : Coupling (h.node p) c (h.node c) =
            subst (λ x. Coupling (h.node x) c (h.node c)) e (inv.coupled c is ne) in
          parent_keeps (h.node p) c (h.node c) old a m q (λ k same at.
            subst (λ x. Descends (h.node x)) same
              (down (ap f.is_node same ∙ is) (ap f.parent same ∙ e) k at))

      coupled_of :
          (c : ℕ)
          → f.is_node c ≡ true
          → c ≢ f.root
          → Coupling (put h.node p s' (f.parent c)) c (put h.node p s' c)
      coupled_of c is ne = elim (ℕ_discrete p c) [
        | yes same ↦
            let is_p = ap f.is_node same ∙ is in
            let ne_p : p ≢ f.root = λ e. ne (sym same ∙ e) in
            let apart : p ≢ f.parent p = λ e. parent_ne p is_p ne_p (sym e) in
            let kept =
              child_keeps (h.node (f.parent p)) p (h.node p) (inv.coupled p is_p ne_p) a mv up in
            subst (λ x. Coupling (put h.node p s' (f.parent x)) x (put h.node p s' x)) same
              (Coupling-cong p (put_other h.node p (f.parent p) s' apart) (put_same h.node p s')
                kept)
        | no ne_c ↦ elim (ℕ_discrete p (f.parent c)) [
          | yes e ↦
              Coupling-cong c (ap (put h.node p s') (sym e) ∙ put_same h.node p s')
                (put_other h.node p c s' ne_c) (at_parent c is ne (sym e))
          | no ne_p ↦
              Coupling-cong c (put_other h.node p (f.parent c) s' ne_p)
                (put_other h.node p c s' ne_c) (inv.coupled c is ne)
        ]
      ]

      owns_of :
          (u : ℕ)
          → f.is_node u ≡ false
          → h.spot u ≡ owner
          → (k : ℕ) × ((put h.node p s' (base f u (h.took u))).pc u ≡ critical k)
      owns_of u is e =
          let (k, has) = inv.owns u is e in
          let r = base f u (h.took u) in
          elim (ℕ_discrete p r) [
            | no ne ↦ (k, ap (λ (x : State Level Pc). x.pc u) (put_other h.node p r s' ne) ∙ has)
            | yes same ↦
                let other : a ≢ u = λ e'. busy (ap f.is_node e' ∙ is) (ap h.spot e' ∙ e) in
                let here : put h.node p s' r ≡ s' =
                  ap (put h.node p s') (sym same) ∙ put_same h.node p s' in
                let old : (h.node p).pc u ≡ critical k =
                  subst (λ x. (h.node x).pc u ≡ critical k) (sym same) has in
                (
                  k,
                  ap (λ (x : State Level Pc). x.pc u) here
                      ∙ put_other (h.node p).pc a u q other
                      ∙ old,
                )
          ]

-- What the tests of the fast path leave of `took_fast_path`.
leaf_tested :
    (b try took : Bool)
    → took ≡ false
    → Took (if b then tested try else if try then outside else entering false false) took
leaf_tested true try took e = e
leaf_tested false true took e = e
leaf_tested false false took e = (λ x. e, λ x. cc)

root_tested :
    (b try took : Bool)
    → took ≡ false
    → Took
        (if b then entering try true else if try then outside else entering false false)
        (if b && not try then true else took)
root_tested true true took e = (λ x. cc, λ x. (refl, e))
root_tested true false took e = (λ x. refl, λ x. cc)
root_tested false true took e = e
root_tested false false took e = (λ x. e, λ x. cc)

-- `took_fast_path` tells the path at the end of an acquisition.
took_fast :
    (try fast took : Bool) → Took (acquiring try fast) took → (if try then true else took) ≡ fast
took_fast true fast took (plain, tried) = ground (arith, tried refl)
took_fast false fast took (plain, tried) = plain refl

-- A node's number leaves the critical section only for a release by the node, and a thread that owns
-- the lock does not move.
Caller-Descends :
    {f : Plan} {h : Hmcs} {p a : ℕ}
    → Caller f h p a
    → f.is_node a ≡ true
    → (k : ℕ) → (h.node p).pc a ≡ critical k
    → Descends (h.node a)
Caller-Descends (by_acquire try fast is s e i c) is' k at = absurd (ground arith)
Caller-Descends (by_release fast is s e i) is' k at = absurd (ground arith)
Caller-Descends (by_node is e climb descend) is' k at = descend (rw at refl)

Caller-owner :
    {f : Plan} {h : Hmcs} {p a : ℕ} → Caller f h p a → f.is_node a ≡ false → h.spot a ≢ owner
Caller-owner (by_acquire try fast is s e i c) is' o = ground arith
Caller-owner (by_release fast is s e i) is' o = ground arith
Caller-owner (by_node is e climb descend) is' o = ground arith

HmcsStep-HmcsInv :
    {f : Plan} {depth : ℕ → ℕ} (tree : IsTree f depth) {n : ℕ} {g h : Hmcs}
    → HmcsInv f n g
    → HmcsStep f n g h
    → HmcsInv f n h
HmcsStep-HmcsInv {f} tree {n} {g} inv (test_leaf t try is at) =
    to_spot-HmcsInv tree inv t _ _
      (leaf_tested _ try _ (subst (λ x. Took x (g.took t)) at (inv.took t)))
      (λ e. absurd (ground arith))
HmcsStep-HmcsInv {f} tree {n} {g} inv (test_root t try is at) =
    to_spot-HmcsInv tree inv t _ _
      (root_tested _ try _ (subst (λ x. Took x (g.took t)) at (inv.took t)))
      (λ e. absurd (ground arith))
HmcsStep-HmcsInv {f} tree {n} {g} inv (begin t try fast lt is at idle_) =
    to_spot-HmcsInv tree
      (moved-HmcsInv tree inv (base f t fast) t lt
        (subst
          (λ q.
            Move (f.config (base f t fast)) t (g.node (base f t fast)).mem q
              (set_wait t (g.node (base f t fast)).mem)
              (reusing (try && (f.config (base f t fast)).root)))
          (sym idle_) (reuse_status try))
        (λ k e. absurd (ground arith)) (λ is' e k at'. absurd (ground arith))
        (λ is' e. absurd (ground arith)))
      t (acquiring try fast) (g.took t) (subst (λ x. Took x (g.took t)) at (inv.took t))
      (λ e. absurd (ground arith))
HmcsStep-HmcsInv {f} tree {n} {g} inv (move p a lt caller mv up down) =
    moved-HmcsInv tree inv p a lt mv up (λ is e k at. Caller-Descends caller is k at)
      (Caller-owner caller)
HmcsStep-HmcsInv {f} tree {n} {g} inv (enter t try fast k is at has) =
    to_spot-HmcsInv tree inv t owner _ tt (λ e. (
      k,
      subst (λ x. (g.node (base f t x)).pc t ≡ critical k)
          (sym (took_fast try fast (g.took t) (subst (λ x. Took x (g.took t)) at (inv.took t))))
          has,
    ))
HmcsStep-HmcsInv {f} tree {n} {g} inv (fail t fast is at idle_) =
    to_spot-HmcsInv tree inv t outside _
      (let q : Took (acquiring true fast) (g.took t) =
          subst (λ x. Took x (g.took t)) at (inv.took t) in
        (q.1 refl).1)
      (λ e. absurd (ground arith))
HmcsStep-HmcsInv {f} tree {n} {g} inv (release t is at) =
    to_spot-HmcsInv tree inv t (releasing (g.took t)) _ refl (λ e. absurd (ground arith))
HmcsStep-HmcsInv {f} tree {n} {g} inv (leave t fast is at idle_) =
    to_spot-HmcsInv tree inv t outside _
      (let q : g.took t ≡ fast = subst (λ x. Took x (g.took t)) at (inv.took t) in ground arith)
      (λ e. absurd (ground arith))

HmcsInv-new :
    (f : Plan) (n : ℕ) (status : Ptr → ℕ) (next : Ptr → Ptr) → HmcsInv f n (new_hmcs status next)
HmcsInv-new f n status next = record {
  nodes = λ p. Inv-init (f.config p) n status next;
  coupled = λ c is ne h none. absurd (ground arith);
  took = λ t. refl;
  owns = λ t is e. absurd (ground arith);
}

pub HmcsReach-HmcsInv :
    {f : Plan} {depth : ℕ → ℕ} (tree : IsTree f depth) {n : ℕ} {status : Ptr → ℕ} {next : Ptr → Ptr}
    {h : Hmcs}
    → HmcsReach f n (new_hmcs status next) h
    → HmcsInv f n h
HmcsReach-HmcsInv {f} tree {n} {status} {next} start = HmcsInv-new f n status next
HmcsReach-HmcsInv tree (later run st) = HmcsStep-HmcsInv tree (HmcsReach-HmcsInv tree run) st
