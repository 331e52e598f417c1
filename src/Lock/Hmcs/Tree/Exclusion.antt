-- ===== src/Lock/Hmcs/Tree/Exclusion.antt =====
-- Exclusion at a node of zm_hmcs.c carries over to all the nodes below it.
use izem.Prelude.{ℕ, ◌≡◌, ◌≢◌, ap, ◌∙◌, true, false, arith, inl, inr, Bool-cases}
use mathlib.Core.Path.{subst}
use izem.Prelude.Family.{put, put_all}
use izem.Interleave.{State}
use izem.Lock.Fifo.Laws.{Fifo-exclusive}
use izem.Lock.Hmcs.Level.{Ptr, IsFit, Level, Pc, critical, descending, role_of}
use izem.Lock.Hmcs.Level.Held.{descends}
use izem.Lock.Hmcs.Level.Coupling.{Coupling, descending_of, child_keeps, parent_keeps}
use izem.Lock.Hmcs.Level.Invariant.{Inv}
use izem.Lock.Hmcs.Level.Keeps.{Inv-init, Move-Inv}
use izem.Lock.Hmcs.Tree.{
  Tree, Shape, Descends, TreeStep, at_child, at_parent, TreeReach, start, later, new_tree,
}

-- The thresholds of all nodes fit, and the children are not the root.
pub record Fits (f : Shape) : Type 0 where
  pub top : IsFit f.top
  pub below : (c : ℕ) → IsFit (f.below c)
  pub not_root : (c : ℕ) → (f.below c).root ≡ false

record TreeInv (f : Shape) (n : ℕ) (t : Tree) : Type 0 where
  top : Inv f.top n t.parent
  below : (c : ℕ) → Inv (f.below c) n (t.child c)
  coupled : (c : ℕ) → f.is_child c ≡ true → Coupling t.parent c (t.child c)

-- A state of one node with its own move made.
abbrev moved : State Level Pc → ℕ → Level → Pc → State Level Pc
moved s i m p = record { mem = m; pc = put s.pc i p }

TreeStep-TreeInv :
    {f : Shape} (fits : Fits f) {n : ℕ} {t u : Tree}
    → TreeInv f n t
    → TreeStep f n t u
    → TreeInv f n u
TreeStep-TreeInv {f} fits {n} {t} inv (at_child c i {m} {p} is lt mv up down) = record {
  top = inv.top;
  below =
      put_all (λ d s. Inv (f.below d) n s) t.child c (moved (t.child c) i m p)
        (Move-Inv (fits.below c) (inv.below c) i lt mv) (λ d ne. inv.below d);
  coupled =
      put_all (λ d s. f.is_child d ≡ true → Coupling t.parent d s) t.child c
        (moved (t.child c) i m p)
        (λ is'. child_keeps t.parent c (t.child c) (inv.coupled c is') i mv up)
        (λ d ne. inv.coupled d);
}
TreeStep-TreeInv {f} fits {n} {t} inv (at_parent a {m} {p} lt mv down) = record {
  top = Move-Inv fits.top inv.top a lt mv;
  below = inv.below;
  coupled = λ c is.
      parent_keeps t.parent c (t.child c) (inv.coupled c is) a m p
        (λ k same e. subst (λ b. Descends (t.child b)) same (down k (ap f.is_child same ∙ is) e));
}

TreeInv-new :
    (f : Shape) (n : ℕ) (status : Ptr → ℕ) (next : Ptr → Ptr) → TreeInv f n (new_tree status next)
TreeInv-new f n status next = record {
  top = Inv-init f.top n status next;
  below = λ c. Inv-init (f.below c) n status next;
  coupled = λ c is h none. absurd (ground arith);
}

TreeReach-TreeInv :
    {f : Shape} (fits : Fits f) {n : ℕ} {status : Ptr → ℕ} {next : Ptr → Ptr} {t : Tree}
    → TreeReach f n (new_tree status next) t
    → TreeInv f n t
TreeReach-TreeInv {f} fits {n} {status} {next} start = TreeInv-new f n status next
TreeReach-TreeInv fits (later run st) = TreeStep-TreeInv fits (TreeReach-TreeInv fits run) st

module _ {f : Shape} (fits : Fits f) {n : ℕ} {status : Ptr → ℕ} {next : Ptr → Ptr} {t : Tree}
    (run : TreeReach f n (new_tree status next) t) where
  -- Whoever is past its acquisition of a child has it past the acquisition of the parent.
  owns_parent :
      (c i k : ℕ)
      → f.is_child c ≡ true
      → (t.child c).pc i ≡ critical k
      → (l : ℕ) × (t.parent.pc c ≡ critical l)
  owns_parent c i k is e =
      let inv = TreeReach-TreeInv fits run in
      let root = fits.not_root c in
      inv.coupled c is (ground (arith, (inv.below c).locals i)) (λ j.
        elim (Bool-cases (descends ((t.child c).pc j))) [
          | inl d ↦
              let (a, q) = descending_of ((t.child c).pc j) d in
              let same = Fifo-exclusive (inv.below c).fifo i j k a (ap role_of e) (ap role_of q) in
              let q' : (t.child c).pc i ≡ descending a = ap (t.child c).pc same ∙ q in
              absurd (ground arith)
          | inr d ↦ d
        ])

  -- With thresholds of at least 1 and below `ACQUIRE_PARENT`: two threads are never past their
  -- acquisitions of children of the same node together, neither at two children nor at one.
  pub hmcs_exclusive :
      (c d i j k l : ℕ)
      → f.is_child c ≡ true
      → f.is_child d ≡ true
      → (t.child c).pc i ≡ critical k
      → (t.child d).pc j ≡ critical l
      → (c ≡ d) × (i ≡ j)
  hmcs_exclusive c d i j k l is is' e e' =
      let inv = TreeReach-TreeInv fits run in
      let (a, p) = owns_parent c i k is e in
      let (b, q) = owns_parent d j l is' e' in
      let same = Fifo-exclusive inv.top.fifo c d a b (ap role_of p) (ap role_of q) in
      (
        same,
        Fifo-exclusive (inv.below d).fifo i j k l
            (ap role_of (subst (λ x. (t.child x).pc i ≡ critical k) same e)) (ap role_of e'),
      )

  -- With such thresholds, no thread is past an acquisition of a child while another has the parent
  -- by the fast path.
  pub hmcs_fast_path :
      (c i k a l : ℕ)
      → f.is_child c ≡ true
      → f.is_child a ≡ false
      → (t.child c).pc i ≡ critical k
      → t.parent.pc a ≢ critical l
  hmcs_fast_path c i k a l is fast e e' =
      let inv = TreeReach-TreeInv fits run in
      let (b, p) = owns_parent c i k is e in
      let same = Fifo-exclusive inv.top.fifo c a b l (ap role_of p) (ap role_of e') in
      let x : f.is_child c ≡ f.is_child a = ap f.is_child same in ground arith
