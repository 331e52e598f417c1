-- ===== src/Hazard/Walk.antt =====
-- The second stage of `zm_hzdptr_scan`: two lists in one heap.
use izem.Prelude.{
  ℕ, zero, suc, ◌<◌, ◌≡◌, inl, inr, refl, true, false, [], ◌∷◌, ◌++◌, arith, ◌==◌, length,
  Bool-cases, sym, ap, ◌∙◌,
}
use mathlib.Core.Path.{subst}
use mathlib.Core.List.{append_assoc}
use izem.Heap.{Ptr, null, Heap, Ensures, Ensures-mono, Ensures-bind, load-ok}
use izem.SdList.{Node, SdList, rmnode, remove}
use izem.SdList.Segment.{Cells, has, first, IsList, SameOutside, has-append, frame, split}
use izem.SdList.Remove.{Shrunk, rmnode_lem}
use izem.SdList.Search.{contains, erase, remove-erase}
use izem.Hazard.{walk}
use izem.Hazard.Cells.{kept, unused, kept_hit, kept_miss, has-erase, length-erase}

-- Two lists that share no node.
pub record Both (h : Heap Node) (pl : SdList) (ps : Cells) (rl : SdList) (rs : Cells) : Type 0 where
  pub left : IsList h pl ps
  pub right : IsList h rl rs
  pub apart : (c : Ptr) → has c ps ≡ true → has c rs ≡ false

-- A list whose nodes a change spares stays.
pub IsList-frame :
    (h g : Heap Node) (l : SdList) (ws xs : Cells)
    → IsList h l xs
    → SameOutside ws h g
    → ((c : Ptr) → has c xs ≡ true → has c ws ≡ false)
    → IsList g l xs
IsList-frame h g l ws xs is same out = record {
  same = is.same;
  chain = frame h g null null xs is.chain (λ c i. same c (out c i));
}

module _ {h g : Heap Node} {pl rl l : SdList} {ps rs : Cells} (both : Both h pl ps rl rs) where
  pub shrink_left :
      (zs : Cells)
      → Shrunk h ps l zs g
      → ((c : Ptr) → has c ps ≡ false → has c zs ≡ false)
      → Both g l zs rl rs
  shrink_left zs (is, same, gone) less = record {
    left = is;
    right = IsList-frame h g rl ps rs both.right same (λ c i. ground (arith, both.apart c));
    apart = λ c i. ground (arith, both.apart c, less c);
  }

  pub shrink_right :
      (zs : Cells)
      → Shrunk h rs l zs g
      → ((c : Ptr) → has c rs ≡ false → has c zs ≡ false)
      → Both g pl ps l zs
  shrink_right zs (is, same, gone) less = record {
    left = IsList-frame h g pl rs ps both.left same (λ c i. ground (arith, both.apart c));
    right = is;
    apart = λ c i. ground (arith, both.apart c, less c);
  }

pub Both-right_apart :
    {h : Heap Node} {pl rl : SdList} {ps rs : Cells}
    → Both h pl ps rl rs
    → (c : Ptr) → has c rs ≡ true
    → has c ps ≡ false
Both-right_apart both c i = ground (arith, both.apart c)

-- The lists after the walk, with the cells `xs` behind it and `ys` ahead.
pub record Walked (h : Heap Node) (ps xs ys : Cells) (pl rl : SdList) (g : Heap Node) : Type 0 where
  pub both : Both g pl (unused ps ys) rl (xs ++ kept ps ys)
  pub same : (c : Ptr) → has c ps ≡ false → has c xs ≡ false → has c ys ≡ false → g c ≡ h c

abbrev pub WalkedAt : Heap Node → Cells → Cells → Cells → SdList × SdList → Heap Node → Type 0
WalkedAt h ps xs ys (pl, rl) g = Walked h ps xs ys pl rl g

-- From the state after one round to the whole walk: the cell stays.
stay :
    (h g : Heap Node) (ps xs ys : Cells) (a d : Ptr) (r : SdList × SdList) (f : Heap Node)
    → contains ps d ≡ true
    → SameOutside ps h g
    → WalkedAt g (erase ps d) (xs ++ (a, d) ∷ []) ys r f
    → WalkedAt h ps xs ((a, d) ∷ ys) r f
stay h g ps xs ys a d r f hit same w = record {
  both =
      subst (λ zs. Both f r.0 (unused (erase ps d) ys) r.1 zs)
        (append_assoc xs ((a, d) ∷ []) (kept (erase ps d) ys)
          ∙ ap (λ zs. xs ++ zs) (sym (kept_hit ps ys a d hit)))
        w.both;
  same =
      λ c i j k. ground (arith, w.same c, same c, has-erase ps d c, has-append c xs ((a, d) ∷ []));
}

-- It goes.
go :
    (h g k : Heap Node) (ps xs ys : Cells) (a d : Ptr) (r : SdList × SdList) (f : Heap Node)
    → contains ps d ≡ false
    → SameOutside ps h g
    → SameOutside (xs ++ (a, d) ∷ ys) g k
    → WalkedAt k (erase ps d) xs ys r f
    → WalkedAt h ps xs ((a, d) ∷ ys) r f
go h g k ps xs ys a d r f miss same same' w = record {
  both =
      subst (λ zs. Both f r.0 (unused (erase ps d) ys) r.1 (xs ++ zs))
        (sym (kept_miss ps ys a d miss)) w.both;
  same = λ c i j l.
      ground (arith, w.same c, same c, same' c, has-erase ps d c, has-append c xs ((a, d) ∷ ys));
}

pub walk_lem :
    (bound fuel : ℕ) (h : Heap Node) (pl rl : SdList) (ps xs ys : Cells)
    → Both h pl ps rl (xs ++ ys)
    → length ps < bound
    → length ys < fuel
    → Ensures (WalkedAt h ps xs ys) (walk bound fuel pl rl (first ys null) h)
unfolding walk
walk_lem bound zero h pl rl ps xs ys both room enough = absurd (omega arith)
walk_lem bound (suc fuel) h pl rl ps xs [] both room enough = record {
  both = both;
  same = λ c i j k. refl;
}
walk_lem bound (suc fuel) h pl rl ps xs ((a, d) ∷ ys) both room enough =
    let (front, (ne, out, at, rest), apart) = split h null null xs ((a, d) ∷ ys) both.right.chain in
    let nz : (a == null) ≡ false = ground arith in
    let room' = length-erase ps d in
    rw (nz, load-ok h a _ ne at)
      (Ensures-bind _ (WalkedAt h ps xs ((a, d) ∷ ys)) (remove bound pl d h) _
        (λ r g (found, shrunk).
          let both' = shrink_left both (erase ps d) shrunk (has-erase ps d) in
          elim (Bool-cases (contains ps d)) [
            | inl hit ↦
                rw (found, hit)
                  (Ensures-mono (WalkedAt g (erase ps d) (xs ++ (a, d) ∷ []) ys)
                    (WalkedAt h ps xs ((a, d) ∷ ys)) (walk bound fuel r.1 rl (first ys null) g)
                    (λ q f w. stay h g ps xs ys a d q f hit shrunk.1 w)
                    (walk_lem bound fuel g r.1 rl (erase ps d) (xs ++ (a, d) ∷ []) ys
                      (subst (Both g r.1 (erase ps d) rl) (sym (append_assoc xs ((a, d) ∷ []) ys))
                        both')
                      (omega arith) (omega arith)))
            | inr miss ↦
                rw (found, miss)
                  (Ensures-bind _ (WalkedAt h ps xs ((a, d) ∷ ys)) (rmnode rl a g) _
                    (λ rl' k shrunk'.
                      Ensures-mono (WalkedAt k (erase ps d) xs ys) (WalkedAt h ps xs ((a, d) ∷ ys))
                        (walk bound fuel r.1 rl' (first ys null) k)
                        (λ q f w. go h g k ps xs ys a d q f miss shrunk.1 shrunk'.1 w)
                        (walk_lem bound fuel k r.1 rl' (erase ps d) xs ys
                          (shrink_right both' (xs ++ ys) shrunk' (λ c i.
                            ground (arith, has-append c xs ((a, d) ∷ ys), has-append c xs ys)))
                          (omega arith) (omega arith)))
                    (rmnode_lem g rl xs ys a d both'.right))
          ])
        (remove-erase bound h pl ps d both.left room))
