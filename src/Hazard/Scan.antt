-- ===== src/Hazard/Scan.antt =====
-- `zm_hzdptr_scan` as a whole.
use izem.Prelude.{
  ℕ, suc, ◌*◌, ◌≤◌, ◌<◌, ◌≡◌, ◌≢◌, inl, inr, true, false, none, List, [], ◌∷◌, ◌++◌, arith, ◌==◌,
  length, Bool-cases, sym, refl, ◌∙◌, ap,
}
use mathlib.Core.Path.{subst}
use mathlib.Core.List.{append_assoc, append-nil}
use izem.Heap.{Ptr, null, Heap, Ensures, Ensures-mono, Ensures-bind}
use izem.SdList.{Node, SdList, init, free_list}
use izem.SdList.Segment.{Cells, has, IsList, SameOutside, has-append, not-has_of_none}
use izem.SdList.Push.{push_back-append}
use izem.SdList.Search.{contains, Freed, free_list-Freed}
use izem.Hazard.{LNode, push_held, pull, walk, scan}
use izem.Hazard.Cells.{
  kept, unused, held_cell, held, guards, has-unused, unused-NoNull, length-unused, length-kept,
  length-held, contains-kept, contains_of_kept, contains-held, held-NoNull,
}
use izem.Hazard.Walk.{Both, Both-right_apart, IsList-frame, WalkedAt, walk_lem}

-- From the `malloc` of number `k` on, the addresses are good, new and distinct.
pub record Fresh (fresh : ℕ → Ptr) (h : Heap Node) (k : ℕ) : Type 0 where
  pub good : (i : ℕ) → k ≤ i → fresh i ≢ null
  pub new : (i : ℕ) → k ≤ i → h (fresh i) ≡ none
  pub distinct : (i j : ℕ) → fresh i ≡ fresh j → i ≡ j

-- `g` holds the list `zs`, and differs from `h` at most there.
abbrev Grown : Heap Node → Cells → SdList → Heap Node → Type 0
Grown h zs l g = IsList g l zs × SameOutside zs h g

SameOutside-append :
    (h g f : Heap Node) (xs ys : Cells)
    → SameOutside xs h g
    → SameOutside (xs ++ ys) g f
    → SameOutside (xs ++ ys) h f
SameOutside-append h g f xs ys same same' c o =
    same' c o ∙ same c (ground (arith, has-append c xs ys))

has-held_cell :
    (ps : Cells) (a d c : Ptr)
    → has c (ps ++ (a, d) ∷ []) ≡ false
    → has c (ps ++ held_cell a d []) ≡ false
has-held_cell ps a d c o = elim (Bool-cases (d == null)) [
  | inl yes_null ↦ rw (yes_null, append-nil ps) (ground (arith, has-append c ps ((a, d) ∷ [])))
  | inr not_null ↦ rw not_null o
]

module _ (fresh : ℕ → Ptr) where
  push_held_lem :
      (h : Heap Node) (k : ℕ) (pl : SdList) (ps : Cells) (d : Ptr)
      → Fresh fresh h k
      → IsList h pl ps
      → Ensures (Grown h (ps ++ held_cell (fresh k) d [])) (push_held (fresh k) pl d h)
  unfolding push_held
  push_held_lem h k pl ps d new is = elim (Bool-cases (d == null)) [
    | inl yes_null ↦ rw (yes_null, append-nil ps) (is, λ c o. refl)
    | inr not_null ↦ rw not_null (
        push_back-append h pl ps (fresh k) d is (new.good k (omega arith))
          (new.new k (omega arith)))
  ]

  pub Fresh-pushed :
      (h g : Heap Node) (k : ℕ) (pl : SdList) (ps : Cells) (d : Ptr)
      → Fresh fresh h k
      → IsList h pl ps
      → SameOutside (ps ++ (fresh k, d) ∷ []) h g
      → Fresh fresh g (suc k)
  Fresh-pushed h g k pl ps d new is same = record {
    good = λ i le. new.good i (omega arith);
    new = λ i le. same (fresh i) (out i le) ∙ new.new i (omega arith);
    distinct = new.distinct;
  }
    where
      out : (i : ℕ) → suc k ≤ i → has (fresh i) (ps ++ (fresh k, d) ∷ []) ≡ false
      out i le =
          let behind =
            not-has_of_none h null null (fresh i) ps is.chain (new.new i (omega arith)) in
          let apart : fresh i ≢ fresh k = λ e. (let q = new.distinct i k e in omega arith) in
          rw (has-append (fresh i) ps ((fresh k, d) ∷ []), behind) (ground arith)

  Fresh-later :
      (h g : Heap Node) (k : ℕ) (pl : SdList) (ps : Cells) (d : Ptr)
      → Fresh fresh h k
      → IsList h pl ps
      → SameOutside (ps ++ held_cell (fresh k) d []) h g
      → Fresh fresh g (suc k)
  Fresh-later h g k pl ps d new is same =
      Fresh-pushed h g k pl ps d new is (λ c o. same c (has-held_cell ps (fresh k) d c o))

  held_cell-append : (a d : Ptr) (zs : Cells) → held_cell a d [] ++ zs ≡ held_cell a d zs
  held_cell-append a d zs = ground arith

  pull_lem :
      (h : Heap Node) (k : ℕ) (pl : SdList) (ps : Cells) (ns : List LNode)
      → Fresh fresh h k
      → IsList h pl ps
      → Ensures (Grown h (ps ++ held fresh k ns)) (pull fresh k pl ns h)
  unfolding pull
  pull_lem h k pl ps [] new is = rw (append-nil ps) (is, λ c o. refl)
  pull_lem h k pl ps (n ∷ ns) new is =
      let one = held_cell (fresh k) n.hzdptr0 [] in
      let two = held_cell (fresh (suc k)) n.hzdptr1 [] in
      let more = held fresh (suc (suc k)) ns in
      Ensures-bind _ (Grown h (ps ++ held fresh k (n ∷ ns))) (push_held (fresh k) pl n.hzdptr0 h) _
        (λ l g (is', same).
          let new' = Fresh-later h g k pl ps n.hzdptr0 new is same in
          Ensures-bind _ (Grown h (ps ++ held fresh k (n ∷ ns)))
            (push_held (fresh (suc k)) l n.hzdptr1 g) _
            (λ l' g' (is'', same').
              let new'' = Fresh-later g g' (suc k) l (ps ++ one) n.hzdptr1 new' is' same' in
              Ensures-mono (Grown g' (((ps ++ one) ++ two) ++ more))
                (Grown h (ps ++ held fresh k (n ∷ ns))) (pull fresh (suc (suc k)) l' ns g')
                (λ r f (is_r, same_r).
                  let e : ((ps ++ one) ++ two) ++ more ≡ ps ++ held fresh k (n ∷ ns) =
                    rw
                      (
                        append_assoc (ps ++ one) two more,
                        append_assoc ps one (two ++ more),
                        held_cell-append (fresh (suc k)) n.hzdptr1 more,
                        held_cell-append (fresh k) n.hzdptr0
                            (held_cell (fresh (suc k)) n.hzdptr1 more),
                      )
                      refl in
                  let both = SameOutside-append h g g' (ps ++ one) two same same' in
                  let all = SameOutside-append h g' f ((ps ++ one) ++ two) more both same_r in
                  (subst (IsList f r) e is_r, subst (λ zs. SameOutside zs h f) e all))
                (pull_lem g' (suc (suc k)) l' ((ps ++ one) ++ two) ns new'' is''))
            (push_held_lem g (suc k) l (ps ++ one) n.hzdptr1 new' is'))
        (push_held_lem h k pl ps n.hzdptr0 new is)

  -- The cells of the first stage are at new addresses.
  held-new :
      (h : Heap Node) (k : ℕ) (ns : List LNode) (c : Ptr)
      → Fresh fresh h k
      → h c ≢ none
      → has c (held fresh k ns) ≡ false
  held-new h k [] c new ne = refl
  held-new h k (n ∷ ns) c new ne =
      let later : Fresh fresh h (suc (suc k)) = record {
        good = λ i le. new.good i (omega arith);
        new = λ i le. new.new i (omega arith);
        distinct = new.distinct;
      } in
      ground (arith, new.new k, new.new (suc k), held-new h (suc (suc k)) ns c later ne)

-- What `zm_hzdptr_scan` leaves of the retired cells `rs`, with the hazard pointers of `ns`.
pub record Scanned (h : Heap Node) (ns : List LNode) (rs : Cells) (l : SdList) (g : Heap Node)
    : Type 0 where
  pub cells : Cells
  pub is : IsList g l cells
  pub keeps :
      (d : Ptr) → d ≢ null → guards ns d ≡ true → contains rs d ≡ true → contains cells d ≡ true
  pub held_only : (d : Ptr) → contains cells d ≡ true → guards ns d ≡ true
  pub few : length cells ≤ 2 * length ns
  pub same : (c : Ptr) → h c ≢ none → has c rs ≡ false → g c ≡ h c

kept-Scanned :
    (h g : Heap Node) (fresh : ℕ → Ptr) (ns : List LNode) (rs : Cells) (l : SdList)
    → IsList g l (kept (held fresh 0 ns) rs)
    → ((c : Ptr) → h c ≢ none → has c rs ≡ false → g c ≡ h c)
    → Scanned h ns rs l g
kept-Scanned h g fresh ns rs l is same = record {
  cells = kept (held fresh 0 ns) rs;
  is = is;
  keeps = λ d ne held_ retired.
      contains-kept (held fresh 0 ns) rs d (ground (arith, contains-held fresh 0 ns d)) retired;
  held_only =
      λ d c. ground (arith, contains_of_kept (held fresh 0 ns) rs d c, contains-held fresh 0 ns d);
  few = omega (arith, length-kept (held fresh 0 ns) rs, length-held fresh 0 ns);
  same = same;
}

-- A list in the heap has no node at an address that holds nothing.
has-live :
    (h : Heap Node) (l : SdList) (xs : Cells) (c : Ptr)
    → IsList h l xs
    → has c xs ≡ true
    → h c ≢ none
has-live h l xs c is i e = ground (arith, not-has_of_none h null null c xs is.chain e)

-- From a list of retired nodes, and with enough fuel, `zm_hzdptr_scan` ends without a fault. Data
-- that a hazard pointer holds stay in the list, only such data stay, at most two for each thread's
-- node, and no other allocated node is written.
pub scan-Scanned :
    (bound : ℕ) (h : Heap Node) (fresh : ℕ → Ptr) (ns : List LNode) (rl : SdList) (rs : Cells)
    → Fresh fresh h 0
    → IsList h rl rs
    → 2 * length ns < bound
    → length rs < bound
    → Ensures (Scanned h ns rs) (scan bound fresh ns rl h)
unfolding scan init
scan-Scanned bound h fresh ns rl rs new is room enough =
    let hs = held fresh 0 ns in
    Ensures-bind (Grown h hs) (Scanned h ns rs) (pull fresh 0 init ns h) _
      (λ pl g (is_p, same).
        let clear : (c : Ptr) → has c rs ≡ true → has c hs ≡ false =
          λ c i. held-new fresh h 0 ns c new (has-live h rl rs c is i) in
        let both : Both g pl hs rl rs = record {
          left = is_p;
          right = IsList-frame h g rl hs rs is same clear;
          apart = λ c i. ground (arith, clear c);
        } in
        let walked : Ensures (WalkedAt g hs [] rs) (walk bound bound pl rl rl.head g) =
          subst (λ p. Ensures (WalkedAt g hs [] rs) (walk bound bound pl rl p g))
            (sym (ap (λ (m : SdList). m.head) is.same))
            (walk_lem bound bound g pl rl hs [] rs both (omega (arith, length-held fresh 0 ns))
              enough) in
        Ensures-bind (WalkedAt g hs [] rs) (Scanned h ns rs) (walk bound bound pl rl rl.head g) _
          (λ r f w.
            Ensures-bind (Freed f (unused hs rs)) (Scanned h ns rs) (free_list bound r.0 f) _
              (λ l k (_, gone, same').
                kept-Scanned h k fresh ns rs r.1
                  (IsList-frame f k r.1 (unused hs rs) (kept hs rs) w.both.right same'
                    (Both-right_apart w.both))
                  (λ c live o.
                    let out = held-new fresh h 0 ns c new live in
                    same' c (has-unused hs rs c out) ∙ w.same c out refl o ∙ same c out))
              (free_list-Freed bound f r.0 (unused hs rs) w.both.left
                (unused-NoNull hs rs (held-NoNull fresh 0 ns))
                (omega (arith, length-unused hs rs, length-held fresh 0 ns))))
          walked)
      (pull_lem fresh h 0 init [] ns new (record { same = refl; chain = tt }))
