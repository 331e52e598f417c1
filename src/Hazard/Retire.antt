-- ===== src/Hazard/Retire.antt =====
-- `zm_hzdptr_allocate` and `zm_hzdptr_retire`.
use izem.Prelude.{
  ℕ, suc, ◌*◌, ◌^◌, ◌≤◌, ◌<◌, ◌≡◌, ◌≢◌, inl, inr, refl, true, false, some, none, Option, List, [],
  ◌∷◌, ◌++◌, arith, length, length-append, Bool-cases,
}
use izem.Heap.{Ptr, null, Heap, Ensures, Ensures-bind, pure}
use izem.SdList.{Node, SdList, push_back}
use izem.SdList.Segment.{Cells, IsList}
use izem.SdList.Push.{push_back-append}
use izem.SdList.Search.{contains}
use izem.Hazard.{LNode, Hazards, claim, settle, allocate, scan, full, helpscan, retire}
use izem.Hazard.Cells.{guards}
use izem.Hazard.Scan.{Fresh, Fresh-pushed, Scanned, scan-Scanned}

-- A claimed node keeps its hazard pointers, and every other node is as it was.
abbrev Claimed : List LNode → Ptr → Option (List LNode × Ptr) → Type 0
Claimed ns d none = Unit
Claimed ns d (some (ms, p)) = (guards ms d ≡ guards ns d) × (length ms ≡ length ns)

claim-Claimed : (ns : List LNode) (d : Ptr) → Claimed ns d (claim ns)
unfolding claim
claim-Claimed [] d = tt
claim-Claimed (n ∷ ns) d = elim (Bool-cases n.active) [
  | inl yes_active ↦ rw yes_active (behind (claim ns) (claim-Claimed ns d))
  | inr not_active ↦ rw not_active (refl, refl)
]
  where
    behind :
        (r : Option (List LNode × Ptr))
        → Claimed ns d r
        → Claimed (n ∷ ns) d (elim r [ none ↦ none | some q ↦ some (n ∷ q.0, q.1) ])
    behind none c = tt
    behind (some (ms, p)) (same, long) = (rw same refl, rw long refl)

settle-guards :
    (fresh : Ptr) (z : Hazards) (d : Ptr) (r : Option (List LNode × Ptr))
    → z.count ≡ length z.lnodes
    → suc z.count < 2 ^ 32
    → d ≢ null
    → Claimed z.lnodes d r
    → ((settle fresh z r).0.count ≡ length (settle fresh z r).0.lnodes)
      × (guards (settle fresh z r).0.lnodes d ≡ guards z.lnodes d)
unfolding settle
settle-guards fresh z d none counted room ne c = (omega arith, ground arith)
settle-guards fresh z d (some (ms, p)) counted room ne (same, long) = (omega arith, same)

-- After `zm_hzdptr_allocate` the count of nodes is their number, if it was and does not wrap round,
-- and the same addresses are held by hazard pointers.
pub allocate-guards :
    (fresh : Ptr) (z : Hazards) (d : Ptr)
    → z.count ≡ length z.lnodes
    → suc z.count < 2 ^ 32
    → d ≢ null
    → ((allocate fresh z).0.count ≡ length (allocate fresh z).0.lnodes)
      × (guards (allocate fresh z).0.lnodes d ≡ guards z.lnodes d)
unfolding allocate
allocate-guards fresh z d counted room ne =
    settle-guards fresh z d (claim z.lnodes) counted room ne (claim-Claimed z.lnodes d)

-- Every node of the list belongs to a thread.
abbrev pub AllActive : List LNode → Type 0
AllActive [] = Unit
AllActive (n ∷ ns) = (n.active ≡ true) × AllActive ns

helpscan-active :
    (bound : ℕ) (fresh : ℕ → ℕ → ℕ → Ptr) (z : Hazards) (ns : List LNode) (l : SdList)
    (h : Heap Node)
    → AllActive ns
    → helpscan bound fresh z ns l h ≡ pure (ns, l) h
unfolding helpscan
helpscan-active bound fresh z [] l h all = refl
helpscan-active bound fresh z (n ∷ ns) l h (yes_active, all) =
    rw (yes_active, helpscan-active bound fresh z ns l h all) refl

-- What `zm_hzdptr_retire` of `d` leaves of the retired cells `rs`.
pub record Retired (z : Hazards) (rs : Cells) (r : List LNode × SdList) (g : Heap Node)
    : Type 0 where
  pub lnodes : r.0 ≡ z.lnodes
  pub cells : Cells
  pub is : IsList g r.1 cells
  pub few : length cells ≤ 2 * z.count
  pub keeps :
      (e : Ptr)
      → e ≢ null
      → guards z.lnodes e ≡ true
      → contains rs e ≡ true
      → contains cells e ≡ true

full_lem :
    (l : SdList) (h : Heap Node) (n : ℕ) (xs : Cells)
    → IsList h l xs
    → 2 * n < 2 ^ 32
    → full l n ≡ false
    → length xs < 2 * n
full_lem l h n xs is small e = ground (arith, is.same)

Fresh-shift : (g : Heap Node) (fresh : ℕ → Ptr) → Fresh fresh g 1 → Fresh (λ k. fresh (suc k)) g 0
Fresh-shift g fresh new = record {
  good = λ i le. new.good (suc i) (omega arith);
  new = λ i le. new.new (suc i) (omega arith);
  distinct = λ i j e. (let q = new.distinct (suc i) (suc j) e in omega arith);
}

-- When every node of the list belongs to a thread and the count is right, `zm_hzdptr_retire` ends
-- without a fault, leaves at most two retired nodes for each thread however many there were, and
-- keeps the data that a hazard pointer holds.
pub retire-Retired :
    (bound : ℕ) (h : Heap Node) (fresh : ℕ → Ptr) (help : ℕ → ℕ → ℕ → Ptr) (z : Hazards)
    (l : SdList) (rs : Cells) (d : Ptr)
    → Fresh fresh h 0
    → IsList h l rs
    → AllActive z.lnodes
    → z.count ≡ length z.lnodes
    → 2 * z.count < 2 ^ 32
    → 2 * z.count < bound
    → suc (length rs) < bound
    → Ensures (Retired z (rs ++ (fresh 0, d) ∷ [])) (retire bound fresh help z l d h)
unfolding retire
retire-Retired bound h fresh help z l rs d new is all counted small room enough =
    let ws = rs ++ (fresh 0, d) ∷ [] in
    Ensures-bind _ (Retired z ws) (push_back (fresh 0) l d h) _
      (λ m g (is', same). elim (Bool-cases (full m z.count)) [
        | inl yes_full ↦ rw yes_full (
            Ensures-bind (Scanned g z.lnodes ws) (Retired z ws)
              (scan bound (λ k. fresh (suc k)) z.lnodes m g) _
              (λ k f sc. rw (helpscan-active bound help z z.lnodes k f all) (record {
                lnodes = refl;
                cells = sc.cells;
                is = sc.is;
                few = omega (arith, sc.few);
                keeps = sc.keeps;
              }))
              (scan-Scanned bound g (λ k. fresh (suc k)) z.lnodes m ws
                (Fresh-shift g fresh (Fresh-pushed fresh h g 0 l rs d new is same)) is'
                (omega arith) (omega (arith, length-append {0} rs ((fresh 0, d) ∷ [])))))
        | inr not_full ↦ rw not_full (record {
          lnodes = refl;
          cells = ws;
          is = is';
          few = omega (arith, full_lem m g z.count ws is' small not_full);
          keeps = λ e ne g' c. c;
        })
      ])
      (push_back-append h l rs (fresh 0) d is (new.good 0 (omega arith)) (new.new 0 (omega arith)))
