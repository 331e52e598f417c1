-- ===== src/Hazard/Cells.antt =====
-- What a scan of zm_hzdptr.h makes of the cells of its two lists.
use izem.Prelude.{
  ℕ, suc, ◌*◌, ◌≤◌, ◌≡◌, ◌≢◌, refl, Bool, true, false, ◌||◌, [], ◌∷◌, List, arith, ◌==◌, not, ◌&&◌,
  if◌then◌else◌, length, Bool-cases, inl, inr,
}
use izem.Heap.{Ptr, null}
use izem.SdList.Segment.{Cells, has}
use izem.SdList.Search.{contains, erase, NoNull}
use izem.Hazard.{LNode}

-- The retired cells that stay: those whose data are found among the cells `ps`, each of which is
-- used up by the first that finds it.
abbrev pub kept : Cells → Cells → Cells
kept ps [] = []
kept ps ((a, d) ∷ ys) =
    let more = kept (erase ps d) ys in if contains ps d then (a, d) ∷ more else more

pub kept_hit :
    (ps ys : Cells) (a d : Ptr)
    → contains ps d ≡ true
    → kept ps ((a, d) ∷ ys) ≡ (a, d) ∷ kept (erase ps d) ys
kept_hit ps ys a d hit = rw hit refl

pub kept_miss :
    (ps ys : Cells) (a d : Ptr)
    → contains ps d ≡ false
    → kept ps ((a, d) ∷ ys) ≡ kept (erase ps d) ys
kept_miss ps ys a d miss = rw miss refl

-- The cells of `ps` that are left then.
abbrev pub unused : Cells → Cells → Cells
unused ps [] = ps
unused ps ((a, d) ∷ ys) = unused (erase ps d) ys

-- The cells that the first stage makes: a cell for each hazard pointer that is not `NULL`.
abbrev pub held_cell : Ptr → Ptr → Cells → Cells
held_cell a d more = if d == null then more else (a, d) ∷ more

abbrev pub held : (ℕ → Ptr) → ℕ → List LNode → Cells
held fresh k [] = []
held fresh k (n ∷ ns) =
    held_cell (fresh k) n.hzdptr0
      (held_cell (fresh (suc k)) n.hzdptr1 (held fresh (suc (suc k)) ns))

-- Is `d` held by a hazard pointer?
abbrev pub guards : List LNode → Ptr → Bool
guards [] d = false
guards (n ∷ ns) d = (n.hzdptr0 == d) || ((n.hzdptr1 == d) || guards ns d)

pub has-erase : (ps : Cells) (d c : Ptr) → has c ps ≡ false → has c (erase ps d) ≡ false
has-erase [] d c out = refl
has-erase ((a, e) ∷ ps) d c out = ground (arith, has-erase ps d c)

pub has-unused : (ps ys : Cells) (c : Ptr) → has c ps ≡ false → has c (unused ps ys) ≡ false
has-unused ps [] c out = out
has-unused ps ((a, d) ∷ ys) c out = has-unused (erase ps d) ys c (has-erase ps d c out)

pub has-kept : (ps ys : Cells) (c : Ptr) → has c ys ≡ false → has c (kept ps ys) ≡ false
has-kept ps [] c out = refl
has-kept ps ((a, d) ∷ ys) c out = ground (arith, has-kept (erase ps d) ys c)

pub erase-NoNull : (ps : Cells) (d : Ptr) → NoNull ps → NoNull (erase ps d)
erase-NoNull [] d p = tt
erase-NoNull ((a, e) ∷ ps) d (ne, p) = elim (Bool-cases (e == d)) [
  | inl hit ↦ rw hit p
  | inr miss ↦ rw miss (ne, erase-NoNull ps d p)
]

pub unused-NoNull : (ps ys : Cells) → NoNull ps → NoNull (unused ps ys)
unused-NoNull ps [] p = p
unused-NoNull ps ((a, d) ∷ ys) p = unused-NoNull (erase ps d) ys (erase-NoNull ps d p)

pub length-erase : (ps : Cells) (d : Ptr) → length (erase ps d) ≤ length ps
length-erase [] d = omega arith
length-erase ((a, e) ∷ ps) d = ground (arith, length-erase ps d)

length-erase_hit :
    (ps : Cells) (d : Ptr) → contains ps d ≡ true → suc (length (erase ps d)) ≡ length ps
length-erase_hit [] d hit = cc
length-erase_hit ((a, e) ∷ ps) d hit = ground (arith, length-erase_hit ps d)

pub length-unused : (ps ys : Cells) → length (unused ps ys) ≤ length ps
length-unused ps [] = omega arith
length-unused ps ((a, d) ∷ ys) = omega (arith, length-unused (erase ps d) ys, length-erase ps d)

-- No more cells stay than there are hazard pointers.
pub length-kept : (ps ys : Cells) → length (kept ps ys) ≤ length ps
length-kept ps [] = omega arith
length-kept ps ((a, d) ∷ ys) =
    ground (arith, length-kept (erase ps d) ys, length-erase ps d, length-erase_hit ps d)

pub length-held :
    (fresh : ℕ → Ptr) (k : ℕ) (ns : List LNode) → length (held fresh k ns) ≤ 2 * length ns
length-held fresh k [] = omega arith
length-held fresh k (n ∷ ns) = ground (arith, length-held fresh (suc (suc k)) ns)

contains-erase : (ps : Cells) (d e : Ptr) → d ≢ e → contains (erase ps d) e ≡ contains ps e
contains-erase [] d e ne = refl
contains-erase ((a, c) ∷ ps) d e ne = ground (arith, contains-erase ps d e)

contains-erase_sub :
    (ps : Cells) (d e : Ptr) → contains (erase ps d) e ≡ true → contains ps e ≡ true
contains-erase_sub [] d e h = h
contains-erase_sub ((a, c) ∷ ps) d e h = ground (arith, contains-erase_sub ps d e)

-- Data that are held and retired stay.
pub contains-kept :
    (ps ys : Cells) (d : Ptr)
    → contains ps d ≡ true
    → contains ys d ≡ true
    → contains (kept ps ys) d ≡ true
contains-kept ps [] d is_held is_retired = is_retired
contains-kept ps ((a, e) ∷ ys) d is_held is_retired =
    ground (arith, contains-kept (erase ps e) ys d, contains-erase ps e d)

-- What stays is held.
pub contains_of_kept :
    (ps ys : Cells) (d : Ptr) → contains (kept ps ys) d ≡ true → contains ps d ≡ true
contains_of_kept ps [] d h = cc
contains_of_kept ps ((a, e) ∷ ys) d h =
    ground (arith, contains_of_kept (erase ps e) ys d, contains-erase_sub ps e d)

pub contains-held :
    (fresh : ℕ → Ptr) (k : ℕ) (ns : List LNode) (d : Ptr)
    → contains (held fresh k ns) d ≡ (not (d == null) && guards ns d)
contains-held fresh k [] d = ground arith
contains-held fresh k (n ∷ ns) d = ground (arith, contains-held fresh (suc (suc k)) ns d)

pub held-NoNull : (fresh : ℕ → Ptr) (k : ℕ) (ns : List LNode) → NoNull (held fresh k ns)
held-NoNull fresh k [] = tt
held-NoNull fresh k (n ∷ ns) =
    held_cell-NoNull (fresh k) n.hzdptr0 _
      (held_cell-NoNull (fresh (suc k)) n.hzdptr1 _ (held-NoNull fresh (suc (suc k)) ns))
  where
    held_cell-NoNull : (a d : Ptr) (xs : Cells) → NoNull xs → NoNull (held_cell a d xs)
    held_cell-NoNull a d xs p = elim (Bool-cases (d == null)) [
      | inl yes_null ↦ rw yes_null p
      | inr not_null ↦ rw not_null (ground arith, p)
    ]
