-- ===== src/Hazard.antt =====
-- src/include/mem/zm_hzdptr.h: the hazard pointers of all threads and their lists of retired nodes,
-- one operation at a time. `zm_hzdptr_list` only grows, at its head, and is a list of its nodes here,
-- with the address of each; the lists of retired nodes are in the heap of SdList. Every `malloc` has
-- its own number, by which `fresh` gives the address.
pub mod Cells
pub mod Walk
pub mod Scan
pub mod Retire
mod Tests
use izem.Prelude.{
  ℕ, zero, suc, ◌+◌, ◌-◌, ◌*◌, ◌%◌, ◌^◌, Bool, true, false, ◌==◌, leb, Option, none, some, List, [],
  ◌∷◌, if◌then◌else◌, length,
}
use izem.Prelude.Int.{ℤ, pos, negsuc}
use izem.Heap.{Ptr, null, Cmd, out_of_fuel, pure, ◌>>=◌, load}
use izem.SdList.{Node, SdList, init, push_back, pop_front, rmnode, remove, free_list}

-- `struct zm_hzdptr_lnode` at `place`; its `next` is the order of the list.
pub record LNode : Type 0 where
  pub place : Ptr
  pub hzdptr0 : Ptr
  pub hzdptr1 : Ptr
  pub active : Bool
  pub rlist : SdList

-- `zm_hzdptr_list` and `zm_hplist_length`
pub record Hazards : Type 0 where
  pub lnodes : List LNode
  pub count : ℕ

-- The first loop of `zm_hzdptr_allocate`: the first node that is not active becomes so.
pub claim : List LNode → Option (List LNode × Ptr)
claim [] = none
claim (n ∷ ns) =
    let rest = claim ns in
    if n.active
    then elim rest [ none ↦ none | some r ↦ some (n ∷ r.0, r.1) ]
    else some (record n { active = true } ∷ ns, n.place)

-- The rest of it, when the loop has found a node and when it has not; the second result is
-- `zm_my_hplnode`.
settle : (fresh : Ptr) → Hazards → Option (List LNode × Ptr) → Hazards × Ptr
settle fresh z (some (ns, p)) = (record z { lnodes = ns }, p)
settle fresh z none = (
  record {
    lnodes =
        record { place = fresh; hzdptr0 = null; hzdptr1 = null; active = true; rlist = init }
        ∷ z.lnodes;
    count = (z.count + 1) % 2 ^ 32;
  },
  fresh,
)

pub allocate : (fresh : Ptr) → Hazards → Hazards × Ptr
unfolding claim settle
allocate fresh z = settle fresh z (claim z.lnodes)

-- `zm_hzdptr_get`
pub get : (fresh : Ptr) → Hazards → (mine : Ptr) → Hazards × Ptr
unfolding allocate
get fresh z mine = if mine == null then allocate fresh z else (z, mine)

-- The body of the inner loop of the first stage of `zm_hzdptr_scan`.
push_held : (fresh : Ptr) → SdList → Ptr → Cmd Node SdList
push_held fresh plist d = if d == null then pure plist else push_back fresh plist d

pub pull : (fresh : ℕ → Ptr) → ℕ → SdList → List LNode → Cmd Node SdList
unfolding push_held
pull fresh k plist [] = pure plist
pull fresh k plist (n ∷ ns) = do
  plist ← push_held (fresh k) plist n.hzdptr0
  plist ← push_held (fresh (suc k)) plist n.hzdptr1
  pull fresh (suc (suc k)) plist ns

-- The second stage, from `node` on: the lists `plist` and `zm_my_hplnode->rlist`.
pub walk : (bound fuel : ℕ) → SdList → SdList → (node : Ptr) → Cmd Node (SdList × SdList)
walk bound zero plist rlist p = λ _. out_of_fuel
walk bound (suc fuel) plist rlist p = if p == null then pure (plist, rlist) else do
  n ← load p
  (found, plist') ← remove bound plist n.payload
  rlist' ← (if found then pure rlist else rmnode rlist p)
  walk bound fuel plist' rlist' n.next

-- `zm_hzdptr_scan`, with the list `zm_my_hplnode->rlist`, which it returns.
pub scan : (bound : ℕ) (fresh : ℕ → Ptr) → List LNode → SdList → Cmd Node SdList
unfolding pull walk
scan bound fresh ns rlist = do
  plist ← pull fresh 0 init ns
  (plist', rlist') ← walk bound bound plist rlist rlist.head
  plist'' ← free_list bound plist'
  pure rlist'

-- `zm_sdlist_length(l) >= 2 * n` as the source compares them, in unsigned words; the length is an
-- `int`, which is below 2^31, and at least -2^31.
abbrev pub full : SdList → ℕ → Bool
full l n = leb (2 * n % 2 ^ 32) (as_unsigned l.length)
  where
    as_unsigned : ℤ → ℕ
    as_unsigned (pos n) = n
    as_unsigned (negsuc n) = 2 ^ 32 - 1 - n

-- The inner loop of `zm_hzdptr_helpscan`: the lists of retired nodes of the other and of the caller.
pub drain :
    (bound fuel : ℕ) (fresh : ℕ → ℕ → Ptr) → Hazards → SdList → SdList → Cmd Node (SdList × SdList)
drain bound zero fresh z theirs rlist = λ _. out_of_fuel
drain bound (suc fuel) fresh z theirs rlist = elim theirs.length [
  | negsuc _ ↦ pure (theirs, rlist)
  | pos zero ↦ pure (theirs, rlist)
  | pos (suc _) ↦ do
    (d, theirs') ← pop_front theirs
    rlist' ← push_back (fresh fuel 0) rlist d
    rlist'' ←
        (if full rlist' z.count
          then scan bound (λ k. fresh fuel (suc k)) z.lnodes rlist'
          else pure rlist')
    drain bound fuel fresh z theirs' rlist''
]

-- The loop of `zm_hzdptr_helpscan`, from a node on; `z` is for the scans, which read only the hazard
-- pointers, and those the loop does not change.
pub helpscan :
    (bound : ℕ) (fresh : ℕ → ℕ → ℕ → Ptr)
    → Hazards
    → List LNode
    → SdList
    → Cmd Node (List LNode × SdList)
unfolding drain
helpscan bound fresh z [] rlist = pure ([], rlist)
helpscan bound fresh z (n ∷ ns) rlist =
    if n.active
    then (do (ns', rlist') ← helpscan bound fresh z ns rlist; pure (n ∷ ns', rlist'))
    else (do
      (theirs, rlist') ← drain bound bound (fresh (length ns)) z n.rlist rlist
      (ns', rlist'') ← helpscan bound fresh z ns rlist'
      pure (record n { rlist = theirs; active = false } ∷ ns', rlist''))

-- `zm_hzdptr_retire`, with the list `zm_my_hplnode->rlist`, which it returns with `zm_hzdptr_list`.
pub retire :
    (bound : ℕ) (fresh : ℕ → Ptr) (help : ℕ → ℕ → ℕ → Ptr)
    → Hazards
    → SdList
    → Ptr
    → Cmd Node (List LNode × SdList)
unfolding helpscan
retire bound fresh help z rlist d = do
  rlist' ← push_back (fresh 0) rlist d
  if full rlist' z.count
      then (do
        rlist'' ← scan bound (λ k. fresh (suc k)) z.lnodes rlist'
        helpscan bound help z z.lnodes rlist'')
      else pure (z.lnodes, rlist')
