-- ===== src/Lock/Hmcs/Hierarchy.antt =====
-- src/lock/zm_hmcs.c, `set_hierarchy` and `new_lock`: which levels of the machine get lock nodes, and
-- where in the table the nodes and their parents stand. What hwloc answers is a parameter: the
-- number of hardware threads, the depth of the topology and the number of objects at a depth.
pub mod Levels
pub mod Places
pub mod Total
mod Tests
use izem.Prelude.{
  ℕ, zero, suc, ◌+◌, ◌-◌, ◌*◌, ◌/◌, ◌%◌, Bool, Option, none, some, List, [], ◌∷◌, ◌++◌, ◌==◌, leb,
  if◌then◌else◌,
}

-- `cur_nobjs == prev_nobjs`, where `prev_nobjs` is -1 at first
abbrev pub same_count : Option ℕ → ℕ → Bool
same_count none n = izem.Prelude.false
same_count (some m) n = n == m

module _ (nobjs_at : ℕ → ℕ) (max_threads max_levels : ℕ) where
  -- The loop over the depths `r + 1`, …, 2, with `levels` entries written before.
  pub detect : (r : ℕ) → (prev : Option ℕ) → (levels : ℕ) → List ℕ
  detect zero prev levels = []
  detect (suc r) prev levels =
      let cur = nobjs_at (suc (suc r)) in
      let skip = detect r prev levels in
      let more = detect r (some cur) (suc levels) in
      if same_count prev cur
      then skip
      else max_threads / cur ∷ (if leb (max_levels - 1) (suc levels) then [] else more)

  -- `particip_per_level` as the detection fills it
  unfoldable pub participants : (max_depth : ℕ) → List ℕ
  unfolding detect
  participants max_depth = detect (max_depth - 3) none 0 ++ max_threads ∷ []

  -- The loop over the explicit depths, the last one first: `none` where its assertion fails.
  pub explicit_participants : (depths : List ℕ) → (prev : Option ℕ) → Option (List ℕ)
  explicit_participants [] prev = some []
  explicit_participants (d ∷ depths) prev =
      let rest = explicit_participants depths (some (nobjs_at d)) in
      if same_count prev (nobjs_at d)
      then none
      else elim rest [ none ↦ none | some ps ↦ some (max_threads / nobjs_at d ∷ ps) ]

module _ (max_threads : ℕ) where
  -- `total_locks_needed`
  unfoldable pub total_locks : (participants : List ℕ) → ℕ
  total_locks [] = 0
  total_locks (p ∷ ps) = max_threads / p + total_locks ps

  -- The places where the pass of thread `tid` puts new nodes, with `last` for
  -- `last_lock_location_end`.
  pub locations : (tid : ℕ) → (participants : List ℕ) → (last : ℕ) → List ℕ
  locations tid [] last = []
  locations tid (p ∷ ps) last =
      let skip = locations tid ps last in
      let more = locations tid ps (last + max_threads / p) in
      if tid % p == 0 then (last + tid / p) ∷ more else skip

  -- The places of a node and of its parent, for each link that the second pass of `tid` sets.
  unfoldable pub parent_links : (tid : ℕ) → (participants : List ℕ) → (last : ℕ) → List (ℕ × ℕ)
  parent_links tid [] last = []
  parent_links tid (p ∷ []) last = []
  parent_links tid (p ∷ p' ∷ ps) last =
      let end = last + max_threads / p in
      let skip = parent_links tid (p' ∷ ps) last in
      let more = parent_links tid (p' ∷ ps) end in
      if tid % p == 0 then (last + tid / p, end + tid / p') ∷ more else skip

  -- The place of the node with which the leaf of `tid` starts.
  unfoldable pub leaf_place : (tid : ℕ) → (participants : List ℕ) → ℕ
  leaf_place tid [] = 0
  leaf_place tid (p ∷ ps) = tid / p
