-- ===== src/Lock/Hmcs/Whole.antt =====
-- The whole lock of zm_hmcs.c, a tree of nodes of any depth with the threads at its leaves: the test
-- that chooses the fast path, `acquire_from_leaf`, `tryacq_from_leaf`, `release_from_leaf` and
-- `nowaiters_from_leaf`. Nodes and threads share one numbering; a node queues at its parent, and a
-- thread at the node of its leaf or, on the fast path, at the root, each under its own number.
pub mod Invariant
pub mod Keeps
pub mod Safety
mod Tests
use izem.Prelude.{ℕ, zero, suc, ◌<◌, ◌≡◌, Bool, true, false, ◌&&◌, not, ◌==◌, if◌then◌else◌}
use izem.Prelude.Family.{put}
use izem.Interleave.{State}
use izem.Lock.Hmcs.Level
use izem.Lock.Hmcs.Level.{
  Ptr, null, node_of, Config, Level, Pc, idle, reusing, climbing, critical, descending, set_wait,
  Move,
}

-- The tree that `new_lock` has made.
pub record Plan : Type 0 where
  pub config : ℕ → Config
  pub parent : ℕ → ℕ
  pub is_node : ℕ → Bool  -- a node, and not a thread
  pub root : ℕ  -- `root_node`
  pub leaf : ℕ → ℕ  -- `cur_node` of a thread's leaf

-- Where a thread stands.
pub data Spot : Type 0 where
  outside : Spot
  tested : (try : Bool) → Spot  -- `cur_node->lock` was `NULL`
  entering : (try fast : Bool) → Spot  -- before the acquisition at `cur_node` or the root
  acquiring : (try fast : Bool) → Spot  -- in it
  owner : Spot
  releasing : (fast : Bool) → Spot  -- in the release there

pub record Hmcs : Type 0 where
  pub node : ℕ → State Level Pc
  pub spot : ℕ → Spot
  pub took : ℕ → Bool  -- `took_fast_path` of a thread's leaf

-- The node at which a thread queues.
abbrev pub base : Plan → ℕ → Bool → ℕ
base f t fast = if fast then f.root else f.leaf t

abbrev pub is_idle : Pc → Bool
is_idle idle = true
is_idle _ = false

abbrev pub is_critical : Pc → Bool
is_critical (critical _) = true
is_critical _ = false

-- One at a node acquires the parent, or releases it.
abbrev pub Climbs : State Level Pc → Type 0
Climbs s = (i : ℕ) × (k : ℕ) × (s.pc i ≡ climbing k)

abbrev pub Descends : State Level Pc → Type 0
Descends s = (i : ℕ) × (k : ℕ) × (s.pc i ≡ descending k)

-- Who makes number `a` move at node `p`: the thread in its acquisition or its release, or the one at
-- the node `a` that acquires its parent or releases it.
pub data Caller (f : Plan) (h : Hmcs) (p a : ℕ) : Type 0 where
  by_acquire :
      (try fast : Bool)
      → f.is_node a ≡ false
      → h.spot a ≡ acquiring try fast
      → p ≡ base f a fast
      → is_idle ((h.node p).pc a) ≡ false
      → is_critical ((h.node p).pc a) ≡ false
      → Caller f h p a
  by_release :
      (fast : Bool)
      → f.is_node a ≡ false
      → h.spot a ≡ releasing fast
      → p ≡ base f a fast
      → is_idle ((h.node p).pc a) ≡ false
      → Caller f h p a
  by_node :
      f.is_node a ≡ true
      → f.parent a ≡ p
      → (is_idle ((h.node p).pc a) ≡ true → Climbs (h.node a))
      → (is_critical ((h.node p).pc a) ≡ true → Descends (h.node a))
      → Caller f h p a

-- The node `p` with a move of number `a` made.
abbrev pub moved : Hmcs → ℕ → ℕ → Level → Pc → Hmcs
moved h p a m q = record h { node = put h.node p (record { mem = m; pc = put (h.node p).pc a q }) }

abbrev pub to_spot : Hmcs → ℕ → Spot → Bool → Hmcs
to_spot h t s took = record h { spot = put h.spot t s; took = put h.took t took }

-- One access, by one of fewer than `n` numbers.
pub data HmcsStep (f : Plan) (n : ℕ) (h : Hmcs) : Hmcs → Type 0 where
  test_leaf :
      (t : ℕ) (try : Bool)
      → f.is_node t ≡ false
      → h.spot t ≡ outside
      → HmcsStep f n h (
          to_spot h t
            (if (h.node (f.leaf t)).mem.lock == null
              then tested try
              else if try
              then outside
              else entering false false)
            (h.took t))
  test_root :
      (t : ℕ) (try : Bool)
      → f.is_node t ≡ false
      → h.spot t ≡ tested try
      → HmcsStep f n h (
          to_spot h t
            (if (h.node f.root).mem.lock == null
              then entering try true
              else if try
              then outside
              else entering false false)
            (if (h.node f.root).mem.lock == null && not try then true else h.took t))
  begin :
      (t : ℕ) (try fast : Bool)
      → t < n
      → f.is_node t ≡ false
      → h.spot t ≡ entering try fast
      → (h.node (base f t fast)).pc t ≡ idle
      → HmcsStep f n h (
          to_spot
            (moved h
              (base f t fast)
              t
              (set_wait t (h.node (base f t fast)).mem)
              (reusing (try && (f.config (base f t fast)).root)))
            t
            (acquiring try fast)
            (h.took t))
  move :
      (p a : ℕ) {m : Level} {q : Pc}
      → a < n
      → Caller f h p a
      → Move (f.config p) a (h.node p).mem ((h.node p).pc a) m q
      -- the parent has been acquired, or released
      → ((k : ℕ)
          → (h.node p).pc a ≡ climbing k
          → (l : ℕ) × ((h.node (f.parent p)).pc p ≡ critical l))
      → ((k : ℕ) → (h.node p).pc a ≡ descending k → (h.node (f.parent p)).pc p ≡ idle)
      → HmcsStep f n h (moved h p a m q)
  enter :
      (t : ℕ) (try fast : Bool) (k : ℕ)
      → f.is_node t ≡ false
      → h.spot t ≡ acquiring try fast
      → (h.node (base f t fast)).pc t ≡ critical k
      → HmcsStep f n h (to_spot h t owner (if try then true else h.took t))
  fail :
      (t : ℕ) (fast : Bool)
      → f.is_node t ≡ false
      → h.spot t ≡ acquiring true fast
      → (h.node (base f t fast)).pc t ≡ idle
      → HmcsStep f n h (to_spot h t outside (h.took t))
  release :
      (t : ℕ)
      → f.is_node t ≡ false
      → h.spot t ≡ owner
      → HmcsStep f n h (to_spot h t (releasing (h.took t)) (h.took t))
  leave :
      (t : ℕ) (fast : Bool)
      → f.is_node t ≡ false
      → h.spot t ≡ releasing fast
      → (h.node (base f t fast)).pc t ≡ idle
      → HmcsStep f n h (to_spot h t outside (if fast then false else h.took t))

pub data HmcsReach (f : Plan) (n : ℕ) (h : Hmcs) : Hmcs → Type 0 where
  start : HmcsReach f n h h
  later : {u v : Hmcs} → HmcsReach f n h u → HmcsStep f n u v → HmcsReach f n h v

-- `new_lock` and `new_leaf`
abbrev pub new_hmcs : (Ptr → ℕ) → (Ptr → Ptr) → Hmcs
new_hmcs status next = record {
  node = λ _. Level.init status next;
  spot = λ _. outside;
  took = λ _. false;
}

-- `nowaiters_helper`, for number `a` at node `p`
pub nowaiters_helper : Plan → Hmcs → (level : ℕ) → (p a : ℕ) → Bool
nowaiters_helper f h zero p a = true
nowaiters_helper f h (suc zero) p a = (h.node p).mem.next (node_of a) == null
nowaiters_helper f h (suc (suc level)) p a =
    ((h.node p).mem.next (node_of a) == null) && nowaiters_helper f h (suc level) (f.parent p) p

-- `nowaiters_from_leaf`
pub nowaiters : Plan → Hmcs → (level t : ℕ) → Bool
unfolding nowaiters_helper
nowaiters f h level t =
    if h.took t
    then (h.node f.root).mem.next (node_of t) == null
    else nowaiters_helper f h level (f.leaf t) t
