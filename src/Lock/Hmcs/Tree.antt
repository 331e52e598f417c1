-- ===== src/Lock/Hmcs/Tree.antt =====
-- The nodes of zm_hmcs.c that have the same parent, with that parent. Number `c` queues at the parent
-- for child `c`, with the child's field `node`; other numbers queue there for threads on the fast
-- path, or as leaves. A child's call of `acquire_helper` on the parent ends when its number is
-- past the acquisition there, and its call of `release_helper` begins and ends the release there.
pub mod Exclusion
mod Tests
use izem.Prelude.{ℕ, ◌<◌, ◌≡◌, Bool, true, false}
use izem.Prelude.Family.{put}
use izem.Interleave.{State}
use izem.Lock.Hmcs.Level.{Ptr, Config, Level, Pc, idle, climbing, critical, descending, Move}
use izem.Lock.Hmcs.Level

pub record Tree : Type 0 where
  pub parent : State Level Pc
  pub child : ℕ → State Level Pc

-- The parameters of the nodes, and which numbers at the parent stand for children.
pub record Shape : Type 0 where
  pub top : Config
  pub below : ℕ → Config
  pub is_child : ℕ → Bool

-- One at a child is before its release of the parent.
abbrev pub Descends : State Level Pc → Type 0
Descends s = (i : ℕ) × (k : ℕ) × (s.pc i ≡ descending k)

-- One access, by one of fewer than `n` numbers at its node.
pub data TreeStep (f : Shape) (n : ℕ) (t : Tree) : Tree → Type 0 where
  at_child :
      (c i : ℕ) {m : Level} {p : Pc}
      → f.is_child c ≡ true
      → i < n
      → Move (f.below c) i (t.child c).mem ((t.child c).pc i) m p
      -- the parent has been acquired
      → ((k : ℕ) → (t.child c).pc i ≡ climbing k → (l : ℕ) × (t.parent.pc c ≡ critical l))
      -- the parent has been released
      → ((k : ℕ) → (t.child c).pc i ≡ descending k → t.parent.pc c ≡ idle)
      → TreeStep f n t
          (record t { child = put t.child c (record { mem = m; pc = put (t.child c).pc i p }) })
  at_parent :
      (a : ℕ) {m : Level} {p : Pc}
      → a < n
      → Move f.top a t.parent.mem (t.parent.pc a) m p
      -- a release for a child comes from the child
      → ((k : ℕ) → f.is_child a ≡ true → t.parent.pc a ≡ critical k → Descends (t.child a))
      → TreeStep f n t (record t { parent = record { mem = m; pc = put t.parent.pc a p } })

pub data TreeReach (f : Shape) (n : ℕ) (t : Tree) : Tree → Type 0 where
  start : TreeReach f n t t
  later : {u v : Tree} → TreeReach f n t u → TreeStep f n u v → TreeReach f n t v

abbrev pub new_tree : (Ptr → ℕ) → (Ptr → Ptr) → Tree
new_tree status next = record {
  parent = Level.init status next;
  child = λ _. Level.init status next;
}
