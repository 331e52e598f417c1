-- ===== src/Queue/Swp/Alone/Laws.antt =====
-- The swap queue of one thread at a time keeps its invariant, and is a bucket as zm_mpbqueue.c
-- wants it.
use izem.Prelude.{
  ℕ, zero, suc, ◌+◌, ◌-◌, ◌≤◌, ◌<◌, ◌≡◌, ◌≢◌, ◌↔◌, refl, sym, ap, ◌∙◌, inl, inr, Bool, true, false,
  List, [], ◌∷◌, ◌++◌, arith, ◌==◌, if◌then◌else◌, Bool-cases, ℕ_discrete,
}
use mathlib.Core.Path.{subst, fun_ext}
use izem.Prelude.Family.{put}
use izem.Queue.Bucket.{Bucket}
use izem.Queue.Swp.{
  Ptr, null, Swp, Pc, idle, at_head, found, allocate, fill, swap_tail, link, move_head, release,
  enqueue_alloc, enqueue_fill, enqueue_swap, enqueue_link, dequeue_load, dequeue_test, dequeue_next,
  dequeue_move, dequeue_data, dequeue_free, init,
}
use izem.Queue.Swp.Invariant.{Inv}
use izem.Queue.Swp.Keeps.{after, Move-Inv, Inv-init}
use izem.Queue.Swp.Alone.{isempty_weak, isempty_strong, enqueue, dequeue, alone, window}

-- A queue between two operations, and the least address above those in use.
pub record Quiet : Type 0 where
  pub mem : Swp
  pub fresh : Ptr
  pub inv : Inv (alone mem)
  pub free_above : (a : Ptr) → fresh ≤ a → mem.live a ≡ false
  pub fresh_set : 0 < fresh

-- When all threads are back, the state is that of a quiet queue.
settled :
    (m : Swp) (pc : ℕ → Pc)
    → ((j : ℕ) → pc j ≡ idle)
    → Inv (record { mem = m; pc = pc })
    → Inv (alone m)
settled m pc back inv = subst (λ f. Inv (record { mem = m; pc = f })) (fun_ext back) inv

enqueue-Inv :
    (p d : Ptr) (m : Swp)
    → p ≢ null
    → m.live p ≡ false
    → Inv (alone m)
    → Inv (alone (enqueue p d m))
unfolding enqueue allocate fill swap_tail link
enqueue-Inv p d m ne free inv =
    let inv1 = Move-Inv inv 1 (enqueue_alloc {p = p} {d = d} ne free) in
    let inv2 = Move-Inv inv1 1 (enqueue_fill {p = p} {d = d}) in
    let inv3 = Move-Inv inv2 1 (enqueue_swap {p = p} {d = d}) in
    let inv4 = Move-Inv inv3 1 (enqueue_link {p = p}) in settled _ _ (λ j. ground arith) inv4

dequeue-Inv : (m : Swp) → Inv (alone m) → Inv (alone (dequeue m).0)
unfolding dequeue isempty_weak move_head release
dequeue-Inv m inv = elim (Bool-cases (m.next m.head == null)) [
  | inl e ↦ rw e inv
  | inr e ↦ rw e (
      let inv1 = Move-Inv inv 0 (dequeue_load refl) in
      let inv2 : Inv (after (after (alone m) 0 m (at_head m.head)) 0 m (found m.head)) =
        subst
          (λ b.
            Inv
              (after (after (alone m) 0 m (at_head m.head)) 0 m (if b then idle else found m.head)))
          e (Move-Inv inv1 0 (dequeue_test {h = m.head})) in
      let inv3 = Move-Inv inv2 0 (dequeue_next {h = m.head}) in
      let inv4 = Move-Inv inv3 0 (dequeue_move {h = m.head} {q = m.next m.head}) in
      let inv5 = Move-Inv inv4 0 (dequeue_data {h = m.head} {q = m.next m.head}) in
      let inv6 = Move-Inv inv5 0 (dequeue_free {h = m.head} {v = m.value (m.next m.head)}) in
      settled _ _ (λ j. ground arith) inv6)
]

-- The next node of a quiet queue.
module _ (m : Swp) (inv : Inv (alone m)) where
  next_linked :
      m.left < m.entered
      → (m.next m.head ≡ m.order (suc m.left))
        × (m.next m.head ≢ null)
        × (m.value (m.next m.head) ≡ m.given (suc m.left))
  next_linked lt = elim (inv.chain m.left (omega arith) lt) [
    | inl e ↦ ground (arith, inv.head, inv.stored (suc m.left), inv.contents (suc m.left))
    | inr (_, (j, e)) ↦ cc
  ]

  weak_left : (m.next m.head == null) ≡ (m.left == m.entered)
  weak_left = elim (ℕ_discrete m.left m.entered) [
    | yes all ↦ ground (arith, inv.head, inv.last)
    | no more ↦
        let lt : m.left < m.entered = omega (arith, inv.ordered) in ground (arith, next_linked lt)
  ]

  weak_empty : isempty_weak m ≡ (m.left == m.entered)
  unfolding isempty_weak
  weak_empty = weak_left

  strong_left : isempty_strong m ≡ (m.left == m.entered)
  unfolding isempty_strong
  strong_left = ground (arith, weak_left, inv.head, inv.tail)

window-put : (f : ℕ → Ptr) (lo n k d : ℕ) → lo + n < k → window (put f k d) lo n ≡ window f lo n
window-put f lo zero k d lt = refl
window-put f lo (suc n) k d lt =
    let rest = window-put f (suc lo) n k d (omega (arith, lt)) in ground (arith, rest)

window-snoc :
    (f : ℕ → Ptr) (lo n : ℕ) → window f lo (suc n) ≡ window f lo n ++ f (suc (lo + n)) ∷ []
window-snoc f lo zero = ap (λ k. f (suc k) ∷ []) (omega arith)
window-snoc f lo (suc n) =
    ap (λ xs. f (suc lo) ∷ xs)
      (window-snoc f (suc lo) n ∙ ap (λ k. window f (suc lo) n ++ f (suc k) ∷ []) (omega arith))

-- The data in a queue, the oldest first.
abbrev pub contents : Swp → List Ptr
contents m = window m.given m.left (m.entered - m.left)

contents-enqueue :
    (p d : Ptr) (m : Swp) → Inv (alone m) → contents (enqueue p d m) ≡ contents m ++ d ∷ []
unfolding enqueue allocate fill swap_tail link
contents-enqueue p d m inv =
    let n = m.entered - m.left in
    let o = inv.ordered in
    let given' = put m.given (suc m.entered) d in
    let size : suc m.entered - m.left ≡ suc n = omega (arith, o) in
    let top : suc (m.left + n) ≡ suc m.entered = omega (arith, o) in
    ap (window given' m.left) size
    ∙ window-snoc given' m.left n
    ∙ ap (λ xs. xs ++ given' (suc (m.left + n)) ∷ [])
        (window-put m.given m.left n (suc m.entered) d (omega (arith, o)))
    ∙ ap (λ e. contents m ++ e ∷ []) (ground (arith, top))

contents-dequeue :
    (m : Swp)
    → Inv (alone m)
    → isempty_weak m ≡ false
    → contents m ≡ (dequeue m).1 ∷ contents (dequeue m).0
unfolding dequeue isempty_weak move_head release
contents-dequeue m inv e =
    let o = inv.ordered in
    let lt : m.left < m.entered = ground (arith, weak_left m inv, e, o) in
    let size : m.entered - m.left ≡ suc (m.entered - suc m.left) = omega (arith, lt) in
    let (_, _, given) = next_linked m inv lt in
    rw e (
      ap (window m.given m.left) size
      ∙ ap (λ d. d ∷ window m.given (suc m.left) (m.entered - suc m.left)) (sym given))

contents-none : (m : Swp) → Inv (alone m) → ((m.left == m.entered) ≡ true) ↔ (contents m ≡ [])
contents-none m inv = elim (ℕ_discrete m.left m.entered) [
  | yes all ↦
      let none_left : m.entered - m.left ≡ 0 = omega (arith, all) in
      (λ e. ap (window m.given m.left) none_left, λ e. ground (arith, all))
  | no more ↦
      let lt : m.entered - m.left ≡ suc (m.entered - suc m.left) =
        omega (arith, inv.ordered, more) in
      (
        λ e. absurd (ground (arith, e, more)),
        λ e. let z = sym (ap (window m.given m.left) lt) ∙ e in absurd (ground (arith, z)),
      )
]

enqueued : Ptr → Quiet → Quiet
unfolding enqueue allocate fill swap_tail link
enqueued d q = record {
  mem = enqueue q.fresh d q.mem;
  fresh = suc q.fresh;
  inv =
      enqueue-Inv q.fresh d q.mem (λ e. omega (arith, e, q.fresh_set))
        (q.free_above q.fresh (omega arith)) q.inv;
  free_above = λ a le. ground (arith, q.free_above a);
  fresh_set = omega arith;
}

dequeue-live : (m : Swp) (a : Ptr) → m.live a ≡ false → (dequeue m).0.live a ≡ false
unfolding dequeue isempty_weak move_head release
dequeue-live m a e = ground (arith, e)

-- A queue that has nothing to give is not changed.
dequeued : (b : Bool) (q : Quiet) → isempty_weak q.mem ≡ b → Quiet × Ptr
dequeued true q e = (q, null)
dequeued false q e = (
  record {
    mem = (dequeue q.mem).0;
    fresh = q.fresh;
    inv = dequeue-Inv q.mem q.inv;
    free_above = λ a le. dequeue-live q.mem a (q.free_above a le);
    fresh_set = q.fresh_set;
  },
  (dequeue q.mem).1,
)

dequeued-contents :
    (b : Bool) (q : Quiet) (e : isempty_weak q.mem ≡ b)
    → b ≡ false
    → contents q.mem ≡ (dequeued b q e).1 ∷ contents (dequeued b q e).0.mem
unfolding dequeued
dequeued-contents true q e no_data = cc
dequeued-contents false q e no_data = contents-dequeue q.mem q.inv e

dequeued-empty :
    (b : Bool) (q : Quiet) (e : isempty_weak q.mem ≡ b) → b ≡ true → dequeued b q e ≡ (q, null)
unfolding dequeued
dequeued-empty true q e none_left = refl
dequeued-empty false q e none_left = cc

-- The swap queue, by one thread at a time, keeps the promises that zm_mpbqueue.c relies on.
pub swp_bucket : Bucket Quiet
unfolding enqueued enqueue
swp_bucket = record {
  new = record {
    mem = (init 1 (λ _. null) (λ _. null)).mem;
    fresh = 2;
    inv = Inv-init 1 (λ _. null) (λ _. null) (omega arith);
    free_above = λ a le. ground arith;
    fresh_set = omega arith;
  };
  enqueue = enqueued;
  dequeue = λ q. dequeued (isempty_weak q.mem) q refl;
  isempty_weak = λ q. isempty_weak q.mem;
  isempty_strong = λ q. isempty_strong q.mem;
  view = λ q. contents q.mem;
  view_new = refl;
  view_enqueue = λ d q. contents-enqueue q.fresh d q.mem q.inv;
  view_dequeue = λ q e. dequeued-contents (isempty_weak q.mem) q refl e;
  weak_iff = λ q.
      subst (λ b. (b ≡ true) ↔ (contents q.mem ≡ [])) (sym (weak_empty q.mem q.inv))
        (contents-none q.mem q.inv);
  strong_iff = λ q.
      subst (λ b. (b ≡ true) ↔ (contents q.mem ≡ [])) (sym (strong_left q.mem q.inv))
        (contents-none q.mem q.inv);
  dequeue_empty = λ q e. dequeued-empty (isempty_weak q.mem) q refl e;
}
