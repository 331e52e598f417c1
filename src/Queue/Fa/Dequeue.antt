-- ===== src/Queue/Fa/Dequeue.antt =====
-- `zm_faqueue_dequeue` takes the oldest data.
use izem.Prelude.{
  ℕ, suc, ◌+◌, ◌-◌, ◌*◌, ◌/◌, ◌%◌, ◌<◌, ◌≤◌, ◌≡◌, refl, sym, inl, inr, false, Option, none, some,
  List, [], ◌∷◌, arith, ◌==◌, ltb, get_or, Bool-cases,
}
use mathlib.Core.Path.{subst}
use izem.Queue.Fa.{alpha, Seg, FaQueue, take_cell, faqueue_dequeue}
use izem.Queue.Fa.Cells.{Holds, Numbered}

-- The oldest cell is in the first segment.
module _ (q : FaQueue) (inside : q.head < q.seg_head.id * 1024 + 1024) where
  front_cell : (ds : List ℕ) → Holds q ds → q.seg_head.cells (q.head % 1024) ≡ get_or ds 0 alpha
  front_cell ds h =
      let lower = h.lower in
      let z : q.head / 1024 - q.seg_head.id ≡ 0 = omega arith in
      let n : q.head - q.head ≡ 0 = omega arith in
      let g = h.cells q.head (omega arith) in rw (z, n) at g

  take_cell-empty : Holds q [] → take_cell q ≡ (q, none)
  unfolding take_cell
  take_cell-empty h = rw (front_cell [] h) refl

  take_cell-cons :
      (d : ℕ) (ds : List ℕ)
      → Holds q (d ∷ ds)
      → take_cell q ≡ (record q { head = q.head + 1 }, some d)
  unfolding take_cell
  take_cell-cons d ds h =
      let f = front_cell (d ∷ ds) h in
      let p = h.proper 0 (omega arith) in
      let ne : (d == alpha) ≡ false = ground arith in rw (f, ne) refl

  rest-Holds : (d : ℕ) (ds : List ℕ) → Holds q (d ∷ ds) → Holds (record q { head = q.head + 1 }) ds
  rest-Holds d ds h = record {
    numbered = h.numbered;
    lower = omega (arith, h.lower);
    upper = omega arith;
    count = omega (arith, h.count);
    cells = λ c le.
        let e : c - q.head ≡ suc (c - (q.head + 1)) = omega arith in
        let g = h.cells c (omega arith) in rw e at g;
    proper = λ i lt. h.proper (suc i) (omega arith);
  }

-- The front moves to the next segment.
next-Holds :
    (a t : ℕ) (s next : Seg) (rest : List Seg) (ds : List ℕ)
    → s.id < a / 1024
    → Holds (record { head = a; tail = t; seg_head = s; others = next ∷ rest }) ds
    → Holds (record { head = a; tail = t; seg_head = next; others = rest }) ds
next-Holds a t s next rest ds lt h =
    let e = h.numbered.0 in
    record {
      numbered = subst (λ i. Numbered (suc i) rest) (sym e) h.numbered.1;
      lower = omega (arith, e);
      upper = omega (arith, e, h.upper);
      count = h.count;
      cells = λ c le.
          let k : c / 1024 - s.id ≡ suc (c / 1024 - next.id) = omega (arith, e) in
          let g = h.cells c le in rw k at g;
      proper = h.proper;
    }

-- The first data are in an allocated segment.
no_next :
    (a t : ℕ) (s : Seg) (d : ℕ) (ds : List ℕ)
    → s.id < a / 1024
    → Holds (record { head = a; tail = t; seg_head = s; others = [] }) (d ∷ ds)
    → ⊥
no_next a t s d ds lt h =
    let upper = h.upper in
    let k : a / 1024 - s.id ≡ 1 = omega arith in
    let n : a - a ≡ 0 = omega arith in
    let g = h.cells a (omega arith) in h.proper 0 (omega arith) (sym (rw (k, n) at g))

-- What a dequeue does to a queue that holds `ds`.
abbrev pub Dequeues : List ℕ → FaQueue × Option ℕ → Type 0
Dequeues [] (q, r) = (r ≡ none) × Holds q []
Dequeues (d ∷ ds) (q, r) = (r ≡ some d) × Holds q ds

take_cell-Dequeues :
    (q : FaQueue) (ds : List ℕ)
    → q.head < q.seg_head.id * 1024 + 1024
    → Holds q ds
    → Dequeues ds (take_cell q)
take_cell-Dequeues q [] lt h = rw (take_cell-empty q lt h) (refl, h)
take_cell-Dequeues q (d ∷ ds) lt h = rw (take_cell-cons q lt d ds h) (refl, rest-Holds q lt d ds h)

dequeue_fields :
    (a t : ℕ) (s : Seg) (ss : List Seg) (ds : List ℕ)
    → Holds (record { head = a; tail = t; seg_head = s; others = ss }) ds
    → Dequeues ds (faqueue_dequeue (record { head = a; tail = t; seg_head = s; others = ss }))
unfolding faqueue_dequeue
dequeue_fields a t s ss ds h = elim (Bool-cases (ltb s.id (a / 1024))) [
  | inl beyond ↦ rw beyond (moved ss ds (ground arith) h)
  | inr inside ↦ rw inside (
      take_cell-Dequeues (record { head = a; tail = t; seg_head = s; others = ss }) ds
        (let le : a / 1024 ≤ s.id = ground arith in omega arith) h)
]
  where
    moved :
        (ss : List Seg) (ds : List ℕ)
        → s.id < a / 1024
        → Holds (record { head = a; tail = t; seg_head = s; others = ss }) ds
        → Dequeues ds (elim ss as (λ _. FaQueue × Option ℕ) [
          | [] ↦ (record { head = a; tail = t; seg_head = s; others = ss }, none)
          | next ∷ rest ↦ take_cell (record { head = a; tail = t; seg_head = next; others = rest })
        ])
    moved [] [] lt h = (refl, h)
    moved [] (d ∷ ds) lt h = absurd (no_next a t s d ds lt h)
    moved (next ∷ rest) ds lt h =
        let upper = h.upper in
        let e = h.numbered.0 in
        take_cell-Dequeues (record { head = a; tail = t; seg_head = next; others = rest }) ds
          (omega arith) (next-Holds a t s next rest ds lt h)

-- `zm_faqueue_dequeue` gives the oldest data and takes them out, and answers that there are none just
-- where the queue holds none, which it then leaves so.
pub faqueue_dequeue-front :
    (q : FaQueue) (ds : List ℕ) → Holds q ds → Dequeues ds (faqueue_dequeue q)
faqueue_dequeue-front q ds h = dequeue_fields q.head q.tail q.seg_head q.others ds h
