-- ===== src/Queue/Fa/Cells.antt =====
-- zm_faqueue.c is a queue.
use izem.Prelude.{
  ℕ, zero, suc, ◌+◌, ◌-◌, ◌*◌, ◌/◌, ◌%◌, ◌^◌, ◌<◌, ◌≤◌, ◌≡◌, ◌≢◌, refl, sym, ◌∙◌, inl, inr, ◌&&◌,
  List, [], ◌∷◌, ◌++◌, arith, ◌==◌, if◌then◌else◌, length, get_or, Bool-cases, length-append,
}
use mathlib.Core.Path.{subst}
use izem.Queue.Fa.{alpha, Seg, FaQueue, seg_alloc, faqueue_init, store_cell, faqueue_enqueue}

-- The content of cell `j` of the `k`-th segment, which is empty while there is no such segment.
abbrev pub content : List Seg → ℕ → ℕ → ℕ
content [] k j = alpha
content (s ∷ ss) zero j = s.cells j
content (s ∷ ss) (suc k) j = content ss k j

-- The segments are numbered from `i` on.
abbrev pub Numbered : ℕ → List Seg → Type 0
Numbered i [] = Unit
Numbered i (s ∷ ss) = (s.id ≡ i) × Numbered (suc i) ss

abbrev segs : FaQueue → List Seg
segs q = q.seg_head ∷ q.others

-- The queue holds the data `ds`, the oldest first: they stand in the cells from `head` to `tail`,
-- and the cells behind are empty.
pub record Holds (q : FaQueue) (ds : List ℕ) : Type 0 where
  pub numbered : Numbered (suc q.seg_head.id) q.others
  pub lower : q.seg_head.id * 1024 ≤ q.head
  pub upper : q.head ≤ q.seg_head.id * 1024 + 1024
  pub count : q.tail ≡ q.head + length ds
  pub cells :
      (c : ℕ)
      → q.head ≤ c
      → content (segs q) (c / 1024 - q.seg_head.id) (c % 1024) ≡ get_or ds (c - q.head) alpha
  pub proper : (i : ℕ) → i < length ds → get_or ds i alpha ≢ alpha

suc-== : (a b : ℕ) → (suc a == suc b) ≡ (a == b)
suc-== a b = ground arith

content_new : (i k j : ℕ) → content (seg_alloc i ∷ []) k j ≡ alpha
unfolding seg_alloc
content_new i zero j = refl
content_new i (suc k) j = refl

store_cell-content :
    (n j d : ℕ) (s : Seg) (ss : List Seg) (k i : ℕ)
    → content ((store_cell n j d s ss).0 ∷ (store_cell n j d s ss).1) k i
      ≡ (if (n == k) && (j == i) then d else content (s ∷ ss) k i)
unfolding store_cell
store_cell-content zero j d s ss zero i = ground arith
store_cell-content zero j d s ss (suc k) i = ground arith
store_cell-content (suc n) j d s [] zero i = ground arith
store_cell-content (suc n) j d s [] (suc k) i =
    store_cell-content n j d (seg_alloc (suc s.id)) [] k i
    ∙ rw (suc-== n k, content_new (suc s.id) k i) refl
store_cell-content (suc n) j d s (t ∷ ss) zero i = ground arith
store_cell-content (suc n) j d s (t ∷ ss) (suc k) i =
    store_cell-content n j d t ss k i ∙ rw (suc-== n k) refl

store_cell-Numbered :
    (n j d : ℕ) (s : Seg) (ss : List Seg)
    → Numbered (suc s.id) ss
    → ((store_cell n j d s ss).0.id ≡ s.id) × Numbered (suc s.id) (store_cell n j d s ss).1
unfolding store_cell
store_cell-Numbered zero j d s ss h = (refl, h)
store_cell-Numbered (suc n) j d s [] h =
    (refl, store_cell-Numbered n j d (seg_alloc (suc s.id)) [] tt)
store_cell-Numbered (suc n) j d s (t ∷ ss) (e, h) =
    let (same, more) =
      store_cell-Numbered n j d t ss (subst (λ i. Numbered (suc i) ss) (sym e) h) in
    (refl, (same ∙ e, subst (λ i. Numbered (suc i) (store_cell n j d t ss).1) e more))

-- A place is a segment and a cell in it.
same_place :
    (i t c : ℕ)
    → i * 1024 ≤ t
    → i * 1024 ≤ c
    → ((t / 1024 - i == c / 1024 - i) && (t % 1024 == c % 1024)) ≡ (t == c)
same_place i t c le le' = ground arith

get_or-append :
    (xs : List ℕ) (d i a : ℕ)
    → get_or (xs ++ d ∷ []) i a ≡ (if length xs == i then d else get_or xs i a)
get_or-append [] d zero a = ground arith
get_or-append [] d (suc i) a = ground arith
get_or-append (x ∷ xs) d zero a = ground arith
get_or-append (x ∷ xs) d (suc i) a = get_or-append xs d i a ∙ rw (suc-== (length xs) i) refl

proper_append :
    (ds : List ℕ) (d k : ℕ)
    → d ≢ alpha
    → ((i : ℕ) → i < length ds → get_or ds i alpha ≢ alpha)
    → k < length (ds ++ d ∷ [])
    → get_or (ds ++ d ∷ []) k alpha ≢ alpha
proper_append ds d k ne all lt =
    let l = length-append ds (d ∷ []) in
    elim (Bool-cases (length ds == k)) [
      | inl e ↦ rw (get_or-append ds d k alpha, e) ne
      | inr e ↦ rw (get_or-append ds d k alpha, e) (all k (ground arith))
    ]

-- `zm_faqueue_init` makes an empty queue.
pub faqueue_init-Holds : Holds faqueue_init []
unfolding faqueue_init seg_alloc
faqueue_init-Holds = record {
  numbered = tt;
  lower = omega arith;
  upper = omega arith;
  count = refl;
  cells = λ c le. content_new 0 (c / 1024 - 0) (c % 1024);
  proper = λ i lt. absurd (omega arith);
}

-- `zm_faqueue_enqueue` of data other than `ZM_FAQUEUE_ALPHA` puts them behind the others, while
-- fewer than 2^64 - 1 have been put in since the start.
pub faqueue_enqueue-append :
    (q : FaQueue) (ds : List ℕ) (d : ℕ)
    → Holds q ds
    → d ≢ alpha
    → q.tail + 1 < 2 ^ 64
    → Holds (faqueue_enqueue q d) (ds ++ d ∷ [])
unfolding faqueue_enqueue
faqueue_enqueue-append q ds d h ne lt =
    let i = q.seg_head.id in
    let (e, num) =
      store_cell-Numbered (q.tail / 1024 - i) (q.tail % 1024) d q.seg_head q.others h.numbered in
    let s = (store_cell (q.tail / 1024 - i) (q.tail % 1024) d q.seg_head q.others).0 in
    let ss = (store_cell (q.tail / 1024 - i) (q.tail % 1024) d q.seg_head q.others).1 in
    record {
      numbered = subst (λ k. Numbered (suc k) ss) (sym e) num;
      lower = omega (arith, e, h.lower);
      upper = omega (arith, e, h.upper);
      count = omega (arith, h.count, length-append ds (d ∷ []));
      cells = λ c le. rw e (cell c le);
      proper = λ k lt'. proper_append ds d k ne h.proper lt';
    }
  where
    cell :
        (c : ℕ)
        → q.head ≤ c
        → content
            ((store_cell (q.tail / 1024 - q.seg_head.id) (q.tail % 1024) d q.seg_head q.others).0
              ∷ (store_cell
                  (q.tail / 1024 - q.seg_head.id)
                  (q.tail % 1024)
                  d
                  q.seg_head
                  q.others).1)
            (c / 1024 - q.seg_head.id)
            (c % 1024)
          ≡ get_or (ds ++ d ∷ []) (c - q.head) alpha
    cell c le =
        let count = h.count in
        let lower = h.lower in
        let same : (q.tail == c) ≡ (length ds == c - q.head) = ground arith in
        store_cell-content (q.tail / 1024 - q.seg_head.id) (q.tail % 1024) d q.seg_head q.others
          (c / 1024 - q.seg_head.id) (c % 1024)
        ∙ (rw
            (
              same_place q.seg_head.id q.tail c (omega arith) (omega arith),
              h.cells c le,
              same,
              get_or-append ds d (c - q.head) alpha,
            )
            refl)
