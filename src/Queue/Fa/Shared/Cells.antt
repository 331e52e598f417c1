-- ===== src/Queue/Fa/Shared/Cells.antt =====
-- Every access of zm_faqueue.c keeps what the cells hold, and who is to fill them.
use izem.Prelude.{
  ℕ, suc, ◌/◌, ◌%◌, ◌≤◌, ◌<◌, ◌≡◌, ◌≢◌, ◌⊎◌, inl, inr, true, false, some, arith, ℕ_discrete, ◌==◌,
  ltb, if◌then◌else◌,
}
use izem.Prelude.Family.{put}
use izem.Interleave.{State}
use izem.Queue.Fa.{seg_size, alpha}
use izem.Queue.Fa.Shared.{
  Ptr, null, FaMem, Pc, walking, made, add_tail, store, protect, seg_new, usable, link, retire,
  move_head, add_head, Move, enqueue_add, find_store, advance_alloc, advance_link, dequeue_count,
  Unwrapped,
}
use izem.Queue.Fa.Shared.Invariant.{cell_of, data_of, content, Inv}
use izem.Queue.Fa.Shared.Segments.{at_head, same_segment}

same_cell : (c e : ℕ) → c / seg_size ≡ e / seg_size → c % seg_size ≡ e % seg_size → c ≡ e
same_cell c e q r = omega (arith, q, r)

module _ {s : State FaMem Pc} (inv : Inv s) where
  open s use {mem, pc}

  -- A store into one cell leaves the others.
  pub content-store :
      (c e d : ℕ)
      → c / seg_size ≤ mem.last
      → e / seg_size ≤ mem.last
      → content (store (mem.segs (c / seg_size)) c d mem) e ≡ (if c == e then d else content mem e)
  unfolding store
  content-store c e d lc le =
      ground (arith, same_segment inv (c / seg_size) (e / seg_size), same_cell c e)

  -- A producer that has walked far enough is at the segment of its cell.
  pub found_segment :
      (i : ℕ) {d c : ℕ} {q : Ptr} {k : ℕ}
      → pc i ≡ walking d c q k
      → ltb k (c / seg_size) ≡ false
      → (q ≡ mem.segs (c / seg_size)) × (c / seg_size ≤ mem.last)
  found_segment i at past = ground (arith, inv.locals i)

  -- The consumer's segment may be used.
  pub head_usable : usable mem mem.seg_head ≡ true
  head_usable = ground (
    arith,
    inv.first,
    inv.first_last,
    inv.stored (mem.id mem.seg_head),
    inv.retired_old (mem.id mem.seg_head),
  )

  -- So may that of a cell that is still to be filled.
  pub pending_usable :
      (i : ℕ) {d c : ℕ} {q : Ptr} {k : ℕ}
      → pc i ≡ walking d c q k
      → ltb k (c / seg_size) ≡ false
      → usable mem q ≡ true
  pending_usable i {c} at past = ground (
    arith,
    found_segment i at past,
    inv.pending i c,
    inv.first_low,
    inv.stored (c / seg_size),
    inv.retired_old (c / seg_size),
  )

  -- Segments are only added.
  pub content-link :
      (t q : Ptr) (e : ℕ) → e / seg_size ≤ mem.last → content (link q t mem) e ≡ content mem e
  unfolding link
  content-link t q e le = ground arith

  pub content_new :
      (t k : ℕ) (e : ℕ)
      → mem.live t ≡ false
      → e / seg_size ≤ mem.last
      → content (seg_new t k mem) e ≡ content mem e
  unfolding seg_new
  content_new t k e free le = ground (arith, inv.stored (e / seg_size))

module _ {s : State FaMem Pc} (inv : Inv s) (ok : Unwrapped s) (i : ℕ) where
  open s use {mem, pc}

  -- The cells of a segment that is linked behind the last one are empty.
  content_linked :
      {d c : ℕ} {q : Ptr} {k : ℕ} {t : Ptr}
      → pc i ≡ made d c q k t
      → mem.next q ≡ null
      → (e : ℕ) → e / seg_size ≡ suc mem.last
      → content (link q t mem) e ≡ alpha
  unfolding link
  content_linked {d} {c} {q} {k} {t} at last e is =
      ground (arith, inv.private_empty i t (e % seg_size))

  pub contents_keeps :
      {p : Pc} {m : FaMem} {p' : Pc}
      → Move i mem p m p'
      → pc i ≡ p
      → (e : ℕ) → e / seg_size ≤ m.last
      → content m e ≢ alpha
      → (e < m.entered) × (content m e ≡ m.given e)
  unfolding add_tail store protect seg_new link retire move_head add_head
  contents_keeps (enqueue_add {d}) at e le ne = ground (arith, inv.contents e)
  contents_keeps (find_store {d} {c} {s = q} {k} past) at e le ne =
      ground (
        arith,
        content-store inv c e d,
        found_segment inv i at past,
        inv.pending i c,
        inv.contents e,
      )
  contents_keeps (advance_alloc {t} set free) at e le ne =
      ground (arith, inv.contents e, content_new inv t 0 e free)
  contents_keeps (advance_link {s = q} {k = l} {t} last) at e le ne =
      ground (arith, inv.contents e, content_linked at last e)
  contents_keeps mv at e le ne = ground (arith, inv.contents e)

  pub unfilled_keeps :
      {p : Pc} {m : FaMem} {p' : Pc}
      → Move i mem p m p'
      → pc i ≡ p
      → (j e : ℕ) → cell_of (put pc i p' j) ≡ some e
      → e / seg_size ≤ m.last
      → content m e ≡ alpha
  unfolding add_tail store protect seg_new link retire move_head add_head
  unfilled_keeps (enqueue_add {d}) at j e has le =
      ground (arith, inv.unfilled j e, inv.contents e, inv.tail)
  unfilled_keeps (find_store {d} {c} {s = q} {k} past) at j e has le = ground (
    arith,
    content-store inv c e d,
    found_segment inv i at past,
    inv.single i j c,
    inv.unfilled j e,
  )
  unfilled_keeps (advance_alloc {t} set free) at j e has le =
      ground (arith, inv.unfilled j e, content_new inv t 0 e free)
  unfilled_keeps (advance_link {s = q} {k = l} {t} last) at j e has le =
      ground (arith, inv.unfilled j e, content_linked at last e)
  unfilled_keeps mv at j e has le = ground (arith, inv.unfilled j e)

  pub pending_keeps :
      {p : Pc} {m : FaMem} {p' : Pc}
      → Move i mem p m p'
      → pc i ≡ p
      → (j e : ℕ) → cell_of (put pc i p' j) ≡ some e
      → (m.head ≤ e) × (e < m.entered) × (data_of (put pc i p' j) ≡ m.given e)
  unfolding add_tail store protect seg_new link retire move_head add_head
  pending_keeps (enqueue_add {d}) at j e has =
      ground (arith, inv.pending j e, inv.tail, inv.ordered)
  pending_keeps dequeue_count at j e has = ground (
    arith,
    inv.pending j e,
    inv.unfilled j e,
    inv.locals i,
    inv.first_last,
    at_head inv,
    inv.ordered,
    inv.contents mem.head,
  )
  pending_keeps mv at j e has = ground (arith, inv.pending j e)

  pub single_keeps :
      {p : Pc} {m : FaMem} {p' : Pc}
      → Move i mem p m p'
      → pc i ≡ p
      → (a b e : ℕ) → cell_of (put pc i p' a) ≡ some e
      → cell_of (put pc i p' b) ≡ some e
      → a ≡ b
  unfolding add_tail store protect seg_new link retire move_head add_head
  single_keeps (enqueue_add {d}) at a b e x y =
      ground (arith, inv.single a b e, inv.pending a e, inv.pending b e, inv.tail)
  single_keeps mv at a b e x y = ground (arith, inv.single a b e)

  pub filled_keeps :
      {p : Pc} {m : FaMem} {p' : Pc}
      → Move i mem p m p'
      → pc i ≡ p
      → (e : ℕ) → e < m.entered
      → ((j : ℕ) × (cell_of (put pc i p' j) ≡ some e))
        ⊎ ((e / seg_size ≤ m.last) × (content m e ≡ m.given e))
  unfolding add_tail store protect seg_new link retire move_head add_head
  filled_keeps (enqueue_add {d}) at e lt = elim (ℕ_discrete e mem.entered) [
    | yes new ↦ inl (i, ground (arith, inv.tail))
    | no old ↦ elim (inv.filled e (omega arith)) [
      | inl (j, has) ↦ inl (j, ground arith)
      | inr (le, has) ↦ inr (le, ground arith)
    ]
  ]
  filled_keeps (find_store {d} {c} {s = q} {k} past) at e lt = elim (ℕ_discrete e c) [
    | yes same ↦
        inr (ground (arith, content-store inv c e d, found_segment inv i at past, inv.pending i c))
    | no other ↦ elim (inv.filled e lt) [
      | inl (j, has) ↦ inl (j, ground arith)
      | inr (le, has) ↦
          inr (le, ground (arith, content-store inv c e d, found_segment inv i at past))
    ]
  ]
  filled_keeps (advance_alloc {t} set free) at e lt = elim (inv.filled e lt) [
    | inl (j, has) ↦ inl (j, ground arith)
    | inr (le, has) ↦ inr (le, ground (arith, content_new inv t 0 e free))
  ]
  filled_keeps mv at e lt = elim (inv.filled e lt) [
    | inl (j, has) ↦ inl (j, ground arith)
    | inr (le, has) ↦ inr (ground arith, ground arith)
  ]
