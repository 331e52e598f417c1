-- ===== src/Queue/Fa/Shared/Segments.antt =====
-- Every access of zm_faqueue.c keeps the chain of segments, and the consumer's place in it.
use izem.Prelude.{ℕ, suc, ◌+◌, ◌*◌, ◌/◌, ◌%◌, ◌^◌, ◌≤◌, ◌<◌, ◌≡◌, ◌≢◌, true, arith, ℕ_discrete}
use izem.Interleave.{State}
use izem.Queue.Fa.{seg_size}
use izem.Queue.Fa.Shared.{
  null, FaMem, Pc, add_tail, store, protect, seg_new, link, retire, move_head, add_head, Move,
  enqueue_add, advance_alloc, advance_link, dequeue_move, dequeue_count, Unwrapped,
}
use izem.Queue.Fa.Shared.Invariant.{content, InSegment, Inv}

module _ {s : State FaMem Pc} (inv : Inv s) where
  open s use {mem, pc}

  -- The consumer's cell is in its segment.
  pub at_head : InSegment mem → mem.head / seg_size ≡ mem.id mem.seg_head
  at_head in_ = omega (arith, in_, inv.first_low)

  pub head_content :
      InSegment mem → mem.cells mem.seg_head (mem.head % seg_size) ≡ content mem mem.head
  head_content in_ = ground (arith, at_head in_, inv.first)

  -- The new segment goes behind the last one.
  pub last_segment : (k : ℕ) → k ≤ mem.last → mem.next (mem.segs k) ≡ null → k ≡ mem.last
  last_segment k le e = elim (ℕ_discrete k mem.last) [
    | yes same ↦ same
    | no ne ↦ absurd (ground (arith, inv.chain k, inv.stored (suc k)))
  ]

  pub next_stored : mem.next mem.seg_head ≢ null → mem.id mem.seg_head < mem.last
  next_stored ne = elim (ℕ_discrete (mem.id mem.seg_head) mem.last) [
    | yes same ↦ absurd (ground (arith, inv.first, inv.end))
    | no other ↦ ground (arith, inv.first_last)
  ]

  pub same_segment : (j k : ℕ) → j ≤ mem.last → k ≤ mem.last → mem.segs j ≡ mem.segs k → j ≡ k
  same_segment j k lj lk e = ground (arith, inv.numbered j, inv.numbered k)

module _ {s : State FaMem Pc} (inv : Inv s) (ok : Unwrapped s) (i : ℕ) where
  open s use {mem, pc}

  pub tail_keeps :
      {p : Pc} {m : FaMem} {p' : Pc} → Move i mem p m p' → pc i ≡ p → m.tail ≡ m.entered % 2 ^ 64
  unfolding add_tail store protect seg_new link retire move_head add_head
  tail_keeps enqueue_add at = ground (arith, inv.tail)
  tail_keeps mv at = ground (arith, inv.tail)

  pub ordered_keeps :
      {p : Pc} {m : FaMem} {p' : Pc} → Move i mem p m p' → pc i ≡ p → m.head ≤ m.entered
  unfolding add_tail store protect seg_new link retire move_head add_head
  ordered_keeps enqueue_add at = ground (arith, inv.ordered)
  ordered_keeps dequeue_count at =
      ground (arith, inv.ordered, inv.locals i, inv.contents mem.head, inv.first_last, at_head inv)
  ordered_keeps mv at = ground (arith, inv.ordered)

  pub first_keeps :
      {p : Pc} {m : FaMem} {p' : Pc}
      → Move i mem p m p'
      → pc i ≡ p
      → m.seg_head ≡ m.segs (m.id m.seg_head)
  unfolding add_tail store protect seg_new link retire move_head add_head
  first_keeps (advance_alloc {t} ne free) at =
      ground (arith, inv.first, inv.first_last, inv.stored (mem.id mem.seg_head))
  first_keeps (advance_link {t} e) at = ground (arith, inv.first, inv.first_last)
  first_keeps (dequeue_move {n} beyond ne) at =
      ground (arith, inv.locals i, inv.numbered (suc (mem.id mem.seg_head)))
  first_keeps mv at = ground (arith, inv.first)

  pub first_last_keeps :
      {p : Pc} {m : FaMem} {p' : Pc} → Move i mem p m p' → pc i ≡ p → m.id m.seg_head ≤ m.last
  unfolding add_tail store protect seg_new link retire move_head add_head
  first_last_keeps (advance_alloc {t} ne free) at =
      ground (arith, inv.first, inv.first_last, inv.stored (mem.id mem.seg_head))
  first_last_keeps (advance_link {t} e) at = ground (arith, inv.first_last)
  first_last_keeps (dequeue_move {n} beyond ne) at =
      ground (arith, inv.locals i, inv.numbered (suc (mem.id mem.seg_head)))
  first_last_keeps mv at = ground (arith, inv.first_last)

  pub first_low_keeps :
      {p : Pc} {m : FaMem} {p' : Pc}
      → Move i mem p m p'
      → pc i ≡ p
      → m.id m.seg_head * seg_size ≤ m.head
  unfolding add_tail store protect seg_new link retire move_head add_head
  first_low_keeps (advance_alloc {t} ne free) at =
      ground (arith, inv.first, inv.first_low, inv.first_last, inv.stored (mem.id mem.seg_head))
  first_low_keeps (dequeue_move {n} beyond ne) at =
      ground (arith, inv.first_low, inv.locals i, inv.numbered (suc (mem.id mem.seg_head)))
  first_low_keeps dequeue_count at = ground (
    arith,
    inv.first_low,
    inv.ordered,
    inv.locals i,
    inv.contents mem.head,
    inv.first_last,
    at_head inv,
  )
  first_low_keeps mv at = ground (arith, inv.first_low)

  pub first_high_keeps :
      {p : Pc} {m : FaMem} {p' : Pc}
      → Move i mem p m p'
      → pc i ≡ p
      → m.head ≤ (m.id m.seg_head + 1) * seg_size
  unfolding add_tail store protect seg_new link retire move_head add_head
  first_high_keeps (advance_alloc {t} ne free) at =
      ground (arith, inv.first, inv.first_high, inv.first_last, inv.stored (mem.id mem.seg_head))
  first_high_keeps (dequeue_move {n} beyond ne) at =
      ground (arith, inv.first_high, inv.locals i, inv.numbered (suc (mem.id mem.seg_head)))
  first_high_keeps dequeue_count at =
      ground (arith, inv.locals i, inv.ordered, inv.contents mem.head, inv.first_last, at_head inv)
  first_high_keeps mv at = ground (arith, inv.first_high)

  pub numbered_keeps :
      {p : Pc} {m : FaMem} {p' : Pc}
      → Move i mem p m p'
      → pc i ≡ p
      → (k : ℕ) → k ≤ m.last
      → m.id (m.segs k) ≡ k
  unfolding add_tail store protect seg_new link retire move_head add_head
  numbered_keeps (advance_alloc {t} ne free) at k le = ground (arith, inv.numbered k, inv.stored k)
  numbered_keeps (advance_link {s = q} {k = l} {t} e) at k le =
      ground (arith, inv.numbered k, inv.locals i, last_segment inv l)
  numbered_keeps mv at k le = ground (arith, inv.numbered k)

  pub stored_keeps :
      {p : Pc} {m : FaMem} {p' : Pc}
      → Move i mem p m p'
      → pc i ≡ p
      → (k : ℕ) → k ≤ m.last
      → (m.live (m.segs k) ≡ true) × (m.segs k ≢ null)
  unfolding add_tail store protect seg_new link retire move_head add_head
  stored_keeps (advance_link {t} e) at k le = ground (arith, inv.stored k, inv.private_live i t)
  stored_keeps mv at k le = ground (arith, inv.stored k)

  pub chain_keeps :
      {p : Pc} {m : FaMem} {p' : Pc}
      → Move i mem p m p'
      → pc i ≡ p
      → (k : ℕ) → k < m.last
      → m.next (m.segs k) ≡ m.segs (suc k)
  unfolding add_tail store protect seg_new link retire move_head add_head
  chain_keeps (advance_alloc {t} ne free) at k lt = ground (arith, inv.chain k, inv.stored k)
  chain_keeps (advance_link {s = q} {k = l} {t} e) at k lt =
      ground (arith, inv.chain k, inv.locals i, last_segment inv l, same_segment inv k l)
  chain_keeps mv at k lt = ground (arith, inv.chain k)

  pub end_keeps :
      {p : Pc} {m : FaMem} {p' : Pc} → Move i mem p m p' → pc i ≡ p → m.next (m.segs m.last) ≡ null
  unfolding add_tail store protect seg_new link retire move_head add_head
  end_keeps (advance_alloc {t} ne free) at = ground (arith, inv.end, inv.stored mem.last)
  end_keeps (advance_link {s = q} {k = l} {t} e) at =
      ground (arith, inv.locals i, inv.private_out i t l)
  end_keeps mv at = ground (arith, inv.end)
