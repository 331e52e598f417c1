-- ===== src/Queue/Fa/Shared/Private.antt =====
-- Every access of zm_faqueue.c keeps a new segment in one thread's hands, and retires only old ones.
use izem.Prelude.{ℕ, suc, ◌-◌, ◌/◌, ◌≤◌, ◌<◌, ◌≡◌, ◌≢◌, true, false, some, arith}
use izem.Prelude.Family.{put}
use izem.Interleave.{State}
use izem.Queue.Fa.{seg_size, alpha}
use izem.Queue.Fa.Shared.{
  null, FaMem, Pc, add_tail, store, protect, seg_new, link, retire, move_head, add_head, Move,
  find_store, advance_alloc, advance_link, advance_free, dequeue_move, dequeue_free, Unwrapped,
}
use izem.Queue.Fa.Shared.Invariant.{owned, Inv}
use izem.Queue.Fa.Shared.Cells.{found_segment}
use izem.Queue.Fa.Shared.Segments.{same_segment}

module _ {s : State FaMem Pc} (inv : Inv s) (ok : Unwrapped s) (i : ℕ) where
  open s use {mem, pc}

  pub private_live_keeps :
      {p : Pc} {m : FaMem} {p' : Pc}
      → Move i mem p m p'
      → pc i ≡ p
      → (a q : ℕ) → owned (put pc i p' a) ≡ some q
      → (m.live q ≡ true) × (q ≢ null)
  unfolding add_tail store protect seg_new link retire move_head add_head
  private_live_keeps (advance_alloc {t} set free) at a q e = ground (arith, inv.private_live a q)
  private_live_keeps mv at a q e = ground (arith, inv.private_live a q)

  pub private_alone_keeps :
      {p : Pc} {m : FaMem} {p' : Pc}
      → Move i mem p m p'
      → pc i ≡ p
      → (a b q : ℕ) → owned (put pc i p' a) ≡ some q
      → owned (put pc i p' b) ≡ some q
      → a ≡ b
  unfolding add_tail store protect seg_new link retire move_head add_head
  private_alone_keeps (advance_alloc {t} set free) at a b q e f =
      ground (arith, inv.private_alone a b q, inv.private_live a q, inv.private_live b q)
  private_alone_keeps mv at a b q e f = ground (arith, inv.private_alone a b q)

  pub private_out_keeps :
      {p : Pc} {m : FaMem} {p' : Pc}
      → Move i mem p m p'
      → pc i ≡ p
      → (a q k : ℕ) → owned (put pc i p' a) ≡ some q
      → k ≤ m.last
      → m.segs k ≢ q
  unfolding add_tail store protect seg_new link retire move_head add_head
  private_out_keeps (advance_alloc {t} set free) at a q k e le same =
      ground (arith, inv.private_out a q k, inv.stored k)
  private_out_keeps (advance_link {s = r} {k = l} {t} last) at a q k e le same =
      ground (arith, inv.private_out a q k, inv.private_alone a i q)
  private_out_keeps mv at a q k e le same = ground (arith, inv.private_out a q k)

  pub private_empty_keeps :
      {p : Pc} {m : FaMem} {p' : Pc}
      → Move i mem p m p'
      → pc i ≡ p
      → (a q j : ℕ) → owned (put pc i p' a) ≡ some q
      → m.cells q j ≡ alpha
  unfolding add_tail store protect seg_new link retire move_head add_head
  private_empty_keeps (find_store {d} {c} {s = r} {k} past) at a q j e = ground (
    arith,
    inv.private_empty a q j,
    inv.private_out a q (c / seg_size),
    found_segment inv i at past,
  )
  private_empty_keeps (advance_alloc {t} set free) at a q j e =
      ground (arith, inv.private_empty a q j, inv.private_live a q)
  private_empty_keeps mv at a q j e = ground (arith, inv.private_empty a q j)

  pub private_kept_keeps :
      {p : Pc} {m : FaMem} {p' : Pc}
      → Move i mem p m p'
      → pc i ≡ p
      → (a q : ℕ) → owned (put pc i p' a) ≡ some q
      → m.retired q ≡ false
  unfolding add_tail store protect seg_new link retire move_head add_head
  private_kept_keeps (advance_alloc {t} set free) at a q e =
      ground (arith, inv.private_kept a q, inv.retired_live q)
  private_kept_keeps (advance_free {t}) at a q e =
      ground (arith, inv.private_kept a q, inv.private_alone a i q)
  private_kept_keeps (dequeue_free {old}) at a q e = ground (
    arith,
    inv.private_kept a q,
    inv.locals i,
    inv.private_out a q (mem.id mem.seg_head - 1),
    inv.first_last,
  )
  private_kept_keeps mv at a q e = ground (arith, inv.private_kept a q)

  pub retired_live_keeps :
      {p : Pc} {m : FaMem} {p' : Pc}
      → Move i mem p m p'
      → pc i ≡ p
      → (q : ℕ) → m.retired q ≡ true
      → m.live q ≡ true
  unfolding add_tail store protect seg_new link retire move_head add_head
  retired_live_keeps (advance_free {t}) at q e =
      ground (arith, inv.retired_live q, inv.private_live i q)
  retired_live_keeps (dequeue_free {old}) at q e = ground (
    arith,
    inv.retired_live q,
    inv.locals i,
    inv.stored (mem.id mem.seg_head - 1),
    inv.first_last,
  )
  retired_live_keeps mv at q e = ground (arith, inv.retired_live q)

  pub retired_old_keeps :
      {p : Pc} {m : FaMem} {p' : Pc}
      → Move i mem p m p'
      → pc i ≡ p
      → (k : ℕ) → k ≤ m.last
      → m.retired (m.segs k) ≡ true
      → k < m.id m.seg_head
  unfolding add_tail store protect seg_new link retire move_head add_head
  retired_old_keeps (advance_alloc {t} set free) at k le e =
      ground (arith, inv.retired_old k, inv.first, inv.first_last, inv.stored (mem.id mem.seg_head))
  retired_old_keeps (advance_link {s = r} {k = l} {t} last) at k le e =
      ground (arith, inv.retired_old k, inv.private_kept i t)
  retired_old_keeps (advance_free {t}) at k le e =
      ground (arith, inv.retired_old k, inv.private_out i t k)
  retired_old_keeps (dequeue_move {n} beyond set) at k le e =
      ground (arith, inv.retired_old k, inv.locals i, inv.numbered (suc (mem.id mem.seg_head)))
  retired_old_keeps (dequeue_free {old}) at k le e = ground (
    arith,
    inv.retired_old k,
    inv.locals i,
    same_segment inv k (mem.id mem.seg_head - 1),
    inv.first_last,
  )
  retired_old_keeps mv at k le e = ground (arith, inv.retired_old k)
