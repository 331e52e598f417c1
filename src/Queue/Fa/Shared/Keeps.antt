-- ===== src/Queue/Fa/Shared/Keeps.antt =====
-- Every access of zm_faqueue.c keeps the invariant.
use izem.Prelude.{ℕ, suc, ◌≡◌, ◌≢◌, refl, arith, ℕ_discrete}
use izem.Prelude.Family.{put, put_all}
use izem.Interleave.{State, Step, pick, Reach, Reach-invariant}
use izem.Queue.Fa.Shared.{
  Ptr, null, FaMem, Pc, headed, walking, loaded, making, made, lost, linked, add_tail, store,
  protect, seg_new, link, retire, move_head, add_head, Move, enqueue_add, enqueue_head, find_next,
  find_store, advance_protect, advance_alloc, advance_link, advance_lose, advance_reload,
  dequeue_load, dequeue_stay, dequeue_wait, dequeue_move, dequeue_free, dequeue_test, dequeue_data,
  dequeue_count, init, Unwrapped,
}
use izem.Queue.Fa.Shared.Invariant.{Local, Inv}
use izem.Queue.Fa.Shared.Private.{
  private_live_keeps, private_alone_keeps, private_out_keeps, private_empty_keeps,
  private_kept_keeps, retired_live_keeps, retired_old_keeps,
}
use izem.Queue.Fa.Shared.Cells.{
  found_segment, head_usable, pending_usable, content-store, content_new, content-link,
  contents_keeps, filled_keeps, pending_keeps, unfilled_keeps, single_keeps,
}
use izem.Queue.Fa.Shared.Segments.{
  tail_keeps, ordered_keeps, first_keeps, first_last_keeps, first_low_keeps, first_high_keeps,
  numbered_keeps, stored_keeps, chain_keeps, end_keeps, at_head, head_content, last_segment,
}

-- The state after thread `i` has gone to `p` and left memory `m`.
abbrev pub after : State FaMem Pc → ℕ → FaMem → Pc → State FaMem Pc
after s i m p = record { mem = m; pc = put s.pc i p }

-- The segment in a producer's hands, and its number.
abbrev hand : Pc → Ptr
hand (made d c q k t) = t
hand (lost d c q k t) = t
hand _ = null

abbrev entry : Pc → Ptr
entry (headed d c q) = q
entry _ = null

abbrev pub place : Pc → ℕ
place (walking d c q k) = k
place (loaded d c q k n) = k
place (making d c q k) = k
place (made d c q k t) = k
place (lost d c q k t) = k
place (linked d c q k) = k
place _ = 0

module _ {s : State FaMem Pc} (inv : Inv s) (ok : Unwrapped s) (i : ℕ) where
  open s use {mem, pc}

  mover_knows : {p : Pc} {m : FaMem} {p' : Pc} → Move i mem p m p' → pc i ≡ p → Local m i p'
  unfolding add_tail store protect seg_new link retire move_head add_head
  mover_knows enqueue_add at = tt
  mover_knows (enqueue_head {d} {c}) at =
      ground (arith, inv.pending i c, inv.first, inv.first_last, inv.first_low)
  mover_knows (find_next {s = r} {k} lt) at = elim (ℕ_discrete k mem.last) [
    | yes top ↦ ground (arith, inv.locals i, inv.end)
    | no under ↦ ground (arith, inv.locals i, inv.chain k)
  ]
  mover_knows advance_protect at = ground (arith, inv.locals i)
  mover_knows (advance_alloc {t} set free) at =
      ground (arith, inv.locals i, inv.stored (place (pc i)))
  mover_knows (advance_link {s = r} {k = l} {t} last) at =
      ground (arith, inv.locals i, last_segment inv l)
  mover_knows (advance_lose {s = r} {k} set) at = elim (ℕ_discrete k mem.last) [
    | yes top ↦ absurd (ground (arith, inv.locals i, inv.end))
    | no under ↦ ground (arith, inv.locals i)
  ]
  mover_knows (advance_reload {s = r} {k}) at = ground (arith, inv.locals i, inv.chain k)
  mover_knows (dequeue_load e) at = elim (ℕ_discrete (mem.id mem.seg_head) mem.last) [
    | yes top ↦ ground (arith, inv.first, inv.end)
    | no under ↦ ground (arith, inv.first, inv.first_last, inv.chain (mem.id mem.seg_head))
  ]
  mover_knows (dequeue_stay low) at = ground (arith, inv.locals i)
  mover_knows (dequeue_wait high) at = tt
  mover_knows (dequeue_move {n} beyond set) at =
      ground
        (arith, inv.locals i, inv.first, inv.first_high, inv.numbered (suc (mem.id mem.seg_head)))
  mover_knows dequeue_free at = ground (arith, inv.locals i)
  mover_knows (find_store {d} {c} {s = r} {k} past) at =
      ground (arith, pending_usable inv i at past)
  mover_knows dequeue_test at = ground (arith, inv.locals i, head_content inv, head_usable inv)
  mover_knows dequeue_data at = ground (
    arith,
    inv.locals i,
    head_content inv,
    head_usable inv,
    inv.contents mem.head,
    at_head inv,
    inv.first_last,
  )
  mover_knows dequeue_count at =
      ground (arith, inv.locals i, inv.contents mem.head, at_head inv, inv.first_last, inv.ordered)
  mover_knows mv at = ground (arith, inv.locals i)

  others_know :
      {p : Pc} {m : FaMem} {p' : Pc}
      → Move i mem p m p'
      → pc i ≡ p
      → (j : ℕ) → j ≢ i
      → (q : Pc) → pc j ≡ q
      → Local m j q
  unfolding add_tail store protect seg_new link retire move_head add_head
  others_know (enqueue_add {d}) at j ne q is =
      ground (arith, inv.locals j, inv.ordered, inv.contents mem.head, at_head inv, inv.first_last)
  others_know (find_store {d} {c} {s = r} {k} past) at j ne q is = ground (
    arith,
    inv.locals j,
    content-store inv c mem.head d,
    found_segment inv i at past,
    inv.unfilled i c,
    at_head inv,
    inv.first_last,
  )
  others_know (advance_alloc {t} set free) at j ne q is = ground (
    arith,
    inv.locals j,
    inv.stored (place q),
    inv.stored (mem.id (entry q)),
    inv.private_live j (hand q),
    inv.first,
    inv.first_last,
    inv.stored (mem.id mem.seg_head),
    inv.numbered (place q),
    content_new inv t 0 mem.head free,
    at_head inv,
  )
  others_know (advance_link {s = r} {k = l} {t} last) at j ne q is = ground (
    arith,
    inv.locals j,
    inv.locals i,
    inv.private_out j (hand q) l,
    inv.first_last,
    content-link inv t r mem.head,
    at_head inv,
  )
  others_know (dequeue_move beyond set) at j ne q is = ground (arith, inv.locals j, inv.locals i)
  others_know dequeue_count at j ne q is = ground (arith, inv.locals j, inv.locals i)
  others_know mv at j ne q is = ground (arith, inv.locals j, inv.locals i)

  pub Move-Inv : {p' : Pc} {m : FaMem} → Move i mem (pc i) m p' → Inv (after s i m p')
  Move-Inv {p'} {m} mv = record {
    tail = tail_keeps inv ok i mv refl;
    ordered = ordered_keeps inv ok i mv refl;
    first = first_keeps inv ok i mv refl;
    first_last = first_last_keeps inv ok i mv refl;
    first_low = first_low_keeps inv ok i mv refl;
    first_high = first_high_keeps inv ok i mv refl;
    numbered = numbered_keeps inv ok i mv refl;
    stored = stored_keeps inv ok i mv refl;
    chain = chain_keeps inv ok i mv refl;
    end = end_keeps inv ok i mv refl;
    contents = contents_keeps inv ok i mv refl;
    filled = filled_keeps inv ok i mv refl;
    pending = pending_keeps inv ok i mv refl;
    unfilled = unfilled_keeps inv ok i mv refl;
    single = single_keeps inv ok i mv refl;
    private_live = private_live_keeps inv ok i mv refl;
    private_alone = private_alone_keeps inv ok i mv refl;
    private_out = private_out_keeps inv ok i mv refl;
    private_empty = private_empty_keeps inv ok i mv refl;
    private_kept = private_kept_keeps inv ok i mv refl;
    retired_live = retired_live_keeps inv ok i mv refl;
    retired_old = retired_old_keeps inv ok i mv refl;
    locals =
        put_all (Local m) pc i p' (mover_knows mv refl)
          (λ j ne. others_know mv refl j ne (pc j) refl);
  }

Inv-init :
    (p : Ptr) (id : Ptr → ℕ) (cells : Ptr → ℕ → ℕ) (next : Ptr → Ptr)
    → p ≢ null
    → Inv (init p id cells next)
Inv-init p id cells next ne = record {
  tail = omega arith;
  ordered = omega arith;
  first = refl;
  first_last = ground arith;
  first_low = ground arith;
  first_high = ground arith;
  numbered = λ k le. ground arith;
  stored = λ k le. ground arith;
  chain = λ k lt. absurd (omega arith);
  end = ground arith;
  contents = λ c le has. absurd (ground arith);
  filled = λ c lt. absurd (omega arith);
  pending = λ i c. cc;
  unfilled = λ i c. cc;
  single = λ i j c. cc;
  private_live = λ i t. cc;
  private_alone = λ i j t. cc;
  private_out = λ i t k. cc;
  private_empty = λ i t j. cc;
  private_kept = λ i t. cc;
  retired_live = λ t. cc;
  retired_old = λ k le. cc;
  locals = λ i. tt;
}

pub Reach-Inv :
    {n : ℕ} {p : Ptr} (id : Ptr → ℕ) (cells : Ptr → ℕ → ℕ) (next : Ptr → Ptr) {s : State FaMem Pc}
    → p ≢ null
    → Reach Move Unwrapped n (init p id cells next) s
    → Inv s
Reach-Inv {n} {p} id cells next {s} ne run =
    Reach-invariant Inv (Inv-init p id cells next ne) (λ r t inv ok st. Step-Inv r t inv ok st) s
      run
  where
    Step-Inv : (r t : State FaMem Pc) → Inv r → Unwrapped r → Step Move n r t → Inv t
    Step-Inv r t inv ok (pick i lt mv) = Move-Inv inv ok i mv
