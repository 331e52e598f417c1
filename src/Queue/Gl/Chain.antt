-- ===== src/Queue/Gl/Chain.antt =====
-- The chain of nodes of zm_glqueue.c, and what the operations do to it.
use izem.Prelude.{◌∙◌, ◌==◌, ◌≡◌, ◌≢◌, refl, true, false, none, some, [], ◌∷◌, ◌++◌, arith}
use izem.Prelude.Family.{put, put_other}
use izem.Heap.{Ptr, null, Heap, Ensures, load-ok, modify-ok, free-ok}
use izem.SdList.Segment.{Cells, has, first, last, has-last, last-append, has-append}
use izem.Queue.Gl.{GlNode, gl_node, GlQueue, glqueue_init, glqueue_enqueue, glqueue_dequeue}

-- The distinct nodes `xs` are linked, and the last one has no successor.
abbrev pub Chain : Heap GlNode → Cells → Type 0
Chain h [] = Unit
Chain h ((a, d) ∷ xs) =
    (a ≢ null) × (has a xs ≡ false) × (h a ≡ some (gl_node d (first xs null))) × Chain h xs

-- The node at `a` is the one in front of the data `xs`, whatever data it holds.
abbrev pub IsQueue : Heap GlNode → GlQueue → Ptr → Ptr → Cells → Type 0
IsQueue h q a d xs = (q ≡ record { head = a; tail = last a xs }) × Chain h ((a, d) ∷ xs)

-- `g` is `h` but at the nodes `xs`.
abbrev pub Spares : Cells → Heap GlNode → Heap GlNode → Type 0
Spares xs h g = (c : Ptr) → has c xs ≡ false → g c ≡ h c

abbrev last_data : Ptr → Cells → Ptr
last_data d [] = d
last_data d ((a, e) ∷ xs) = last_data e xs

last_node :
    (h : Heap GlNode) (a d : Ptr) (xs : Cells)
    → Chain h ((a, d) ∷ xs)
    → (last a xs ≢ null) × (h (last a xs) ≡ some (gl_node (last_data d xs) null))
last_node h a d [] (ne, out, at, c) = (ne, at)
last_node h a d ((b, e) ∷ xs) (ne, out, at, c) = last_node h b e xs c

-- The chain after a change that spares its nodes.
frame :
    (h g : Heap GlNode) (xs : Cells)
    → Chain h xs
    → ((a : Ptr) → has a xs ≡ true → g a ≡ h a)
    → Chain g xs
frame h g [] c same = tt
frame h g ((a, d) ∷ xs) (ne, out, at, c) same =
    (ne, out, ground (arith, same a), frame h g xs c (λ b i. same b (ground arith)))

unused_out : (h : Heap GlNode) (p : Ptr) (xs : Cells) → Chain h xs → h p ≡ none → has p xs ≡ false
unused_out h p [] c e = refl
unused_out h p ((a, d) ∷ xs) (ne, out, at, c) e = ground (arith, unused_out h p xs c e)

-- The node `t` behind which the new one at `p` is linked.
abbrev linked : Heap GlNode → Ptr → Ptr → Ptr → Ptr → Heap GlNode
linked h t e p d = put (put h p (some (gl_node d null))) t (some (gl_node e p))

has_snoc : (a p d : Ptr) (xs : Cells) → has a xs ≡ false → a ≢ p → has a (xs ++ (p, d) ∷ []) ≡ false
has_snoc a p d [] out ne = ground arith
has_snoc a p d ((b, e) ∷ xs) out ne = ground (arith, has_snoc a p d xs)

has_ne : (c t : Ptr) (xs : Cells) → has c xs ≡ false → has t xs ≡ true → c ≢ t
has_ne c t xs out inside = ground arith

out_of_cons :
    (p a d : Ptr) (xs : Cells) → has p ((a, d) ∷ xs) ≡ false → (a ≢ p) × (has p xs ≡ false)
out_of_cons p a d xs out = (ground arith, ground arith)

linked_other : (h : Heap GlNode) (t e p d c : Ptr) → c ≢ t → c ≢ p → linked h t e p d c ≡ h c
linked_other h t e p d c ne ne' = ground arith

Chain-snoc :
    (h : Heap GlNode) (a d : Ptr) (xs : Cells) (p e : Ptr)
    → Chain h ((a, d) ∷ xs)
    → p ≢ null
    → has p ((a, d) ∷ xs) ≡ false
    → Chain (linked h (last a xs) (last_data d xs) p e) ((a, d) ∷ xs ++ (p, e) ∷ [])
Chain-snoc h a d [] p e (ne, out, at, c) ne' out' =
    (ne, ground arith, ground arith, (ne', refl, ground arith, tt))
Chain-snoc h a d ((b, f) ∷ xs) p e (ne, out, at, c) ne' out' =
    let inside = has-last b b f xs in
    let (ne_p, rest) = out_of_cons p a d ((b, f) ∷ xs) out' in
    let apart = has_ne a (last b xs) ((b, f) ∷ xs) out inside in
    (
      ne,
      has_snoc a p e ((b, f) ∷ xs) out ne_p,
      linked_other h (last b xs) (last_data f xs) p e a apart ne_p ∙ at,
      Chain-snoc h b f xs p e c ne' rest,
    )

-- The change behind the last node spares what is outside the new chain.
linked-Spares :
    (h : Heap GlNode) (t e p d : Ptr) (xs : Cells)
    → has t xs ≡ true
    → Spares (xs ++ (p, d) ∷ []) h (linked h t e p d)
linked-Spares h t e p d xs inside c out =
    let both = has-append c xs ((p, d) ∷ []) in
    let o : has c xs ≡ false = ground arith in
    let ne : c ≢ p = ground arith in linked_other h t e p d c (has_ne c t xs o inside) ne

-- `zm_glqueue_init` makes an empty queue.
pub glqueue_init-IsQueue :
    (h : Heap GlNode) (p : Ptr)
    → p ≢ null
    → Ensures (λ q g. IsQueue g q p null []) (glqueue_init p h)
unfolding glqueue_init
glqueue_init-IsQueue h p ne = (refl, (ne, refl, ground arith, tt))

-- `zm_glqueue_enqueue`, at an unused address, puts the data behind the others and writes only the
-- new node and the queue's own.
pub glqueue_enqueue-append :
    (h : Heap GlNode) (q : GlQueue) (a d : Ptr) (xs : Cells) (p e : Ptr)
    → IsQueue h q a d xs
    → p ≢ null
    → h p ≡ none
    → Ensures
        (λ q' g. IsQueue g q' a d (xs ++ (p, e) ∷ []) × Spares ((a, d) ∷ xs ++ (p, e) ∷ []) h g)
        (glqueue_enqueue q p e h)
unfolding glqueue_enqueue
glqueue_enqueue-append h q a d xs p e (same, c) ne unused =
    let out = unused_out h p ((a, d) ∷ xs) c unused in
    let (t_ne, at) = last_node h a d xs c in
    let inside = has-last a a d xs in
    let at' =
      put_other h p (last a xs) (some (gl_node e null))
        (has_ne p (last a xs) ((a, d) ∷ xs) out inside)
      ∙ at in
    rw
      (
        same,
        modify-ok (put h p (some (gl_node e null))) (last a xs) (gl_node (last_data d xs) null)
            (λ n. record n { next = p }) t_ne at',
      )
      (
        (rw (last-append a xs ((p, e) ∷ [])) refl, Chain-snoc h a d xs p e c ne out),
        linked-Spares h (last a xs) (last_data d xs) p e ((a, d) ∷ xs) inside,
      )

-- `zm_glqueue_dequeue` of an empty queue gives `NULL` and changes nothing.
pub glqueue_dequeue-empty :
    (h : Heap GlNode) (q : GlQueue) (a d : Ptr)
    → IsQueue h q a d []
    → Ensures (λ (q', e) g. (q' ≡ q) × (e ≡ null) × (g ≡ h)) (glqueue_dequeue q h)
unfolding glqueue_dequeue
glqueue_dequeue-empty h q a d (same, (ne, out, at, c)) =
    rw (same, load-ok h a (gl_node d null) ne at) (refl, refl, refl)

-- `zm_glqueue_dequeue` of any other queue gives the oldest data, takes them out, frees the node that
-- was in front of them and writes nowhere else.
pub glqueue_dequeue-cons :
    (h : Heap GlNode) (q : GlQueue) (a d b e : Ptr) (xs : Cells)
    → IsQueue h q a d ((b, e) ∷ xs)
    → Ensures
        (λ (q', f) g. IsQueue g q' b e xs × (f ≡ e) × (g ≡ put h a none))
        (glqueue_dequeue q h)
unfolding glqueue_dequeue
glqueue_dequeue-cons h q a d b e xs (same, (ne, out, at, (ne', out', at', c))) =
    let nz : (b == null) ≡ false = ground arith in
    rw
      (
        same,
        load-ok h a (gl_node d b) ne at,
        nz,
        load-ok h b (gl_node e (first xs null)) ne' at',
        free-ok h a (gl_node d b) ne at,
      )
      (
        (refl, frame h (put h a none) ((b, e) ∷ xs) (ne', out', at', c) (λ x i. ground arith)),
        refl,
        refl,
      )
