-- ===== src/Queue/Gl/Tests.antt =====
-- A queue of two data, and the theorems there.
use izem.Prelude.{refl, none, some, [], ◌∷◌, arith}
use izem.Prelude.Family.{put}
use izem.Heap.{null, Heap}
use izem.Queue.Gl.{GlNode, gl_node, GlQueue}
use izem.Queue.Gl.Chain.{IsQueue}

abbrev blank : Heap GlNode
blank a = none

-- Node 1 is in front of the data 10 and 20.
abbrev nodes : Heap GlNode
nodes =
    put (put (put blank 1 (some (gl_node null 2))) 2 (some (gl_node 10 3))) 3
      (some (gl_node 20 null))

abbrev queue : GlQueue
queue = record { head = 1; tail = 3 }

nodes-IsQueue : IsQueue nodes queue 1 null ((2, 10) ∷ (3, 20) ∷ [])
nodes-IsQueue =
    (refl, (omega arith, refl, refl, (omega arith, refl, refl, (omega arith, refl, refl, tt))))
