-- ===== src/Queue/Gl.antt =====
-- src/queue/zm_glqueue.c: a singly linked queue behind one mutex. The operations are modelled from
-- `pthread_mutex_lock` on to `pthread_mutex_unlock`, where no other thread moves the queue; the node
-- of an enqueue is at an address that `malloc` has returned.
pub mod Chain
mod Tests
use izem.Prelude.{◌==◌, if◌then◌else◌}
use izem.Heap.{Ptr, null, Cmd, pure, ◌>>=◌, ◌>>◌, load, modify, free, create}

-- `struct zm_glqnode`
pub record GlNode : Type 0 where
  pub payload : Ptr  -- the field `data`
  pub next : Ptr

abbrev pub gl_node : Ptr → Ptr → GlNode
gl_node d q = record { payload = d; next = q }

-- `struct zm_glqueue`
pub record GlQueue : Type 0 where
  pub head : Ptr
  pub tail : Ptr

pub glqueue_init : Ptr → Cmd GlNode GlQueue
glqueue_init p = do create p (gl_node null null); pure (record { head = p; tail = p })

pub glqueue_enqueue : GlQueue → Ptr → Ptr → Cmd GlNode GlQueue
glqueue_enqueue q p d = do
  create p (gl_node d null)
  modify q.tail (λ n. record n { next = p })
  pure (record q { tail = p })

-- The queue and `*data`.
pub glqueue_dequeue : GlQueue → Cmd GlNode (GlQueue × Ptr)
glqueue_dequeue q = do
  n ← load q.head
  if n.next == null
      then pure (q, null)
      else (do m ← load n.next; free q.head; pure (record q { head = n.next }, m.payload))
