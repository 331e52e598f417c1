-- ===== src/SdList.antt =====
-- src/include/list/zm_sdlist.h and src/list/zm_sdlist.c: the sequential doubly linked list.
-- A `zm_sdlist_t` is passed by value, and a function that updates one returns the new value.
-- `fresh` is what `malloc` returns. Loops run on fuel.
pub mod Segment
pub mod Push
pub mod Remove
pub mod Search
mod Tests
use izem.Prelude.{ℕ, zero, suc, ◌+◌, Bool, true, false, ◌==◌, if◌then◌else◌}
use izem.Prelude.Int.{ℤ, pos, ◌+ℤ◌, ◌-ℤ◌}
use izem.Heap.{Ptr, null, Heap, Cmd, out_of_fuel, pure, ◌>>=◌, ◌>>◌, load, modify, free, create}

-- `struct zm_sdlnode`
pub record Node : Type 0 where
  pub payload : Ptr  -- the field `data`
  pub next : Ptr
  pub prev : Ptr

abbrev pub node : Ptr → Ptr → Ptr → Node
node d q p = record { payload = d; next = q; prev = p }

-- `struct zm_sdlist`
pub record SdList : Type 0 where
  pub head : Ptr
  pub tail : Ptr
  pub length : ℤ

unfoldable pub init : SdList
init = record { head = null; tail = null; length = pos 0 }

pub push_back : (fresh : Ptr) → SdList → (payload : Ptr) → Cmd Node SdList
push_back fresh list d = do
  create fresh (node d null null)
  if list.tail == null
      then pure (record { head = fresh; tail = fresh; length = list.length +ℤ pos 1 })
      else (do
        modify list.tail (λ n. record n { next = fresh })
        modify fresh (λ n. record n { prev = list.tail })
        pure (record list { tail = fresh; length = list.length +ℤ pos 1 }))

-- The new head's `prev`, or the new tail if there is no head.
pop_relink : SdList → Cmd Node SdList
pop_relink list =
    if list.head == null
    then pure (record list { tail = null })
    else (do modify list.head (λ n. record n { prev = null }); pure list)

-- The result is the data of the removed node, or `NULL`.
pub pop_front : SdList → Cmd Node (Ptr × SdList)
unfolding pop_relink
pop_front list =
    if list.head == null then pure (null, record list { length = list.length -ℤ pos 1 }) else (do
      n ← load list.head
      relinked ← pop_relink (record list { head = n.next })
      n ← load list.head
      free list.head
      pure (n.payload, record relinked { length = list.length -ℤ pos 1 }))

-- The handle after the first two tests of `zm_sdlist_rmnode`.
unhook : SdList → Ptr → Node → SdList
unhook list p n = record list {
  head = if p == list.head then n.next else list.head;
  tail = if p == list.tail then n.prev else list.tail;
  length = list.length -ℤ pos 1;
}

pub rmnode : SdList → Ptr → Cmd Node SdList
unfolding unhook
rmnode list p = do
  n ← load p
  (if n.prev == null then pure tt else modify n.prev (λ m. record m { next = n.next }))
  n' ← load p
  (if n'.next == null then pure tt else modify n'.next (λ m. record m { prev = n'.prev }))
  free p
  pure (unhook list p n)

-- The loop of `zm_sdlist_remove`, from `node` on.
remove_loop : ℕ → SdList → Ptr → (payload : Ptr) → Cmd Node (Bool × SdList)
remove_loop zero list p d = λ _. out_of_fuel
remove_loop (suc fuel) list p d = if p == null then pure (false, list) else do
  n ← load p
  if n.payload == d
      then (do list' ← rmnode list p; pure (true, list'))
      else remove_loop fuel list n.next d

pub remove : ℕ → SdList → (payload : Ptr) → Cmd Node (Bool × SdList)
unfolding remove_loop
remove fuel list d = remove_loop fuel list list.head d

-- `zm_sdlist_free`: pops until the data popped is `NULL`.
pub free_list : ℕ → SdList → Cmd Node SdList
free_list zero list = λ _. out_of_fuel
free_list (suc fuel) list = do
  (d, list') ← pop_front list
  if d == null then pure list' else free_list fuel list'
