-- ===== src/Lock/Ticket.antt =====
-- src/lock/zm_ticket.c, with `struct zm_ticket` of src/include/lock/zm_lock_types.h.in: the ticket
-- lock, one shared access at a time, for any number of threads.
pub mod Refinement
pub mod Safety
mod Tests
use izem.Prelude.{
  ℕ, zero, suc, ◌+◌, ◌≡◌, ◌≢◌, ◌⊎◌, ◌<◌, ◌^◌, Bool, true, false, ◌==◌, if◌then◌else◌,
}
use izem.Prelude.Word.{u32, sub32}
use izem.Interleave.{State}
use izem.Lock.Fifo.{Role, out, waiting, inside, Fifo}

pub record Ticket : Type 0 where
  pub next_ticket : ℕ  -- unsigned int
  pub now_serving : ℕ  -- unsigned int

-- `zm_ticket_init`
pub ticket_init : Ticket
ticket_init = record { next_ticket = 0; now_serving = 0 }

-- The fetch-and-add of `zm_ticket_acquire`: the lock after it, and the ticket drawn.
pub draw_ticket : Ticket → Ticket × ℕ
draw_ticket lock = (record lock { next_ticket = u32 (lock.next_ticket + 1) }, lock.next_ticket)

-- The compare-and-exchange of `zm_ticket_tryacq`, which expects `my_ticket`.
pub try_ticket : ℕ → Ticket → Ticket × Bool
try_ticket my_ticket lock =
    if lock.next_ticket == my_ticket
    then (record lock { next_ticket = u32 (my_ticket + 1) }, true)
    else (lock, false)

-- `zm_ticket_release`
pub ticket_release : Ticket → Ticket
ticket_release lock = record lock { now_serving = u32 (lock.now_serving + 1) }

-- `zm_ticket_nowaiters`: one ticket is out, that of the caller.
pub ticket_nowaiters : Ticket → Bool
ticket_nowaiters lock = sub32 lock.next_ticket lock.now_serving == 1

-- `zm_ticket_tryacq` when no other thread moves meanwhile: the lock after it, and `*success`.
pub ticket_tryacq : Ticket → Ticket × Bool
unfolding try_ticket
ticket_tryacq lock =
    if lock.next_ticket == lock.now_serving then try_ticket lock.next_ticket lock else (lock, false)

-- The lock and two counts that the code does not keep: tickets drawn and releases, without bound.
pub record Shared : Type 0 where
  pub lock : Ticket
  pub issued : ℕ
  pub released : ℕ

-- Where a thread stands. `number` is its ticket without wrap-around, and `stamp` how many tickets
-- had been drawn when `zm_ticket_tryacq` read `next_ticket`; the code has neither.
pub data Pc : Type 0 where
  idle : Pc
  spin : (my_ticket number : ℕ) → Pc  -- the `while` of `zm_ticket_acquire`
  tried : (my_ticket stamp : ℕ) → Pc  -- `zm_ticket_tryacq` has read `next_ticket`
  casing : (my_ticket stamp : ℕ) → Pc  -- it has seen `now_serving` equal, before its exchange
  critical : (number : ℕ) → Pc  -- it owns the lock

-- One access of one thread.
pub data Move (i : ℕ) (m : Shared) (p : Pc) (m' : Shared) (p' : Pc) : Type 0 where
  draw :
      p ≡ idle
      → p' ≡ spin (draw_ticket m.lock).1 m.issued
      → m'.lock ≡ (draw_ticket m.lock).0
      → m'.issued ≡ suc m.issued
      → m'.released ≡ m.released
      → Move i m p m' p'
  wait :
      (my_ticket k : ℕ)
      → p ≡ spin my_ticket k
      → m.lock.now_serving ≢ my_ticket
      → p' ≡ p
      → m' ≡ m
      → Move i m p m' p'
  enter :
      (my_ticket k : ℕ)
      → p ≡ spin my_ticket k
      → m.lock.now_serving ≡ my_ticket
      → p' ≡ critical k
      → m' ≡ m
      → Move i m p m' p'
  try_next : p ≡ idle → p' ≡ tried m.lock.next_ticket m.issued → m' ≡ m → Move i m p m' p'
  try_serving :
      (my_ticket stamp : ℕ)
      → p ≡ tried my_ticket stamp
      → p' ≡ (if my_ticket == m.lock.now_serving then casing my_ticket stamp else idle)
      → m' ≡ m
      → Move i m p m' p'
  cas_win :
      (my_ticket stamp : ℕ)
      → p ≡ casing my_ticket stamp
      → (try_ticket my_ticket m.lock).1 ≡ true
      → p' ≡ critical m.issued
      → m'.lock ≡ (try_ticket my_ticket m.lock).0
      → m'.issued ≡ suc m.issued
      → m'.released ≡ m.released
      → Move i m p m' p'
  cas_lose :
      (my_ticket stamp : ℕ)
      → p ≡ casing my_ticket stamp
      → (try_ticket my_ticket m.lock).1 ≡ false
      → p' ≡ idle
      → m' ≡ m
      → Move i m p m' p'
  release :
      (k : ℕ)
      → p ≡ critical k
      → p' ≡ idle
      → m'.lock ≡ ticket_release m.lock
      → m'.issued ≡ m.issued
      → m'.released ≡ suc m.released
      → Move i m p m' p'

-- A new lock, with every thread outside it.
abbrev pub init : State Shared Pc
init = record { mem = record { lock = ticket_init; issued = 0; released = 0 }; pc = λ _. idle }

-- No thread sleeps inside `zm_ticket_tryacq`, between its first read and its exchange, while the
-- tickets go once round all 2 ^ 32 values. Runs that only call `zm_ticket_acquire` satisfy it.
abbrev pub Prompt : State Shared Pc → Type 0
Prompt s =
    (i my_ticket stamp : ℕ)
    → ((s.pc i ≡ tried my_ticket stamp) ⊎ (s.pc i ≡ casing my_ticket stamp))
    → s.mem.issued < stamp + 2 ^ 32

-- The abstract lock that a state stands for.
abbrev pub role_of : Pc → Role
role_of (spin _ k) = waiting k
role_of (critical k) = inside k
role_of _ = out

abbrev pub abstract : State Shared Pc → Fifo
abstract s = record {
  arrivals = s.mem.issued;
  served = s.mem.released;
  role = λ i. role_of (s.pc i);
}
