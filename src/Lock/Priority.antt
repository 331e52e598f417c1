-- ===== src/Lock/Priority.antt =====
-- src/lock/zm_tlp.c and src/lock/zm_mcsp.c: the two-level priority locks, which are one algorithm
-- over a lock of each class and a ticket lock, the filter, between the classes. The two class locks
-- are taken as what Lock/Ticket and Lock/Mcs prove of them: a lock that one thread owns. The filter
-- is released by another thread than took it, so it is only taken or free.
pub mod Invariant
pub mod Try
mod Tests
use izem.Prelude.{ℕ, ◌≡◌, Bool, true, false, Option, none, some, if◌then◌else◌}
use izem.Interleave.{State}

-- `struct zm_tlp` and `struct zm_mcsp`
pub record Priority : Type 0 where
  pub high_p : Option ℕ
  pub low_p : Option ℕ
  pub filter : Bool
  pub go_straight : Bool
  pub low_p_acq : Bool

-- `zm_tlp_init`, `zm_mcsp_init`
pub new : Priority
new = record { high_p = none; low_p = none; filter = false; go_straight = false; low_p_acq = false }

-- Where a thread stands.
pub data Pc : Type 0 where
  idle : Pc
  in_high : Pc  -- it owns `high_p`, before its test of `go_straight`
  high_filter : Pc  -- before `zm_ticket_acquire(&L->filter)`
  high_through : Pc  -- before `go_straight = 1`
  critical_high : Pc
  ending : Pc  -- in a release, after the answer that there are no waiters
  opening : Pc  -- before its release of the filter
  leaving_high : Pc  -- before its release of `high_p`
  in_low : Pc  -- it owns `low_p`, before the filter
  low_through : Pc  -- before `low_p_acq = 1`
  critical_low : Pc
  opening_low : Pc  -- `low_p_acq` is 0 again
  leaving_low : Pc  -- before its release of `low_p`

pub take_high : ℕ → Priority → Priority
take_high i m = record m { high_p = some i }

pub take_low : ℕ → Priority → Priority
take_low i m = record m { low_p = some i }

pub drop_high : Priority → Priority
drop_high m = record m { high_p = none }

pub drop_low : Priority → Priority
drop_low m = record m { low_p = none }

pub set_filter : Bool → Priority → Priority
set_filter b m = record m { filter = b }

pub set_straight : Bool → Priority → Priority
set_straight b m = record m { go_straight = b }

pub set_low_acq : Bool → Priority → Priority
set_low_acq b m = record m { low_p_acq = b }

-- One step of thread `i`. What `nowaiters` answers is left open, since it may be out of date.
pub data Move (i : ℕ) (m : Priority) : Pc → Priority → Pc → Type 0 where
  acquire_high : m.high_p ≡ none → Move i m idle (take_high i m) in_high
  acquire_test : Move i m in_high m (if m.go_straight then critical_high else high_filter)
  acquire_filter : m.filter ≡ false → Move i m high_filter (set_filter true m) high_through
  acquire_straight : Move i m high_through (set_straight true m) critical_high
  acquire_low : m.low_p ≡ none → Move i m idle (take_low i m) in_low
  acquire_low_filter : m.filter ≡ false → Move i m in_low (set_filter true m) low_through
  acquire_low_mark : Move i m low_through (set_low_acq true m) critical_low
  -- `zm_tlp_release` of either class looks at `low_p_acq` first.
  release_high :
      (nowaiters : Bool)
      → m.low_p_acq ≡ false
      → Move i m critical_high m (if nowaiters then ending else leaving_high)
  release_high_as_low :
      m.low_p_acq ≡ true → Move i m critical_high (set_low_acq false m) opening_low
  release_straight : Move i m ending (set_straight false m) opening
  release_filter : Move i m opening (set_filter false m) leaving_high
  release_high_lock : Move i m leaving_high (drop_high m) idle
  release_low : m.low_p_acq ≡ true → Move i m critical_low (set_low_acq false m) opening_low
  release_low_as_high :
      (nowaiters : Bool)
      → m.low_p_acq ≡ false
      → Move i m critical_low m (if nowaiters then ending else leaving_high)
  release_low_filter : Move i m opening_low (set_filter false m) leaving_low
  release_low_lock : Move i m leaving_low (drop_low m) idle

abbrev pub init : State Priority Pc
init = record { mem = new; pc = λ _. idle }

-- Inside the critical section.
abbrev pub critical : Pc → Bool
critical critical_high = true
critical critical_low = true
critical _ = false

-- Of the low class.
abbrev pub is_low : Pc → Bool
is_low in_low = true
is_low low_through = true
is_low critical_low = true
is_low opening_low = true
is_low leaving_low = true
is_low _ = false
