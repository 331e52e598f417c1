-- ===== src/Cond/Tests.antt =====
-- Thread 0 waits on a count of 1, and thread 1 counts down.
use izem.Prelude.{ℕ, ◌≡◌, refl, false, arith}
use izem.Interleave.{State, Reach, start, later, pick, Any}
use izem.Cond.{
  Cond, new, mark, clear, count_down, take_lock, drop_lock, Pc, Move, lock_acquire, lock_release,
  wait_test, wait_mark, wait_release, wait_spin, wait_acquire, signal_test, signal_count,
  signal_zero, signal_clear, signal_report, signal_return, init,
}
use izem.Cond.Wakeup.{scount_no_lost_wakeup, scount_signal_reports}

record Run : Type 0 where
  last : State Cond Pc
  reach : Reach Move Any 2 (init 1) last

abbrev blocked : Run
unfolding init new mark drop_lock take_lock
blocked = record {
  last = _;
  reach =
      later
        (later
          (later (later (start tt) (pick 0 (omega arith) (lock_acquire refl)) tt)
            (pick 0 (omega arith) wait_test) tt)
          (pick 0 (omega arith) wait_mark) tt)
        (pick 0 (omega arith) wait_release) tt;
}

abbrev reports : Run
unfolding init new mark drop_lock take_lock count_down clear
reports = record {
  last = _;
  reach =
      later
        (later
          (later
            (later
              (later (later blocked.reach (pick 1 (omega arith) (lock_acquire refl)) tt)
                (pick 1 (omega arith) signal_test) tt)
              (pick 1 (omega arith) signal_count) tt)
            (pick 1 (omega arith) signal_zero) tt)
          (pick 1 (omega arith) signal_clear) tt)
        (pick 1 (omega arith) signal_report) tt;
}

abbrev signalled : Run
unfolding init new mark drop_lock take_lock count_down clear
signalled = record {
  last = _;
  reach =
      later (later reports.reach (pick 1 (omega arith) (signal_return {c = 0})) tt)
        (pick 1 (omega arith) lock_release) tt;
}

abbrev woken : Run
unfolding init new mark drop_lock take_lock count_down clear
woken = record {
  last = _;
  reach =
      later (later signalled.reach (pick 0 (omega arith) wait_spin) tt)
        (pick 0 (omega arith) (wait_acquire refl)) tt;
}

scount_no_lost_wakeup_example : signalled.last.mem.waiting ≡ false
unfolding init new mark drop_lock take_lock count_down clear
scount_no_lost_wakeup_example = scount_no_lost_wakeup 1 signalled.reach refl refl

scount_signal_reports_example :
    (◌≡◌ {A = ℕ} 0 0) × (◌≡◌ {A = ℕ} 0 0 → reports.last.mem.waiting ≡ false)
unfolding init new mark drop_lock take_lock count_down clear
scount_signal_reports_example = scount_signal_reports 1 reports.reach 1 0 refl
