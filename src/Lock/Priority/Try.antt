-- ===== src/Lock/Priority/Try.antt =====
-- The attempts of zm_tlp.c and zm_mcsp.c, when no other thread moves meanwhile.
use izem.Prelude.{ℕ, ◌≡◌, Bool, true, false, none, some, arith, if◌then◌else◌}
use izem.Lock.Priority.{Priority, take_high, take_low, set_filter, set_straight, set_low_acq}

-- `zm_mcs_tryacq` and the like on a class lock, and `zm_ticket_tryacq` on the filter.
pub try_high : ℕ → Priority → Priority × Bool
unfolding take_high
try_high i m = elim m.high_p [ none ↦ (take_high i m, true) | some j ↦ (m, false) ]

pub try_low : ℕ → Priority → Priority × Bool
unfolding take_low
try_low i m = elim m.low_p [ none ↦ (take_low i m, true) | some j ↦ (m, false) ]

pub try_filter : Priority → Priority × Bool
unfolding set_filter
try_filter m = if m.filter then (m, false) else (set_filter true m, true)

-- The part that `zm_tlp_tryacq` and `zm_tlp_tryacq_low` share, with the class lock acquired.
tlp_try_filter : Priority → Priority
unfolding try_filter set_straight
tlp_try_filter m =
    if m.go_straight
    then m
    else (let (m', acquired) = try_filter m in if acquired then set_straight true m' else m')

-- The result is the lock and `*success`, which starts out as `success`.
pub tlp_tryacq : ℕ → (success : Bool) → Priority → Priority × Bool
unfolding tlp_try_filter try_high
tlp_tryacq i success m =
    let (m', acquired) = try_high i m in (if acquired then tlp_try_filter m' else m', success)

pub tlp_tryacq_low : ℕ → (success : Bool) → Priority → Priority × Bool
unfolding tlp_try_filter try_low
tlp_tryacq_low i success m =
    let (m', acquired) = try_low i m in (if acquired then tlp_try_filter m' else m', success)

-- `if (success)` in zm_mcsp.c tests the pointer, which is not `NULL`, so it always holds.
pub mcsp_tryacq : ℕ → Priority → Priority × Bool
unfolding try_high try_filter set_straight
mcsp_tryacq i m =
    let (m', success) = try_high i m in
    if m'.go_straight
    then (m', success)
    else (let (m'', success') = try_filter m' in (set_straight true m'', success'))

pub mcsp_tryacq_low : ℕ → Priority → Priority × Bool
unfolding try_low try_filter set_low_acq
mcsp_tryacq_low i m =
    let (m', success) = try_low i m in
    let (m'', success') = try_filter m' in (set_low_acq true m'', success')

-- `zm_tlp_tryacq` by a thread of the high class, where the class lock is free and the low class has
-- the filter, keeps the class lock although it did not acquire the whole, and leaves `*success` as
-- it was.
pub tlp_tryacq_unreported :
    (i : ℕ) (success : Bool) (m : Priority)
    → m.high_p ≡ none
    → m.go_straight ≡ false
    → m.filter ≡ true
    → tlp_tryacq i success m ≡ (record m { high_p = some i }, success)
unfolding tlp_tryacq
tlp_tryacq_unreported i success m a b c = ground arith

-- `zm_tlp_tryacq_low`, where both the low class lock and the filter are free, marks the lock as
-- gone straight for the high class, and not as acquired by the low class: the release of its
-- caller takes the branch of the high class.
pub tlp_tryacq_low_flags :
    (i : ℕ) (success : Bool) (m : Priority)
    → m.low_p ≡ none
    → m.go_straight ≡ false
    → m.filter ≡ false
    → ((tlp_tryacq_low i success m).0.go_straight ≡ true)
      × ((tlp_tryacq_low i success m).0.low_p_acq ≡ m.low_p_acq)
      × ((tlp_tryacq_low i success m).0.low_p ≡ some i)
unfolding tlp_tryacq_low
tlp_tryacq_low_flags i success m a b c = (ground arith, ground arith, ground arith)

-- `zm_mcsp_tryacq` takes the filter and reports success though another thread owns the high class
-- lock, if that thread has not passed the filter yet.
pub mcsp_tryacq_unowned :
    (i j : ℕ) (m : Priority)
    → m.high_p ≡ some j
    → m.go_straight ≡ false
    → m.filter ≡ false
    → mcsp_tryacq i m ≡ (record m { filter = true; go_straight = true }, true)
unfolding mcsp_tryacq
mcsp_tryacq_unowned i j m a b c = ground arith

-- `zm_mcsp_tryacq` by a thread of the high class, where the class lock is free and the low class has
-- the filter, reports failure, but keeps the class lock and lets the high class go past the filter.
pub mcsp_tryacq_opens :
    (i : ℕ) (m : Priority)
    → m.high_p ≡ none
    → m.go_straight ≡ false
    → m.filter ≡ true
    → mcsp_tryacq i m ≡ (record m { high_p = some i; go_straight = true }, false)
unfolding mcsp_tryacq
mcsp_tryacq_opens i m a b c = ground arith
