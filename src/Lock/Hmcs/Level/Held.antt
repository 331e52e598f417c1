-- ===== src/Lock/Hmcs/Level/Held.antt =====
-- Which accesses of a node of zm_hmcs.c change whether its parent is owned for it.
use izem.Prelude.{ℕ, ◌≡◌, Bool, true, false, arith}
use izem.Lock.Hmcs.Level.{
  Config, Level, Pc, climbing, descending, set_wait, clear_next, swap_lock, link_behind,
  start_cohort, set_held, count_in, unlock_free, tap, Move, try_cas, release_cas, release_count,
  release_root, reuse_status,
}

abbrev pub climbs : Pc → Bool
climbs (climbing _) = true
climbs _ = false

abbrev pub descends : Pc → Bool
descends (descending _) = true
descends _ = false

-- The parent comes by an acquisition.
pub held-climbs :
    {g : Config} {i : ℕ} {mem m : Level} {p p' : Pc}
    → Move g i mem p m p'
    → climbs p ≡ false
    → m.held ≡ true
    → mem.held ≡ true
unfolding set_wait clear_next swap_lock link_behind start_cohort set_held count_in unlock_free tap
held-climbs (reuse_status t) c h = ground arith
held-climbs try_cas c h = ground arith
held-climbs release_cas c h = ground arith
held-climbs (release_count e) c h = ground arith
held-climbs (release_root e) c h = ground arith
held-climbs mv c h = ground arith

-- A release of the parent gives it up.
pub descends-held :
    {g : Config} {i : ℕ} {mem m : Level} {p p' : Pc}
    → Move g i mem p m p'
    → descends p ≡ true
    → m.held ≡ false
unfolding set_wait clear_next swap_lock link_behind start_cohort set_held count_in unlock_free tap
descends-held (reuse_status t) d = ground arith
descends-held try_cas d = ground arith
descends-held release_cas d = ground arith
descends-held (release_count e) d = ground arith
descends-held (release_root e) d = ground arith
descends-held mv d = ground arith
