-- ===== src/Lock/Mcs/Binding/Tests.antt =====
-- Threads 0 and 1 are each bound to one hardware thread, thread 2 to two of them.
use izem.Prelude.{ℕ, ◌≡◌, refl, Option, none, List, [], ◌∷◌, ◌==◌, ltb, if◌then◌else◌, arith}
use izem.Lock.Mcs.Binding.{enter_all}
use izem.Lock.Mcs.Binding.Apart.{Entered, enter_all-Entered}

abbrev bound : ℕ → List ℕ
bound t = if ltb t 2 then (t ∷ []) else if t == 2 then (0 ∷ 1 ∷ []) else []

abbrev nobody : ℕ → Option ℕ
nobody _ = none

third_exits : enter_all bound nobody (1 ∷ 2 ∷ 0 ∷ []) ≡ none
unfolding enter_all
third_exits = refl

enter_all-Entered_example :
    Entered bound 2 (1 ∷ 0 ∷ 1 ∷ []) (enter_all bound nobody (1 ∷ 0 ∷ 1 ∷ []))
enter_all-Entered_example =
    enter_all-Entered bound 2 (1 ∷ 0 ∷ 1 ∷ []) (λ t u p e e'. ground (arith, e, e'))
      (λ t p e. ground (arith, e))
