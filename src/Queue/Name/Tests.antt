-- ===== src/Queue/Name/Tests.antt =====
-- Names with "queue" behind them.
use izem.Prelude.{ℕ, List, [], ◌∷◌}

-- "queue"
abbrev suffix : List ℕ
suffix = 113 ∷ 117 ∷ 101 ∷ 117 ∷ 101 ∷ []
