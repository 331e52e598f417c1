-- ===== src/Queue/Name.antt =====
-- src/queue/zm_queue.c: the type of queue that a name asks for. A C string is the list of its bytes
-- before the terminating NUL, which none of the bytes is.
mod Tests
use izem.Prelude.{ℕ, ◌≡◌, refl, Bool, true, false, ◌&&◌, List, [], ◌∷◌, ◌++◌, ◌==◌, if◌then◌else◌}
use izem.Prelude.Int.{ℤ, pos, negsuc}

-- `strncmp(name, prefix, strlen(prefix)) == 0`
abbrev pub starts_with : List ℕ → List ℕ → Bool
starts_with name [] = true
starts_with [] (p ∷ ps) = false
starts_with (c ∷ cs) (p ∷ ps) = (c == p) && starts_with cs ps

-- "gl", "ms", "swp" and "fa", each with its type; the end of the list stands for the `NULL` entry
abbrev pub name_pairs : List (ℤ × List ℕ)
name_pairs =
    (pos 1, 103 ∷ 108 ∷ [])
    ∷ (pos 2, 109 ∷ 115 ∷ [])
    ∷ (pos 3, 115 ∷ 119 ∷ 112 ∷ [])
    ∷ (pos 4, 102 ∷ 97 ∷ [])
    ∷ []

-- The loop over the table.
pub parse_loop : List (ℤ × List ℕ) → List ℕ → ℤ
parse_loop [] name = negsuc 0
parse_loop ((t, prefix) ∷ pairs) name =
    let rest = parse_loop pairs name in if starts_with name prefix then t else rest

pub queue_parse_name : List ℕ → ℤ
unfolding parse_loop
queue_parse_name name = parse_loop name_pairs name

-- `zm_queue_parse_name` knows "gl", "ms", "swp" and "fa" with anything behind them, but not "mpb".
pub queue_parse_name_lem :
    (s : List ℕ)
    → (queue_parse_name (103 ∷ 108 ∷ s) ≡ pos 1)
      × (queue_parse_name (109 ∷ 115 ∷ s) ≡ pos 2)
      × (queue_parse_name (115 ∷ 119 ∷ 112 ∷ s) ≡ pos 3)
      × (queue_parse_name (102 ∷ 97 ∷ s) ≡ pos 4)
      × (queue_parse_name (109 ∷ 112 ∷ 98 ∷ s) ≡ negsuc 0)
unfolding queue_parse_name
queue_parse_name_lem s = (refl, refl, refl, refl, refl)
