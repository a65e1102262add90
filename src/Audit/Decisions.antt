-- ===== src/Audit/Decisions.antt =====
-- When a consult is complete.
use pancakes_harness.Prelude.{ℕ, ◌*◌, ◌≤◌, List, [], ◌∷◌}
use pancakes_harness.Prelude.Int.{ℤ, pos, negsuc}
use pancakes_harness.Prelude.Machine.{add_int}

-- the tokens of the turns, added up from `used` on, in 64-bit integers
abbrev pub tokens_from : {C : Type 0} → ℤ → List (ℕ × ℤ × C) → ℤ
tokens_from used [] = used
tokens_from used ((now, tokens, cost) ∷ turns) = tokens_from (add_int used tokens) turns

-- the tokens are three quarters of the limit at least
abbrev pub Reaches : ℕ → ℤ → Type 0
Reaches limit (pos used) = 3 * limit ≤ 4 * used
Reaches limit (negsuc used) = ⊥
