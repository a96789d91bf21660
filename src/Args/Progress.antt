-- ===== src/Args/Progress.antt =====
-- The loops of `sdssplitargs` end: every round takes a byte.
use redis_counter.Base.{
  ℕ, ◌≤◌, ◌<◌, ◌≡◌, false, Option, none, some, List, [], ◌∷◌, ◌++◌, ◌==◌, length, Run, ok,
}
use redis_counter.Args.{peek, Round, more, done, err, token, tokens, is_space}

-- A round that goes on leaves a shorter line than `n` bytes, and one that ends no longer one.
abbrev Shrinks : ℕ → Round → Type 0
Shrinks n (more m c p) = length p < n
Shrinks n (done c p) = length p ≤ n
Shrinks n err = Unit

-- The rest of the line is no longer than `n` bytes.
abbrev Fits : ℕ → Option (List ℕ × List ℕ) → Type 0
Fits n none = Unit
Fits n (some t) = length t.1 ≤ n

abbrev after_round : ℕ → Round → Run (Option (List ℕ × List ℕ))
after_round f r = elim r [
  | more m c p ↦ token f m c p
  | done c p ↦ ok (some (c, p))
  | err ↦ ok none
]

record Skipped (p q : List ℕ) : Type 0 where
  0 as shorter : length q ≤ length p
  1 as stops : (peek q == 0) ≡ false → is_space (peek q) ≡ false

-- The rest of the line is shorter than `n` bytes.
abbrev Leaves : ℕ → Option (List ℕ × List ℕ) → Type 0
Leaves n none = Unit
Leaves n (some t) = length t.1 < n

-- What follows a token in the outer loop
abbrev after_token : ℕ → List (List ℕ) → Option (List ℕ × List ℕ) → Run (Option (List (List ℕ)))
after_token f v r = elim r [ none ↦ ok none | some t ↦ tokens f (v ++ t.0 ∷ []) t.1 ]
