-- ===== src/Args/Split.antt =====
-- `sdssplitlen` of src/sds.c on the bytes of a text and of a separator, and the way back by
-- `sdsjoinsds`. The array of tokens, which the source makes larger, is a list.
use redis_counter.Base.{
  ℕ, zero, suc, ◌≡◌, ◌≢◌, true, false, Option, none, some, List, [], ◌∷◌, ◌++◌, ltb, ◌==◌,
  if◌then◌else◌, length, Run, ok, out_of_fuel, ◌>>=◌,
}
use redis_counter.Args.{join_loop}

-- `memcmp(s + j, sep, seplen) == 0`, with the bytes after the separator
unfoldable pub behind : List ℕ → List ℕ → Option (List ℕ)
behind [] p = some p
behind (c ∷ sep) [] = none
behind (c ∷ sep) (d ∷ p) = if c == d then behind sep p else none

-- The loop of `sdssplitlen` at `j`: `token` are the bytes from `start` to `j`, `p` those from `j`.
unfoldable pub split_loop : ℕ → List ℕ → List ℕ → List ℕ → Run (List (List ℕ))
split_loop zero sep token p = out_of_fuel
split_loop (suc n) sep token p = elim (ltb (length p) (length sep)) [
  | true ↦ ok ((token ++ p) ∷ [])
  | false ↦ elim (behind sep p) [
    | some q ↦ do rest ← split_loop n sep [] q; ok (token ∷ rest)
    | none ↦ elim p [ [] ↦ ok (token ∷ []) | c ∷ q ↦ split_loop n sep (token ++ c ∷ []) q ]
  ]
]

-- `NULL` is none. One round of fuel more than there are bytes
unfoldable pub split_len : List ℕ → List ℕ → Run (Option (List (List ℕ)))
split_len s sep =
    if ltb (length sep) 1
    then ok none
    else if length s == 0
    then ok (some [])
    else (do tokens ← split_loop (suc (length s)) sep [] s; ok (some tokens))

-- The separator starts at no place in the token.
abbrev pub FreeOf : List ℕ → List ℕ → Type 0
FreeOf sep [] = Unit
FreeOf sep (c ∷ w) = ((r : List ℕ) → c ∷ w ≢ sep ++ r) × FreeOf sep w

abbrev pub AllFree : List ℕ → List (List ℕ) → Type 0
AllFree sep [] = Unit
AllFree sep (t ∷ ts) = FreeOf sep t × AllFree sep ts

-- The separator starts at no place in the token, also where it would end in the bytes `p` behind it.
abbrev Passed : List ℕ → List ℕ → List ℕ → Type 0
Passed sep [] p = Unit
Passed sep (c ∷ w) p = ((r : List ℕ) → c ∷ (w ++ p) ≢ sep ++ r) × Passed sep w p

-- Tokens without the separator that `sdsjoinsds` makes the text `w` of
record Joins (sep w : List ℕ) (ts : List (List ℕ)) : Type 0 where
  first : List ℕ
  rest : List (List ℕ)
  same : ts ≡ first ∷ rest
  joined : (j : List ℕ) → join_loop j (first ∷ rest) sep ≡ j ++ w
  free : AllFree sep (first ∷ rest)
