-- ===== src/Dict/Chain.antt =====
-- One chain of entries: the search and the writes that src/dict.c makes through its pointers.
pub mod Counting
use redis_counter.Base.{
  ℕ, zero, suc, ◌+◌, Bool, true, false, Option, none, some, List, [], ◌∷◌, if◌then◌else◌,
}
use mathlib.Core.Option
use redis_counter.Dict.Types.{DictType, Entry, Bucket, matches}

module _ {ℓ} {K V : Type ℓ} (t : DictType K V) where
  -- the place of the first entry whose key matches
  unfoldable pub locate : K → Bucket K V → Option ℕ
  locate k [] = none
  locate k (e ∷ c) = if matches t k e.key then some 0 else Option.map suc (locate k c)

  -- what a key stands for in a chain, and how many entries match it
  unfoldable pub lookup : K → Bucket K V → Option V
  lookup k [] = none
  lookup k (e ∷ c) = if matches t k e.key then some e.val else lookup k c

  unfoldable pub count : K → Bucket K V → ℕ
  count k [] = 0
  count k (e ∷ c) = (if matches t k e.key then 1 else 0) + count k c

module _ {ℓ} {K V : Type ℓ} where
  -- `he->v.val = v` at a place of the chain
  unfoldable pub assign : ℕ → V → Bucket K V → Bucket K V
  assign i v [] = []
  assign zero v (e ∷ c) = record e { val = v } ∷ c
  assign (suc i) v (e ∷ c) = e ∷ assign i v c

  -- the chain without the entry at a place
  unfoldable pub unlink : ℕ → Bucket K V → Bucket K V
  unlink i [] = []
  unlink zero (e ∷ c) = c
  unlink (suc i) (e ∷ c) = e ∷ unlink i c
