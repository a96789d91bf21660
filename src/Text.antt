-- ===== src/Text.antt =====
-- Functions of src/sds.c that work on the text of a string in place: its bytes, without the header.
pub mod Order
use Prim.Native.Nat.{min, compare, Ordering}
use redis_counter.Base.{ℕ, zero, suc, List, [], ◌∷◌, length}

-- The sign of `memcmp(p, q, n)`: less, equal or greater. A read beyond a text does not occur.
unfoldable pub mem_cmp : ℕ → List ℕ → List ℕ → Ordering
mem_cmp zero p q = Ordering.eq
mem_cmp (suc n) [] q = Ordering.eq
mem_cmp (suc n) (c ∷ p) [] = Ordering.eq
mem_cmp (suc n) (c ∷ p) (d ∷ q) = elim (compare c d) [
  | Ordering.lt ↦ Ordering.lt
  | Ordering.eq ↦ mem_cmp n p q
  | Ordering.gt ↦ Ordering.gt
]

-- The sign of `sdscmp(s1, s2)`
unfoldable pub sds_cmp : List ℕ → List ℕ → Ordering
sds_cmp p q = elim (mem_cmp (min (length p) (length q)) p q) [
  | Ordering.lt ↦ Ordering.lt
  | Ordering.eq ↦ compare (length p) (length q)
  | Ordering.gt ↦ Ordering.gt
]
