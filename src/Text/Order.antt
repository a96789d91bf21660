-- ===== src/Text/Order.antt =====
-- `sdscmp` of src/sds.c is the dictionary order of byte strings.
use Prim.Native.Nat.{min, compare, Ordering}
use redis_counter.Base.{ℕ, suc, ◌≡◌, refl, ◌↔◌, arith, List, [], ◌∷◌, length}
use redis_counter.Text.{mem_cmp, sds_cmp}

-- The order of texts: at the first byte that differs, or else a proper beginning comes first
unfoldable pub lex : List ℕ → List ℕ → Ordering
lex [] [] = Ordering.eq
lex [] (d ∷ q) = Ordering.lt
lex (c ∷ p) [] = Ordering.gt
lex (c ∷ p) (d ∷ q) = elim (compare c d) [
  | Ordering.lt ↦ Ordering.lt
  | Ordering.eq ↦ lex p q
  | Ordering.gt ↦ Ordering.gt
]

-- `sdscmp` decides the dictionary order of byte strings, in which a proper beginning comes first.
pub sds_cmp-lex : (p q : List ℕ) → sds_cmp p q ≡ lex p q
unfolding sds_cmp mem_cmp lex
sds_cmp-lex [] [] = refl
sds_cmp-lex [] (d ∷ q) = ground arith
sds_cmp-lex (c ∷ p) [] = ground arith
sds_cmp-lex (c ∷ p) (d ∷ q) =
    let e : min (suc (length p)) (suc (length q)) ≡ suc (min (length p) (length q)) = omega arith in
    rw (e, sds_cmp, mem_cmp) (ground (arith, sds_cmp-lex p q))

pub lex_iff : (p q : List ℕ) → (lex p q ≡ Ordering.eq) ↔ (p ≡ q)
unfolding lex
lex_iff [] [] = ground arith
lex_iff [] (d ∷ q) = ground arith
lex_iff (c ∷ p) [] = ground arith
lex_iff (c ∷ p) (d ∷ q) = ground (arith, (lex_iff p q).0, (lex_iff p q).1)
