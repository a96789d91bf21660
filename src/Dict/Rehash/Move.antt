-- ===== src/Dict/Rehash/Move.antt =====
-- The loop that moves one chain into the second table: it loses nothing and duplicates nothing.
use redis_counter.Base.{
  ◌+◌, ◌≤◌, ◌<◌, ◌≡◌, ◌∙◌, refl, Option, none, some, [], ◌∷◌, arith, length, Returns, u64, inc64,
  dec64, inl, inr, Bool-cases,
}
use mathlib.Core.Option.{or_else}
use redis_counter.Dict.Types.{DictType, Entry, Bucket, Table, matches, IsKeyed}
use redis_counter.Dict.Chain.{lookup, count}
use redis_counter.Dict.Chain.Counting.{lookup-eq-none}
use redis_counter.Dict.Model.{home, chain_of, IsTable}
use redis_counter.Dict.Placement.{at-home, push, push-IsTable, count-push, lookup-push}
use redis_counter.Dict.Rehash.{move_bucket}

module _ {ℓ} {K V : Type ℓ} (t : DictType K V) where
  pub record Moved (es : Bucket K V) (h0 h1 : Table K V) (r : Table K V × Table K V) : Type ℓ where
    pub table0 : r.0.table ≡ h0.table
    pub size0 : r.0.size ≡ h0.size
    pub mask0 : r.0.sizemask ≡ h0.sizemask
    pub used0 : r.0.used + length es ≡ h0.used
    pub valid1 : IsTable t r.1
    pub size1 : r.1.size ≡ h1.size
    pub used1 : r.1.used ≡ h1.used + length es
    pub counts : (q : K) → count t q (chain_of t r.1 q) ≡ count t q (chain_of t h1 q) + count t q es
    pub reads :
        (q : K)
        → count t q (chain_of t h1 q) + count t q es ≤ 1
        → lookup t q (chain_of t r.1 q) ≡ or_else (lookup t q (chain_of t h1 q)) (lookup t q es)

  pub or_else-none : (o : Option V) → o ≡ or_else o none
  unfolding or_else
  or_else-none none = refl
  or_else-none (some v) = refl

  -- an entry that was in front of the list is now in front of the chain
  reads_step :
      (q : K) (e : Entry K V) (c es : Bucket K V) (found : Option V)
      → found ≡ lookup t q (e ∷ c)
      → count t q c + count t q (e ∷ es) ≤ 1
      → or_else found (lookup t q es) ≡ or_else (lookup t q c) (lookup t q (e ∷ es))
  unfolding count lookup or_else
  reads_step q e c es found f once = elim (Bool-cases (matches t q e.key)) [
    | inl y ↦
        let few : count t q c + (1 + count t q es) ≤ 1 = rw y at once in
        rw (f, y, lookup-eq-none t q c (omega arith))
    | inr n ↦ rw (f, n)
  ]

module _ {ℓ} {K V : Type ℓ} (t : DictType K V) (keyed : IsKeyed t) where
  pub move_bucket-Moved :
      (es : Bucket K V) (h0 h1 : Table K V)
      → IsTable t h1
      → 0 < h1.size
      → length es ≤ h0.used
      → h0.used + h1.used < u64
      → Returns (move_bucket t es h0 h1) (Moved t es h0 h1)
  unfolding move_bucket count lookup home
  move_bucket-Moved [] h0 h1 w pos le room = (
    (h0, h1),
    refl,
    record {
      table0 = refl;
      size0 = refl;
      mask0 = refl;
      used0 = omega arith;
      valid1 = w;
      size1 = refl;
      used1 = omega arith;
      counts = λ q. omega arith;
      reads = λ q once. or_else-none t (lookup t q (chain_of t h1 q));
    },
  )
  move_bucket-Moved (e ∷ es) h0 h1 w pos le room =
      let grown = push-IsTable t keyed h1 w pos e (inc64 h1.used) (omega arith) in
      let rest =
        move_bucket-Moved es (record h0 { used = dec64 h0.used })
          (push t keyed h1 w pos e (inc64 h1.used)) grown pos (omega arith) (omega arith) in
      (
        rest.0,
        rw (at-home t h1 e.key w pos) rest.1,
        record {
          table0 = rest.2.table0;
          size0 = rest.2.size0;
          mask0 = rest.2.mask0;
          used0 = omega (arith, rest.2.used0);
          valid1 = rest.2.valid1;
          size1 = rest.2.size1;
          used1 = omega (arith, rest.2.used1);
          counts =
              λ q. omega (arith, rest.2.counts q, count-push t keyed h1 w pos e (inc64 h1.used) q);
          reads = λ q once.
              rest.2.reads q (omega (arith, count-push t keyed h1 w pos e (inc64 h1.used) q))
              ∙ reads_step t q e (chain_of t h1 q) es _
                  (lookup-push t keyed h1 w pos e (inc64 h1.used) q) once;
        },
      )
