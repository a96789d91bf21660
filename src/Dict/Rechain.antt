-- ===== src/Dict/Rechain.antt =====
-- Every write of src/dict.c replaces the home chain of one key in one table. If the new chain
-- differs only at that key, so does the dictionary.
use redis_counter.Base.{
  ℕ, ◌+◌, ◌≤◌, ◌<◌, ◌≡◌, ◌≢◌, sym, refl, [], arith, length, get_or, get_or-set, inl, inr, Bool,
  Bool-cases, true, false, Option, none, some, ◌==◌, ==_iff, if◌then◌else◌, u64, set,
}
use mathlib.Core.Option.{or_else}
use redis_counter.Dict.Types.{DictType, Bucket, Table, Dict, is_rehashing, matches, IsKeyed}
use redis_counter.Dict.Chain.{lookup, count}
use redis_counter.Dict.Chain.Counting.{lookup-eq-none, count_congr}
use redis_counter.Dict.Model.{home, chain_of, view, home-lt, IsTable, IsDict}
use redis_counter.Dict.Rehash.Move.{or_else-none}
use redis_counter.Dict.Placement.{
  rechain, rechain-IsTable, chain_of-rechain, chain_of-home, home-match, ne_of_test,
}

module _ {ℓ} {K V : Type ℓ} (t : DictType K V) (k : K) where
  -- The new chain reads as `o` at the key `k`, `m` times, and as the old one elsewhere.
  pub record Rewrites (c c' : Bucket K V) (o : Option V) (m : ℕ) : Type ℓ where
    pub reads :
        (q : K) → count t q c ≤ 1 → lookup t q c' ≡ (if matches t q k then o else lookup t q c)
    pub counts : (q : K) → count t q c' ≡ (if matches t q k then m else count t q c)

module _ {ℓ} {K V : Type ℓ} (t : DictType K V) (keyed : IsKeyed t) (h : Table K V) (w : IsTable t h)
    (pos : 0 < h.size) (k : K) (c : Bucket K V) (n m : ℕ) (o : Option V)
    (new : Rewrites t k (chain_of t h k) c o m) where
  unmatched : (q : K) → home t h q ≢ home t h k → matches t q k ≡ false
  unmatched q ne = elim (Bool-cases (matches t q k)) [
    | inl y ↦ absurd (ne (home-match t keyed h w pos k c n q y))
    | inr f ↦ f
  ]

  count-rechain :
      (q : K)
      → count t q (chain_of t (rechain t h k c n) q)
        ≡ (if matches t q k then m else count t q (chain_of t h q))
  count-rechain q =
      rw (chain_of-rechain t keyed h w pos k c n q) (elim (Bool-cases (home t h k == home t h q)) [
        | inl y ↦
            rw (y, ← chain_of-home t h k q ((==_iff (home t h k) (home t h q)).0 y)) (new.counts q)
        | inr f ↦ rw (f, unmatched q (ne_of_test t h k q f))
      ])

  lookup-rechain :
      (q : K)
      → count t q (chain_of t h q) ≤ 1
      → lookup t q (chain_of t (rechain t h k c n) q)
        ≡ (if matches t q k then o else lookup t q (chain_of t h q))
  lookup-rechain q once =
      rw (chain_of-rechain t keyed h w pos k c n q) (elim (Bool-cases (home t h k == home t h q)) [
        | inl y ↦
            let same = chain_of-home t h k q ((==_iff (home t h k) (home t h q)).0 y) in
            rw (y, ← same) (new.reads q (rw same once))
        | inr f ↦ rw (f, unmatched q (ne_of_test t h k q f))
      ])

  rewritten-IsTable :
      n + length (chain_of t h k) ≡ h.used + length c → IsTable t (rechain t h k c n)
  unfolding chain_of
  rewritten-IsTable total =
      rechain-IsTable t keyed h w pos k c n total
        λ q ne. rw (new.counts q, unmatched q ne) (w.placed q (home t h k) ne)

module _ {ℓ} {K V : Type ℓ} (t : DictType K V) (keyed : IsKeyed t) (h : Table K V) (k : K) where
  home_congr : (q : K) → matches t q k ≡ true → home t h q ≡ home t h k
  unfolding home
  home_congr q y = rw (keyed.match-hash q k y)

  -- what holds of no entry under a key holds of none under a key that matches it
  pub none_congr :
      (q : K)
      → matches t q k ≡ true
      → count t k (chain_of t h k) ≡ 0
      → count t q (chain_of t h q) ≡ 0
  none_congr q y e =
      rw (chain_of-home t h q k (home_congr q y), count_congr keyed q k (chain_of t h k) y) e

module _ {ℓ} {K V : Type ℓ} (t : DictType K V) (keyed : IsKeyed t) (d : Dict K V) (v : IsDict t d)
    (k : K) (c : Bucket K V) (n m : ℕ) (o : Option V) (few : m ≤ 1) where
  -- What the dictionary is after such a write.
  pub record Rewritten (d' : Dict K V) : Type ℓ where
    pub valid : IsDict t d'
    pub reads : (q : K) → view t d' q ≡ (if matches t q k then o else view t d q)

  sum_once : (b : Bool) (x y : ℕ) → x + y ≤ 1 → (b ≡ true → y ≡ 0) → (if b then m else x) + y ≤ 1
  sum_once true x y h e = omega (arith, e refl)
  sum_once false x y h e = h

  if_or_else :
      (b : Bool) (x y : Option V)
      → (b ≡ true → y ≡ none)
      → or_else (if b then o else x) y ≡ (if b then o else or_else x y)
  if_or_else true x y e = rw (e refl) (sym (or_else-none t o))
  if_or_else false x y e = refl

  or_else_if :
      (b : Bool) (x y : Option V)
      → (b ≡ true → x ≡ none)
      → or_else x (if b then o else y) ≡ (if b then o else or_else x y)
  unfolding or_else
  or_else_if true x y e = rw (e refl)
  or_else_if false x y e = refl

  bucket_later :
      (i j l : ℕ)
      → i ≤ l
      → j < i
      → get_or d.ht0.table j [] ≡ []
      → l < length d.ht0.table
      → get_or (set d.ht0.table l c) j [] ≡ []
  bucket_later i j l le lt e inside =
      let apart : (l == j) ≡ false = ground arith in
      rw (get_or-set d.ht0.table l j c [] inside, apart) e

  pub rewrite_first :
      (new : Rewrites t k (chain_of t d.ht0 k) c o m)
      → 0 < d.ht0.size
      → n + length (chain_of t d.ht0 k) ≡ d.ht0.used + length c
      → n + d.ht1.used < u64
      → count t k (chain_of t d.ht1 k) ≡ 0
      → ((i : ℕ) → d.rehashidx ≡ some i → i ≤ home t d.ht0 k)
      → Rewritten (record d { ht0 = rechain t d.ht0 k c n })
  unfolding view
  rewrite_first new pos total room other later = record {
    valid = record {
      first = rewritten-IsTable t keyed d.ht0 v.first pos k c n m o new total;
      second = v.second;
      unique = λ q.
          rw (count-rechain t keyed d.ht0 v.first pos k c n m o new q)
            (sum_once (matches t q k) _ _ (v.unique q) (λ y. none_congr t keyed d.ht1 k q y other));
      room = room;
      idle = v.idle;
      busy = v.busy;
      moved = λ i j e lt.
          bucket_later i j (home t d.ht0 k) (later i e) lt (v.moved i j e lt)
            (home-lt t d.ht0 k v.first pos);
    };
    reads = λ q.
        rw (lookup-rechain t keyed d.ht0 v.first pos k c n m o new q (omega (arith, v.unique q))) (
          if_or_else (matches t q k) _ _
            (λ y. lookup-eq-none t q _ (none_congr t keyed d.ht1 k q y other)));
  }

  pub rewrite_second :
      (new : Rewrites t k (chain_of t d.ht1 k) c o m)
      → 0 < d.ht1.size
      → n + length (chain_of t d.ht1 k) ≡ d.ht1.used + length c
      → d.ht0.used + n < u64
      → count t k (chain_of t d.ht0 k) ≡ 0
      → is_rehashing d ≡ true
      → Rewritten (record d { ht1 = rechain t d.ht1 k c n })
  unfolding view
  rewrite_second new pos total room other busy = record {
    valid = record {
      first = v.first;
      second = rewritten-IsTable t keyed d.ht1 v.second pos k c n m o new total;
      unique = λ q. rw (count-rechain t keyed d.ht1 v.second pos k c n m o new q) (swapped q);
      room = room;
      idle = λ e. absurd (ground arith);
      busy = v.busy;
      moved = v.moved;
    };
    reads = λ q.
        rw (lookup-rechain t keyed d.ht1 v.second pos k c n m o new q (omega (arith, v.unique q))) (
          or_else_if (matches t q k) _ _
            (λ y. lookup-eq-none t q _ (none_congr t keyed d.ht0 k q y other)));
  }
    where
      swapped :
          (q : K)
          → count t q (chain_of t d.ht0 q)
              + (if matches t q k then m else count t q (chain_of t d.ht1 q))
            ≤ 1
      swapped q = omega (
        arith,
        sum_once (matches t q k) (count t q (chain_of t d.ht1 q)) (count t q (chain_of t d.ht0 q))
            (omega (arith, v.unique q)) (λ y. none_congr t keyed d.ht0 k q y other),
      )
