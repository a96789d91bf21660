-- ===== src/Dict/Rehash/Round.antt =====
-- One round of `dictRehash` keeps the invariant and every lookup.
use redis_counter.Base.{
  ℕ, ◌+◌, ◌≤◌, ◌<◌, ◌≡◌, ◌∙◌, sym, ap, refl, [], arith, length, get_or, set, get_or-set, length-set,
  length-flatten-set, ◌⊎◌, inl, inr, Bool-cases, true, false, some, ◌==◌, ==_iff, if◌then◌else◌,
}
use mathlib.Core.Option.{or_else}
use redis_counter.Dict.Types.{DictType, Bucket, Table, Dict}
use redis_counter.Dict.Chain.{lookup, count}
use redis_counter.Dict.Chain.Counting.{lookup-eq-none}
use redis_counter.Dict.Model.{home, chain_of, view, IsTable, IsDict}
use redis_counter.Dict.Rehash.Skip.{EmptyBelow}
use redis_counter.Dict.Rehash.Move.{Moved, or_else-none}

module _ {ℓ} {K V : Type ℓ} (t : DictType K V) where
  -- `d'` is well formed, stands for what `d` stands for, and holds as many entries.
  pub record Keeps (d d' : Dict K V) : Type ℓ where
    pub valid : IsDict t d'
    pub same : (q : K) → view t d' q ≡ view t d q
    pub total : d'.ht0.used + d'.ht1.used ≡ d.ht0.used + d.ht1.used
    pub iterators : d'.iterators ≡ d.iterators

  pub Keeps-refl : (d : Dict K V) → IsDict t d → Keeps d d
  Keeps-refl d v = record { valid = v; same = λ q. refl; total = refl; iterators = refl }

  pub Keeps-trans : {a b c : Dict K V} → Keeps a b → Keeps b c → Keeps a c
  Keeps-trans p q = record {
    valid = q.valid;
    same = λ k. q.same k ∙ p.same k;
    total = q.total ∙ p.total;
    iterators = q.iterators ∙ p.iterators;
  }

  zero_or : (m n : ℕ) → m + n ≤ 1 → (m ≡ 0) ⊎ (n ≡ 0)
  zero_or m n h = omega arith

  or_else_swap :
      (q : K) (a b : Bucket K V)
      → count t q a + count t q b ≤ 1
      → or_else (lookup t q a) (lookup t q b) ≡ or_else (lookup t q b) (lookup t q a)
  unfolding or_else
  or_else_swap q a b h = elim (zero_or (count t q a) (count t q b) h) [
    | inl y ↦ rw (lookup-eq-none t q a y) (or_else-none t (lookup t q b))
    | inr y ↦ rw (lookup-eq-none t q b y) (sym (or_else-none t (lookup t q a)))
  ]

  -- the dictionary after a bucket has been moved
  abbrev pub after_move : Dict K V → ℕ → Table K V × Table K V → Dict K V
  after_move d j r = record d {
    ht0 = record (r.0) { table = set r.0.table j [] };
    ht1 = r.1;
    rehashidx = some (j + 1);
  }

  -- where only `rehashidx` advances over empty buckets
  pub advance-Keeps :
      (d : Dict K V) (i j : ℕ)
      → IsDict t d
      → d.rehashidx ≡ some i
      → EmptyBelow d.ht0.table j
      → Keeps d (record d { rehashidx = some j })
  unfolding view
  advance-Keeps d i j v at_i below = record {
    valid = record {
      first = v.first;
      second = v.second;
      unique = v.unique;
      room = v.room;
      idle = λ e. absurd (cc);
      busy = λ k e. v.busy i at_i;
      moved = λ k l e lt. below l (ground arith);
    };
    same = λ q. refl;
    total = refl;
    iterators = refl;
  }

module _ {ℓ} {K V : Type ℓ} (t : DictType K V) (d : Dict K V) (v : IsDict t d) (i j : ℕ)
    (at_i : d.rehashidx ≡ some i) (below : EmptyBelow d.ht0.table j)
    (inside : j < length d.ht0.table) (r : Table K V × Table K V)
    (m : Moved t (get_or d.ht0.table j []) d.ht0 d.ht1 r) where
  emptied :
      (k : ℕ) → get_or (set r.0.table j []) k [] ≡ (if j == k then [] else get_or d.ht0.table k [])
  emptied k = rw m.table0 (get_or-set d.ht0.table j k [] [] inside)

  first_chain :
      (q : K)
      → chain_of t (after_move t d j r).ht0 q
        ≡ (if j == home t d.ht0 q then [] else chain_of t d.ht0 q)
  unfolding chain_of home
  first_chain q = rw m.mask0 (emptied (home t d.ht0 q))

  first-IsTable : IsTable t (after_move t d j r).ht0
  unfolding home count
  first-IsTable = record {
    width = rw (length-set, m.table0, m.size0) v.first.width;
    mask = rw (m.mask0, m.size0) v.first.mask;
    filled =
        rw m.table0
          (omega (arith, m.used0, v.first.filled, length-flatten-set d.ht0.table j [] inside));
    placed = λ q k ne. rw (emptied k) (elim (Bool-cases (j == k)) [
      | inl y ↦ rw y
      | inr n ↦ rw n (v.first.placed q k (rw m.mask0 at ne))
    ]);
  }

  -- a key's entries in the moved bucket are all those of the first table, or none
  bucket_here :
      (q : K) → (j == home t d.ht0 q) ≡ true → get_or d.ht0.table j [] ≡ chain_of t d.ht0 q
  unfolding chain_of
  bucket_here q y = rw ((==_iff j (home t d.ht0 q)).0 y)

  bucket_elsewhere :
      (q : K) → (j == home t d.ht0 q) ≡ false → count t q (get_or d.ht0.table j []) ≡ 0
  bucket_elsewhere q n = v.first.placed q j (ground arith)

  counts_after :
      (q : K)
      → count t q (chain_of t (after_move t d j r).ht0 q) + count t q (chain_of t r.1 q)
        ≡ count t q (chain_of t d.ht0 q) + count t q (chain_of t d.ht1 q)
  unfolding count
  counts_after q = rw (first_chain q) (elim (Bool-cases (j == home t d.ht0 q)) [
    | inl y ↦ rw y (omega (arith, m.counts q, ap (count t q) (bucket_here q y)))
    | inr n ↦ rw n (omega (arith, m.counts q, bucket_elsewhere q n))
  ])

  once : (q : K) → count t q (chain_of t d.ht1 q) + count t q (get_or d.ht0.table j []) ≤ 1
  once q = elim (Bool-cases (j == home t d.ht0 q)) [
    | inl y ↦ omega (arith, v.unique q, ap (count t q) (bucket_here q y))
    | inr n ↦ omega (arith, v.unique q, bucket_elsewhere q n)
  ]

  view_after : (q : K) → view t (after_move t d j r) q ≡ view t d q
  unfolding view lookup or_else
  view_after q =
      rw (first_chain q, m.reads q (once q))
        (elim (Bool-cases (j == home t d.ht0 q)) [
          | inl y ↦
              rw (y, bucket_here q y)
                (or_else_swap t q (chain_of t d.ht1 q) (chain_of t d.ht0 q)
                  (omega (arith, v.unique q)))
          | inr n ↦
              rw (n, lookup-eq-none t q (get_or d.ht0.table j []) (bucket_elsewhere q n))
                (ap (or_else (lookup t q (chain_of t d.ht0 q)))
                  (sym (or_else-none t (lookup t q (chain_of t d.ht1 q)))))
        ])

  below_or_here : (l : ℕ) → l < j + 1 → (if j == l then [] else get_or d.ht0.table l []) ≡ []
  below_or_here l h = elim (Bool-cases (j == l)) [
    | inl y ↦ rw y
    | inr n ↦ rw n (below l (ground arith))
  ]

  pub after_move-Keeps : Keeps t d (after_move t d j r)
  after_move-Keeps = record {
    valid = record {
      first = first-IsTable;
      second = m.valid1;
      unique = λ q. omega (arith, counts_after q, v.unique q);
      room = omega (arith, m.used0, m.used1, v.room);
      idle = λ e. absurd (cc);
      busy = λ k e. rw (m.size0, m.size1) (v.busy i at_i);
      moved = λ k l e lt. rw (emptied l) (below_or_here l (ground arith));
    };
    same = view_after;
    total = omega (arith, m.used0, m.used1);
    iterators = refl;
  }
