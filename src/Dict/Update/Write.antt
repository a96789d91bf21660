-- ===== src/Dict/Update/Write.antt =====
-- A write through the reference that a search returned, and what it means for every lookup.
use redis_counter.Base.{
  ℕ, ◌+◌, ◌≤◌, ◌≡◌, ◌∙◌, refl, arith, Returns, inl, inr, Bool, Bool-cases, true, false, Option,
  some, leb, if◌then◌else◌,
}
use redis_counter.Dict.Types.{DictType, Bucket, Dict, Ref, matches, IsKeyed}
use redis_counter.Dict.Chain.{locate, count, assign}
use redis_counter.Dict.Chain.Counting.{
  at-locate, length-assign, lookup-assign, count-assign, count_congr, count_pos,
}
use redis_counter.Dict.Model.{home, chain_of, view, IsDict}
use redis_counter.Dict.Placement.{at-home}
use redis_counter.Dict.Rechain.{Rewrites, rewrite_first, rewrite_second}
use redis_counter.Dict.Search.{ref}
use redis_counter.Dict.Search.Find.{Found}
use redis_counter.Dict.Update.{store}

module _ {ℓ} {K V : Type ℓ} (t : DictType K V) where
  -- `d'` reads as `o` at the key `k` and as `d` elsewhere, with `gain` more and `loss` fewer entries.
  pub record Writes (d : Dict K V) (k : K) (o : Option V) (gain loss : ℕ) (d' : Dict K V)
      : Type ℓ where
    pub valid : IsDict t d'
    pub reads : (q : K) → view t d' q ≡ (if matches t q k then o else view t d q)
    pub total : d'.ht0.used + d'.ht1.used + loss ≡ d.ht0.used + d.ht1.used + gain
    pub iterators : d'.iterators ≡ d.iterators

  -- an entry that a search finds is not in a bucket that the rehash has left behind
  pub found_later :
      (d : Dict K V) (k : K) (p : ℕ)
      → IsDict t d
      → locate t k (chain_of t d.ht0 k) ≡ some p
      → (i : ℕ) → d.rehashidx ≡ some i
      → i ≤ home t d.ht0 k
  unfolding chain_of locate
  found_later d k p v e i at_i = elim (Bool-cases (leb i (home t d.ht0 k))) [
    | inl y ↦ ground arith
    | inr n ↦ absurd (cc (v.moved i (home t d.ht0 k) at_i (ground arith)))
  ]

module _ {ℓ} {K V : Type ℓ} (t : DictType K V) (keyed : IsKeyed t) (k : K) (x : V) where
  assign-Rewrites :
      (c : Bucket K V) (p : ℕ)
      → locate t k c ≡ some p
      → Rewrites t k c (assign p x c) (some x) (count t k c)
  assign-Rewrites c p e = record {
    reads = λ q once. lookup-assign keyed q k p x c e;
    counts = λ q. elim (Bool-cases (matches t q k)) [
      | inl y ↦ rw y (count-assign t q p x c ∙ count_congr keyed q k c y)
      | inr n ↦ rw n (count-assign t q p x c)
    ];
  }

  store_at :
      (d : Dict K V) (second : Bool) (i p : ℕ)
      → IsDict t d
      → Found t d k (ref second i p)
      → Returns (store d (ref second i p) x) (Writes t d k (some x) 0 0)
  unfolding store
  store_at d false i p v f =
      let c = chain_of t d.ht0 k in
      let (e, run, same, val, lt) = at-locate t k c p f.place in
      let pos : 1 ≤ count t k c = count_pos keyed k c p f.place in
      let new =
        rewrite_first t keyed d v k (assign p x c) d.ht0.used (count t k c) (some x)
          (omega (arith, v.unique k)) (assign-Rewrites c p f.place) f.size
          (omega (arith, length-assign t p x c)) v.room (omega (arith, v.unique k))
          (found_later t d k p v f.place) in
      (
        _,
        rw (f.index, at-home t d.ht0 k v.first f.size, run) refl,
        record { valid = new.valid; reads = new.reads; total = refl; iterators = refl },
      )
  store_at d true i p v f =
      let c = chain_of t d.ht1 k in
      let (e, run, same, val, lt) = at-locate t k c p f.place in
      let pos : 1 ≤ count t k c = count_pos keyed k c p f.place in
      let new =
        rewrite_second t keyed d v k (assign p x c) d.ht1.used (count t k c) (some x)
          (omega (arith, v.unique k)) (assign-Rewrites c p f.place) f.size
          (omega (arith, length-assign t p x c)) v.room (omega (arith, v.unique k))
          (f.in_use refl) in
      (
        _,
        rw (f.index, at-home t d.ht1 k v.second f.size, run) refl,
        record { valid = new.valid; reads = new.reads; total = refl; iterators = refl },
      )

  -- A write through the entry of `k` changes the value of exactly the keys that match `k`.
  pub store-Writes :
      (d : Dict K V) (r : Ref)
      → IsDict t d
      → Found t d k r
      → Returns (store d r x) (Writes t d k (some x) 0 0)
  store-Writes d r v f = store_at d r.second r.index r.place v f
