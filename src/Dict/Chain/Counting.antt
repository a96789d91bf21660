-- ===== src/Dict/Chain/Counting.antt =====
-- What the writes to a chain do to the number of matching entries and to lookups.
use redis_counter.Base.{
  ℕ, zero, suc, ◌+◌, ◌≤◌, ◌<◌, ◌≡◌, refl, true, false, none, some, [], ◌∷◌, arith, inl, inr,
  if◌then◌else◌, ok, at, length, Bool-cases,
}
use redis_counter.Dict.Types.{DictType, Entry, Bucket, matches, IsKeyed}
use redis_counter.Dict.Chain.{locate, lookup, count, assign, unlink}

module _ {ℓ} {K V : Type ℓ} {t : DictType K V} (keyed : IsKeyed t) where
  pub match_congr : (a b c : K) → matches t a b ≡ true → matches t a c ≡ matches t b c
  match_congr a b c h =
      ground (arith, keyed.match_symm a b, keyed.match_trans a b c, keyed.match_trans b a c)

  pub match_congr_right : (a b c : K) → matches t b c ≡ true → matches t a b ≡ matches t a c
  match_congr_right a b c h =
      ground (arith, keyed.match_symm b c, keyed.match_trans a b c, keyed.match_trans a c b)

module _ {ℓ} {K V : Type ℓ} (t : DictType K V) where
  pub lookup-eq-none : (q : K) (c : Bucket K V) → count t q c ≡ 0 → lookup t q c ≡ none
  unfolding count lookup
  lookup-eq-none q [] h = refl
  lookup-eq-none q (e ∷ c) h = ground (arith, lookup-eq-none q c)

  pub locate-eq-none : (k : K) (c : Bucket K V) → locate t k c ≡ none → count t k c ≡ 0
  unfolding count locate
  locate-eq-none k [] h = refl
  locate-eq-none k (e ∷ c) h = ground (arith, locate-eq-none k c)

  -- The entry at the place that a search finds.
  pub at-locate :
      (k : K) (c : Bucket K V) (p : ℕ)
      → locate t k c ≡ some p
      → (e : Entry K V) × (at c p ≡ ok e)
        × (matches t k e.key ≡ true)
        × (lookup t k c ≡ some e.val)
        × (p < length c)
  unfolding locate lookup
  at-locate k [] p h = absurd (cc)
  at-locate k (e ∷ c) zero h = (e, refl, ground arith, ground arith, omega arith)
  at-locate k (e ∷ c) (suc p) h =
      let (x, run, same, val, lt) = at-locate k c p (ground arith) in
      (x, run, same, ground arith, omega arith)

  locate-zero :
      (k : K) (e : Entry K V) (c : Bucket K V)
      → locate t k (e ∷ c) ≡ some 0
      → matches t k e.key ≡ true
  unfolding locate
  locate-zero k e c h = ground arith

  locate-suc :
      (k : K) (e : Entry K V) (c : Bucket K V) (p : ℕ)
      → locate t k (e ∷ c) ≡ some (suc p)
      → (matches t k e.key ≡ false) × (locate t k c ≡ some p)
  unfolding locate
  locate-suc k e c p h = (ground arith, ground arith)

  pub length-assign : (p : ℕ) (v : V) (c : Bucket K V) → length (assign p v c) ≡ length c
  unfolding assign
  length-assign p v [] = refl
  length-assign zero v (e ∷ c) = refl
  length-assign (suc p) v (e ∷ c) = omega (arith, length-assign p v c)

  pub count-assign :
      (q : K) (p : ℕ) (v : V) (c : Bucket K V) → count t q (assign p v c) ≡ count t q c
  unfolding assign count
  count-assign q p v [] = refl
  count-assign q zero v (e ∷ c) = refl
  count-assign q (suc p) v (e ∷ c) = omega (arith, count-assign q p v c)

  pub length-unlink : (p : ℕ) (c : Bucket K V) → p < length c → length (unlink p c) + 1 ≡ length c
  unfolding unlink
  length-unlink p [] h = absurd (omega arith)
  length-unlink zero (e ∷ c) h = omega arith
  length-unlink (suc p) (e ∷ c) h = omega (arith, length-unlink p c)

module _ {ℓ} {K V : Type ℓ} {t : DictType K V} (keyed : IsKeyed t) (q k : K) where
  -- A write through the entry that a search for `k` found is seen by exactly the keys that match.
  pub lookup-assign :
      (p : ℕ) (v : V) (c : Bucket K V)
      → locate t k c ≡ some p
      → lookup t q (assign p v c) ≡ (if matches t q k then some v else lookup t q c)
  unfolding assign lookup locate
  lookup-assign p v [] h = absurd (cc)
  lookup-assign zero v (e ∷ c) h =
      ground (arith, match_congr keyed q k e.key, match_congr_right keyed q k e.key)
  lookup-assign (suc p) v (e ∷ c) h =
      ground (arith, match_congr keyed q k e.key, lookup-assign p v c)

  apart :
      (e : Entry K V) → matches t k e.key ≡ false → matches t q e.key ≡ true → matches t q k ≡ false
  apart e miss y = ground (arith, match_congr keyed q k e.key)

  pub count-unlink :
      (p : ℕ) (c : Bucket K V)
      → locate t k c ≡ some p
      → count t q (unlink p c) + (if matches t q k then 1 else 0) ≡ count t q c
  unfolding unlink count locate
  count-unlink p [] h = absurd (cc)
  count-unlink zero (e ∷ c) h =
      ground (arith, match_congr keyed q k e.key, match_congr_right keyed q k e.key)
  count-unlink (suc p) (e ∷ c) h = ground (arith, match_congr keyed q k e.key, count-unlink p c)

  pub lookup-unlink :
      (p : ℕ) (c : Bucket K V)
      → locate t k c ≡ some p
      → count t q c ≤ 1
      → lookup t q (unlink p c) ≡ (if matches t q k then none else lookup t q c)
  unfolding unlink count lookup locate
  lookup-unlink p [] h u = absurd (cc)
  lookup-unlink zero (e ∷ c) h u =
      let same = match_congr_right keyed q k e.key (locate-zero t k e c h) in
      elim (Bool-cases (matches t q e.key)) [
        | inl y ↦ rw (same, y, lookup-eq-none t q c (ground arith))
        | inr n ↦ rw (same, n)
      ]
  lookup-unlink (suc p) (e ∷ c) h u =
      let (miss, further) = locate-suc t k e c p h in
      elim (Bool-cases (matches t q e.key)) [
        | inl y ↦ rw (y, apart e miss y)
        | inr n ↦ rw n (lookup-unlink p c further (omega arith))
      ]

module _ {ℓ} {K V : Type ℓ} {t : DictType K V} (keyed : IsKeyed t) where
  pub count_congr : (q k : K) (c : Bucket K V) → matches t q k ≡ true → count t q c ≡ count t k c
  unfolding count
  count_congr q k [] h = refl
  count_congr q k (e ∷ c) h = rw (match_congr keyed q k e.key h, count_congr q k c h)

  pub count_pos : (k : K) (c : Bucket K V) (p : ℕ) → locate t k c ≡ some p → 1 ≤ count t k c
  unfolding count locate
  count_pos k [] p h = absurd (cc)
  count_pos k (e ∷ c) zero h = ground arith
  count_pos k (e ∷ c) (suc p) h = ground (arith, count_pos k c p)
