-- ===== src/Dict/Placement.antt =====
-- Replacing the home chain of one key, and adding one entry to it.
use redis_counter.Base.{
  ℕ, ◌+◌, ◌<◌, ◌≡◌, ◌≢◌, refl, ◌∙◌, true, false, some, List, [], ◌∷◌, arith, inl, inr, ◌==◌, ==_iff,
  if◌then◌else◌, ok, at, at-get_or, length, get_or, set, get_or-set, length-set, length-flatten-set,
  length-get_or-le-flatten, Bool-cases,
}
use mathlib.Core.List.{flatten}
use redis_counter.Dict.Types.{DictType, Entry, Bucket, Table, reset, matches, IsKeyed}
use redis_counter.Dict.Chain.{lookup, count}
use redis_counter.Dict.Model.{home, chain_of, home-lt, IsTable}

module _ {ℓ} {K V : Type ℓ} (t : DictType K V) where
  pub reset-IsTable : IsTable t reset
  unfolding count flatten
  reset-IsTable = record { width = refl; mask = omega arith; filled = refl; placed = λ q i h. refl }

  pub at-home :
      (h : Table K V) (k : K)
      → IsTable t h
      → 0 < h.size
      → at h.table (home t h k) ≡ ok (chain_of t h k)
  unfolding chain_of
  at-home h k w pos = at-get_or h.table (home t h k) [] (home-lt t h k w pos)

  length_zero : {A : Type ℓ} (xs : List A) → length xs ≡ 0 → xs ≡ []
  length_zero [] h = refl
  length_zero (x ∷ xs) h = absurd (omega arith)

  pub chain_of_unused : (h : Table K V) (q : K) → IsTable t h → h.used ≡ 0 → chain_of t h q ≡ []
  unfolding chain_of
  chain_of_unused h q w e =
      length_zero (get_or h.table (home t h q) [])
        (omega (arith, w.filled, length-get_or-le-flatten h.table (home t h q)))

  pub chain_of-reset : (q : K) → chain_of t (reset {K = K} {V = V}) q ≡ []
  unfolding chain_of
  chain_of-reset q = refl

  pub chain_of-home :
      (h : Table K V) (a b : K) → home t h a ≡ home t h b → chain_of t h a ≡ chain_of t h b
  unfolding chain_of
  chain_of-home h a b e = rw e

  pub ne_of_test :
      (h : Table K V) (a b : K) → (home t h a == home t h b) ≡ false → home t h b ≢ home t h a
  ne_of_test h a b m = ground arith

  -- the table with another chain in the home bucket of `k`
  abbrev pub rechain : Table K V → K → Bucket K V → ℕ → Table K V
  rechain h k c n = record h { table = set h.table (home t h k) c; used = n }

module _ {ℓ} {K V : Type ℓ} (t : DictType K V) (keyed : IsKeyed t) (h : Table K V) (w : IsTable t h)
    (pos : 0 < h.size) (k : K) (c : Bucket K V) (n : ℕ) where
  pub home-match : (q : K) → matches t q k ≡ true → home t h q ≡ home t h k
  unfolding home
  home-match q m = rw (keyed.match-hash q k m)

  pub chain_of-rechain :
      (q : K)
      → chain_of t (rechain t h k c n) q ≡ (if home t h k == home t h q then c else chain_of t h q)
  unfolding chain_of home
  chain_of-rechain q = get_or-set h.table (home t h k) (home t h q) c [] (home-lt t h k w pos)

  pub rechain-IsTable :
      n + length (chain_of t h k) ≡ h.used + length c
      → ((q : K) → home t h q ≢ home t h k → count t q c ≡ 0)
      → IsTable t (rechain t h k c n)
  unfolding chain_of home
  rechain-IsTable total apart = record {
    width = rw length-set w.width;
    mask = w.mask;
    filled =
        omega
          (arith, length-flatten-set h.table (home t h k) c (home-lt t h k w pos), w.filled, total);
    placed = λ q i ne.
        rw (get_or-set h.table (home t h k) i c [] (home-lt t h k w pos))
          (elim (Bool-cases (home t h k == i)) [
            | inl y ↦ rw y (apart q (λ e. ne (e ∙ (==_iff (home t h k) i).0 y)))
            | inr n ↦ rw n (w.placed q i ne)
          ]);
  }

-- Adding an entry at the head of the home chain of its key.
module _ {ℓ} {K V : Type ℓ} (t : DictType K V) (keyed : IsKeyed t) (h : Table K V) (w : IsTable t h)
    (pos : 0 < h.size) (e : Entry K V) (n : ℕ) where
  abbrev pub push : Table K V
  push = rechain t h e.key (e ∷ chain_of t h e.key) n

  count-cons_apart : (q : K) → home t h q ≢ home t h e.key → matches t q e.key ≡ false
  count-cons_apart q ne = elim (Bool-cases (matches t q e.key)) [
    | inl y ↦ absurd (ne (home-match t keyed h w pos e.key [] 0 q y))
    | inr n ↦ n
  ]

  pub push-IsTable : n ≡ h.used + 1 → IsTable t push
  unfolding count chain_of
  push-IsTable total =
      rechain-IsTable t keyed h w pos e.key (e ∷ chain_of t h e.key) n (omega arith)
        (λ q ne. rw (count-cons_apart q ne) (omega (arith, w.placed q (home t h e.key) ne)))

  pub count-push :
      (q : K)
      → count t q (chain_of t push q)
        ≡ (if matches t q e.key then 1 else 0) + count t q (chain_of t h q)
  unfolding count
  count-push q =
      rw (chain_of-rechain t keyed h w pos e.key (e ∷ chain_of t h e.key) n q)
        (elim (Bool-cases (home t h e.key == home t h q)) [
          | inl y ↦ rw (y, chain_of-home t h e.key q ((==_iff (home t h e.key) (home t h q)).0 y))
          | inr m ↦ rw (m, count-cons_apart q (ne_of_test t h e.key q m)) (omega arith)
        ])

  pub lookup-push :
      (q : K)
      → lookup t q (chain_of t push q)
        ≡ (if matches t q e.key then some e.val else lookup t q (chain_of t h q))
  unfolding lookup
  lookup-push q =
      rw (chain_of-rechain t keyed h w pos e.key (e ∷ chain_of t h e.key) n q)
        (elim (Bool-cases (home t h e.key == home t h q)) [
          | inl y ↦ rw (y, chain_of-home t h e.key q ((==_iff (home t h e.key) (home t h q)).0 y))
          | inr m ↦ rw (m, count-cons_apart q (ne_of_test t h e.key q m))
        ])
