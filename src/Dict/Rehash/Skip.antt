-- ===== src/Dict/Rehash/Skip.antt =====
-- The loop over empty buckets stays inside the table while an entry is left in it.
use redis_counter.Base.{
  ℕ, zero, suc, ◌+◌, ◌≤◌, ◌<◌, ◌≡◌, refl, List, [], ◌∷◌, arith, at-get_or, length, get_or, Returns,
  ◌⊎◌, inl, inr, List-cases,
}
use mathlib.Core.List.{flatten}
use redis_counter.Dict.Rehash.{skip_empty}

lt_or_eq : (j i : ℕ) → j < i + 1 → (j < i) ⊎ (j ≡ i)
lt_or_eq j i h = omega arith

module _ {ℓ} {A : Type ℓ} where
  abbrev pub EmptyBelow : List (List A) → ℕ → Type ℓ
  EmptyBelow table i = (j : ℕ) → j < i → get_or table j [] ≡ []

  -- An entry that is not below `i` makes `i` an index of the table.
  pub index_in_range :
      (table : List (List A)) (i : ℕ)
      → EmptyBelow table i
      → 0 < length (flatten table)
      → i < length table
  unfolding flatten
  index_in_range [] i below some_left = absurd (omega arith)
  index_in_range (b ∷ bs) zero below some_left = omega arith
  index_in_range (b ∷ bs) (suc i) below some_left =
      let rest = index_in_range bs i (λ j h. below (suc j) (omega arith)) in
      suc_lt (rest (rw (below 0 (omega arith)) at some_left))
    where
      suc_lt : i < length bs → suc i < suc (length bs)
      suc_lt h = omega arith

  pub EmptyBelow-suc :
      (table : List (List A)) (i : ℕ)
      → EmptyBelow table i
      → get_or table i [] ≡ []
      → EmptyBelow table (i + 1)
  EmptyBelow-suc table i below e j h = elim (lt_or_eq j i h) [ inl p ↦ below j p | inr p ↦ rw p e ]

  -- Where the loop stops; with visits left the bucket there has an entry.
  pub record Skipped (table : List (List A)) (i v : ℕ) (r : ℕ × ℕ) : Type ℓ where
    pub forward : i ≤ r.0
    pub below : EmptyBelow table r.0
    pub spent : r.1 ≡ 0 → i + v ≤ r.0
    pub progress : (r.1 ≡ 0) ⊎ ((0 < length (get_or table r.0 [])) × (r.0 < length table))

  pub skip_empty-Skipped :
      (v : ℕ) (table : List (List A)) (i : ℕ)
      → EmptyBelow table i
      → 0 < length (flatten table)
      → Returns (skip_empty v table i) (Skipped table i v)
  unfolding skip_empty
  skip_empty-Skipped zero table i below some_left = (
    (i, 0),
    refl,
    record { forward = omega arith; below = below; spent = λ e. omega arith; progress = inl refl },
  )
  skip_empty-Skipped (suc v) table i below some_left =
      let inside = index_in_range table i below some_left in
      elim (List-cases (get_or table i [])) [
        | inl e ↦
            let rest =
              skip_empty-Skipped v table (i + 1) (EmptyBelow-suc table i below e) some_left in
            (
              rest.0,
              rw (at-get_or table i [] inside, e) rest.1,
              record {
                forward = omega (arith, rest.2.forward);
                below = rest.2.below;
                spent = λ z. omega (arith, rest.2.spent z);
                progress = rest.2.progress;
              },
            )
        | inr (x, b, e) ↦ (
          (i, suc v),
          rw (at-get_or table i [] inside, e) refl,
          record {
            forward = omega arith;
            below = below;
            spent = λ z. absurd (omega arith);
            progress = inr (rw e (omega arith), inside);
          },
        )
      ]
