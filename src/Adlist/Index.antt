-- ===== src/Adlist/Index.antt =====
-- `listIndex` of src/adlist.c.
use redis_counter.Base.{
  ℕ, zero, suc, ◌-◌, ◌≤◌, ◌<◌, ◌≡◌, ◌⊎◌, refl, sym, ◌∙◌, ap, arith, false, Option, none, some, [],
  ◌∷◌, ◌++◌, ltb, if◌then◌else◌, ℤ, pos, negsuc, length, length-append, Bool-cases, inl, inr, ok,
}
use redis_counter.Adlist.{Ptr, Heap, DList}
use redis_counter.Adlist.Operations.{walk_next, walk_prev, list_index}
use redis_counter.Adlist.Links.{load_node-ok}
use redis_counter.Adlist.Seg.{Cells, first, last, Seg, IsList, Seg-split, last-append}

-- The place that an index means in a list of a length, if any
abbrev pub place : ℕ → ℤ → Option ℕ
place n (pos i) = if ltb i n then some i else none
place n (negsuc i) = if ltb i n then some (n - suc i) else none

module _ {ℓ} {V : Type ℓ} where
  -- The address of the node at a place
  abbrev pub node_at : Cells V → ℕ → Ptr
  node_at [] i = none
  node_at (c ∷ xs) zero = some c.0
  node_at (c ∷ xs) (suc i) = node_at xs i

  abbrev pub node_of : Cells V → Option ℕ → Ptr
  node_of xs none = none
  node_of xs (some k) = node_at xs k

  pub Snoc-cases : (xs : Cells V) → (xs ≡ []) ⊎ ((ys : Cells V) × (y : ℕ × V) × (xs ≡ ys ++ y ∷ []))
  Snoc-cases [] = inl refl
  Snoc-cases (x ∷ xs) = elim (Snoc-cases xs) [
    | inl e ↦ inr ([], x, ap (λ t. x ∷ t) e)
    | inr m ↦ inr (x ∷ m.0, m.1, ap (λ t. x ∷ t) m.2)
  ]

  node_at-append_left :
      (xs ys : Cells V) (i : ℕ) → i < length xs → node_at (xs ++ ys) i ≡ node_at xs i
  node_at-append_left [] ys i h = absurd (omega arith)
  node_at-append_left (x ∷ xs) ys zero h = refl
  node_at-append_left (x ∷ xs) ys (suc i) h = node_at-append_left xs ys i (omega arith)

  node_at-length : (xs : Cells V) (y : ℕ × V) → node_at (xs ++ y ∷ []) (length xs) ≡ some y.0
  node_at-length [] y = refl
  node_at-length (x ∷ xs) y = node_at-length xs y

  node_at_beyond : (xs : Cells V) (i : ℕ) → length xs ≤ i → node_at xs i ≡ none
  node_at_beyond [] i h = refl
  node_at_beyond (x ∷ xs) zero h = absurd (omega arith)
  node_at_beyond (x ∷ xs) (suc i) h = node_at_beyond xs i (omega arith)

  node_at-place : (xs : Cells V) (i : ℕ) → node_at xs i ≡ node_of xs (place (length xs) (pos i))
  node_at-place xs i = elim (Bool-cases (ltb i (length xs))) [
    | inl inside ↦ rw inside refl
    | inr outside ↦ rw outside (node_at_beyond xs i (ground arith))
  ]

  walk_next-node_at :
      (h : Heap V) (p : Ptr) (xs : Cells V) (i : ℕ)
      → Seg h p xs none
      → walk_next h i (first none xs) ≡ ok (node_at xs i)
  unfolding walk_next
  walk_next-node_at h p [] zero s = refl
  walk_next-node_at h p [] (suc i) s = refl
  walk_next-node_at h p (c ∷ xs) zero s = refl
  walk_next-node_at h p (c ∷ xs) (suc i) s =
      rw (load_node-ok h c.0 _ s.0) (walk_next-node_at h (some c.0) xs i s.2)

  walk_prev_null : (h : Heap V) (i : ℕ) → walk_prev h i none ≡ ok none
  unfolding walk_prev
  walk_prev_null h zero = refl
  walk_prev_null h (suc i) = refl

  -- The steps back from the node behind `ys`
  walk_prev-snoc :
      (i : ℕ) (h : Heap V) (ys : Cells V) (y : ℕ × V) (n : Ptr)
      → Seg h none (ys ++ y ∷ []) n
      → (i ≤ length ys → walk_prev h i (some y.0) ≡ ok (node_at (ys ++ y ∷ []) (length ys - i)))
        × (length ys < i → walk_prev h i (some y.0) ≡ ok none)
  unfolding walk_prev
  walk_prev-snoc zero h ys y n s = (
    λ b.
        let e : length ys - 0 ≡ length ys = omega arith in
        ap ok (sym (ap (node_at (ys ++ y ∷ [])) e ∙ node_at-length ys y)),
    λ b. absurd (omega arith),
  )
  walk_prev-snoc (suc i) h ys y n s =
      let sp = Seg-split h none ys (y ∷ []) n s in
      rw (load_node-ok h y.0 _ sp.1.0) (elim (Snoc-cases ys) [
        | inl e ↦ (
          λ b. absurd (omega (arith, ap length e)),
          λ b. ap (λ t. walk_prev h i (last none t)) e ∙ walk_prev_null h i,
        )
        | inr m ↦
            let zs = m.0 in
            let z = m.1 in
            let e = m.2 in
            let l = ap length e ∙ length-append zs (z ∷ []) in
            let head : Seg h none (zs ++ z ∷ []) (some y.0) = rw (sym e) sp.0 in
            let r = walk_prev-snoc i h zs z (some y.0) head in
            let step =
              ap (λ t. walk_prev h i (last none t)) e
              ∙ ap (walk_prev h i) (last-append none zs (z ∷ [])) in
            (
              λ b.
                  let k : length ys - suc i ≡ length zs - i = omega arith in
                  step
                  ∙ r.0 (omega arith)
                  ∙ ap ok (
                      ap (λ t. node_at t (length zs - i)) (sym e)
                      ∙ ap (node_at ys) (sym k)
                      ∙ sym (node_at-append_left ys (y ∷ []) (length ys - suc i) (omega arith))),
              λ b. step ∙ r.1 (omega arith),
            )
      ])

  walk_prev-node_of :
      (i : ℕ) (h : Heap V) (xs : Cells V) (n : Ptr)
      → Seg h none xs n
      → walk_prev h i (last none xs) ≡ ok (node_of xs (place (length xs) (negsuc i)))
  walk_prev-node_of i h xs n s = elim (Snoc-cases xs) [
    | inl e ↦ let z : ltb i 0 ≡ false = ground arith in rw (e, z) (walk_prev_null h i)
    | inr m ↦
        let ys = m.0 in
        let y = m.1 in
        let l = ap length m.2 ∙ length-append ys (y ∷ []) in
        let r = walk_prev-snoc i h ys y n (rw (sym m.2) s) in
        let start =
          ap (λ t. walk_prev h i (last none t)) m.2
          ∙ ap (walk_prev h i) (last-append none ys (y ∷ [])) in
        elim (Bool-cases (ltb i (length xs))) [
          | inl inside ↦
              let k : length ys - i ≡ length xs - suc i = omega arith in
              rw inside (
                start
                ∙ r.0 (ground arith)
                ∙ ap ok (ap (λ t. node_at t (length ys - i)) (sym m.2) ∙ ap (node_at xs) k))
          | inr outside ↦ rw outside (start ∙ r.1 (ground arith))
        ]
  ]

  -- `listIndex` returns the node at the place that the index means, from either end.
  pub list_index-node_of :
      (h : Heap V) (l : DList V) (xs : Cells V) (i : ℤ)
      → IsList h l xs
      → list_index h l i ≡ ok (node_of xs (place (length xs) i))
  unfolding list_index
  list_index-node_of h l xs (pos i) s =
      ap (walk_next h i) s.starts
      ∙ walk_next-node_at h none xs i s.links
      ∙ ap ok (node_at-place xs i)
  list_index-node_of h l xs (negsuc i) s =
      ap (walk_prev h i) s.ends ∙ walk_prev-node_of i h xs none s.links
