-- ===== src/Adlist/Seg.antt =====
-- The nodes of a list of src/adlist.c as a sequence: links in both directions.
use mathlib.Core.Bool.{or_assoc}
use redis_counter.Base.{
  ℕ, suc, ◌≤◌, ◌≡◌, refl, sym, ◌∙◌, ap, arith, Bool, true, false, ◌||◌, none, some, List, [], ◌∷◌,
  ◌++◌, ◌==◌, length, Bool-cases, inl, inr,
}
use redis_counter.Adlist.{Ptr, Node, Heap, DList}

-- The address and the value of each node, in order
abbrev pub Cells {ℓ} : Type ℓ → Type ℓ
Cells V = List (ℕ × V)

module _ {ℓ} {V : Type ℓ} where
  abbrev pub first : Ptr → Cells V → Ptr
  first n [] = n
  first n (c ∷ xs) = some c.0

  abbrev pub last : Ptr → Cells V → Ptr
  last p [] = p
  last p (c ∷ xs) = last (some c.0) xs

  abbrev pub values : Cells V → List V
  values [] = []
  values (c ∷ xs) = c.1 ∷ values xs

  abbrev pub has : ℕ → Cells V → Bool
  has a [] = false
  has a (c ∷ xs) = (a == c.0) || has a xs

  abbrev pub Disjoint : Cells V → Cells V → Type 0
  Disjoint xs ys = (a : ℕ) → has a xs ≡ true → has a ys ≡ false

  -- The nodes `xs` are distinct and linked in order, behind `p` and before `n`.
  abbrev pub Seg : Heap V → Ptr → Cells V → Ptr → Type ℓ
  Seg h p [] n = Unit
  Seg h p (c ∷ xs) n =
      (h.cells c.0 ≡ some (record { prev = p; next = first n xs; value = c.1 }))
      × (has c.0 xs ≡ false)
      × Seg h (some c.0) xs n

  -- No node stands where the next allocations go.
  abbrev pub IsHeap : Heap V → Type ℓ
  IsHeap h = (a : ℕ) → h.fresh ≤ a → h.cells a ≡ none

  pub record IsList (h : Heap V) (l : DList V) (xs : Cells V) : Type ℓ where
    pub links : Seg h none xs none
    pub starts : l.head ≡ first none xs
    pub ends : l.tail ≡ last none xs
    pub count : l.len ≡ length xs

  -- Only nodes of `xs` change or go away, none comes where none was.
  pub record Change (xs : Cells V) (h g : Heap V) : Type ℓ where
    pub keeps : (a : ℕ) (n : Node V) → has a xs ≡ false → h.cells a ≡ some n → g.cells a ≡ some n
    pub heap : IsHeap h → IsHeap g

  pub has-append : (a : ℕ) (xs ys : Cells V) → has a (xs ++ ys) ≡ (has a xs || has a ys)
  has-append a [] ys = refl
  has-append a (x ∷ xs) ys = rw (has-append a xs ys, or_assoc)

  pub has_left : (a : ℕ) (xs ys : Cells V) → has a xs ≡ true → has a (xs ++ ys) ≡ true
  has_left a xs ys h = ground (arith, has-append a xs ys)

  pub has_right : (a : ℕ) (xs ys : Cells V) → has a ys ≡ true → has a (xs ++ ys) ≡ true
  has_right a xs ys h = ground (arith, has-append a xs ys)

  pub has_swap :
      (a : ℕ) (xs : Cells V) (y : ℕ × V) → has a (xs ++ y ∷ []) ≡ false → has a (y ∷ xs) ≡ false
  has_swap a xs y h = ground (arith, has-append a xs (y ∷ []))

  pub first-append : (n : Ptr) (xs ys : Cells V) → first n (xs ++ ys) ≡ first (first n ys) xs
  first-append n [] ys = refl
  first-append n (x ∷ xs) ys = refl

  pub last-append : (p : Ptr) (xs ys : Cells V) → last p (xs ++ ys) ≡ last (last p xs) ys
  last-append p [] ys = refl
  last-append p (x ∷ xs) ys = last-append (some x.0) xs ys

  pub values-append : (xs ys : Cells V) → values (xs ++ ys) ≡ values xs ++ values ys
  values-append [] ys = refl
  values-append (x ∷ xs) ys = ap (λ vs. x.1 ∷ vs) (values-append xs ys)

  pub length-values : (xs : Cells V) → length (values xs) ≡ length xs
  length-values [] = refl
  length-values (x ∷ xs) = ap suc (length-values xs)

  pub Seg-frame :
      (h g : Heap V) (p : Ptr) (xs : Cells V) (n : Ptr)
      → Seg h p xs n
      → ((a : ℕ) (m : Node V) → has a xs ≡ true → h.cells a ≡ some m → g.cells a ≡ some m)
      → Seg g p xs n
  Seg-frame h g p [] n s same = tt
  Seg-frame h g p (c ∷ xs) n s same = (
    same c.0 _ (ground arith) s.0,
    s.1,
    Seg-frame h g (some c.0) xs n s.2 λ a m i. same a m (ground arith),
  )

  pub Seg-split :
      (h : Heap V) (p : Ptr) (xs ys : Cells V) (n : Ptr)
      → Seg h p (xs ++ ys) n
      → Seg h p xs (first n ys) × Seg h (last p xs) ys n × Disjoint xs ys
  Seg-split h p [] ys n s = (tt, s, λ a i. absurd (ground arith))
  Seg-split h p (c ∷ xs) ys n s =
      let r = Seg-split h (some c.0) xs ys n s.2 in
      let out = has-append c.0 xs ys in
      (
        (
          s.0 ∙ ap (λ q. some (record { prev = p; next = q; value = c.1 })) (first-append n xs ys),
          ground arith,
          r.0,
        ),
        r.1,
        λ a i. elim (Bool-cases (a == c.0)) [
          | inl y ↦ let e : a ≡ c.0 = ground arith in rw e (ground arith)
          | inr q ↦ r.2 a (ground arith)
        ],
      )

  pub Seg-join :
      (h : Heap V) (p : Ptr) (xs ys : Cells V) (n : Ptr)
      → Seg h p xs (first n ys)
      → Seg h (last p xs) ys n
      → Disjoint xs ys
      → Seg h p (xs ++ ys) n
  Seg-join h p [] ys n s t apart = t
  Seg-join h p (c ∷ xs) ys n s t apart = (
    s.0 ∙ ap (λ q. some (record { prev = p; next = q; value = c.1 })) (sym (first-append n xs ys)),
    ground (arith, has-append c.0 xs ys, apart c.0),
    Seg-join h (some c.0) xs ys n s.2 t λ a i. apart a (ground arith),
  )

  -- An address that holds no node is none of the list's.
  pub has_unused :
      (h : Heap V) (p : Ptr) (xs : Cells V) (n : Ptr) (a : ℕ)
      → Seg h p xs n
      → h.cells a ≡ none
      → has a xs ≡ false
  has_unused h p [] n a s unused = refl
  has_unused h p (c ∷ xs) n a s unused = ground (arith, has_unused h (some c.0) xs n a s.2 unused)
