-- ===== src/Adlist/Fresh.antt =====
-- New nodes and released nodes of src/adlist.c.
use redis_counter.Base.{
  ℕ, ◌≡◌, refl, ◌∙◌, ap, arith, true, false, none, some, ◌==◌, Bool-cases, inl, inr, Returns,
}
use redis_counter.Adlist.{Node, Heap, put, alloc, free_node}
use redis_counter.Adlist.Seg.{Cells, has, IsHeap, Change}
use redis_counter.Adlist.Links.{load_node-ok, put-Change, put_same, put_other, put-freed}

module _ {ℓ} {V : Type ℓ} where
  pub alloc_same : (h : Heap V) (m : Node V) → (alloc h m).cells h.fresh ≡ some m
  unfolding alloc put
  alloc_same h m = ground arith

  pub alloc-freed : (h : Heap V) (m : Node V) → (alloc h m).freed ≡ h.freed
  unfolding alloc put
  alloc-freed h m = refl

  pub alloc-Change : (h : Heap V) (m : Node V) (xs : Cells V) → IsHeap h → Change xs h (alloc h m)
  unfolding alloc put
  alloc-Change h m xs u = record {
    keeps = λ a n out there. elim (Bool-cases (a == h.fresh)) [
      | inl y ↦
          let q : a ≡ h.fresh = ground arith in absurd (ground (arith, u h.fresh, ap h.cells q))
      | inr d ↦ rw d there
    ];
    heap = λ _ a above. elim (Bool-cases (a == h.fresh)) [
      | inl y ↦ absurd (ground arith)
      | inr d ↦ rw d (u a (omega arith))
    ];
  }

  -- The release of a node of `xs`
  pub free_node-Change :
      (h : Heap V) (a : ℕ) (m : Node V) (xs : Cells V)
      → has a xs ≡ true
      → h.cells a ≡ some m
      → Returns (free_node h (some a)) (λ g.
        Change xs h g
        × (g.freed ≡ h.freed)
        × ((b : ℕ) (n : Node V) → (b == a) ≡ false → h.cells b ≡ some n → g.cells b ≡ some n)
        × (g.cells a ≡ none)
        × ((b : ℕ) → h.cells b ≡ none → g.cells b ≡ none))
  unfolding free_node
  free_node-Change h a m xs i e = rw (load_node-ok h a m e) (
    put h a none,
    refl,
    (
      put-Change h a xs m none i e,
      put-freed h a none,
      (λ b n d there. put_other h a b none d ∙ there),
      put_same h a none,
      λ b gone. elim (Bool-cases (b == a)) [
        | inl y ↦ let q : b ≡ a = ground arith in ap (put h a none).cells q ∙ put_same h a none
        | inr d ↦ put_other h a b none d ∙ gone
      ],
    ),
  )
