-- ===== src/Adlist/Ends.antt =====
-- The ends of a list after `listInsertNode` of src/adlist.c.
use redis_counter.Base.{
  ℕ, ◌≡◌, refl, sym, ◌∙◌, ap, arith, true, false, none, some, [], ◌∷◌, ◌++◌, ◌==◌,
}
use redis_counter.Adlist.{Ptr, DList, same_ptr}
use redis_counter.Adlist.Add.{SameMethods}
use redis_counter.Adlist.Operations.{insert_ends}
use redis_counter.Adlist.Seg.{Cells, first, last, has, last-append}

same_ptr_eq : (p : Ptr) (a : ℕ) → p ≡ some a → same_ptr p (some a) ≡ true
unfolding same_ptr
same_ptr_eq p a e = rw (e, same_ptr) (ground arith)

same_ptr_ne : (p : Ptr) (a b : ℕ) → p ≡ some b → (b == a) ≡ false → same_ptr p (some a) ≡ false
unfolding same_ptr
same_ptr_ne p a b e d = rw (e, same_ptr) d

module _ {ℓ} {V : Type ℓ} where
  last_has :
      (c : ℕ × V) (xs : Cells V) → (b : ℕ) × (last (some c.0) xs ≡ some b) × (has b (c ∷ xs) ≡ true)
  last_has c [] = (c.0, refl, ground arith)
  last_has c (d ∷ xs) = let r = last_has d xs in (r.0, r.1, ground (arith, r.2))

  -- The ends of the list after an insertion before the node `c`, and behind it
  pub record Ends (l : DList V) (head tail : Ptr) (r : DList V) : Type ℓ where
    pub starts : r.head ≡ head
    pub ends : r.tail ≡ tail
    pub methods : SameMethods l r

  pub insert_ends_before :
      (l : DList V) (x : ℕ) (v : V) (pre : Cells V) (c : ℕ × V) (post : Cells V)
      → l.head ≡ first none (pre ++ c ∷ post)
      → has c.0 pre ≡ false
      → Ends l
          (first none (pre ++ (x, v) ∷ c ∷ post))
          l.tail
          (insert_ends l (some c.0) (some x) false)
  unfolding insert_ends
  insert_ends_before l x v [] c post e out = rw (same_ptr_eq l.head c.0 e) (record {
    starts = refl;
    ends = refl;
    methods = record { dup = refl; free = refl; match_key = refl };
  })
  insert_ends_before l x v (b ∷ pre) c post e out =
      rw (same_ptr_ne l.head c.0 b.0 e (ground arith)) (record {
        starts = e;
        ends = refl;
        methods = record { dup = refl; free = refl; match_key = refl };
      })

  pub insert_ends_behind :
      (l : DList V) (x : ℕ) (v : V) (pre : Cells V) (c : ℕ × V) (post : Cells V)
      → l.tail ≡ last none (pre ++ c ∷ post)
      → has c.0 post ≡ false
      → Ends l l.head
          (last none ((pre ++ c ∷ []) ++ (x, v) ∷ post))
          (insert_ends l (some c.0) (some x) true)
  unfolding insert_ends
  insert_ends_behind l x v pre c [] e out =
      rw (same_ptr_eq l.tail c.0 (e ∙ last-append none pre (c ∷ []))) (record {
        starts = refl;
        ends = sym (last-append none (pre ++ c ∷ []) ((x, v) ∷ []));
        methods = record { dup = refl; free = refl; match_key = refl };
      })
  insert_ends_behind l x v pre c (d ∷ post) e out =
      let b = last_has d post in
      let t = e ∙ last-append none pre (c ∷ d ∷ post) in
      rw (same_ptr_ne l.tail c.0 b.0 (t ∙ b.1) (ground (arith, ap (λ y. has y (d ∷ post)), b.2)))
        (record {
          starts = refl;
          ends = t ∙ sym (last-append none (pre ++ c ∷ []) ((x, v) ∷ d ∷ post));
          methods = record { dup = refl; free = refl; match_key = refl };
        })
