-- ===== src/Adlist/Links.antt =====
-- Writes to the nodes of a list of src/adlist.c: what they do to its links, and what they keep.
use redis_counter.Base.{
  ℕ, ◌≡◌, refl, ◌∙◌, ap, arith, true, false, Option, none, some, [], ◌∷◌, ◌==◌, ok, Bool-cases, inl,
  inr, Returns,
}
use redis_counter.Adlist.{Ptr, Node, Heap, put, load_node, set_next, set_prev, link_next, link_prev}
use redis_counter.Adlist.Seg.{Cells, first, last, has, Disjoint, Seg, Change, Seg-frame}

module _ {ℓ} {V : Type ℓ} where
  pub load_node-ok :
      (h : Heap V) (a : ℕ) (n : Node V) → h.cells a ≡ some n → load_node h (some a) ≡ ok n
  unfolding load_node
  load_node-ok h a n e = rw (e, load_node) refl

  pub put_same : (h : Heap V) (a : ℕ) (c : Option (Node V)) → (put h a c).cells a ≡ c
  unfolding put
  put_same h a c = ground arith

  pub put_other :
      (h : Heap V) (a b : ℕ) (c : Option (Node V))
      → (b == a) ≡ false
      → (put h a c).cells b ≡ h.cells b
  unfolding put
  put_other h a b c d = rw d refl

  pub put-freed : (h : Heap V) (a : ℕ) (c : Option (Node V)) → (put h a c).freed ≡ h.freed
  unfolding put
  put-freed h a c = refl

  -- A write to a node of `xs`
  pub put-Change :
      (h : Heap V) (a : ℕ) (xs : Cells V) (m : Node V) (c : Option (Node V))
      → has a xs ≡ true
      → h.cells a ≡ some m
      → Change xs h (put h a c)
  unfolding put
  put-Change h a xs m c i e = record {
    keeps = λ b n out there. elim (Bool-cases (b == a)) [
      | inl y ↦ let q : b ≡ a = ground arith in absurd (ground (arith, ap (λ x. has x xs) q))
      | inr d ↦ put_other h a b c d ∙ there
    ];
    heap = λ unused b above. elim (Bool-cases (b == a)) [
      | inl y ↦
          let q : b ≡ a = ground arith in absurd (ground (arith, unused b above, ap h.cells q))
      | inr d ↦ put_other h a b c d ∙ unused b above
    ];
  }

  pub Change-trans :
      (xs ys : Cells V) (h g f : Heap V)
      → ((a : ℕ) → has a xs ≡ true → has a ys ≡ true)
      → Change xs h g
      → Change ys g f
      → Change ys h f
  Change-trans xs ys h g f sub c d = record {
    keeps = λ a n out there. d.keeps a n out (c.keeps a n (ground (arith, sub a)) there);
    heap = λ u. d.heap (c.heap u);
  }

  pub Change-widen :
      (xs ys : Cells V) (h g : Heap V)
      → ((a : ℕ) → has a xs ≡ true → has a ys ≡ true)
      → Change xs h g
      → Change ys h g
  Change-widen xs ys h g sub c = record {
    keeps = λ a n out there. c.keeps a n (ground (arith, sub a)) there;
    heap = c.heap;
  }

  pub Change-refl : (xs : Cells V) (h : Heap V) → Change xs h h
  Change-refl xs h = record { keeps = λ a n out there. there; heap = λ u. u }

  -- A list none of whose nodes may change
  pub Seg-apart :
      (xs : Cells V) (h g : Heap V) (p : Ptr) (ys : Cells V) (n : Ptr)
      → Change xs h g
      → Disjoint ys xs
      → Seg h p ys n
      → Seg g p ys n
  Seg-apart xs h g p ys n c apart s =
      Seg-frame h g p ys n s λ a m i there. c.keeps a m (apart a i) there

  -- The write to the first node
  pub set_prev-Seg :
      (h : Heap V) (p q : Ptr) (a : ℕ) (v : V) (xs : Cells V) (n : Ptr)
      → Seg h p ((a, v) ∷ xs) n
      → Returns
          (set_prev h (some a) q)
          (λ g. Seg g q ((a, v) ∷ xs) n × Change ((a, v) ∷ xs) h g × (g.freed ≡ h.freed))
  unfolding set_prev
  set_prev-Seg h p q a v xs n s =
      let m : Node V = record { prev = p; next = first n xs; value = v } in
      let c : Node V = record { prev = q; next = first n xs; value = v } in
      rw (load_node-ok h a m s.0) (
        put h a (some c),
        refl,
        (
          (
            put_same h a (some c),
            s.1,
            Seg-frame h (put h a (some c)) (some a) xs n s.2 λ b k i there.
                put_other h a b (some c) (ground (arith, ap (λ x. has x xs))) ∙ there,
          ),
          put-Change h a ((a, v) ∷ xs) m (some c) (ground arith) s.0,
          put-freed h a (some c),
        ),
      )

  -- The write to the last node
  pub set_next-Seg :
      (h : Heap V) (p m : Ptr) (a : ℕ) (v : V) (xs : Cells V) (n : Ptr)
      → Seg h p ((a, v) ∷ xs) n
      → Returns
          (set_next h (last (some a) xs) m)
          (λ g. Seg g p ((a, v) ∷ xs) m × Change ((a, v) ∷ xs) h g × (g.freed ≡ h.freed))
  unfolding set_next
  set_next-Seg h p m a v [] n s =
      let k : Node V = record { prev = p; next = n; value = v } in
      let c : Node V = record { prev = p; next = m; value = v } in
      rw (load_node-ok h a k s.0) (
        put h a (some c),
        refl,
        (
          (put_same h a (some c), s.1, tt),
          put-Change h a ((a, v) ∷ []) k (some c) (ground arith) s.0,
          put-freed h a (some c),
        ),
      )
  set_next-Seg h p m a v ((b, w) ∷ xs) n s =
      let r = set_next-Seg h (some a) m b w xs n s.2 in
      (
        r.0,
        r.1,
        (
          (r.2.1.keeps a _ s.1 s.0, s.1, r.2.0),
          Change-widen ((b, w) ∷ xs) ((a, v) ∷ (b, w) ∷ xs) h r.0 (λ x i. ground arith) r.2.1,
          r.2.2,
        ),
      )

  link_next_null : (h : Heap V) (m : Ptr) → link_next h none m ≡ ok h
  unfolding link_next
  link_next_null h m = refl

  link_next_last :
      (h : Heap V) (m : Ptr) (a : ℕ) (xs : Cells V)
      → link_next h (last (some a) xs) m ≡ set_next h (last (some a) xs) m
  unfolding link_next
  link_next_last h m a [] = refl
  link_next_last h m a (c ∷ xs) = link_next_last h m c.0 xs

  -- The same on the ends of a list that may be empty
  pub link_prev-Seg :
      (h : Heap V) (p q : Ptr) (xs : Cells V)
      → Seg h p xs none
      → Returns
          (link_prev h (first none xs) q)
          (λ g. Seg g q xs none × Change xs h g × (g.freed ≡ h.freed))
  unfolding link_prev
  link_prev-Seg h p q [] s = (h, refl, (tt, Change-refl [] h, refl))
  link_prev-Seg h p q (c ∷ xs) s = set_prev-Seg h p q c.0 c.1 xs none s

  pub link_next-Seg :
      (h : Heap V) (m n : Ptr) (xs : Cells V)
      → Seg h none xs n
      → Returns
          (link_next h (last none xs) m)
          (λ g. Seg g none xs m × Change xs h g × (g.freed ≡ h.freed))
  link_next-Seg h m n [] s = (h, link_next_null h m, (tt, Change-refl [] h, refl))
  link_next-Seg h m n (c ∷ xs) s =
      rw (link_next_last h m c.0 xs) (set_next-Seg h none m c.0 c.1 xs n s)

  -- The writes at a pointer that is read from the list
  pub set_prev-at :
      (h : Heap V) (ptr p q : Ptr) (c : ℕ × V) (xs : Cells V) (n : Ptr)
      → ptr ≡ some c.0
      → Seg h p (c ∷ xs) n
      → Returns
          (set_prev h ptr q)
          (λ g. Seg g q (c ∷ xs) n × Change (c ∷ xs) h g × (g.freed ≡ h.freed))
  set_prev-at h ptr p q c xs n e s = rw e (set_prev-Seg h p q c.0 c.1 xs n s)

  pub set_next-at :
      (h : Heap V) (ptr p m : Ptr) (c : ℕ × V) (xs : Cells V) (n : Ptr)
      → ptr ≡ last (some c.0) xs
      → Seg h p (c ∷ xs) n
      → Returns
          (set_next h ptr m)
          (λ g. Seg g p (c ∷ xs) m × Change (c ∷ xs) h g × (g.freed ≡ h.freed))
  set_next-at h ptr p m c xs n e s = rw e (set_next-Seg h p m c.0 c.1 xs n s)

  pub link_prev-at :
      (h : Heap V) (ptr p q : Ptr) (xs : Cells V)
      → ptr ≡ first none xs
      → Seg h p xs none
      → Returns (link_prev h ptr q) (λ g. Seg g q xs none × Change xs h g × (g.freed ≡ h.freed))
  link_prev-at h ptr p q xs e s = rw e (link_prev-Seg h p q xs s)

  pub link_next-at :
      (h : Heap V) (ptr m n : Ptr) (xs : Cells V)
      → ptr ≡ last none xs
      → Seg h none xs n
      → Returns (link_next h ptr m) (λ g. Seg g none xs m × Change xs h g × (g.freed ≡ h.freed))
  link_next-at h ptr m n xs e s = rw e (link_next-Seg h m n xs s)

  pub load_node_at :
      (h : Heap V) (ptr : Ptr) (a : ℕ) (n : Node V)
      → ptr ≡ some a
      → h.cells a ≡ some n
      → Returns (load_node h ptr) (λ k. k ≡ n)
  load_node_at h ptr a n p e = rw p (n, load_node-ok h a n e, refl)
