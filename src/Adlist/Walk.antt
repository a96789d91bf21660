-- ===== src/Adlist/Walk.antt =====
-- Iterators and the loops over them, of src/adlist.c: `listNext`, `listSearchKey`, `listDup`.
use redis_counter.Base.{
  ℕ, zero, suc, ◌<◌, ◌≡◌, refl, sym, ◌∙◌, ap, arith, Bool, true, false, Option, none, some, List,
  [], ◌∷◌, ◌++◌, if◌then◌else◌, length, length-append, Bool-cases, inl, inr, Run, ok, out_of_fuel,
  ◌>>=◌, bind_run,
}
use redis_counter.Adlist.{Ptr, Heap, DList, Iter, load_node}
use redis_counter.Adlist.Index.{Snoc-cases}
use redis_counter.Adlist.Operations.{
  get_iterator, rewind, rewind_tail, list_next, is_match, search_loop, search_key,
}
use redis_counter.Adlist.Links.{load_node-ok}
use redis_counter.Adlist.Seg.{
  Cells, first, last, values, values-append, Seg, IsList, Seg-split, last-append,
}

module _ {ℓ} {V : Type ℓ} where
  -- The loop that the comment of `listNext` gives, with the values of the nodes that it returns
  unfoldable pub visit : ℕ → Heap V → Iter → Run (List V)
  visit zero h it = out_of_fuel
  visit (suc fuel) h it = do
    (node, it') ← list_next h it
    elim node [
      | none ↦ ok []
      | some a ↦ do n ← load_node h (some a); rest ← visit fuel h it'; ok (n.value ∷ rest)
    ]

  abbrev pub reversed : List V → List V
  reversed [] = []
  reversed (x ∷ vs) = reversed vs ++ x ∷ []

  reversed-append : (a : List V) (x : V) → reversed (a ++ x ∷ []) ≡ x ∷ reversed a
  reversed-append [] x = refl
  reversed-append (y ∷ a) x = ap (λ t. t ++ y ∷ []) (reversed-append a x)

  visit_forward :
      (n : ℕ) (h : Heap V) (p : Ptr) (xs : Cells V)
      → Seg h p xs none
      → length xs < n
      → visit n h (record { next = first none xs; from_head = true }) ≡ ok (values xs)
  unfolding visit list_next
  visit_forward zero h p xs s few = absurd (omega arith)
  visit_forward (suc n) h p [] s few = refl
  visit_forward (suc n) h p (c ∷ xs) s few =
      rw
        (
          load_node-ok h c.0 _ s.0,
          load_node-ok h c.0 _ s.0,
          visit_forward n h (some c.0) xs s.2 (omega arith),
        )
        refl

  visit_back :
      (n : ℕ) (h : Heap V) (xs : Cells V) (m : Ptr)
      → Seg h none xs m
      → length xs < n
      → visit n h (record { next = last none xs; from_head = false }) ≡ ok (reversed (values xs))
  unfolding visit list_next
  visit_back zero h xs m s few = absurd (omega arith)
  visit_back (suc n) h xs m s few = elim (Snoc-cases xs) [
    | inl e ↦ rw e refl
    | inr k ↦
        let ys = k.0 in
        let y = k.1 in
        let sp = Seg-split h none ys (y ∷ []) m (rw (sym k.2) s) in
        let l = ap length k.2 ∙ length-append ys (y ∷ []) in
        rw
          (
            k.2,
            last-append none ys (y ∷ []),
            values-append ys (y ∷ []),
            reversed-append (values ys) y.1,
            load_node-ok h y.0 _ sp.1.0,
            load_node-ok h y.0 _ sp.1.0,
            visit_back n h ys (some y.0) sp.0 (omega arith),
          )
          refl
  ]

  -- The loop over listNext on a well-formed list ends and meets each node once: from
  -- listGetIterator at the head it gives the values in order, from the tail in reverse order.
  pub visit-values :
      (h : Heap V) (l : DList V) (xs : Cells V) (from_head : Bool)
      → IsList h l xs
      → visit (suc (length xs)) h (get_iterator l from_head)
        ≡ ok (if from_head then values xs else reversed (values xs))
  unfolding get_iterator
  visit-values h l xs true i =
      ap (λ p. visit (suc (length xs)) h (record { next = p; from_head = true })) i.starts
      ∙ visit_forward (suc (length xs)) h none xs i.links (omega arith)
  visit-values h l xs false i =
      ap (λ p. visit (suc (length xs)) h (record { next = p; from_head = false })) i.ends
      ∙ visit_back (suc (length xs)) h xs none i.links (omega arith)

  pub get_iterator-rewind :
      (l : DList V) (from_head : Bool)
      → get_iterator l from_head ≡ (if from_head then rewind l else rewind_tail l)
  unfolding get_iterator rewind rewind_tail
  get_iterator-rewind l true = refl
  get_iterator-rewind l false = refl

  -- The first node with a value that matches
  abbrev pub first_match : (V → Bool) → Cells V → Ptr
  first_match f [] = none
  first_match f (c ∷ xs) = if f c.1 then some c.0 else first_match f xs

  search_loop-first_match :
      (same : V → V → Bool) (n : ℕ) (method : Option (V → V → Bool)) (key : V) (h : Heap V)
      (p : Ptr) (xs : Cells V)
      → Seg h p xs none
      → length xs < n
      → search_loop same n method key h (record { next = first none xs; from_head = true })
        ≡ ok (first_match (is_match same method key) xs)
  unfolding search_loop list_next
  search_loop-first_match same zero method key h p xs s few = absurd (omega arith)
  search_loop-first_match same (suc n) method key h p [] s few = refl
  search_loop-first_match same (suc n) method key h p (c ∷ xs) s few =
      let rest = search_loop-first_match same n method key h (some c.0) xs s.2 (omega arith) in
      rw (load_node-ok h c.0 _ s.0) (
        bind_run _ (load_node-ok h c.0 _ s.0) (elim (Bool-cases (is_match same method key c.1)) [
          | inl y ↦ rw y refl
          | inr q ↦ rw q rest
        ]))

  -- `listSearchKey` returns the first node that matches, and none without one.
  pub search_key-first_match :
      (same : V → V → Bool) (h : Heap V) (l : DList V) (xs : Cells V) (key : V)
      → IsList h l xs
      → search_key same (suc (length xs)) h l key
        ≡ ok (first_match (is_match same l.match_key key) xs)
  unfolding search_key rewind
  search_key-first_match same h l xs key i =
      ap
        (λ p.
          search_loop same (suc (length xs)) l.match_key key h
            (record { next = p; from_head = true }))
        i.starts
      ∙ search_loop-first_match same (suc (length xs)) l.match_key key h none xs i.links
          (omega arith)
