-- ===== src/Adlist/Remove.antt =====
-- `listDelNode` of src/adlist.c.
use redis_counter.Base.{
  ℕ, ◌<◌, ◌^◌, ◌≡◌, refl, sym, ◌∙◌, ap, arith, Bool, true, false, none, some, List, [], ◌∷◌, ◌++◌,
  if◌then◌else◌, length, length-append, Bool-cases, inl, inr, Returns, Returns-bind, Returns-map,
}
use redis_counter.Adlist.{Ptr, Node, Heap, DList, free_node, free_value}
use redis_counter.Adlist.Add.{SameMethods, Edited}
use redis_counter.Adlist.Operations.{del_node, fix_head, fix_tail}
use redis_counter.Adlist.Links.{
  load_node-ok, Seg-apart, Change-trans, Change-widen, link_prev-at, link_next-at,
}
use redis_counter.Adlist.Fresh.{free_node-Change}
use redis_counter.Adlist.Seg.{
  Cells, first, last, values, values-append, has, Disjoint, Seg, IsHeap, IsList, Change, Seg-split,
  Seg-join, Seg-frame, has-append, last-append,
}

module _ {ℓ} {V : Type ℓ} where
  pub Disjoint-sym : (xs ys : Cells V) → Disjoint xs ys → Disjoint ys xs
  Disjoint-sym xs ys d a i = elim (Bool-cases (has a xs)) [
    | inl y ↦ absurd (ground (arith, d a y))
    | inr n ↦ n
  ]

  pub last_some : (a : ℕ) (xs : Cells V) → (b : ℕ) × (last (some a) xs ≡ some b)
  last_some a [] = (a, refl)
  last_some a (c ∷ xs) = last_some c.0 xs

  -- The ends of a list without the node between `pre` and `post`
  fix_head-first :
      (l : DList V) (pre post : Cells V) (c : ℕ × V)
      → l.head ≡ first none (pre ++ c ∷ post)
      → (fix_head (last none pre) l (first none post)).head ≡ first none (pre ++ post)
  unfolding fix_head
  fix_head-first l [] post c e = refl
  fix_head-first l (b ∷ pre) post c e = rw ((last_some b.0 pre).1, fix_head) e

  fix_tail-last :
      (l : DList V) (pre post : Cells V) (c : ℕ × V)
      → l.tail ≡ last none (pre ++ c ∷ post)
      → (fix_tail (first none post) l (last none pre)).tail ≡ last none (pre ++ post)
  unfolding fix_tail
  fix_tail-last l pre [] c e = sym (last-append none pre [])
  fix_tail-last l pre (d ∷ post) c e =
      e ∙ last-append none pre (c ∷ d ∷ post) ∙ sym (last-append none pre (d ∷ post))

  pub fix_head-others :
      (p q : Ptr) (l : DList V) → ((fix_head p l q).tail ≡ l.tail) × SameMethods l (fix_head p l q)
  unfolding fix_head
  fix_head-others none q l = (refl, record { dup = refl; free = refl; match_key = refl })
  fix_head-others (some a) q l = (refl, record { dup = refl; free = refl; match_key = refl })

  fix_tail-others :
      (p q : Ptr) (l : DList V) → ((fix_tail p l q).head ≡ l.head) × SameMethods l (fix_tail p l q)
  unfolding fix_tail
  fix_tail-others none q l = (refl, record { dup = refl; free = refl; match_key = refl })
  fix_tail-others (some a) q l = (refl, record { dup = refl; free = refl; match_key = refl })

  -- What is released with a node
  abbrev pub freed_with : Bool → V → List V → List V
  freed_with method v done = if method then done ++ v ∷ [] else done

  pub free_value-cells :
      (method : Bool) (v : V) (h : Heap V)
      → ((free_value method v h).cells ≡ h.cells)
        × ((free_value method v h).fresh ≡ h.fresh)
        × ((free_value method v h).freed ≡ freed_with method v h.freed)
  unfolding free_value
  free_value-cells true v h = (refl, refl, refl)
  free_value-cells false v h = (refl, refl, refl)

  pub free_value-Change :
      (method : Bool) (v : V) (h : Heap V) (xs : Cells V) → Change xs h (free_value method v h)
  unfolding free_value
  free_value-Change true v h xs = record { keeps = λ a n o t. t; heap = λ u. u }
  free_value-Change false v h xs = record { keeps = λ a n o t. t; heap = λ u. u }

  -- A node is released with its value; the nodes of `xs` are others.
  pub free_node-Seg :
      (h : Heap V) (method : Bool) (v : V) (a : ℕ) (m : Node V) (all : Cells V)
      → has a all ≡ true
      → h.cells a ≡ some m
      → Returns (free_node (free_value method v h) (some a)) (λ g.
        Change all h g
        × (g.freed ≡ freed_with method v h.freed)
        × ((p : Ptr) (xs : Cells V) (n : Ptr) → has a xs ≡ false → Seg h p xs n → Seg g p xs n)
        × (g.cells a ≡ none)
        × ((b : ℕ) → h.cells b ≡ none → g.cells b ≡ none))
  free_node-Seg h method v a m all i e =
      let f = free_value-cells method v h in
      let k = free_value-Change method v h all in
      Returns-map (free_node-Change (free_value method v h) a m all i (ap (λ c. c a) f.0 ∙ e))
        λ g r. (
          Change-trans all all h (free_value method v h) g (λ b j. j) k r.0,
          r.1 ∙ f.2,
          λ p xs n out s. Seg-frame h g p xs n s λ b node j there.
              r.2 b node (ground (arith, ap (λ x. has x xs))) (ap (λ c. c b) f.0 ∙ there),
          r.3,
          λ b gone. r.4 b (ap (λ c. c b) f.0 ∙ gone),
        )

  -- `listDelNode` takes the node out, and calls the free method, if there is one, on its value.
  pub del_node-Edited :
      (h : Heap V) (l : DList V) (pre : Cells V) (c : ℕ × V) (post : Cells V)
      → IsHeap h
      → IsList h l (pre ++ c ∷ post)
      → length (pre ++ c ∷ post) < 2 ^ 64
      → Returns
          (del_node h l (some c.0))
          (Edited h l (pre ++ c ∷ post) (values pre ++ values post) (freed_with l.free c.1 h.freed))
  unfolding del_node
  del_node-Edited h l pre c post u i few =
      let all : Cells V = pre ++ c ∷ post in
      let sp = Seg-split h none pre (c ∷ post) none i.links in
      let m : Node V = record { prev = last none pre; next = first none post; value = c.1 } in
      let out : has c.0 pre ≡ false = ground (arith, sp.2 c.0) in
      let apart : Disjoint pre post = λ a j. ground (arith, sp.2 a j) in
      let in_all : (a : ℕ) → has a pre ≡ true → has a all ≡ true =
        λ a j. ground (arith, has-append a pre (c ∷ post)) in
      let in_all' : (a : ℕ) → has a post ≡ true → has a all ≡ true =
        λ a j. ground (arith, has-append a pre (c ∷ post)) in
      let l1 = fix_head (last none pre) l (first none post) in
      let after_head = fix_head-others (last none pre) (first none post) l in
      let after_tail = fix_tail-others (first none post) (last none pre) l1 in
      rw (load_node-ok h c.0 m sp.1.0) (
        Returns-bind (link_next-at h (last none pre) (first none post) (some c.0) pre refl sp.0)
          λ g r.
            let cell = r.1.keeps c.0 m out sp.1.0 in
            let rest =
              Seg-apart pre h g (some c.0) post none r.1 (Disjoint-sym pre post apart) sp.1.2 in
            rw (load_node-ok g c.0 m cell) (
              Returns-bind
                (link_prev-at g (first none post) (some c.0) (last none pre) post refl rest)
                λ f s.
                  let cell' = s.1.keeps c.0 m sp.1.1 cell in
                  let start = Seg-apart post g f none pre (first none post) s.1 apart r.0 in
                  let c01 =
                    Change-trans all all h g f (λ a j. j) (Change-widen pre all h g in_all r.1)
                      (Change-widen post all g f in_all' s.1) in
                  Returns-bind
                    (free_node-Seg f l.free c.1 c.0 m all
                      (ground (arith, has-append c.0 pre (c ∷ post))) cell')
                    λ e t.
                      let change = Change-trans all all h f e (λ a j. j) c01 t.0 in
                      (
                        _,
                        refl,
                        record {
                          after = pre ++ post;
                          list = record {
                            links =
                                Seg-join e none pre post none
                                  (t.2 none pre (first none post) out start)
                                  (t.2 (last none pre) post none sp.1.1 s.0) apart;
                            starts = after_tail.0 ∙ fix_head-first l pre post c i.starts;
                            ends = fix_tail-last l1 pre post c (after_head.0 ∙ i.ends);
                            count = omega (
                              arith,
                              i.count,
                              length-append pre (c ∷ post),
                              length-append pre post,
                            );
                          };
                          same_values = values-append pre post;
                          heap = change.heap u;
                          others = change;
                          taken = λ a n o there.
                              ground (arith, has-append a pre (c ∷ post), has-append a pre post);
                          releases = t.1 ∙ ap (freed_with l.free c.1) (s.2 ∙ r.2);
                          methods = record {
                            dup = after_tail.1.dup ∙ after_head.1.dup;
                            free = after_tail.1.free ∙ after_head.1.free;
                            match_key = after_tail.1.match_key ∙ after_head.1.match_key;
                          };
                        },
                      )))
