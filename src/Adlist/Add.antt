-- ===== src/Adlist/Add.antt =====
-- `listAddNodeHead` and `listAddNodeTail` of src/adlist.c.
use redis_counter.Base.{
  ℕ, ◌+◌, ◌<◌, ◌^◌, ◌≡◌, refl, sym, ◌∙◌, ap, arith, true, false, none, some, List, [], ◌∷◌, ◌++◌,
  ◌==◌, add64, length, length-append, Bool-cases, inl, inr, Returns, Returns-bind,
}
use redis_counter.Adlist.{Node, Heap, DList, alloc}
use redis_counter.Adlist.Operations.{add_node_head, add_node_tail}
use redis_counter.Adlist.Links.{Seg-apart, Change-trans, set_prev-at, set_next-at}
use redis_counter.Adlist.Fresh.{alloc_same, alloc-freed, alloc-Change}
use redis_counter.Adlist.Seg.{
  Cells, values, values-append, has, Seg, IsHeap, IsList, Change, Seg-join, has_unused, has-append,
  last-append,
}

module _ {ℓ} {V : Type ℓ} where
  pub record SameMethods (l r : DList V) : Type ℓ where
    pub dup : r.dup ≡ l.dup
    pub free : r.free ≡ l.free
    pub match_key : r.match_key ≡ l.match_key

  -- The list of the nodes `xs` becomes one with the values `want`, and `freed` are the values
  -- released until then. Nodes of other lists stay as they are, and stay theirs.
  pub record Edited (h : Heap V) (l : DList V) (xs : Cells V) (want freed : List V)
      (r : Heap V × DList V) : Type ℓ where
    pub after : Cells V
    pub list : IsList r.0 r.1 after
    pub same_values : values after ≡ want
    pub heap : IsHeap r.0
    pub others : Change xs h r.0
    pub taken : (a : ℕ) (n : Node V) → has a xs ≡ false → h.cells a ≡ some n → has a after ≡ false
    pub releases : r.0.freed ≡ freed
    pub methods : SameMethods l r.1

  pub fresh_unused :
      (h : Heap V) (xs : Cells V) → IsHeap h → Seg h none xs none → has h.fresh xs ≡ false
  fresh_unused h xs u s = has_unused h none xs none h.fresh s (u h.fresh (omega arith))

  pub not_fresh :
      (h : Heap V) (a : ℕ) (n : Node V) → IsHeap h → h.cells a ≡ some n → (a == h.fresh) ≡ false
  not_fresh h a n u e = elim (Bool-cases (a == h.fresh)) [
    | inl y ↦ let q : a ≡ h.fresh = ground arith in absurd (ground (arith, u h.fresh, ap h.cells q))
    | inr d ↦ d
  ]

  -- The new node, after a write to others
  pub new_node :
      (h g : Heap V) (xs : Cells V) (m : Node V)
      → IsHeap h
      → Seg h none xs none
      → Change xs (alloc h m) g
      → g.cells h.fresh ≡ some m
  new_node h g xs m u s c = c.keeps h.fresh m (fresh_unused h xs u s) (alloc_same h m)

  -- The first node of a list
  sole_node :
      (h : Heap V) (l : DList V) (v : V)
      → IsHeap h
      → IsList h l []
      → Edited h l [] (v ∷ []) h.freed (
        alloc h (record { prev = none; next = none; value = v }),
        record l { head = some h.fresh; tail = some h.fresh; len = add64 l.len 1 },
      )
  sole_node h l v u i =
      let m : Node V = record { prev = none; next = none; value = v } in
      record {
        after = (h.fresh, v) ∷ [];
        list = record {
          links = (alloc_same h m, refl, tt);
          starts = refl;
          ends = refl;
          count = omega (arith, i.count);
        };
        same_values = refl;
        heap = (alloc-Change h m [] u).heap u;
        others = alloc-Change h m [] u;
        taken = λ a n out there. ground (arith, not_fresh h a n u there);
        releases = alloc-freed h m;
        methods = record { dup = refl; free = refl; match_key = refl };
      }

  -- `listAddNodeHead` puts the value in front, and changes no node of another list.
  pub add_node_head-Edited :
      (h : Heap V) (l : DList V) (xs : Cells V) (v : V)
      → IsHeap h
      → IsList h l xs
      → length xs + 1 < 2 ^ 64
      → Returns (add_node_head h l v) (Edited h l xs (v ∷ values xs) h.freed)
  unfolding add_node_head
  add_node_head-Edited h l [] v u i few =
      let z : (l.len == 0) ≡ true = ground (arith, i.count) in rw z (_, refl, sole_node h l v u i)
  add_node_head-Edited h l ((b, w) ∷ xs) v u i few =
      let z : (l.len == 0) ≡ false = ground (arith, i.count) in
      let m : Node V = record { prev = none; next = l.head; value = v } in
      let all : Cells V = (b, w) ∷ xs in
      let c = alloc-Change h m all u in
      let out = fresh_unused h all u i.links in
      let kept =
        Seg-apart [] h (alloc h m) none all none (alloc-Change h m [] u) (λ a _. refl) i.links in
      rw z (
        Returns-bind
          (set_prev-at (alloc h m) l.head none (some h.fresh) (b, w) xs none i.starts kept)
          λ g s. (
            _,
            refl,
            record {
              after = (h.fresh, v) ∷ all;
              list = record {
                links = (
                  new_node h g all m u i.links s.1
                      ∙ ap (λ q. some (record m { next = q })) i.starts,
                  out,
                  s.0,
                );
                starts = refl;
                ends = i.ends;
                count = omega (arith, i.count);
              };
              same_values = refl;
              heap = s.1.heap (c.heap u);
              others = Change-trans all all h (alloc h m) g (λ a j. j) c s.1;
              taken = λ a n out there. ground (arith, not_fresh h a n u there);
              releases = s.2 ∙ alloc-freed h m;
              methods = record { dup = refl; free = refl; match_key = refl };
            },
          ))

  -- `listAddNodeTail` puts the value at the end, and changes no node of another list.
  pub add_node_tail-Edited :
      (h : Heap V) (l : DList V) (xs : Cells V) (v : V)
      → IsHeap h
      → IsList h l xs
      → length xs + 1 < 2 ^ 64
      → Returns (add_node_tail h l v) (Edited h l xs (values xs ++ v ∷ []) h.freed)
  unfolding add_node_tail
  add_node_tail-Edited h l [] v u i few =
      let z : (l.len == 0) ≡ true = ground (arith, i.count) in rw z (_, refl, sole_node h l v u i)
  add_node_tail-Edited h l (d ∷ xs) v u i few =
      let z : (l.len == 0) ≡ false = ground (arith, i.count) in
      let m : Node V = record { prev = l.tail; next = none; value = v } in
      let all : Cells V = d ∷ xs in
      let new : Cells V = (h.fresh, v) ∷ [] in
      let c = alloc-Change h m all u in
      let out = fresh_unused h all u i.links in
      let kept =
        Seg-apart [] h (alloc h m) none all none (alloc-Change h m [] u) (λ a _. refl) i.links in
      rw z (
        Returns-bind (set_next-at (alloc h m) l.tail none (some h.fresh) d xs none i.ends kept)
          λ g s. (
            _,
            refl,
            record {
              after = all ++ new;
              list = record {
                links =
                    Seg-join g none all new none s.0
                      (
                        new_node h g all m u i.links s.1
                            ∙ ap (λ q. some (record m { prev = q })) i.ends,
                        refl,
                        tt,
                      )
                      (λ a j. elim (Bool-cases (a == h.fresh)) [
                        | inl y ↦
                            let q : a ≡ h.fresh = ground arith in
                            absurd (ground (arith, out, ap (λ x. has x all) q))
                        | inr y ↦ rw y refl
                      ]);
                starts = i.starts;
                ends = sym (last-append none all new);
                count = ground (arith, i.count, length-append all new);
              };
              same_values = values-append all new;
              heap = s.1.heap (c.heap u);
              others = Change-trans all all h (alloc h m) g (λ a j. j) c s.1;
              taken =
                  λ a n o there. ground (arith, o, has-append a all new, not_fresh h a n u there);
              releases = s.2 ∙ alloc-freed h m;
              methods = record { dup = refl; free = refl; match_key = refl };
            },
          ))
