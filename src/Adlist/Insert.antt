-- ===== src/Adlist/Insert.antt =====
-- `listInsertNode` of src/adlist.c.
use mathlib.Core.List.{append_assoc}
use redis_counter.Base.{
  ℕ, ◌+◌, ◌<◌, ◌^◌, ◌≡◌, refl, sym, ◌∙◌, ap, arith, true, false, none, some, List, [], ◌∷◌, ◌++◌,
  ◌==◌, length, length-append, Bool-cases, inl, inr, Returns, Returns-bind, Returns-map, add64,
}
use redis_counter.Adlist.{Ptr, Node, Heap, DList, alloc}
use redis_counter.Adlist.Add.{Edited, not_fresh, fresh_unused, new_node}
use redis_counter.Adlist.Remove.{Disjoint-sym}
use redis_counter.Adlist.Operations.{insert_node, inserted, link_node, insert_ends}
use redis_counter.Adlist.Links.{
  load_node-ok, Seg-apart, Change-trans, Change-widen, link_prev-at, link_next-at,
}
use redis_counter.Adlist.Fresh.{alloc-freed, alloc-Change}
use redis_counter.Adlist.Seg.{
  Cells, first, last, values, values-append, has, Seg, IsHeap, IsList, Change, Seg-split, Seg-join,
  has-append, last-append, first-append,
}
use redis_counter.Adlist.Ends.{Ends, insert_ends_before, insert_ends_behind}

module _ {ℓ} {V : Type ℓ} where
  -- A new node between `pre` and `post`: what the writes of `listInsertNode` leave
  pub record Spliced (h : Heap V) (v : V) (pre post : Cells V) (g : Heap V) : Type ℓ where
    pub links : Seg g none (pre ++ (h.fresh, v) ∷ post) none
    pub change : Change (pre ++ post) h g
    pub releases : g.freed ≡ h.freed

  splice :
      (h : Heap V) (v : V) (pre post : Cells V) (p q : Ptr)
      → IsHeap h
      → Seg h none (pre ++ post) none
      → p ≡ last none pre
      → q ≡ first none post
      → Returns
          (link_node (alloc h (record { prev = p; next = q; value = v })) p q (some h.fresh))
          (Spliced h v pre post)
  unfolding link_node
  splice h v pre post p q u s ep eq =
      let all : Cells V = pre ++ post in
      let m : Node V = record { prev = p; next = q; value = v } in
      let h0 = alloc h m in
      let c = alloc-Change h m all u in
      let out : has h.fresh all ≡ false = fresh_unused h all u s in
      let o = has-append h.fresh pre post in
      let kept = Seg-apart [] h h0 none all none (alloc-Change h m [] u) (λ a _. refl) s in
      let sp = Seg-split h0 none pre post none kept in
      let in_all : (a : ℕ) → has a pre ≡ true → has a all ≡ true =
        λ a j. ground (arith, has-append a pre post) in
      let in_all' : (a : ℕ) → has a post ≡ true → has a all ≡ true =
        λ a j. ground (arith, has-append a pre post) in
      Returns-bind (link_next-at h0 p (some h.fresh) (first none post) pre ep sp.0) λ g r.
        let rest =
          Seg-apart pre h0 g (last none pre) post none r.1 (Disjoint-sym pre post sp.2) sp.1 in
        Returns-map (link_prev-at g q (last none pre) (some h.fresh) post eq rest) λ f t.
          let d =
            Change-trans all all h0 g f (λ a j. j) (Change-widen pre all h0 g in_all r.1)
              (Change-widen post all g f in_all' t.1) in
          let cell = new_node h f all m u s d in
          record {
            links =
                Seg-join f none pre ((h.fresh, v) ∷ post) none
                  (Seg-apart post g f none pre (some h.fresh) t.1 sp.2 r.0)
                  (
                    cell
                        ∙ ap (λ p. some (record m { prev = p })) ep
                        ∙ ap (λ q. some (record { prev = last none pre; next = q; value = v })) eq,
                    ground (arith, o, out),
                    t.0,
                  )
                  (λ a j. elim (Bool-cases (a == h.fresh)) [
                    | inl y ↦
                        let z : a ≡ h.fresh = ground arith in
                        absurd (ground (arith, o, out, ap (λ x. has x pre) z))
                    | inr y ↦ rw y (sp.2 a j)
                  ]);
            change = Change-trans all all h h0 f (λ a j. j) c d;
            releases = t.2 ∙ r.2 ∙ alloc-freed h m;
          }

  insert_node-Edited :
      (h : Heap V) (l r : DList V) (v : V) (pre post : Cells V) (want : List V) (g : Heap V)
      → IsHeap h
      → IsList h l (pre ++ post)
      → length (pre ++ post) + 1 < 2 ^ 64
      → values (pre ++ (h.fresh, v) ∷ post) ≡ want
      → Ends l (first none (pre ++ (h.fresh, v) ∷ post)) (last none (pre ++ (h.fresh, v) ∷ post)) r
      → Spliced h v pre post g
      → Edited h l (pre ++ post) want h.freed (g, record r { len = add64 l.len 1 })
  insert_node-Edited h l r v pre post want g u i few e n t = record {
    after = pre ++ (h.fresh, v) ∷ post;
    list = record {
      links = t.links;
      starts = n.starts;
      ends = n.ends;
      count =
          omega (arith, i.count, length-append pre post, length-append pre ((h.fresh, v) ∷ post));
    };
    same_values = e;
    heap = t.change.heap u;
    others = t.change;
    taken = λ a m o there. ground (
      arith,
      has-append a pre post,
      has-append a pre ((h.fresh, v) ∷ post),
      not_fresh h a m u there,
    );
    releases = t.releases;
    methods = record {
      dup = n.methods.dup;
      free = n.methods.free;
      match_key = n.methods.match_key;
    };
  }

  -- `listInsertNode` puts the value before the node `c`.
  pub insert_before-Edited :
      (h : Heap V) (l : DList V) (v : V) (pre : Cells V) (c : ℕ × V) (post : Cells V)
      → IsHeap h
      → IsList h l (pre ++ c ∷ post)
      → length (pre ++ c ∷ post) + 1 < 2 ^ 64
      → Returns
          (insert_node h l (some c.0) v false)
          (Edited h l (pre ++ c ∷ post) (values pre ++ v ∷ c.1 ∷ values post) h.freed)
  unfolding insert_node inserted
  insert_before-Edited h l v pre c post u i few =
      let sp = Seg-split h none pre (c ∷ post) none i.links in
      let m : Node V = record { prev = last none pre; next = first none post; value = c.1 } in
      let n = insert_ends_before l h.fresh v pre c post i.starts (ground (arith, sp.2 c.0)) in
      let tail =
        i.ends
        ∙ last-append none pre (c ∷ post)
        ∙ sym (last-append none pre ((h.fresh, v) ∷ c ∷ post)) in
      rw (load_node-ok h c.0 m sp.1.0) (
        Returns-bind (splice h v pre (c ∷ post) (last none pre) (some c.0) u i.links refl refl)
          λ g t. (
            _,
            refl,
            insert_node-Edited h l (insert_ends l (some c.0) (some h.fresh) false) v pre (c ∷ post)
                _ g u i few (values-append pre ((h.fresh, v) ∷ c ∷ post))
                (record { starts = n.starts; ends = n.ends ∙ tail; methods = n.methods }) t,
          ))

  -- `listInsertNode` with `after` puts the value behind the node `c`.
  pub insert_behind-Edited :
      (h : Heap V) (l : DList V) (v : V) (pre : Cells V) (c : ℕ × V) (post : Cells V)
      → IsHeap h
      → IsList h l (pre ++ c ∷ post)
      → length (pre ++ c ∷ post) + 1 < 2 ^ 64
      → Returns
          (insert_node h l (some c.0) v true)
          (Edited h l (pre ++ c ∷ post) (values pre ++ c.1 ∷ v ∷ values post) h.freed)
  unfolding insert_node inserted
  insert_behind-Edited h l v pre c post u i few =
      let sp = Seg-split h none pre (c ∷ post) none i.links in
      let m : Node V = record { prev = last none pre; next = first none post; value = c.1 } in
      let e : pre ++ c ∷ post ≡ (pre ++ c ∷ []) ++ post = sym (append_assoc pre (c ∷ []) post) in
      let n = insert_ends_behind l h.fresh v pre c post i.ends sp.1.1 in
      let i' : IsList h l ((pre ++ c ∷ []) ++ post) = rw (sym e) i in
      let head =
        i.starts
        ∙ first-append none pre (c ∷ post)
        ∙ sym (first-append none pre (c ∷ (h.fresh, v) ∷ post))
        ∙ ap (first none) (sym (append_assoc pre (c ∷ []) ((h.fresh, v) ∷ post))) in
      let vs =
        ap values (append_assoc pre (c ∷ []) ((h.fresh, v) ∷ post))
        ∙ values-append pre (c ∷ (h.fresh, v) ∷ post) in
      rw (load_node-ok h c.0 m sp.1.0) (
        Returns-bind
          (splice h v (pre ++ c ∷ []) post (some c.0) (first none post) u i'.links
            (sym (last-append none pre (c ∷ []))) refl)
          λ g t. (
            _,
            refl,
            rw e (
                insert_node-Edited h l (insert_ends l (some c.0) (some h.fresh) true) v
                  (pre ++ c ∷ []) post _ g u i' (omega (arith, few, ap length e)) vs
                  (record { starts = n.starts ∙ head; ends = n.ends; methods = n.methods }) t),
          ))
