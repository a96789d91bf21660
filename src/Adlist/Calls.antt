-- ===== src/Adlist/Calls.antt =====
-- One call of src/adlist.c, against a plain sequence of values.
use redis_counter.Base.{
  ℕ, zero, suc, ◌+◌, ◌<◌, ◌^◌, ◌≡◌, refl, sym, ◌∙◌, ap, arith, Bool, true, false, Option, none,
  some, List, [], ◌∷◌, ◌++◌, leb, if◌then◌else◌, ℤ, pos, negsuc, length, Option-cases, inl, inr,
  Run, ok, ◌>>=◌, Returns, Returns-map,
}
use redis_counter.Adlist.{Ptr, Heap, DList}
use redis_counter.Adlist.Add.{Edited, add_node_head-Edited, add_node_tail-Edited}
use redis_counter.Adlist.Clear.{freed_all, list_empty-Edited}
use redis_counter.Adlist.Index.{node_at, place, Snoc-cases, list_index-node_of}
use redis_counter.Adlist.Insert.{insert_before-Edited, insert_behind-Edited}
use redis_counter.Adlist.Operations.{insert_node, del_node, list_index, rotate}
use redis_counter.Adlist.Remove.{freed_with, del_node-Edited}
use redis_counter.Adlist.Rotate.{rotate-Edited, unchanged-Edited}
use redis_counter.Adlist.Seg.{Cells, values, values-append, length-values, IsHeap, IsList}
use redis_counter.Adlist.Edits.{
  Edit, push_front, push_back, insert_edit, remove_edit, rotate_edit, clear_edit, perform,
  insert_at, remove_at, value_at, rotated, edited, insert_at-append, insert_behind-append,
  remove_at-append, value_at-append, rotated-append,
}

place-lt : (n : ℕ) (i : ℤ) (k : ℕ) → place n i ≡ some k → k < n
place-lt n (pos i) k e = ground arith
place-lt n (negsuc i) k e = ground arith

module _ {ℓ} {V : Type ℓ} where
  -- The node at a place, with the nodes before it and behind it
  record Found (xs : Cells V) (k : ℕ) : Type ℓ where
    pre : Cells V
    node : ℕ × V
    post : Cells V
    whole : xs ≡ pre ++ node ∷ post
    before : length pre ≡ k
    address : node_at xs k ≡ some node.0

  find_node : (xs : Cells V) (k : ℕ) → k < length xs → Found xs k
  find_node [] k h = absurd (omega arith)
  find_node (c ∷ xs) zero h = record {
    pre = [];
    node = c;
    post = xs;
    whole = refl;
    before = refl;
    address = refl;
  }
  find_node (c ∷ xs) (suc k) h =
      let f = find_node xs k (omega arith) in
      record {
        pre = c ∷ f.pre;
        node = f.node;
        post = f.post;
        whole = ap (λ t. c ∷ t) f.whole;
        before = ap suc f.before;
        address = f.address;
      }

  -- The list stands for the sequence `s.0`, and the values `s.1` have been freed.
  pub record Stands (l : DList V) (s : List V × List V) (r : Heap V × DList V) : Type ℓ where
    pub nodes : Cells V
    pub list : IsList r.0 r.1 nodes
    pub same_values : values nodes ≡ s.0
    pub releases : r.0.freed ≡ s.1
    pub heap : IsHeap r.0
    pub method : r.1.free ≡ l.free

  pub Edited-Stands :
      (h : Heap V) (l : DList V) (xs : Cells V) (want freed : List V) (s : List V × List V)
      (r : Heap V × DList V)
      → want ≡ s.0
      → freed ≡ s.1
      → Edited h l xs want freed r
      → Stands l s r
  Edited-Stands h l xs want freed s r e f d = record {
    nodes = d.after;
    list = d.list;
    same_values = d.same_values ∙ e;
    releases = d.releases ∙ f;
    heap = d.heap;
    method = d.methods.free;
  }

  -- The values around a node
  around :
      (xs pre : Cells V) (c : ℕ × V) (post : Cells V)
      → xs ≡ pre ++ c ∷ post
      → values xs ≡ values pre ++ c.1 ∷ values post
  around xs pre c post e = ap values e ∙ values-append pre (c ∷ post)

  insert-Stands :
      (h : Heap V) (l : DList V) (xs : Cells V) (k : ℕ) (v : V) (after : Bool)
      → IsHeap h
      → IsList h l xs
      → length xs + 1 < 2 ^ 64
      → k < length xs
      → Returns
          (elim (node_at xs k) [ none ↦ ok (h, l) | some a ↦ insert_node h l (some a) v after ])
          (Stands l (insert_at (if after then suc k else k) v (values xs), h.freed))
  insert-Stands h l xs k v true u i few inside =
      let f = find_node xs k inside in
      let i' : IsList h l (f.pre ++ f.node ∷ f.post) = rw (sym f.whole) i in
      let kk : k ≡ length (values f.pre) = sym (length-values f.pre ∙ f.before) in
      let e =
        ap (λ j. insert_at (suc j) v (values xs)) kk
        ∙ ap (insert_at (suc (length (values f.pre))) v) (around xs f.pre f.node f.post f.whole)
        ∙ insert_behind-append (values f.pre) (values f.post) f.node.1 v in
      rw f.address (
        Returns-map
          (insert_behind-Edited h l v f.pre f.node f.post u i' (omega (arith, ap length f.whole)))
          λ r d. Edited-Stands h l _ _ _ _ r (sym e) refl d)
  insert-Stands h l xs k v false u i few inside =
      let f = find_node xs k inside in
      let i' : IsList h l (f.pre ++ f.node ∷ f.post) = rw (sym f.whole) i in
      let kk : k ≡ length (values f.pre) = sym (length-values f.pre ∙ f.before) in
      let e =
        ap (λ j. insert_at j v (values xs)) kk
        ∙ ap (insert_at (length (values f.pre)) v) (around xs f.pre f.node f.post f.whole)
        ∙ insert_at-append (values f.pre) (f.node.1 ∷ values f.post) v in
      rw f.address (
        Returns-map
          (insert_before-Edited h l v f.pre f.node f.post u i' (omega (arith, ap length f.whole)))
          λ r d. Edited-Stands h l _ _ _ _ r (sym e) refl d)

  freed_with_all :
      (method : Bool) (v : V) (done : List V)
      → freed_with method v done ≡ freed_all method (v ∷ []) done
  freed_with_all true v done = refl
  freed_with_all false v done = refl

  remove-Stands :
      (h : Heap V) (l : DList V) (xs : Cells V) (k : ℕ)
      → IsHeap h
      → IsList h l xs
      → length xs + 1 < 2 ^ 64
      → k < length xs
      → Returns
          (elim (node_at xs k) [ none ↦ ok (h, l) | some a ↦ del_node h l (some a) ])
          (Stands l (remove_at k (values xs), freed_all l.free (value_at k (values xs)) h.freed))
  remove-Stands h l xs k u i few inside =
      let f = find_node xs k inside in
      let i' : IsList h l (f.pre ++ f.node ∷ f.post) = rw (sym f.whole) i in
      let kk : k ≡ length (values f.pre) = sym (length-values f.pre ∙ f.before) in
      let vals = around xs f.pre f.node f.post f.whole in
      let e =
        ap (λ j. remove_at j (values xs)) kk
        ∙ ap (remove_at (length (values f.pre))) vals
        ∙ remove_at-append (values f.pre) (values f.post) f.node.1 in
      let g =
        ap (λ j. value_at j (values xs)) kk
        ∙ ap (value_at (length (values f.pre))) vals
        ∙ value_at-append (values f.pre) (values f.post) f.node.1 in
      rw f.address (
        Returns-map
          (del_node-Edited h l f.pre f.node f.post u i' (omega (arith, ap length f.whole)))
          λ r d.
            Edited-Stands h l _ _ _ _ r (sym e)
              (freed_with_all l.free f.node.1 h.freed
                ∙ ap (λ vs. freed_all l.free vs h.freed) (sym g))
              d)

  rotate-Stands :
      (h : Heap V) (l : DList V) (xs : Cells V)
      → IsHeap h
      → IsList h l xs
      → Returns (rotate h l) (Stands l (rotated (values xs), h.freed))
  unfolding rotate
  rotate-Stands h l [] u i =
      let short : leb l.len 1 ≡ true = ground (arith, i.count) in
      rw short ((h, l), refl, Edited-Stands h l [] _ _ _ _ refl refl (unchanged-Edited h l [] u i))
  rotate-Stands h l (c ∷ xs) u i = elim (Snoc-cases xs) [
    | inl e ↦
        let short : leb l.len 1 ≡ true = ground (arith, i.count, ap length e) in
        rw short (
          (h, l),
          refl,
          Edited-Stands h l (c ∷ xs) _ _ _ _
              (ap (λ t. c.1 ∷ values t) e ∙ sym (ap (λ t. rotated (c.1 ∷ values t)) e)) refl
              (unchanged-Edited h l (c ∷ xs) u i),
        )
    | inr m ↦
        let vs =
          ap (λ t. rotated (c.1 ∷ values t)) m.2
          ∙ ap (λ t. rotated (c.1 ∷ t)) (values-append m.0 (m.1 ∷ []))
          ∙ rotated-append (c.1 ∷ values m.0) m.1.1 in
        Returns-map (rotate-Edited h l c m.0 m.1 u (rw (sym (ap (λ t. c ∷ t) m.2)) i))
          λ r d. Edited-Stands h l _ _ _ _ r (sym vs) refl d
  ]

  -- A call at an index: the node, if there is one, and the values
  at_index :
      (h : Heap V) (l : DList V) (xs : Cells V) (i : ℤ) (f : Ptr → Run (Heap V × DList V))
      (want : Option ℕ → List V × List V)
      → IsList h l xs
      → Returns (f none) (Stands l (want none))
      → ((k : ℕ) → k < length xs → Returns (f (node_at xs k)) (Stands l (want (some k))))
      → Returns (list_index h l i >>= f) (Stands l (want (place (length (values xs)) i)))
  at_index h l xs i f want s outside inside =
      rw (list_index-node_of h l xs i s, length-values xs)
        (elim (Option-cases (place (length xs) i)) [
          | inl e ↦ rw e outside
          | inr m ↦ rw m.1 (inside m.0 (place-lt (length xs) i m.0 m.1))
        ])

  pub perform-Stands :
      (h : Heap V) (l : DList V) (xs : Cells V) (e : Edit V)
      → IsHeap h
      → IsList h l xs
      → length xs + 1 < 2 ^ 64
      → Returns (perform h l e) (Stands l (edited l.free (values xs, h.freed) e))
  unfolding perform edited
  perform-Stands h l xs (push_front v) u i few =
      Returns-map (add_node_head-Edited h l xs v u i few)
        λ r d. Edited-Stands h l xs _ _ _ r refl refl d
  perform-Stands h l xs (push_back v) u i few =
      Returns-map (add_node_tail-Edited h l xs v u i few)
        λ r d. Edited-Stands h l xs _ _ _ r refl refl d
  perform-Stands h l xs (insert_edit j v after) u i few =
      at_index h l xs j
        (λ p. elim p [ none ↦ ok (h, l) | some a ↦ insert_node h l (some a) v after ])
        (λ o. elim o [
          | none ↦ (values xs, h.freed)
          | some k ↦ (insert_at (if after then suc k else k) v (values xs), h.freed)
        ])
        i ((h, l), refl, Edited-Stands h l xs _ _ _ _ refl refl (unchanged-Edited h l xs u i))
        λ k inside. insert-Stands h l xs k v after u i few inside
  perform-Stands h l xs (remove_edit j) u i few =
      at_index h l xs j (λ p. elim p [ none ↦ ok (h, l) | some a ↦ del_node h l (some a) ])
        (λ o. elim o [
          | none ↦ (values xs, h.freed)
          | some k ↦ (remove_at k (values xs), freed_all l.free (value_at k (values xs)) h.freed)
        ])
        i ((h, l), refl, Edited-Stands h l xs _ _ _ _ refl refl (unchanged-Edited h l xs u i))
        λ k inside. remove-Stands h l xs k u i few inside
  perform-Stands h l xs rotate_edit u i few = rotate-Stands h l xs u i
  perform-Stands h l xs clear_edit u i few =
      Returns-map (list_empty-Edited h l xs u i) λ r d. Edited-Stands h l xs _ _ _ r refl refl d.0
