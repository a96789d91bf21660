-- ===== src/Adlist/Session.antt =====
-- Sequences of calls of src/adlist.c on one list, against a plain sequence of values.
use redis_counter.Base.{
  ℕ, zero, suc, ◌+◌, ◌≤◌, ◌<◌, ◌^◌, ◌≡◌, refl, ◌∙◌, ap, arith, Bool, List, [], ◌∷◌, if◌then◌else◌,
  length, length-append, Option-cases, inl, inr, Returns, Returns-bind, Returns-map,
}
use redis_counter.Adlist.{Heap, DList}
use redis_counter.Adlist.Index.{place}
use redis_counter.Adlist.Rotate.{unchanged-Edited}
use redis_counter.Adlist.Seg.{Cells, values, length-values, IsHeap, IsList}
use redis_counter.Adlist.Edits.{
  Edit, push_front, push_back, insert_edit, remove_edit, rotate_edit, clear_edit, perform_all,
  insert_at, remove_at, swap_in, rotated, edited, edited_all,
}
use redis_counter.Adlist.Calls.{Stands, Edited-Stands, perform-Stands}

module _ {ℓ} {V : Type ℓ} where
  length-insert_at : (k : ℕ) (v : V) (vs : List V) → length (insert_at k v vs) ≡ length vs + 1
  length-insert_at zero v vs = omega arith
  length-insert_at (suc k) v [] = omega arith
  length-insert_at (suc k) v (x ∷ vs) = omega (arith, length-insert_at k v vs)

  length-remove_at : (k : ℕ) (vs : List V) → length (remove_at k vs) ≤ length vs
  length-remove_at zero [] = omega arith
  length-remove_at (suc k) [] = omega arith
  length-remove_at zero (x ∷ vs) = omega arith
  length-remove_at (suc k) (x ∷ vs) = omega (arith, length-remove_at k vs)

  length-swap_in : (x : V) (vs : List V) → length (swap_in x vs) ≡ length vs + 1
  length-swap_in x [] = omega arith
  length-swap_in x (z ∷ vs) = omega arith

  length-rotated : (vs : List V) → length (rotated vs) ≡ length vs
  length-rotated [] = refl
  length-rotated (x ∷ vs) = omega (arith, length-swap_in x (rotated vs), length-rotated vs)

  length-edited :
      (method : Bool) (vs done : List V) (e : Edit V)
      → length (edited method (vs, done) e).0 ≤ length vs + 1
  unfolding edited
  length-edited method vs done (push_front v) = omega arith
  length-edited method vs done (push_back v) = omega (arith, length-append vs (v ∷ []))
  length-edited method vs done (insert_edit i v after) = elim (Option-cases (place (length vs) i)) [
    | inl e ↦ rw (e, edited) (omega arith)
    | inr m ↦
        rw (m.1, edited) (omega (arith, length-insert_at (if after then suc m.0 else m.0) v vs))
  ]
  length-edited method vs done (remove_edit i) = elim (Option-cases (place (length vs) i)) [
    | inl e ↦ rw (e, edited) (omega arith)
    | inr m ↦ rw (m.1, edited) (omega (arith, length-remove_at m.0 vs))
  ]
  length-edited method vs done rotate_edit = omega (arith, length-rotated vs)
  length-edited method vs done clear_edit = omega arith

  Stands-cast :
      (l l' : DList V) (s s' : List V × List V) (r : Heap V × DList V)
      → l'.free ≡ l.free
      → s' ≡ s
      → Stands l' s' r
      → Stands l s r
  Stands-cast l l' s s' r f e d = record {
    nodes = d.nodes;
    list = d.list;
    same_values = d.same_values ∙ ap (λ t. t.0) e;
    releases = d.releases ∙ ap (λ t. t.1) e;
    heap = d.heap;
    method = d.method ∙ f;
  }

  -- Any sequence of listAddNodeHead, listAddNodeTail, listRotate and listEmpty calls, and of
  -- listInsertNode and listDelNode calls at the node that listIndex returns for an index, on a
  -- well-formed list returns without a crash and leaves a list whose links in both directions,
  -- ends and length agree with the sequence of values that these calls make; the free method, if
  -- there is one, is called on exactly the values taken out, in order, while the nodes and the
  -- calls together stay below 2 ^ 64.
  pub perform_all-Stands :
      (h : Heap V) (l : DList V) (xs : Cells V) (es : List (Edit V))
      → IsHeap h
      → IsList h l xs
      → length xs + length es < 2 ^ 64
      → Returns (perform_all h l es) (Stands l (edited_all l.free (values xs, h.freed) es))
  unfolding perform_all edited_all
  perform_all-Stands h l xs [] u i few =
      ((h, l), refl, Edited-Stands h l xs _ _ _ _ refl refl (unchanged-Edited h l xs u i))
  perform_all-Stands h l xs (e ∷ es) u i few =
      Returns-bind (perform-Stands h l xs e u i (omega arith)) λ r d.
        let s = edited l.free (values xs, h.freed) e in
        let grown = length-edited l.free (values xs) h.freed e in
        let same =
          ap (λ m. edited_all m (values d.nodes, r.0.freed) es) d.method
          ∙ ap (λ a. edited_all l.free (a, r.0.freed) es) d.same_values
          ∙ ap (λ b. edited_all l.free (s.0, b) es) d.releases in
        Returns-map
          (perform_all-Stands r.0 r.1 d.nodes es d.heap d.list (
            omega (arith, grown, ap length d.same_values, length-values d.nodes, length-values xs)))
          λ t f. Stands-cast l r.1 _ _ t d.method same f
