-- ===== src/Adlist/Dup.antt =====
-- `listDup` of src/adlist.c.
use mathlib.Core.List.{append_assoc, append-nil}
use redis_counter.Base.{
  ℕ, zero, suc, ◌+◌, ◌<◌, ◌^◌, ◌≡◌, ◌⊎◌, refl, sym, ◌∙◌, ap, arith, true, false, Option, none, some,
  List, [], ◌∷◌, ◌++◌, length, length-append, Option-cases, inl, inr, Returns, Returns-bind,
  Returns_run,
}
use redis_counter.Adlist.{Ptr, Node, Heap, DList}
use redis_counter.Adlist.Add.{add_node_tail-Edited}
use redis_counter.Adlist.Clear.{list_release-Emptied}
use redis_counter.Adlist.Operations.{rewind, list_next, list_create, copy_value, dup_loop, list_dup}
use redis_counter.Adlist.Links.{load_node-ok}
use redis_counter.Adlist.Seg.{Cells, first, values, length-values, has, Seg, IsHeap, IsList}

module _ {ℓ} {V : Type ℓ} where
  -- The copies of values, behind those made before; none if `dup` returns `NULL` for one
  abbrev pub collect : (V → Option V) → List V → List V → Option (List V)
  collect f done [] = some done
  collect f done (v ∷ vs) = elim (f v) [ none ↦ none | some w ↦ collect f (done ++ w ∷ []) vs ]

  -- The values of the copy: those that `dup` returns, or without a method the values themselves
  abbrev pub copies : Option (V → Option V) → List V → Option (List V)
  copies none vs = some vs
  copies (some dup) vs = collect dup [] vs

  collect_same : (done vs : List V) → collect (copy_value none) done vs ≡ some (done ++ vs)
  unfolding copy_value
  collect_same done [] = ap some (sym (append-nil done))
  collect_same done (v ∷ vs) =
      collect_same (done ++ v ∷ []) vs ∙ ap some (append_assoc done (v ∷ []) vs)

  collect-copies :
      (dup : Option (V → Option V)) (vs : List V) → collect (copy_value dup) [] vs ≡ copies dup vs
  unfolding copy_value
  collect-copies none vs = collect_same [] vs
  collect-copies (some f) vs = refl

  -- What `listDup` leaves: the nodes there were, and a list with the copies, or none.
  pub record Duplicated (h : Heap V) (orig : DList V) (want : Option (List V))
      (r : Heap V × Option (DList V)) : Type ℓ where
    pub heap : IsHeap r.0
    pub kept : (a : ℕ) (n : Node V) → h.cells a ≡ some n → r.0.cells a ≡ some n
    pub copy :
        ((want ≡ none) × (r.1 ≡ none))
        ⊎ ((vs : List V) × (l : DList V) × (want ≡ some vs)
            × (r.1 ≡ some l)
            × ((nodes : Cells V) × IsList r.0 l nodes × (values nodes ≡ vs)))

  -- The loop, with the nodes `cs` of the copy, none of which was there at the start
  dup_loop-Duplicated :
      (fuel : ℕ) (h0 h : Heap V) (orig l : DList V) (cs : Cells V) (p : Ptr) (xs : Cells V)
      → IsHeap h
      → IsList h l cs
      → ((a : ℕ) (n : Node V) → h0.cells a ≡ some n → h.cells a ≡ some n)
      → ((a : ℕ) (n : Node V) → h0.cells a ≡ some n → has a cs ≡ false)
      → Seg h0 p xs none
      → l.dup ≡ orig.dup
      → length xs < fuel
      → length cs + length xs + 1 < 2 ^ 64
      → Returns
          (dup_loop fuel h l (record { next = first none xs; from_head = true }))
          (Duplicated h0 orig (collect (copy_value orig.dup) (values cs) (values xs)))
  unfolding dup_loop list_next
  dup_loop-Duplicated zero h0 h orig l cs p xs u i kept apart s m few small = absurd (omega arith)
  dup_loop-Duplicated (suc n) h0 h orig l cs p [] u i kept apart s m few small = (
    (h, some l),
    refl,
    record { heap = u; kept = kept; copy = inr (values cs, l, refl, refl, (cs, i, refl)) },
  )
  dup_loop-Duplicated (suc n) h0 h orig l cs p (c ∷ xs) u i kept apart s m few small =
      let cell = load_node-ok h c.0 _ (kept c.0 _ s.0) in
      rw (cell, m)
        (Returns_run _ cell (elim (Option-cases (copy_value orig.dup c.1)) [
          | inl e ↦
              rw (e, collect)
                (Returns-bind (list_release-Emptied h l cs u i) λ g d. (
                  (g, none),
                  refl,
                  record {
                    heap = d.0;
                    kept = λ a k there. d.1.keeps a k (apart a k there) (kept a k there);
                    copy = inl (refl, refl);
                  },
                ))
          | inr w ↦
              rw (w.1, collect)
                (Returns-bind (add_node_tail-Edited h l cs w.0 u i (omega arith)) λ r d.
                  rw (sym d.same_values) (
                    dup_loop-Duplicated n h0 r.0 orig r.1 d.after (some c.0) xs d.heap d.list
                      (λ a k there. d.others.keeps a k (apart a k there) (kept a k there))
                      (λ a k there. d.taken a k (apart a k there) (kept a k there)) s.2
                      (d.methods.dup ∙ m) (omega arith)
                      (omega (
                        arith,
                        ap length d.same_values,
                        length-values d.after,
                        length-values cs,
                        length-append (values cs) (w.0 ∷ []),
                      ))))
        ]))

  dup_at :
      (fuel : ℕ) (h : Heap V) (copy : DList V) (xs : Cells V)
      {Q : Heap V × Option (DList V) → Type ℓ} (ptr : Ptr)
      → ptr ≡ first none xs
      → Returns (dup_loop fuel h copy (record { next = first none xs; from_head = true })) Q
      → Returns (dup_loop fuel h copy (record { next = ptr; from_head = true })) Q
  dup_at fuel h copy xs ptr e r = rw e r

  -- ListDup of a well-formed list with fewer than 2 ^ 64 - 1 nodes ends, keeps every node there
  -- was, and gives a well-formed list of the values that the dup method returns for the values in
  -- order, or of the values themselves without a method; if the method returns NULL for one of
  -- them, it gives NULL.
  pub list_dup-Duplicated :
      (h : Heap V) (l : DList V) (xs : Cells V)
      → IsHeap h
      → IsList h l xs
      → length xs + 1 < 2 ^ 64
      → Returns (list_dup (suc (length xs)) h l) (Duplicated h l (copies l.dup (values xs)))
  unfolding list_dup rewind list_create
  list_dup-Duplicated h l xs u i few = rw (sym (collect-copies l.dup (values xs))) (
      dup_at _ _ _ xs l.head i.starts (
        dup_loop-Duplicated (suc (length xs)) h h l _ [] none xs u
          (record { links = tt; starts = refl; ends = refl; count = refl }) (λ a n e. e)
          (λ a n e. refl) i.links refl (omega arith) (omega arith)))
