-- ===== src/Adlist/Clear.antt =====
-- `listEmpty` of src/adlist.c.
use mathlib.Core.List.{append_assoc, append-nil}
use redis_counter.Base.{
  ℕ, ◌≡◌, refl, sym, ◌∙◌, ap, arith, Bool, true, false, none, some, List, [], ◌∷◌, ◌++◌, ◌==◌,
  if◌then◌else◌, length, Bool-cases, inl, inr, Returns, Returns-bind, Returns-map,
}
use redis_counter.Adlist.{Ptr, Heap, DList}
use redis_counter.Adlist.Add.{Edited}
use redis_counter.Adlist.Remove.{freed_with, free_node-Seg}
use redis_counter.Adlist.Operations.{list_empty, list_release, empty_loop}
use redis_counter.Adlist.Links.{load_node-ok, Change-refl, Change-trans, Change-widen}
use redis_counter.Adlist.Seg.{Cells, first, values, has, Seg, IsHeap, IsList, Change}

module _ {ℓ} {V : Type ℓ} where
  abbrev pub freed_all : Bool → List V → List V → List V
  freed_all method vs done = if method then done ++ vs else done

  freed_all_cons :
      (method : Bool) (v : V) (vs done : List V)
      → freed_all method vs (freed_with method v done) ≡ freed_all method (v ∷ vs) done
  freed_all_cons true v vs done = append_assoc done (v ∷ []) vs
  freed_all_cons false v vs done = refl

  freed_all_nil : (method : Bool) (done : List V) → done ≡ freed_all method [] done
  freed_all_nil true done = sym (append-nil done)
  freed_all_nil false done = refl

  -- What the loop of `listEmpty` leaves: no node of the list.
  pub record Emptied (method : Bool) (h : Heap V) (xs : Cells V) (g : Heap V) : Type ℓ where
    pub change : Change xs h g
    pub releases : g.freed ≡ freed_all method (values xs) h.freed
    pub gone : (a : ℕ) → has a xs ≡ true → g.cells a ≡ none
    pub stays : (a : ℕ) → h.cells a ≡ none → g.cells a ≡ none

  empty_loop-Emptied :
      (method : Bool) (h : Heap V) (p : Ptr) (xs : Cells V)
      → Seg h p xs none
      → Returns (empty_loop method (length xs) (first none xs) h) (Emptied method h xs)
  unfolding empty_loop
  empty_loop-Emptied method h p [] s = (
    h,
    refl,
    record {
      change = Change-refl [] h;
      releases = freed_all_nil method h.freed;
      gone = λ a i. absurd (ground arith);
      stays = λ a e. e;
    },
  )
  empty_loop-Emptied method h p (c ∷ xs) s =
      let all : Cells V = c ∷ xs in
      rw (load_node-ok h c.0 _ s.0) (
        Returns-bind (free_node-Seg h method c.1 c.0 _ all (ground arith) s.0) λ g r.
          Returns-map (empty_loop-Emptied method g (some c.0) xs (r.2 (some c.0) xs none s.1 s.2))
            λ f t. record {
              change =
                  Change-trans all all h g f (λ a j. j) r.0
                    (Change-widen xs all g f (λ a j. ground arith) t.change);
              releases =
                  t.releases
                  ∙ ap (freed_all method (values xs)) r.1
                  ∙ freed_all_cons method c.1 (values xs) h.freed;
              gone = λ a i. elim (Bool-cases (a == c.0)) [
                | inl y ↦ let q : a ≡ c.0 = ground arith in t.stays a (ap g.cells q ∙ r.3)
                | inr n ↦ t.gone a (ground arith)
              ];
              stays = λ a e. t.stays a (r.4 a e);
            })

  empty_at :
      {method : Bool} {h : Heap V} {xs : Cells V} (len : ℕ) (ptr : Ptr)
      → len ≡ length xs
      → ptr ≡ first none xs
      → Returns (empty_loop method (length xs) (first none xs) h) (Emptied method h xs)
      → Returns (empty_loop method len ptr h) (Emptied method h xs)
  empty_at len ptr e f r = rw (e, f) r

  -- `listEmpty` releases all nodes of the list, and calls the free method, if there is one, on
  -- all values in order.
  pub list_empty-Edited :
      (h : Heap V) (l : DList V) (xs : Cells V)
      → IsHeap h
      → IsList h l xs
      → Returns (list_empty h l) (λ r.
        Edited h l xs [] (freed_all l.free (values xs) h.freed) r
        × ((a : ℕ) → has a xs ≡ true → r.0.cells a ≡ none))
  unfolding list_empty
  list_empty-Edited h l xs u i =
      Returns-bind
        (empty_at l.len l.head i.count i.starts (empty_loop-Emptied l.free h none xs i.links))
        λ g t. (
          _,
          refl,
          (
            record {
              after = [];
              list = record { links = tt; starts = refl; ends = refl; count = refl };
              same_values = refl;
              heap = t.change.heap u;
              others = t.change;
              taken = λ a n o there. refl;
              releases = t.releases;
              methods = record { dup = refl; free = refl; match_key = refl };
            },
            t.gone,
          ),
        )

  -- The same for `listRelease`
  pub list_release-Emptied :
      (h : Heap V) (l : DList V) (xs : Cells V)
      → IsHeap h
      → IsList h l xs
      → Returns (list_release h l) (λ g. IsHeap g × Change xs h g)
  unfolding list_release
  list_release-Emptied h l xs u i =
      Returns-bind (list_empty-Edited h l xs u i) λ r d. (r.0, refl, (d.0.heap, d.0.others))
