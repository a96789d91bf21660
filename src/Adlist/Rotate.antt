-- ===== src/Adlist/Rotate.antt =====
-- `listRotate` of src/adlist.c.
use redis_counter.Base.{
  ℕ, suc, ◌+◌, ◌≡◌, refl, sym, ◌∙◌, ap, arith, true, false, none, some, [], ◌∷◌, ◌++◌, leb, length,
  length-append, Returns, Returns-bind,
}
use redis_counter.Adlist.{Node, Heap, DList}
use redis_counter.Adlist.Add.{Edited}
use redis_counter.Adlist.Remove.{Disjoint-sym}
use redis_counter.Adlist.Operations.{rotate}
use redis_counter.Adlist.Links.{
  load_node_at, Seg-apart, Change-refl, Change-trans, Change-widen, set_prev-at, set_next-at,
}
use redis_counter.Adlist.Seg.{
  Cells, last, values, has, IsHeap, IsList, Seg-split, Seg-join, has_left, has_right, has_swap,
  last-append,
}

module _ {ℓ} {V : Type ℓ} where
  many :
      (len : ℕ) (zs : Cells V) (y : ℕ × V) → len ≡ suc (length (zs ++ y ∷ [])) → leb len 1 ≡ false
  many len zs y e =
      let l : length (zs ++ y ∷ []) ≡ length zs + 1 = length-append zs (y ∷ []) in ground arith

  pub unchanged-Edited :
      (h : Heap V) (l : DList V) (xs : Cells V)
      → IsHeap h
      → IsList h l xs
      → Edited h l xs (values xs) h.freed (h, l)
  unchanged-Edited h l xs u i = record {
    after = xs;
    list = i;
    same_values = refl;
    heap = u;
    others = Change-refl xs h;
    taken = λ a n o there. o;
    releases = refl;
    methods = record { dup = refl; free = refl; match_key = refl };
  }

  -- `listRotate` of two nodes or more puts the last value in front.
  pub rotate-Edited :
      (h : Heap V) (l : DList V) (c : ℕ × V) (zs : Cells V) (y : ℕ × V)
      → IsHeap h
      → IsList h l (c ∷ zs ++ y ∷ [])
      → Returns (rotate h l) (Edited h l (c ∷ zs ++ y ∷ []) (y.1 ∷ c.1 ∷ values zs) h.freed)
  unfolding rotate
  rotate-Edited h l c zs y u i =
      let ys : Cells V = c ∷ zs in
      let all : Cells V = ys ++ y ∷ [] in
      let long : leb l.len 1 ≡ false = many l.len zs y i.count in
      let sp = Seg-split h none ys (y ∷ []) none i.links in
      let back = Disjoint-sym ys (y ∷ []) sp.2 in
      let in_all : (a : ℕ) → has a ys ≡ true → has a all ≡ true = λ a j. has_left a ys (y ∷ []) j in
      let in_all' : (a : ℕ) → has a (y ∷ []) ≡ true → has a all ≡ true =
        λ a j. has_right a ys (y ∷ []) j in
      let m : Node V = record { prev = last none ys; next = none; value = y.1 } in
      let t = i.ends ∙ last-append none ys (y ∷ []) in
      rw long (
        Returns-bind (load_node_at h l.tail y.0 m t sp.1.0) λ n e.
          Returns-bind (set_next-at h n.prev none none c zs (some y.0) (ap (λ k. k.prev) e) sp.0)
            λ h1 r1.
              let y1 = Seg-apart ys h h1 (last none ys) (y ∷ []) none r1.1 back sp.1 in
              Returns-bind (set_prev-at h1 l.head none l.tail c zs none i.starts r1.0) λ h2 r2.
                let y2 = Seg-apart ys h1 h2 (last none ys) (y ∷ []) none r2.1 back y1 in
                Returns-bind (set_prev-at h2 l.tail (last none ys) none y [] none t y2) λ h3 r3.
                  let s3 = Seg-apart (y ∷ []) h2 h3 l.tail ys none r3.1 sp.2 r2.0 in
                  Returns-bind (set_next-at h3 l.tail none l.head y [] none t r3.0) λ h4 r4.
                    let s4 = Seg-apart (y ∷ []) h3 h4 l.tail ys none r4.1 sp.2 s3 in
                    let change =
                      Change-trans all all h h3 h4 (λ a j. j)
                        (Change-trans all all h h2 h3 (λ a j. j)
                          (Change-trans all all h h1 h2 (λ a j. j)
                            (Change-widen ys all h h1 in_all r1.1)
                            (Change-widen ys all h1 h2 in_all r2.1))
                          (Change-widen (y ∷ []) all h2 h3 in_all' r3.1))
                        (Change-widen (y ∷ []) all h3 h4 in_all' r4.1) in
                    (
                      _,
                      refl,
                      record {
                        after = y ∷ ys;
                        list = record {
                          links =
                              Seg-join h4 none (y ∷ []) ys none (rw (sym i.starts) r4.0)
                                (rw (sym t) s4) back;
                          starts = t;
                          ends = ap (λ k. k.prev) e;
                          count = omega (arith, i.count, length-append ys (y ∷ []));
                        };
                        same_values = refl;
                        heap = change.heap u;
                        others = change;
                        taken = λ a k o there. has_swap a ys y o;
                        releases = r4.2 ∙ r3.2 ∙ r2.2 ∙ r1.2;
                        methods = record { dup = refl; free = refl; match_key = refl };
                      },
                    ))
