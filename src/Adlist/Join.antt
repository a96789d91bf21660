-- ===== src/Adlist/Join.antt =====
-- `listJoin` of src/adlist.c.
use redis_counter.Base.{
  ◌+◌, ◌<◌, ◌^◌, ◌≡◌, refl, sym, ◌∙◌, arith, none, some, [], ◌∷◌, ◌++◌, length, length-append,
  Returns, Returns-bind,
}
use redis_counter.Adlist.{Ptr, Heap, DList}
use redis_counter.Adlist.Add.{SameMethods}
use redis_counter.Adlist.Remove.{Disjoint-sym, last_some, fix_head-others}
use redis_counter.Adlist.Operations.{join, fix_head, take_tail}
use redis_counter.Adlist.Links.{Seg-apart, Change-trans, Change-widen, link_prev-at, link_next-at}
use redis_counter.Adlist.Seg.{
  Cells, first, last, has_left, has_right, Disjoint, IsHeap, IsList, Change, Seg-join, last-append,
}

module _ {ℓ} {V : Type ℓ} where
  take_tail-last :
      (l : DList V) (ptr : Ptr) (xs ys : Cells V)
      → l.tail ≡ last none xs
      → ptr ≡ last none ys
      → (take_tail l ptr).tail ≡ last none (xs ++ ys)
  unfolding take_tail
  take_tail-last l ptr xs [] e f = rw (f, take_tail) (e ∙ sym (last-append none xs []))
  take_tail-last l ptr xs (y ∷ ys) e f =
      let b = last_some y.0 ys in rw (f ∙ b.1, take_tail) (sym (last-append none xs (y ∷ ys) ∙ b.1))

  take_tail-others :
      (l : DList V) (ptr : Ptr)
      → ((take_tail l ptr).head ≡ l.head) × SameMethods l (take_tail l ptr)
  unfolding take_tail
  take_tail-others l none = (refl, record { dup = refl; free = refl; match_key = refl })
  take_tail-others l (some a) = (refl, record { dup = refl; free = refl; match_key = refl })

  fix_head-join :
      (l : DList V) (ptr q : Ptr) (xs ys : Cells V)
      → l.head ≡ first none xs
      → ptr ≡ last none xs
      → q ≡ first none ys
      → (fix_head ptr l q).head ≡ first none (xs ++ ys)
  unfolding fix_head
  fix_head-join l ptr q [] ys e f g = rw (f, fix_head) g
  fix_head-join l ptr q (x ∷ xs) ys e f g = rw (f ∙ (last_some x.0 xs).1, fix_head) e

  pub record Joined (h : Heap V) (l : DList V) (xs ys : Cells V) (r : Heap V × DList V × DList V)
      : Type ℓ where
    pub list : IsList r.0 r.1 (xs ++ ys)
    pub other : IsList r.0 r.2 []
    pub heap : IsHeap r.0
    pub others : Change (xs ++ ys) h r.0
    pub releases : r.0.freed ≡ h.freed
    pub methods : SameMethods l r.1

  -- ListJoin of two well-formed lists with no node in common, whose lengths sum to less than 2 ^
  -- 64, leaves the nodes of the second behind those of the first in one well-formed list and the
  -- second list empty, frees no value and changes no other node.
  pub join-Joined :
      (h : Heap V) (l o : DList V) (xs ys : Cells V)
      → IsHeap h
      → IsList h l xs
      → IsList h o ys
      → Disjoint xs ys
      → length xs + length ys < 2 ^ 64
      → Returns (join h l o) (Joined h l xs ys)
  unfolding join
  join-Joined h l o xs ys u i j apart few =
      let all : Cells V = xs ++ ys in
      let l1 = fix_head l.tail l o.head in
      let a1 = fix_head-others l.tail o.head l in
      let a2 = take_tail-others l1 o.tail in
      Returns-bind (link_prev-at h o.head none l.tail ys j.starts j.links) λ g r.
        let kept = Seg-apart ys h g none xs none r.1 apart i.links in
        Returns-bind (link_next-at g l.tail o.head none xs i.ends kept) λ f t.
          let back = Seg-apart xs g f l.tail ys none t.1 (Disjoint-sym xs ys apart) r.0 in
          let change =
            Change-trans all all h g f (λ a j. j)
              (Change-widen ys all h g (λ a k. has_right a xs ys k) r.1)
              (Change-widen xs all g f (λ a k. has_left a xs ys k) t.1) in
          (
            _,
            refl,
            record {
              list = record {
                links =
                    Seg-join f none xs ys none (rw (sym j.starts) t.0) (rw (sym i.ends) back) apart;
                starts = a2.0 ∙ fix_head-join l l.tail o.head xs ys i.starts i.ends j.starts;
                ends = take_tail-last l1 o.tail xs ys (a1.0 ∙ i.ends) j.ends;
                count = omega (arith, i.count, j.count, length-append xs ys);
              };
              other = record { links = tt; starts = refl; ends = refl; count = refl };
              heap = change.heap u;
              others = change;
              releases = t.2 ∙ r.2;
              methods = record {
                dup = a2.1.dup ∙ a1.1.dup;
                free = a2.1.free ∙ a1.1.free;
                match_key = a2.1.match_key ∙ a1.1.match_key;
              };
            },
          )
