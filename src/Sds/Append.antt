-- ===== src/Sds/Append.antt =====
-- Appending to a string: `sdsMakeRoomFor` and `sdscatlen` of src/sds.c, with the room that they make.
use redis_counter.Base.{
  true, ℕ, ◌+◌, ◌^◌, ◌≤◌, ◌<◌, ◌≡◌, refl, sym, ◌∙◌, ap, arith, Bool-cases, inl, inr, List, [], ◌∷◌,
  ◌++◌, leb, length, take, ok, ◌>>=◌, Returns, Returns-bind, add64,
}
use redis_counter.Sds.Buffer.{Written, write-Written, length-take, take-take, take-append_left}
use redis_counter.Sds.Room.{IsSds, text, grown-bounds, enlarge-Room}
use redis_counter.Sds.{
  SdsType, type_5, type_8, type_16, type_32, type_64, flags, Sds, limit, sds_alloc, avail, set_len,
  write, grown, make_room_for, catlen,
}

kind-avail :
    (k : SdsType) (len alloc : ℕ) (b : List ℕ)
    → IsSds (record { kind = k; len = len; alloc = alloc; buf = b })
    → len + avail (record { kind = k; len = len; alloc = alloc; buf = b })
      ≡ sds_alloc (record { kind = k; len = len; alloc = alloc; buf = b })
unfolding avail sds_alloc limit
kind-avail type_5 len alloc b v = omega arith
kind-avail type_8 len alloc b v = omega (arith, v.fits, v.holds)
kind-avail type_16 len alloc b v = omega (arith, v.fits, v.holds)
kind-avail type_32 len alloc b v = omega (arith, v.fits, v.holds)
kind-avail type_64 len alloc b v = omega (arith, v.fits, v.holds)

pub avail_lem : (s : Sds) → IsSds s → s.len + avail s ≡ sds_alloc s
avail_lem s v = kind-avail s.kind s.len s.alloc s.buf v

-- What `sdsMakeRoomFor` leaves: the same text, and the room.
pub record HasRoom (s : Sds) (addlen : ℕ) (r : Sds) : Type 0 where
  pub valid : IsSds r
  pub same_len : r.len ≡ s.len
  pub same_text : text r ≡ text s
  pub room : addlen ≤ avail r

-- `sdsMakeRoomFor` on a well-formed string, with the sum of its length and the room asked for
-- below 2 ^ 62, returns a well-formed string with the same length and text that has at least that
-- much free space, whether it keeps the header type or moves to another.
pub make_room_for-HasRoom :
    (junk : ℕ) (s : Sds) (addlen : ℕ)
    → IsSds s
    → s.len + addlen < 2 ^ 62
    → Returns (make_room_for junk s addlen) (HasRoom s addlen)
unfolding make_room_for
make_room_for-HasRoom junk s addlen v h = elim (Bool-cases (leb addlen (avail s))) [
  | inl y ↦
      rw y (s, refl, record { valid = v; same_len = refl; same_text = refl; room = ground arith })
  | inr n ↦
      let n62 : add64 s.len addlen < 2 ^ 62 = omega arith in
      let g = grown-bounds (add64 s.len addlen) n62 in
      let m = enlarge-Room junk s (grown (add64 s.len addlen)) v (omega (arith, g.0)) g.1 in
      rw n (
        m.0,
        m.1,
        let r = m.2.1 in
            record {
              valid = r.valid;
              same_len = r.same_len;
              same_text = ap (λ l. take l (m.0).buf) r.same_len ∙ ap (take s.len) r.bytes ∙ m.2.2.1;
              room = omega (arith, r.spare, g.0);
            },
      )
]

pub kind-set_len :
    (k : SdsType) (len alloc n : ℕ) (b c : List ℕ)
    → IsSds (record { kind = k; len = len; alloc = alloc; buf = b })
    → n ≤ sds_alloc (record { kind = k; len = len; alloc = alloc; buf = b })
    → length c ≡ length b
    → IsSds (set_len n (record { kind = k; len = len; alloc = alloc; buf = c }))
      × ((set_len n (record { kind = k; len = len; alloc = alloc; buf = c })).len ≡ n)
unfolding avail sds_alloc limit set_len
kind-set_len type_5 len alloc n b c v q e =
    (record { fits = omega arith; holds = omega arith; size = omega arith }, omega arith)
kind-set_len type_8 len alloc n b c v q e =
    (record { fits = omega arith; holds = omega arith; size = omega arith }, omega arith)
kind-set_len type_16 len alloc n b c v q e =
    (record { fits = omega arith; holds = omega arith; size = omega arith }, omega arith)
kind-set_len type_32 len alloc n b c v q e =
    (record { fits = omega arith; holds = omega arith; size = omega arith }, omega arith)
kind-set_len type_64 len alloc n b c v q e =
    (record { fits = omega arith; holds = omega arith; size = omega arith }, omega arith)

-- The bytes after the two writes of `sdscatlen`
pub appended_text :
    (b t c d : List ℕ) (n m : ℕ)
    → m ≡ n + length t
    → m < length b
    → Written b n t c
    → Written c m (0 ∷ []) d
    → take m d ≡ take n b ++ t
appended_text b t c d n m e inside w z =
    let l = length-take m c (omega (arith, w.size)) in
    sym (take-take m (m + 1) d (omega arith))
    ∙ ap (take m) z.text
    ∙ take-append_left m (take m c) (0 ∷ []) (omega (arith, l))
    ∙ take-take m m c (omega arith)
    ∙ ap (λ l. take l c) e
    ∙ w.text

pub set_len-buf : (n : ℕ) (s : Sds) → (set_len n s).buf ≡ s.buf
unfolding set_len
set_len-buf n s = refl

-- The string stands in the same allocation, with the same header type; a header of type 5 does not
-- remember the capacity.
pub record SameRoom (r s : Sds) : Type 0 where
  pub same_kind : s.kind ≡ r.kind
  pub capacity : 0 < flags r.kind → sds_alloc s ≡ sds_alloc r

kind-SameRoom :
    (k : SdsType) (len alloc n : ℕ) (b c : List ℕ)
    → SameRoom
        (record { kind = k; len = len; alloc = alloc; buf = b })
        (set_len n (record { kind = k; len = len; alloc = alloc; buf = c }))
unfolding sds_alloc set_len
kind-SameRoom type_5 len alloc n b c = record {
  same_kind = refl;
  capacity = λ h. absurd (omega arith);
}
kind-SameRoom type_8 len alloc n b c = record { same_kind = refl; capacity = λ h. refl }
kind-SameRoom type_16 len alloc n b c = record { same_kind = refl; capacity = λ h. refl }
kind-SameRoom type_32 len alloc n b c = record { same_kind = refl; capacity = λ h. refl }
kind-SameRoom type_64 len alloc n b c = record { same_kind = refl; capacity = λ h. refl }

pub set_len-SameRoom :
    (n : ℕ) (r : Sds) (c : List ℕ) → SameRoom r (set_len n (record r { buf = c }))
set_len-SameRoom n r c = kind-SameRoom r.kind r.len r.alloc n r.buf c

-- What `sdscatlen` leaves.
pub record Appended (s : Sds) (t : List ℕ) (r : Sds) : Type 0 where
  pub valid : IsSds r
  pub length_sum : r.len ≡ s.len + length t
  pub text_sum : text r ≡ text s ++ t

append_in_room :
    (s : Sds) (t : List ℕ) (r : Sds) (n : ℕ)
    → n ≡ s.len + length t
    → HasRoom s (length t) r
    → Returns
        (write r.buf s.len t >>= λ b.
          write b n (0 ∷ []) >>= λ b'. ok (set_len n (record r { buf = b' })))
        (λ x. Appended s t x × SameRoom r x)
append_in_room s t r n e h =
    let a = avail_lem r h.valid in
    let inside : s.len + length t < length r.buf =
      omega (arith, a, h.valid.size, h.room, h.same_len) in
    Returns-bind (write-Written r.buf s.len t (omega arith)) λ b w.
      Returns-bind (write-Written b n (0 ∷ []) (omega (arith, w.size))) λ b' z.
        let k =
          kind-set_len r.kind r.len r.alloc n r.buf b' h.valid
            (omega (arith, a, h.room, h.same_len)) (z.size ∙ w.size) in
        (
          _,
          refl,
          (
            record {
              valid = k.0;
              length_sum = k.1 ∙ e;
              text_sum =
                  ap (λ c. take (set_len n (record r { buf = b' })).len c)
                    (set_len-buf n (record r { buf = b' }))
                  ∙ ap (λ l. take l b') k.1
                  ∙ appended_text r.buf t b b' s.len n e (omega (arith, e, inside)) w z
                  ∙ ap (λ a. a ++ t) (ap (λ l. take l r.buf) (sym h.same_len) ∙ h.same_text);
            },
            set_len-SameRoom n r b',
          ),
        )

-- `sdscatlen` on a well-formed string, with the sum of the two lengths below 2 ^ 62, writes
-- nothing beyond the allocation and returns a well-formed string whose text is the old text with
-- the given bytes at its end.
pub catlen-Appended :
    (junk : ℕ) (s : Sds) (t : List ℕ)
    → IsSds s
    → s.len + length t < 2 ^ 62
    → Returns (catlen junk s t) (Appended s t)
unfolding catlen
catlen-Appended junk s t v h = Returns-bind (make_room_for-HasRoom junk s (length t) v h) λ r m.
    let x = append_in_room s t r (add64 s.len (length t)) (omega arith) m in (x.0, x.1, x.2.0)

-- Where the free space is enough, the string does not move.
pub catlen-SameRoom :
    (junk : ℕ) (s : Sds) (t : List ℕ)
    → IsSds s
    → s.len + length t < 2 ^ 62
    → length t ≤ avail s
    → Returns (catlen junk s t) (λ x. Appended s t x × SameRoom s x)
unfolding catlen make_room_for
catlen-SameRoom junk s t v h room =
    let y : leb (length t) (avail s) ≡ true = ground arith in
    rw y (
      append_in_room s t s (add64 s.len (length t)) (omega arith)
        (record { valid = v; same_len = refl; same_text = refl; room = room }))
