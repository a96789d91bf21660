-- ===== src/Sds/Copy.antt =====
-- `sdscpylen` of src/sds.c.
use redis_counter.Base.{
  false, ℕ, ◌-◌, ◌≤◌, ◌<◌, ◌^◌, ◌≡◌, refl, ◌∙◌, ap, arith, Bool-cases, inl, inr, List, [], ◌∷◌, ltb,
  length, take, sub64, ok, ◌>>=◌, Returns, Returns-bind,
}
use redis_counter.Sds.Buffer.{write-Written}
use redis_counter.Sds.Room.{IsSds, text}
use redis_counter.Sds.Append.{
  SameRoom, set_len-SameRoom, make_room_for-HasRoom, kind-set_len, appended_text, set_len-buf,
  avail_lem,
}
use redis_counter.Sds.{Sds, sds_alloc, set_len, write, cpylen}

-- What `sdscpylen` leaves.
pub record Copied (t : List ℕ) (r : Sds) : Type 0 where
  pub valid : IsSds r
  pub same_length : r.len ≡ length t
  pub same_text : text r ≡ t

-- The two writes, on a string with enough capacity
copy_in_room :
    (t : List ℕ) (r : Sds)
    → IsSds r
    → length t ≤ sds_alloc r
    → Returns
        (write r.buf 0 t >>= λ b.
          write b (length t) (0 ∷ []) >>= λ b'. ok (set_len (length t) (record r { buf = b' })))
        (λ x. Copied t x × SameRoom r x)
copy_in_room t r v h = Returns-bind (write-Written r.buf 0 t (omega (arith, v.size))) λ b w.
    Returns-bind (write-Written b (length t) (0 ∷ []) (omega (arith, v.size, w.size))) λ b' z.
      let k = kind-set_len r.kind r.len r.alloc (length t) r.buf b' v h (z.size ∙ w.size) in
      (
        _,
        refl,
        (
          record {
            valid = k.0;
            same_length = k.1;
            same_text =
                ap (λ c. take (set_len (length t) (record r { buf = b' })).len c)
                  (set_len-buf (length t) (record r { buf = b' }))
                ∙ ap (λ l. take l b') k.1
                ∙ appended_text r.buf t b b' 0 (length t) (omega arith) (omega (arith, v.size)) w z;
          },
          set_len-SameRoom (length t) r b',
        ),
      )

-- `sdscpylen` of fewer than 2 ^ 62 bytes on a well-formed string, whether it has room or is made
-- larger, writes nothing outside the allocation and returns a well-formed string with exactly
-- those bytes as its text.
pub cpylen-Copied :
    (junk : ℕ) (s : Sds) (t : List ℕ)
    → IsSds s
    → length t < 2 ^ 62
    → Returns (cpylen junk s t) (Copied t)
unfolding cpylen
cpylen-Copied junk s t v h = elim (Bool-cases (ltb (sds_alloc s) (length t))) [
  | inr n ↦ let x = copy_in_room t s v (ground arith) in rw n (x.0, x.1, x.2.0)
  | inl y ↦
      let e : sub64 (length t) s.len ≡ length t - s.len = ground (arith, v.fits) in
      rw (y, e)
        (Returns-bind (make_room_for-HasRoom junk s (length t - s.len) v (ground (arith, v.fits)))
          λ r m.
            let x =
              copy_in_room t r m.valid (omega (arith, m.room, m.same_len, avail_lem r m.valid)) in
            (x.0, x.1, x.2.0))
]

-- Where the capacity is enough, the string does not move.
pub cpylen-SameRoom :
    (junk : ℕ) (s : Sds) (t : List ℕ)
    → IsSds s
    → length t ≤ sds_alloc s
    → Returns (cpylen junk s t) (λ x. Copied t x × SameRoom s x)
unfolding cpylen
cpylen-SameRoom junk s t v h =
    let n : ltb (sds_alloc s) (length t) ≡ false = ground arith in rw n (copy_in_room t s v h)
