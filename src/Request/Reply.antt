-- ===== src/Request/Reply.antt =====
-- The reply in the buffer of the server, where the buffer has room: `sdscpy` and then `sdscatlen`.
use redis_counter.Base.{
  ℕ, ◌<◌, ◌^◌, ◌≡◌, ◌∙◌, ap, arith, false, List, [], ◌∷◌, ◌++◌, ltb, length, Returns, Returns-bind,
}
use redis_counter.Sds.Room.{IsSds, text}
use redis_counter.Sds.Append.{avail_lem, catlen-SameRoom}
use redis_counter.Sds.Copy.{cpylen-SameRoom}
use redis_counter.Sds.{Sds, flags, sds_alloc, avail}
use redis_counter.Request.{reply}

-- A buffer of the server: a well-formed string whose header remembers the capacity
pub record IsBuffer (o : Sds) : Type 0 where
  pub valid : IsSds o
  pub remembers : 0 < flags o.kind
  pub small : sds_alloc o < 2 ^ 61

-- The buffer holds the reply and a newline, and is as large as before.
pub record Replied (t : List ℕ) (o r : Sds) : Type 0 where
  pub buffer : IsBuffer r
  pub reply_text : text r ≡ t ++ 10 ∷ []
  pub capacity : sds_alloc r ≡ sds_alloc o

pub reply-Replied :
    (junk : ℕ) (o : Sds) (t : List ℕ)
    → IsBuffer o
    → length t < sds_alloc o
    → Returns (reply junk o t) (Replied t o)
unfolding reply
reply-Replied junk o t b h =
    let fits : ltb (sds_alloc o) (length t) ≡ false = ground arith in
    rw fits (
      Returns-bind (cpylen-SameRoom junk o t b.valid (omega arith)) λ r c.
        let f = ap flags c.1.same_kind in
        let size = c.1.capacity b.remembers in
        let a = avail_lem r c.0.valid in
        let free : ltb (avail r) 1 ≡ false = ground (arith, c.0.same_length) in
        rw free (
          let x =
            catlen-SameRoom junk r (10 ∷ []) c.0.valid (omega (arith, c.0.same_length, b.small))
              (omega (arith, c.0.same_length, a, size)) in
          let size' = x.2.1.capacity (omega (arith, f, b.remembers)) in
          (
            x.0,
            x.1,
            record {
              buffer = record {
                valid = x.2.0.valid;
                remembers = omega (arith, ap flags x.2.1.same_kind, f, b.remembers);
                small = omega (arith, size, size', b.small);
              };
              reply_text = x.2.0.text_sum ∙ ap (λ u. u ++ 10 ∷ []) c.0.same_text;
              capacity = size' ∙ size;
            },
          )))
