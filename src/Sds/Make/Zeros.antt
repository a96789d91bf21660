-- ===== src/Sds/Make/Zeros.antt =====
-- `sdsgrowzero` of src/sds.c.
use mathlib.Core.List.{append_assoc}
use redis_counter.Base.{
  ℕ, zero, suc, ◌+◌, ◌-◌, ◌^◌, ◌≤◌, ◌<◌, ◌≡◌, refl, sym, ◌∙◌, ap, arith, Bool-cases, inl, inr, List,
  [], ◌∷◌, ◌++◌, leb, length, take, replicate, length-append, length-replicate, Returns,
  Returns-bind,
}
use redis_counter.Sds.Append.{make_room_for-HasRoom, kind-set_len, set_len-buf, avail_lem}
use redis_counter.Sds.Buffer.{Written, write-Written, length-take, take-take, take-append_left}
use redis_counter.Sds.Room.{IsSds, text}
use redis_counter.Sds.Slice.Move.{take_all}
use redis_counter.Sds.Make.{grow_zero}
use redis_counter.Sds.{Sds, sds_alloc, set_len}

append_nil : (t : List ℕ) → t ++ [] ≡ t
append_nil [] = refl
append_nil (x ∷ t) = ap (λ u. x ∷ u) (append_nil t)

replicate_last : (k : ℕ) → replicate {A = ℕ} (k + 1) 0 ≡ replicate k 0 ++ 0 ∷ []
replicate_last zero = refl
replicate_last (suc k) =
    let e : suc k + 1 ≡ suc (k + 1) = omega arith in
    ap (λ n. replicate {A = ℕ} n 0) e ∙ ap (λ t. 0 ∷ t) (replicate_last k)

-- The text after zeros are written up to and with the null byte
zeros_text :
    (b c : List ℕ) (n k m : ℕ)
    → m ≡ n + k
    → m < length b
    → Written b n (replicate (k + 1) 0) c
    → take m c ≡ take n b ++ replicate k 0
zeros_text b c n k m e inside w =
    let l = length-take n b (omega arith) in
    let r = length-replicate {A = ℕ} k 0 in
    let x = length-append (take n b) (replicate k 0) in
    let z : n + length (replicate {A = ℕ} (k + 1) 0) ≡ m + 1 =
      omega (arith, length-replicate {A = ℕ} (k + 1) 0) in
    sym (take-take m (m + 1) c (omega arith))
    ∙ ap (λ i. take m (take i c)) (sym z)
    ∙ ap (take m) (
        w.text
        ∙ ap (λ u. take n b ++ u) (replicate_last k)
        ∙ sym (append_assoc (take n b) (replicate k 0) (0 ∷ [])))
    ∙ take-append_left m (take n b ++ replicate k 0) (0 ∷ []) (omega arith)
    ∙ take_all m (take n b ++ replicate k 0) (omega arith)

-- What `sdsgrowzero` leaves.
pub record Grown (s : Sds) (n : ℕ) (r : Sds) : Type 0 where
  pub valid : IsSds r
  pub at_least : n ≤ r.len
  pub same_text : text r ≡ text s ++ replicate (n - s.len) 0

-- `sdsgrowzero` of a well-formed string to a length below 2 ^ 62 returns a well-formed string at
-- least as long, whose text is the old text with null bytes at its end up to that length, and none
-- where the string is as long before.
pub grow_zero-Grown :
    (junk : ℕ) (s : Sds) (n : ℕ) → IsSds s → n < 2 ^ 62 → Returns (grow_zero junk s n) (Grown s n)
unfolding grow_zero
grow_zero-Grown junk s n v h = elim (Bool-cases (leb n s.len)) [
  | inl y ↦
      let z : n - s.len ≡ 0 = ground arith in
      rw y (
        s,
        refl,
        record { valid = v; at_least = ground arith; same_text = rw z (sym (append_nil (text s))) },
      )
  | inr q ↦ rw q (
      Returns-bind (make_room_for-HasRoom junk s (n - s.len) v (ground arith)) λ r m.
        let a = avail_lem r m.valid in
        let fit : n ≤ sds_alloc r = ground (arith, a, m.room, m.same_len) in
        let e : n ≡ s.len + (n - s.len) = ground arith in
        let zs = length-replicate {A = ℕ} (n - s.len + 1) 0 in
        Returns-bind
          (write-Written r.buf s.len (replicate (n - s.len + 1) 0)
            (omega (arith, m.valid.size, fit, zs)))
          λ b w.
            let k = kind-set_len r.kind r.len r.alloc n r.buf b m.valid fit w.size in
            (
              _,
              refl,
              record {
                valid = k.0;
                at_least = omega (arith, k.1);
                same_text =
                    ap (λ c. take (set_len n (record r { buf = b })).len c)
                      (set_len-buf n (record r { buf = b }))
                    ∙ ap (λ l. take l b) k.1
                    ∙ zeros_text r.buf b s.len (n - s.len) n e (omega (arith, m.valid.size, fit)) w
                    ∙ ap (λ t. t ++ replicate (n - s.len) 0)
                        (ap (λ l. take l r.buf) (sym m.same_len) ∙ m.same_text);
              },
            ))
]
