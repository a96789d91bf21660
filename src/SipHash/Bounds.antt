-- ===== src/SipHash/Bounds.antt =====
-- The reads and the result of src/siphash.c: no read beyond the bytes or the key, and a word.
use redis_counter.Base.{
  ℕ, zero, suc, ◌-◌, ◌*◌, ◌/◌, ◌^◌, ◌≤◌, ◌<◌, ◌≡◌, refl, arith, List, [], ◌∷◌, length, get_or, drop,
  at-get_or, Returns, Returns-bind, u64, add64, shl64, shr64, bit_and, bit_or, bit_xor,
}
use native.Mathlib.Nat.{div-le_self}
use redis_counter.Base.Bits.{bit_or-lt, bit_xor-lt, bit_and_mask7}
use redis_counter.SipHash.{
  State, rotl, sip_round, absorb, start, finish, byte_at, word_at, words_loop, tail, siphash,
}

-- Every element is a byte.
abbrev pub IsBytes : List ℕ → Type 0
IsBytes p = (i : ℕ) → get_or p i 0 < 256

record IsWords (s : State) : Type 0 where
  0 as w0 : s.v0 < 2 ^ 64
  1 as w1 : s.v1 < 2 ^ 64
  2 as w2 : s.v2 < 2 ^ 64
  3 as w3 : s.v3 < 2 ^ 64

add64-lt : (a b : ℕ) → add64 a b < 2 ^ 64
add64-lt a b = omega arith

shl64-lt : (a k : ℕ) → shl64 a k < 2 ^ 64
shl64-lt a k = omega arith

rotl-lt : (x b : ℕ) → x < 2 ^ 64 → rotl x b < 2 ^ 64
unfolding rotl
rotl-lt x b w =
    bit_or-lt 64 (shl64 x b) (shr64 x (64 - b)) (shl64-lt x b)
      (omega (arith, div-le_self x (2 ^ (64 - b))))

xor-lt : (a b : ℕ) → a < 2 ^ 64 → b < 2 ^ 64 → bit_xor a b < 2 ^ 64
xor-lt = bit_xor-lt 64

or_shl : (b c k : ℕ) → b < 2 ^ 64 → bit_or b (shl64 c k) < 2 ^ 64
or_shl b c k q = bit_or-lt 64 b (shl64 c k) q (shl64-lt c k)

mix-lt : (x b y : ℕ) → x < 2 ^ 64 → y < 2 ^ 64 → bit_xor (rotl x b) y < 2 ^ 64
mix-lt x b y p q = xor-lt (rotl x b) y (rotl-lt x b p) q

sip_round-IsWords : {s : State} → IsWords s → IsWords (sip_round s)
unfolding sip_round
sip_round-IsWords {s} w =
    let a0 : add64 s.v0 s.v1 < 2 ^ 64 = omega arith in
    let a2 : add64 s.v2 s.v3 < 2 ^ 64 = omega arith in
    let a1 = mix-lt s.v1 13 (add64 s.v0 s.v1) w.1 a0 in
    let a3 = mix-lt s.v3 16 (add64 s.v2 s.v3) w.3 a2 in
    let b2 = add64-lt (add64 s.v2 s.v3) (bit_xor (rotl s.v1 13) (add64 s.v0 s.v1)) in
    let c0 = add64-lt (rotl (add64 s.v0 s.v1) 32) (bit_xor (rotl s.v3 16) (add64 s.v2 s.v3)) in
    (
      c0,
      mix-lt (bit_xor (rotl s.v1 13) (add64 s.v0 s.v1)) 17 _ a1 b2,
      rotl-lt _ 32 b2,
      mix-lt (bit_xor (rotl s.v3 16) (add64 s.v2 s.v3)) 21 _ a3 c0,
    )

with_v3 : {s : State} {x : ℕ} → IsWords s → x < 2 ^ 64 → IsWords (record s { v3 = x })
with_v3 w p = (w.0, w.1, w.2, p)

with_v2 : {s : State} {x : ℕ} → IsWords s → x < 2 ^ 64 → IsWords (record s { v2 = x })
with_v2 w p = (w.0, w.1, p, w.3)

with_v0 : {s : State} {x : ℕ} → IsWords s → x < 2 ^ 64 → IsWords (record s { v0 = x })
with_v0 w p = (p, w.1, w.2, w.3)

absorb-IsWords : {s : State} (m : ℕ) → m < 2 ^ 64 → IsWords s → IsWords (absorb m s)
unfolding absorb
absorb-IsWords {s} m p w =
    let r = sip_round-IsWords (with_v3 w (xor-lt s.v3 m w.3 p)) in with_v0 r (xor-lt _ m r.0 p)

start-IsWords : (k0 k1 : ℕ) → k0 < 2 ^ 64 → k1 < 2 ^ 64 → IsWords (start k0 k1)
unfolding start
start-IsWords k0 k1 p q = (
  xor-lt _ k0 (omega arith) p,
  xor-lt _ k1 (omega arith) q,
  xor-lt _ k0 (omega arith) p,
  xor-lt _ k1 (omega arith) q,
)

finish-lt : {s : State} (b : ℕ) → b < 2 ^ 64 → IsWords s → finish b s < 2 ^ 64
unfolding finish
finish-lt {s} b p w =
    let r = absorb-IsWords b p w in
    let q = sip_round-IsWords (sip_round-IsWords (with_v2 r (xor-lt _ 255 r.2 (omega arith)))) in
    xor-lt _ _ (xor-lt _ _ (xor-lt _ _ q.0 q.1) q.2) q.3

length-drop : (n : ℕ) (p : List ℕ) → length (drop n p) ≡ length p - n
length-drop zero p = omega arith
length-drop (suc n) [] = omega arith
length-drop (suc n) (c ∷ p) = omega (arith, length-drop n p)

drop-IsBytes : (n : ℕ) (p : List ℕ) → IsBytes p → IsBytes (drop n p)
drop-IsBytes zero p h = h
drop-IsBytes (suc n) [] h = h
drop-IsBytes (suc n) (c ∷ p) h = drop-IsBytes n p λ i. h (suc i)

-- The reads of one variant: `low` keeps bytes bytes.
module _ (low : ℕ → ℕ) (keeps : (c : ℕ) → c < 256 → low c < 256) where
  byte_at-Returns :
      (p : List ℕ) (i : ℕ) → IsBytes p → i < length p → Returns (byte_at low p i) (λ c. c < 256)
  unfolding byte_at
  byte_at-Returns p i h inside =
      (low (get_or p i 0), rw (at-get_or p i 0 inside) refl, keeps _ (h i))

  word_at-Returns :
      (p : List ℕ) → IsBytes p → 8 ≤ length p → Returns (word_at low p) (λ m. m < 2 ^ 64)
  unfolding word_at
  word_at-Returns p h room = Returns-bind (byte_at-Returns p 0 h (omega arith)) λ c0 p0.
      Returns-bind (byte_at-Returns p 1 h (omega arith)) λ c1 _.
        Returns-bind (byte_at-Returns p 2 h (omega arith)) λ c2 _.
          Returns-bind (byte_at-Returns p 3 h (omega arith)) λ c3 _.
            Returns-bind (byte_at-Returns p 4 h (omega arith)) λ c4 _.
              Returns-bind (byte_at-Returns p 5 h (omega arith)) λ c5 _.
                Returns-bind (byte_at-Returns p 6 h (omega arith)) λ c6 _.
                  Returns-bind (byte_at-Returns p 7 h (omega arith)) λ c7 _. (
                    _,
                    refl,
                    or_shl _ c7 56 (
                        or_shl _ c6 48 (
                          or_shl _ c5 40 (
                            or_shl _ c4 32
                              (or_shl _ c3 24 (or_shl _ c2 16 (or_shl c0 c1 8 (omega arith))))))),
                  )

  words_loop-Returns :
      (n : ℕ) (p : List ℕ) (s : State)
      → IsBytes p
      → 8 * n ≤ length p
      → IsWords s
      → Returns
          (words_loop low n p s)
          (λ v. (IsBytes v.0 × (length v.0 ≡ length p - 8 * n)) × IsWords v.1)
  unfolding words_loop
  words_loop-Returns zero p s h room w = ((p, s), refl, ((h, omega arith), w))
  words_loop-Returns (suc n) p s h room w = Returns-bind (word_at-Returns p h (omega arith)) λ m q.
      let next =
        words_loop-Returns n (drop 8 p) (absorb m s) (drop-IsBytes 8 p h)
          (omega (arith, length-drop 8 p)) (absorb-IsWords m q w) in
      (next.0, next.1, ((next.2.0.0, omega (arith, next.2.0.1, length-drop 8 p)), next.2.1))

  tail-Returns :
      (p : List ℕ) (i b : ℕ)
      → IsBytes p
      → i ≤ length p
      → b < 2 ^ 64
      → Returns (tail low p i b) (λ x. x < 2 ^ 64)
  unfolding tail
  tail-Returns p zero b h room q = (b, refl, q)
  tail-Returns p (suc i) b h room q =
      Returns-bind (byte_at-Returns p i h room)
        λ c _. tail-Returns p i (bit_or b (shl64 c (8 * i))) h (omega arith) (or_shl b c (8 * i) q)

key_word : (k : List ℕ) → IsBytes k → 8 ≤ length k → Returns (word_at (λ c. c) k) (λ m. m < 2 ^ 64)
key_word = word_at-Returns (λ c. c) λ c h. h

-- `siphash` of inlen bytes that are there to read, with a key of at least 16 bytes, reads nothing
-- beyond them and returns a number below 2 ^ 64.
pub siphash-Returns :
    (in_ : List ℕ) (inlen : ℕ) (k : List ℕ)
    → IsBytes in_
    → IsBytes k
    → inlen ≤ length in_
    → 16 ≤ length k
    → Returns (siphash in_ inlen k) (λ h. h < u64)
unfolding siphash
siphash-Returns in_ inlen k h hk room key = Returns-bind (key_word k hk (omega arith)) λ k0 p.
    Returns-bind (key_word (drop 8 k) (drop-IsBytes 8 k hk) (omega (arith, length-drop 8 k)))
      λ k1 q.
        Returns-bind
          (words_loop-Returns (λ c. c) (λ c h. h) (inlen / 8) in_ (start k0 k1) h (omega arith)
            (start-IsWords k0 k1 p q))
          λ v r.
            Returns-bind
              (tail-Returns (λ c. c) (λ c h. h) v.0 (bit_and inlen 7) (shl64 inlen 56) r.0.0
                (omega (arith, r.0.1, bit_and_mask7 inlen)) (shl64-lt inlen 56))
              λ b z. (finish b v.1, refl, finish-lt b z r.1)
