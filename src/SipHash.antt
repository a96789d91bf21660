-- ===== src/SipHash.antt =====
-- The hash function of the keys: src/siphash.c (SipHash with 1 and 2 rounds, and the variant that
-- does not tell the case of letters apart). Bytes are numbers below 256; `in` is what the pointer
-- reaches, and a read beyond it crashes. The words are read by the byte-wise macros.
pub mod Nocase
pub mod Bounds
use redis_counter.Base.{
  ℕ, zero, suc, ◌+◌, ◌-◌, ◌*◌, ◌/◌, ◌%◌, List, ◌&&◌, leb, if◌then◌else◌, drop, Run, ok, crash,
  ◌>>=◌, at, add64, shl64, shr64, bit_and, bit_or, bit_xor,
}

unfoldable pub siptlw : ℕ → ℕ
siptlw c = if leb 65 c && leb c 90 then c + (97 - 65) else c

-- `ROTL(x, b)`
unfoldable pub rotl : ℕ → ℕ → ℕ
rotl x b = bit_or (shl64 x b) (shr64 x (64 - b))

pub record State : Type 0 where
  pub v0 : ℕ
  pub v1 : ℕ
  pub v2 : ℕ
  pub v3 : ℕ

-- `SIPROUND`; a name with a dash is a later value of the variable.
unfoldable pub sip_round : State → State
sip_round s =
    let a0 = add64 s.v0 s.v1 in
    let a1 = bit_xor (rotl s.v1 13) a0 in
    let b0 = rotl a0 32 in
    let a2 = add64 s.v2 s.v3 in
    let a3 = bit_xor (rotl s.v3 16) a2 in
    let c0 = add64 b0 a3 in
    let b3 = bit_xor (rotl a3 21) c0 in
    let b2 = add64 a2 a1 in
    let b1 = bit_xor (rotl a1 17) b2 in record { v0 = c0; v1 = b1; v2 = rotl b2 32; v3 = b3 }

-- `v3 ^= m; SIPROUND; v0 ^= m;`
unfoldable pub absorb : ℕ → State → State
absorb m s =
    let r = sip_round (record s { v3 = bit_xor s.v3 m }) in record r { v0 = bit_xor r.v0 m }

-- The reads below apply `low` to every byte: nothing, or `siptlw`.
module _ (low : ℕ → ℕ) where
  unfoldable pub byte_at : List ℕ → ℕ → Run ℕ
  byte_at p i = do c ← at p i; ok (low c)

  -- `U8TO64_LE(p)` and `U8TO64_LE_NOCASE(p)`
  unfoldable pub word_at : List ℕ → Run ℕ
  word_at p = do
    c0 ← byte_at p 0
    c1 ← byte_at p 1
    c2 ← byte_at p 2
    c3 ← byte_at p 3
    c4 ← byte_at p 4
    c5 ← byte_at p 5
    c6 ← byte_at p 6
    c7 ← byte_at p 7
    let lo = bit_or (bit_or (bit_or c0 (shl64 c1 8)) (shl64 c2 16)) (shl64 c3 24)
    ok (
        bit_or (bit_or (bit_or (bit_or lo (shl64 c4 32)) (shl64 c5 40)) (shl64 c6 48))
          (shl64 c7 56))

  -- The loop over whole words, `n` of them; it leaves the pointer to the rest.
  unfoldable pub words_loop : ℕ → List ℕ → State → Run (List ℕ × State)
  words_loop zero p s = ok (p, s)
  words_loop (suc n) p s = do m ← word_at p; words_loop n (drop 8 p) (absorb m s)

  -- The `switch` on the bytes left, which falls through from each case to the next lower one
  unfoldable pub tail : List ℕ → ℕ → ℕ → Run ℕ
  tail p zero b = ok b
  tail p (suc i) b = do c ← byte_at p i; tail p i (bit_or b (shl64 c (8 * i)))

-- The four variables before the loop
unfoldable pub start : ℕ → ℕ → State
start k0 k1 = record {
  v0 = bit_xor 0x736f6d6570736575 k0;
  v1 = bit_xor 0x646f72616e646f6d k1;
  v2 = bit_xor 0x6c7967656e657261 k0;
  v3 = bit_xor 0x7465646279746573 k1;
}

-- From `v3 ^= b` to the result
unfoldable pub finish : ℕ → State → ℕ
finish b s =
    let r = absorb b s in
    let q = sip_round (sip_round (record r { v2 = bit_xor r.v2 255 })) in
    bit_xor (bit_xor (bit_xor q.v0 q.v1) q.v2) q.v3

unfoldable pub siphash : List ℕ → ℕ → List ℕ → Run ℕ
siphash in_ inlen k = do
  k0 ← word_at (λ c. c) k
  k1 ← word_at (λ c. c) (drop 8 k)
  (rest, s) ← words_loop (λ c. c) (inlen / 8) in_ (start k0 k1)
  b ← tail (λ c. c) rest (bit_and inlen 7) (shl64 inlen 56)
  ok (finish b s)

-- The loop of `siphash_nocase`, which reads by `U8TO64_LE_NOCASE`
unfoldable pub words_loop_nocase : ℕ → List ℕ → State → Run (List ℕ × State)
words_loop_nocase zero p s = ok (p, s)
words_loop_nocase (suc n) p s = do m ← word_at siptlw p; words_loop_nocase n (drop 8 p) (absorb m s)

-- Its `switch`
unfoldable pub tail_nocase : List ℕ → ℕ → ℕ → Run ℕ
tail_nocase p zero b = ok b
tail_nocase p (suc i) b = do c ← byte_at siptlw p i; tail_nocase p i (bit_or b (shl64 c (8 * i)))

unfoldable pub siphash_nocase : List ℕ → ℕ → List ℕ → Run ℕ
siphash_nocase in_ inlen k = do
  k0 ← word_at (λ c. c) k
  k1 ← word_at (λ c. c) (drop 8 k)
  (rest, s) ← words_loop_nocase (inlen / 8) in_ (start k0 k1)
  b ← tail_nocase rest (bit_and inlen 7) (shl64 inlen 56)
  ok (finish b s)
