-- ===== src/Number.antt =====
-- Numbers as text: `sdsll2str` and `sdsull2str` of src/sds.c, which write to a caller's buffer, and
-- `atol` of the C library, which reads such a text back.
pub mod Digits
pub mod Reverse
pub mod RoundTrip
use redis_counter.Base.{
  ℕ, zero, suc, ◌+◌, ◌-◌, ◌*◌, ◌/◌, ◌%◌, ◌^◌, Bool, true, false, ◌&&◌, List, [], ◌∷◌, ltb, leb,
  ◌==◌, if◌then◌else◌, ℤ, pos, negsuc, Run, ok, out_of_fuel, ◌>>=◌, at, u64,
}
use Prim.Native.Nat.{min}
use redis_counter.Args.{is_space}
use redis_counter.Sds.{write}

-- `do { *p++ = '0'+(v%10); v /= 10; } while(v);` with `p` at index `i`
unfoldable pub push_digits : ℕ → List ℕ → ℕ → ℕ → Run (List ℕ × ℕ)
push_digits zero s i v = out_of_fuel
push_digits (suc f) s i v = do
  s' ← write s i ((b'0' + v % 10) ∷ [])
  elim (v / 10 == 0) [ true ↦ ok (s', i + 1) | false ↦ push_digits f s' (i + 1) (v / 10) ]

-- `while(s < p)`, with `s` at index `i` and `p` at index `j`
unfoldable pub swap_loop : ℕ → List ℕ → ℕ → ℕ → Run (List ℕ)
swap_loop zero s i j = out_of_fuel
swap_loop (suc f) s i j = elim (ltb i j) [
  | false ↦ ok s
  | true ↦ do
    a ← at s i
    b ← at s j
    s' ← write s i (b ∷ [])
    s'' ← write s' j (a ∷ [])
    swap_loop f s'' (i + 1) (j - 1)
]

-- From `l = p-s` to the end, with `p` at index `l`; the result is the buffer and the length.
unfoldable pub terminate : List ℕ → ℕ → Run (List ℕ × ℕ)
terminate s l = do s' ← write s l (0 ∷ []); s'' ← swap_loop (l + 1) s' 0 (l - 1); ok (s'', l)

-- A number of 64 bits has at most 20 digits.
abbrev pub max_digits : ℕ
max_digits = 20

unfoldable pub ull2str : List ℕ → ℕ → Run (List ℕ × ℕ)
ull2str s v = do (s', l) ← push_digits max_digits s 0 v; terminate s' l

-- `v = (value < 0) ? -value : value`, converted to `unsigned long long`
unfoldable pub magnitude : ℤ → ℕ
magnitude (pos n) = n % u64
magnitude (negsuc n) = suc n % u64

-- `if (value < 0) *p++ = '-';`
unfoldable pub put_sign : ℤ → List ℕ → ℕ → Run (List ℕ × ℕ)
put_sign (pos n) s i = ok (s, i)
put_sign (negsuc n) s i = do s' ← write s i (b'-' ∷ []); ok (s', i + 1)

unfoldable pub ll2str : List ℕ → ℤ → Run (List ℕ × ℕ)
ll2str s value = do
  (s₁, i) ← push_digits max_digits s 0 (magnitude value)
  (s₂, l) ← put_sign value s₁ i
  terminate s₂ l

-- The digits at the front of a text, read from the left on from `acc`
unfoldable pub read_digits : ℕ → List ℕ → ℕ
read_digits acc [] = acc
read_digits acc (c ∷ p) =
    if leb b'0' c && leb c b'9' then read_digits (acc * 10 + (c - b'0')) p else acc

-- `negate n` is -n.
unfoldable pub negate : ℕ → ℤ
negate zero = pos 0
negate (suc n) = negsuc n

unfoldable pub skip_spaces : List ℕ → List ℕ
skip_spaces [] = []
skip_spaces (c ∷ p) = if is_space c then skip_spaces p else c ∷ p

-- `atol` of a text, which stops at the first byte that is no digit, and returns the nearest `long`
-- where the number is none
unfoldable pub read_sign : List ℕ → ℤ
read_sign [] = pos 0
read_sign (c ∷ p) =
    if c == b'-'
    then negate (min (2 ^ 63) (read_digits 0 p))
    else if c == b'+'
    then pos (min (2 ^ 63 - 1) (read_digits 0 p))
    else pos (min (2 ^ 63 - 1) (read_digits 0 (c ∷ p)))

unfoldable pub atol : List ℕ → ℤ
atol p = read_sign (skip_spaces p)
