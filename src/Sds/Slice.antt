-- ===== src/Sds/Slice.antt =====
-- The part of a string: `sdsrange` and `sdstrim` of src/sds.c.
pub mod Move
pub mod Range
pub mod Trim
use redis_counter.Base.{
  ℕ, zero, suc, ◌+◌, ◌-◌, Bool, true, false, List, [], ◌∷◌, ltb, leb, ◌==◌, if◌then◌else◌, ℤ, pos,
  negsuc, drop, Run, ok, ◌>>=◌, at,
}
use redis_counter.Sds.{Sds, write, read, set_len}

-- `memmove(s, s + start, n)` within the bytes of a string
unfoldable pub move : List ℕ → ℕ → ℕ → Run (List ℕ)
move buf start n = do bytes ← read n (drop start buf); write buf 0 bytes

-- An index of `sdsrange`, from the end where it is negative: a sum below 0 becomes 0. Lengths are
-- below 2 ^ 63, so that the sum is one of `ssize_t`.
unfoldable pub from_end : ℕ → ℤ → ℕ
from_end len (pos i) = i
from_end len (negsuc i) = len - suc i

unfoldable pub span : ℕ → ℕ → ℕ
span start stop = if ltb stop start then 0 else stop - start + 1

-- `start` and `newlen` after the tests of `sdsrange`
unfoldable pub clip : ℕ → ℕ → ℕ → ℕ × ℕ
clip len start stop =
    if span start stop == 0
    then (0, 0)
    else if leb len start
    then (start, 0)
    else if leb len stop
    then (start, span start (len - 1))
    else (start, span start stop)

unfoldable pub move_down : List ℕ → ℕ → ℕ → Run (List ℕ)
move_down buf start n = if start == 0 then ok buf else if n == 0 then ok buf else move buf start n

-- `s[newlen] = 0` and `sdssetlen`
unfoldable pub cut : Sds → List ℕ → ℕ → Run Sds
cut s b n = do b' ← write b n (0 ∷ []); ok (set_len n (record s { buf = b' }))

unfoldable pub range : Sds → ℤ → ℤ → Run Sds
range s start stop =
    if s.len == 0
    then ok s
    else (let c = clip s.len (from_end s.len start) (from_end s.len stop) in
        move_down s.buf c.0 c.1 >>= λ b. cut s b c.1)

-- `strchr(cset, c)`, which also finds the null byte that ends `cset`
unfoldable pub in_set : List ℕ → ℕ → Bool
in_set [] c = c == 0
in_set (x ∷ xs) c = if x == c then true else in_set xs c

-- The first loop of `sdstrim`, at `sp` with `n` bytes up to `end`
unfoldable pub skip_front : List ℕ → List ℕ → ℕ → ℕ → Run ℕ
skip_front cset buf sp zero = ok sp
skip_front cset buf sp (suc n) = do
  c ← at buf sp
  elim (in_set cset c) [ true ↦ skip_front cset buf (suc sp) n | false ↦ ok sp ]

-- The second loop, with `past` one more than `ep`
unfoldable pub skip_back : List ℕ → List ℕ → ℕ → ℕ → Run ℕ
skip_back cset buf sp zero = ok zero
skip_back cset buf sp (suc ep) = elim (ltb sp ep) [
  | false ↦ ok (suc ep)
  | true ↦ do
    c ← at buf ep
    elim (in_set cset c) [ true ↦ skip_back cset buf sp ep | false ↦ ok (suc ep) ]
]

unfoldable pub trim : Sds → List ℕ → Run Sds
trim s cset = do
  sp ← skip_front cset s.buf 0 s.len
  past ← skip_back cset s.buf sp s.len
  b ← if sp == 0 then ok s.buf else move s.buf sp (past - sp)
  cut s b (past - sp)
