-- ===== src/Args.antt =====
-- Lines of arguments: `sdssplitargs`, `sdscatrepr` and the tests on characters that they make, of
-- src/sds.c. A line is its bytes up to the null byte, so a read at the end gives 0; `current` is the
-- text of the string that `sdscatlen` extends (Sds.Append).
pub mod Progress
pub mod RoundTrip
pub mod Split
use redis_counter.Base.{
  ℕ, zero, suc, ◌+◌, ◌-◌, ◌*◌, ◌/◌, ◌%◌, Bool, true, false, not, ◌&&◌, ◌||◌, Option, none, some,
  List, [], ◌∷◌, ◌++◌, leb, ◌==◌, if◌then◌else◌, length, drop, Run, ok, out_of_fuel, ◌>>=◌,
}

-- `isspace` and `isprint` in the C locale
unfoldable pub is_space : ℕ → Bool
is_space c = c == b' ' || (leb 9 c && leb c 13)

unfoldable pub is_print : ℕ → Bool
is_print c = leb 32 c && leb c 126

unfoldable pub is_hex_digit : ℕ → Bool
is_hex_digit c =
    (leb b'0' c && leb c b'9') || (leb b'a' c && leb c b'f') || (leb b'A' c && leb c b'F')

unfoldable pub hex_digit_to_int : ℕ → ℕ
hex_digit_to_int c =
    if leb b'0' c && leb c b'9'
    then c - b'0'
    else if leb b'a' c && leb c b'f'
    then c - b'a' + 10
    else if leb b'A' c && leb c b'F'
    then c - b'A' + 10
    else 0

-- `*p`, and `if (*p) p++`
abbrev pub peek : List ℕ → ℕ
peek [] = 0
peek (c ∷ p) = c

abbrev pub advance : List ℕ → List ℕ
advance [] = []
advance (c ∷ p) = if c == 0 then c ∷ p else p

-- Outside quotes, in "quotes" (`inq`) or in 'single quotes' (`insq`)
pub data Mode : Type 0 where
  plain : Mode
  inq : Mode
  insq : Mode

-- One round of the loop over a token: it goes on, the token is done, or `goto err`.
pub data Round : Type 0 where
  more : Mode → List ℕ → List ℕ → Round
  done : List ℕ → List ℕ → Round
  err : Round

unfoldable pub unescape : ℕ → ℕ
unescape c =
    if c == b'n'
    then 10
    else if c == b'r'
    then 13
    else if c == b't'
    then 9
    else if c == b'b'
    then 8
    else if c == b'a'
    then 7
    else c

-- A closing quote must be followed by a space or nothing at all.
unfoldable pub close_quote : List ℕ → List ℕ → Round
close_quote current p =
    if not (peek (drop 1 p) == 0) && not (is_space (peek (drop 1 p)))
    then err
    else done current (advance p)

unfoldable pub quoted_round : List ℕ → List ℕ → Round
quoted_round current p =
    if peek p == b'\\'
      && peek (drop 1 p) == b'x'
      && is_hex_digit (peek (drop 2 p))
      && is_hex_digit (peek (drop 3 p))
    then more inq
        (current
          ++ (hex_digit_to_int (peek (drop 2 p)) * 16 + hex_digit_to_int (peek (drop 3 p))) ∷ [])
        (advance (drop 3 p))
    else if peek p == b'\\' && not (peek (drop 1 p) == 0)
    then more inq (current ++ unescape (peek (drop 1 p)) ∷ []) (advance (drop 1 p))
    else if peek p == b'"'
    then close_quote current p
    else if peek p == 0
    then err
    else more inq (current ++ peek p ∷ []) (advance p)

unfoldable pub single_round : List ℕ → List ℕ → Round
single_round current p =
    if peek p == b'\\' && peek (drop 1 p) == b'\''
    then more insq (current ++ b'\'' ∷ []) (advance (drop 1 p))
    else if peek p == b'\''
    then close_quote current p
    else if peek p == 0
    then err
    else more insq (current ++ peek p ∷ []) (advance p)

unfoldable pub plain_round : List ℕ → List ℕ → Round
plain_round current p =
    if peek p == b' ' || peek p == 10 || peek p == 13 || peek p == 9 || peek p == 0
    then done current (advance p)
    else if peek p == b'"'
    then more inq current (advance p)
    else if peek p == b'\''
    then more insq current (advance p)
    else more plain (current ++ peek p ∷ []) (advance p)

unfoldable pub round : Mode → List ℕ → List ℕ → Round
round plain current p = plain_round current p
round inq current p = quoted_round current p
round insq current p = single_round current p

-- `while(!done)`: the token and the pointer after it, or `none` after `goto err`
unfoldable pub token : ℕ → Mode → List ℕ → List ℕ → Run (Option (List ℕ × List ℕ))
token zero m current p = out_of_fuel
token (suc f) m current p = elim (round m current p) [
  | more m' current' p' ↦ token f m' current' p'
  | done current' p' ↦ ok (some (current', p'))
  | err ↦ ok none
]

unfoldable pub skip_blanks : List ℕ → List ℕ
skip_blanks [] = []
skip_blanks (c ∷ p) = if not (c == 0) && is_space c then skip_blanks p else c ∷ p

-- `while(1)`: the vector, or `none` for `NULL`
unfoldable pub tokens : ℕ → List (List ℕ) → List ℕ → Run (Option (List (List ℕ)))
tokens zero vector p = out_of_fuel
tokens (suc f) vector p =
    let q = skip_blanks p in
    elim (peek q == 0) [
      | true ↦ ok (some vector)
      | false ↦ token (length q + 1) plain [] q >>= λ r. elim r [
        | none ↦ ok none
        | some t ↦ tokens f (vector ++ t.0 ∷ []) t.1
      ]
    ]

unfoldable pub split_args : List ℕ → Run (Option (List (List ℕ)))
split_args line = tokens (length line + 1) [] line

-- `"%02x"` of a byte: a digit of it
unfoldable pub hex_char : ℕ → ℕ
hex_char d = if leb d 9 then b'0' + d else b'a' + (d - 10)

-- The text that the loop of `sdscatrepr` appends for a byte
unfoldable pub escape : ℕ → List ℕ
escape c =
    if c == b'\\' || c == b'"'
    then b'\\' ∷ c ∷ []
    else if c == 10
    then b'\\' ∷ b'n' ∷ []
    else if c == 13
    then b'\\' ∷ b'r' ∷ []
    else if c == 9
    then b'\\' ∷ b't' ∷ []
    else if c == 7
    then b'\\' ∷ b'a' ∷ []
    else if c == 8
    then b'\\' ∷ b'b' ∷ []
    else if is_print c
    then c ∷ []
    else b'\\' ∷ b'x' ∷ hex_char (c / 16) ∷ hex_char (c % 16) ∷ []

unfoldable pub escapes : List ℕ → List ℕ → List ℕ
escapes s [] = s
escapes s (c ∷ p) = escapes (s ++ escape c) p

-- `sdscatrepr(s, p, len)`, with the `len` bytes at `p`
unfoldable pub cat_repr : List ℕ → List ℕ → List ℕ
cat_repr s p = escapes (s ++ b'"' ∷ []) p ++ b'"' ∷ []

-- `sdsjoinsds(argv, argc, sep, seplen)`; `sdsjoin` does the same with texts that end in a null byte.
unfoldable pub join_loop : List ℕ → List (List ℕ) → List ℕ → List ℕ
join_loop join [] sep = join
join_loop join (a ∷ []) sep = join ++ a
join_loop join (a ∷ b ∷ argv) sep = join_loop ((join ++ a) ++ sep) (b ∷ argv) sep

unfoldable pub join_sds : List (List ℕ) → List ℕ → List ℕ
join_sds argv sep = join_loop [] argv sep
