-- ===== src/Tests/TextRuns.antt =====
-- Runs of the text functions: lines of arguments, numbers, order, and a request.
use redis_counter.Base.{
  ℕ, ◌≡◌, refl, arith, some, List, [], ◌∷◌, map, negsuc, replicate, ok, Returns,
}
use redis_counter.Args.{
  split_args, cat_repr, join_sds, tokens, token, round, plain_round, quoted_round, skip_blanks,
  is_space, unescape, is_hex_digit, close_quote,
}
use redis_counter.Args.RoundTrip.{split_args-join-repr}
use redis_counter.Number.{ull2str, ll2str, atol, read_digits}
use redis_counter.Number.RoundTrip.{Prints, decimal, signed, ull2str-decimal, ll2str-signed}
use redis_counter.Request.{set_name}
use redis_counter.Text.{sds_cmp}
use redis_counter.Text.Order.{lex, sds_cmp-lex}

-- `say "hi\n"` with the quotes and the backslash as bytes of the line
abbrev say : List ℕ
say = b's' ∷ b'a' ∷ b'y' ∷ b' ' ∷ b'"' ∷ b'h' ∷ b'i' ∷ b'\\' ∷ b'n' ∷ b'"' ∷ []

say_args : split_args say ≡ ok (some ((b's' ∷ b'a' ∷ b'y' ∷ []) ∷ (b'h' ∷ b'i' ∷ 10 ∷ []) ∷ []))
unfolding split_args tokens token round plain_round quoted_round skip_blanks is_space unescape
    is_hex_digit close_quote
say_args = refl

-- A quote, a byte that has no letter, and an empty argument
abbrev odd_args : List (List ℕ)
odd_args = (b'"' ∷ 0 ∷ 255 ∷ []) ∷ [] ∷ (10 ∷ []) ∷ []

split_args-join-repr_example :
    split_args (join_sds (map (cat_repr []) odd_args) (b' ' ∷ [])) ≡ ok (some odd_args)
split_args-join-repr_example = split_args-join-repr odd_args (omega arith)

ull2str-decimal_example :
    Returns
      (ull2str (replicate 21 7) 1024)
      (λ r. Prints (decimal 1024) 21 r × (read_digits 0 (decimal 1024) ≡ 1024))
ull2str-decimal_example = ull2str-decimal (replicate 21 7) 1024 (omega arith) (omega arith)

ll2str-signed_example :
    Returns
      (ll2str (replicate 21 7) (negsuc 41))
      (λ r. Prints (signed (negsuc 41)) 21 r × (atol (signed (negsuc 41)) ≡ negsuc 41))
ll2str-signed_example = ll2str-signed (replicate 21 7) (negsuc 41) (omega arith) (omega arith)

sds_cmp-lex_example : sds_cmp set_name (b's' ∷ []) ≡ lex set_name (b's' ∷ [])
sds_cmp-lex_example = sds_cmp-lex set_name (b's' ∷ [])

abbrev set_args : List (List ℕ)
set_args = set_name ∷ (b'k' ∷ []) ∷ (b'7' ∷ []) ∷ []
