-- ===== src/Args/RoundTrip.antt =====
-- `sdscatrepr` writes what `sdssplitargs` reads back.
use mathlib.Core.List.{append_assoc, append-nil}
use redis_counter.Base.{
  ℕ, zero, suc, ◌+◌, ◌*◌, ◌/◌, ◌%◌, ◌≤◌, ◌<◌, ◌≡◌, refl, sym, ◌∙◌, ap, arith, true, false, ◌||◌,
  Bool-cases, ==_iff, inl, inr, some, List, [], ◌∷◌, ◌++◌, map, ◌==◌, length, length-append, ok,
}
use redis_counter.Args.{
  peek, plain, inq, more, done, unescape, close_quote, quoted_round, plain_round, round, token,
  skip_blanks, tokens, split_args, is_space, is_print, is_hex_digit, hex_digit_to_int, hex_char,
  escape, escapes, cat_repr, join_loop, join_sds,
}

hex_char-is_hex_digit : (d : ℕ) → d < 16 → is_hex_digit (hex_char d) ≡ true
unfolding is_hex_digit hex_char
hex_char-is_hex_digit d h = ground arith

hex_char_value : (d : ℕ) → d < 16 → hex_digit_to_int (hex_char d) ≡ d
unfolding hex_digit_to_int hex_char
hex_char_value d h = ground arith

hex_char-ne-zero : (d : ℕ) → (hex_char d == 0) ≡ false
unfolding hex_char
hex_char-ne-zero d = ground arith

hex_round :
    (current rest : List ℕ) (c : ℕ)
    → c < 256
    → quoted_round current (b'\\' ∷ b'x' ∷ hex_char (c / 16) ∷ hex_char (c % 16) ∷ rest)
      ≡ more inq (current ++ c ∷ []) rest
unfolding quoted_round
hex_round current rest c h =
    let v : c / 16 * 16 + c % 16 ≡ c = omega arith in
    rw (
      hex_char-is_hex_digit (c / 16) (omega arith),
      hex_char-is_hex_digit (c % 16) (omega arith),
      hex_char_value (c / 16) (omega arith),
      hex_char_value (c % 16) (omega arith),
      hex_char-ne-zero (c % 16),
      v,
    )

special_round :
    (current rest : List ℕ) (c : ℕ)
    → (c == b'\\' || c == b'"') ≡ true
    → quoted_round current (b'\\' ∷ c ∷ rest) ≡ more inq (current ++ c ∷ []) rest
unfolding quoted_round unescape
special_round current rest c h = ground arith

print_round :
    (current rest : List ℕ) (c : ℕ)
    → (c == b'\\' || c == b'"') ≡ false
    → is_print c ≡ true
    → quoted_round current (c ∷ rest) ≡ more inq (current ++ c ∷ []) rest
unfolding quoted_round is_print
print_round current rest c h p = ground arith

-- `d` after a backslash stands for `c`.
letter_round :
    (current rest : List ℕ) (c d n : ℕ)
    → (c == n) ≡ true
    → quoted_round current (b'\\' ∷ d ∷ rest) ≡ more inq (current ++ n ∷ []) rest
    → quoted_round current (b'\\' ∷ d ∷ rest) ≡ more inq (current ++ c ∷ []) rest
letter_round current rest c d n h r = rw ((==_iff c n).0 h) r

-- One round over the text of a byte reads the byte.
escape_round :
    (current rest : List ℕ) (c : ℕ)
    → c < 256
    → quoted_round current (escape c ++ rest) ≡ more inq (current ++ c ∷ []) rest
unfolding escape
escape_round current rest c h = elim (Bool-cases (c == b'\\' || c == b'"')) [
  | inl y ↦ rw y (special_round current rest c y)
  | inr plain_byte ↦ rw plain_byte (elim (Bool-cases (c == 10)) [
    | inl y ↦ rw y (letter_round current rest c b'n' 10 y (unfold quoted_round unescape in refl))
    | inr n ↦ rw n (elim (Bool-cases (c == 13)) [
      | inl y ↦ rw y (letter_round current rest c b'r' 13 y (unfold quoted_round unescape in refl))
      | inr n ↦ rw n (elim (Bool-cases (c == 9)) [
        | inl y ↦ rw y (letter_round current rest c b't' 9 y (unfold quoted_round unescape in refl))
        | inr n ↦ rw n (elim (Bool-cases (c == 7)) [
          | inl y ↦
              rw y (letter_round current rest c b'a' 7 y (unfold quoted_round unescape in refl))
          | inr n ↦ rw n (elim (Bool-cases (c == 8)) [
            | inl y ↦
                rw y (letter_round current rest c b'b' 8 y (unfold quoted_round unescape in refl))
            | inr n ↦ rw n (elim (Bool-cases (is_print c)) [
              | inl y ↦ rw y (print_round current rest c plain_byte y)
              | inr n ↦ rw n (hex_round current rest c h)
            ])
          ])
        ])
      ])
    ])
  ])
]

-- The text of all bytes
spelled : List ℕ → List ℕ
spelled [] = []
spelled (c ∷ p) = escape c ++ spelled p

escapes-spelled : (s p : List ℕ) → escapes s p ≡ s ++ spelled p
unfolding escapes spelled
escapes-spelled s [] = sym (append-nil s)
escapes-spelled s (c ∷ p) =
    escapes-spelled (s ++ escape c) p ∙ append_assoc s (escape c) (spelled p)

length-escape : (c : ℕ) → 1 ≤ length (escape c)
unfolding escape
length-escape c = ground arith

length-spelled : (p : List ℕ) → length p ≤ length (spelled p)
unfolding spelled
length-spelled [] = omega arith
length-spelled (c ∷ p) =
    omega (arith, length-append (escape c) (spelled p), length-escape c, length-spelled p)

abbrev pub AllBytes : List ℕ → Type 0
AllBytes [] = Unit
AllBytes (c ∷ p) = (c < 256) × AllBytes p

-- What may follow a closing quote
abbrev Closed : List ℕ → Type 0
Closed rest = ((peek rest == 0) || is_space (peek rest)) ≡ true

closing_round :
    (current rest : List ℕ) → Closed rest → quoted_round current (b'"' ∷ rest) ≡ done current rest
unfolding quoted_round close_quote
closing_round current rest h = ground arith

token-spelled :
    (f : ℕ) (current p rest : List ℕ)
    → AllBytes p
    → Closed rest
    → length p < f
    → token f inq current (spelled p ++ b'"' ∷ rest) ≡ ok (some (current ++ p, rest))
unfolding token spelled round
token-spelled zero current p rest all closed h = absurd (omega arith)
token-spelled (suc f) current [] rest all closed h =
    rw (closing_round current rest closed, append-nil current, token)
token-spelled (suc f) current (c ∷ p) rest all closed h =
    rw
      (
        append_assoc (escape c) (spelled p) (b'"' ∷ rest),
        escape_round current (spelled p ++ b'"' ∷ rest) c all.0,
        token,
        round,
      )
      (token-spelled f (current ++ c ∷ []) p rest all.1 closed (omega arith)
        ∙ ap (λ t. ok (some (t, rest))) (append_assoc current (c ∷ []) p))

open_quote : (f : ℕ) (p : List ℕ) → token (suc f) plain [] (b'"' ∷ p) ≡ token f inq [] p
unfolding token round plain_round
open_quote f p = refl

token-repr :
    (n : ℕ) (a rest : List ℕ)
    → AllBytes a
    → Closed rest
    → n ≡ length (spelled a ++ b'"' ∷ rest)
    → token (suc n + 1) plain [] (b'"' ∷ (spelled a ++ b'"' ∷ rest)) ≡ ok (some (a, rest))
token-repr n a rest all closed e =
    let s : suc n + 1 ≡ suc (suc n) = omega arith in
    rw (s, open_quote (suc n) (spelled a ++ b'"' ∷ rest))
      (token-spelled (suc n) [] a rest all closed
        (omega (arith, e, length-append (spelled a) (b'"' ∷ rest), length-spelled a)))

-- A quoted text is read back as one argument.
tokens-repr :
    (f : ℕ) (v : List (List ℕ)) (a rest : List ℕ)
    → AllBytes a
    → Closed rest
    → tokens (suc f) v (b'"' ∷ (spelled a ++ b'"' ∷ rest)) ≡ tokens f (v ++ a ∷ []) rest
unfolding tokens skip_blanks is_space
tokens-repr f v a rest all closed =
    rw (token-repr (length (spelled a ++ b'"' ∷ rest)) a rest all closed refl)

tokens_blank : (f : ℕ) (v : List (List ℕ)) (p : List ℕ) → tokens f v (b' ' ∷ p) ≡ tokens f v p
unfolding tokens skip_blanks is_space
tokens_blank zero v p = refl
tokens_blank (suc f) v p = refl

-- The quoted arguments, with a space between two of them
line : List (List ℕ) → List ℕ
line [] = []
line (a ∷ []) = b'"' ∷ (spelled a ++ b'"' ∷ [])
line (a ∷ b ∷ argv) = b'"' ∷ (spelled a ++ b'"' ∷ b' ' ∷ line (b ∷ argv))

abbrev pub AllTexts : List (List ℕ) → Type 0
AllTexts [] = Unit
AllTexts (a ∷ argv) = AllBytes a × AllTexts argv

tokens-line :
    (f : ℕ) (v argv : List (List ℕ))
    → AllTexts argv
    → length argv < f
    → tokens f v (line argv) ≡ ok (some (v ++ argv))
unfolding line
tokens-line zero v argv all h = absurd (omega arith)
tokens-line (suc f) v [] all h = rw (append-nil v) (unfold tokens skip_blanks in refl)
tokens-line (suc zero) v (a ∷ argv) all h = absurd (omega arith)
tokens-line (suc (suc f)) v (a ∷ []) all h =
    rw (tokens-repr (suc f) v a [] all.0 refl) (unfold tokens skip_blanks in refl)
tokens-line (suc (suc f)) v (a ∷ b ∷ argv) all h =
    rw
      (
        tokens-repr (suc f) v a (b' ' ∷ line (b ∷ argv)) all.0 (unfold is_space in refl),
        tokens_blank (suc f) (v ++ a ∷ []) (line (b ∷ argv)),
      )
      (tokens-line (suc f) (v ++ a ∷ []) (b ∷ argv) all.1 (omega arith)
        ∙ ap (λ t. ok (some t)) (append_assoc v (a ∷ []) (b ∷ argv)))

length-line : (argv : List (List ℕ)) → length argv ≤ length (line argv)
unfolding line
length-line [] = omega arith
length-line (a ∷ []) = omega arith
length-line (a ∷ b ∷ argv) =
    omega (arith, length-append (spelled a) (b'"' ∷ b' ' ∷ line (b ∷ argv)), length-line (b ∷ argv))

cat_repr-spelled : (s p : List ℕ) → cat_repr s p ≡ s ++ (b'"' ∷ (spelled p ++ b'"' ∷ []))
unfolding cat_repr
cat_repr-spelled s p = rw (escapes-spelled (s ++ b'"' ∷ []) p) (
    append_assoc (s ++ b'"' ∷ []) (spelled p) (b'"' ∷ [])
    ∙ append_assoc s (b'"' ∷ []) (spelled p ++ b'"' ∷ []))

join_loop-line :
    (join : List ℕ) (argv : List (List ℕ))
    → join_loop join (map (cat_repr []) argv) (b' ' ∷ []) ≡ join ++ line argv
unfolding join_loop line
join_loop-line join [] = sym (append-nil join)
join_loop-line join (a ∷ []) = ap (λ t. join ++ t) (cat_repr-spelled [] a)
join_loop-line join (a ∷ b ∷ argv) =
    rw (join_loop-line ((join ++ cat_repr [] a) ++ b' ' ∷ []) (b ∷ argv), cat_repr-spelled [] a)
      (simp append_assoc)

-- `sdssplitargs` of the texts that sdscatrepr writes for any byte strings, joined by sdsjoinsds
-- with a space, returns those byte strings, whatever bytes they hold and also where some are
-- empty.
pub split_args-join-repr :
    (argv : List (List ℕ))
    → AllTexts argv
    → split_args (join_sds (map (cat_repr []) argv) (b' ' ∷ [])) ≡ ok (some argv)
unfolding split_args join_sds
split_args-join-repr argv all =
    rw (join_loop-line [] argv)
      (tokens-line (length (line argv) + 1) [] argv all (omega (arith, length-line argv)))
