-- ===== src/Request/Wire.antt =====
-- What `sdssplitargs` makes of the request that `clientBuf` builds.
use mathlib.Core.List.{append_assoc, append-nil}
use redis_counter.Base.{
  ℕ, zero, suc, ◌+◌, ◌%◌, ◌^◌, ◌≤◌, ◌<◌, ◌≡◌, refl, ◌∙◌, ap, arith, Bool, true, false, not, ◌&&◌,
  some, List, [], ◌∷◌, ◌++◌, ◌==◌, length, length-append, ok, ltb, take, ◌>>=◌,
}
use redis_counter.Args.{
  plain, round, more, plain_round, peek, token, tokens, skip_blanks, split_args, is_space,
}
use redis_counter.Number.Digits.{AllDigits}
use redis_counter.Number.RoundTrip.{decimal, decimal-AllDigits}
use redis_counter.Request.{crlf, client_args, client_buf}

-- A byte that a token outside quotes takes as it is
unfoldable pub is_plain : ℕ → Bool
is_plain c = not (c == 0) && not (is_space c) && not (c == b'"') && not (c == b'\'')

abbrev pub AllPlain : List ℕ → Type 0
AllPlain [] = Unit
AllPlain (c ∷ w) = (is_plain c ≡ true) × AllPlain w

-- A word: not empty, with no null byte, blank or quote
abbrev pub IsWord : List ℕ → Type 0
IsWord w = (0 < length w) × AllPlain w

AllDigits-AllPlain : (w : List ℕ) → AllDigits w → AllPlain w
unfolding is_plain is_space
AllDigits-AllPlain [] h = tt
AllDigits-AllPlain (c ∷ w) h = (ground arith, AllDigits-AllPlain w h.2)

plain_byte :
    (current p : List ℕ) (c : ℕ)
    → is_plain c ≡ true
    → plain_round current (c ∷ p) ≡ more plain (current ++ c ∷ []) p
unfolding plain_round is_plain is_space
plain_byte current p c h = ground arith

-- A word ends at the carriage return that follows it.
token-word :
    (f : ℕ) (current w p : List ℕ)
    → AllPlain w
    → length w < f
    → token f plain current (w ++ 13 ∷ p) ≡ ok (some (current ++ w, p))
unfolding token round
token-word zero current w p all h = absurd (omega arith)
token-word (suc f) current [] p all h = rw (append-nil current) (unfold plain_round in refl)
token-word (suc f) current (c ∷ w) p all h =
    rw (plain_byte current (w ++ 13 ∷ p) c all.0, token, round)
      (token-word f (current ++ c ∷ []) w p all.1 (omega arith)
        ∙ ap (λ t. ok (some (t, p))) (append_assoc current (c ∷ []) w))

starts : (c : ℕ) (w : List ℕ) → is_plain c ≡ true → skip_blanks (c ∷ w) ≡ c ∷ w
unfolding skip_blanks is_plain
starts c w h = ground arith

tokens_newline : (f : ℕ) (v : List (List ℕ)) (p : List ℕ) → tokens f v (10 ∷ p) ≡ tokens f v p
unfolding tokens skip_blanks is_space
tokens_newline zero v p = refl
tokens_newline (suc f) v p = refl

tokens_next :
    (f : ℕ) (v : List (List ℕ)) (p q w rest : List ℕ)
    → skip_blanks p ≡ q
    → (peek q == 0) ≡ false
    → token (length q + 1) plain [] q ≡ ok (some (w, rest))
    → tokens (suc f) v p ≡ tokens f (v ++ w ∷ []) rest
unfolding tokens
tokens_next f v p q w rest e z t =
    let z' : (peek (skip_blanks p) == 0) ≡ false = rw e z in
    let t' : token (length (skip_blanks p) + 1) plain [] (skip_blanks p) ≡ ok (some (w, rest)) =
      rw e t in
    rw (z', tokens) (rw t' refl)

tokens-word :
    (f : ℕ) (v : List (List ℕ)) (w p : List ℕ)
    → IsWord w
    → tokens (suc f) v (w ++ 13 ∷ 10 ∷ p) ≡ tokens f (v ++ w ∷ []) p
tokens-word f v [] p h = absurd (omega arith)
tokens-word f v (c ∷ w) p h =
    let z : (c == 0) ≡ false = unfold is_plain in ground arith in
    tokens_next f v _ (c ∷ (w ++ 13 ∷ 10 ∷ p)) (c ∷ w) (10 ∷ p) (starts c (w ++ 13 ∷ 10 ∷ p) h.1.0)
      z
      (token-word (length (c ∷ (w ++ 13 ∷ 10 ∷ p)) + 1) [] (c ∷ w) (10 ∷ p) h.1
        (omega (arith, length-append w (13 ∷ 10 ∷ p))))
    ∙ tokens_newline f (v ++ (c ∷ w) ∷ []) p

number-IsWord : (c n : ℕ) → is_plain c ≡ true → IsWord (c ∷ decimal n)
number-IsWord c n h = (omega arith, (h, AllDigits-AllPlain (decimal n) (decimal-AllDigits n)))

abbrev pub AllWords : List (List ℕ) → Type 0
AllWords [] = Unit
AllWords (a ∷ argv) = IsWord a × (length a < 2 ^ 31) × AllWords argv

-- The arguments as they stand in the request
unfoldable args_text : List (List ℕ) → List ℕ
args_text [] = []
args_text (a ∷ argv) =
    (b'$' ∷ decimal (length a % 2 ^ 32)) ++ (crlf ++ (a ++ (crlf ++ args_text argv)))

take_whole : (n : ℕ) (p : List ℕ) → n ≡ length p → take n p ≡ p
take_whole zero [] e = refl
take_whole zero (c ∷ p) e = absurd (omega arith)
take_whole (suc n) [] e = absurd (omega arith)
take_whole (suc n) (c ∷ p) e = ap (λ t. c ∷ t) (take_whole n p (omega arith))

client_args-args_text :
    (argv : List (List ℕ)) → AllWords argv → client_args argv ≡ ok (args_text argv)
unfolding client_args args_text
client_args-args_text [] all = refl
client_args-args_text (a ∷ argv) all =
    let low : ltb (length a % 2 ^ 32) (2 ^ 31) ≡ true = ground (arith, all.1) in
    let same : length a % 2 ^ 32 ≡ length a = omega (arith, all.1) in
    rw (low, client_args-args_text argv all.2, take_whole (length a % 2 ^ 32) a same) refl

-- Each argument behind the word that gives its length
unfoldable pub lengths_and : List (List ℕ) → List (List ℕ)
lengths_and [] = []
lengths_and (a ∷ argv) = (b'$' ∷ decimal (length a % 2 ^ 32)) ∷ a ∷ lengths_and argv

tokens-args_text :
    (f : ℕ) (v argv : List (List ℕ))
    → AllWords argv
    → length argv + length argv < f
    → tokens f v (args_text argv) ≡ ok (some (v ++ lengths_and argv))
unfolding args_text lengths_and
tokens-args_text zero v argv all h = absurd (omega arith)
tokens-args_text (suc f) v [] all h = rw (append-nil v) (unfold tokens skip_blanks in refl)
tokens-args_text (suc zero) v (a ∷ argv) all h = absurd (omega arith)
tokens-args_text (suc (suc f)) v (a ∷ argv) all h =
    let n = b'$' ∷ decimal (length a % 2 ^ 32) in
    tokens-word (suc f) v n (a ++ (crlf ++ args_text argv))
      (number-IsWord b'$' (length a % 2 ^ 32) (unfold is_plain is_space in refl))
    ∙ tokens-word f (v ++ n ∷ []) a (args_text argv) all.0
    ∙ tokens-args_text f ((v ++ n ∷ []) ++ a ∷ []) argv all.2 (omega arith)
    ∙ ap (λ t. ok (some t)) (simp append_assoc)

length-args_text : (argv : List (List ℕ)) → length argv + length argv ≤ length (args_text argv)
unfolding args_text
length-args_text [] = omega arith
length-args_text (a ∷ argv) =
    let n = decimal (length a % 2 ^ 32) in
    omega (
      arith,
      length-append n (13 ∷ 10 ∷ (a ++ 13 ∷ 10 ∷ args_text argv)),
      length-append a (13 ∷ 10 ∷ args_text argv),
      length-args_text argv,
    )

pub split_args-client_buf :
    (argv : List (List ℕ))
    → length argv < 2 ^ 31
    → AllWords argv
    → (client_buf argv >>= split_args)
      ≡ ok (some ((b'*' ∷ decimal (length argv % 2 ^ 31)) ∷ lengths_and argv))
unfolding split_args client_buf
split_args-client_buf argv few all =
    let n = b'*' ∷ decimal (length argv % 2 ^ 31) in
    let e : length (n ++ (crlf ++ args_text argv)) + 1
        ≡ suc (length (n ++ (crlf ++ args_text argv))) =
      omega arith in
    rw (client_args-args_text argv all, e)
      (tokens-word (length (n ++ (crlf ++ args_text argv))) [] n (args_text argv)
          (number-IsWord b'*' (length argv % 2 ^ 31) (unfold is_plain is_space in refl))
        ∙ tokens-args_text (length (n ++ (crlf ++ args_text argv))) (n ∷ []) argv all
            (omega (arith, length-append n (crlf ++ args_text argv), length-args_text argv)))
