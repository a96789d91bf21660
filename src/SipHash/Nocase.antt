-- ===== src/SipHash/Nocase.antt =====
-- The hash that ignores case, against the one that does not: src/siphash.c.
use redis_counter.Base.{
  ℕ, zero, suc, ◌*◌, ◌/◌, ◌+◌, ◌<◌, ◌≡◌, ◌⊎◌, inl, inr, arith, refl, sym, ◌∙◌, ap, ap₂, bind_assoc,
  bind_congr, bit_or, shl64, bit_and, List, [], ◌∷◌, drop, Run, ok, ◌>>=◌,
}
use mathlib.Core.List.{map}
use redis_counter.SipHash.{
  State, absorb, start, finish, siptlw, byte_at, word_at, words_loop, tail, words_loop_nocase,
  tail_nocase, siphash, siphash_nocase,
}

at-map : (f : ℕ → ℕ) (p : List ℕ) (i : ℕ) → byte_at f p i ≡ byte_at (λ c. c) (map f p) i
unfolding byte_at
at-map f [] i = refl
at-map f (c ∷ p) zero = refl
at-map f (c ∷ p) (suc i) = at-map f p i

map-drop : (f : ℕ → ℕ) (n : ℕ) (p : List ℕ) → drop n (map f p) ≡ map f (drop n p)
map-drop f zero p = refl
map-drop f (suc n) [] = refl
map-drop f (suc n) (c ∷ p) = map-drop f n p

word_at-map : (f : ℕ → ℕ) (p : List ℕ) → word_at f p ≡ word_at (λ c. c) (map f p)
unfolding word_at
word_at-map f p =
    rw
      (
        at-map f p 0,
        at-map f p 1,
        at-map f p 2,
        at-map f p 3,
        at-map f p 4,
        at-map f p 5,
        at-map f p 6,
        at-map f p 7,
      )
      refl

-- What the loop leaves, with the pointer into the bytes in lower case
abbrev lowered : Run (List ℕ × State) → Run (List ℕ × State)
lowered r = r >>= λ v. ok (map siptlw v.0, v.1)

words_loop_nocase-map :
    (n : ℕ) (p : List ℕ) (s : State)
    → lowered (words_loop_nocase n p s) ≡ words_loop (λ c. c) n (map siptlw p) s
unfolding words_loop words_loop_nocase
words_loop_nocase-map zero p s = refl
words_loop_nocase-map (suc n) p s =
    let w = word_at (λ c. c) (map siptlw p) in
    rw (word_at-map siptlw p, map-drop siptlw 8 p)
      (bind_assoc w (λ m. words_loop_nocase n (drop 8 p) (absorb m s))
          (λ v. ok (map siptlw v.0, v.1))
        ∙ bind_congr w λ m. words_loop_nocase-map n (drop 8 p) (absorb m s))

tail_nocase-map : (p : List ℕ) (i b : ℕ) → tail_nocase p i b ≡ tail (λ c. c) (map siptlw p) i b
unfolding tail tail_nocase
tail_nocase-map p zero b = refl
tail_nocase-map p (suc i) b = rw (at-map siptlw p i) (
    bind_congr (byte_at (λ c. c) (map siptlw p) i)
      λ c. tail_nocase-map p i (bit_or b (shl64 c (8 * i))))

siphash_nocase-siptlw :
    (in_ : List ℕ) (inlen : ℕ) (k : List ℕ)
    → siphash_nocase in_ inlen k ≡ siphash (map siptlw in_) inlen k
unfolding siphash siphash_nocase
siphash_nocase-siptlw in_ inlen k = bind_congr (word_at (λ c. c) k) λ k0.
    bind_congr (word_at (λ c. c) (drop 8 k)) λ k1.
      rw (sym (words_loop_nocase-map (inlen / 8) in_ (start k0 k1))) (
        sym (
          bind_assoc (words_loop_nocase (inlen / 8) in_ (start k0 k1))
            (λ v. ok (map siptlw v.0, v.1))
            (λ v. tail (λ c. c) v.0 (bit_and inlen 7) (shl64 inlen 56) >>= λ b. ok (finish b v.1))
          ∙ bind_congr (words_loop_nocase (inlen / 8) in_ (start k0 k1))
              λ v. rw (tail_nocase-map v.0 (bit_and inlen 7) (shl64 inlen 56)) refl))

-- `d` is the byte `c` in lower case: 32 more for the letters A to Z, and else the same.
abbrev pub IsLower : ℕ → ℕ → Type 0
IsLower c d = ((64 < c) × (c < 91) × (d ≡ c + 32)) ⊎ (((c < 65) ⊎ (90 < c)) × (d ≡ c))

-- `q` is `p` in lower case, byte by byte.
abbrev pub InLowerCase : List ℕ → List ℕ → Type 0
InLowerCase [] [] = Unit
InLowerCase [] (d ∷ q) = ⊥
InLowerCase (c ∷ p) [] = ⊥
InLowerCase (c ∷ p) (d ∷ q) = IsLower c d × InLowerCase p q

siptlw-IsLower : (c d : ℕ) → IsLower c d → siptlw c ≡ d
unfolding siptlw
siptlw-IsLower c d (inl h) = ground (arith, h.0, h.1, h.2)
siptlw-IsLower c d (inr (inl l, e)) = ground arith
siptlw-IsLower c d (inr (inr g, e)) = ground arith

map-InLowerCase : (p q : List ℕ) → InLowerCase p q → map siptlw p ≡ q
map-InLowerCase [] [] h = refl
map-InLowerCase [] (d ∷ q) h = absurd h
map-InLowerCase (c ∷ p) [] h = absurd h
map-InLowerCase (c ∷ p) (d ∷ q) h = ap₂ ◌∷◌ (siptlw-IsLower c d h.0) (map-InLowerCase p q h.1)

-- `siphash_nocase` gives the hash that siphash gives for the same bytes in lower case, in which
-- each of the letters A to Z is 32 more and every other byte is the same, for all lengths and
-- keys, and crashes on exactly the inputs on which that run crashes.
pub siphash_nocase-map :
    (in_ lower : List ℕ) (inlen : ℕ) (k : List ℕ)
    → InLowerCase in_ lower
    → siphash_nocase in_ inlen k ≡ siphash lower inlen k
siphash_nocase-map in_ lower inlen k h =
    siphash_nocase-siptlw in_ inlen k ∙ ap (λ p. siphash p inlen k) (map-InLowerCase in_ lower h)
