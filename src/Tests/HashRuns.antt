-- ===== src/Tests/HashRuns.antt =====
-- Runs of the hash function: the theorems at "Key" with the bytes 0 to 15 as the key.
use redis_counter.Base.{
  Bool, true, ◌&&◌, ltb, ℕ, zero, suc, ◌≡◌, arith, List, [], ◌∷◌, u64, Returns, refl, ◌<◌, ◌+◌, inl,
  inr, ok,
}
use redis_counter.SipHash.Bounds.{IsBytes, siphash-Returns}
use redis_counter.SipHash.Nocase.{IsLower, InLowerCase, siphash_nocase-map}
use redis_counter.SipHash.{
  siphash, siphash_nocase, siptlw, byte_at, word_at, words_loop, tail, words_loop_nocase,
  tail_nocase, start, finish, absorb, sip_round, rotl,
}

abbrev key_bytes : List ℕ
key_bytes = 0 ∷ 1 ∷ 2 ∷ 3 ∷ 4 ∷ 5 ∷ 6 ∷ 7 ∷ 8 ∷ 9 ∷ 10 ∷ 11 ∷ 12 ∷ 13 ∷ 14 ∷ 15 ∷ []

-- "Counter:Page", twelve bytes
abbrev page : List ℕ
page = 67 ∷ 111 ∷ 117 ∷ 110 ∷ 116 ∷ 101 ∷ 114 ∷ 58 ∷ 80 ∷ 97 ∷ 103 ∷ 101 ∷ []

abbrev answer : ℕ
answer = 14817444758333631885

page_hash : siphash_nocase page 12 key_bytes ≡ ok answer
unfolding siphash_nocase siphash byte_at word_at words_loop tail words_loop_nocase tail_nocase start
    finish absorb sip_round rotl siptlw
page_hash = refl

abbrev all_bytes : List ℕ → Bool
all_bytes [] = true
all_bytes (c ∷ p) = ltb c 256 && all_bytes p

all_bytes_sound : (p : List ℕ) → all_bytes p ≡ true → IsBytes p
all_bytes_sound [] h i = omega arith
all_bytes_sound (c ∷ p) h zero = ground arith
all_bytes_sound (c ∷ p) h (suc i) = all_bytes_sound p (ground arith) i

siphash-Returns_example : Returns (siphash page 12 key_bytes) (λ h. h < u64)
siphash-Returns_example =
    siphash-Returns page 12 key_bytes (all_bytes_sound page refl) (all_bytes_sound key_bytes refl)
      (omega arith) (omega arith)

-- "counter:page"
abbrev low_page : List ℕ
low_page = 99 ∷ 111 ∷ 117 ∷ 110 ∷ 116 ∷ 101 ∷ 114 ∷ 58 ∷ 112 ∷ 97 ∷ 103 ∷ 101 ∷ []

upper : (c : ℕ) → 64 < c → c < 91 → IsLower c (c + 32)
upper c h l = inl (h, l, refl)

above : (c : ℕ) → 90 < c → IsLower c c
above c h = inr (inr h, refl)

below : (c : ℕ) → c < 65 → IsLower c c
below c h = inr (inl h, refl)

low_page-InLowerCase : InLowerCase page low_page
low_page-InLowerCase = (
  upper 67 (omega arith) (omega arith),
  (
    above 111 (omega arith),
    (
      above 117 (omega arith),
      (
        above 110 (omega arith),
        (
          above 116 (omega arith),
          (
            above 101 (omega arith),
            (
              above 114 (omega arith),
              (
                below 58 (omega arith),
                (
                  upper 80 (omega arith) (omega arith),
                  (
                    above 97 (omega arith),
                    (above 103 (omega arith), (above 101 (omega arith), tt)),
                  ),
                ),
              ),
            ),
          ),
        ),
      ),
    ),
  ),
)

siphash_nocase-map_example : siphash_nocase page 12 key_bytes ≡ siphash low_page 12 key_bytes
siphash_nocase-map_example = siphash_nocase-map page low_page 12 key_bytes low_page-InLowerCase
