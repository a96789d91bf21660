-- ===== src/Sds/Buffer.antt =====
-- Reads and writes of the bytes of a string: `memcpy` in src/sds.c.
use mathlib.Core.List.{append_assoc}
use redis_counter.Base.{
  ℕ, zero, suc, ◌+◌, ◌-◌, ◌≤◌, ◌≡◌, refl, ap, ◌∙◌, length-append, arith, List, [], ◌∷◌, ◌++◌,
  length, take, ok, Returns, Returns-bind,
}
use redis_counter.Sds.{write, read}

-- What a write leaves: the length, the bytes before it, and the bytes written.
pub record Written (buf : List ℕ) (i : ℕ) (bytes : List ℕ) (r : List ℕ) : Type 0 where
  pub size : length r ≡ length buf
  pub text : take (i + length bytes) r ≡ take i buf ++ bytes

-- The text after one byte more
take_cons : (n m : ℕ) (b : ℕ) (r t : List ℕ) → n ≡ suc m → take m r ≡ t → take n (b ∷ r) ≡ b ∷ t
take_cons n m b r t e h = rw e (ap (λ t. b ∷ t) h)

pub write-Written :
    (buf : List ℕ) (i : ℕ) (bytes : List ℕ)
    → i + length bytes ≤ length buf
    → Returns (write buf i bytes) (Written buf i bytes)
unfolding write
write-Written buf zero [] h = (buf, refl, record { size = refl; text = refl })
write-Written [] zero (c ∷ cs) h = absurd (omega arith)
write-Written (b ∷ buf) zero (c ∷ cs) h =
    Returns-bind (write-Written buf zero cs (omega arith)) λ r w. (
      c ∷ r,
      refl,
      record {
        size = ap suc w.size;
        text = take_cons _ (0 + length cs) c r cs (omega arith) w.text;
      },
    )
write-Written [] (suc i) bytes h = absurd (omega arith)
write-Written (b ∷ buf) (suc i) bytes h =
    Returns-bind (write-Written buf i bytes (omega arith)) λ r w. (
      b ∷ r,
      refl,
      record {
        size = ap suc w.size;
        text = take_cons _ (i + length bytes) b r (take i buf ++ bytes) (omega arith) w.text;
      },
    )

pub read-take : (n : ℕ) (buf : List ℕ) → n ≤ length buf → read n buf ≡ ok (take n buf)
unfolding read
read-take zero buf h = refl
read-take (suc n) [] h = absurd (omega arith)
read-take (suc n) (b ∷ buf) h = rw (read-take n buf (omega arith)) refl

pub length-take : (n : ℕ) (buf : List ℕ) → n ≤ length buf → length (take n buf) ≡ n
length-take zero buf h = refl
length-take (suc n) [] h = absurd (omega arith)
length-take (suc n) (b ∷ buf) h = ap suc (length-take n buf (omega arith))

pub take-take : (n m : ℕ) (buf : List ℕ) → n ≤ m → take n (take m buf) ≡ take n buf
take-take zero m buf h = refl
take-take (suc n) zero buf h = absurd (omega arith)
take-take (suc n) (suc m) [] h = refl
take-take (suc n) (suc m) (b ∷ buf) h = ap (λ t. b ∷ t) (take-take n m buf (omega arith))

pub take-append_left : (n : ℕ) (a b : List ℕ) → n ≤ length a → take n (a ++ b) ≡ take n a
take-append_left zero a b h = refl
take-append_left (suc n) [] b h = absurd (omega arith)
take-append_left (suc n) (x ∷ a) b h = ap (λ t. x ∷ t) (take-append_left n a b (omega arith))

pub length-take-sub : (n : ℕ) (buf : List ℕ) → length (take n buf) + (n - length buf) ≡ n
length-take-sub zero buf = omega arith
length-take-sub (suc n) [] = omega arith
length-take-sub (suc n) (b ∷ buf) = omega (arith, length-take-sub n buf)

pub read-Returns :
    (n : ℕ) (buf : List ℕ) → n ≤ length buf → Returns (read n buf) (λ o. o ≡ take n buf)
read-Returns n buf h = (take n buf, read-take n buf h, refl)

-- Two writes, one behind the other
pub Written-trans :
    (s t u : List ℕ) (i j : ℕ) (xs ys : List ℕ)
    → j ≡ i + length xs
    → Written s i xs t
    → Written t j ys u
    → Written s i (xs ++ ys) u
Written-trans s t u i j xs ys e v w = record {
  size = w.size ∙ v.size;
  text =
      let n : i + length (xs ++ ys) ≡ j + length ys = omega (arith, e, length-append xs ys) in
      ap (λ n. take n u) n
      ∙ w.text
      ∙ ap (λ n. take n t ++ ys) e
      ∙ ap (λ p. p ++ ys) v.text
      ∙ append_assoc (take i s) xs ys;
}
