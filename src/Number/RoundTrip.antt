-- ===== src/Number/RoundTrip.antt =====
-- What `sdsull2str` and `sdsll2str` leave in the buffer, and `atol` of it.
use Prim.Native.Nat.{min}
use mathlib.Core.List.{append_assoc}
use redis_counter.Base.{
  ℕ, zero, suc, ◌+◌, ◌-◌, ◌%◌, ◌^◌, ◌≤◌, ◌<◌, ◌≡◌, refl, sym, ◌∙◌, ap, arith, List, [], ◌∷◌, ◌++◌,
  length, length-append, take, drop, ℤ, pos, negsuc, Returns, Returns-bind, u64,
}
use redis_counter.Args.{is_space}
use redis_counter.Sds.Buffer.{Written, write-Written, Written-trans}
use redis_counter.Number.{
  swap_loop, terminate, max_digits, ull2str, magnitude, put_sign, ll2str, read_digits, negate,
  skip_spaces, read_sign, atol,
}
use redis_counter.Number.Digits.{
  low_digits, backwards, length-low_digits, AllDigits, low_digits-AllDigits, backwards-AllDigits,
  read_digits-low_digits, push_digits-Returns,
}
use redis_counter.Number.Reverse.{swap_loop-backwards, backwards-snoc}

-- The buffer holds the text and a null byte, and the function returns the length of the text.
pub record Prints (text : List ℕ) (size : ℕ) (r : List ℕ × ℕ) : Type 0 where
  pub rest : List ℕ
  pub bytes : r.0 ≡ text ++ 0 ∷ rest
  pub count : r.1 ≡ length text
  pub room : length r.0 ≡ size

take-append-drop : (n : ℕ) (p : List ℕ) → take n p ++ drop n p ≡ p
take-append-drop zero p = refl
take-append-drop (suc n) [] = refl
take-append-drop (suc n) (c ∷ p) = ap (λ t. c ∷ t) (take-append-drop n p)

length-backwards : (p : List ℕ) → length (backwards p) ≡ length p
unfolding backwards
length-backwards [] = refl
length-backwards (c ∷ p) = omega (arith, length-append (backwards p) (c ∷ []), length-backwards p)

terminate-Prints :
    (s s' bytes : List ℕ) (l : ℕ)
    → Written s 0 bytes s'
    → l ≡ length bytes
    → l < length s
    → Returns (terminate s' l) (Prints (backwards bytes) (length s))
unfolding terminate
terminate-Prints s s' bytes l w e room =
    Returns-bind (write-Written s' l (0 ∷ []) (omega (arith, w.size))) λ t v.
      let all = Written-trans s s' t 0 l bytes (0 ∷ []) (omega (arith, e)) w v in
      let n = length (bytes ++ 0 ∷ []) in
      let z : 0 + n ≡ n = omega arith in
      let shape =
        sym (take-append-drop n t)
        ∙ ap (λ x. x ++ drop n t) (ap (λ k. take k t) (sym z) ∙ all.text)
        ∙ append_assoc bytes (0 ∷ []) (drop n t) in
      let loop =
        ap (λ b. swap_loop (l + 1) b 0 (l - 1)) shape
        ∙ swap_loop-backwards (l + 1) [] bytes (0 ∷ drop n t) 0 (l - 1) refl (omega (arith, e))
            (omega (arith, e)) in
      (
        (backwards bytes ++ 0 ∷ drop n t, l),
        rw loop refl,
        record {
          rest = drop n t;
          bytes = refl;
          count = e ∙ sym (length-backwards bytes);
          room = omega (
            arith,
            ap length shape,
            length-append bytes (0 ∷ drop n t),
            length-append (backwards bytes) (0 ∷ drop n t),
            length-backwards bytes,
            all.size,
          );
        },
      )

-- The decimal digits of a number below 10 ^ 20
unfoldable pub decimal : ℕ → List ℕ
decimal v = backwards (low_digits max_digits v)

pub read_digits-decimal : (v : ℕ) → v < 10 ^ 20 → read_digits 0 (decimal v) ≡ v
unfolding decimal
read_digits-decimal v h = read_digits-low_digits max_digits v h

-- `sdsull2str` of any 64-bit number, with a buffer of at least 21 bytes, returns without writing
-- outside the buffer, leaves the decimal digits and a null byte, and the digits read from the left
-- give the number.
pub ull2str-decimal :
    (s : List ℕ) (v : ℕ)
    → v < u64
    → 21 ≤ length s
    → Returns (ull2str s v) (λ r. Prints (decimal v) (length s) r × (read_digits 0 (decimal v) ≡ v))
unfolding ull2str
ull2str-decimal s v h room =
    Returns-bind (push_digits-Returns max_digits s 0 v (omega arith) (omega arith) (omega arith))
      λ r w.
        let short = length-low_digits max_digits 20 v (omega arith) (omega arith) in
        let t =
          terminate-Prints s r.0 (low_digits max_digits v) r.1 w.0 (omega (arith, w.1))
            (omega (arith, w.1)) in
        (t.0, t.1, (unfold decimal in t.2, read_digits-decimal v (omega arith)))

-- `long long`
abbrev pub IsLong : ℤ → Type 0
IsLong (pos n) = n < 2 ^ 63
IsLong (negsuc n) = n < 2 ^ 63

pub decimal-AllDigits : (v : ℕ) → AllDigits (decimal v)
unfolding decimal
decimal-AllDigits v =
    backwards-AllDigits (low_digits max_digits v) (low_digits-AllDigits max_digits v)

atol-AllDigits : (t : List ℕ) → AllDigits t → atol t ≡ pos (min (2 ^ 63 - 1) (read_digits 0 t))
unfolding atol skip_spaces read_sign is_space
atol-AllDigits [] h = unfold read_digits in refl
atol-AllDigits (c ∷ t) h = ground arith

atol-minus : (t : List ℕ) → atol (b'-' ∷ t) ≡ negate (min (2 ^ 63) (read_digits 0 t))
unfolding atol skip_spaces read_sign is_space
atol-minus t = refl

negate-suc : (n : ℕ) → negate (suc n) ≡ negsuc n
unfolding negate
negate-suc n = refl

-- The text of an integer
unfoldable pub signed : ℤ → List ℕ
signed (pos n) = decimal n
signed (negsuc n) = b'-' ∷ decimal (suc n)

pub atol-signed : (value : ℤ) → IsLong value → atol (signed value) ≡ value
unfolding signed
atol-signed (pos n) h =
    atol-AllDigits (decimal n) (decimal-AllDigits n)
    ∙ ap pos (omega (arith, read_digits-decimal n (omega arith)))
atol-signed (negsuc n) h =
    atol-minus (decimal (suc n))
    ∙ ap negate (omega (arith, read_digits-decimal (suc n) (omega arith)))
    ∙ negate-suc n

put_minus :
    (n : ℕ) (s : List ℕ) (i : ℕ)
    → i < length s
    → Returns (put_sign (negsuc n) s i) (λ r. Written s i (b'-' ∷ []) r.0 × (r.1 ≡ i + 1))
unfolding put_sign
put_minus n s i room =
    Returns-bind (write-Written s i (b'-' ∷ []) (omega arith))
      λ s' v. ((s', i + 1), refl, (v, refl))

put_nothing :
    (n : ℕ) (s : List ℕ) (i : ℕ) → Returns (put_sign (pos n) s i) (λ r. (r.0 ≡ s) × (r.1 ≡ i))
unfolding put_sign
put_nothing n s i = ((s, i), refl, (refl, refl))

-- `sdsll2str` of any long long, with a buffer of at least 21 bytes, returns without writing
-- outside the buffer, leaves the text of the number and a null byte, returns the length of the
-- text, and atol of that text is the number.
pub ll2str-signed :
    (s : List ℕ) (value : ℤ)
    → IsLong value
    → 21 ≤ length s
    → Returns
        (ll2str s value)
        (λ r. Prints (signed value) (length s) r × (atol (signed value) ≡ value))
unfolding ll2str magnitude
ll2str-signed s (pos n) h room =
    let z : n % u64 ≡ n = omega arith in
    rw z (
      Returns-bind (push_digits-Returns max_digits s 0 n (omega arith) (omega arith) (omega arith))
        λ r w.
          let short = length-low_digits max_digits 20 n (omega arith) (omega arith) in
          Returns-bind (put_nothing n r.0 r.1) λ q e.
            let t =
              terminate-Prints s q.0 (low_digits max_digits n) q.1 (rw e.0 w.0)
                (omega (arith, w.1, e.1)) (omega (arith, w.1, e.1)) in
            (t.0, t.1, (unfold signed decimal in t.2, atol-signed (pos n) h)))
ll2str-signed s (negsuc n) h room =
    let z : suc n % u64 ≡ suc n = omega arith in
    let low = low_digits max_digits (suc n) in
    let short = length-low_digits max_digits 19 (suc n) (omega arith) (omega arith) in
    rw z (
      Returns-bind
        (push_digits-Returns max_digits s 0 (suc n) (omega arith) (omega arith) (omega arith))
        λ r w. Returns-bind (put_minus n r.0 r.1 (omega (arith, w.1, (w.0).size))) λ q v.
          let t =
            terminate-Prints s q.0 (low ++ b'-' ∷ []) q.1
              (Written-trans s r.0 q.0 0 r.1 low (b'-' ∷ []) w.1 w.0 v.0)
              (omega (arith, w.1, v.1, length-append low (b'-' ∷ []))) (omega (arith, w.1, v.1)) in
          (
            t.0,
            t.1,
            (
              unfold signed decimal in rw (sym (backwards-snoc low b'-')) t.2,
              atol-signed (negsuc n) h,
            ),
          ))
