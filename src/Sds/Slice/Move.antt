-- ===== src/Sds/Slice/Move.antt =====
-- Moving the bytes of a string down and cutting it: the last steps of `sdsrange` and `sdstrim` of
-- src/sds.c.
use redis_counter.Base.{
  ℕ, zero, suc, ◌+◌, ◌-◌, ◌≤◌, ◌<◌, ◌≡◌, refl, sym, ◌∙◌, ap, arith, List, [], ◌∷◌, length, take,
  drop, Returns, Returns-bind, get_or,
}
use redis_counter.Sds.Append.{SameRoom, set_len-SameRoom, set_len-buf, kind-set_len}
use redis_counter.Sds.Buffer.{write-Written, read-Returns, length-take, take-take, take-append_left}
use redis_counter.Sds.Room.{IsSds, text}
use redis_counter.Sds.Slice.{move, cut}
use redis_counter.Sds.{Sds, set_len}

pub length-drop : (n : ℕ) (xs : List ℕ) → length (drop n xs) ≡ length xs - n
length-drop zero xs = omega arith
length-drop (suc n) [] = omega arith
length-drop (suc n) (x ∷ xs) = length-drop n xs ∙ omega arith

pub take_all : (n : ℕ) (xs : List ℕ) → length xs ≤ n → take n xs ≡ xs
take_all zero [] h = refl
take_all zero (x ∷ xs) h = absurd (omega arith)
take_all (suc n) [] h = refl
take_all (suc n) (x ∷ xs) h = ap (λ t. x ∷ t) (take_all n xs (omega arith))

pub take-drop-take :
    (n i m : ℕ) (xs : List ℕ) → i + n ≤ m → take n (drop i (take m xs)) ≡ take n (drop i xs)
take-drop-take n zero m xs h = take-take n m xs (omega arith)
take-drop-take n (suc i) zero xs h = absurd (omega arith)
take-drop-take n (suc i) (suc m) [] h = refl
take-drop-take n (suc i) (suc m) (x ∷ xs) h = take-drop-take n i m xs (omega arith)

pub get_or-take : (n i : ℕ) (xs : List ℕ) → i < n → get_or (take n xs) i 0 ≡ get_or xs i 0
get_or-take zero i xs h = absurd (omega arith)
get_or-take (suc n) i [] h = refl
get_or-take (suc n) zero (x ∷ xs) h = refl
get_or-take (suc n) (suc i) (x ∷ xs) h = get_or-take n i xs (omega arith)

-- The buffer keeps its size, and starts with the `n` bytes from `start`.
pub record MovedDown (buf : List ℕ) (start n : ℕ) (b : List ℕ) : Type 0 where
  pub size : length b ≡ length buf
  pub same : take n b ≡ take n (drop start buf)

pub move-MovedDown :
    (buf : List ℕ) (start n : ℕ)
    → start + n ≤ length buf
    → Returns (move buf start n) (MovedDown buf start n)
unfolding move
move-MovedDown buf start n h =
    let d = length-drop start buf in
    Returns-bind (read-Returns n (drop start buf) (omega (arith, d))) λ t e.
      let l = ap length e ∙ length-take n (drop start buf) (omega (arith, d)) in
      let m = write-Written buf 0 t (omega (arith, l)) in
      let b = m.0 in
      let w = m.2 in
      let z : n ≡ 0 + length t = omega (arith, l) in
      (b, m.1, record { size = w.size; same = ap (λ n. take n b) z ∙ w.text ∙ e })

-- A well-formed string in the same allocation, whose text is `t`
pub record Cut (s : Sds) (t : List ℕ) (r : Sds) : Type 0 where
  pub valid : IsSds r
  pub same_room : SameRoom s r
  pub same_text : text r ≡ t

pub cut-Cut :
    (s : Sds) (b : List ℕ) (n : ℕ)
    → IsSds s
    → n ≤ s.len
    → length b ≡ length s.buf
    → Returns (cut s b n) (λ r. Cut s (take n b) r × (r.len ≡ n))
unfolding cut
cut-Cut s b n v h e =
    Returns-bind (write-Written b n (0 ∷ []) (omega (arith, e, v.fits, v.size))) λ b' w.
      let k =
        kind-set_len s.kind s.len s.alloc n s.buf b' v (omega (arith, v.fits, h)) (w.size ∙ e) in
      let l = length-take n b (omega (arith, e, v.fits, v.size, h)) in
      (
        _,
        refl,
        (
          record {
            valid = k.0;
            same_room = set_len-SameRoom n s b';
            same_text =
                ap (λ c. take (set_len n (record s { buf = b' })).len c)
                  (set_len-buf n (record s { buf = b' }))
                ∙ ap (λ l. take l b') k.1
                ∙ sym (take-take n (n + 1) b' (omega arith))
                ∙ ap (take n) w.text
                ∙ take-append_left n (take n b) (0 ∷ []) (omega (arith, l))
                ∙ take-take n n b (omega arith);
          },
          k.1,
        ),
      )
