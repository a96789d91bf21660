-- ===== src/Number/Digits.antt =====
-- The digits that `sdsull2str` writes, lowest first, and what they stand for.
use redis_counter.Base.{
  ℕ, zero, suc, ◌+◌, ◌-◌, ◌*◌, ◌/◌, ◌%◌, ◌^◌, ◌≤◌, ◌<◌, ◌≡◌, refl, arith, true, false, Bool-cases,
  inl, inr, List, [], ◌∷◌, ◌++◌, ◌==◌, length, Returns, Returns-bind,
}
use redis_counter.Sds.Buffer.{Written, write-Written, Written-trans}
use redis_counter.Number.{push_digits, read_digits}

-- At most `f` digits of `v`, lowest first
unfoldable pub low_digits : ℕ → ℕ → List ℕ
low_digits zero v = []
low_digits (suc f) v =
    (b'0' + v % 10) ∷ elim (v / 10 == 0) [ true ↦ [] | false ↦ low_digits f (v / 10) ]

unfoldable pub backwards : List ℕ → List ℕ
backwards [] = []
backwards (c ∷ p) = backwards p ++ c ∷ []

fuel_left : (f v : ℕ) → v < 10 ^ f → (v == 0) ≡ false → 0 < f
fuel_left zero v h n = ground arith
fuel_left (suc f) v h n = omega arith

pub length-low_digits : (f k v : ℕ) → 0 < k → v < 10 ^ k → length (low_digits f v) ≤ k
unfolding low_digits
length-low_digits zero k v pos h = omega arith
length-low_digits (suc f) zero v pos h = absurd (omega arith)
length-low_digits (suc f) (suc k) v pos h = elim (Bool-cases (v / 10 == 0)) [
  | inl y ↦ rw y (omega arith)
  | inr n ↦ rw n (
      let fits : v / 10 < 10 ^ k = omega arith in
      omega (arith, length-low_digits f k (v / 10) (fuel_left k (v / 10) fits n) fits))
]

abbrev pub AllDigits : List ℕ → Type 0
AllDigits [] = Unit
AllDigits (c ∷ p) = (b'0' ≤ c) × (c ≤ b'9') × AllDigits p

AllDigits-append : (p q : List ℕ) → AllDigits p → AllDigits q → AllDigits (p ++ q)
AllDigits-append [] q hp hq = hq
AllDigits-append (c ∷ p) q hp hq = (hp.0, hp.1, AllDigits-append p q hp.2 hq)

pub low_digits-AllDigits : (f v : ℕ) → AllDigits (low_digits f v)
unfolding low_digits
low_digits-AllDigits zero v = tt
low_digits-AllDigits (suc f) v = elim (Bool-cases (v / 10 == 0)) [
  | inl y ↦ rw y (omega arith, omega arith, tt)
  | inr n ↦ rw n (omega arith, omega arith, low_digits-AllDigits f (v / 10))
]

pub backwards-AllDigits : (p : List ℕ) → AllDigits p → AllDigits (backwards p)
unfolding backwards
backwards-AllDigits [] h = tt
backwards-AllDigits (c ∷ p) h =
    AllDigits-append (backwards p) (c ∷ []) (backwards-AllDigits p h.2) (h.0, h.1, tt)

read_digits-snoc :
    (acc c : ℕ) (p : List ℕ)
    → b'0' ≤ c
    → c ≤ b'9'
    → AllDigits p
    → read_digits acc (p ++ c ∷ []) ≡ read_digits acc p * 10 + (c - b'0')
unfolding read_digits
read_digits-snoc acc c [] lo hi h = ground arith
read_digits-snoc acc c (d ∷ p) lo hi h =
    ground (arith, read_digits-snoc (acc * 10 + (d - b'0')) c p lo hi h.2)

-- The digits, highest first, stand for the number.
pub read_digits-low_digits : (f v : ℕ) → v < 10 ^ f → read_digits 0 (backwards (low_digits f v)) ≡ v
unfolding low_digits backwards
read_digits-low_digits zero v h = unfold read_digits in omega arith
read_digits-low_digits (suc f) v h = elim (Bool-cases (v / 10 == 0)) [
  | inl y ↦ rw y (unfold read_digits in ground arith)
  | inr n ↦ rw n (
      omega (
        arith,
        read_digits-snoc 0 (b'0' + v % 10) (backwards (low_digits f (v / 10))) (omega arith)
            (omega arith)
            (backwards-AllDigits (low_digits f (v / 10)) (low_digits-AllDigits f (v / 10))),
        read_digits-low_digits f (v / 10) (omega arith),
      ))
]

-- What the loop leaves in the buffer, and where
pub push_digits-Returns :
    (f : ℕ) (s : List ℕ) (i v : ℕ)
    → v < 10 ^ f
    → 0 < f
    → i + f ≤ length s
    → Returns
        (push_digits f s i v)
        (λ r. Written s i (low_digits f v) r.0 × (r.1 ≡ i + length (low_digits f v)))
unfolding push_digits low_digits
push_digits-Returns zero s i v h pos room = absurd (omega arith)
push_digits-Returns (suc f) s i v h pos room =
    let c = b'0' + v % 10 in
    Returns-bind (write-Written s i (c ∷ []) (omega arith)) λ s' w.
      elim (Bool-cases (v / 10 == 0)) [
        | inl y ↦ rw y ((s', i + 1), refl, (w, omega arith))
        | inr n ↦ rw n (
            let r =
              push_digits-Returns f s' (i + 1) (v / 10) (omega arith)
                (fuel_left f (v / 10) (omega arith) n) (omega (arith, w.size)) in
            (
              r.0,
              r.1,
              (
                Written-trans s s' r.0.0 i (i + 1) (c ∷ []) (low_digits f (v / 10)) (omega arith) w
                    r.2.0,
                omega (arith, r.2.1),
              ),
            ))
      ]
