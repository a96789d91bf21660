-- ===== src/Dict/Size/Power.antt =====
-- `_dictNextPower` ends, in the least power of two that is large enough.
use native.Mathlib.Nat.{pow-suc}
use redis_counter.Base.{
  ℕ, zero, suc, ◌+◌, ◌*◌, ◌^◌, ◌≤◌, ◌<◌, ◌≡◌, refl, ap, arith, ok, Returns, leb, u64, ◌%◌, true,
  false, ◌⊎◌, inl, inr, Bool-cases,
}
use redis_counter.Dict.Types.{initial_size}
use redis_counter.Dict.Size.{long_max, double_until, next_power}

-- A power of two that holds `size` entries, and is no larger than it must be.
pub record IsLeastPower (size r : ℕ) : Type 0 where
  pub exponent : ℕ
  pub power : r ≡ 2 ^ exponent
  pub enough : size ≤ r
  pub at_least : initial_size ≤ r
  pub least : (r ≡ initial_size) ⊎ (r < size * 2)
  pub in_range : r ≤ 2 ^ 63

pow_pos : (f : ℕ) → 1 ≤ 2 ^ f
pow_pos zero = omega arith
pow_pos (suc f) = rw pow-suc (omega (arith, pow_pos f))

le-mul : (i p : ℕ) → 1 ≤ p → i ≤ i * p
le-mul i p h = grind arith

module _ (size : ℕ) (small : size ≤ 2 ^ 63) where
  found :
      (f i k : ℕ)
      → i ≡ 2 ^ k
      → initial_size ≤ i
      → (i ≡ initial_size) ⊎ (i < size * 2)
      → i * 2 ^ f ≡ 2 ^ 63
      → leb size i ≡ true
      → IsLeastPower size i
  found f i k pow low least span y = record {
    exponent = k;
    power = pow;
    enough = ground arith;
    at_least = low;
    least = least;
    in_range = omega (arith, le-mul i (2 ^ f) (pow_pos f));
  }

  wrap : (i : ℕ) → leb size i ≡ false → i * 2 % u64 ≡ i * 2
  wrap i n = ground arith

  doubled : (i : ℕ) → leb size i ≡ false → (i * 2 ≡ initial_size) ⊎ (i * 2 < size * 2)
  doubled i n = inr (ground arith)

  span_suc : (i g : ℕ) → i * 2 ^ suc g ≡ 2 ^ 63 → i * 2 * 2 ^ g ≡ 2 ^ 63
  span_suc i g e = omega (arith, ap (λ (p : ℕ). i * p) (pow-suc 2 g))

  double_until_hit : (f i : ℕ) → leb size i ≡ true → double_until (suc f) i size ≡ ok i
  unfolding double_until
  double_until_hit f i y = rw (y, double_until)

  double_until_miss :
      (f i : ℕ) → leb size i ≡ false → double_until (suc f) i size ≡ double_until f (i * 2) size
  unfolding double_until
  double_until_miss f i n = rw (n, double_until) (ap (λ j. double_until f j size) (wrap i n))

  double_until-IsLeastPower :
      (f i k : ℕ)
      → i ≡ 2 ^ k
      → initial_size ≤ i
      → (i ≡ initial_size) ⊎ (i < size * 2)
      → i * 2 ^ f ≡ 2 ^ 63
      → Returns (double_until (suc f) i size) (IsLeastPower size)
  double_until-IsLeastPower zero i k pow low least span =
      let y : leb size i ≡ true = ground arith in
      (i, double_until_hit 0 i y, found 0 i k pow low least span y)
  double_until-IsLeastPower (suc f) i k pow low least span = elim (Bool-cases (leb size i)) [
    | inl y ↦ (i, double_until_hit (suc f) i y, found (suc f) i k pow low least span y)
    | inr n ↦ rw (double_until_miss (suc f) i n) (
        double_until-IsLeastPower f (i * 2) (suc k) (rw pow-suc (ap (λ (p : ℕ). p * 2) pow))
          (omega arith) (doubled i n) (span_suc i f span))
  ]

  -- `_dictNextPower` ends for every size up to 2 ^ 63, without wrapping around, in a power of two
  -- that is at least the size and 4, and is 4 or less than twice the size.
  pub next_power-IsLeastPower : Returns (next_power size) (IsLeastPower size)
  unfolding next_power
  next_power-IsLeastPower = elim (Bool-cases (leb long_max size)) [
    | inl y ↦ (
      long_max + 1,
      rw y,
      record {
        exponent = 63;
        power = refl;
        enough = ground arith;
        at_least = omega arith;
        least = inr (ground arith);
        in_range = omega arith;
      },
    )
    | inr n ↦ rw n (double_until-IsLeastPower 61 initial_size 2 refl (omega arith) (inl refl) refl)
  ]
