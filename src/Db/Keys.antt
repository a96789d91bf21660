-- ===== src/Db/Keys.antt =====
-- The keys of the keyspace: `dictSdsKeyCompare` compares texts, and keys that it finds equal have one
-- hash.
use mathlib.Core.HLevel.{Σ_prop_path}
use redis_counter.Base.{
  ℕ, ◌≡◌, refl, sym, ltb, ltb→lt, ◌%◌, ◌^◌, zero, suc, take, ◌∙◌, ap, ap₂, ◌↔◌, arith, Bool, true,
  Bool-cases, inl, inr, List, [], ◌∷◌, ◌==◌, ==_iff, length,
}
use redis_counter.Dict.Types.{matches, stored_key, IsKeyed}
use redis_counter.Db.{Key, same_bytes, sds_key_compare, db_dict_type}

same_bytes_sound : (p q : List ℕ) → length p ≡ length q → same_bytes p q ≡ true → p ≡ q
unfolding same_bytes
same_bytes_sound [] [] l h = refl
same_bytes_sound [] (d ∷ q) l h = absurd (omega arith)
same_bytes_sound (c ∷ p) [] l h = absurd (omega arith)
same_bytes_sound (c ∷ p) (d ∷ q) l h =
    let e : c ≡ d = ground arith in
    let t : same_bytes p q ≡ true = ground arith in ap₂ ◌∷◌ e (same_bytes_sound p q (omega arith) t)

same_bytes_refl : (p : List ℕ) → same_bytes p p ≡ true
unfolding same_bytes
same_bytes_refl [] = refl
same_bytes_refl (c ∷ p) = ground (arith, same_bytes_refl p)

short_prop : (n : ℕ) → IsProp (ltb n (2 ^ 31) ≡ true)
short_prop n = hlevel

-- Keys with one text are one key.
pub key_path : (p q : Key) → p.0 ≡ q.0 → p ≡ q
key_path p q e = Σ_prop_path (λ (k : List ℕ). short_prop (length k)) {u = p} {v = q} e

int_length : (p : Key) → length p.0 % 2 ^ 32 ≡ length p.0
int_length p = omega (arith, ltb→lt (length p.0) (2 ^ 31) p.1)

take_whole : (p : List ℕ) (n : ℕ) → n ≡ length p → take n p ≡ p
take_whole [] zero e = refl
take_whole [] (suc n) e = absurd (omega arith)
take_whole (c ∷ p) zero e = absurd (omega arith)
take_whole (c ∷ p) (suc n) e = ap (λ t. c ∷ t) (take_whole p n (omega arith))

pub sds_key_compare_iff : (p q : Key) → (sds_key_compare p q ≡ true) ↔ (p ≡ q)
unfolding sds_key_compare
sds_key_compare_iff p q =
    rw (int_length p, int_length q, take_whole p.0 (length p.0) refl)
      (
        λ h. elim (Bool-cases (length p.0 == length q.0)) [
          | inl y ↦
              let l = (==_iff (length p.0) (length q.0)).0 y in
              let w = take_whole q.0 (length p.0) l in
              key_path p q (same_bytes_sound p.0 q.0 l (ap (same_bytes p.0) (sym w) ∙ ground arith))
          | inr n ↦ ground arith
        ],
        λ e. rw e (rw (take_whole q.0 (length q.0) refl) (ground (arith, same_bytes_refl q.0))),
      )

-- Keys at one address have one text.
module _ (seed : List ℕ) (same : Key → Key → Bool)
    (sound : (p q : Key) → same p q ≡ true → p ≡ q) where
  pub matches_iff : (p q : Key) → (matches (db_dict_type seed same) p q ≡ true) ↔ (p ≡ q)
  unfolding matches db_dict_type
  matches_iff p q = (
    λ h. elim (Bool-cases (same p q)) [
      | inl y ↦ sound p q y
      | inr n ↦ (sds_key_compare_iff p q).0 (ground arith)
    ],
    λ e. ground (arith, (sds_key_compare_iff p q).1 e),
  )

  pub db_dict_type-IsKeyed : IsKeyed (db_dict_type seed same)
  db_dict_type-IsKeyed = record {
    match_refl = λ a. (matches_iff a a).1 refl;
    match_symm = λ a b h. (matches_iff b a).1 (sym ((matches_iff a b).0 h));
    match_trans = λ a b c h k. (matches_iff a c).1 ((matches_iff a b).0 h ∙ (matches_iff b c).0 k);
    match-hash = λ a b h. ap (db_dict_type seed same).hash_function ((matches_iff a b).0 h);
    match-dup = λ a. (matches_iff _ a).1 (unfold stored_key db_dict_type in refl);
  }
