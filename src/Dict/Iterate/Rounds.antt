-- ===== src/Dict/Iterate/Rounds.antt =====
-- The rounds of `dictNext` of src/dict.c that look for a bucket with entries.
use mathlib.Core.List.{flatten, append-nil}
use redis_counter.Base.{
  ℕ, zero, suc, ◌+◌, ◌-◌, ◌≤◌, ◌<◌, ◌≡◌, refl, sym, ap, arith, Bool, true, false, Option, some,
  ◌++◌, leb, Bool-cases, inl, inr, Run, ◌>>=◌, Returns, bind_assoc,
}
use redis_counter.Dict.Types.{Dict, Ref, is_rehashing}
use redis_counter.Dict.Search.{table_of}
use redis_counter.Dict.Iterate.{Iterator, chain_head, next_bucket, next_index, deliver, dict_next}
use redis_counter.Dict.Iterate.Visit.{
  drop_all, tagged, HasTables, behind_table, from_bucket, between, Delivers, bucket-Delivers,
  dict_next-between,
}

module _ {ℓ} {K V : Type ℓ} where
  -- How often `dictNext` may choose a bucket from a table on
  abbrev pub buckets_left : Dict K V → Bool → ℕ → ℕ
  buckets_left d true i = d.ht1.size - i
  buckets_left d false i = (d.ht0.size - i) + d.ht1.size + 1

  pub from_bucket-end :
      (d : Dict K V) (s : Bool) (i : ℕ)
      → HasTables d
      → (table_of s d).size ≤ i
      → from_bucket d s i ≡ behind_table d s
  unfolding flatten
  from_bucket-end d s i w h =
      ap (λ b. flatten b ++ behind_table d s)
        (drop_all (table_of s d).table i (omega (arith, w.width s)))

  fewer :
      (d : Dict K V) (s : Bool) (i n : ℕ)
      → i < (table_of s d).size
      → buckets_left d s i < suc n
      → buckets_left d s (suc i) < n
  fewer d true i n h few = omega arith
  fewer d false i n h few = omega arith

  -- What the later rounds do, with fuel `n`
  abbrev pub Later : Bool → ℕ → ℕ × ℕ → ℕ → Dict K V → Type ℓ
  Later safe print addresses n d =
      (s : Bool) (k : ℕ) (next : Option Ref)
      → buckets_left d s (suc k) < n
      → Returns (dict_next addresses n d (between safe print next s (some k)))
          (Delivers safe print d (from_bucket d s (suc k)))

  -- A bucket has been chosen.
  chosen :
      {Q : Option Ref × Dict K V × Iterator → Type ℓ}
      (again : Dict K V → Iterator → Run (Option Ref × Dict K V × Iterator)) (d : Dict K V)
      (s : Bool) (i : ℕ) (f : Option Ref → Iterator)
      → Returns (chain_head d s i >>= λ e. deliver again (true, d, f e)) Q
      → Returns ((chain_head d s i >>= λ e. tagged (f e)) >>= λ r. deliver again (r.0, d, r.1)) Q
  chosen again d s i f r =
      rw (bind_assoc (chain_head d s i) (λ e. tagged (f e)) (λ r. deliver again (r.0, d, r.1))) r

  -- A bucket of the same table
  same_table :
      (safe : Bool) (print : ℕ) (addresses : ℕ × ℕ) (n : ℕ) (d : Dict K V) (s : Bool) (o : Option ℕ)
      (next : Option Ref)
      → HasTables d
      → Later safe print addresses n d
      → buckets_left d s (suc (next_index o)) < n
      → leb (table_of s d).size (next_index o) ≡ false
      → Returns
          (next_bucket d (between safe print next s o) >>= λ r.
            deliver (dict_next addresses n) (r.0, d, r.1))
          (Delivers safe print d (from_bucket d s (next_index o)))
  unfolding next_bucket
  same_table safe print addresses n d s o next w later few n' =
      let i = next_index o in
      let again = dict_next addresses n in
      rw n' (
        chosen again d s i (λ e. record (between safe print next s o) { index = some i; entry = e })
          (bucket-Delivers safe print again d s s o i next w (ground arith) (later s i next few)))

  -- A table that is used up
  end_of_table :
      (safe : Bool) (print : ℕ) (addresses : ℕ × ℕ) (n : ℕ) (d : Dict K V) (s : Bool) (o : Option ℕ)
      (next : Option Ref)
      → HasTables d
      → Later safe print addresses n d
      → buckets_left d s (next_index o) < suc n
      → leb (table_of s d).size (next_index o) ≡ true
      → Returns
          (next_bucket d (between safe print next s o) >>= λ r.
            deliver (dict_next addresses n) (r.0, d, r.1))
          (Delivers safe print d (from_bucket d s (next_index o)))
  unfolding next_bucket deliver
  end_of_table safe print addresses n d true o next w later few y =
      let i = next_index o in
      let e = from_bucket-end d true i w (ground arith) in
      elim (Bool-cases (is_rehashing d)) [
        | inl b ↦ rw (y, b, e) (_, refl, (refl, refl, (i, refl, refl, refl)))
        | inr b ↦ rw (y, b, e) (_, refl, (refl, refl, (i, refl, refl, refl)))
      ]
  end_of_table safe print addresses n d false o next w later few y =
      let i = next_index o in
      let e = from_bucket-end d false i w (ground arith) in
      elim (Bool-cases (is_rehashing d)) [
        | inl busy ↦
            let again = dict_next addresses n in
            let all : flatten d.ht1.table ≡ from_bucket d true 0 =
              sym (append-nil (flatten d.ht1.table)) in
            rw (e, y, busy, all)
              (chosen again d true 0
                (λ e. record (between safe print next false o) {
                  index = some 0;
                  second = true;
                  entry = e;
                })
                (bucket-Delivers safe print again d true false o 0 next w (w.busy busy)
                  (later true 0 next (omega (arith, w.busy busy)))))
        | inr idle ↦ rw (y, e, idle) (_, refl, (refl, refl, (i, refl, refl, refl)))
      ]

  pub choose-Delivers :
      (safe : Bool) (print : ℕ) (addresses : ℕ × ℕ) (n : ℕ) (d : Dict K V) (s : Bool) (o : Option ℕ)
      (next : Option Ref)
      → HasTables d
      → Later safe print addresses n d
      → buckets_left d s (next_index o) < suc n
      → Returns
          (next_bucket d (between safe print next s o) >>= λ r.
            deliver (dict_next addresses n) (r.0, d, r.1))
          (Delivers safe print d (from_bucket d s (next_index o)))
  choose-Delivers safe print addresses n d s o next w later few =
      elim (Bool-cases (leb (table_of s d).size (next_index o))) [
        | inl y ↦ end_of_table safe print addresses n d s o next w later few y
        | inr m ↦
            same_table safe print addresses n d s o next w later
              (fewer d s (next_index o) n (ground arith) few) m
      ]

  -- The rounds from a bucket on
  pub search-Delivers :
      (safe : Bool) (print : ℕ) (addresses : ℕ × ℕ) (n : ℕ) (d : Dict K V)
      → HasTables d
      → Later safe print addresses n d
  unfolding next_index
  search-Delivers safe print addresses zero d w s k next few = absurd (omega arith)
  search-Delivers safe print addresses (suc n) d w s k next few =
      rw (dict_next-between safe print addresses n d s k next) (
        choose-Delivers safe print addresses n d s (some k) next w
          (search-Delivers safe print addresses n d w) few)
