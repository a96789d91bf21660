-- ===== src/Dict/Update/Clear.antt =====
-- `_dictClear` and `dictEmpty` release every entry once, and leave an empty dictionary.
use redis_counter.Base.{
  ℕ, zero, suc, ◌+◌, ◌<◌, ◌≡◌, ◌∙◌, sym, ap, refl, List, [], ◌∷◌, ◌++◌, arith, ok, at, length, drop,
  length-append, Bool-cases, inl, inr, ◌==◌, ==_iff, u64, dec64,
}
use mathlib.Core.List.{flatten}
use redis_counter.Dict.Types.{DictType, Bucket, Table, Dict, reset, create}
use redis_counter.Dict.Chain.{count}
use redis_counter.Dict.Model.{IsTable, IsDict}
use redis_counter.Dict.Placement.{reset-IsTable, chain_of-reset}
use redis_counter.Dict.Update.{release, clear_loop, clear, empty}

module _ {ℓ} {K V : Type ℓ} where
  release_lem : (c : Bucket K V) (n : ℕ) → length c + n < u64 → release c (length c + n) ≡ n
  unfolding release
  release_lem [] n h = omega arith
  release_lem (e ∷ c) n h =
      let step : dec64 (suc (length c) + n) ≡ length c + n = omega arith in
      rw step (release_lem c n (omega arith))

  flatten_unused : (bs : List (Bucket K V)) → length (flatten bs) ≡ 0 → flatten bs ≡ []
  flatten_unused bs h = nil_of_length (flatten bs) h
    where
      nil_of_length : (xs : Bucket K V) → length xs ≡ 0 → xs ≡ []
      nil_of_length [] e = refl
      nil_of_length (x ∷ xs) e = absurd (omega arith)

  -- The loop from index `i`, over the buckets `bs` that stand there.
  at_rest :
      (table bs : List (Bucket K V)) (b : Bucket K V) (i : ℕ)
      → drop i table ≡ b ∷ bs
      → (at table i ≡ ok b) × (drop (i + 1) table ≡ bs)
  at_rest [] bs b zero e = absurd (cc)
  at_rest [] bs b (suc i) e = absurd (cc)
  at_rest (c ∷ table) bs b zero e = (ground arith, ground arith)
  at_rest (c ∷ table) bs b (suc i) e =
      let rest = at_rest table bs b i e in (rest.0, rw (shift i) rest.1)
    where
      shift : (i : ℕ) → suc i + 1 ≡ suc (i + 1)
      shift i = omega arith

  clear_loop-flatten :
      (bs table : List (Bucket K V)) (i used : ℕ)
      → drop i table ≡ bs
      → used ≡ length (flatten bs)
      → used < u64
      → clear_loop (length bs) i table used ≡ ok (flatten bs)
  unfolding clear_loop flatten
  clear_loop-flatten [] table i used e u small = refl
  clear_loop-flatten (b ∷ bs) table i used e u small = elim (Bool-cases (used == 0)) [
    | inl y ↦
        rw (y, clear_loop) (ap ok (sym (flatten_unused (b ∷ bs) (sym u ∙ (==_iff used 0).0 y))))
    | inr n ↦
        let here = at_rest table bs b i e in
        let counted : used ≡ length b + length (flatten bs) = u ∙ length-append b (flatten bs) in
        let left : release b used ≡ length (flatten bs) =
          ap (release b) counted ∙ release_lem b (length (flatten bs)) (omega arith) in
        rw (n, clear_loop)
          (rw (
            here.0,
            left,
            clear_loop-flatten bs table (i + 1) (length (flatten bs)) here.1 refl (omega arith),
          ))
  ]

module _ {ℓ} {K V : Type ℓ} (t : DictType K V) where
  -- A new dictionary is well formed and has no key.
  pub create-IsDict : IsDict t create
  unfolding count
  create-IsDict = record {
    first = reset-IsTable t;
    second = reset-IsTable t;
    unique = λ q. rw (chain_of-reset t q) (omega arith);
    room = omega arith;
    idle = λ e. refl;
    busy = λ i e. absurd (cc);
    moved = λ i j e lt. refl;
  }

  clear-flatten :
      (h : Table K V) → IsTable t h → h.used < u64 → clear h ≡ ok (flatten h.table, reset)
  unfolding clear
  clear-flatten h w small =
      rw (← w.width, clear_loop-flatten h.table h.table 0 h.used refl w.filled small)

  -- `dictEmpty` on a well-formed dictionary releases every entry of both tables once, bucket by
  -- bucket, and leaves the dictionary as dictCreate makes it.
  pub empty-create :
      (d : Dict K V)
      → IsDict t d
      → empty d ≡ ok (flatten d.ht0.table ++ flatten d.ht1.table, create)
  unfolding empty
  empty-create d v = rw (
    clear-flatten d.ht0 v.first (omega (arith, v.room)),
    clear-flatten d.ht1 v.second (omega (arith, v.room)),
  )
