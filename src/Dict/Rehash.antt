-- ===== src/Dict/Rehash.antt =====
-- Incremental rehashing: `dictRehash` and `_dictRehashStep` of src/dict.c.
pub mod Move
pub mod Skip
pub mod Round
pub mod Loop
pub mod Finish
use redis_counter.Base.{
  ℕ, zero, suc, ◌+◌, ◌-◌, ◌*◌, ◌^◌, Bool, true, false, Option, none, some, List, [], ◌∷◌, ltb, ◌==◌,
  if◌then◌else◌, Run, ok, crash, ◌>>=◌, ◌>>◌, assert, at, set, u64, inc64, dec64, bit_and,
}
use redis_counter.Dict.Types.{DictType, Entry, Bucket, Table, Dict, reset, is_rehashing}

-- The inner loop over empty buckets, from index `i` with `v` visits left: the index that it stops
-- at, and the visits then left. No visits left means that `dictRehash` returns 1.
unfoldable pub skip_empty {ℓ} : {A : Type ℓ} → ℕ → List (List A) → ℕ → Run (ℕ × ℕ)
skip_empty zero table i = ok (i, 0)
skip_empty (suc v) table i =
    at table i >>= λ b. elim b [ [] ↦ skip_empty v table (i + 1) | _ ↦ ok (i, suc v) ]

module _ {ℓ} {K V : Type ℓ} (t : DictType K V) where
  -- The loop that moves a chain into the second table.
  unfoldable pub move_bucket : Bucket K V → Table K V → Table K V → Run (Table K V × Table K V)
  move_bucket [] h0 h1 = ok (h0, h1)
  move_bucket (e ∷ es) h0 h1 = do
    let h = bit_and (t.hash_function e.key) h1.sizemask
    c ← at h1.table h
    move_bucket es (record h0 { used = dec64 h0.used })
        (record h1 { table = set h1.table h (e ∷ c); used = inc64 h1.used })

  -- After the loop: the first table is dropped when it is empty. The result is `true` for 1.
  unfoldable pub finish_rehash : Dict K V → Run (Bool × Dict K V)
  finish_rehash d =
      if d.ht0.used == 0
      then ok (false, record d { ht0 = d.ht1; ht1 = reset; rehashidx = none })
      else ok (true, d)

  -- `(unsigned long)d->rehashidx`
  unfoldable pub rehash_index : Dict K V → ℕ
  rehash_index d = elim d.rehashidx [ none ↦ u64 - 1 | some i ↦ i ]

  -- One round of the loop; `inl` when it returns from the function.
  unfoldable pub rehash_round : ℕ → Dict K V → Run (ℕ × Dict K V)
  rehash_round visits d = do
    assert (ltb (rehash_index d) d.ht0.size)
    (i, left) ← skip_empty visits d.ht0.table (rehash_index d)
    if left == 0 then ok (0, record d { rehashidx = some i }) else do
      bucket ← at d.ht0.table i
      (h0, h1) ← move_bucket bucket d.ht0 d.ht1
      ok (
        left,
        record d {
          ht0 = record h0 { table = set h0.table i [] };
          ht1 = h1;
          rehashidx = some (i + 1);
        },
      )

  unfoldable pub rehash_loop : ℕ → ℕ → Dict K V → Run (Bool × Dict K V)
  rehash_loop zero visits d = finish_rehash d
  rehash_loop (suc n) visits d = elim (d.ht0.used == 0) [
    | true ↦ finish_rehash d
    | false ↦ rehash_round visits d >>= λ r. elim r.0 [
      | zero ↦ ok (true, r.1)
      | suc left ↦ rehash_loop n (suc left) r.1
    ]
  ]

  -- `int empty_visits = n*10`, of which the overflow is undefined
  unfoldable pub rehash : ℕ → Dict K V → Run (Bool × Dict K V)
  rehash n d =
      if ltb (n * 10) (2 ^ 31)
      then (if is_rehashing d then rehash_loop n (n * 10) d else ok (false, d))
      else crash

  unfoldable pub rehash_step : Dict K V → Run (Dict K V)
  rehash_step d = if d.iterators == 0 then (do (more, d') ← rehash 1 d; ok d') else ok d

  -- `if (dictIsRehashing(d)) _dictRehashStep(d);`, the way the operations call it
  unfoldable pub step_if_rehashing : Dict K V → Run (Dict K V)
  step_if_rehashing d = if is_rehashing d then rehash_step d else ok d
