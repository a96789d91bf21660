-- ===== src/Dict/Update.antt =====
-- Writes of src/dict.c: `dictAddRaw`, `dictAdd`, `dictReplace`, `dictAddOrFind`,
-- `dictGenericDelete`, `dictDelete`, `dictUnlink`, `_dictClear` and `dictEmpty`.
pub mod Insert
pub mod Write
pub mod Clear
pub mod Replace
pub mod Delete
use redis_counter.Base.{
  ℕ, zero, suc, ◌+◌, Bool, true, false, ◌&&◌, Option, none, some, List, [], ◌∷◌, ◌++◌, ◌==◌,
  if◌then◌else◌, is_some, Run, ok, crash, ◌>>=◌, at, set, inc64, dec64,
}
use redis_counter.Dict.Types.{
  DictType, Entry, Bucket, Table, Dict, Ref, reset, is_rehashing, stored_key, stored_val,
}
use redis_counter.Dict.Chain.{assign, unlink}
use redis_counter.Dict.Rehash.{step_if_rehashing}
use redis_counter.Dict.Search.{KeyIndex, free_at, taken, table_of, ref, probe, key_index, load}

-- What `dictAddRaw` returns: the new entry, or `NULL` with `*existing`.
pub data Added : Type 0 where
  added : Ref → Added
  existing : Option Ref → Added

module _ {ℓ} {K V : Type ℓ} where
  abbrev pub with_table : Bool → Table K V → Dict K V → Dict K V
  with_table false h d = record d { ht0 = h }
  with_table true h d = record d { ht1 = h }

  -- `he->v.val = v`
  unfoldable pub store : Dict K V → Ref → V → Run (Dict K V)
  store d r v = do
    let h = table_of r.second d
    c ← at h.table r.index
    e ← at c r.place
    ok (with_table r.second (record h { table = set h.table r.index (assign r.place v c) }) d)

module _ {ℓ} {K V : Type ℓ} (t : DictType K V) (can_resize : Bool) where
  -- `junk` is what `zmalloc` left in the value field.
  unfoldable pub add_raw : V → Dict K V → K → Run (Added × Dict K V)
  add_raw junk d k = do
    d₁ ← step_if_rehashing t d
    (found, d₂) ← key_index t can_resize d₁ k (t.hash_function k)
    elim found [
      | taken r ↦ ok (existing r, d₂)
      | free_at i ↦ do
        let second = is_rehashing d₂
        let h = table_of second d₂
        c ← at h.table i
        let e : Entry K V = record { key = stored_key t k; val = junk }
        let h' : Table K V = record h { table = set h.table i (e ∷ c); used = inc64 h.used }
        ok (added (ref second i 0), with_table second h' d₂)
    ]

  unfoldable pub add : V → Dict K V → K → V → Run (Bool × Dict K V)
  add junk d k v = do
    (r, d') ← add_raw junk d k
    elim r [
      | existing _ ↦ ok (false, d')
      | added e ↦ do d'' ← store d' e (stored_val t v); ok (true, d'')
    ]

  -- The result is `true` where the source returns 1.
  unfoldable pub replace : V → Dict K V → K → V → Run (Bool × Dict K V)
  replace junk d k v = do
    (r, d') ← add_raw junk d k
    elim r [
      | added e ↦ do d'' ← store d' e (stored_val t v); ok (true, d'')
      | existing none ↦ crash
      | existing (some e) ↦ do d'' ← store d' e (stored_val t v); ok (false, d'')
    ]

  unfoldable pub add_or_find : V → Dict K V → K → Run (Option Ref × Dict K V)
  add_or_find junk d k = do
    (r, d') ← add_raw junk d k
    ok (elim r [ added e ↦ some e | existing e ↦ e ], d')

module _ {ℓ} {K V : Type ℓ} where
  -- `Unlink the element from the list`, and count it out
  unfoldable pub unlink_entry : Dict K V → Ref → Run (Entry K V × Dict K V)
  unlink_entry d r = do
    let h = table_of r.second d
    c ← at h.table r.index
    e ← at c r.place
    let h' : Table K V = record h {
      table = set h.table r.index (unlink r.place c);
      used = dec64 h.used;
    }
    ok (e, with_table r.second h' d)

module _ {ℓ} {K V : Type ℓ} (t : DictType K V) where
  -- The entry that is unlinked is returned; releasing it is left to the allocator.
  unfoldable pub generic_delete : Dict K V → K → Run (Option (Entry K V) × Dict K V)
  generic_delete d k = if d.ht0.used == 0 && d.ht1.used == 0 then ok (none, d) else do
    d' ← step_if_rehashing t d
    r ← probe t k (t.hash_function k) d'
    elim r [ none ↦ ok (none, d') | some r ↦ do (e, d'') ← unlink_entry d' r; ok (some e, d'') ]

  unfoldable pub delete : Dict K V → K → Run (Bool × Dict K V)
  delete d k = do (e, d') ← generic_delete d k; ok (is_some e, d')

module _ {ℓ} {K V : Type ℓ} where
  -- `used` after the entries of a chain are released
  unfoldable pub release : Bucket K V → ℕ → ℕ
  release [] used = used
  release (e ∷ c) used = release c (dec64 used)

  -- The loop of `_dictClear` with `n` buckets to go: the entries that it releases, in order.
  unfoldable pub clear_loop : ℕ → ℕ → List (Bucket K V) → ℕ → Run (Bucket K V)
  clear_loop zero i table used = ok []
  clear_loop (suc n) i table used = elim (used == 0) [
    | true ↦ ok []
    | false ↦ do c ← at table i; rest ← clear_loop n (i + 1) table (release c used); ok (c ++ rest)
  ]

  unfoldable pub clear : Table K V → Run (Bucket K V × Table K V)
  clear h = do freed ← clear_loop h.size 0 h.table h.used; ok (freed, reset)

  unfoldable pub empty : Dict K V → Run (Bucket K V × Dict K V)
  empty d = do
    (a, h0) ← clear d.ht0
    (b, h1) ← clear d.ht1
    ok (a ++ b, record { ht0 = h0; ht1 = h1; rehashidx = none; iterators = 0 })
