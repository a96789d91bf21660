-- ===== src/Dict/Search.antt =====
-- Searches of src/dict.c: `_dictKeyIndex`, `dictFind`, `dictFetchValue` and
-- `dictFindEntryRefByPtrAndHash`.
pub mod Find
pub mod Slot
use redis_counter.Base.{
  ℕ, zero, suc, ◌+◌, Bool, true, false, Option, none, some, List, [], ◌∷◌, ◌==◌, if◌then◌else◌, Run,
  ok, ◌>>=◌, at, bit_and,
}
use mathlib.Core.Option
use redis_counter.Dict.Types.{DictType, Entry, Bucket, Table, Dict, Ref, is_rehashing, dict_size}
use redis_counter.Dict.Chain.{locate}
use redis_counter.Dict.Size.{expand_if_needed}
use redis_counter.Dict.Rehash.{step_if_rehashing}

-- What `_dictKeyIndex` returns: an index, or -1 with the entry that `*existing` is set to.
pub data KeyIndex : Type 0 where
  free_at : ℕ → KeyIndex
  taken : Option Ref → KeyIndex

abbrev pub table_of {ℓ} : {K V : Type ℓ} → Bool → Dict K V → Table K V
table_of false d = d.ht0
table_of true d = d.ht1

abbrev pub ref : Bool → ℕ → ℕ → Ref
ref second index place = record { second = second; index = index; place = place }

module _ {ℓ} {K V : Type ℓ} (t : DictType K V) where
  -- One pass of the loop over the two tables: the index, and the place of a matching entry.
  unfoldable pub search_table : K → ℕ → Table K V → Run (ℕ × Option ℕ)
  search_table k hash h = do
    let idx = bit_and hash h.sizemask
    c ← at h.table idx
    ok (idx, locate t k c)

  -- The loop of `dictFind` and of `dictGenericDelete`.
  unfoldable pub probe : K → ℕ → Dict K V → Run (Option Ref)
  probe k hash d = do
    (i, p) ← search_table k hash d.ht0
    elim p [
      | some place ↦ ok (some (ref false i place))
      | none ↦
          if is_rehashing d
          then (do (j, q) ← search_table k hash d.ht1; ok (Option.map (ref true j) q))
          else ok none
    ]

  -- The loop of `_dictKeyIndex`.
  unfoldable pub free_slot : K → ℕ → Dict K V → Run KeyIndex
  free_slot k hash d = do
    (i, p) ← search_table k hash d.ht0
    elim p [
      | some place ↦ ok (taken (some (ref false i place)))
      | none ↦
          if is_rehashing d
          then (do
            (j, q) ← search_table k hash d.ht1
            ok (elim q [ none ↦ free_at j | some place ↦ taken (some (ref true j place)) ]))
          else ok (free_at i)
    ]

  unfoldable pub key_index : Bool → Dict K V → K → ℕ → Run (KeyIndex × Dict K V)
  key_index can_resize d k hash = do
    (done, d') ← expand_if_needed can_resize d
    elim done [ false ↦ ok (taken none, d') | true ↦ do r ← free_slot k hash d'; ok (r, d') ]

  unfoldable pub find : Dict K V → K → Run (Option Ref × Dict K V)
  find d k =
      if dict_size d == 0
      then ok (none, d)
      else do d' ← step_if_rehashing t d; r ← probe k (t.hash_function k) d'; ok (r, d')

module _ {ℓ} {K V : Type ℓ} where
  -- `*he`
  unfoldable pub load : Dict K V → Ref → Run (Entry K V)
  load d r = do c ← at (table_of r.second d).table r.index; at c r.place

module _ {ℓ} {K V : Type ℓ} (t : DictType K V) where
  unfoldable pub fetch_value : Dict K V → K → Run (Option V × Dict K V)
  fetch_value d k = do
    (r, d') ← find t d k
    elim r [ none ↦ ok (none, d') | some r ↦ do e ← load d' r; ok (some e.val, d') ]

  -- the place of the entry with this very pointer
  unfoldable pub locate_pointer : K → Bucket K V → Option ℕ
  locate_pointer k [] = none
  locate_pointer k (e ∷ c) =
      if t.same_pointer k e.key then some 0 else Option.map suc (locate_pointer k c)

  unfoldable pub find_by_pointer : Dict K V → K → ℕ → Run (Option Ref)
  find_by_pointer d k hash = if dict_size d == 0 then ok none else do
    let i = bit_and hash d.ht0.sizemask
    c ← at d.ht0.table i
    elim (locate_pointer k c) [
      | some place ↦ ok (some (ref false i place))
      | none ↦
          if is_rehashing d
          then (do
            let j = bit_and hash d.ht1.sizemask
            c' ← at d.ht1.table j
            ok (Option.map (ref true j) (locate_pointer k c')))
          else ok none
    ]
