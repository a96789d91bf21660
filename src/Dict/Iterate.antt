-- ===== src/Dict/Iterate.antt =====
-- Iterators of src/dict.c: `dictGetIterator`, `dictNext`, `dictReleaseIterator` and the fingerprint.
pub mod Visit
pub mod Rounds
pub mod Whole
use redis_counter.Base.{
  ℕ, zero, suc, ◌+◌, ◌-◌, ◌/◌, ◌^◌, Bool, true, false, not, ◌&&◌, Option, none, some, List, [], ◌∷◌,
  ltb, leb, ◌==◌, if◌then◌else◌, length, Run, ok, out_of_fuel, ◌>>=◌, ◌>>◌, assert, at, u64, add64,
  inc64, dec64, shl64, not64, is_some, bit_xor,
}
use redis_counter.Dict.Types.{Entry, Bucket, Table, Dict, Ref, is_rehashing}
use redis_counter.Dict.Search.{table_of, ref, load}

-- `index` is none for -1, and `second` the table 1.
pub record Iterator : Type 0 where
  pub index : Option ℕ
  pub second : Bool
  pub safe : Bool
  pub entry : Option Ref
  pub next_entry : Option Ref
  pub fingerprint : ℕ

-- `junk` is the field that is not written.
unfoldable pub get_iterator_with : ℕ → Bool → Iterator
get_iterator_with junk safe = record {
  index = none;
  second = false;
  safe = safe;
  entry = none;
  next_entry = none;
  fingerprint = junk;
}

-- `a >> k` of a `long long`
unfoldable pub sar64 : ℕ → ℕ → ℕ
sar64 a k = if ltb a (2 ^ 63) then a / 2 ^ k else a / 2 ^ k + (u64 - 2 ^ (64 - k))

unfoldable pub hash_step : ℕ → ℕ → ℕ
hash_step hash n =
    let h = add64 hash n in
    let a = add64 (not64 h) (shl64 h 21) in
    let b = bit_xor a (sar64 a 24) in
    let c = add64 (add64 b (shl64 b 3)) (shl64 b 8) in
    let e = bit_xor c (sar64 c 14) in
    let f = add64 (add64 e (shl64 e 2)) (shl64 e 4) in
    let g = bit_xor f (sar64 f 28) in add64 g (shl64 g 31)

unfoldable pub next_index : Option ℕ → ℕ
next_index none = 0
next_index (some i) = suc i

unfoldable pub hash_integers : ℕ → List ℕ → ℕ
hash_integers hash [] = hash
hash_integers hash (n ∷ ns) = hash_integers (hash_step hash n) ns

module _ {ℓ} {K V : Type ℓ} where
  -- `addresses` are those of the two arrays of buckets.
  unfoldable pub dict_fingerprint : ℕ × ℕ → Dict K V → ℕ
  dict_fingerprint addresses d =
      hash_integers 0
        (addresses.0 ∷ d.ht0.size ∷ d.ht0.used ∷ addresses.1 ∷ d.ht1.size ∷ d.ht1.used ∷ [])

  -- `ht->table[iter->index]`
  unfoldable pub chain_head : Dict K V → Bool → ℕ → Run (Option Ref)
  chain_head d second i = do
    c ← at (table_of second d).table i
    ok (elim c [ [] ↦ none | e ∷ es ↦ some (ref second i 0) ])

  -- `iter->entry->next`
  unfoldable pub chain_next : Dict K V → Ref → Run (Option Ref)
  chain_next d r = do
    c ← at (table_of r.second d).table r.index
    ok (if ltb (suc r.place) (length c) then some (ref r.second r.index (suc r.place)) else none)

  -- What the first call does to the dictionary or to the fingerprint
  unfoldable pub begin : ℕ × ℕ → Dict K V → Iterator → Dict K V × Iterator
  begin addresses d it = elim it.index [
    | some i ↦ (d, it)
    | none ↦
        if it.second
        then (d, it)
        else if it.safe
        then (record d { iterators = inc64 d.iterators }, it)
        else (d, record it { fingerprint = dict_fingerprint addresses d })
  ]

  -- The branch of `dictNext` where `iter->entry` is `NULL`; false at the `break`
  unfoldable pub next_bucket : Dict K V → Iterator → Run (Bool × Iterator)
  next_bucket d it =
      let i = next_index it.index in
      if leb (table_of it.second d).size i
      then (if is_rehashing d && not it.second
          then (do
            e ← chain_head d true 0
            ok (true, record it { index = some 0; second = true; entry = e }))
          else ok (false, record it { index = some i }))
      else (do e ← chain_head d it.second i; ok (true, record it { index = some i; entry = e }))

  unfoldable pub follow : ℕ × ℕ → Dict K V → Iterator → Run (Bool × Dict K V × Iterator)
  follow addresses d it = elim it.entry [
    | none ↦ let b = begin addresses d it in next_bucket b.0 b.1 >>= λ r. ok (r.0, b.0, r.1)
    | some e ↦ ok (true, d, record it { entry = it.next_entry })
  ]

  -- The end of a round of `dictNext`: the entry is returned, or `again` is the next round.
  unfoldable pub deliver :
      (Dict K V → Iterator → Run (Option Ref × Dict K V × Iterator))
      → Bool × Dict K V × Iterator
      → Run (Option Ref × Dict K V × Iterator)
  deliver again (false, d, it) = ok (none, d, it)
  deliver again (true, d, it) = elim it.entry [
    | some e ↦ do n ← chain_next d e; ok (some e, d, record it { next_entry = n })
    | none ↦ again d it
  ]

  unfoldable pub dict_next :
      ℕ × ℕ → ℕ → Dict K V → Iterator → Run (Option Ref × Dict K V × Iterator)
  dict_next addresses zero d it = out_of_fuel
  dict_next addresses (suc fuel) d it = do
    r ← follow addresses d it
    deliver (dict_next addresses fuel) r

  unfoldable pub release_iterator : ℕ × ℕ → Dict K V → Iterator → Run (Dict K V)
  release_iterator addresses d it =
      if not (is_some it.index) && not it.second
      then ok d
      else if it.safe
      then ok (record d { iterators = dec64 d.iterators })
      else (assert (it.fingerprint == dict_fingerprint addresses d) >> ok d)

  -- `while((de = dictNext(di)) != NULL)`, with the entries that it visits
  unfoldable pub visit_all :
      ℕ × ℕ → ℕ → ℕ → Dict K V → Iterator → Run (Bucket K V × Dict K V × Iterator)
  visit_all addresses zero fuel d it = out_of_fuel
  visit_all addresses (suc n) fuel d it = dict_next addresses fuel d it >>= λ r. elim r.0 [
    | none ↦ ok ([], r.1, r.2)
    | some e ↦ do
      entry ← load r.1 e
      rest ← visit_all addresses n fuel r.1 r.2
      ok (entry ∷ rest.0, rest.1, rest.2)
  ]

  unfoldable pub close_visit :
      ℕ × ℕ → Bucket K V × Dict K V × Iterator → Run (Bucket K V × Dict K V)
  close_visit addresses (visited, d, it) = do d' ← release_iterator addresses d it; ok (visited, d')

  -- A loop over an iterator from `dictGetIterator` or `dictGetSafeIterator` to its release
  unfoldable pub iterate : ℕ × ℕ → ℕ → ℕ → ℕ → Bool → Dict K V → Run (Bucket K V × Dict K V)
  iterate addresses junk n fuel safe d = do
    r ← visit_all addresses n fuel d (get_iterator_with junk safe)
    close_visit addresses r
