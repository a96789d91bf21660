-- ===== src/Dict/Update/Delete.antt =====
-- `dictGenericDelete` and `dictDelete`: the entry of the key is unlinked, and no other.
use redis_counter.Base.{
  ℕ, ◌+◌, ◌≤◌, ◌≡◌, ◌∙◌, sym, refl, arith, length, set, length-get_or-le-flatten, Returns,
  Returns-bind, ◌⊎◌, inl, inr, Bool, Bool-cases, true, false, ◌&&◌, Option, none, some, ◌==◌,
  is_some, dec64, ◌≢◌,
}
use mathlib.Core.Option.{or_else}
use redis_counter.Dict.Types.{DictType, Entry, Bucket, Table, Dict, matches, IsKeyed}
use redis_counter.Dict.Chain.{locate, count, unlink}
use redis_counter.Dict.Chain.Counting.{
  lookup-eq-none, at-locate, length-unlink, lookup-unlink, count-unlink, count_congr, count_pos,
}
use redis_counter.Dict.Model.{home, chain_of, view, IsTable, IsDict}
use redis_counter.Dict.Placement.{at-home}
use redis_counter.Dict.Rechain.{Rewrites, rewrite_first, rewrite_second}
use redis_counter.Dict.Rehash.Round.{Keeps, Keeps-refl}
use redis_counter.Dict.Rehash.Loop.{step_if_rehashing-Keeps}
use redis_counter.Dict.Search.{table_of, ref}
use redis_counter.Dict.Search.Find.{
  Found, probe-Probed, view-Absent, Absent-of_unused, size_of_used,
}
use redis_counter.Dict.Update.{with_table, unlink_entry, generic_delete, delete}
use redis_counter.Dict.Update.Write.{Writes, found_later}
use redis_counter.Dict.Update.Replace.{Writes-Keeps}

module _ {ℓ} {K V : Type ℓ} (t : DictType K V) (keyed : IsKeyed t) (k : K) where
  unlink-Rewrites :
      (c : Bucket K V) (p : ℕ)
      → count t k c ≤ 1
      → locate t k c ≡ some p
      → Rewrites t k c (unlink p c) none 0
  unlink-Rewrites c p single e = record {
    reads = λ q once. lookup-unlink keyed q k p c e once;
    counts = λ q. elim (Bool-cases (matches t q k)) [
      | inl y ↦ rw y (gone q y)
      | inr n ↦ rw n (stays q n)
    ];
  }
    where
      gone : (q : K) → matches t q k ≡ true → count t q (unlink p c) ≡ 0
      gone q y =
          let step : count t q (unlink p c) + 1 ≡ count t q c =
            rw y at (count-unlink keyed q k p c e) in
          omega (arith, count_congr keyed q k c y)

      stays : (q : K) → matches t q k ≡ false → count t q (unlink p c) ≡ count t q c
      stays q n =
          let step : count t q (unlink p c) + 0 ≡ count t q c =
            rw n at (count-unlink keyed q k p c e) in
          omega arith

  used_pos : (h : Table K V) → IsTable t h → 1 ≤ length (chain_of t h k) → 1 ≤ h.used
  unfolding chain_of
  used_pos h w pos = omega (arith, w.filled, length-get_or-le-flatten h.table (home t h k))

  -- the end of `dictGenericDelete`
  abbrev removed : Dict K V → Bool → ℕ → ℕ → Bucket K V → Dict K V
  removed d second i p c =
      let h = table_of second d in
      with_table second (record h { table = set h.table i (unlink p c); used = dec64 h.used }) d

  remove_at :
      (d : Dict K V) (second : Bool) (i p : ℕ)
      → IsDict t d
      → Found t d k (ref second i p)
      → Writes t d k none 0 1
          (removed d second (home t (table_of second d) k) p (chain_of t (table_of second d) k))
  remove_at d false i p v f =
      let c = chain_of t d.ht0 k in
      let (e, run, same, val, lt) = at-locate t k c p f.place in
      let pos : 1 ≤ count t k c = count_pos keyed k c p f.place in
      let filled : 1 ≤ d.ht0.used = used_pos d.ht0 v.first (omega arith) in
      let new =
        rewrite_first t keyed d v k (unlink p c) (dec64 d.ht0.used) 0 none (omega arith)
          (unlink-Rewrites c p (omega (arith, v.unique k)) f.place) f.size
          (omega (arith, length-unlink t p c lt, v.room)) (omega (arith, v.room))
          (omega (arith, v.unique k)) (found_later t d k p v f.place) in
      record {
        valid = new.valid;
        reads = new.reads;
        total = omega (arith, v.room);
        iterators = refl;
      }
  remove_at d true i p v f =
      let c = chain_of t d.ht1 k in
      let (e, run, same, val, lt) = at-locate t k c p f.place in
      let pos : 1 ≤ count t k c = count_pos keyed k c p f.place in
      let filled : 1 ≤ d.ht1.used = used_pos d.ht1 v.second (omega arith) in
      let new =
        rewrite_second t keyed d v k (unlink p c) (dec64 d.ht1.used) 0 none (omega arith)
          (unlink-Rewrites c p (omega (arith, v.unique k)) f.place) f.size
          (omega (arith, length-unlink t p c lt, v.room)) (omega (arith, v.room))
          (omega (arith, v.unique k)) (f.in_use refl) in
      record {
        valid = new.valid;
        reads = new.reads;
        total = omega (arith, v.room);
        iterators = refl;
      }

  -- The outcome of `dictGenericDelete` on `d`.
  abbrev pub Deleted : Dict K V → Option (Entry K V) × Dict K V → Type ℓ
  Deleted d r =
      ((r.0 ≡ none) × (view t d k ≡ none) × Keeps t d r.1)
      ⊎ ((e : Entry K V) × (r.0 ≡ some e)
          × (matches t k e.key ≡ true)
          × (view t d k ≡ some e.val)
          × Writes t d k none 0 1 r.1)

  -- `unlink_entry` on the reference that a search found
  unlink_at :
      (d : Dict K V) (second : Bool) (i p : ℕ)
      → IsDict t d
      → Found t d k (ref second i p)
      → Returns (unlink_entry d (ref second i p)) (λ r.
        (matches t k r.0.key ≡ true) × (view t d k ≡ some r.0.val) × Writes t d k none 0 1 r.1)
  unfolding unlink_entry view or_else
  unlink_at d false i p v f =
      let (e, run, same, val, lt) = at-locate t k (chain_of t d.ht0 k) p f.place in
      (
        (e, _),
        rw (f.index, at-home t d.ht0 k v.first f.size, run) refl,
        (same, rw val refl, remove_at d false i p v f),
      )
  unlink_at d true i p v f =
      let (e, run, same, val, lt) = at-locate t k (chain_of t d.ht1 k) p f.place in
      let pos : 1 ≤ count t k (chain_of t d.ht1 k) = count_pos keyed k _ p f.place in
      (
        (e, _),
        rw (f.index, at-home t d.ht1 k v.second f.size, run) refl,
        (
          same,
          rw (lookup-eq-none t k (chain_of t d.ht0 k) (omega (arith, v.unique k)), val) refl,
          remove_at d true i p v f,
        ),
      )

  -- `dictGenericDelete` on a well-formed dictionary with lawful key callbacks returns the entry of
  -- the key, removes it and leaves every other lookup and the invariant as they were; for an
  -- absent key it returns none and changes no lookup.
  pub generic_delete-Deleted :
      (d : Dict K V) → IsDict t d → Returns (generic_delete t d k) (Deleted d)
  unfolding generic_delete
  generic_delete-Deleted d v = elim (Bool-cases (d.ht0.used == 0 && d.ht1.used == 0)) [
    | inl y ↦ rw y (
      (none, d),
      refl,
      inl (refl, view-Absent t d k (Absent-of_unused t d k v (ground arith)), Keeps-refl t d v),
    )
    | inr n ↦
        let some_used : d.ht0.used + d.ht1.used ≢ 0 = ground arith in
        rw n (
          Returns-bind (step_if_rehashing-Keeps t keyed d v) λ d' k'.
            Returns-bind
              (probe-Probed t d' k k'.valid
                (size_of_used t d' k'.valid (λ e. some_used (sym k'.total ∙ e))))
              λ o p. elim p [
                | inl (e, a) ↦
                    rw e ((none, d'), refl, inl (refl, sym (k'.same k) ∙ view-Absent t d' k a, k'))
                | inr (r, e, f) ↦ rw e (
                    Returns-bind (unlink_at d' r.second r.index r.place k'.valid f) λ u w. (
                      (some u.0, u.1),
                      refl,
                      inr (u.0, refl, w.0, sym (k'.same k) ∙ w.1, Writes-Keeps t k k' w.2),
                    ))
              ])
  ]

  -- `dictDelete` returns `DICT_OK` exactly if the key was there.
  pub delete-Writes :
      (d : Dict K V)
      → IsDict t d
      → Returns (delete t d k) λ r.
        ((r.0 ≡ false) × (view t d k ≡ none) × Keeps t d r.1)
        ⊎ ((r.0 ≡ true) × ((old : V) × (view t d k ≡ some old)) × Writes t d k none 0 1 r.1)
  unfolding delete
  delete-Writes d v = Returns-bind (generic_delete-Deleted d v) λ r s. elim s [
    | inl (e, a, kept) ↦ ((is_some r.0, r.1), refl, inl (rw e, a, kept))
    | inr (x, e, same, old, w) ↦ ((is_some r.0, r.1), refl, inr (rw e, (x.val, old), w))
  ]
