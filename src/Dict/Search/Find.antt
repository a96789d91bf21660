-- ===== src/Dict/Search/Find.antt =====
-- `dictFind` and `dictFetchValue` return the entry of a key exactly if there is one, and a search
-- may move the rehash on but changes nothing that can be looked up.
use redis_counter.Base.{
  ℕ, ◌+◌, ◌<◌, ◌≡◌, ◌≢◌, ◌∙◌, sym, ap, refl, arith, ok, Returns, Returns-bind, ◌⊎◌, inl, inr,
  Bool-cases, Option-cases, true, false, Option, none, some, ◌==◌, ==_iff,
}
use mathlib.Core.Option.{or_else}
use redis_counter.Dict.Types.{DictType, Entry, Table, Dict, Ref, is_rehashing, dict_size, IsKeyed}
use redis_counter.Dict.Chain.{locate, count}
use redis_counter.Dict.Chain.Counting.{locate-eq-none, lookup-eq-none, at-locate}
use redis_counter.Dict.Model.{home, chain_of, view, IsTable, IsDict}
use redis_counter.Dict.Placement.{at-home, chain_of_unused}
use redis_counter.Dict.Size.Expand.{unused_of_size, going}
use redis_counter.Dict.Rehash.Round.{Keeps, Keeps-refl}
use redis_counter.Dict.Rehash.Loop.{step_if_rehashing-Keeps}
use redis_counter.Dict.Search.{table_of, ref, search_table, probe, find, load, fetch_value}

module _ {ℓ} {K V : Type ℓ} (t : DictType K V) where
  pub search_table-home :
      (k : K) (h : Table K V)
      → IsTable t h
      → 0 < h.size
      → search_table t k (t.hash_function k) h ≡ ok (home t h k, locate t k (chain_of t h k))
  unfolding search_table home
  search_table-home k h w pos = rw (at-home t h k w pos)

  -- The reference of a key's entry, and the value that the dictionary has for the key.
  pub record Found (d : Dict K V) (k : K) (r : Ref) : Type ℓ where
    pub entry : Entry K V
    pub size : 0 < (table_of r.second d).size
    pub index : r.index ≡ home t (table_of r.second d) k
    pub place : locate t k (chain_of t (table_of r.second d) k) ≡ some r.place
    pub loads : load d r ≡ ok entry
    pub val : view t d k ≡ some entry.val
    pub in_use : r.second ≡ true → is_rehashing d ≡ true

  unfoldable pub Absent : Dict K V → K → Type 0
  Absent d k = count t k (chain_of t d.ht0 k) + count t k (chain_of t d.ht1 k) ≡ 0

  -- The outcome of a search.
  abbrev pub Probed : Dict K V → K → Option Ref → Type ℓ
  Probed d k o = ((o ≡ none) × Absent d k) ⊎ ((r : Ref) × (o ≡ some r) × Found d k r)

  pub view-Absent : (d : Dict K V) (k : K) → Absent d k → view t d k ≡ none
  unfolding view or_else Absent
  view-Absent d k h = rw (
    lookup-eq-none t k (chain_of t d.ht0 k) (omega arith),
    lookup-eq-none t k (chain_of t d.ht1 k) (omega arith),
  )

  pub found_first :
      (d : Dict K V) (k : K) (p : ℕ)
      → IsDict t d
      → 0 < d.ht0.size
      → locate t k (chain_of t d.ht0 k) ≡ some p
      → Found d k (ref false (home t d.ht0 k) p)
  unfolding view load or_else
  found_first d k p v pos e =
      let (x, run, same, val, lt) = at-locate t k (chain_of t d.ht0 k) p e in
      record {
        entry = x;
        size = pos;
        index = refl;
        place = e;
        loads = rw (at-home t d.ht0 k v.first pos) run;
        val = rw val;
        in_use = λ f. absurd (cc);
      }

  pub found_second :
      (d : Dict K V) (k : K) (p : ℕ)
      → IsDict t d
      → 0 < d.ht1.size
      → is_rehashing d ≡ true
      → locate t k (chain_of t d.ht0 k) ≡ none
      → locate t k (chain_of t d.ht1 k) ≡ some p
      → Found d k (ref true (home t d.ht1 k) p)
  unfolding view load or_else
  found_second d k p v pos busy miss e =
      let (x, run, same, val, lt) = at-locate t k (chain_of t d.ht1 k) p e in
      record {
        entry = x;
        size = pos;
        index = refl;
        place = e;
        loads = rw (at-home t d.ht1 k v.second pos) run;
        val = rw (lookup-eq-none t k (chain_of t d.ht0 k) (locate-eq-none t k _ miss), val);
        in_use = λ f. busy;
      }

  pub second_size : (d : Dict K V) → IsDict t d → is_rehashing d ≡ true → 0 < d.ht1.size
  second_size d v y = elim (Option-cases d.rehashidx) [
    | inl e ↦ absurd (ground arith)
    | inr (i, e) ↦ (v.busy i e).1
  ]

  pub still : (d : Dict K V) → is_rehashing d ≡ false → d.rehashidx ≡ none
  still d n = ground arith

  pub second_unused :
      (d : Dict K V) (k : K)
      → IsDict t d
      → is_rehashing d ≡ false
      → count t k (chain_of t d.ht1 k) ≡ 0
  unfolding chain_of count
  second_unused d k v n = rw (v.idle (still d n))

  pub probe-Probed :
      (d : Dict K V) (k : K)
      → IsDict t d
      → 0 < d.ht0.size
      → Returns (probe t k (t.hash_function k) d) (Probed d k)
  unfolding probe Absent
  probe-Probed d k v pos =
      rw (search_table-home k d.ht0 v.first pos)
        (elim (Option-cases (locate t k (chain_of t d.ht0 k))) [
          | inr (p, e) ↦ rw e (_, refl, inr (_, refl, found_first d k p v pos e))
          | inl e ↦ rw e (elim (Bool-cases (is_rehashing d)) [
            | inr n ↦ rw n (
              none,
              refl,
              inl (refl, omega (arith, locate-eq-none t k _ e, second_unused d k v n)),
            )
            | inl y ↦
                rw (y, search_table-home k d.ht1 v.second (second_size d v y))
                  (elim (Option-cases (locate t k (chain_of t d.ht1 k))) [
                    | inr (p, f) ↦
                        rw f
                          (_, refl, inr (_, refl, found_second d k p v (second_size d v y) y e f))
                    | inl f ↦ rw f (
                      none,
                      refl,
                      inl (refl, omega (arith, locate-eq-none t k _ e, locate-eq-none t k _ f)),
                    )
                  ])
          ])
        ])

  -- a dictionary with an entry has buckets
  pub size_of_used : (d : Dict K V) → IsDict t d → d.ht0.used + d.ht1.used ≢ 0 → 0 < d.ht0.size
  size_of_used d v some_used = elim (Bool-cases (is_rehashing d)) [
    | inl y ↦ going t d v y
    | inr n ↦
        let second : d.ht1.used ≡ 0 = ap Table.used (v.idle (still d n)) in
        elim (Bool-cases (d.ht0.size == 0)) [
          | inl z ↦ absurd (
              some_used (omega (arith, unused_of_size t d.ht0 v.first ((==_iff d.ht0.size 0).0 z))))
          | inr m ↦ ground arith
        ]
  ]

  pub Absent-of_unused :
      (d : Dict K V) (k : K) → IsDict t d → d.ht0.used + d.ht1.used ≡ 0 → Absent d k
  unfolding Absent count
  Absent-of_unused d k v e = rw (
    chain_of_unused t d.ht0 k v.first (omega arith),
    chain_of_unused t d.ht1 k v.second (omega arith),
  )

module _ {ℓ} {K V : Type ℓ} (t : DictType K V) (keyed : IsKeyed t) where
  -- `dictFind` on a well-formed dictionary with lawful key callbacks returns a reference that
  -- loads the entry of the key exactly if the key has one, and the rehash step that it makes
  -- changes no lookup.
  pub find-Probed :
      (d : Dict K V) (k : K)
      → IsDict t d
      → Returns (find t d k) (λ r. Keeps t d r.1 × Probed t r.1 k r.0)
  unfolding find
  find-Probed d k v = elim (Bool-cases (dict_size d == 0)) [
    | inl y ↦ rw y (
      (none, d),
      refl,
      (Keeps-refl t d v, inl (refl, Absent-of_unused t d k v (ground (arith, v.room)))),
    )
    | inr n ↦
        let some_used : d.ht0.used + d.ht1.used ≢ 0 = ground (arith, v.room) in
        rw n (
          Returns-bind (step_if_rehashing-Keeps t keyed d v) λ d' k'.
            Returns-bind
              (probe-Probed t d' k k'.valid
                (size_of_used t d' k'.valid (λ e. some_used (sym k'.total ∙ e))))
              λ r p. ((r, d'), refl, (k', p)))
  ]

  -- `dictFetchValue` on a well-formed dictionary with lawful key callbacks returns the value that
  -- the dictionary holds for the key, or NULL if it holds none, and the rehash step that it makes
  -- changes no lookup.
  pub fetch_value-view :
      (d : Dict K V) (k : K)
      → IsDict t d
      → Returns (fetch_value t d k) (λ r. (r.0 ≡ view t d k) × Keeps t d r.1)
  unfolding fetch_value
  fetch_value-view d k v = Returns-bind (find-Probed d k v) λ r p. elim p.1 [
    | inl (e, a) ↦ rw e ((none, r.1), refl, (sym (view-Absent t r.1 k a) ∙ p.0.same k, p.0))
    | inr (x, e, f) ↦ rw (e, f.loads) ((some f.entry.val, r.1), refl, (sym f.val ∙ p.0.same k, p.0))
  ]
