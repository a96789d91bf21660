-- ===== src/Dict/Search/Slot.antt =====
-- `_dictKeyIndex` refuses a key only for being there, and else returns its bucket in the table
-- that takes new entries.
use redis_counter.Base.{
  ◌+◌, ◌^◌, ◌<◌, ◌≡◌, refl, arith, Returns, Returns-bind, ◌⊎◌, inl, inr, Bool, Bool-cases,
  Option-cases, some,
}
use redis_counter.Dict.Types.{DictType, Dict, Ref, is_rehashing}
use redis_counter.Dict.Chain.{locate}
use redis_counter.Dict.Chain.Counting.{locate-eq-none}
use redis_counter.Dict.Model.{home, chain_of, IsDict}
use redis_counter.Dict.Size.Expand.{expand_if_needed-Ready}
use redis_counter.Dict.Rehash.Round.{Keeps}
use redis_counter.Dict.Search.{KeyIndex, free_at, taken, table_of, free_slot, key_index}
use redis_counter.Dict.Search.Find.{
  search_table-home, Found, Absent, found_first, found_second, second_unused, second_size,
}

module _ {ℓ} {K V : Type ℓ} (t : DictType K V) where
  abbrev pub Slot : Dict K V → K → KeyIndex → Type ℓ
  Slot d k x =
      ((x ≡ free_at (home t (table_of (is_rehashing d) d) k))
        × Absent t d k
        × (0 < (table_of (is_rehashing d) d).size))
      ⊎ ((r : Ref) × (x ≡ taken (some r)) × Found t d k r)

  free_slot-Slot :
      (d : Dict K V) (k : K)
      → IsDict t d
      → 0 < d.ht0.size
      → Returns (free_slot t k (t.hash_function k) d) (Slot d k)
  unfolding free_slot Absent
  free_slot-Slot d k v pos =
      rw (search_table-home t k d.ht0 v.first pos)
        (elim (Option-cases (locate t k (chain_of t d.ht0 k))) [
          | inr (p, e) ↦ rw e (_, refl, inr (_, refl, found_first t d k p v pos e))
          | inl e ↦ rw e (elim (Bool-cases (is_rehashing d)) [
            | inr n ↦ rw n (
              free_at (home t d.ht0 k),
              refl,
              inl (
                rw n refl,
                omega (arith, locate-eq-none t k _ e, second_unused t d k v n),
                rw n pos,
              ),
            )
            | inl y ↦
                rw (y, search_table-home t k d.ht1 v.second (second_size t d v y))
                  (elim (Option-cases (locate t k (chain_of t d.ht1 k))) [
                    | inr (p, f) ↦
                        rw f (
                          _,
                          refl,
                          inr (_, refl, found_second t d k p v (second_size t d v y) y e f),
                        )
                    | inl f ↦ rw f (
                      free_at (home t d.ht1 k),
                      refl,
                      inl (
                        rw y refl,
                        omega (arith, locate-eq-none t k _ e, locate-eq-none t k _ f),
                        rw y (second_size t d v y),
                      ),
                    )
                  ])
          ])
        ])

  -- `_dictKeyIndex` returns -1 only with the existing entry, and else the key's bucket.
  pub key_index-Slot :
      (can_resize : Bool) (d : Dict K V) (k : K)
      → IsDict t d
      → d.ht0.used + d.ht1.used < 2 ^ 59
      → Returns
          (key_index t can_resize d k (t.hash_function k))
          (λ r. Keeps t d r.1 × Slot r.1 k r.0)
  unfolding key_index
  key_index-Slot can_resize d k v few =
      Returns-bind (expand_if_needed-Ready t can_resize d v few) λ r ready. rw ready.1 (
        Returns-bind (free_slot-Slot r.1 k ready.0.valid ready.2)
          λ x s. ((x, r.1), refl, (ready.0, s)))
