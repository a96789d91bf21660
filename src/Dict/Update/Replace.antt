-- ===== src/Dict/Update/Replace.antt =====
-- `dictAdd` and `dictReplace` against a map from keys to values.
use redis_counter.Base.{
  ℕ, ◌+◌, ◌^◌, ◌<◌, ◌≡◌, ◌∙◌, sym, ap, refl, arith, Returns, Returns-bind, ◌⊎◌, inl, inr, Bool,
  true, false, Option, none, some, if◌then◌else◌,
}
use redis_counter.Dict.Types.{DictType, Dict, matches, stored_val, IsKeyed}
use redis_counter.Dict.Model.{view, IsDict}
use redis_counter.Dict.Rehash.Round.{Keeps}
use redis_counter.Dict.Update.{add, replace}
use redis_counter.Dict.Update.Write.{Writes, store-Writes}
use redis_counter.Dict.Update.Insert.{add_raw-AddedRaw}

module _ {ℓ} {K V : Type ℓ} (t : DictType K V) (k : K) where
  twice :
      (b : Bool) (a x c : Option V) → (if b then a else (if b then x else c)) ≡ (if b then a else c)
  twice true a x c = refl
  twice false a x c = refl

  -- a second write at the same key hides the first
  pub Writes-trans :
      {a b c : Dict K V} {o o' : Option V} {m n : ℕ}
      → Writes t a k o m n b
      → Writes t b k o' 0 0 c
      → Writes t a k o' m n c
  Writes-trans {a} {o} {o'} p q = record {
    valid = q.valid;
    reads = λ j.
        q.reads j
        ∙ ap (λ u. if matches t j k then o' else u) (p.reads j)
        ∙ twice (matches t j k) o' o (view t a j);
    total = omega (arith, p.total, q.total);
    iterators = q.iterators ∙ p.iterators;
  }

  pub Writes-Keeps :
      {a b c : Dict K V} {o : Option V} {m n : ℕ}
      → Keeps t a b
      → Writes t b k o m n c
      → Writes t a k o m n c
  Writes-Keeps {o} p q = record {
    valid = q.valid;
    reads = λ j. q.reads j ∙ ap (λ u. if matches t j k then o else u) (p.same j);
    total = omega (arith, p.total, q.total);
    iterators = q.iterators ∙ p.iterators;
  }

module _ {ℓ} {K V : Type ℓ} (t : DictType K V) (keyed : IsKeyed t) (can_resize : Bool) (junk : V)
    (d : Dict K V) (k : K) (x : V) (v : IsDict t d) (few : d.ht0.used + d.ht1.used < 2 ^ 59) where
  -- `dictAdd` adds the key if it is absent, and otherwise changes no lookup and says so.
  pub add-Writes : Returns (add t can_resize junk d k x) λ r.
      ((r.0 ≡ true) × (view t d k ≡ none) × Writes t d k (some (stored_val t x)) 1 0 r.1)
      ⊎ ((r.0 ≡ false) × ((old : V) × (view t d k ≡ some old)) × Keeps t d r.1)
  unfolding add
  add-Writes = Returns-bind (add_raw-AddedRaw t keyed k junk can_resize d v few) λ r s. elim s [
    | inl (e, f, found, kept) ↦
        rw f
          ((false, r.1), refl, inr (refl, (found.entry.val, sym (kept.same k) ∙ found.val), kept))
    | inr (e, f, found, absent, w) ↦ rw f (
        Returns-bind (store-Writes t keyed k (stored_val t x) r.1 e w.valid found)
          λ d' w'. ((true, d'), refl, inl (refl, absent, Writes-trans t k w w')))
  ]

  -- `dictReplace` on a well-formed dictionary with lawful key callbacks with fewer than 2 ^ 59
  -- entries sets the value of exactly the keys that match, returns 1 if the key was absent and 0
  -- if it had a value, and counts one entry more only in the first case.
  pub replace-Writes : Returns (replace t can_resize junk d k x) λ r.
      ((r.0 ≡ true) × (view t d k ≡ none) × Writes t d k (some (stored_val t x)) 1 0 r.1)
      ⊎ ((r.0 ≡ false)
          × ((old : V) × (view t d k ≡ some old))
          × Writes t d k (some (stored_val t x)) 0 0 r.1)
  unfolding replace
  replace-Writes = Returns-bind (add_raw-AddedRaw t keyed k junk can_resize d v few) λ r s. elim s [
    | inl (e, f, found, kept) ↦ rw f (
        Returns-bind (store-Writes t keyed k (stored_val t x) r.1 e kept.valid found) λ d' w'. (
          (false, d'),
          refl,
          inr (refl, (found.entry.val, sym (kept.same k) ∙ found.val), Writes-Keeps t k kept w'),
        ))
    | inr (e, f, found, absent, w) ↦ rw f (
        Returns-bind (store-Writes t keyed k (stored_val t x) r.1 e w.valid found)
          λ d' w'. ((true, d'), refl, inl (refl, absent, Writes-trans t k w w')))
  ]
