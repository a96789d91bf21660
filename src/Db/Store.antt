-- ===== src/Db/Store.antt =====
-- Writes to the keyspace: `dbAdd`, `dbOverwrite` and `setKey` of src/db.c.
use mathlib.Core.Path.{subst}
use redis_counter.Base.{
  ℕ, ◌+◌, ◌-◌, ◌%◌, ◌==◌, ==_iff, ◌≤◌, ◌<◌, ◌^◌, ◌≡◌, refl, sym, ◌∙◌, ap, arith, Bool, true, inl,
  inr, Option, none, some, List, if◌then◌else◌, ◌>>=◌, ◌≢◌, Bool-cases, Returns, Returns-bind,
}
use redis_counter.Dict.Types.{DictType, matches, stored_val, IsKeyed}
use redis_counter.Dict.Model.{view, IsDict}
use redis_counter.Dict.Rehash.Round.{Keeps}
use redis_counter.Dict.Search.Find.{find-Probed, view-Absent}
use redis_counter.Dict.Update.Write.{Writes, store-Writes}
use redis_counter.Dict.Update.Replace.{add-Writes, Writes-Keeps}
use redis_counter.Db.Keys.{matches_iff, db_dict_type-IsKeyed}
use redis_counter.Db.{
  Key, Robj, Db, db_dict_type, shared_refcount, incr_ref_count, lookup_key, db_add, db_overwrite,
  db_put, set_key,
}

-- `d'` is well formed and stands for what `d` stands for, but that the keys that match `k` have `x`.
pub record Stores (t : DictType Key Robj) (d : Db) (k : Key) (x : Robj) (d' : Db) : Type 0 where
  pub valid : IsDict t d'
  pub reads : (q : Key) → view t d' q ≡ (if matches t q k then some x else view t d q)
  pub total : d'.ht0.used + d'.ht1.used ≤ d.ht0.used + d.ht1.used + 1

module _ (t : DictType Key Robj) (keyed : IsKeyed t) (can_resize : Bool) (junk : Robj) where
  pub lookup_key-view :
      (d : Db) (k : Key)
      → IsDict t d
      → Returns (lookup_key t can_resize junk d k) (λ r. (r.0 ≡ view t d k) × Keeps t d r.1)
  unfolding lookup_key
  lookup_key-view d k v = Returns-bind (find-Probed t keyed d k v) λ r p. elim p.1 [
    | inl (e, a) ↦ rw e ((none, r.1), refl, (sym (view-Absent t r.1 k a) ∙ p.0.same k, p.0))
    | inr (x, e, f) ↦ rw (e, f.loads) ((some f.entry.val, r.1), refl, (sym f.val ∙ p.0.same k, p.0))
  ]

  Writes-Stores :
      {d d' : Db} {k : Key} {x : Robj} {gain loss : ℕ}
      → gain ≤ 1
      → Writes t d k (some x) gain loss d'
      → Stores t d k x d'
  Writes-Stores h w = record { valid = w.valid; reads = w.reads; total = omega (arith, w.total) }

  pub db_put-Stores :
      (d : Db) (k : Key) (ret : Option Robj) (x : Robj)
      → IsDict t d
      → d.ht0.used + d.ht1.used < 2 ^ 59
      → ret ≡ view t d k
      → Returns (db_put t can_resize junk d k ret x) (Stores t d k (stored_val t x))
  unfolding db_put db_add db_overwrite
  db_put-Stores d k none x v few e =
      Returns-bind (add-Writes t keyed can_resize junk d k x v few) λ r s. elim s [
        | inl (done, absent, w) ↦ rw done (r.1, refl, Writes-Stores (omega arith) w)
        | inr (done, old, kept) ↦ cc (e, old.1)
      ]
  db_put-Stores d k (some old) x v few e = Returns-bind (find-Probed t keyed d k v) λ r p.
      elim p.1 [
        | inl (o, a) ↦ cc (e, p.0.same k, view-Absent t r.1 k a)
        | inr (y, o, f) ↦ rw o (
            let s = store-Writes t keyed k (stored_val t x) r.1 y p.0.valid f in
            (s.0, s.1, Writes-Stores (omega arith) (Writes-Keeps t k p.0 s.2)))
      ]

  pub Keeps-Stores :
      {a b c : Db} {k : Key} {x : Robj} → Keeps t a b → Stores t b k x c → Stores t a k x c
  Keeps-Stores {k} {x} p q = record {
    valid = q.valid;
    reads = λ j. q.reads j ∙ ap (λ u. if matches t j k then some x else u) (p.same j);
    total = omega (arith, q.total, p.total);
  }

  -- A lookup, and then a write of the same key
  pub lookup_put-Stores :
      (d : Db) (k : Key) (x : Option Robj → Robj)
      → IsDict t d
      → d.ht0.used + d.ht1.used < 2 ^ 59
      → Returns
          (lookup_key t can_resize junk d k >>= λ r. db_put t can_resize junk r.1 k r.0 (x r.0))
          (Stores t d k (stored_val t (x (view t d k))))
  lookup_put-Stores d k x v few = Returns-bind (lookup_key-view d k v) λ r p.
      let s =
        db_put-Stores r.1 k r.0 (x r.0) p.1.valid (omega (arith, p.1.total))
          (p.0 ∙ sym (p.1.same k)) in
      (s.0, s.1, Keeps-Stores p.1 (subst (λ o. Stores t r.1 k (stored_val t (x o)) s.0) p.0 s.2))

-- After a write at `k` that key alone has another value, and there is at most one key more.
pub record Puts (t : DictType Key Robj) (d : Db) (k : Key) (x : Robj) (d' : Db) : Type 0 where
  pub valid : IsDict t d'
  pub here : view t d' k ≡ some x
  pub others : (q : Key) → q ≢ k → view t d' q ≡ view t d q
  pub total : d'.ht0.used + d'.ht1.used ≤ d.ht0.used + d.ht1.used + 1

-- `x` is the object `o` with one reference more, which a shared object does not count: the pattern
-- of 32 bits goes up by one.
pub record Retained (o x : Robj) : Type 0 where
  pub same_ptr : x.ptr ≡ o.ptr
  pub shared : o.refcount ≡ 2 ^ 31 - 1 → x.refcount ≡ 2 ^ 31 - 1
  pub counted : o.refcount ≢ 2 ^ 31 - 1 → x.refcount ≡ (o.refcount + 1) % 2 ^ 32

incr_ref_count-Retained : (o : Robj) → Retained o (incr_ref_count o)
unfolding incr_ref_count
incr_ref_count-Retained o = elim (Bool-cases (o.refcount == shared_refcount)) [
  | inl y ↦
      let e : o.refcount ≡ 2 ^ 31 - 1 = (==_iff o.refcount (2 ^ 31 - 1)).0 y in
      rw y (record { same_ptr = refl; shared = λ h. h; counted = λ n. absurd (n e) })
  | inr f ↦
      rw f (record { same_ptr = refl; shared = λ h. absurd (ground arith); counted = λ n. refl })
]

module _ (seed : List ℕ) (same : Key → Key → Bool)
    (sound : (p q : Key) → same p q ≡ true → p ≡ q) where
  stored_lem : (x : Robj) → stored_val (db_dict_type seed same) x ≡ x
  unfolding stored_val db_dict_type
  stored_lem x = refl

  pub Stores-Puts :
      {d d' : Db} {k : Key} {x : Robj}
      → Stores (db_dict_type seed same) d k (stored_val (db_dict_type seed same) x) d'
      → Puts (db_dict_type seed same) d k x d'
  Stores-Puts {d} {d'} {k} {x} s = record {
    valid = s.valid;
    here = s.reads k ∙ rw ((matches_iff seed same sound k k).1 refl) (ap some (stored_lem x));
    others = λ q ne. elim (Bool-cases (matches (db_dict_type seed same) q k)) [
      | inl y ↦ absurd (ne ((matches_iff seed same sound q k).0 y))
      | inr n ↦ s.reads q ∙ rw n refl
    ];
    total = s.total;
  }

  module _ (can_resize : Bool) (junk : Robj) where
    -- SetKey on a well-formed keyspace with fewer than 2 ^ 59 keys returns, gives the key an
    -- object with the pointer of the given one, whose reference count is one more, or is as it was
    -- if the object is shared, changes no other key, keeps the keyspace well formed, and adds at
    -- most one key.
    pub set_key-Puts :
        (d : Db) (key : Key) (val : Robj)
        → IsDict (db_dict_type seed same) d
        → d.ht0.used + d.ht1.used < 2 ^ 59
        → Returns
            (set_key (db_dict_type seed same) can_resize junk d key val)
            (λ d'. (x : Robj) × Puts (db_dict_type seed same) d key x d' × Retained val x)
    unfolding set_key
    set_key-Puts d key val v few =
        let r =
          lookup_put-Stores (db_dict_type seed same) (db_dict_type-IsKeyed seed same sound)
            can_resize junk d key (λ o. incr_ref_count val) v few in
        (r.0, r.1, (incr_ref_count val, Stores-Puts r.2, incr_ref_count-Retained val))
