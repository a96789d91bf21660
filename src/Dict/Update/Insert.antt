-- ===== src/Dict/Update/Insert.antt =====
-- `dictAddRaw`: a key that is there is refused with its entry; any other key gets a new entry.
use redis_counter.Base.{
  ℕ, ◌+◌, ◌^◌, ◌<◌, ◌≡◌, ◌∙◌, sym, ap, refl, ◌∷◌, arith, ok, at, set, Returns, Returns-bind, ◌⊎◌,
  inl, inr, Bool, Bool-cases, Option-cases, true, false, none, some, ==_iff, if◌then◌else◌, inc64,
}
use redis_counter.Dict.Types.{
  DictType, Entry, Bucket, Table, Dict, Ref, is_rehashing, matches, stored_key, IsKeyed,
}
use redis_counter.Dict.Chain.{locate, lookup, count}
use redis_counter.Dict.Chain.Counting.{match_congr_right, count_congr, count_pos}
use redis_counter.Dict.Model.{home, chain_of, view, IsTable, IsDict}
use redis_counter.Dict.Placement.{at-home, rechain, chain_of-rechain}
use redis_counter.Dict.Rechain.{Rewrites, rewrite_first, rewrite_second}
use redis_counter.Dict.Rehash.Round.{Keeps, Keeps-trans}
use redis_counter.Dict.Rehash.Loop.{step_if_rehashing-Keeps}
use redis_counter.Dict.Search.{table_of, ref}
use redis_counter.Dict.Search.Find.{Found, Absent, view-Absent, found_first, found_second, still}
use redis_counter.Dict.Search.Slot.{key_index-Slot}
use redis_counter.Dict.Update.{Added, added, existing, with_table, add_raw}
use redis_counter.Dict.Update.Write.{Writes}

module _ {ℓ} {K V : Type ℓ} (t : DictType K V) (keyed : IsKeyed t) (k : K) (x : V) where
  abbrev pub new_entry : Entry K V
  new_entry = record { key = stored_key t k; val = x }

  same_key : (q : K) → matches t q (stored_key t k) ≡ matches t q k
  same_key q = match_congr_right keyed q (stored_key t k) k (keyed.match-dup k)

  cons-Rewrites : (c : Bucket K V) → count t k c ≡ 0 → Rewrites t k c (new_entry ∷ c) (some x) 1
  unfolding lookup count
  cons-Rewrites c none_yet = record {
    reads = λ q once. rw (same_key q);
    counts = λ q. rw (same_key q) (elim (Bool-cases (matches t q k)) [
      | inl y ↦ rw y (omega (arith, count_congr keyed q k c y))
      | inr n ↦ rw n (omega arith)
    ]);
  }

  locate-cons : (c : Bucket K V) → locate t k (new_entry ∷ c) ≡ some 0
  unfolding locate
  locate-cons c = rw (same_key k, keyed.match_refl k)

  locate_of_absent : (c : Bucket K V) → count t k c ≡ 0 → locate t k c ≡ none
  locate_of_absent c e = elim (Option-cases (locate t k c)) [
    | inl n ↦ n
    | inr (p, f) ↦ absurd (omega (arith, count_pos keyed k c p f))
  ]

  locate-rechain :
      (h : Table K V) (w : IsTable t h) (pos : 0 < h.size) (n : ℕ)
      → locate t k (chain_of t (rechain t h k (new_entry ∷ chain_of t h k) n) k) ≡ some 0
  locate-rechain h w pos n =
      rw
        (
          chain_of-rechain t keyed h w pos k (new_entry ∷ chain_of t h k) n k,
          (==_iff (home t h k) (home t h k)).1 refl,
        )
        (locate-cons (chain_of t h k))

  -- the dictionary with a new entry in the given table
  abbrev inserted : Bool → Dict K V → Dict K V
  inserted second d =
      let h = table_of second d in
      with_table second
        (record h {
          table = set h.table (home t h k) (new_entry ∷ chain_of t h k);
          used = inc64 h.used;
        })
        d

  -- A new entry, and the reference to it.
  record Inserted (d : Dict K V) (second : Bool) : Type ℓ where
    writes : Writes t d k (some x) 1 0 (inserted second d)
    found : Found t (inserted second d) k (ref second (home t (table_of second d) k) 0)

  insert_at :
      (d : Dict K V) (second : Bool)
      → IsDict t d
      → Absent t d k
      → is_rehashing d ≡ second
      → 0 < (table_of second d).size
      → d.ht0.used + d.ht1.used < 2 ^ 59
      → Inserted d second
  unfolding home Absent
  insert_at d false v a e pos few =
      let new =
        rewrite_first t keyed d v k (new_entry ∷ chain_of t d.ht0 k) (inc64 d.ht0.used) 1 (some x)
          (omega arith) (cons-Rewrites (chain_of t d.ht0 k) (omega arith)) pos (omega arith)
          (omega arith) (omega arith) (λ i f. absurd (cc (still t d e))) in
      record {
        writes = record {
          valid = new.valid;
          reads = new.reads;
          total = omega arith;
          iterators = refl;
        };
        found =
            found_first t (inserted false d) k 0 new.valid pos
              (locate-rechain d.ht0 v.first pos (inc64 d.ht0.used));
      }
  insert_at d true v a e pos few =
      let new =
        rewrite_second t keyed d v k (new_entry ∷ chain_of t d.ht1 k) (inc64 d.ht1.used) 1 (some x)
          (omega arith) (cons-Rewrites (chain_of t d.ht1 k) (omega arith)) pos (omega arith)
          (omega arith) (omega arith) e in
      record {
        writes = record {
          valid = new.valid;
          reads = new.reads;
          total = omega arith;
          iterators = refl;
        };
        found =
            found_second t (inserted true d) k 0 new.valid pos e
              (locate_of_absent (chain_of t d.ht0 k) (omega arith))
              (locate-rechain d.ht1 v.second pos (inc64 d.ht1.used));
      }

  at_active :
      (d : Dict K V) (second : Bool)
      → IsDict t d
      → 0 < (table_of second d).size
      → at (table_of second d).table (home t (table_of second d) k)
        ≡ ok (chain_of t (table_of second d) k)
  at_active d false v pos = at-home t d.ht0 k v.first pos
  at_active d true v pos = at-home t d.ht1 k v.second pos

  -- The outcome of `dictAddRaw` on `d`.
  abbrev pub AddedRaw : Dict K V → Added × Dict K V → Type ℓ
  AddedRaw d r =
      ((e : Ref) × (r.0 ≡ existing (some e)) × Found t r.1 k e × Keeps t d r.1)
      ⊎ ((e : Ref) × (r.0 ≡ added e)
          × Found t r.1 k e
          × (view t d k ≡ none)
          × Writes t d k (some x) 1 0 r.1)

  after-Keeps :
      (d d' d'' : Dict K V)
      → Keeps t d d'
      → Writes t d' k (some x) 1 0 d''
      → Writes t d k (some x) 1 0 d''
  after-Keeps d d' d'' kept w = record {
    valid = w.valid;
    reads = λ q. w.reads q ∙ ap (λ o. if matches t q k then some x else o) (kept.same q);
    total = omega (arith, w.total, kept.total);
    iterators = w.iterators ∙ kept.iterators;
  }

  -- `dictAddRaw` on a well-formed dictionary with lawful key callbacks with fewer than 2 ^ 59
  -- entries either returns the existing entry of the key and changes no lookup, or adds one entry
  -- for an absent key and returns a reference to it.
  pub add_raw-AddedRaw :
      (can_resize : Bool) (d : Dict K V)
      → IsDict t d
      → d.ht0.used + d.ht1.used < 2 ^ 59
      → Returns (add_raw t can_resize x d k) (AddedRaw d)
  unfolding add_raw
  add_raw-AddedRaw can_resize d v few = Returns-bind (step_if_rehashing-Keeps t keyed d v) λ d₁ k₁.
      Returns-bind (key_index-Slot t can_resize d₁ k k₁.valid (omega (arith, k₁.total))) λ r s.
        elim s.1 [
          | inr (e, f, found) ↦
              rw f ((existing (some e), r.1), refl, inl (e, refl, found, Keeps-trans t k₁ s.0))
          | inl (f, a, pos) ↦
              let kept = Keeps-trans t k₁ s.0 in
              let new =
                insert_at r.1 (is_rehashing r.1) kept.valid a refl pos
                  (omega (arith, kept.total)) in
              rw (f, at_active r.1 (is_rehashing r.1) kept.valid pos)
                (
                  (added (ref (is_rehashing r.1) _ 0), inserted (is_rehashing r.1) r.1),
                  refl,
                  inr (
                    _,
                    refl,
                    new.found,
                    sym (kept.same k) ∙ view-Absent t r.1 k a,
                    after-Keeps d r.1 _ kept new.writes,
                  ),
                )
        ]
