-- ===== src/Dict/Size/Expand.antt =====
-- `dictExpand` and `_dictExpandIfNeeded`: a new table is empty and large enough, nothing is lost,
-- and the expansion before an insertion never fails.
use redis_counter.Base.{
  ℕ, ◌+◌, ◌*◌, ◌/◌, ◌%◌, ◌^◌, ◌≤◌, ◌<◌, ◌≡◌, ◌≢◌, ◌∙◌, sym, ap, refl, List, [], ◌∷◌, arith, length,
  replicate, zero, suc, length-replicate, get_or-replicate, length-flatten-replicate, Returns,
  Returns-bind, ◌⊎◌, inl, inr, Bool, Bool-cases, Option-cases, List-cases, true, false, ◌&&◌, ◌||◌,
  none, some, ◌==◌, ==_iff, ltb, leb, if◌then◌else◌, u64,
}
use mathlib.Core.Path.{subst}
use mathlib.Core.List.{flatten}
use mathlib.Core.Option.{or_else}
use redis_counter.Dict.Types.{
  DictType, Entry, Bucket, Table, Dict, new_table, is_rehashing, initial_size, force_resize_ratio,
}
use redis_counter.Dict.Chain.{lookup, count}
use redis_counter.Dict.Model.{chain_of, view, IsTable, IsDict}
use redis_counter.Dict.Placement.{chain_of_unused, chain_of-reset}
use redis_counter.Dict.Rehash.Round.{Keeps, Keeps-refl}
use redis_counter.Dict.Size.{is_null, expand, expand_if_needed}
use redis_counter.Dict.Size.Power.{IsLeastPower, next_power-IsLeastPower}

module _ {ℓ} {K V : Type ℓ} (t : DictType K V) where
  chain_of-new_table : (n : ℕ) (q : K) → chain_of t (new_table {K = K} {V = V} n) q ≡ []
  unfolding chain_of
  chain_of-new_table n q = get_or-replicate (n * 8 % u64 / 8) _ []

  new_table-IsTable : (n : ℕ) → 0 < n → n < 2 ^ 61 → IsTable t (new_table n)
  unfolding count
  new_table-IsTable n pos small = record {
    width = rw length-replicate (omega arith);
    mask = omega arith;
    filled = sym (length-flatten-replicate (Entry K V) (n * 8 % u64 / 8));
    placed = λ q i ne. rw get_or-replicate;
  }

  flatten-replicate_nil : (n : ℕ) → flatten {A = Entry K V} (replicate n []) ≡ []
  unfolding flatten
  flatten-replicate_nil zero = refl
  flatten-replicate_nil (suc n) = flatten-replicate_nil n

  flatten-new_table : (n : ℕ) → flatten (new_table {K = K} {V = V} n).table ≡ []
  flatten-new_table n = flatten-replicate_nil (n * 8 % u64 / 8)

  -- the first allocation
  first_table-Keeps :
      (d : Dict K V) (n : ℕ)
      → IsDict t d
      → d.rehashidx ≡ none
      → d.ht0.used ≡ 0
      → 0 < n
      → n < 2 ^ 61
      → Keeps t d (record d { ht0 = new_table n })
  unfolding view count lookup or_else
  first_table-Keeps d n v still unused pos small = record {
    valid = record {
      first = new_table-IsTable n pos small;
      second = v.second;
      unique = λ q. rw (chain_of-new_table n q) (omega (arith, v.unique q));
      room = omega (arith, v.room);
      idle = v.idle;
      busy = λ i e. absurd (cc);
      moved = λ i j e lt. absurd (cc);
    };
    same = λ q. rw (chain_of-new_table n q, chain_of_unused t d.ht0 q v.first unused);
    total = omega arith;
    iterators = refl;
  }

  -- the start of a rehash
  second_table-Keeps :
      (d : Dict K V) (n : ℕ)
      → IsDict t d
      → d.rehashidx ≡ none
      → 0 < d.ht0.size
      → 0 < n
      → n < 2 ^ 61
      → Keeps t d (record d { ht1 = new_table n; rehashidx = some 0 })
  unfolding view count lookup
  second_table-Keeps d n v still filled pos small = record {
    valid = record {
      first = v.first;
      second = new_table-IsTable n pos small;
      unique = λ q. rw (chain_of-new_table n q) (omega (arith, v.unique q));
      room = omega (arith, v.room);
      idle = λ e. absurd (cc);
      busy = λ i e. (filled, pos);
      moved = λ i j e lt. absurd (ground arith);
    };
    same = λ q. rw (chain_of-new_table n q, v.idle still, chain_of-reset t q);
    total = rw (v.idle still) refl;
    iterators = refl;
  }

  -- The table that an accepted expansion has made: the second during a rehash, otherwise the first
  abbrev pub installed : Dict K V → Table K V
  installed d = if is_rehashing d then d.ht1 else d.ht0

  -- A refused expansion changes nothing; an accepted one leaves a least power of two for the new
  -- table, and a first table that has buckets.
  pub record Expanded (d : Dict K V) (size : ℕ) (r : Bool × Dict K V) : Type ℓ where
    pub keeps : Keeps t d r.1
    pub refused : r.0 ≡ false → r.1 ≡ d
    pub reason :
        r.0 ≡ false
        → ((is_rehashing d || ltb size d.ht0.used) ≡ true) ⊎ IsLeastPower size d.ht0.size
    pub grown : r.0 ≡ true → IsLeastPower size (installed r.1).size
    pub vacant : r.0 ≡ true → ((installed r.1).used ≡ 0) × (flatten (installed r.1).table ≡ [])
    pub accepted :
        r.0 ≡ true
        → ((is_rehashing d || ltb size d.ht0.used) ≡ false) × ((installed r.1).size ≢ d.ht0.size)
    pub ready : r.0 ≡ true → 0 < r.1.ht0.size

  refusal :
      (d : Dict K V) (size : ℕ)
      → IsDict t d
      → ((is_rehashing d || ltb size d.ht0.used) ≡ true) ⊎ IsLeastPower size d.ht0.size
      → Expanded d size (false, d)
  refusal d size v why = record {
    keeps = Keeps-refl t d v;
    refused = λ e. refl;
    reason = λ e. why;
    grown = λ e. absurd (cc);
    vacant = λ e. absurd (cc);
    accepted = λ e. absurd (cc);
    ready = λ e. absurd (cc);
  }

  is_null-nil : (h : Table K V) → h.table ≡ [] → is_null h ≡ true
  unfolding is_null
  is_null-nil h e = ground arith

  is_null-cons :
      (h : Table K V) (b : Bucket K V) (bs : List (Bucket K V))
      → h.table ≡ b ∷ bs
      → is_null h ≡ false
  unfolding is_null
  is_null-cons h b bs e = ground arith

  first_installed :
      (d : Dict K V) (h : Table K V) → d.rehashidx ≡ none → h ≡ installed (record d { ht0 = h })
  first_installed d h e = rw e refl

  unused_of_nil : (h : Table K V) → IsTable t h → h.table ≡ [] → h.used ≡ 0
  unfolding flatten
  unused_of_nil h w e = w.filled ∙ ap (λ (bs : List (Bucket K V)). length (flatten bs)) e

  -- `dictExpand` of a well-formed dictionary to at most 2 ^ 60 either refuses, and then changes
  -- nothing and does so only because of a running rehash, a size below the number of entries or an
  -- unchanged table size, or is not in any of these cases and installs an empty table whose size
  -- is the least power of two that is enough.
  pub expand-Expanded :
      (d : Dict K V) (size : ℕ)
      → IsDict t d
      → size ≤ 2 ^ 60
      → Returns (expand d size) (Expanded d size)
  unfolding expand
  expand-Expanded d size v small = elim (Bool-cases (is_rehashing d || ltb size d.ht0.used)) [
    | inl y ↦ rw y ((false, d), refl, refusal d size v (inl y))
    | inr n ↦ rw n (
        Returns-bind (next_power-IsLeastPower size (omega arith)) λ r p.
          let still : d.rehashidx ≡ none = ground arith in
          let pos : 0 < r = omega (arith, p.at_least) in
          let low : r < 2 ^ 61 = omega (arith, p.least) in
          elim (Bool-cases (r == d.ht0.size)) [
            | inl y ↦
                let same = subst (IsLeastPower size) ((==_iff r d.ht0.size).0 y) p in
                rw y ((false, d), refl, refusal d size v (inr same))
            | inr m ↦
                let other : r ≢ d.ht0.size = λ e. cc (m, (==_iff r d.ht0.size).1 e) in
                let here = first_installed d (new_table r) still in
                rw m (elim (List-cases d.ht0.table) [
                  | inl e ↦ rw (is_null-nil d.ht0 e) (
                    (true, record d { ht0 = new_table r }),
                    refl,
                    record {
                      keeps = first_table-Keeps d r v still (unused_of_nil d.ht0 v.first e) pos low;
                      refused = λ f. absurd (cc);
                      reason = λ f. absurd (cc);
                      grown = λ _. subst (λ h. IsLeastPower size h.size) here p;
                      vacant = λ _.
                          subst (λ h. (h.used ≡ 0) × (flatten h.table ≡ [])) here
                            (refl, flatten-new_table r);
                      accepted = λ _. (n, subst (λ h. h.size ≢ d.ht0.size) here other);
                      ready = λ _. pos;
                    },
                  )
                  | inr (b, bs, e) ↦
                      let filled : 0 < d.ht0.size = ground (arith, v.first.width) in
                      rw (is_null-cons d.ht0 b bs e) (
                        (true, record d { ht1 = new_table r; rehashidx = some 0 }),
                        refl,
                        record {
                          keeps = second_table-Keeps d r v still filled pos low;
                          refused = λ f. absurd (cc);
                          reason = λ f. absurd (cc);
                          grown = λ _. p;
                          vacant = λ _. (refl, flatten-new_table r);
                          accepted = λ _. (n, other);
                          ready = λ _. filled;
                        },
                      )
                ])
          ])
  ]

  -- What `_dictExpandIfNeeded` promises: it succeeds, and the first table has buckets.
  abbrev pub Ready : Dict K V → Bool × Dict K V → Type ℓ
  Ready d r = Keeps t d r.1 × (r.0 ≡ true) × (0 < r.1.ht0.size)

  expand-Ready :
      (d : Dict K V) (size : ℕ)
      → IsDict t d
      → size ≤ 2 ^ 60
      → (is_rehashing d || ltb size d.ht0.used) ≡ false
      → d.ht0.size < size
      → Returns (expand d size) (Ready d)
  expand-Ready d size v small open_ more =
      let r = expand-Expanded d size v small in
      let done : r.0.0 ≡ true = elim (Bool-cases r.0.0) [
        | inl y ↦ y
        | inr n ↦ elim (r.2.reason n) [
          | inl y ↦ absurd (ground arith)
          | inr p ↦ absurd (omega (arith, p.enough))
        ]
      ] in
      (r.0, r.1, (r.2.keeps, done, r.2.ready done))

  pub unused_of_size : (h : Table K V) → IsTable t h → h.size ≡ 0 → h.used ≡ 0
  unused_of_size h w e = elim (List-cases h.table) [
    | inl n ↦ unused_of_nil h w n
    | inr (b, bs, c) ↦ absurd (omega (arith, w.width, ap (length {A = Bucket K V}) c))
  ]

  pub going : (d : Dict K V) → IsDict t d → is_rehashing d ≡ true → 0 < d.ht0.size
  going d v y = elim (Option-cases d.rehashidx) [
    | inl e ↦ absurd (ground arith)
    | inr (i, e) ↦ (v.busy i e).0
  ]

  guard_open :
      (d : Dict K V) (size : ℕ)
      → is_rehashing d ≡ false
      → d.ht0.used ≤ size
      → (is_rehashing d || ltb size d.ht0.used) ≡ false
  guard_open d size still le = rw still (ground arith)

  double_fits : (n : ℕ) → n < 2 ^ 59 → n * 2 % u64 ≡ n * 2
  double_fits n h = omega arith

  abbrev full : Bool → Dict K V → Bool
  full can_resize d =
      leb d.ht0.size d.ht0.used && (can_resize || ltb force_resize_ratio (d.ht0.used / d.ht0.size))

  -- `_dictExpandIfNeeded` on a well-formed dictionary with fewer than 2 ^ 59 entries never returns
  -- DICT_ERR, keeps every lookup, and leaves a first table with buckets.
  pub expand_if_needed-Ready :
      (can_resize : Bool) (d : Dict K V)
      → IsDict t d
      → d.ht0.used + d.ht1.used < 2 ^ 59
      → Returns (expand_if_needed can_resize d) (Ready d)
  unfolding expand_if_needed
  expand_if_needed-Ready can_resize d v few = elim (Bool-cases (is_rehashing d)) [
    | inl y ↦ rw y ((true, d), refl, (Keeps-refl t d v, refl, going d v y))
    | inr still ↦ rw still (elim (Bool-cases (d.ht0.size == 0)) [
      | inl y ↦ rw y (
          expand-Ready d initial_size v (omega arith)
            (guard_open d initial_size still (ground (arith, unused_of_size d.ht0 v.first)))
            (ground arith))
      | inr n ↦ rw n (elim (Bool-cases (full can_resize d)) [
        | inl y ↦
            let crowded : d.ht0.size ≤ d.ht0.used = ground arith in
            let some_size : 0 < d.ht0.size = ground arith in
            rw (y, double_fits d.ht0.used (omega arith))
              (expand-Ready d (d.ht0.used * 2) v (omega arith)
                (guard_open d (d.ht0.used * 2) still (omega arith)) (omega arith))
        | inr m ↦ rw m ((true, d), refl, (Keeps-refl t d v, refl, ground arith))
      ])
    ])
  ]
