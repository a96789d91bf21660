-- ===== src/Dict/Iterate/Whole.antt =====
-- A whole iteration over a dictionary of src/dict.c, from the first `dictNext` to the release.
use mathlib.Core.List.{flatten}
use redis_counter.Base.{
  ℕ, zero, suc, ◌+◌, ◌-◌, ◌%◌, ◌^◌, ◌≤◌, ◌<◌, ◌≡◌, refl, sym, ◌∙◌, ap, arith, Bool, true, false,
  none, some, List, [], ◌∷◌, ◌++◌, ltb, ◌==◌, if◌then◌else◌, length, drop, inc64, dec64, ==_iff,
  Option-cases, Bool-cases, inl, inr, Run, ok, ◌>>=◌, Returns, Returns-bind, bind_run, bind_assoc,
}
use redis_counter.Dict.Types.{DictType, Bucket, Dict, is_rehashing}
use redis_counter.Dict.Model.{IsDict}
use redis_counter.Dict.Search.{table_of, ref}
use redis_counter.Dict.Iterate.{
  Iterator, get_iterator_with, dict_fingerprint, begin, next_bucket, next_index, follow, deliver,
  dict_next, visit_all, release_iterator, close_visit, iterate,
}
use redis_counter.Dict.Iterate.Visit.{
  HasTables, from_bucket, chain, between, standing, Stands, Delivers, found, deliver_again,
}
use redis_counter.Dict.Iterate.Rounds.{buckets_left, search-Delivers, choose-Delivers}

drop_past {ℓ} : {A : Type ℓ} (n : ℕ) (xs : List A) → length xs ≤ n → drop n xs ≡ []
drop_past zero [] h = refl
drop_past (suc n) [] h = refl
drop_past zero (x ∷ xs) h = absurd (omega arith)
drop_past (suc n) (x ∷ xs) h = drop_past n xs (omega arith)

module _ {ℓ} {K V : Type ℓ} where
  few_buckets :
      (d : Dict K V) (s : Bool) (k n : ℕ)
      → d.ht0.size + d.ht1.size + 1 < n
      → buckets_left d s (suc k) < n
  few_buckets d true k n h = omega arith
  few_buckets d false k n h = omega arith

  follow-Delivers :
      (safe : Bool) (print : ℕ) (addresses : ℕ × ℕ) (n : ℕ) (d : Dict K V) (s : Bool) (k p : ℕ)
      → HasTables d
      → d.ht0.size + d.ht1.size + 1 < n
      → k < (table_of s d).size
      → p < length (chain d s k)
      → Returns
          (dict_next addresses (suc n) d (standing safe print d s k p))
          (Delivers safe print d (drop (suc p) (chain d s k) ++ from_bucket d s (suc k)))
  unfolding dict_next follow
  follow-Delivers safe print addresses n d s k p w fuel h q =
      elim (Bool-cases (ltb (suc p) (length (chain d s k)))) [
        | inl y ↦ rw y (
            found safe print (dict_next addresses n) d s k (suc p) (some (ref s k (suc p))) w h
              (ground arith))
        | inr last ↦
            rw (last, drop_past (suc p) (chain d s k) (ground arith))
              (deliver_again (dict_next addresses n) d (between safe print none s (some k)) refl
                (search-Delivers safe print addresses n d w s k none (few_buckets d s k n fuel)))
      ]

  Stands-Delivers :
      (safe : Bool) (print : ℕ) (addresses : ℕ × ℕ) (n : ℕ) (d : Dict K V) (left : Bucket K V)
      (it : Iterator)
      → HasTables d
      → d.ht0.size + d.ht1.size + 1 < n
      → Stands safe print d left it
      → Returns (dict_next addresses (suc n) d it) (Delivers safe print d left)
  Stands-Delivers safe print addresses n d left it w fuel t =
      rw (t.same, t.rest)
        (follow-Delivers safe print addresses n d t.second t.bucket t.place w fuel t.inside
          t.in_chain)

  abbrev carry : Dict K V → Bool × Iterator → Run (Bool × Dict K V × Iterator)
  carry d r = ok (r.0, d, r.1)

  from_start :
      (safe : Bool) (print : ℕ) (addresses : ℕ × ℕ) (n : ℕ) (d : Dict K V)
      → HasTables d
      → d.ht0.size + d.ht1.size + 1 < n
      → Returns
          ((next_bucket d (between safe print none false none) >>= carry d)
            >>= deliver (dict_next addresses n))
          (Delivers safe print d (from_bucket d false 0))
  unfolding next_index
  from_start safe print addresses n d w fuel =
      rw
        (bind_assoc (next_bucket d (between safe print none false none)) (carry d)
          (deliver (dict_next addresses n)))
        (choose-Delivers safe print addresses n d false none none w
          (search-Delivers safe print addresses n d w) (omega arith))

  counted_width :
      (d : Dict K V)
      → HasTables d
      → (s : Bool)
      → length (table_of s (record d { iterators = inc64 d.iterators })).table
        ≡ (table_of s (record d { iterators = inc64 d.iterators })).size
  counted_width d w true = w.width true
  counted_width d w false = w.width false

  counted-HasTables :
      (d : Dict K V) → HasTables d → HasTables (record d { iterators = inc64 d.iterators })
  counted-HasTables d w = record { width = counted_width d w; busy = w.busy }

  -- The first call
  first-Delivers :
      (safe : Bool) (addresses : ℕ × ℕ) (junk n : ℕ) (d : Dict K V)
      → HasTables d
      → d.ht0.size + d.ht1.size + 1 < n
      → Returns (dict_next addresses (suc n) d (get_iterator_with junk safe)) (
          Delivers safe
            (if safe then junk else dict_fingerprint addresses d)
            (if safe then record d { iterators = inc64 d.iterators } else d)
            (from_bucket d false 0))
  unfolding dict_next follow get_iterator_with begin next_index
  first-Delivers true addresses junk n d w fuel =
      let d1 : Dict K V = record d { iterators = inc64 d.iterators } in
      from_start true junk addresses n d1 (counted-HasTables d w) (omega arith)
  first-Delivers false addresses junk n d w fuel =
      from_start false (dict_fingerprint addresses d) addresses n d w (omega arith)

  -- The loop, from an entry on: what it visits, and the iterator at its end
  visit_all-Stands :
      (safe : Bool) (print : ℕ) (addresses : ℕ × ℕ) (fuel : ℕ) (d : Dict K V) (left : Bucket K V)
      (it : Iterator)
      → HasTables d
      → d.ht0.size + d.ht1.size + 1 < fuel
      → Stands safe print d left it
      → Returns
          (visit_all addresses (suc (length left)) (suc fuel) d it)
          (λ r. (r.0 ≡ left) × Delivers safe print d [] (none, r.1, r.2))
  unfolding visit_all
  visit_all-Stands safe print addresses fuel d [] it w enough t =
      Returns-bind (Stands-Delivers safe print addresses fuel d [] it w enough t)
        λ r e. rw e.0 (([], r.1, r.2), refl, (refl, (refl, e.1, e.2)))
  visit_all-Stands safe print addresses fuel d (x ∷ left) it w enough t =
      Returns-bind (Stands-Delivers safe print addresses fuel d (x ∷ left) it w enough t) λ r e.
        rw (e.1, e.2, e.3)
          (Returns-bind (visit_all-Stands safe print addresses fuel d left r.2 w enough e.4)
            λ q f. ((x ∷ q.0, q.1, q.2), refl, (ap (λ u. x ∷ u) f.0, f.1)))

  -- The loop from its first call
  visit_all_first :
      (safe : Bool) (print : ℕ) (addresses : ℕ × ℕ) (fuel : ℕ) (d d1 : Dict K V) (all : Bucket K V)
      (it : Iterator)
      → HasTables d1
      → d1.ht0.size + d1.ht1.size + 1 < fuel
      → Returns (dict_next addresses (suc fuel) d it) (Delivers safe print d1 all)
      → Returns
          (visit_all addresses (suc (length all)) (suc fuel) d it)
          (λ r. (r.0 ≡ all) × Delivers safe print d1 [] (none, r.1, r.2))
  unfolding visit_all
  visit_all_first safe print addresses fuel d d1 [] it w enough m =
      Returns-bind m λ r e. rw e.0 (([], r.1, r.2), refl, (refl, (refl, e.1, e.2)))
  visit_all_first safe print addresses fuel d d1 (x ∷ left) it w enough m = Returns-bind m λ r e.
      rw (e.1, e.2, e.3)
        (Returns-bind (visit_all-Stands safe print addresses fuel d1 left r.2 w enough e.4)
          λ q f. ((x ∷ q.0, q.1, q.2), refl, (ap (λ u. x ∷ u) f.0, f.1)))

  abbrev uncount : Dict K V → Dict K V
  uncount d = record d { iterators = dec64 d.iterators }

  abbrev with_count : Dict K V → ℕ → Dict K V
  with_count d n = record d { iterators = n }

  release-back :
      (addresses : ℕ × ℕ) (safe : Bool) (d d1 : Dict K V) (it : Iterator) (i : ℕ)
      → it.index ≡ some i
      → it.safe ≡ safe
      → (safe ≡ false → it.fingerprint ≡ dict_fingerprint addresses d1)
      → (safe ≡ true → d1 ≡ record d { iterators = inc64 d.iterators })
      → (safe ≡ false → d1 ≡ d)
      → d.iterators < 2 ^ 64
      → release_iterator addresses d1 it ≡ ok d
  unfolding release_iterator
  release-back addresses true d d1 it i e f g counted same few =
      let back : (inc64 d.iterators + (2 ^ 64 - 1)) % 2 ^ 64 ≡ d.iterators = omega arith in
      let counter = ap (λ c. c.iterators) (counted refl) in
      rw (e, f) (ap (λ c. ok (uncount c)) (counted refl) ∙ ap (λ n. ok (with_count d n)) back)
  release-back addresses false d d1 it i e f g counted same few =
      let y : (it.fingerprint == dict_fingerprint addresses d1) ≡ true =
        (==_iff it.fingerprint (dict_fingerprint addresses d1)).1 (g refl) in
      rw (e, f, y) (ap ok (same refl))

  finished :
      (addresses : ℕ × ℕ) (safe : Bool) (n fuel : ℕ) (d d1 : Dict K V) (print : ℕ)
      (all : Bucket K V) (it : Iterator)
      → Returns
          (visit_all addresses n fuel d it)
          (λ r. (r.0 ≡ all) × Delivers safe print d1 [] (none, r.1, r.2))
      → (safe ≡ true → d1 ≡ record d { iterators = inc64 d.iterators })
      → (safe ≡ false → (d1 ≡ d) × (print ≡ dict_fingerprint addresses d))
      → d.iterators < 2 ^ 64
      → (visit_all addresses n fuel d it >>= λ r. close_visit addresses r) ≡ ok (all, d)
  unfolding close_visit
  finished addresses safe n fuel d d1 print all it m counted same few =
      let e = m.2 in
      let f = e.1.2 in
      let back =
        release-back addresses safe d d1 m.0.2 f.0 f.1 f.2
          (λ h. f.3 ∙ (same h).1 ∙ ap (dict_fingerprint addresses) (sym (same h).0)) counted
          (λ h. (same h).0) few in
      bind_run _ m.1 (
        bind_run _ (ap (λ q. release_iterator addresses q m.0.2) e.1.1 ∙ back)
          (ap (λ b. ok (b, d)) e.0))

  -- The entries of both tables, bucket by bucket
  abbrev pub all_entries : Dict K V → Bucket K V
  all_entries d = flatten d.ht0.table ++ (if is_rehashing d then flatten d.ht1.table else [])

module _ {ℓ} {K V : Type ℓ} (t : DictType K V) where
  widths :
      (d : Dict K V) → IsDict t d → (s : Bool) → length (table_of s d).table ≡ (table_of s d).size
  widths d v true = v.second.width
  widths d v false = v.first.width

  IsDict-HasTables : (d : Dict K V) → IsDict t d → HasTables d
  IsDict-HasTables d v = record {
    width = widths d v;
    busy = λ b. elim (Option-cases d.rehashidx) [
      | inl e ↦ absurd (ground arith)
      | inr m ↦ (v.busy m.0 m.1).1
    ];
  }

  -- A loop over dictNext, from dictGetIterator or dictGetSafeIterator to dictReleaseIterator, on a
  -- well-formed dictionary that the loop does not change, with fewer than 2 ^ 64 iterators, ends,
  -- visits every entry of both tables once, bucket by bucket, passes the check of the fingerprint
  -- and leaves the dictionary as it was.
  pub iterate-all_entries :
      (addresses : ℕ × ℕ) (junk : ℕ) (safe : Bool) (d : Dict K V)
      → IsDict t d
      → d.iterators < 2 ^ 64
      → iterate addresses junk
          (suc (length (all_entries d)))
          (suc (d.ht0.size + d.ht1.size + 2))
          safe
          d
        ≡ ok (all_entries d, d)
  unfolding iterate
  iterate-all_entries addresses junk true d v few =
      let d1 : Dict K V = record d { iterators = inc64 d.iterators } in
      let w = IsDict-HasTables d v in
      let fuel = d.ht0.size + d.ht1.size + 2 in
      let m =
        visit_all_first true junk addresses fuel d d1 (from_bucket d false 0)
          (get_iterator_with junk true) (counted-HasTables d w) (omega arith)
          (first-Delivers true addresses junk fuel d w (omega arith)) in
      finished addresses true _ _ d d1 junk _ _ m (λ _. refl) (λ h. absurd (ground arith)) few
  iterate-all_entries addresses junk false d v few =
      let w = IsDict-HasTables d v in
      let fuel = d.ht0.size + d.ht1.size + 2 in
      let m =
        visit_all_first false (dict_fingerprint addresses d) addresses fuel d d
          (from_bucket d false 0) (get_iterator_with junk false) w (omega arith)
          (first-Delivers false addresses junk fuel d w (omega arith)) in
      finished addresses false _ _ d d (dict_fingerprint addresses d) _ _ m
        (λ h. absurd (ground arith)) (λ _. (refl, refl)) few
