-- ===== src/Dict/Iterate/Visit.antt =====
-- `dictNext` of src/dict.c meets every entry once.
use mathlib.Core.List.{flatten, append_assoc}
use redis_counter.Base.{
  ℕ, zero, suc, ◌≤◌, ◌<◌, ◌≡◌, refl, ◌∙◌, ap, arith, Bool, true, false, Option, none, some, List,
  [], ◌∷◌, ◌++◌, ltb, if◌then◌else◌, length, drop, get_or, at, at-get_or, List-cases, inl, inr, Run,
  ok, ◌>>=◌, Returns, bind_run, bind_assoc,
}
use redis_counter.Dict.Types.{Entry, Bucket, Dict, Ref, is_rehashing}
use redis_counter.Dict.Search.{table_of, ref, load}
use redis_counter.Dict.Iterate.{
  Iterator, chain_head, chain_next, begin, next_bucket, follow, deliver, dict_next,
}

drop_cons {ℓ} :
    {A : Type ℓ} (xs : List A) (i : ℕ) (default : A)
    → i < length xs
    → drop i xs ≡ get_or xs i default ∷ drop (suc i) xs
drop_cons [] i default h = absurd (omega arith)
drop_cons (x ∷ xs) zero default h = refl
drop_cons (x ∷ xs) (suc i) default h = drop_cons xs i default (omega arith)

pub drop_all {ℓ} : {A : Type ℓ} (xs : List A) (i : ℕ) → length xs ≤ i → drop i xs ≡ []
drop_all [] zero h = refl
drop_all [] (suc i) h = refl
drop_all (x ∷ xs) zero h = absurd (omega arith)
drop_all (x ∷ xs) (suc i) h = drop_all xs i (omega arith)

-- An iterator between two buckets
abbrev pub between : Bool → ℕ → Option Ref → Bool → Option ℕ → Iterator
between safe print next s o = record {
  index = o;
  second = s;
  safe = safe;
  entry = none;
  next_entry = next;
  fingerprint = print;
}

abbrev pub tagged : Iterator → Run (Bool × Iterator)
tagged it = ok (true, it)

at-drop {ℓ} :
    {A : Type ℓ} (xs : List A) (i : ℕ)
    → i < length xs
    → (x : A) × (at xs i ≡ ok x) × (drop i xs ≡ x ∷ drop (suc i) xs)
at-drop [] i h = absurd (omega arith)
at-drop (x ∷ xs) zero h = (x, refl, refl)
at-drop (x ∷ xs) (suc i) h = at-drop xs i (omega arith)

module _ {ℓ} {K V : Type ℓ} where
  -- The tables are as long as they say, and the second is not empty during a rehash.
  pub record HasTables (d : Dict K V) : Type ℓ where
    pub width : (s : Bool) → length (table_of s d).table ≡ (table_of s d).size
    pub busy : is_rehashing d ≡ true → 0 < d.ht1.size

  -- The entries behind a table, and from a bucket of a table on
  abbrev pub behind_table : Dict K V → Bool → Bucket K V
  behind_table d true = []
  behind_table d false = if is_rehashing d then flatten d.ht1.table else []

  abbrev pub from_bucket : Dict K V → Bool → ℕ → Bucket K V
  from_bucket d s i = flatten (drop i (table_of s d).table) ++ behind_table d s

  abbrev pub chain : Dict K V → Bool → ℕ → Bucket K V
  chain d s i = get_or (table_of s d).table i []

  -- An iterator at an entry
  abbrev pub standing : Bool → ℕ → Dict K V → Bool → ℕ → ℕ → Iterator
  standing safe print d s k p = record {
    index = some k;
    second = s;
    safe = safe;
    entry = some (ref s k p);
    next_entry = if ltb (suc p) (length (chain d s k)) then some (ref s k (suc p)) else none;
    fingerprint = print;
  }

  -- The iterator is at an entry, with the entries `left` behind it.
  pub record Stands (safe : Bool) (print : ℕ) (d : Dict K V) (left : Bucket K V) (it : Iterator)
      : Type ℓ where
    pub second : Bool
    pub bucket : ℕ
    pub place : ℕ
    pub inside : bucket < (table_of second d).size
    pub in_chain : place < length (chain d second bucket)
    pub same : it ≡ standing safe print d second bucket place
    pub rest : left ≡ drop (suc place) (chain d second bucket) ++ from_bucket d second (suc bucket)

  -- The call of `dictNext` returns the first of the entries `left`.
  abbrev pub Delivers : Bool → ℕ → Dict K V → Bucket K V → Option Ref × Dict K V × Iterator → Type ℓ
  Delivers safe print d [] r =
      (r.0 ≡ none)
      × (r.1 ≡ d)
      × ((i : ℕ) × (r.2.index ≡ some i) × (r.2.safe ≡ safe) × (r.2.fingerprint ≡ print))
  Delivers safe print d (e ∷ left) r =
      (x : Ref) × (r.0 ≡ some x) × (r.1 ≡ d) × (load d x ≡ ok e) × Stands safe print d left r.2

  from_bucket-cons :
      (d : Dict K V) (s : Bool) (i : ℕ)
      → i < length (table_of s d).table
      → from_bucket d s i ≡ chain d s i ++ from_bucket d s (suc i)
  unfolding flatten
  from_bucket-cons d s i h =
      ap (λ b. flatten b ++ behind_table d s) (drop_cons (table_of s d).table i [] h)
      ∙ append_assoc (chain d s i) (flatten (drop (suc i) (table_of s d).table)) (behind_table d s)

  chain-at :
      (d : Dict K V) (s : Bool) (i : ℕ)
      → HasTables d
      → i < (table_of s d).size
      → at (table_of s d).table i ≡ ok (chain d s i)
  chain-at d s i w h = at-get_or (table_of s d).table i [] (omega (arith, w.width s))

  -- The delivery of the entry at a place
  pub found :
      (safe : Bool) (print : ℕ)
      (again : Dict K V → Iterator → Run (Option Ref × Dict K V × Iterator)) (d : Dict K V)
      (s : Bool) (k p : ℕ) (next : Option Ref)
      → HasTables d
      → k < (table_of s d).size
      → p < length (chain d s k)
      → Returns
          (deliver again
            (true, d, record (between safe print next s (some k)) { entry = some (ref s k p) }))
          (Delivers safe print d (drop p (chain d s k) ++ from_bucket d s (suc k)))
  unfolding deliver chain_next load
  found safe print again d s k p next w h q =
      let m = at-drop (chain d s k) p q in
      let c = chain-at d s k w h in
      rw (c, m.2)
        (
          _,
          refl,
          (
            ref s k p,
            refl,
            refl,
            bind_run _ c m.1,
            record {
              second = s;
              bucket = k;
              place = p;
              inside = h;
              in_chain = q;
              same = refl;
              rest = refl;
            },
          ),
        )

  pub deliver_again :
      {Q : Option Ref × Dict K V × Iterator → Type ℓ}
      (again : Dict K V → Iterator → Run (Option Ref × Dict K V × Iterator)) (d : Dict K V)
      (it : Iterator)
      → it.entry ≡ none
      → Returns (again d it) Q
      → Returns (deliver again (true, d, it)) Q
  unfolding deliver
  deliver_again again d it e r = rw e r

  chain_head-none :
      (d : Dict K V) (s : Bool) (i : ℕ)
      → HasTables d
      → i < (table_of s d).size
      → chain d s i ≡ []
      → chain_head d s i ≡ ok none
  unfolding chain_head
  chain_head-none d s i w h e = rw (chain-at d s i w h, e) refl

  chain_head-some :
      (d : Dict K V) (s : Bool) (i : ℕ)
      → HasTables d
      → i < (table_of s d).size
      → (x : Entry K V) (xs : Bucket K V) → chain d s i ≡ x ∷ xs
      → chain_head d s i ≡ ok (some (ref s i 0))
  unfolding chain_head
  chain_head-some d s i w h x xs e = rw (chain-at d s i w h, e) refl

  -- `dictNext` where `iter->entry` is `NULL`
  pub dict_next-between :
      (safe : Bool) (print : ℕ) (addresses : ℕ × ℕ) (n : ℕ) (d : Dict K V) (s : Bool) (k : ℕ)
      (next : Option Ref)
      → dict_next addresses (suc n) d (between safe print next s (some k)) ≡ (
          next_bucket d (between safe print next s (some k)) >>= λ r.
          deliver (dict_next addresses n) (r.0, d, r.1))
  unfolding dict_next follow begin
  dict_next-between safe print addresses n d s k next =
      bind_assoc (next_bucket d (between safe print next s (some k))) (λ r. ok (r.0, d, r.1))
        (deliver (dict_next addresses n))

  -- The round after a bucket has been chosen
  pub bucket-Delivers :
      (safe : Bool) (print : ℕ)
      (again : Dict K V → Iterator → Run (Option Ref × Dict K V × Iterator)) (d : Dict K V)
      (s s' : Bool) (o : Option ℕ) (i : ℕ) (next : Option Ref)
      → HasTables d
      → i < (table_of s d).size
      → Returns
          (again d (between safe print next s (some i)))
          (Delivers safe print d (from_bucket d s (suc i)))
      → Returns
          (chain_head d s i >>= λ e. deliver again (
            true,
            d,
            record (between safe print next s' o) { index = some i; second = s; entry = e },
          ))
          (Delivers safe print d (from_bucket d s i))
  bucket-Delivers safe print again d s s' o i next w h more =
      rw (from_bucket-cons d s i (omega (arith, w.width s))) (elim (List-cases (chain d s i)) [
        | inl e ↦
            rw (chain_head-none d s i w h e, e)
              (deliver_again again d (between safe print next s (some i)) refl more)
        | inr (x, xs, e) ↦
            let some_entry : 0 < length (chain d s i) = rw e (omega arith) in
            rw (chain_head-some d s i w h x xs e)
              (found safe print again d s i 0 next w h some_entry)
      ])
