-- ===== src/Dict/Types.antt =====
-- The structures of src/include/dict.h, and the functions of src/dict.c that create them.
-- A bucket is the list of its chained entries. A table that is `NULL` is the empty list of buckets.
use redis_counter.Base.{
  ℕ, ◌*◌, ◌/◌, ◌%◌, ◌≡◌, Bool, true, ◌||◌, Option, none, some, List, [], is_some, replicate, u64,
  sub64, add64,
}

-- `dictType`, less the two destructors, which only release memory. A key is compared by its
-- pointer (`same_pointer`) and by the callback.
pub record DictType {ℓ} (K V : Type ℓ) : Type ℓ where
  pub hash_function : K → ℕ
  pub key_dup : Option (K → K)
  pub val_dup : Option (V → V)
  pub key_compare : Option (K → K → Bool)
  pub same_pointer : K → K → Bool

pub record Entry {ℓ} (K V : Type ℓ) : Type ℓ where
  pub key : K
  pub val : V

abbrev pub Bucket {ℓ} : Type ℓ → Type ℓ → Type ℓ
Bucket K V = List (Entry K V)

pub record Table {ℓ} (K V : Type ℓ) : Type ℓ where
  pub table : List (Bucket K V)
  pub size : ℕ
  pub sizemask : ℕ
  pub used : ℕ

-- `rehashidx` is `none` for -1.
pub record Dict {ℓ} (K V : Type ℓ) : Type ℓ where
  pub ht0 : Table K V
  pub ht1 : Table K V
  pub rehashidx : Option ℕ
  pub iterators : ℕ

-- A `dictEntry *` that points into a dictionary: the table, the bucket, and the place in its chain.
pub record Ref : Type 0 where
  pub second : Bool
  pub index : ℕ
  pub place : ℕ

abbrev pub initial_size : ℕ
initial_size = 4

abbrev pub force_resize_ratio : ℕ
force_resize_ratio = 5

module _ {ℓ} {K V : Type ℓ} where
  abbrev pub reset : Table K V
  reset = record { table = []; size = 0; sizemask = 0; used = 0 }

  abbrev pub create : Dict K V
  create = record { ht0 = reset; ht1 = reset; rehashidx = none; iterators = 0 }

  -- The table that `dictExpand` prepares: `zcalloc` has room for as many pointers as the
  -- byte count, taken modulo 2 ^ 64, allows.
  abbrev pub new_table : ℕ → Table K V
  new_table n = record {
    table = replicate (n * 8 % u64 / 8) [];
    size = n;
    sizemask = sub64 n 1;
    used = 0;
  }

  abbrev pub is_rehashing : Dict K V → Bool
  is_rehashing d = is_some d.rehashidx

  abbrev pub dict_size : Dict K V → ℕ
  dict_size d = add64 d.ht0.used d.ht1.used

  abbrev pub dict_slots : Dict K V → ℕ
  dict_slots d = add64 d.ht0.size d.ht1.size

module _ {ℓ} {K V : Type ℓ} (t : DictType K V) where
  -- `dictCompareKeys`; without a callback the pointers are compared
  abbrev pub compare_keys : K → K → Bool
  compare_keys a b = elim t.key_compare [ none ↦ t.same_pointer a b | some f ↦ f a b ]

  -- the test of every search: `key==he->key || dictCompareKeys(d, key, he->key)`
  unfoldable pub matches : K → K → Bool
  matches a b = t.same_pointer a b || compare_keys a b

  unfoldable pub stored_key : K → K
  stored_key k = elim t.key_dup [ none ↦ k | some f ↦ f k ]

  unfoldable pub stored_val : V → V
  stored_val v = elim t.val_dup [ none ↦ v | some f ↦ f v ]

-- What the program relies on: keys that match have one hash, matching is an equivalence, and a
-- duplicated key matches the original.
pub record IsKeyed {ℓ} {K V : Type ℓ} (t : DictType K V) : Type ℓ where
  pub match_refl : (a : K) → matches t a a ≡ true
  pub match_symm : (a b : K) → matches t a b ≡ true → matches t b a ≡ true
  pub match_trans : (a b c : K) → matches t a b ≡ true → matches t b c ≡ true → matches t a c ≡ true
  pub match-hash : (a b : K) → matches t a b ≡ true → t.hash_function a ≡ t.hash_function b
  pub match-dup : (a : K) → matches t (stored_key t a) a ≡ true
