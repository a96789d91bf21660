-- ===== src/Db.antt =====
-- The keyspace: src/db.c, with `robj`, `incrRefCount` and `lookupKey` of src/object.c and
-- src/include/object.h. The dictionary holds pointers to objects of which each belongs to one entry
-- and is reached only through it, so an object stands in the entry itself.
pub mod Keys
pub mod Store
pub mod Counter
use Prim.Native.Nat.{min}
use redis_counter.Base.{
  ℕ, zero, suc, take, ◌≡◌, ◌+◌, ◌-◌, ◌%◌, ◌^◌, Bool, true, false, not, ◌&&◌, Option, none, some,
  List, [], ◌∷◌, ltb, ◌==◌, if◌then◌else◌, length, replicate, ℤ, pos, negsuc, Run, ok, crash,
  out_of_fuel, ◌>>=◌, ◌>>◌, assert,
}
use redis_counter.Dict.Types.{DictType, Entry, Dict, stored_val}
use redis_counter.Dict.Search.{find, load}
use redis_counter.Dict.Update.{add, store}
use redis_counter.SipHash.{siphash}
use redis_counter.Number.{atol, ll2str}

-- The `ptr` of an object: the address of a string, with the text up to its null byte, or a number
-- that is no address of a string; `NULL` is `raw 0`.
pub data Ptr : Type 0 where
  string : ℕ → List ℕ → Ptr
  raw : ℕ → Ptr

-- The fields of `redisObject` that the program reads or writes; `refcount` is a pattern of 32 bits.
pub record Robj : Type 0 where
  pub refcount : ℕ
  pub ptr : Ptr

-- A key of the keyspace: a string whose length the `int` of `dictSdsKeyCompare` and of
-- `dictGenHashFunction` can hold. A longer key makes that length negative or another number.
abbrev pub Key : Type 0
Key = (k : List ℕ) × (ltb (length k) (2 ^ 31) ≡ true)

abbrev pub Db : Type 0
Db = Dict Key Robj

-- `OBJ_SHARED_REFCOUNT`
abbrev pub shared_refcount : ℕ
shared_refcount = 2 ^ 31 - 1

unfoldable pub incr_ref_count : Robj → Robj
incr_ref_count o =
    if not (o.refcount == shared_refcount)
    then record o { refcount = (o.refcount + 1) % 2 ^ 32 }
    else o

-- A text as a C function reads it
unfoldable pub until_null : List ℕ → List ℕ
until_null [] = []
until_null (c ∷ p) = if c == 0 then [] else c ∷ until_null p

-- `memcmp(p, q, n) == 0` for texts of one length
unfoldable pub same_bytes : List ℕ → List ℕ → Bool
same_bytes [] q = true
same_bytes (c ∷ p) [] = false
same_bytes (c ∷ p) (d ∷ q) = c == d && same_bytes p q

-- `int l1,l2`, which take the low 32 bits of the lengths; those of a `Key` are not negative.
unfoldable pub sds_key_compare : Key → Key → Bool
sds_key_compare k l =
    let l1 = length k.0 % 2 ^ 32 in
    let l2 = length l.0 % 2 ^ 32 in
    if not (l1 == l2) then false else same_bytes (take l1 k.0) (take l1 l.0)

-- `dictGenHashFunction(key, sdslen(key))` with the seed, of which the length is an `int`;
-- SipHash.Bounds shows that the hash returns.
unfoldable pub sds_hash : List ℕ → Key → ℕ
sds_hash seed k = elim (siphash k.0 (length k.0 % 2 ^ 32) seed) [
  | ok h ↦ h
  | crash ↦ 0
  | out_of_fuel ↦ 0
]

-- `dbDictType`, with the seed of the hash and the comparison of key pointers
unfoldable pub db_dict_type : (seed : List ℕ) (same_pointer : Key → Key → Bool) → DictType Key Robj
db_dict_type seed same_pointer = record {
  hash_function = sds_hash seed;
  key_dup = none;
  val_dup = none;
  key_compare = some sds_key_compare;
  same_pointer = same_pointer;
}

-- The text that a C function reads through a pointer; `memory` is what the process has at an address
-- that is not the address of a string, and none where the read faults.
unfoldable pub read_string : (ℕ → Option (List ℕ)) → Ptr → Run (List ℕ)
read_string memory (string a t) = ok t
read_string memory (raw n) = elim (memory n) [ none ↦ crash | some t ↦ ok t ]

-- The bits of a pointer as a number
unfoldable pub address : Ptr → ℕ
address (string a t) = a
address (raw n) = n

-- `value + 1` for a `long`, of which the overflow is undefined
unfoldable pub inc_long : ℤ → Run ℤ
inc_long (pos n) = if ltb (n + 1) (2 ^ 63) then ok (pos (n + 1)) else crash
inc_long (negsuc zero) = ok (pos 0)
inc_long (negsuc (suc n)) = ok (negsuc n)

-- The number that `incrKey` stores
unfoldable pub next_value : (ℕ → Option (List ℕ)) → Option Robj → Run ℤ
next_value memory none = ok (pos 1)
next_value memory (some o) = do text ← read_string memory o.ptr; inc_long (atol text)

-- `(long)` of an address of 64 bits
unfoldable pub to_long : ℕ → ℤ
to_long a = if ltb a (2 ^ 63) then pos a else negsuc (2 ^ 64 - 1 - a)

-- `value - 1` for a `long`, of which the overflow is undefined
unfoldable pub dec_long : ℤ → Run ℤ
dec_long (pos zero) = ok (negsuc 0)
dec_long (pos (suc n)) = ok (pos n)
dec_long (negsuc n) = if ltb (n + 1) (2 ^ 63) then ok (negsuc (n + 1)) else crash

-- `if(value <= 0) value = 0`
unfoldable pub at_least_zero : ℤ → ℕ
at_least_zero (pos n) = n
at_least_zero (negsuc n) = 0

-- The number that `decrKey` stores
unfoldable pub decr_value : Option Robj → Run ℕ
decr_value none = ok 0
decr_value (some o) = do value ← dec_long (to_long (address o.ptr)); ok (at_least_zero value)

-- `junk` is what an allocation holds before it is written: the fields of an object.
module _ (t : DictType Key Robj) (can_resize : Bool) (junk : Robj) where
  unfoldable pub lookup_key : Db → Key → Run (Option Robj × Db)
  lookup_key db key = do
    (de, db') ← find t db key
    elim de [ none ↦ ok (none, db') | some r ↦ do e ← load db' r; ok (some e.val, db') ]

  -- `serverAssertWithInfo` stops the program if the key exists.
  unfoldable pub db_add : Db → Key → Robj → Run Db
  db_add db key val = do (retval, db') ← add t can_resize junk db key val; assert retval; ok db'

  unfoldable pub db_overwrite : Db → Key → Robj → Run Db
  db_overwrite db key val = do
    (de, db') ← find t db key
    elim de [ none ↦ crash | some r ↦ store db' r (stored_val t val) ]

  -- `dbAdd` if there is no such key, otherwise `dbOverwrite`
  unfoldable pub db_put : Db → Key → Option Robj → Robj → Run Db
  db_put db key none val = db_add db key val
  db_put db key (some old) val = db_overwrite db key val

  -- The count goes up after the object is stored; the dictionary holds that very object.
  unfoldable pub set_key : Db → Key → Robj → Run Db
  set_key db key val = do (ret, db') ← lookup_key db key; db_put db' key ret (incr_ref_count val)

  -- `sdsnew("")` asks for one byte behind the header; `spare` are the bytes that the allocator gives
  -- beyond those, and `a` is the address of the string.
  unfoldable pub incr_key : (ℕ → Option (List ℕ)) → List ℕ → ℕ → Db → Key → Run Db
  incr_key memory spare a db key = do
    (ret, db') ← lookup_key db key
    value ← next_value memory ret
    (buf, l) ← ll2str (0 ∷ spare) value
    db_put db' key ret (record junk { ptr = string a (until_null buf) })

  unfoldable pub decr_key : Db → Key → Run Db
  decr_key db key = do
    (ret, db') ← lookup_key db key
    value ← decr_value ret
    db_put db' key ret (record junk { ptr = raw value })
