-- ===== src/Dict/Model.antt =====
-- What a dictionary of src/dict.c stands for, and when its two tables are well formed.
use redis_counter.Base.{
  ℕ, ◌+◌, ◌-◌, ◌≤◌, ◌<◌, ◌≡◌, ◌≢◌, Option, none, some, [], arith, length, get_or, u64, bit_and,
}
use redis_counter.Base.Bits.{bit_and-le}
use mathlib.Core.Option.{or_else}
use mathlib.Core.List.{flatten}
use redis_counter.Dict.Types.{DictType, Bucket, Table, Dict, reset}
use redis_counter.Dict.Chain.{lookup, count}

module _ {ℓ} {K V : Type ℓ} (t : DictType K V) where
  -- the bucket that a key belongs to
  unfoldable pub home : Table K V → K → ℕ
  home h k = bit_and (t.hash_function k) h.sizemask

  unfoldable pub chain_of : Table K V → K → Bucket K V
  chain_of h k = get_or h.table (home h k) []

  -- the value of a key: in the first table, or else in the second
  unfoldable pub view : Dict K V → K → Option V
  view d k = or_else (lookup t k (chain_of d.ht0 k)) (lookup t k (chain_of d.ht1 k))

  -- Sizes agree, `used` counts the entries, and a key's entries stand in its home bucket alone.
  pub record IsTable (h : Table K V) : Type ℓ where
    pub width : length h.table ≡ h.size
    pub mask : h.sizemask ≡ h.size - 1
    pub filled : h.used ≡ length (flatten h.table)
    pub placed : (q : K) (i : ℕ) → home h q ≢ i → count t q (get_or h.table i []) ≡ 0

  -- No key has two entries; the second table is in use exactly during a rehash, and then the
  -- buckets below `rehashidx` have been emptied.
  pub record IsDict (d : Dict K V) : Type ℓ where
    pub first : IsTable d.ht0
    pub second : IsTable d.ht1
    pub unique : (q : K) → count t q (chain_of d.ht0 q) + count t q (chain_of d.ht1 q) ≤ 1
    pub room : d.ht0.used + d.ht1.used < u64
    pub idle : d.rehashidx ≡ none → d.ht1 ≡ reset
    pub busy : (i : ℕ) → d.rehashidx ≡ some i → (0 < d.ht0.size) × (0 < d.ht1.size)
    pub moved : (i j : ℕ) → d.rehashidx ≡ some i → j < i → get_or d.ht0.table j [] ≡ []

  pub home-lt : (h : Table K V) (k : K) → IsTable h → 0 < h.size → home h k < length h.table
  unfolding home
  home-lt h k w pos = omega (arith, bit_and-le (t.hash_function k) h.sizemask)
