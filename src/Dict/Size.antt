-- ===== src/Dict/Size.antt =====
-- Table sizes: `_dictNextPower`, `dictExpand`, `dictResize` and `_dictExpandIfNeeded` of src/dict.c.
pub mod Expand
pub mod Power
use redis_counter.Base.{
  ℕ, zero, suc, ◌+◌, ◌-◌, ◌*◌, ◌/◌, ◌%◌, ◌^◌, Bool, true, false, not, ◌&&◌, ◌||◌, Option, none,
  some, List, [], ◌∷◌, ltb, leb, ◌==◌, if◌then◌else◌, Run, ok, out_of_fuel, ◌>>=◌, u64,
}
use redis_counter.Dict.Types.{
  Table, Dict, initial_size, force_resize_ratio, new_table, is_rehashing,
}

abbrev pub long_max : ℕ
long_max = 2 ^ 63 - 1

-- The loop of `_dictNextPower` from `i`, on fuel.
unfoldable pub double_until : ℕ → ℕ → ℕ → Run ℕ
double_until zero i size = out_of_fuel
double_until (suc f) i size = elim (leb size i) [
  | true ↦ ok i
  | false ↦ double_until f (i * 2 % u64) size
]

-- From 4, sixty-two rounds reach 2 ^ 63.
unfoldable pub next_power : ℕ → Run ℕ
next_power size = if leb long_max size then ok (long_max + 1) else double_until 62 initial_size size

module _ {ℓ} {K V : Type ℓ} where
  is_null : Table K V → Bool
  is_null h = elim h.table [ [] ↦ true | _ ↦ false ]

  -- The result is `true` for `DICT_OK`.
  unfoldable pub expand : Dict K V → ℕ → Run (Bool × Dict K V)
  unfolding is_null
  expand d size = if is_rehashing d || ltb size d.ht0.used then ok (false, d) else do
    realsize ← next_power size
    if realsize == d.ht0.size
        then ok (false, d)
        else if is_null d.ht0
        then ok (true, record d { ht0 = new_table realsize })
        else ok (true, record d { ht1 = new_table realsize; rehashidx = some 0 })

  -- `minimal` is an `int`: above INT_MAX the conversion keeps the low 32 bits, and a negative
  -- value is raised to the initial size.
  unfoldable pub resize : Bool → Dict K V → Run (Bool × Dict K V)
  resize can_resize d =
      if not can_resize || is_rehashing d
      then ok (false, d)
      else (let minimal = d.ht0.used % 2 ^ 32 in
          expand d
            (if ltb minimal initial_size || leb (2 ^ 31) minimal then initial_size else minimal))

  unfoldable pub expand_if_needed : Bool → Dict K V → Run (Bool × Dict K V)
  expand_if_needed can_resize d =
      if is_rehashing d
      then ok (true, d)
      else if d.ht0.size == 0
      then expand d initial_size
      else if leb d.ht0.size d.ht0.used
          && (can_resize || ltb force_resize_ratio (d.ht0.used / d.ht0.size))
      then expand d (d.ht0.used * 2 % u64)
      else ok (true, d)
