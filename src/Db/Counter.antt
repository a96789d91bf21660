-- ===== src/Db/Counter.antt =====
-- `incrKey` and `decrKey` of src/db.c.
use mathlib.Core.Path.{subst}
use redis_counter.Base.{
  ℕ, zero, suc, ◌+◌, ◌-◌, ◌≢◌, ◌/◌, ◌%◌, ◌≤◌, ◌<◌, ◌^◌, ◌≡◌, refl, sym, ◌∙◌, ap, arith, Bool, true,
  false, Bool-cases, Option-cases, ◌⊎◌, inl, inr, Option, none, some, List, [], ◌∷◌, ◌++◌, ltb,
  ◌==◌, length, ℤ, pos, negsuc, ok, crash, ◌>>=◌, Returns, Returns-bind,
}
use redis_counter.Dict.Model.{view, IsDict}
use redis_counter.Sds.{write}
use redis_counter.Number.{atol, ll2str, push_digits, put_sign, terminate, magnitude, max_digits}
use redis_counter.Number.Digits.{AllDigits}
use redis_counter.Number.RoundTrip.{IsLong, signed, decimal, decimal-AllDigits, ll2str-signed}
use redis_counter.Db.Keys.{db_dict_type-IsKeyed}
use redis_counter.Db.Store.{Puts, Stores-Puts, lookup_key-view, db_put-Stores, Keeps-Stores}
use redis_counter.Db.{
  Key, Robj, Db, Ptr, string, raw, db_dict_type, until_null, inc_long, read_string, next_value,
  incr_key, to_long, dec_long, at_least_zero, address, decr_value, decr_key,
}

-- The text of a number, read up to the null byte behind it
until_null-AllDigits : (t r : List ℕ) → AllDigits t → until_null (t ++ 0 ∷ r) ≡ t
unfolding until_null
until_null-AllDigits [] r h = refl
until_null-AllDigits (c ∷ t) r h =
    let z : (c == 0) ≡ false = ground arith in rw (z, until_null-AllDigits t r h.2) refl

until_null-signed : (value : ℤ) (r : List ℕ) → until_null (signed value ++ 0 ∷ r) ≡ signed value
unfolding signed
until_null-signed (pos n) r = until_null-AllDigits (decimal n) r (decimal-AllDigits n)
until_null-signed (negsuc n) r =
    unfold until_null in
    rw (until_null-AllDigits (decimal (suc n)) r (decimal-AllDigits (suc n))) refl

-- One byte has no room for a digit and a null byte.
push_digits_one_byte :
    (b v : ℕ)
    → (push_digits max_digits (b ∷ []) 0 v ≡ crash)
      ⊎ ((c : ℕ) × (push_digits max_digits (b ∷ []) 0 v ≡ ok (c ∷ [], 1)))
unfolding push_digits write
push_digits_one_byte b v = elim (Bool-cases (v / 10 == 0)) [
  | inl y ↦ inr (b'0' + v % 10, rw y refl)
  | inr n ↦ inl (rw n refl)
]

ll2str_one_byte : (b : ℕ) (value : ℤ) → ll2str (b ∷ []) value ≡ crash
unfolding ll2str put_sign terminate write
ll2str_one_byte b (pos n) = elim (push_digits_one_byte b (magnitude (pos n))) [
  | inl e ↦ rw e refl
  | inr (c, e) ↦ rw e refl
]
ll2str_one_byte b (negsuc n) = elim (push_digits_one_byte b (magnitude (negsuc n))) [
  | inl e ↦ rw e refl
  | inr (c, e) ↦ rw e refl
]

inc_long-cases : (v : ℤ) → (inc_long v ≡ crash) ⊎ ((w : ℤ) × (inc_long v ≡ ok w))
unfolding inc_long
inc_long-cases (pos n) = elim (Bool-cases (ltb (n + 1) (2 ^ 63))) [
  | inl y ↦ inr (pos (n + 1), rw y refl)
  | inr f ↦ inl (rw f refl)
]
inc_long-cases (negsuc zero) = inr (pos 0, refl)
inc_long-cases (negsuc (suc n)) = inr (negsuc n, refl)

next_pointer-cases :
    (memory : ℕ → Option (List ℕ)) (p : Ptr)
    → ((read_string memory p >>= λ t. inc_long (atol t)) ≡ crash)
      ⊎ ((w : ℤ) × ((read_string memory p >>= λ t. inc_long (atol t)) ≡ ok w))
unfolding read_string
next_pointer-cases memory (string a t) = inc_long-cases (atol t)
next_pointer-cases memory (raw n) = elim (Option-cases (memory n)) [
  | inl e ↦ inl (rw (e, read_string) refl)
  | inr (t, e) ↦ rw (e, read_string) (inc_long-cases (atol t))
]

next_value-cases :
    (memory : ℕ → Option (List ℕ)) (o : Option Robj)
    → (next_value memory o ≡ crash) ⊎ ((w : ℤ) × (next_value memory o ≡ ok w))
unfolding next_value
next_value-cases memory none = inr (pos 1, refl)
next_value-cases memory (some o) = next_pointer-cases memory o.ptr

-- One more
abbrev pub Successor : ℤ → ℤ → Type 0
Successor (pos n) w = w ≡ pos (n + 1)
Successor (negsuc zero) w = w ≡ pos 0
Successor (negsuc (suc n)) w = w ≡ negsuc n

-- A C function that reads at the pointer finds the text `t`.
abbrev pub Holds : (ℕ → Option (List ℕ)) → Ptr → List ℕ → Type 0
Holds memory (string a u) t = u ≡ t
Holds memory (raw n) t = memory n ≡ some t

Holds-read_string :
    (memory : ℕ → Option (List ℕ)) (p : Ptr) (t : List ℕ)
    → Holds memory p t
    → read_string memory p ≡ ok t
unfolding read_string
Holds-read_string memory (string a u) t h = ap ok h
Holds-read_string memory (raw n) t h = rw (h, read_string) refl

-- The value that `incrKey` has to store: 1 for a missing key, and otherwise one more than `atol`
-- reads at the pointer.
abbrev pub Next : (ℕ → Option (List ℕ)) → Option Robj → ℤ → Type 0
Next memory none w = w ≡ pos 1
Next memory (some o) w = (t : List ℕ) × Holds memory o.ptr t × Successor (atol t) w

inc_long_lem : (v w : ℤ) → Successor v w → IsLong w → inc_long v ≡ ok w
unfolding inc_long
inc_long_lem (pos n) w s l = elim (Bool-cases (ltb (n + 1) (2 ^ 63))) [
  | inl y ↦ rw y (ap ok (sym s))
  | inr f ↦ let l' = subst IsLong s l in absurd (ground arith)
]
inc_long_lem (negsuc zero) w s l = ap ok (sym s)
inc_long_lem (negsuc (suc n)) w s l = ap ok (sym s)

next_value_lem :
    (memory : ℕ → Option (List ℕ)) (o : Option Robj) (w : ℤ)
    → Next memory o w
    → IsLong w
    → next_value memory o ≡ ok w
unfolding next_value
next_value_lem memory none w n l = ap ok (sym n)
next_value_lem memory (some o) w n l =
    rw (Holds-read_string memory o.ptr n.0 n.1) (inc_long_lem (atol n.0) w n.2 l)

-- The bits of a pointer as a number
abbrev pub pattern_of : Ptr → ℕ
pattern_of (string a t) = a
pattern_of (raw n) = n

address-pattern_of : (p : Ptr) → address p ≡ pattern_of p
unfolding address
address-pattern_of (string a t) = refl
address-pattern_of (raw n) = refl

-- What `decrKey` has to store: 0 for a missing key; the address less one, stopped at 0; and 0 for an
-- address that is negative as a long.
abbrev pub Decreased : Option Robj → ℕ → Type 0
Decreased none n = n ≡ 0
Decreased (some o) n =
    (pattern_of o.ptr < 2 ^ 63 → n ≡ pattern_of o.ptr - 1) × (2 ^ 63 < pattern_of o.ptr → n ≡ 0)

decreased_low :
    (a : ℕ)
    → a < 2 ^ 63
    → Returns
        (dec_long (pos a) >>= λ v. ok (at_least_zero v))
        (λ n. (a < 2 ^ 63 → n ≡ a - 1) × (2 ^ 63 < a → n ≡ 0))
unfolding dec_long at_least_zero
decreased_low zero l = (0, refl, (λ h. refl, λ h. refl))
decreased_low (suc a) l = (a, refl, (λ h. omega arith, λ h. absurd (omega arith)))

decreased_address :
    (a : ℕ)
    → a ≢ 2 ^ 63
    → Returns
        (dec_long (to_long a) >>= λ v. ok (at_least_zero v))
        (λ n. (a < 2 ^ 63 → n ≡ a - 1) × (2 ^ 63 < a → n ≡ 0))
unfolding dec_long to_long at_least_zero
decreased_address a ne = elim (Bool-cases (ltb a (2 ^ 63))) [
  | inl y ↦ rw y (decreased_low a (ground arith))
  | inr n ↦
      let in_ : ltb (2 ^ 64 - 1 - a + 1) (2 ^ 63) ≡ true = ground arith in
      rw (n, in_) (0, refl, (λ h. absurd (ground arith), λ h. refl))
]

decr_value-Decreased :
    (o : Option Robj)
    → ((x : Robj) → o ≡ some x → pattern_of x.ptr ≢ 2 ^ 63)
    → Returns (decr_value o) (Decreased o)
unfolding decr_value
decr_value-Decreased none ne = (0, refl, refl)
decr_value-Decreased (some o) ne =
    rw (address-pattern_of o.ptr) (decreased_address (pattern_of o.ptr) (ne o refl))

module _ (seed : List ℕ) (memory : ℕ → Option (List ℕ)) (same : Key → Key → Bool)
    (sound : (p q : Key) → same p q ≡ true → p ≡ q) (can_resize : Bool) (junk : Robj) where
  -- DecrKey on a well-formed keyspace with fewer than 2 ^ 59 keys, if the old pointer is not the
  -- least long, returns and gives the key an object whose pointer is a number: 0 for a missing
  -- key; the address of the old pointer less one, stopped at 0; and 0 for an address above 2 ^ 63,
  -- which is negative as a long. No other key changes.
  pub decr_key-Puts :
      (d : Db) (key : Key)
      → IsDict (db_dict_type seed same) d
      → d.ht0.used + d.ht1.used < 2 ^ 59
      → ((o : Robj) → view (db_dict_type seed same) d key ≡ some o → pattern_of o.ptr ≢ 2 ^ 63)
      → Returns (decr_key (db_dict_type seed same) can_resize junk d key) (λ d'.
        (n : ℕ) × Puts (db_dict_type seed same) d key (record junk { ptr = raw n }) d'
        × Decreased (view (db_dict_type seed same) d key) n)
  unfolding decr_key
  decr_key-Puts d key v few ne =
      let t = db_dict_type seed same in
      let keyed = db_dict_type-IsKeyed seed same sound in
      Returns-bind (lookup_key-view t keyed can_resize junk d key v) λ r p. rw p.0 (
        Returns-bind (decr_value-Decreased (view t d key) ne) λ n e.
          let s =
            db_put-Stores t keyed can_resize junk r.1 key (view t d key)
              (record junk { ptr = raw n }) p.1.valid (omega (arith, p.1.total))
              (sym (p.1.same key)) in
          (
            s.0,
            s.1,
            (n, Stores-Puts seed same sound (Keeps-Stores t keyed can_resize junk p.1 s.2), e),
          ))

  -- IncrKey on a well-formed keyspace with fewer than 2 ^ 59 keys, where the allocator gives the
  -- new string 20 bytes more than were asked for, returns and gives the key an object whose text
  -- atol reads as the next value, which is 1 for a missing key and otherwise one more than atol
  -- reads at the old pointer, if it can read there and the sum is a long; no other key changes.
  pub incr_key-Puts :
      (spare : List ℕ) (a : ℕ) (d : Db) (key : Key) (value : ℤ)
      → 20 ≤ length spare
      → IsDict (db_dict_type seed same) d
      → d.ht0.used + d.ht1.used < 2 ^ 59
      → Next memory (view (db_dict_type seed same) d key) value
      → IsLong value
      → Returns (incr_key (db_dict_type seed same) can_resize junk memory spare a d key) (λ d'.
        (text : List ℕ) × Puts
          (db_dict_type seed same)
          d
          key
          (record junk { ptr = string a text })
          d'
        × (atol text ≡ value))
  unfolding incr_key
  incr_key-Puts spare a d key value room v few next long =
      let t = db_dict_type seed same in
      let keyed = db_dict_type-IsKeyed seed same sound in
      Returns-bind (lookup_key-view t keyed can_resize junk d key v) λ r p.
        rw (ap (next_value memory) p.0 ∙ next_value_lem memory _ value next long) (
          Returns-bind (ll2str-signed (0 ∷ spare) value long (omega arith)) λ b w.
            let text : until_null b.0 ≡ signed value =
              ap until_null (w.0).bytes ∙ until_null-signed value (w.0).rest in
            let s =
              db_put-Stores t keyed can_resize junk r.1 key r.0
                (record junk { ptr = string a (until_null b.0) }) p.1.valid
                (omega (arith, p.1.total)) (p.0 ∙ sym (p.1.same key)) in
            (
              s.0,
              s.1,
              (
                until_null b.0,
                Stores-Puts seed same sound (Keeps-Stores t keyed can_resize junk p.1 s.2),
                ap atol text ∙ w.1,
              ),
            ))

  -- IncrKey on a well-formed keyspace, with no byte more behind the new string than sdsnew("")
  -- asks for, never succeeds: it crashes for every key, because sdsll2str writes outside the
  -- allocation or an earlier step fails.
  pub incr_key_overruns :
      (a : ℕ) (d : Db) (key : Key)
      → IsDict (db_dict_type seed same) d
      → incr_key (db_dict_type seed same) can_resize junk memory [] a d key ≡ crash
  unfolding incr_key
  incr_key_overruns a d key v =
      let t = db_dict_type seed same in
      let r = lookup_key-view t (db_dict_type-IsKeyed seed same sound) can_resize junk d key v in
      rw r.1 (elim (next_value-cases memory r.0.0) [
        | inl e ↦ rw e refl
        | inr (w, e) ↦ rw (e, ll2str_one_byte 0 w) refl
      ])
