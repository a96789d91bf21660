-- ===== src/Sds/Make/Fresh.antt =====
-- `sdsnewlen` and `sdsdup` of src/sds.c.
use redis_counter.Base.{
  ℕ, ◌%◌, ◌^◌, ◌≤◌, ◌<◌, ◌≡◌, refl, ◌∙◌, ap, arith, Bool-cases, inl, inr, List, [], ◌∷◌, ◌==◌,
  if◌then◌else◌, length, take, Returns, Returns-bind,
}
use native.Mathlib.Nat.{mod-eq_of_lt}
use redis_counter.Sds.Append.{appended_text}
use redis_counter.Sds.Buffer.{Written, write-Written, read-take, length-take}
use redis_counter.Sds.Copy.{Copied}
use redis_counter.Sds.Room.{IsSds, text, req_type-limit, hdr_size-lt, allocate-length}
use redis_counter.Sds.Make.{bytes, new_type, background, copy_init, new_len, dup}
use redis_counter.Sds.{
  SdsType, type_5, type_8, type_16, type_32, type_64, Sds, limit, hdr_size, req_type, sds_alloc,
}

widen-limit :
    (t : SdsType) (n : ℕ)
    → n < limit t
    → n < limit (elim t [ type_5 ↦ (if n == 0 then type_8 else type_5) | t ↦ t ])
unfolding limit
widen-limit type_5 n h = elim (Bool-cases (n == 0)) [ inl y ↦ rw y (omega arith) | inr q ↦ rw q h ]
widen-limit type_8 n h = h
widen-limit type_16 n h = h
widen-limit type_32 n h = h
widen-limit type_64 n h = h

new_type-limit : (n : ℕ) → n < 2 ^ 64 → n < limit (new_type n)
unfolding new_type
new_type-limit n h = widen-limit (req_type n) n (req_type-limit n h)

fresh-IsSds :
    (t : SdsType) (n : ℕ) (b : List ℕ)
    → n < limit t
    → n < length b
    → IsSds (record { kind = t; len = n % limit t; alloc = n % limit t; buf = b })
unfolding limit sds_alloc
fresh-IsSds type_5 n b h p = record { fits = omega arith; holds = omega arith; size = omega arith }
fresh-IsSds type_8 n b h p = record { fits = omega arith; holds = omega arith; size = omega arith }
fresh-IsSds type_16 n b h p = record { fits = omega arith; holds = omega arith; size = omega arith }
fresh-IsSds type_32 n b h p = record { fits = omega arith; holds = omega arith; size = omega arith }
fresh-IsSds type_64 n b h p = record { fits = omega arith; holds = omega arith; size = omega arith }

copy_bytes :
    (t : List ℕ) (n : ℕ) (b : List ℕ)
    → n ≤ length t
    → n ≤ length b
    → Returns (copy_init (bytes t) n b) (Written b 0 (take n t))
unfolding copy_init
copy_bytes t n b h p =
    rw (read-take n t h) (write-Written b 0 (take n t) (omega (arith, length-take n t h)))

-- `sdsnewlen` of n bytes that are there to read, n below 2 ^ 62, writes nothing outside its
-- allocation and returns a well-formed string with exactly those bytes as its text.
pub new_len-Copied :
    (junk : ℕ) (t : List ℕ) (n : ℕ)
    → n ≤ length t
    → n < 2 ^ 62
    → Returns (new_len junk (bytes t) n) (Copied (take n t))
unfolding new_len background
new_len-Copied junk t n h p =
    let top = hdr_size-lt (new_type n) in
    let fit = new_type-limit n (omega arith) in
    Returns-bind (allocate-length junk (hdr_size (new_type n)) n top (omega arith)) λ b e.
      Returns-bind (copy_bytes t n b h (omega arith)) λ c w.
        Returns-bind (write-Written c n (0 ∷ []) (omega (arith, e, w.size))) λ d z.
          let l = length-take n t h in
          let small : n % limit (new_type n) ≡ n = mod-eq_of_lt fit in
          (
            _,
            refl,
            record {
              valid = fresh-IsSds (new_type n) n d fit (omega (arith, e, w.size, z.size));
              same_length = small ∙ omega (arith, l);
              same_text =
                  ap (λ m. take m d) small
                  ∙ appended_text b (take n t) c d 0 n (omega (arith, l)) (omega (arith, e)) w z;
            },
          )

-- `sdsdup` of a well-formed string of fewer than 2 ^ 62 bytes returns a well-formed string with
-- the same text.
pub dup-Copied :
    (junk : ℕ) (s : Sds) → IsSds s → s.len < 2 ^ 62 → Returns (dup junk s) (Copied (text s))
unfolding dup
dup-Copied junk s v h = new_len-Copied junk s.buf s.len (omega (arith, v.fits, v.size)) h
