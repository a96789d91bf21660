-- ===== src/Sds/Room.antt =====
-- Making room in a string: `sdsMakeRoomFor` and `sdscatlen` of src/sds.c.
use redis_counter.Base.{
  ℕ, zero, suc, ◌+◌, ◌-◌, ◌^◌, ◌≤◌, ◌<◌, ◌≡◌, refl, sym, ◌∙◌, ap, arith, true, Bool-cases, inl, inr,
  List, ltb, ◌==◌, ==_iff, length, take, replicate, length-append, length-replicate, Returns,
  Returns-bind, add64,
}
use native.Mathlib.Nat.{mod-eq_of_lt}
use redis_counter.Sds.Buffer.{
  Written, write-Written, length-take, take-take, take-append_left, length-take-sub, read-Returns,
}
use redis_counter.Sds.{
  SdsType, type_5, type_8, type_16, type_32, type_64, flags, Sds, limit, hdr_size, req_type,
  sds_alloc, avail, set_len, set_alloc, allocate, reallocate, max_prealloc, grown, append_type,
  enlarge,
}

-- The allocation holds the text, the free space and the null byte, and the header can say so.
pub record IsSds (s : Sds) : Type 0 where
  pub fits : s.len ≤ sds_alloc s
  pub holds : sds_alloc s < limit s.kind
  pub size : sds_alloc s < length s.buf

-- The text of a string
abbrev pub text : Sds → List ℕ
text s = take s.len s.buf

limit_top : (t : SdsType) → limit t ≤ 2 ^ 64
unfolding limit
limit_top type_5 = omega arith
limit_top type_8 = omega arith
limit_top type_16 = omega arith
limit_top type_32 = omega arith
limit_top type_64 = omega arith

pub hdr_size-lt : (t : SdsType) → hdr_size t < 18
unfolding hdr_size
hdr_size-lt type_5 = omega arith
hdr_size-lt type_8 = omega arith
hdr_size-lt type_16 = omega arith
hdr_size-lt type_32 = omega arith
hdr_size-lt type_64 = omega arith

pub req_type-limit : (n : ℕ) → n < 2 ^ 64 → n < limit (req_type n)
unfolding req_type limit
req_type-limit n h = elim (Bool-cases (ltb n (2 ^ 5))) [
  | inl y ↦ rw y (ground arith)
  | inr q ↦ rw q (elim (Bool-cases (ltb n (2 ^ 8))) [
    | inl y ↦ rw y (ground arith)
    | inr q ↦ rw q (elim (Bool-cases (ltb n (2 ^ 16))) [
      | inl y ↦ rw y (ground arith)
      | inr q ↦
          rw q (elim (Bool-cases (ltb n (2 ^ 32))) [ inl y ↦ rw y (ground arith) | inr q ↦ rw q h ])
    ])
  ])
]

append_type-limit : (t : SdsType) (n : ℕ) → n < limit t → n < limit (append_type t)
unfolding append_type limit
append_type-limit type_5 n h = omega arith
append_type-limit type_8 n h = h
append_type-limit type_16 n h = h
append_type-limit type_32 n h = h
append_type-limit type_64 n h = h

pub grown-bounds : (n : ℕ) → n < 2 ^ 62 → (n ≤ grown n) × (grown n < 2 ^ 63)
unfolding grown
grown-bounds n h = elim (Bool-cases (ltb n max_prealloc)) [
  | inl y ↦ rw y (ground arith, ground arith)
  | inr q ↦ rw q (ground arith, ground arith)
]

pub allocate-length :
    (junk header n : ℕ)
    → header < 18
    → n < 2 ^ 63
    → Returns (allocate junk header n) (λ b. length b ≡ n + 1)
unfolding allocate
allocate-length junk header n h p = elim (Bool-cases (ltb (add64 (add64 header n) 1) header)) [
  | inl y ↦ absurd (ground arith)
  | inr q ↦ rw q (_, refl, omega (arith, length-replicate (add64 (add64 header n) 1 - header) junk))
]

-- A string of length `len` and capacity `total`, with the bytes `b` after its header
pub record Room (len total : ℕ) (b : List ℕ) (r : Sds) : Type 0 where
  pub valid : IsSds r
  pub same_len : r.len ≡ len
  pub bytes : r.buf ≡ b
  pub spare : avail r ≡ total - len

set_alloc-Room :
    (t : SdsType) (len total alloc : ℕ) (b : List ℕ)
    → total < limit (append_type t)
    → len ≤ total
    → length b ≡ total + 1
    → Room len total b
        (set_alloc total (record { kind = append_type t; len = len; alloc = alloc; buf = b }))
unfolding set_alloc append_type limit sds_alloc avail
set_alloc-Room type_5 len total alloc b h p q = record {
  valid = record { fits = omega arith; holds = omega arith; size = omega arith };
  same_len = refl;
  bytes = refl;
  spare = omega arith;
}
set_alloc-Room type_8 len total alloc b h p q = record {
  valid = record { fits = omega arith; holds = omega arith; size = omega arith };
  same_len = refl;
  bytes = refl;
  spare = omega arith;
}
set_alloc-Room type_16 len total alloc b h p q = record {
  valid = record { fits = omega arith; holds = omega arith; size = omega arith };
  same_len = refl;
  bytes = refl;
  spare = omega arith;
}
set_alloc-Room type_32 len total alloc b h p q = record {
  valid = record { fits = omega arith; holds = omega arith; size = omega arith };
  same_len = refl;
  bytes = refl;
  spare = omega arith;
}
set_alloc-Room type_64 len total alloc b h p q = record {
  valid = record { fits = omega arith; holds = omega arith; size = omega arith };
  same_len = refl;
  bytes = refl;
  spare = omega arith;
}

kind-Room :
    (k t : SdsType) (len total alloc : ℕ) (b : List ℕ)
    → k ≡ append_type t
    → total < limit (append_type t)
    → len ≤ total
    → length b ≡ total + 1
    → Room len total b (set_alloc total (record { kind = k; len = len; alloc = alloc; buf = b }))
kind-Room k t len total alloc b e h p q = rw e (set_alloc-Room t len total alloc b h p q)

abbrev of_flags : ℕ → SdsType
of_flags zero = type_5
of_flags (suc zero) = type_8
of_flags (suc (suc zero)) = type_16
of_flags (suc (suc (suc zero))) = type_32
of_flags (suc (suc (suc (suc n)))) = type_64

of-flags : (t : SdsType) → of_flags (flags t) ≡ t
of-flags type_5 = refl
of-flags type_8 = refl
of-flags type_16 = refl
of-flags type_32 = refl
of-flags type_64 = refl

same_flags : (a b : SdsType) → (flags a == flags b) ≡ true → a ≡ b
same_flags a b h = sym (of-flags a) ∙ ap of_flags ((==_iff (flags a) (flags b)).0 h) ∙ of-flags b

-- What moves to the new bytes: all of the text.
pub record Moved (s : Sds) (total : ℕ) (b : List ℕ) : Type 0 where
  pub 0 as size : length b ≡ total + 1
  pub 1 as same : take s.len b ≡ text s

pub reallocate-Moved :
    (junk : ℕ) (s : Sds) (header total : ℕ)
    → s.len < length s.buf
    → s.len ≤ total
    → header < 18
    → total < 2 ^ 63
    → Returns (reallocate junk header total s.buf) (Moved s total)
unfolding reallocate
reallocate-Moved junk s header total room p h q =
    Returns-bind (allocate-length junk header total h q) λ f e.
      let l = length-take-sub (length f) s.buf in
      (
        _,
        refl,
        (
          omega (
            arith,
            l,
            length-append (take (length f) s.buf) (replicate (length f - length s.buf) junk),
            length-replicate (length f - length s.buf) junk,
          ),
          take-append_left s.len (take (length f) s.buf) _ (omega arith)
              ∙ take-take s.len (length f) s.buf (omega arith),
        ),
      )

pub set_len-record :
    (t : SdsType) (len old alloc : ℕ) (b : List ℕ)
    → len < limit t
    → set_len len (record { kind = t; len = old; alloc = alloc; buf = b })
      ≡ record { kind = t; len = len; alloc = alloc; buf = b }
unfolding set_len
set_len-record t len old alloc b h =
    ap (λ l. record { kind = t; len = l; alloc = alloc; buf = b }) (mod-eq_of_lt h)

pub copied-Moved :
    (s : Sds) (total : ℕ) (f old b : List ℕ)
    → length f ≡ total + 1
    → s.len < length s.buf
    → old ≡ take (s.len + 1) s.buf
    → Written f 0 old b
    → Moved s total b
copied-Moved s total f old b e room same w =
    let l = ap length same ∙ length-take (s.len + 1) s.buf (omega arith) in
    (
      w.size ∙ e,
      sym (take-take s.len (0 + length old) b (omega (arith, l)))
          ∙ ap (take s.len) (w.text ∙ same)
          ∙ take-take s.len (s.len + 1) s.buf (omega arith),
    )

pub enlarge-Room :
    (junk : ℕ) (s : Sds) (total : ℕ)
    → IsSds s
    → s.len ≤ total
    → total < 2 ^ 63
    → Returns (enlarge junk s total) (λ r. (b : List ℕ) × Room s.len total b r × Moved s total b)
unfolding enlarge
enlarge-Room junk s total v p q =
    let t = req_type total in
    let fit = append_type-limit t total (req_type-limit total (omega arith)) in
    let top = hdr_size-lt (append_type t) in
    elim (Bool-cases (flags s.kind == flags (append_type t))) [
      | inl y ↦ rw y (
          Returns-bind
            (reallocate-Moved junk s (hdr_size (append_type t)) total
              (omega (arith, v.fits, v.size)) p top q)
            λ b m. (
              _,
              refl,
              (
                b,
                kind-Room s.kind t s.len total s.alloc b (same_flags s.kind (append_type t) y) fit p
                    m.0,
                m,
              ),
            ))
      | inr n ↦ rw n (
          Returns-bind (allocate-length junk (hdr_size (append_type t)) total top q) λ f e.
            Returns-bind (read-Returns (s.len + 1) s.buf (omega (arith, v.fits, v.size)))
              λ old same.
                let l =
                  ap length same ∙ length-take (s.len + 1) s.buf (omega (arith, v.fits, v.size)) in
                Returns-bind (write-Written f 0 old (omega (arith, l, e))) λ b w.
                  let m = copied-Moved s total f old b e (omega (arith, v.fits, v.size)) same w in
                  (
                    _,
                    refl,
                    (
                      b,
                      rw (set_len-record (append_type t) s.len junk junk b (omega (arith, fit, p)))
                          (set_alloc-Room t s.len total junk b fit p m.0),
                      m,
                    ),
                  ))
    ]
