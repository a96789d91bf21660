-- ===== src/Sds/Make/Tight.antt =====
-- `sdsRemoveFreeSpace` of src/sds.c.
use redis_counter.Base.{
  ℕ, ◌+◌, ◌^◌, ◌<◌, ◌≡◌, refl, ◌∙◌, ap, arith, Bool-cases, inl, inr, List, ltb, ◌==◌, ◌||◌, length,
  take, Returns, Returns-bind,
}
use redis_counter.Sds.Buffer.{write-Written, read-Returns, length-take}
use redis_counter.Sds.Room.{
  IsSds, text, Moved, req_type-limit, hdr_size-lt, allocate-length, reallocate-Moved, copied-Moved,
  set_len-record,
}
use redis_counter.Sds.Make.{remove_free_space}
use redis_counter.Sds.{
  SdsType, type_5, type_8, type_16, type_32, type_64, flags, Sds, limit, hdr_size, req_type,
  sds_alloc, avail, set_alloc,
}

-- A string of length `len` with the bytes `b` after its header and no free space
record Exact (len : ℕ) (b : List ℕ) (r : Sds) : Type 0 where
  valid : IsSds r
  same_len : r.len ≡ len
  bytes : r.buf ≡ b
  full : avail r ≡ 0

set_alloc-Exact :
    (t : SdsType) (len alloc : ℕ) (b : List ℕ)
    → len < limit t
    → length b ≡ len + 1
    → Exact len b (set_alloc len (record { kind = t; len = len; alloc = alloc; buf = b }))
unfolding set_alloc limit sds_alloc avail
set_alloc-Exact type_5 len alloc b h p = record {
  valid = record { fits = omega arith; holds = omega arith; size = omega arith };
  same_len = refl;
  bytes = refl;
  full = omega arith;
}
set_alloc-Exact type_8 len alloc b h p = record {
  valid = record { fits = omega arith; holds = omega arith; size = omega arith };
  same_len = refl;
  bytes = refl;
  full = omega arith;
}
set_alloc-Exact type_16 len alloc b h p = record {
  valid = record { fits = omega arith; holds = omega arith; size = omega arith };
  same_len = refl;
  bytes = refl;
  full = omega arith;
}
set_alloc-Exact type_32 len alloc b h p = record {
  valid = record { fits = omega arith; holds = omega arith; size = omega arith };
  same_len = refl;
  bytes = refl;
  full = omega arith;
}
set_alloc-Exact type_64 len alloc b h p = record {
  valid = record { fits = omega arith; holds = omega arith; size = omega arith };
  same_len = refl;
  bytes = refl;
  full = omega arith;
}

-- What `sdsRemoveFreeSpace` leaves: the same text, and one byte behind it.
pub record Tight (s : Sds) (r : Sds) : Type 0 where
  pub valid : IsSds r
  pub same_text : text r ≡ text s
  pub full : avail r ≡ 0
  pub size : length r.buf ≡ s.len + 1

Exact-Tight : (s : Sds) (b : List ℕ) (r : Sds) → Exact s.len b r → Moved s s.len b → Tight s r
Exact-Tight s b r x m = record {
  valid = x.valid;
  same_text = ap (λ n. take n r.buf) x.same_len ∙ ap (take s.len) x.bytes ∙ m.1;
  full = x.full;
  size = ap length x.bytes ∙ m.0;
}

-- `sdsRemoveFreeSpace` of a well-formed string of fewer than 2 ^ 62 bytes, whether it keeps its
-- header type or moves to a smaller one, returns a well-formed string with the same text and no
-- free space, whose allocation has one byte behind the text.
pub remove_free_space-Tight :
    (junk : ℕ) (s : Sds) → IsSds s → s.len < 2 ^ 62 → Returns (remove_free_space junk s) (Tight s)
unfolding remove_free_space
remove_free_space-Tight junk s v h =
    let t = req_type s.len in
    let room : s.len < length s.buf = omega (arith, v.fits, v.size) in
    let top = hdr_size-lt t in
    elim (Bool-cases (flags s.kind == flags t || ltb (flags type_8) (flags t))) [
      | inl y ↦ rw y (
          Returns-bind
            (reallocate-Moved junk s (hdr_size s.kind) s.len room (omega arith) (hdr_size-lt s.kind)
              (omega arith))
            λ b m. (
              _,
              refl,
              Exact-Tight s b _
                  (set_alloc-Exact s.kind s.len s.alloc b (omega (arith, v.fits, v.holds)) m.0) m,
            ))
      | inr n ↦ rw n (
          Returns-bind (allocate-length junk (hdr_size t) s.len top (omega arith)) λ f e.
            Returns-bind (read-Returns (s.len + 1) s.buf (omega arith)) λ old same.
              let l = ap length same ∙ length-take (s.len + 1) s.buf (omega arith) in
              Returns-bind (write-Written f 0 old (omega (arith, l, e))) λ b w.
                let m = copied-Moved s s.len f old b e room same w in
                let fit = req_type-limit s.len (omega arith) in
                (
                  _,
                  refl,
                  Exact-Tight s b _
                      (rw (set_len-record t s.len junk junk b fit)
                        (set_alloc-Exact t s.len junk b fit m.0))
                      m,
                ))
    ]
