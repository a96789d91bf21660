-- ===== src/Sds/Make.antt =====
-- Making a string, growing it with null bytes and giving its free space back: `sdsnewlen`,
-- `sdsdup`, `sdsgrowzero` and `sdsRemoveFreeSpace` of src/sds.c.
pub mod Fresh
pub mod Zeros
pub mod Tight
use redis_counter.Base.{
  ℕ, ◌+◌, ◌-◌, ◌%◌, List, [], ◌∷◌, ltb, leb, ◌==◌, ◌||◌, if◌then◌else◌, replicate, Run, ok, ◌>>=◌,
}
use redis_counter.Sds.{
  SdsType, type_5, type_8, flags, Sds, limit, hdr_size, req_type, set_len, set_alloc, write, read,
  allocate, reallocate, make_room_for,
}

-- The `init` of `sdsnewlen`: `SDS_NOINIT`, `NULL` or a pointer to bytes
pub data Init : Type 0 where
  no_init : Init
  null : Init
  bytes : List ℕ → Init

-- Empty strings have type 8.
unfoldable pub new_type : ℕ → SdsType
new_type n = elim (req_type n) [ type_5 ↦ (if n == 0 then type_8 else type_5) | t ↦ t ]

-- The bytes after `s_malloc`, and after `memset` where `init` is `NULL`
unfoldable pub background : ℕ → Init → ℕ
background junk null = 0
background junk no_init = junk
background junk (bytes t) = junk

unfoldable pub copy_init : Init → ℕ → List ℕ → Run (List ℕ)
copy_init no_init n b = ok b
copy_init null n b = ok b
copy_init (bytes t) n b = do u ← read n t; write b 0 u

unfoldable pub new_len : ℕ → Init → ℕ → Run Sds
new_len junk init n = do
  b ← allocate (background junk init) (hdr_size (new_type n)) n
  b' ← copy_init init n b
  b'' ← write b' n (0 ∷ [])
  ok (record {
    kind = new_type n;
    len = n % limit (new_type n);
    alloc = n % limit (new_type n);
    buf = b'';
  })

unfoldable pub dup : ℕ → Sds → Run Sds
dup junk s = new_len junk (bytes s.buf) s.len

unfoldable pub grow_zero : ℕ → Sds → ℕ → Run Sds
grow_zero junk s n = if leb n s.len then ok s else (do
  r ← make_room_for junk s (n - s.len)
  b ← write r.buf s.len (replicate (n - s.len + 1) 0)
  ok (set_len n (record r { buf = b })))

unfoldable pub remove_free_space : ℕ → Sds → Run Sds
remove_free_space junk s =
    let t = req_type s.len in
    if flags s.kind == flags t || ltb (flags type_8) (flags t)
    then (do
      b ← reallocate junk (hdr_size s.kind) s.len s.buf
      ok (set_alloc s.len (record s { buf = b })))
    else (do
      fresh ← allocate junk (hdr_size t) s.len
      old ← read (s.len + 1) s.buf
      b ← write fresh 0 old
      ok (set_alloc s.len (set_len s.len (record { kind = t; len = junk; alloc = junk; buf = b }))))
