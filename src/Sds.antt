-- ===== src/Sds.antt =====
-- Dynamic strings: src/sds.c and src/include/sds.h. A string is its header and the bytes after the
-- header; bytes are numbers below 256.
pub mod Buffer
pub mod Room
pub mod Append
pub mod Copy
pub mod Slice
pub mod Make
use redis_counter.Base.{
  ℕ, zero, suc, ◌+◌, ◌-◌, ◌*◌, ◌%◌, ◌^◌, Bool, true, false, List, [], ◌∷◌, ◌++◌, ltb, leb, ◌==◌,
  if◌then◌else◌, length, take, replicate, Run, ok, crash, ◌>>=◌, add64, sub64, u64,
}

pub data SdsType : Type 0 where
  type_5 : SdsType
  type_8 : SdsType
  type_16 : SdsType
  type_32 : SdsType
  type_64 : SdsType

-- `SDS_TYPE_5` and the others, in the flags of a header
abbrev pub flags : SdsType → ℕ
flags type_5 = 0
flags type_8 = 1
flags type_16 = 2
flags type_32 = 3
flags type_64 = 4

-- The header has no `alloc` in type 5: no operation reads the field then.
pub record Sds : Type 0 where
  pub kind : SdsType
  pub len : ℕ
  pub alloc : ℕ
  pub buf : List ℕ

-- One more than the largest number that the `len` of a header holds
unfoldable pub limit : SdsType → ℕ
limit type_5 = 2 ^ 5
limit type_8 = 2 ^ 8
limit type_16 = 2 ^ 16
limit type_32 = 2 ^ 32
limit type_64 = 2 ^ 64

unfoldable pub hdr_size : SdsType → ℕ
hdr_size type_5 = 1
hdr_size type_8 = 3
hdr_size type_16 = 5
hdr_size type_32 = 9
hdr_size type_64 = 17

unfoldable pub req_type : ℕ → SdsType
req_type n =
    if ltb n (2 ^ 5)
    then type_5
    else if ltb n (2 ^ 8)
    then type_8
    else if ltb n (2 ^ 16)
    then type_16
    else if ltb n (2 ^ 32)
    then type_32
    else type_64

unfoldable pub sds_alloc : Sds → ℕ
sds_alloc s = elim s.kind [ type_5 ↦ s.len | _ ↦ s.alloc ]

-- The subtraction is one of `uint32_t` in type 32, of `int` or `uint64_t` in the others.
unfoldable pub avail : Sds → ℕ
avail s = elim s.kind [
  | type_5 ↦ 0
  | type_32 ↦ (s.alloc + 2 ^ 32 - s.len) % 2 ^ 32
  | _ ↦ sub64 s.alloc s.len
]

unfoldable pub set_len : ℕ → Sds → Sds
set_len n s = record s { len = n % limit s.kind }

unfoldable pub set_alloc : ℕ → Sds → Sds
set_alloc n s = elim s.kind [ type_5 ↦ s | _ ↦ record s { alloc = n % limit s.kind } ]

-- `memcpy(buf + i, bytes, length)` and `buf[i] = c`: a write outside the allocation crashes.
unfoldable pub write : List ℕ → ℕ → List ℕ → Run (List ℕ)
write buf zero [] = ok buf
write [] zero (c ∷ cs) = crash
write (b ∷ buf) zero (c ∷ cs) = do r ← write buf zero cs; ok (c ∷ r)
write [] (suc i) [] = ok []
write [] (suc i) (c ∷ cs) = crash
write (b ∷ buf) (suc i) cs = do r ← write buf i cs; ok (b ∷ r)

-- The first `n` bytes of a buffer, as `memcpy` reads them
unfoldable pub read : ℕ → List ℕ → Run (List ℕ)
read zero buf = ok []
read (suc n) [] = crash
read (suc n) (b ∷ buf) = do r ← read n buf; ok (b ∷ r)

-- What is left after a header in `s_malloc(header + n + 1)`, whose argument wraps around. The
-- bytes of a new allocation are arbitrary: they are `junk`.
unfoldable pub allocate : ℕ → ℕ → ℕ → Run (List ℕ)
allocate junk header n =
    let total = add64 (add64 header n) 1 in
    if ltb total header then crash else ok (replicate (total - header) junk)

-- `s_realloc` to the same header
unfoldable pub reallocate : ℕ → ℕ → ℕ → List ℕ → Run (List ℕ)
reallocate junk header n buf = do
  fresh ← allocate junk header n
  ok (take (length fresh) buf ++ replicate (length fresh - length buf) junk)

abbrev pub max_prealloc : ℕ
max_prealloc = 1024 * 1024

-- `newlen` of `sdsMakeRoomFor`
unfoldable pub grown : ℕ → ℕ
grown n = if ltb n max_prealloc then (n * 2) % u64 else add64 n max_prealloc

-- Type 5 cannot remember empty space.
unfoldable pub append_type : SdsType → SdsType
append_type type_5 = type_8
append_type t = t

-- The part after the early return
unfoldable pub enlarge : ℕ → Sds → ℕ → Run Sds
enlarge junk s newlen =
    let t = append_type (req_type newlen) in
    if flags s.kind == flags t
    then (do
      b ← reallocate junk (hdr_size t) newlen s.buf
      ok (set_alloc newlen (record s { buf = b })))
    else (do
      fresh ← allocate junk (hdr_size t) newlen
      old ← read (s.len + 1) s.buf
      b ← write fresh 0 old
      ok (
          set_alloc newlen
            (set_len s.len (record { kind = t; len = junk; alloc = junk; buf = b }))))

unfoldable pub make_room_for : ℕ → Sds → ℕ → Run Sds
make_room_for junk s addlen =
    if leb addlen (avail s) then ok s else enlarge junk s (grown (add64 s.len addlen))

-- `t` has the `len` bytes that are appended.
unfoldable pub catlen : ℕ → Sds → List ℕ → Run Sds
catlen junk s t = do
  r ← make_room_for junk s (length t)
  b ← write r.buf s.len t
  b' ← write b (add64 s.len (length t)) (0 ∷ [])
  ok (set_len (add64 s.len (length t)) (record r { buf = b' }))

-- `t` has the `len` bytes that are copied.
unfoldable pub cpylen : ℕ → Sds → List ℕ → Run Sds
cpylen junk s t = do
  r ← if ltb (sds_alloc s) (length t) then make_room_for junk s (sub64 (length t) s.len) else ok s
  b ← write r.buf 0 t
  b' ← write b (length t) (0 ∷ [])
  ok (set_len (length t) (record r { buf = b' }))
