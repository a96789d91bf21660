-- ===== src/Request.antt =====
-- Requests: `clientBuf` of src/db.c builds one, and `commandServer` of src/command.c divides it,
-- runs the command and writes the reply to the buffer of the server.
pub mod Wire
pub mod Reply
pub mod Serve
use Prim.Native.Nat.{Ordering}
use redis_counter.Base.{
  ℕ, zero, suc, ◌+◌, ◌%◌, ◌^◌, take, Bool-cases, inl, inr, Bool, true, false, Option, none, some,
  List, [], ◌∷◌, ◌++◌, ltb, ◌==◌, if◌then◌else◌, length, get_elem?, Run, ok, crash, out_of_fuel,
  ◌>>=◌,
}
use redis_counter.Dict.Types.{DictType}
use redis_counter.Dict.Search.{fetch_value}
use redis_counter.Sds.{Sds, sds_alloc, avail, cpylen, catlen}
use redis_counter.Text.{sds_cmp}
use redis_counter.Args.{split_args}
use redis_counter.Number.RoundTrip.{decimal}
use redis_counter.Db.{
  Key, Ptr, string, Robj, Db, until_null, read_string, set_key, incr_key, decr_key,
}

abbrev pub crlf : List ℕ
crlf = 13 ∷ 10 ∷ []

-- The loop of `clientBuf`: `$%u\r\n`, the argument and `\r\n`. `%i` and `%u` print by `sdsll2str`
-- and `sdsull2str`, which give the decimal digits (Number.RoundTrip).
-- `int len` takes the low 32 bits of the length; `sdscatlen` of a negative one is undefined.
unfoldable pub client_args : List (List ℕ) → Run (List ℕ)
client_args [] = ok []
client_args (a ∷ argv) =
    let len = length a % 2 ^ 32 in
    let rest = client_args argv in
    if ltb len (2 ^ 31)
    then (do cmd ← rest; ok ((b'$' ∷ decimal len) ++ (crlf ++ (take len a ++ (crlf ++ cmd)))))
    else crash

-- `argc` is an `int`, and not negative.
unfoldable pub client_buf : List (List ℕ) → Run (List ℕ)
client_buf argv = do
  cmd ← client_args argv
  ok ((b'*' ∷ decimal (length argv % 2 ^ 31)) ++ (crlf ++ cmd))

-- The variables `action`, `cKey->ptr` and `cVal->ptr`; `none` is a value that was never set.
pub record Request : Type 0 where
  pub action : Option (List ℕ)
  pub key : Option (List ℕ)
  pub val : Option (List ℕ)

unfoldable pub set_field : ℕ → List ℕ → Request → Request
set_field index a r =
    if index == 2
    then record r { action = some (until_null a) }
    else if index == 4
    then record r { key = some a }
    else if index == 6
    then record r { val = some a }
    else r

-- `for (index = 2; index < argc; index+=2)`, on fuel
unfoldable pub request_loop : ℕ → ℕ → List (List ℕ) → Request → Request
request_loop zero index argv r = r
request_loop (suc f) index argv r = elim (get_elem? argv index) [
  | none ↦ r
  | some a ↦ request_loop f (index + 2) argv (set_field index a r)
]

-- Every round takes two of the arguments, so their number is enough fuel.
unfoldable pub request_of : List (List ℕ) → Request
request_of argv =
    request_loop (length argv) 2 argv (record { action = none; key = none; val = none })

-- The use of a variable; without a value it is undefined.
unfoldable pub need {ℓ} : {A : Type ℓ} → Option A → Run A
need none = crash
need (some a) = ok a

-- The key that a text is. One of 2 ^ 31 bytes or more has no model here (Db): a crash stands for
-- whatever the program does with it.
unfoldable pub as_key : List ℕ → Run Key
as_key k = elim (Bool-cases (ltb (length k) (2 ^ 31))) [ inl y ↦ ok (k, y) | inr n ↦ crash ]

unfoldable pub is_command : List ℕ → List ℕ → Bool
is_command action name = elim (sds_cmp action name) [
  | Ordering.lt ↦ false
  | Ordering.eq ↦ true
  | Ordering.gt ↦ false
]

abbrev pub get_name : List ℕ
get_name = b'g' ∷ b'e' ∷ b't' ∷ []

abbrev pub set_name : List ℕ
set_name = b's' ∷ b'e' ∷ b't' ∷ []

abbrev pub incr_name : List ℕ
incr_name = b'i' ∷ b'n' ∷ b'c' ∷ b'r' ∷ []

abbrev pub decr_name : List ℕ
decr_name = b'd' ∷ b'e' ∷ b'c' ∷ b'r' ∷ []

-- "missing key" and "ok"
abbrev pub missing_text : List ℕ
missing_text = b'm' ∷ b'i' ∷ b's' ∷ b's' ∷ b'i' ∷ b'n' ∷ b'g' ∷ b' ' ∷ b'k' ∷ b'e' ∷ b'y' ∷ []

abbrev pub ok_text : List ℕ
ok_text = b'o' ∷ b'k' ∷ []

-- `sdscpy(outbuf, text); sdscatlen(outbuf,"\n",1);` drops the pointers that the two calls return: a
-- text that needs a larger allocation moves the string, and the pointer of the caller dangles.
unfoldable pub reply : ℕ → Sds → List ℕ → Run Sds
reply junk outbuf text =
    if ltb (sds_alloc outbuf) (length text)
    then crash
    else do o ← cpylen junk outbuf text; if ltb (avail o) 1 then crash else catlen junk o (10 ∷ [])

-- `spare` and `a` are the bytes behind and the address of the string that a command allocates;
-- `memory` is what the process has at an address that is not the address of a string (Db);
-- `junk` and `byte` are what allocations hold before they are written.
module _ (t : DictType Key Robj) (can_resize : Bool) (junk : Robj) (byte : ℕ)
    (memory : ℕ → Option (List ℕ)) (spare : List ℕ) (a : ℕ) where
  unfoldable pub get_command : Db → List ℕ → Sds → Run (Db × Sds)
  get_command db key outbuf = do
    k ← as_key (until_null key)
    (ret, db') ← fetch_value t db k
    elim ret [
      | none ↦ do o ← reply byte outbuf missing_text; ok (db', o)
      | some v ↦ do text ← read_string memory v.ptr; o ← reply byte outbuf text; ok (db', o)
    ]

  -- `cVal`, whose `ptr` is not set where the request has no value
  unfoldable pub value_object : Option (List ℕ) → Robj
  value_object none = junk
  value_object (some v) = record junk { ptr = string a (until_null v) }

  unfoldable pub run_command : Db → List ℕ → Request → Sds → Run (Db × Sds)
  run_command db action r outbuf =
      if is_command action get_name
      then (do key ← need r.key; get_command db key outbuf)
      else if is_command action set_name
      then (do
        key ← need r.key
        k ← as_key key
        db' ← set_key t can_resize junk db k (value_object r.val)
        o ← reply byte outbuf ok_text
        ok (db', o))
      else if is_command action incr_name
      then (do
        key ← need r.key
        k ← as_key key
        db' ← incr_key t can_resize junk memory spare a db k
        o ← reply byte outbuf ok_text
        ok (db', o))
      else if is_command action decr_name
      then (do
        key ← need r.key
        k ← as_key key
        db' ← decr_key t can_resize junk db k
        o ← reply byte outbuf ok_text
        ok (db', o))
      else ok (db, outbuf)

  -- Where `sdssplitargs` returns `NULL`, `argc` is 0.
  unfoldable pub command_server : Db → List ℕ → Sds → Run (Db × Sds)
  command_server db inbuf outbuf = do
    argv ← split_args inbuf
    let r = request_of (elim argv [ none ↦ [] | some v ↦ v ])
    action ← need r.action
    run_command db action r outbuf
