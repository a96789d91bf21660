-- ===== src/Request/Serve.antt =====
-- Commands through the wire: `clientBuf`, `commandServer` and the keyspace together.
use redis_counter.Base.{
  ℕ, ◌+◌, ◌<◌, ◌^◌, ◌≡◌, refl, ◌∙◌, arith, Bool, true, false, none, some, List, [], ◌∷◌, ◌++◌, ◌==◌,
  length, Run, ok, crash, ◌>>=◌, Returns, Returns-bind, bind_assoc, sym, Option, Bool-cases, inl,
  inr, ltb, ◌⊎◌, ltb→lt, lt→ltb, ap,
}
use redis_counter.Dict.Model.{view, IsDict}
use redis_counter.Dict.Rehash.Round.{Keeps}
use redis_counter.Dict.Search.Find.{fetch_value-view}
use redis_counter.Sds.{Sds, sds_alloc}
use redis_counter.Sds.Room.{text}
use redis_counter.Text.{mem_cmp, sds_cmp}
use redis_counter.Args.{is_space, split_args}
use redis_counter.Db.{Key, string, Robj, Db, db_dict_type, until_null, read_string, set_key}
use redis_counter.Db.Keys.{key_path, db_dict_type-IsKeyed}
use redis_counter.Db.Store.{Puts, Retained, set_key-Puts}
use redis_counter.Request.Reply.{IsBuffer, Replied, reply-Replied}
use redis_counter.Request.Wire.{is_plain, AllPlain, IsWord, lengths_and, split_args-client_buf}
use redis_counter.Request.{
  Request, as_key, client_buf, set_field, request_loop, request_of, need, is_command, get_name,
  set_name, ok_text, reply, get_command, value_object, run_command, command_server,
}

until_null-AllPlain : (w : List ℕ) → AllPlain w → until_null w ≡ w
unfolding until_null is_plain
until_null-AllPlain [] h = refl
until_null-AllPlain (c ∷ w) h =
    let z : (c == 0) ≡ false = ground arith in rw (z, until_null-AllPlain w h.1) refl

request_of-set :
    (n k v : List ℕ)
    → request_of (n ∷ lengths_and (set_name ∷ k ∷ v ∷ []))
      ≡ record { action = some set_name; key = some k; val = some v }
unfolding request_of request_loop set_field lengths_and until_null
request_of-set n k v = refl

request_of-get :
    (n k : List ℕ)
    → request_of (n ∷ lengths_and (get_name ∷ k ∷ []))
      ≡ record { action = some get_name; key = some k; val = none }
unfolding request_of request_loop set_field lengths_and until_null
request_of-get n k = refl

decided_key :
    (k : List ℕ) (short : ltb (length k) (2 ^ 31) ≡ true)
    (c : (ltb (length k) (2 ^ 31) ≡ true) ⊎ (ltb (length k) (2 ^ 31) ≡ false))
    → ◌≡◌ {A = Run Key} (elim c [ inl y ↦ ok (k, y) | inr n ↦ crash ]) (ok (k, short))
decided_key k short (inl y) = ap ok (key_path (k, y) (k, short) refl)
decided_key k short (inr n) = absurd (cc)

as_key_short : (k : List ℕ) (short : ltb (length k) (2 ^ 31) ≡ true) → as_key k ≡ ok (k, short)
unfolding as_key
as_key_short k short = decided_key k short (Bool-cases (ltb (length k) (2 ^ 31)))

set_name-IsWord : IsWord set_name
unfolding is_plain is_space
set_name-IsWord = (omega arith, (refl, (refl, (refl, tt))))

get_name-IsWord : IsWord get_name
unfolding is_plain is_space
get_name-IsWord = (omega arith, (refl, (refl, (refl, tt))))

module _ (seed : List ℕ) (same : Key → Key → Bool) (sound : (p q : Key) → same p q ≡ true → p ≡ q)
    (can_resize : Bool) (junk : Robj) (byte : ℕ) (memory : ℕ → Option (List ℕ)) (spare : List ℕ)
    (a : ℕ) where
  abbrev serve : Db → List ℕ → Sds → Run (Db × Sds)
  serve = command_server (db_dict_type seed same) can_resize junk byte memory spare a

  -- The client builds a request and the server takes it.
  abbrev pub send : Db → List (List ℕ) → Sds → Run (Db × Sds)
  send db argv o = client_buf argv >>= λ b. serve db b o

  send-split_args :
      (db : Db) (argv words : List (List ℕ)) (r : Request) (name : List ℕ) (o : Sds)
      → (client_buf argv >>= split_args) ≡ ok (some words)
      → request_of words ≡ r
      → r.action ≡ some name
      → send db argv o
        ≡ run_command (db_dict_type seed same) can_resize junk byte memory spare a db name r o
  unfolding command_server need
  send-split_args db argv words r name o e f g =
      sym (bind_assoc (client_buf argv) split_args _) ∙ rw (e, f, g) refl

  serve-set :
      (db : Db) (k v : List ℕ) (o : Sds)
      → IsWord k
      → IsWord v
      → (short : ltb (length k) (2 ^ 31) ≡ true) → length v < 2 ^ 31
      → send db (set_name ∷ k ∷ v ∷ []) o ≡ (
          set_key
            (db_dict_type seed same)
            can_resize
            junk
            db
            (k, short)
            (record junk { ptr = string a v })
          >>= λ db'. reply byte o ok_text >>= λ o'. ok (db', o'))
  unfolding run_command value_object is_command sds_cmp mem_cmp need
  serve-set db k v o wk wv short short' =
      send-split_args db (set_name ∷ k ∷ v ∷ []) _ _ set_name o
        (split_args-client_buf (set_name ∷ k ∷ v ∷ []) (omega arith)
          (set_name-IsWord, omega arith, (wk, ltb→lt (length k) (2 ^ 31) short, (wv, short', tt))))
        (request_of-set _ k v) refl
      ∙ rw (as_key_short k short, until_null-AllPlain v wv.1) refl

  served_set :
      (db : Db) (k v : List ℕ) (o : Sds)
      → IsWord k
      → IsWord v
      → (short : ltb (length k) (2 ^ 31) ≡ true) → length v < 2 ^ 31
      → IsDict (db_dict_type seed same) db
      → db.ht0.used + db.ht1.used < 2 ^ 59
      → IsBuffer o
      → 2 < sds_alloc o
      → Returns (send db (set_name ∷ k ∷ v ∷ []) o) (λ r.
        ((x : Robj) × Puts (db_dict_type seed same) db (k, short) x r.0
          × Retained (record junk { ptr = string a v }) x)
        × Replied ok_text o r.1)
  served_set db k v o wk wv short short' valid few b room =
      rw (serve-set db k v o wk wv short short') (
        Returns-bind
          (set_key-Puts seed same sound can_resize junk db (k, short)
            (record junk { ptr = string a v }) valid few)
          λ db' p.
            Returns-bind (reply-Replied byte o ok_text b room) λ o' q. ((db', o'), refl, (p, q)))

  serve-get :
      (db : Db) (k : List ℕ) (o : Sds)
      → IsWord k
      → (short : ltb (length k) (2 ^ 31) ≡ true)
      → send db (get_name ∷ k ∷ []) o
        ≡ get_command (db_dict_type seed same) can_resize junk byte memory spare a db k o
  unfolding run_command is_command sds_cmp mem_cmp need
  serve-get db k o wk short =
      send-split_args db (get_name ∷ k ∷ []) _ _ get_name o
        (split_args-client_buf (get_name ∷ k ∷ []) (omega arith)
          (get_name-IsWord, omega arith, (wk, ltb→lt (length k) (2 ^ 31) short, tt)))
        (request_of-get _ k) refl

  -- What a get replies for a key that has a string
  get-Replied :
      (db : Db) (k u : List ℕ) (o : Sds) (x : Robj) (b : ℕ)
      → IsWord k
      → (short : ltb (length k) (2 ^ 31) ≡ true) → IsDict (db_dict_type seed same) db
      → view (db_dict_type seed same) db (k, short) ≡ some x
      → x.ptr ≡ string b u
      → IsBuffer o
      → length u < sds_alloc o
      → Returns
          (send db (get_name ∷ k ∷ []) o)
          (λ r. Keeps (db_dict_type seed same) db r.0 × Replied u o r.1)
  unfolding get_command read_string
  get-Replied db k u o x b wk short valid e f buffer room =
      rw (serve-get db k o wk short, until_null-AllPlain k wk.1, as_key_short k short)
        (Returns-bind
          (fetch_value-view (db_dict_type seed same) (db_dict_type-IsKeyed seed same sound) db
            (k, short) valid)
          λ r p.
            rw (p.0 ∙ e, f)
              (Returns-bind (reply-Replied byte o u buffer room)
                λ o' q. ((r.1, o'), refl, (p.1, q))))

  -- After a set request for a key and a value, built by clientBuf from words of fewer than 2 ^ 31
  -- bytes with no null byte, blank or quote, a get request for the key replies with the value and
  -- a newline, on a well-formed keyspace with fewer than 2 ^ 59 keys and a reply buffer with room
  -- for the replies; keyspace and buffer stay well formed.
  pub set_get :
      (db : Db) (k v : List ℕ) (o : Sds)
      → IsWord k
      → IsWord v
      → length k < 2 ^ 31
      → length v < 2 ^ 31
      → IsDict (db_dict_type seed same) db
      → db.ht0.used + db.ht1.used < 2 ^ 59
      → IsBuffer o
      → 2 < sds_alloc o
      → length v < sds_alloc o
      → Returns
          (send db (set_name ∷ k ∷ v ∷ []) o >>= λ r. send r.0 (get_name ∷ k ∷ []) r.1)
          (λ r. IsDict (db_dict_type seed same) r.0 × IsBuffer r.1 × (text r.1 ≡ v ++ 10 ∷ []))
  set_get db k v o wk wv length_k length_v valid few b room room' =
      let short = lt→ltb (length k) (2 ^ 31) length_k in
      Returns-bind (served_set db k v o wk wv short length_v valid few b room) λ r s.
        let x = (s.0).0 in
        let g =
          get-Replied r.0 k v r.1 x a wk short (s.0).1.valid (s.0).1.here (s.0).2.same_ptr
            (s.1).buffer (omega (arith, (s.1).capacity)) in
        (g.0, g.1, ((g.2.0).valid, (g.2.1).buffer, (g.2.1).reply_text))
