-- ===== src/Tests/DbRuns.antt =====
-- Runs of the keyspace: the theorems at an empty dictionary with the key "k".
use redis_counter.Base.{
  ℕ, ◌≡◌, ◌≢◌, ◌^◌, Option, some, refl, arith, Bool, true, false, none, List, [], ◌∷◌, replicate,
  pos, crash, Returns,
}
use redis_counter.Dict.Types.{DictType, create}
use redis_counter.Dict.Chain.{lookup}
use redis_counter.Dict.Model.{view, chain_of}
use mathlib.Core.Option.{or_else}
use redis_counter.Dict.Update.Clear.{create-IsDict}
use redis_counter.Number.{atol}
use redis_counter.Db.{Key, Robj, Db, string, raw, db_dict_type, set_key, incr_key, decr_key}
use redis_counter.Db.Store.{Puts, Retained, set_key-Puts}
use redis_counter.Db.Counter.{
  pattern_of, Next, Decreased, incr_key-Puts, incr_key_overruns, decr_key-Puts,
}

abbrev pub seed : List ℕ
seed = replicate 16 3

abbrev pub same : Key → Key → Bool
same p q = false

pub same_sound : (p q : Key) → same p q ≡ true → p ≡ q
same_sound p q h = cc

abbrev pub t : DictType Key Robj
t = db_dict_type seed same

abbrev pub empty_db : Db
empty_db = create

abbrev k : Key
k = (b'k' ∷ [], refl)

-- No address but that of a string can be read.
abbrev pub no_memory : ℕ → Option (List ℕ)
no_memory n = none

abbrev pub blank : Robj
blank = record { refcount = 0; ptr = raw 0 }

abbrev seven : Robj
seven = record { refcount = 1; ptr = string 4096 (b'7' ∷ []) }

set_key-Puts_example :
    Returns
      (set_key t true blank empty_db k seven)
      (λ d'. (x : Robj) × Puts t empty_db k x d' × Retained seven x)
set_key-Puts_example =
    set_key-Puts seed same same_sound true blank empty_db k seven (create-IsDict t) (omega arith)

nothing_there : view t empty_db k ≡ none
unfolding view chain_of lookup or_else
nothing_there = refl

view-Next : Next no_memory (view t empty_db k) (pos 1)
view-Next = rw nothing_there refl

no_pointer : (o : Robj) → view t empty_db k ≡ some o → pattern_of o.ptr ≢ 2 ^ 63
no_pointer o h e = cc (h, nothing_there)

incr_key-Puts_example :
    Returns (incr_key t true blank no_memory (replicate 20 9) 4096 empty_db k) (λ d'.
      (text : List ℕ) × Puts t empty_db k (record blank { ptr = string 4096 text }) d'
      × (atol text ≡ pos 1))
incr_key-Puts_example =
    incr_key-Puts seed no_memory same same_sound true blank (replicate 20 9) 4096 empty_db k (pos 1)
      (omega arith) (create-IsDict t) (omega arith) view-Next (omega arith)

incr_key_overruns_example : incr_key t true blank no_memory [] 4096 empty_db k ≡ crash
incr_key_overruns_example =
    incr_key_overruns seed no_memory same same_sound true blank 4096 empty_db k (create-IsDict t)

decr_key-Puts_example : Returns (decr_key t true blank empty_db k) (λ d'.
    (n : ℕ) × Puts t empty_db k (record blank { ptr = raw n }) d' × Decreased (view t empty_db k) n)
decr_key-Puts_example =
    decr_key-Puts seed no_memory same same_sound true blank empty_db k (create-IsDict t)
      (omega arith) no_pointer
