-- ===== src/Tests/ServeRuns.antt =====
-- Commands through the wire on an empty keyspace: the key "k" with the value "7".
use redis_counter.Base.{ℕ, ◌<◌, ◌≡◌, refl, arith, true, List, [], ◌∷◌, ◌++◌, ◌>>=◌, Returns}
use redis_counter.Dict.Model.{IsDict}
use redis_counter.Dict.Update.Clear.{create-IsDict}
use redis_counter.Sds.{Sds, type_8, sds_alloc, limit}
use redis_counter.Sds.Room.{text}
use redis_counter.Args.{is_space}
use redis_counter.Request.{client_buf, command_server, get_name, set_name}
use redis_counter.Request.Reply.{IsBuffer}
use redis_counter.Request.Wire.{is_plain, IsWord}
use redis_counter.Request.Serve.{set_get}
use redis_counter.Tests.DbRuns.{seed, same, same_sound, t, no_memory, empty_db, blank}

abbrev out : Sds
out = record { kind = type_8; len = 0; alloc = 4; buf = 0 ∷ 0 ∷ 0 ∷ 0 ∷ 0 ∷ [] }

out-IsBuffer : IsBuffer out
unfolding sds_alloc limit
out-IsBuffer = record {
  valid = record { fits = omega arith; holds = omega arith; size = omega arith };
  remembers = omega arith;
  small = omega arith;
}

abbrev k : List ℕ
k = b'k' ∷ []

k-IsWord : IsWord k
unfolding is_plain is_space
k-IsWord = (omega arith, (refl, tt))

abbrev v : List ℕ
v = b'7' ∷ []

v-IsWord : IsWord v
unfolding is_plain is_space
v-IsWord = (omega arith, (refl, tt))

room : 2 < sds_alloc out
unfolding sds_alloc
room = omega arith

set_get_example :
    Returns
      ((client_buf (set_name ∷ k ∷ v ∷ []) >>= λ b.
          command_server t true blank 0 no_memory [] 4096 empty_db b out)
        >>= λ r. client_buf (get_name ∷ k ∷ []) >>= λ b.
            command_server t true blank 0 no_memory [] 4096 r.0 b r.1)
      (λ r. IsDict t r.0 × IsBuffer r.1 × (text r.1 ≡ v ++ 10 ∷ []))
set_get_example =
    set_get seed same same_sound true blank 0 no_memory [] 4096 empty_db k v out k-IsWord v-IsWord
      (omega arith) (omega arith) (create-IsDict t) (omega arith) out-IsBuffer room
      (omega (arith, room))
