-- ===== src/Tests/SdsRuns.antt =====
-- Runs of the strings: "ab" is given room and a longer end, which changes its header.
use redis_counter.Base.{arith, [], ◌∷◌, Returns, pos, negsuc}
use redis_counter.Sds.Append.{HasRoom, Appended, make_room_for-HasRoom, catlen-Appended}
use redis_counter.Sds.Make.{bytes, new_len, grow_zero, remove_free_space}
use redis_counter.Sds.Make.Fresh.{new_len-Copied}
use redis_counter.Sds.Make.Tight.{Tight, remove_free_space-Tight}
use redis_counter.Sds.Make.Zeros.{Grown, grow_zero-Grown}
use redis_counter.Sds.Copy.{Copied, cpylen-Copied}
use redis_counter.Sds.Room.{IsSds, text}
use redis_counter.Sds.Slice.{range, trim}
use redis_counter.Sds.Slice.Move.{Cut}
use redis_counter.Sds.Slice.Range.{slice, range-Cut}
use redis_counter.Sds.Slice.Trim.{Trimmed, trim-Trimmed}
use redis_counter.Sds.{Sds, type_5, type_8, sds_alloc, limit, make_room_for, catlen, cpylen}

abbrev ab : Sds
ab = record { kind = type_5; len = 2; alloc = 0; buf = 97 ∷ 98 ∷ 0 ∷ [] }

ab-IsSds : IsSds ab
unfolding sds_alloc limit
ab-IsSds = record { fits = omega arith; holds = omega arith; size = omega arith }

make_room_for-HasRoom_example : Returns (make_room_for 7 ab 40) (HasRoom ab 40)
make_room_for-HasRoom_example = make_room_for-HasRoom 7 ab 40 ab-IsSds (omega arith)

catlen-Appended_example : Returns (catlen 7 ab (99 ∷ 100 ∷ [])) (Appended ab (99 ∷ 100 ∷ []))
catlen-Appended_example = catlen-Appended 7 ab (99 ∷ 100 ∷ []) ab-IsSds (omega arith)

cpylen-Copied_example : Returns (cpylen 7 ab (99 ∷ 100 ∷ 101 ∷ [])) (Copied (99 ∷ 100 ∷ 101 ∷ []))
cpylen-Copied_example = cpylen-Copied 7 ab (99 ∷ 100 ∷ 101 ∷ []) ab-IsSds (omega arith)

-- The last byte of "ab"
range-Cut_example :
    Returns (range ab (negsuc 0) (pos 9)) (Cut ab (slice (text ab) (negsuc 0) (pos 9)))
range-Cut_example = range-Cut ab (negsuc 0) (pos 9) ab-IsSds

-- "ab" without "a"
trim-Trimmed_example :
    Returns (trim ab (97 ∷ [])) (λ r. Cut ab (text r) r × Trimmed (97 ∷ []) (text ab) (text r))
trim-Trimmed_example = trim-Trimmed ab (97 ∷ []) ab-IsSds

new_len-Copied_example : Returns (new_len 7 (bytes (97 ∷ 0 ∷ 98 ∷ [])) 2) (Copied (97 ∷ 0 ∷ []))
new_len-Copied_example = new_len-Copied 7 (97 ∷ 0 ∷ 98 ∷ []) 2 (omega arith) (omega arith)

grow_zero-Grown_example : Returns (grow_zero 7 ab 40) (Grown ab 40)
grow_zero-Grown_example = grow_zero-Grown 7 ab 40 ab-IsSds (omega arith)

-- "a" with room for four bytes
abbrev roomy : Sds
roomy = record { kind = type_8; len = 1; alloc = 4; buf = 97 ∷ 0 ∷ 7 ∷ 7 ∷ 7 ∷ [] }

roomy-IsSds : IsSds roomy
unfolding sds_alloc limit
roomy-IsSds = record { fits = omega arith; holds = omega arith; size = omega arith }

remove_free_space-Tight_example : Returns (remove_free_space 7 roomy) (Tight roomy)
remove_free_space-Tight_example = remove_free_space-Tight 7 roomy roomy-IsSds (omega arith)
