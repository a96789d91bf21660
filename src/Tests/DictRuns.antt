-- ===== src/Tests/DictRuns.antt =====
-- The dictionary of src/dict.c with numbers for keys: runs, and the theorems at a sample.
use redis_counter.Base.{
  ℕ, suc, length, ◌+◌, ◌*◌, ◌%◌, ◌≤◌, ◌≡◌, refl, List, [], ◌∷◌, ◌++◌, arith, Run, ok, crash,
  out_of_fuel, sym, ap, ◌>>=◌, Returns, ◌⊎◌, true, false, none, some, ◌==◌, u64,
}
use mathlib.Core.List.{flatten}
use redis_counter.Dict.Types.{DictType, Dict, create, matches, stored_key, stored_val, IsKeyed}
use redis_counter.Dict.Chain.{locate, assign, unlink}
use redis_counter.Dict.Model.{view, IsDict}
use redis_counter.Dict.Size.{double_until, next_power, expand, expand_if_needed}
use redis_counter.Dict.Size.Power.{IsLeastPower, next_power-IsLeastPower}
use redis_counter.Dict.Size.Expand.{Expanded, expand-Expanded, Ready, expand_if_needed-Ready}
use redis_counter.Dict.Rehash.{
  skip_empty, move_bucket, finish_rehash, rehash_index, rehash_round, rehash_loop, rehash,
  rehash_step, step_if_rehashing,
}
use redis_counter.Dict.Rehash.Round.{Keeps}
use redis_counter.Dict.Rehash.Finish.{rehash_steps, Finished, rehash_steps-Finished}
use redis_counter.Dict.Rehash.Loop.{Rehashed, rehash-Rehashed}
use redis_counter.Dict.Search.{search_table, probe, free_slot, key_index, find, fetch_value, load}
use redis_counter.Dict.Search.Find.{Probed, find-Probed, fetch_value-view}
use redis_counter.Dict.Iterate.{iterate}
use redis_counter.Dict.Iterate.Whole.{all_entries, iterate-all_entries}
use redis_counter.Dict.Update.{
  store, add_raw, add, replace, unlink_entry, generic_delete, delete, empty,
}
use redis_counter.Dict.Update.Write.{Writes}
use redis_counter.Dict.Update.Insert.{AddedRaw, add_raw-AddedRaw}
use redis_counter.Dict.Update.Replace.{replace-Writes}
use redis_counter.Dict.Update.Delete.{Deleted, generic_delete-Deleted}
use redis_counter.Dict.Update.Clear.{create-IsDict, empty-create}
use redis_counter.Dict.Session.{
  Call, Answer, fetch_call, add_call, replace_call, delete_call, value, status, serve, serve_all,
  expected_all, Serves, serve_all-Serves,
}

abbrev numbers : DictType ℕ ℕ
numbers = record {
  hash_function = λ k. k * 5 % u64;
  key_dup = none;
  val_dup = none;
  key_compare = some (λ a b. a == b);
  same_pointer = λ a b. a == b;
}

numbers-IsKeyed : IsKeyed numbers
unfolding matches stored_key
numbers-IsKeyed = record {
  match_refl = λ a. ground arith;
  match_symm = λ a b h. ground arith;
  match_trans = λ a b c h g. ground arith;
  match-hash = λ a b h. ground arith;
  match-dup = λ a. ground arith;
}

abbrev calls : List (Call ℕ ℕ)
calls =
    add_call 1 10
    ∷ add_call 5 50
    ∷ add_call 9 90
    ∷ add_call 2 20
    ∷ replace_call 5 55
    ∷ add_call 13 130
    ∷ delete_call 1
    ∷ fetch_call 9
    ∷ add_call 9 91
    ∷ fetch_call 1
    ∷ []

-- all that a run computes with
program : Unit {0}
unfolding matches stored_key stored_val locate assign unlink double_until next_power expand
    expand_if_needed skip_empty move_bucket finish_rehash rehash_index rehash_round rehash_loop
    rehash rehash_step step_if_rehashing search_table probe free_slot key_index find load
    fetch_value store add_raw add replace unlink_entry generic_delete delete serve serve_all
program = tt

-- the fifth key starts a rehash, and the later calls run during it
session_answers :
    (serve_all numbers true 0 create calls >>= λ r. ok r.0)
    ≡ ok (
        status true
        ∷ status true
        ∷ status true
        ∷ status true
        ∷ status false
        ∷ status true
        ∷ status true
        ∷ value (some 90)
        ∷ status false
        ∷ value none
        ∷ [])
unfolding program
session_answers = refl

serve_all-Serves_example :
    Returns
      (serve_all numbers true 0 create calls)
      (Serves numbers create (expected_all numbers (view numbers create) calls) 10)
serve_all-Serves_example =
    serve_all-Serves numbers numbers-IsKeyed true 0 create calls (create-IsDict numbers)
      (omega arith)

-- a dictionary in the middle of a rehash, with five keys
abbrev prefix : List (Call ℕ ℕ)
prefix = add_call 1 10 ∷ add_call 5 50 ∷ add_call 9 90 ∷ add_call 2 20 ∷ add_call 13 130 ∷ []

prefix_run :
    Returns
      (serve_all numbers true 0 create prefix)
      (Serves numbers create (expected_all numbers (view numbers create) prefix) 5)
prefix_run =
    serve_all-Serves numbers numbers-IsKeyed true 0 create prefix (create-IsDict numbers)
      (omega arith)

abbrev sample : Dict ℕ ℕ
sample = prefix_run.0.1

sample-IsDict : IsDict numbers sample
sample-IsDict = prefix_run.2.valid

sample_few : sample.ht0.used + sample.ht1.used ≤ 5
sample_few = prefix_run.2.total

rehash-Rehashed_example : Returns (rehash numbers 3 sample) (Rehashed numbers sample)
rehash-Rehashed_example =
    rehash-Rehashed numbers numbers-IsKeyed 3 sample (omega arith) sample-IsDict

add_raw-AddedRaw_example :
    Returns (add_raw numbers true 7 sample 21) (AddedRaw numbers numbers-IsKeyed 21 7 sample)
add_raw-AddedRaw_example =
    add_raw-AddedRaw numbers numbers-IsKeyed 21 7 true sample sample-IsDict
      (omega (arith, sample_few))

replace-Writes_example : Returns (replace numbers true 0 sample 9 99) λ r.
    ((r.0 ≡ true)
      × (view numbers sample 9 ≡ none)
      × Writes numbers sample 9 (some (stored_val numbers 99)) 1 0 r.1)
    ⊎ ((r.0 ≡ false)
        × ((old : ℕ) × (view numbers sample 9 ≡ some old))
        × Writes numbers sample 9 (some (stored_val numbers 99)) 0 0 r.1)
replace-Writes_example =
    replace-Writes numbers numbers-IsKeyed true 0 sample 9 99 sample-IsDict
      (omega (arith, sample_few))

generic_delete-Deleted_example :
    Returns (generic_delete numbers sample 13) (Deleted numbers numbers-IsKeyed 13 sample)
generic_delete-Deleted_example =
    generic_delete-Deleted numbers numbers-IsKeyed 13 sample sample-IsDict

find-Probed_example :
    Returns (find numbers sample 5) (λ r. Keeps numbers sample r.1 × Probed numbers r.1 5 r.0)
find-Probed_example = find-Probed numbers numbers-IsKeyed sample 5 sample-IsDict

fetch_value-view_example :
    Returns
      (fetch_value numbers sample 2)
      (λ r. (r.0 ≡ view numbers sample 2) × Keeps numbers sample r.1)
fetch_value-view_example = fetch_value-view numbers numbers-IsKeyed sample 2 sample-IsDict

expand-Expanded_example : Returns (expand create 9) (Expanded numbers (create {K = ℕ} {V = ℕ}) 9)
expand-Expanded_example = expand-Expanded numbers create 9 (create-IsDict numbers) (omega arith)

expand_if_needed-Ready_example : Returns (expand_if_needed true sample) (Ready numbers sample)
expand_if_needed-Ready_example =
    expand_if_needed-Ready numbers true sample sample-IsDict (omega (arith, sample_few))

next_power-IsLeastPower_example : Returns (next_power 1000) (IsLeastPower 1000)
next_power-IsLeastPower_example = next_power-IsLeastPower 1000 (omega arith)

empty-create_example :
    empty sample ≡ ok (flatten sample.ht0.table ++ flatten sample.ht1.table, create)
empty-create_example = empty-create numbers sample sample-IsDict

abbrev dict_of : Run (List (Answer ℕ) × Dict ℕ ℕ) → Dict ℕ ℕ
dict_of (ok r) = r.1
dict_of crash = create
dict_of out_of_fuel = create

sample_idle : sample.iterators ≡ 0
unfolding program
sample_idle = sym (ap (λ r. (dict_of r).iterators) prefix_run.1)

sample_index : sample.rehashidx ≡ some 0
unfolding program
sample_index = sym (ap (λ r. (dict_of r).rehashidx) prefix_run.1)

sample_size : sample.ht0.size ≡ 4
unfolding program
sample_size = sym (ap (λ r. (dict_of r).ht0.size) prefix_run.1)

rehash_steps-Finished_example : Returns (rehash_steps numbers 5 sample) (Finished numbers sample)
rehash_steps-Finished_example =
    rehash_steps-Finished numbers numbers-IsKeyed 5 sample 0 sample-IsDict sample_idle sample_index
      (omega (arith, sample_size))

iterate-all_entries_example :
    iterate
      (5, 6)
      7
      (suc (length (all_entries sample)))
      (suc (sample.ht0.size + sample.ht1.size + 2))
      false
      sample
    ≡ ok (all_entries sample, sample)
iterate-all_entries_example =
    iterate-all_entries numbers (5, 6) 7 false sample sample-IsDict (omega (arith, sample_idle))
