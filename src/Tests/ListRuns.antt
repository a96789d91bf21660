-- ===== src/Tests/ListRuns.antt =====
-- Runs of the linked lists: a list of two nodes at the addresses 0 and 1, and an empty one.
use redis_counter.Base.{
  ℕ, ◌≡◌, refl, arith, true, false, Option, none, some, List, [], ◌∷◌, ◌==◌, if◌then◌else◌, negsuc,
  pos, ok, Returns,
}
use redis_counter.Adlist.{Node, Heap, DList}
use redis_counter.Adlist.Operations.{list_create, get_iterator, join, list_dup}
use redis_counter.Adlist.Seg.{Cells, IsHeap, IsList}
use redis_counter.Adlist.Edits.{
  Edit, push_front, push_back, insert_edit, remove_edit, rotate_edit, perform_all, edited_all,
}
use redis_counter.Adlist.Calls.{Stands}
use redis_counter.Adlist.Session.{perform_all-Stands}
use redis_counter.Adlist.Join.{Joined, join-Joined}
use redis_counter.Adlist.Dup.{copies, Duplicated, list_dup-Duplicated}
use redis_counter.Adlist.Walk.{visit, reversed, visit-values}

abbrev two_nodes : ℕ → Option (Node ℕ)
two_nodes a =
    if a == 0
    then some (record { prev = none; next = some 1; value = 70 })
    else if a == 1
    then some (record { prev = some 0; next = none; value = 80 })
    else none

abbrev two_heap : Heap ℕ
two_heap = record { cells = two_nodes; fresh = 2; freed = [] }

-- The free method is set, and `dup` gives back no value above 75.
abbrev two_list : DList ℕ
two_list = record {
  head = some 0;
  tail = some 1;
  len = 2;
  dup = some (λ v. if v == 80 then none else some v);
  free = true;
  match_key = none;
}

abbrev two_cells : Cells ℕ
two_cells = (0, 70) ∷ (1, 80) ∷ []

two-IsList : IsList two_heap two_list two_cells
two-IsList = record {
  links = (refl, refl, (refl, refl, tt));
  starts = refl;
  ends = refl;
  count = refl;
}

two-IsHeap : IsHeap two_heap
two-IsHeap a h = ground arith

none-IsList : IsList two_heap list_create []
unfolding list_create
none-IsList = record { links = tt; starts = refl; ends = refl; count = refl }

abbrev some_edits : List (Edit ℕ)
some_edits =
    push_front 60
    ∷ insert_edit (negsuc 0) 75 false
    ∷ rotate_edit
    ∷ remove_edit (pos 1)
    ∷ push_back 90
    ∷ []

perform_all-Stands_example :
    Returns
      (perform_all two_heap two_list some_edits)
      (Stands two_list (edited_all true (70 ∷ 80 ∷ [], []) some_edits))
perform_all-Stands_example =
    perform_all-Stands two_heap two_list two_cells some_edits two-IsHeap two-IsList (omega arith)

join-Joined_example :
    Returns (join two_heap two_list list_create) (Joined two_heap two_list two_cells [])
join-Joined_example =
    join-Joined two_heap two_list list_create two_cells [] two-IsHeap two-IsList none-IsList
      (λ a h. refl) (omega arith)

list_dup-Duplicated_example :
    Returns
      (list_dup 3 two_heap two_list)
      (Duplicated two_heap two_list (copies two_list.dup (70 ∷ 80 ∷ [])))
list_dup-Duplicated_example =
    list_dup-Duplicated two_heap two_list two_cells two-IsHeap two-IsList (omega arith)

visit-values_example : visit 3 two_heap (get_iterator two_list false) ≡ ok (reversed (70 ∷ 80 ∷ []))
visit-values_example = visit-values two_heap two_list two_cells false two-IsList
