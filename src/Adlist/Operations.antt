-- ===== src/Adlist/Operations.antt =====
-- The functions of src/adlist.c. A list structure is a value, its nodes stand in the heap.
use redis_counter.Base.{
  ℕ, zero, suc, Bool, true, false, Option, none, some, leb, ◌==◌, if◌then◌else◌, ℤ, pos, negsuc,
  Run, ok, out_of_fuel, ◌>>=◌, add64, dec64,
}
use redis_counter.Adlist.{
  Ptr, same_ptr, Node, Heap, DList, Iter, alloc, load_node, set_next, set_prev, link_next,
  link_prev, free_node, free_value,
}

module _ {ℓ} {V : Type ℓ} where
  unfoldable pub list_create : DList V
  list_create = record {
    head = none;
    tail = none;
    len = 0;
    dup = none;
    free = false;
    match_key = none;
  }

  -- The loop of `listEmpty` with `len` nodes to go
  unfoldable pub empty_loop : Bool → ℕ → Ptr → Heap V → Run (Heap V)
  empty_loop method zero current h = ok h
  empty_loop method (suc len) current h = do
    n ← load_node h current
    h' ← free_node (free_value method n.value h) current
    empty_loop method len n.next h'

  unfoldable pub list_empty : Heap V → DList V → Run (Heap V × DList V)
  list_empty h l = do
    h' ← empty_loop l.free l.len l.head h
    ok (h', record l { head = none; tail = none; len = 0 })

  -- The structure of the list is not in the heap.
  unfoldable pub list_release : Heap V → DList V → Run (Heap V)
  list_release h l = do (h', l') ← list_empty h l; ok h'

  unfoldable pub add_node_head : Heap V → DList V → V → Run (Heap V × DList V)
  add_node_head h l v =
      let node = some h.fresh in
      if l.len == 0
      then ok (
        alloc h (record { prev = none; next = none; value = v }),
        record l { head = node; tail = node; len = add64 l.len 1 },
      )
      else (do
        h' ← set_prev (alloc h (record { prev = none; next = l.head; value = v })) l.head node
        ok (h', record l { head = node; len = add64 l.len 1 }))

  unfoldable pub add_node_tail : Heap V → DList V → V → Run (Heap V × DList V)
  add_node_tail h l v =
      let node = some h.fresh in
      if l.len == 0
      then ok (
        alloc h (record { prev = none; next = none; value = v }),
        record l { head = node; tail = node; len = add64 l.len 1 },
      )
      else (do
        h' ← set_next (alloc h (record { prev = l.tail; next = none; value = v })) l.tail node
        ok (h', record l { tail = node; len = add64 l.len 1 }))

  -- The new node of `listInsertNode`, and the ends of the list
  unfoldable pub inserted : Ptr → Node V → V → Bool → Node V
  inserted old n v after =
      if after
      then record { prev = old; next = n.next; value = v }
      else record { prev = n.prev; next = old; value = v }

  unfoldable pub insert_ends : DList V → Ptr → Ptr → Bool → DList V
  insert_ends l old node after =
      if after
      then (if same_ptr l.tail old then record l { tail = node } else l)
      else (if same_ptr l.head old then record l { head = node } else l)

  -- The two writes to the neighbours of the new node
  unfoldable pub link_node : Heap V → Ptr → Ptr → Ptr → Run (Heap V)
  link_node h p q node = do h1 ← link_next h p node; link_prev h1 q node

  unfoldable pub insert_node : Heap V → DList V → Ptr → V → Bool → Run (Heap V × DList V)
  insert_node h l old v after = do
    n ← load_node h old
    let node = some h.fresh
    let new = inserted old n v after
    h2 ← link_node (alloc h new) new.prev new.next node
    let l' = insert_ends l old node after
    ok (h2, record l' { len = add64 l.len 1 })

  -- `list->head = q` if `p` is `NULL`, and `list->tail = p` if `q` is
  unfoldable pub fix_head : Ptr → DList V → Ptr → DList V
  fix_head none l q = record l { head = q }
  fix_head (some a) l q = l

  unfoldable pub fix_tail : Ptr → DList V → Ptr → DList V
  fix_tail none l p = record l { tail = p }
  fix_tail (some a) l p = l

  unfoldable pub del_node : Heap V → DList V → Ptr → Run (Heap V × DList V)
  del_node h l node = do
    n ← load_node h node
    h1 ← link_next h n.prev n.next
    let l1 = fix_head n.prev l n.next
    n1 ← load_node h1 node
    h2 ← link_prev h1 n1.next n1.prev
    let l2 = fix_tail n1.next l1 n1.prev
    h3 ← free_node (free_value l.free n1.value h2) node
    ok (h3, record l2 { len = dec64 l.len })

  unfoldable pub get_iterator : DList V → Bool → Iter
  get_iterator l from_head = record {
    next = if from_head then l.head else l.tail;
    from_head = from_head;
  }

  unfoldable pub rewind : DList V → Iter
  rewind l = record { next = l.head; from_head = true }

  unfoldable pub rewind_tail : DList V → Iter
  rewind_tail l = record { next = l.tail; from_head = false }

  unfoldable pub list_next : Heap V → Iter → Run (Ptr × Iter)
  list_next h it = elim it.next [
    | none ↦ ok (none, it)
    | some a ↦ do
      n ← load_node h (some a)
      ok (some a, record it { next = if it.from_head then n.next else n.prev })
  ]

  unfoldable pub is_match : (V → V → Bool) → Option (V → V → Bool) → V → V → Bool
  is_match same none key v = same key v
  is_match same (some f) key v = f v key

  -- The loop of `listSearchKey`; `same` compares the pointers to two values.
  unfoldable pub search_loop :
      (V → V → Bool) → ℕ → Option (V → V → Bool) → V → Heap V → Iter → Run Ptr
  search_loop same zero method key h it = out_of_fuel
  search_loop same (suc fuel) method key h it = do
    (node, it') ← list_next h it
    elim node [
      | none ↦ ok none
      | some a ↦ do
        n ← load_node h (some a)
        elim (is_match same method key n.value) [
          | true ↦ ok (some a)
          | false ↦ search_loop same fuel method key h it'
        ]
    ]

  unfoldable pub search_key : (V → V → Bool) → ℕ → Heap V → DList V → V → Run Ptr
  search_key same fuel h l key = search_loop same fuel l.match_key key h (rewind l)

  -- The loops of `listIndex`, with `index` steps to go
  unfoldable pub walk_next : Heap V → ℕ → Ptr → Run Ptr
  walk_next h index none = ok none
  walk_next h zero (some a) = ok (some a)
  walk_next h (suc index) (some a) = do n ← load_node h (some a); walk_next h index n.next

  unfoldable pub walk_prev : Heap V → ℕ → Ptr → Run Ptr
  walk_prev h index none = ok none
  walk_prev h zero (some a) = ok (some a)
  walk_prev h (suc index) (some a) = do n ← load_node h (some a); walk_prev h index n.prev

  unfoldable pub list_index : Heap V → DList V → ℤ → Run Ptr
  list_index h l (pos i) = walk_next h i l.head
  list_index h l (negsuc i) = walk_prev h i l.tail

  unfoldable pub rotate : Heap V → DList V → Run (Heap V × DList V)
  rotate h l = if leb l.len 1 then ok (h, l) else do
    let t = l.tail
    n ← load_node h t
    h1 ← set_next h n.prev none
    h2 ← set_prev h1 l.head t
    h3 ← set_prev h2 t none
    h4 ← set_next h3 t l.head
    ok (h4, record l { head = t; tail = n.prev })

  -- `if (o->tail) l->tail = o->tail`
  unfoldable pub take_tail : DList V → Ptr → DList V
  take_tail l none = l
  take_tail l (some a) = record l { tail = some a }

  -- `l` and `o` after `listJoin(l, o)`
  unfoldable pub join : Heap V → DList V → DList V → Run (Heap V × DList V × DList V)
  join h l o = do
    h1 ← link_prev h o.head l.tail
    h2 ← link_next h1 l.tail o.head
    let l2 = take_tail (fix_head l.tail l o.head) o.tail
    ok (h2, record l2 { len = add64 l.len o.len }, record o { head = none; tail = none; len = 0 })

  unfoldable pub copy_value : Option (V → Option V) → V → Option V
  copy_value none v = some v
  copy_value (some f) v = f v

  -- The loop of `listDup`, with the copy made so far; none if `dup` returned `NULL`
  unfoldable pub dup_loop : ℕ → Heap V → DList V → Iter → Run (Heap V × Option (DList V))
  dup_loop zero h copy it = out_of_fuel
  dup_loop (suc fuel) h copy it = do
    (node, it') ← list_next h it
    elim node [
      | none ↦ ok (h, some copy)
      | some a ↦ do
        n ← load_node h (some a)
        elim (copy_value copy.dup n.value) [
          | none ↦ do h' ← list_release h copy; ok (h', none)
          | some v ↦ do (h', copy') ← add_node_tail h copy v; dup_loop fuel h' copy' it'
        ]
    ]

  unfoldable pub list_dup : ℕ → Heap V → DList V → Run (Heap V × Option (DList V))
  list_dup fuel h orig =
      dup_loop fuel h
        (record list_create { dup = orig.dup; free = orig.free; match_key = orig.match_key })
        (rewind orig)
