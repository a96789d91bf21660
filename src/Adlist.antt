-- ===== src/Adlist.antt =====
-- Doubly linked lists: src/adlist.c and src/include/adlist.h. Nodes stand in a heap, at addresses
-- that are numbers; a pointer is an address or `NULL`, which is none. An access through `NULL` or to
-- a node that has been released crashes.
pub mod Operations
pub mod Seg
pub mod Links
pub mod Fresh
pub mod Add
pub mod Remove
pub mod Ends
pub mod Insert
pub mod Index
pub mod Rotate
pub mod Clear
pub mod Join
pub mod Walk
pub mod Dup
pub mod Edits
pub mod Calls
pub mod Session
use redis_counter.Base.{
  ℕ, zero, suc, Bool, true, false, Option, none, some, List, [], ◌∷◌, ◌++◌, leb, ◌==◌,
  if◌then◌else◌, ℤ, pos, negsuc, Run, ok, crash, out_of_fuel, ◌>>=◌, add64, dec64,
}

abbrev pub Ptr : Type 0
Ptr = Option ℕ

unfoldable pub same_ptr : Ptr → Ptr → Bool
same_ptr none none = true
same_ptr none (some b) = false
same_ptr (some a) none = false
same_ptr (some a) (some b) = a == b

pub record Node {ℓ} (V : Type ℓ) : Type ℓ where
  pub prev : Ptr
  pub next : Ptr
  pub value : V

-- `fresh` is the address of the next allocation, and `freed` the values that the free methods
-- have been called on.
pub record Heap {ℓ} (V : Type ℓ) : Type ℓ where
  pub cells : ℕ → Option (Node V)
  pub fresh : ℕ
  pub freed : List V

-- The methods `dup`, `free` and `match` may be `NULL`; `dup` itself may return `NULL`. Of `free`
-- it matters whether it is there.
pub record DList {ℓ} (V : Type ℓ) : Type ℓ where
  pub head : Ptr
  pub tail : Ptr
  pub len : ℕ
  pub dup : Option (V → Option V)
  pub free : Bool
  pub match_key : Option (V → V → Bool)

-- `listIter`, with `AL_START_HEAD` as true
pub record Iter : Type 0 where
  pub next : Ptr
  pub from_head : Bool

module _ {ℓ} {V : Type ℓ} where
  unfoldable pub put : Heap V → ℕ → Option (Node V) → Heap V
  put h a c = record h { cells = λ b. if b == a then c else h.cells b }

  -- `zmalloc`, which ends the process instead of returning `NULL`, and the writes of all three
  -- fields of the new node
  unfoldable pub alloc : Heap V → Node V → Heap V
  alloc h n = record (put h h.fresh (some n)) { fresh = suc h.fresh }

  unfoldable pub load_node : Heap V → Ptr → Run (Node V)
  load_node h none = crash
  load_node h (some a) = elim (h.cells a) [ none ↦ crash | some n ↦ ok n ]

  -- `p->next = q` and `p->prev = q`
  unfoldable pub set_next : Heap V → Ptr → Ptr → Run (Heap V)
  set_next h none q = crash
  set_next h (some a) q = do n ← load_node h (some a); ok (put h a (some (record n { next = q })))

  unfoldable pub set_prev : Heap V → Ptr → Ptr → Run (Heap V)
  set_prev h none q = crash
  set_prev h (some a) q = do n ← load_node h (some a); ok (put h a (some (record n { prev = q })))

  -- The same, if `p` is not `NULL`
  unfoldable pub link_next : Heap V → Ptr → Ptr → Run (Heap V)
  link_next h none q = ok h
  link_next h (some a) q = set_next h (some a) q

  unfoldable pub link_prev : Heap V → Ptr → Ptr → Run (Heap V)
  link_prev h none q = ok h
  link_prev h (some a) q = set_prev h (some a) q

  -- `zfree` of a node
  unfoldable pub free_node : Heap V → Ptr → Run (Heap V)
  free_node h none = ok h
  free_node h (some a) = do n ← load_node h (some a); ok (put h a none)

  -- `if (list->free) list->free(value)`
  unfoldable pub free_value : Bool → V → Heap V → Heap V
  free_value method v h = if method then record h { freed = h.freed ++ v ∷ [] } else h
