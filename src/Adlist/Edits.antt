-- ===== src/Adlist/Edits.antt =====
-- Calls of src/adlist.c on one list, and what they do to a plain sequence of values.
use redis_counter.Base.{
  ℕ, zero, suc, ◌≡◌, refl, ap, Bool, none, some, List, [], ◌∷◌, ◌++◌, if◌then◌else◌, ℤ, length, Run,
  ok, ◌>>=◌,
}
use redis_counter.Adlist.{Heap, DList}
use redis_counter.Adlist.Clear.{freed_all}
use redis_counter.Adlist.Index.{place}
use redis_counter.Adlist.Operations.{
  add_node_head, add_node_tail, insert_node, del_node, list_index, list_empty, rotate,
}

-- A call. Nodes are found by `listIndex`; a call at an index out of range is not made.
pub data Edit {ℓ} (V : Type ℓ) : Type ℓ where
  push_front : V → Edit V
  push_back : V → Edit V
  insert_edit : ℤ → V → Bool → Edit V
  remove_edit : ℤ → Edit V
  rotate_edit : Edit V
  clear_edit : Edit V

module _ {ℓ} {V : Type ℓ} where
  unfoldable pub perform : Heap V → DList V → Edit V → Run (Heap V × DList V)
  perform h l (push_front v) = add_node_head h l v
  perform h l (push_back v) = add_node_tail h l v
  perform h l (insert_edit i v after) = do
    p ← list_index h l i
    elim p [ none ↦ ok (h, l) | some a ↦ insert_node h l (some a) v after ]
  perform h l (remove_edit i) = do
    p ← list_index h l i
    elim p [ none ↦ ok (h, l) | some a ↦ del_node h l (some a) ]
  perform h l rotate_edit = rotate h l
  perform h l clear_edit = list_empty h l

  unfoldable pub perform_all : Heap V → DList V → List (Edit V) → Run (Heap V × DList V)
  perform_all h l [] = ok (h, l)
  perform_all h l (e ∷ es) = do (h', l') ← perform h l e; perform_all h' l' es

  abbrev pub insert_at : ℕ → V → List V → List V
  insert_at zero v vs = v ∷ vs
  insert_at (suc k) v [] = v ∷ []
  insert_at (suc k) v (x ∷ vs) = x ∷ insert_at k v vs

  abbrev pub remove_at : ℕ → List V → List V
  remove_at k [] = []
  remove_at zero (x ∷ vs) = vs
  remove_at (suc k) (x ∷ vs) = x ∷ remove_at k vs

  -- The value at a place, in a list
  abbrev pub value_at : ℕ → List V → List V
  value_at k [] = []
  value_at zero (x ∷ vs) = x ∷ []
  value_at (suc k) (x ∷ vs) = value_at k vs

  abbrev pub swap_in : V → List V → List V
  swap_in x [] = x ∷ []
  swap_in x (z ∷ vs) = z ∷ x ∷ vs

  -- The last value comes first.
  abbrev pub rotated : List V → List V
  rotated [] = []
  rotated (x ∷ vs) = swap_in x (rotated vs)

  -- What a call does to a sequence of values, and to the values that have been freed
  unfoldable pub edited : Bool → List V × List V → Edit V → List V × List V
  edited method (vs, done) (push_front v) = (v ∷ vs, done)
  edited method (vs, done) (push_back v) = (vs ++ v ∷ [], done)
  edited method (vs, done) (insert_edit i v after) = elim (place (length vs) i) [
    | none ↦ (vs, done)
    | some k ↦ (insert_at (if after then suc k else k) v vs, done)
  ]
  edited method (vs, done) (remove_edit i) = elim (place (length vs) i) [
    | none ↦ (vs, done)
    | some k ↦ (remove_at k vs, freed_all method (value_at k vs) done)
  ]
  edited method (vs, done) rotate_edit = (rotated vs, done)
  edited method (vs, done) clear_edit = ([], freed_all method vs done)

  unfoldable pub edited_all : Bool → List V × List V → List (Edit V) → List V × List V
  edited_all method s [] = s
  edited_all method s (e ∷ es) = edited_all method (edited method s e) es

  pub insert_at-append : (a b : List V) (v : V) → insert_at (length a) v (a ++ b) ≡ a ++ v ∷ b
  insert_at-append [] b v = refl
  insert_at-append (x ∷ a) b v = ap (λ t. x ∷ t) (insert_at-append a b v)

  pub insert_behind-append :
      (a b : List V) (x v : V) → insert_at (suc (length a)) v (a ++ x ∷ b) ≡ a ++ x ∷ v ∷ b
  insert_behind-append [] b x v = refl
  insert_behind-append (y ∷ a) b x v = ap (λ t. y ∷ t) (insert_behind-append a b x v)

  pub remove_at-append : (a b : List V) (x : V) → remove_at (length a) (a ++ x ∷ b) ≡ a ++ b
  remove_at-append [] b x = refl
  remove_at-append (y ∷ a) b x = ap (λ t. y ∷ t) (remove_at-append a b x)

  pub value_at-append : (a b : List V) (x : V) → value_at (length a) (a ++ x ∷ b) ≡ x ∷ []
  value_at-append [] b x = refl
  value_at-append (y ∷ a) b x = value_at-append a b x

  pub rotated-append : (a : List V) (y : V) → rotated (a ++ y ∷ []) ≡ y ∷ a
  rotated-append [] y = refl
  rotated-append (x ∷ a) y = ap (swap_in x) (rotated-append a y)
