-- ===== src/Number/Reverse.antt =====
-- The loop that turns the digits round in place.
use mathlib.Core.List.{append_assoc}
use redis_counter.Base.{
  ℕ, zero, suc, ◌+◌, ◌-◌, ◌<◌, ◌≡◌, refl, ◌∙◌, ap, arith, ◌⊎◌, inl, inr, true, false, ltb, List, [],
  ◌∷◌, ◌++◌, length, length-append, ok, at,
}
use redis_counter.Sds.{write}
use redis_counter.Number.{swap_loop}
use redis_counter.Number.Digits.{backwards}

at-append : (p q : List ℕ) (c : ℕ) → at (p ++ c ∷ q) (length p) ≡ ok c
at-append [] q c = refl
at-append (d ∷ p) q c = at-append p q c

write-append : (p q : List ℕ) (c d : ℕ) → write (p ++ c ∷ q) (length p) (d ∷ []) ≡ ok (p ++ d ∷ q)
unfolding write
write-append [] q c d = refl
write-append (e ∷ p) q c d = rw (write-append p q c d) refl

-- The same with the index and the list written otherwise
at_part : (s p q : List ℕ) (i c : ℕ) → s ≡ p ++ c ∷ q → i ≡ length p → at s i ≡ ok c
at_part s p q i c e f = rw (e, f) (at-append p q c)

write_part :
    (s p q : List ℕ) (i c d : ℕ)
    → s ≡ p ++ c ∷ q
    → i ≡ length p
    → write s i (d ∷ []) ≡ ok (p ++ d ∷ q)
write_part s p q i c d e f = rw (e, f) (write-append p q c d)

snoc-cases : (p : List ℕ) → (p ≡ []) ⊎ ((q : List ℕ) × (c : ℕ) × (p ≡ q ++ c ∷ []))
snoc-cases [] = inl refl
snoc-cases (c ∷ p) = elim (snoc-cases p) [
  | inl e ↦ inr ([], c, ap (λ t. c ∷ t) e)
  | inr (q, d, e) ↦ inr (c ∷ q, d, ap (λ t. c ∷ t) e)
]

pub backwards-snoc : (p : List ℕ) (c : ℕ) → backwards (p ++ c ∷ []) ≡ c ∷ backwards p
unfolding backwards
backwards-snoc [] c = refl
backwards-snoc (d ∷ p) c = ap (λ t. t ++ d ∷ []) (backwards-snoc p c)

swap_step :
    (f : ℕ) (s s' s'' : List ℕ) (i j a b : ℕ)
    → ltb i j ≡ true
    → at s i ≡ ok a
    → at s j ≡ ok b
    → write s i (b ∷ []) ≡ ok s'
    → write s' j (a ∷ []) ≡ ok s''
    → swap_loop (suc f) s i j ≡ swap_loop f s'' (i + 1) (j - 1)
unfolding swap_loop
swap_step f s s' s'' i j a b t x y v w = rw (t, x, y, v, w, swap_loop)

swap_stop : (f : ℕ) (s : List ℕ) (i j : ℕ) → ltb i j ≡ false → swap_loop (suc f) s i j ≡ ok s
unfolding swap_loop
swap_stop f s i j t = rw (t, swap_loop)

swap_ends :
    (f : ℕ) (pre m post : List ℕ) (i j a b : ℕ)
    → i ≡ length pre
    → j ≡ length pre + 1 + length m
    → swap_loop (suc f) (pre ++ (a ∷ (m ++ b ∷ []) ++ post)) i j
      ≡ swap_loop f ((pre ++ b ∷ []) ++ (m ++ a ∷ post)) (i + 1) (j - 1)
swap_ends f pre m post i j a b e h =
    swap_step f _ (pre ++ (b ∷ (m ++ b ∷ []) ++ post)) _ i j a b (ground arith)
      (at_part _ pre ((m ++ b ∷ []) ++ post) i a refl e)
      (at_part _ (pre ++ a ∷ m) post j b (simp append_assoc)
        (omega (arith, length-append pre (a ∷ m))))
      (write_part _ pre ((m ++ b ∷ []) ++ post) i a b refl e)
      (write_part _ (pre ++ b ∷ m) post j b a (simp append_assoc)
          (omega (arith, length-append pre (b ∷ m)))
        ∙ ap ok (simp append_assoc))

-- With the pointers at the ends of `mid`, the loop turns `mid` round and leaves the rest.
pub swap_loop-backwards :
    (f : ℕ) (pre mid post : List ℕ) (i j : ℕ)
    → i ≡ length pre
    → j ≡ length pre + length mid - 1
    → length mid < f
    → swap_loop f (pre ++ (mid ++ post)) i j ≡ ok (pre ++ (backwards mid ++ post))
unfolding backwards
swap_loop-backwards zero pre mid post i j e f h = absurd (omega arith)
swap_loop-backwards (suc k) pre [] post i j e f h = swap_stop k _ i j (ground arith)
swap_loop-backwards (suc k) pre (a ∷ mid) post i j e f h = elim (snoc-cases mid) [
  | inl none_left ↦ rw none_left (swap_stop k _ i j (ground (arith, ap length none_left)))
  | inr (m, b, last) ↦
      let n = ap length last ∙ length-append m (b ∷ []) in
      rw (last, backwards-snoc m b)
        (swap_ends k pre m post i j a b e (omega (arith, n))
          ∙ swap_loop-backwards k (pre ++ b ∷ []) m (a ∷ post) (i + 1) (j - 1)
              (omega (arith, length-append pre (b ∷ [])))
              (omega (arith, n, length-append pre (b ∷ []))) (omega (arith, n))
          ∙ ap ok (simp append_assoc))
]
