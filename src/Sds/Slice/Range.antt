-- ===== src/Sds/Slice/Range.antt =====
-- `sdsrange` of src/sds.c.
use redis_counter.Base.{
  ℕ, zero, suc, ◌+◌, ◌-◌, ◌≤◌, ◌⊎◌, ◌≡◌, refl, sym, ◌∙◌, ap, arith, true, Bool-cases, inl, inr,
  List, [], ◌∷◌, ltb, leb, ◌==◌, ℤ, pos, negsuc, length, take, drop, Returns, Returns-bind,
}
use redis_counter.Sds.Buffer.{length-take}
use redis_counter.Sds.Room.{IsSds, text}
use redis_counter.Sds.Slice.Move.{
  length-drop, take_all, take-drop-take, MovedDown, move-MovedDown, Cut, cut-Cut,
}
use redis_counter.Sds.Slice.{move_down, from_end, span, clip, range}
use redis_counter.Sds.{Sds}

-- The place in `t` that an index stands for: a negative index counts from the end, -1 is the last
-- byte, and an index before the first byte stands for that byte.
abbrev pub position : List ℕ → ℤ → ℕ
position t (pos i) = i
position t (negsuc i) = length t - (i + 1)

-- The bytes of `t` from `i` to `j`, both included
abbrev pub slice : List ℕ → ℤ → ℤ → List ℕ
slice t i j = take (position t j + 1 - position t i) (drop (position t i) t)

from_end-position : (t : List ℕ) (i : ℤ) → from_end (length t) i ≡ position t i
unfolding from_end
from_end-position t (pos i) = refl
from_end-position t (negsuc i) = omega arith

slice-from_end :
    (t : List ℕ) (i j : ℤ)
    → take (suc (from_end (length t) j) - from_end (length t) i) (drop (from_end (length t) i) t)
      ≡ slice t i j
slice-from_end t i j =
    let e : suc (position t j) - position t i ≡ position t j + 1 - position t i = omega arith in
    rw (from_end-position t i, from_end-position t j) (ap (λ n. take n (drop (position t i) t)) e)

drop_all : (n : ℕ) (t : List ℕ) → length t ≤ n → drop n t ≡ []
drop_all zero [] h = refl
drop_all zero (x ∷ t) h = absurd (omega arith)
drop_all (suc n) [] h = refl
drop_all (suc n) (x ∷ t) h = drop_all n t (omega arith)

take_nil : (n : ℕ) → take {A = ℕ} n [] ≡ []
take_nil zero = refl
take_nil (suc n) = refl

span-eq : (x y : ℕ) → span x y ≡ suc y - x
unfolding span
span-eq x y = ground arith

span-zero : (x y : ℕ) → (span x y == 0) ≡ true → suc y - x ≡ 0
unfolding span
span-zero x y h = ground arith

-- What the tests of `sdsrange` find.
record Clipped (t : List ℕ) (x y : ℕ) (start n : ℕ) : Type 0 where
  inside : (n ≡ 0) ⊎ (start + n ≤ length t)
  same : take n (drop start t) ≡ take (suc y - x) (drop x t)

clip-Clipped :
    (t : List ℕ) (x y : ℕ) → Clipped t x y (clip (length t) x y).0 (clip (length t) x y).1
unfolding clip
clip-Clipped t x y = elim (Bool-cases (span x y == 0)) [
  | inl none ↦
      let e : suc y - x ≡ 0 = span-zero x y none in
      rw none (record { inside = inl refl; same = rw e refl })
  | inr some ↦ rw some (elim (Bool-cases (leb (length t) x)) [
    | inl out ↦
        let e = drop_all x t (ground arith) in
        rw out (record { inside = inl refl; same = rw e (sym (take_nil (suc y - x))) })
    | inr within ↦ rw within (elim (Bool-cases (leb (length t) y)) [
      | inl over ↦
          let w = span-eq x (length t - 1) in
          let l = length-drop x t in
          rw over (record {
            inside = inr (ground arith);
            same =
                take_all (span x (length t - 1)) (drop x t) (ground arith)
                ∙ sym (take_all (suc y - x) (drop x t) (ground arith));
          })
      | inr under ↦
          let w = span-eq x y in
          rw under (record {
            inside = elim (Bool-cases (ltb y x)) [
              | inl p ↦ inl (ground arith)
              | inr p ↦ inr (ground arith)
            ];
            same = ap (λ n. take n (drop x t)) w;
          })
    ])
  ])
]

clip-le : (t : List ℕ) (x y start n : ℕ) → Clipped t x y start n → n ≤ length t
clip-le t x y start n c = elim c.inside [ inl z ↦ omega arith | inr i ↦ omega arith ]

move_down-MovedDown :
    (buf : List ℕ) (start n len : ℕ)
    → len ≤ length buf
    → (n ≡ 0) ⊎ (start + n ≤ len)
    → Returns (move_down buf start n) (MovedDown buf start n)
unfolding move_down
move_down-MovedDown buf start n len h c = elim (Bool-cases (start == 0)) [
  | inl y ↦
      let z : start ≡ 0 = ground arith in
      rw y (buf, refl, record { size = refl; same = ap (λ i. take n (drop i buf)) (sym z) })
  | inr q ↦ rw q (elim (Bool-cases (n == 0)) [
    | inl y ↦
        let z : n ≡ 0 = ground arith in rw y (buf, refl, record { size = refl; same = rw z refl })
    | inr some ↦
        let inside : start + n ≤ length buf = elim c [
          | inl z ↦ absurd (ground arith)
          | inr i ↦ omega arith
        ] in
        rw some (move-MovedDown buf start n inside)
  ])
]

same_part :
    (buf : List ℕ) (start n len : ℕ)
    → (n ≡ 0) ⊎ (start + n ≤ len)
    → take n (drop start buf) ≡ take n (drop start (take len buf))
same_part buf start n len c = elim c [
  | inl z ↦ rw z refl
  | inr i ↦ sym (take-drop-take n start len buf i)
]

slice_nil : (i j : ℤ) → slice [] i j ≡ []
slice_nil i j =
    ap (take (position [] j + 1 - position [] i)) (drop_all (position [] i) [] (omega arith))
    ∙ take_nil (position [] j + 1 - position [] i)

indices-Clipped :
    (t : List ℕ) (len : ℕ) (i j : ℤ)
    → len ≡ length t
    → Clipped t
        (from_end (length t) i)
        (from_end (length t) j)
        (clip len (from_end len i) (from_end len j)).0
        (clip len (from_end len i) (from_end len j)).1
indices-Clipped t len i j e = rw e (clip-Clipped t (from_end (length t) i) (from_end (length t) j))

text_length : (s : Sds) → IsSds s → length (text s) ≡ s.len
text_length s v = length-take s.len s.buf (omega (arith, v.fits, v.size))

-- `sdsrange` on a well-formed string, with any two indices, reads and writes nothing outside the
-- allocation and returns a well-formed string in the same allocation, whose text is the part of
-- the old text between the two indices, both included, where a negative index counts from the end.
pub range-Cut : (s : Sds) (i j : ℤ) → IsSds s → Returns (range s i j) (Cut s (slice (text s) i j))
unfolding range
range-Cut s i j v = elim (Bool-cases (s.len == 0)) [
  | inl y ↦
      let z : s.len ≡ 0 = ground arith in
      let e : text s ≡ [] = ap (λ n. take n s.buf) z in
      rw y (
        s,
        refl,
        record {
          valid = v;
          same_room = record { same_kind = refl; capacity = λ h. refl };
          same_text = e ∙ sym (slice_nil i j) ∙ ap (λ t. slice t i j) (sym e);
        },
      )
  | inr some ↦
      let l = text_length s v in
      let c = indices-Clipped (text s) s.len i j (sym l) in
      let start = (clip s.len (from_end s.len i) (from_end s.len j)).0 in
      let n = (clip s.len (from_end s.len i) (from_end s.len j)).1 in
      let inside : (n ≡ 0) ⊎ (start + n ≤ s.len) = elim c.inside [
        | inl z ↦ inl z
        | inr p ↦ inr (omega arith)
      ] in
      rw some (
        Returns-bind
          (move_down-MovedDown s.buf start n s.len (omega (arith, v.fits, v.size)) inside)
          λ b m.
            let k = cut-Cut s b n v (omega (arith, l, clip-le _ _ _ _ _ c)) m.size in
            (
              k.0,
              k.1,
              record {
                valid = k.2.0.valid;
                same_room = k.2.0.same_room;
                same_text =
                    k.2.0.same_text
                    ∙ m.same
                    ∙ same_part s.buf start n s.len inside
                    ∙ c.same
                    ∙ slice-from_end (text s) i j;
              },
            ))
]
