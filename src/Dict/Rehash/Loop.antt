-- ===== src/Dict/Rehash/Loop.antt =====
-- `dictRehash` and `_dictRehashStep` as a whole: no crash, no entry lost, and an honest answer.
use redis_counter.Base.{
  ℕ, zero, suc, ◌+◌, ◌*◌, ◌<◌, ◌^◌, ◌≡◌, sym, refl, [], arith, ok, at-get_or, length, get_or,
  Returns-bind, length-get_or-le-flatten, Returns, inl, inr, Bool, Bool-cases, Option-cases, true,
  false, none, some, ◌==◌, ==_iff, lt→ltb,
}
use mathlib.Core.List.{flatten}
use mathlib.Core.Option.{or_else}
use redis_counter.Dict.Types.{DictType, Dict, reset, is_rehashing, IsKeyed}
use redis_counter.Dict.Chain.{lookup, count}
use redis_counter.Dict.Model.{chain_of, view, IsDict}
use redis_counter.Dict.Placement.{reset-IsTable, chain_of_unused, chain_of-reset}
use redis_counter.Dict.Rehash.{
  finish_rehash, rehash_index, rehash_round, rehash_loop, rehash, rehash_step, step_if_rehashing,
}
use redis_counter.Dict.Rehash.Skip.{index_in_range, skip_empty-Skipped}
use redis_counter.Dict.Rehash.Move.{or_else-none, move_bucket-Moved}
use redis_counter.Dict.Rehash.Round.{
  Keeps, Keeps-refl, Keeps-trans, advance-Keeps, after_move-Keeps,
}

module _ {ℓ} {K V : Type ℓ} (t : DictType K V) where
  -- after a round a rehash is still in progress
  pub record Round (d : Dict K V) (i visits : ℕ) (r : ℕ × Dict K V) : Type ℓ where
    pub keeps : Keeps t d r.1
    pub index : ℕ
    pub going : r.1.rehashidx ≡ some index
    pub forward : 0 < visits → i < index
    pub same_size : r.1.ht0.size ≡ d.ht0.size

  -- What `dictRehash` promises: it returns 1 exactly if a rehash is still in progress.
  abbrev pub Rehashed : Dict K V → Bool × Dict K V → Type ℓ
  Rehashed d r = Keeps t d r.1 × (r.0 ≡ is_rehashing r.1)

  pub drop_first-Keeps :
      (d : Dict K V)
      → IsDict t d
      → d.ht0.used ≡ 0
      → Keeps t d (record d { ht0 = d.ht1; ht1 = reset; rehashidx = none })
  unfolding view count lookup or_else
  drop_first-Keeps d v e = record {
    valid = record {
      first = v.second;
      second = reset-IsTable t;
      unique = λ q. rw (chain_of-reset t q) (omega (arith, v.unique q));
      room = omega (arith, v.room);
      idle = λ _. refl;
      busy = λ i h. absurd (cc);
      moved = λ i j h lt. absurd (cc);
    };
    same = λ q.
        rw (chain_of-reset t q, chain_of_unused t d.ht0 q v.first e)
          (sym (or_else-none t (lookup t q (chain_of t d.ht1 q))));
    total = omega arith;
    iterators = refl;
  }

  pub finish_rehash-Rehashed :
      (d : Dict K V) (i : ℕ)
      → IsDict t d
      → d.rehashidx ≡ some i
      → Returns (finish_rehash t d) (Rehashed d)
  unfolding finish_rehash
  finish_rehash-Rehashed d i v at_i = elim (Bool-cases (d.ht0.used == 0)) [
    | inl y ↦ (
      (false, record d { ht0 = d.ht1; ht1 = reset; rehashidx = none }),
      rw y,
      (drop_first-Keeps d v ((==_iff d.ht0.used 0).0 y), refl),
    )
    | inr n ↦ ((true, d), rw n, (Keeps-refl t d v, rw at_i))
  ]

module _ {ℓ} {K V : Type ℓ} (t : DictType K V) (keyed : IsKeyed t) where
  rehash_index_lem : (d : Dict K V) (i : ℕ) → d.rehashidx ≡ some i → rehash_index t d ≡ i
  unfolding rehash_index
  rehash_index_lem d i e = ground arith

  pub rehash_round-Round :
      (visits : ℕ) (d : Dict K V) (i : ℕ)
      → IsDict t d
      → d.rehashidx ≡ some i
      → (d.ht0.used == 0) ≡ false
      → Returns (rehash_round t visits d) (Round t d i visits)
  unfolding rehash_round
  rehash_round-Round visits d i v at_i used =
      let left : 0 < length (flatten d.ht0.table) = ground (arith, v.first.filled) in
      let inside = index_in_range d.ht0.table i (λ j. v.moved i j at_i) left in
      rw (rehash_index_lem d i at_i, lt→ltb i d.ht0.size (omega (arith, v.first.width)))
        (Returns-bind (skip_empty-Skipped visits d.ht0.table i (λ j. v.moved i j at_i) left)
          λ s skipped. elim (Bool-cases (s.1 == 0)) [
            | inl y ↦ (
              (0, record d { rehashidx = some s.0 }),
              rw y,
              record {
                keeps = advance-Keeps t d i s.0 v at_i skipped.below;
                index = s.0;
                going = refl;
                forward = λ p. omega (arith, skipped.spent ((==_iff s.1 0).0 y));
                same_size = refl;
              },
            )
            | inr n ↦ elim skipped.progress [
              | inl z ↦ absurd (ground arith)
              | inr (filled, here) ↦
                  rw (n, at-get_or d.ht0.table s.0 [] here)
                    (Returns-bind
                      (move_bucket-Moved t keyed (get_or d.ht0.table s.0 []) d.ht0 d.ht1 v.second
                        (v.busy i at_i).1
                        (omega (arith, v.first.filled, length-get_or-le-flatten d.ht0.table s.0))
                        v.room)
                      λ r m. (
                        (s.1, _),
                        refl,
                        record {
                          keeps = after_move-Keeps t d v i s.0 at_i skipped.below here r m;
                          index = s.0 + 1;
                          going = refl;
                          forward = λ p. omega (arith, skipped.forward);
                          same_size = m.size0;
                        },
                      ))
            ]
          ])

  pub rehash_loop-Rehashed :
      (n visits : ℕ) (d : Dict K V) (i : ℕ)
      → IsDict t d
      → d.rehashidx ≡ some i
      → Returns (rehash_loop t n visits d) (Rehashed t d)
  unfolding rehash_loop
  rehash_loop-Rehashed zero visits d i v at_i = finish_rehash-Rehashed t d i v at_i
  rehash_loop-Rehashed (suc n) visits d i v at_i = elim (Bool-cases (d.ht0.used == 0)) [
    | inl y ↦ rw (y, rehash_loop) (finish_rehash-Rehashed t d i v at_i)
    | inr m ↦
        rw (m, rehash_loop)
          (Returns-bind (rehash_round-Round visits d i v at_i m) λ r round.
            next r.0 r.1 round.keeps round.index round.going
              (λ left. rehash_loop-Rehashed n left r.1 round.index round.keeps.valid round.going))
  ]
    where
      next :
          (left : ℕ) (d' : Dict K V)
          → Keeps t d d'
          → (j : ℕ) → d'.rehashidx ≡ some j
          → ((left : ℕ) → Returns (rehash_loop t n left d') (Rehashed t d'))
          → Returns
              (elim left [ zero ↦ ok (true, d') | suc k ↦ rehash_loop t n (suc k) d' ])
              (Rehashed t d)
      next zero d' k j e more = ((true, d'), refl, (k, rw e))
      next (suc l) d' k j e more =
          let rest = more (suc l) in (rest.0, rest.1, (Keeps-trans t k rest.2.0, rest.2.1))

  -- `dictRehash` with a number of steps of which ten times is less than 2 ^ 31 returns without a
  -- crash or an assertion failure on a well-formed dictionary with lawful key callbacks, keeps it
  -- well formed, changes no lookup and no entry count, and returns 1 exactly if a rehash is still
  -- in progress.
  pub rehash-Rehashed :
      (n : ℕ) (d : Dict K V) → n * 10 < 2 ^ 31 → IsDict t d → Returns (rehash t n d) (Rehashed t d)
  unfolding rehash
  rehash-Rehashed n d small v =
      rw (lt→ltb (n * 10) (2 ^ 31) small) (elim (Option-cases d.rehashidx) [
        | inl e ↦ ((false, d), ground arith, (Keeps-refl t d v, ground arith))
        | inr (i, e) ↦
            let rest = rehash_loop-Rehashed n (n * 10) d i v e in
            (rest.0, ground (arith, rest.1), rest.2)
      ])

  pub rehash_step-Keeps : (d : Dict K V) → IsDict t d → Returns (rehash_step t d) (Keeps t d)
  unfolding rehash_step
  rehash_step-Keeps d v = elim (Bool-cases (d.iterators == 0)) [
    | inl y ↦ rw y (Returns-bind (rehash-Rehashed 1 d (omega arith) v) λ r k. (r.1, refl, k.0))
    | inr n ↦ (d, rw n, Keeps-refl t d v)
  ]

  pub step_if_rehashing-Keeps :
      (d : Dict K V) → IsDict t d → Returns (step_if_rehashing t d) (Keeps t d)
  unfolding step_if_rehashing
  step_if_rehashing-Keeps d v = elim (Bool-cases (is_rehashing d)) [
    | inl y ↦ rw y (rehash_step-Keeps d v)
    | inr n ↦ (d, rw n, Keeps-refl t d v)
  ]
