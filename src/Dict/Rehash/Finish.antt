-- ===== src/Dict/Rehash/Finish.antt =====
-- A rehash comes to its end: `_dictRehashStep` of src/dict.c, called again and again.
use redis_counter.Base.{
  ℕ, zero, suc, ◌-◌, ◌<◌, ◌≡◌, ◌⊎◌, refl, ◌∙◌, arith, ok, ◌>>=◌, Run, length, Returns, Returns-bind,
  Returns-map, inl, inr, Bool, Bool-cases, true, false, none, some, ◌==◌, ==_iff,
}
use mathlib.Core.List.{flatten}
use redis_counter.Dict.Types.{DictType, Dict, is_rehashing, IsKeyed}
use redis_counter.Dict.Model.{IsDict}
use redis_counter.Dict.Rehash.{finish_rehash, rehash_loop, rehash, rehash_step}
use redis_counter.Dict.Rehash.Skip.{index_in_range}
use redis_counter.Dict.Rehash.Loop.{rehash_round-Round, drop_first-Keeps}
use redis_counter.Dict.Rehash.Round.{Keeps, Keeps-refl, Keeps-trans}

module _ {ℓ} {K V : Type ℓ} (t : DictType K V) where
  -- `n` calls of `_dictRehashStep`
  unfoldable pub rehash_steps : ℕ → Dict K V → Run (Dict K V)
  rehash_steps zero d = ok d
  rehash_steps (suc n) d = do d' ← rehash_step t d; rehash_steps n d'

  -- A rehash that has ended, or has come to a later bucket
  record Advanced (d : Dict K V) (i : ℕ) (d' : Dict K V) : Type ℓ where
    keeps : Keeps t d d'
    state :
        (d'.rehashidx ≡ none)
        ⊎ ((j : ℕ) × (d'.rehashidx ≡ some j) × (i < j) × (d'.ht0.size ≡ d.ht0.size))

  abbrev pub Finished : Dict K V → Dict K V → Type ℓ
  Finished d d' = Keeps t d d' × (d'.rehashidx ≡ none)

module _ {ℓ} {K V : Type ℓ} (t : DictType K V) where
  finish_going : (d : Dict K V) → (d.ht0.used == 0) ≡ false → finish_rehash t d ≡ ok (true, d)
  unfolding finish_rehash
  finish_going d n = rw n refl

  rehash_step_idle : (d : Dict K V) → d.rehashidx ≡ none → rehash_step t d ≡ ok d
  unfolding rehash_step rehash
  rehash_step_idle d e = ground arith

module _ {ℓ} {K V : Type ℓ} (t : DictType K V) (keyed : IsKeyed t) where
  finish_rehash-Finished :
      (d : Dict K V) (i : ℕ)
      → IsDict t d
      → d.rehashidx ≡ some i
      → (d.ht0.used == 0) ≡ true
      → Returns (finish_rehash t d) (λ r. Finished t d r.1)
  unfolding finish_rehash
  finish_rehash-Finished d i v at_i y =
      rw y (_, refl, (drop_first-Keeps t d v ((==_iff d.ht0.used 0).0 y), refl))

  finish_rehash-Advanced :
      (d d' : Dict K V) (i j : ℕ)
      → Keeps t d d'
      → d'.rehashidx ≡ some j
      → i < j
      → d'.ht0.size ≡ d.ht0.size
      → Returns (finish_rehash t d') (λ r. Advanced t d i r.1)
  finish_rehash-Advanced d d' i j k e lt size = elim (Bool-cases (d'.ht0.used == 0)) [
    | inl y ↦
        Returns-map (finish_rehash-Finished d' j k.valid e y)
          λ r f. record { keeps = Keeps-trans t k f.0; state = inl f.1 }
    | inr n ↦ ((true, d'), finish_going t d' n, record { keeps = k; state = inr (j, e, lt, size) })
  ]

  rehash_loop-Advanced :
      (d : Dict K V) (i : ℕ)
      → IsDict t d
      → d.rehashidx ≡ some i
      → (d.ht0.used == 0) ≡ false
      → Returns (rehash_loop t 1 10 d) (λ r. Advanced t d i r.1)
  unfolding rehash_loop
  rehash_loop-Advanced d i v at_i used =
      rw (used, rehash_loop)
        (Returns-bind (rehash_round-Round t keyed 10 d i v at_i used) λ r round.
          ended r.0 r.1 round.keeps round.index round.going (round.forward (omega arith))
            round.same_size)
    where
      ended :
          (left : ℕ) (d' : Dict K V)
          → Keeps t d d'
          → (j : ℕ) → d'.rehashidx ≡ some j
          → i < j
          → d'.ht0.size ≡ d.ht0.size
          → Returns {A = Bool × Dict K V}
              (elim left [ zero ↦ ok (true, d') | suc k ↦ finish_rehash t d' ])
              (λ r. Advanced t d i r.1)
      ended zero d' k j e lt size =
          ((true, d'), refl, record { keeps = k; state = inr (j, e, lt, size) })
      ended (suc l) d' k j e lt size = finish_rehash-Advanced d d' i j k e lt size

  rehash_step-Finished :
      (d : Dict K V) (i : ℕ)
      → IsDict t d
      → d.iterators ≡ 0
      → d.rehashidx ≡ some i
      → (d.ht0.used == 0) ≡ true
      → Returns (rehash_step t d) (Finished t d)
  unfolding rehash_step rehash rehash_loop
  rehash_step-Finished d i v free at_i y =
      let z : (d.iterators == 0) ≡ true = ground arith in
      let busy : is_rehashing d ≡ true = ground arith in
      rw (z, busy, y, rehash_loop)
        (Returns-bind (finish_rehash-Finished d i v at_i y) λ r f. (r.1, refl, f))

  rehash_step-Advanced :
      (d : Dict K V) (i : ℕ)
      → IsDict t d
      → d.iterators ≡ 0
      → d.rehashidx ≡ some i
      → (d.ht0.used == 0) ≡ false
      → Returns (rehash_step t d) (Advanced t d i)
  unfolding rehash_step rehash
  rehash_step-Advanced d i v free at_i n =
      let z : (d.iterators == 0) ≡ true = ground arith in
      let busy : is_rehashing d ≡ true = ground arith in
      rw (z, busy) (Returns-bind (rehash_loop-Advanced d i v at_i n) λ r f. (r.1, refl, f))

  rehash_steps_idle :
      (n : ℕ) (d : Dict K V)
      → IsDict t d
      → d.rehashidx ≡ none
      → Returns (rehash_steps t n d) (Finished t d)
  unfolding rehash_steps
  rehash_steps_idle zero d v e = (d, refl, (Keeps-refl t d v, e))
  rehash_steps_idle (suc n) d v e = rw (rehash_step_idle t d e) (rehash_steps_idle n d v e)

  -- Calls of _dictRehashStep on a well-formed dictionary with lawful key callbacks and no safe
  -- iterator end a rehash that is in progress at rehashidx, if there are more calls than buckets
  -- of the first table from rehashidx on; they change no lookup and no entry count.
  pub rehash_steps-Finished :
      (n : ℕ) (d : Dict K V) (i : ℕ)
      → IsDict t d
      → d.iterators ≡ 0
      → d.rehashidx ≡ some i
      → d.ht0.size - i < n
      → Returns (rehash_steps t n d) (Finished t d)
  unfolding rehash_steps
  rehash_steps-Finished zero d i v free at_i enough = absurd (omega arith)
  rehash_steps-Finished (suc n) d i v free at_i enough = elim (Bool-cases (d.ht0.used == 0)) [
    | inl y ↦ Returns-bind (rehash_step-Finished d i v free at_i y) λ d' f.
        Returns-map (rehash_steps_idle n d' f.0.valid f.1) λ r g. (Keeps-trans t f.0 g.0, g.1)
    | inr used ↦
        let left : 0 < length (flatten d.ht0.table) = ground (arith, v.first.filled) in
        let inside = index_in_range d.ht0.table i (λ j. v.moved i j at_i) left in
        Returns-bind (rehash_step-Advanced d i v free at_i used) λ d' f. elim f.state [
          | inl e ↦
              Returns-map (rehash_steps_idle n d' f.keeps.valid e)
                λ r g. (Keeps-trans t f.keeps g.0, g.1)
          | inr (j, e, lt, size) ↦
              Returns-map
                (rehash_steps-Finished n d' j f.keeps.valid (f.keeps.iterators ∙ free) e
                  (omega (arith, v.first.width)))
                λ r g. (Keeps-trans t f.keeps g.0, g.1)
        ]
  ]
