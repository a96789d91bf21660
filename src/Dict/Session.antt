-- ===== src/Dict/Session.antt =====
-- Sequences of calls on a dictionary of src/dict.c, against a plain map from keys to values.
use redis_counter.Base.{
  ℕ, ◌+◌, ◌^◌, ◌≤◌, ◌<◌, ◌≡◌, ◌∙◌, ap, refl, List, [], ◌∷◌, arith, Run, ok, ◌>>=◌, length, Returns,
  Returns-bind, inl, inr, Bool, true, false, not, Option, none, some, is_some, if◌then◌else◌,
}
use mathlib.Core.Path.{fun_ext, ap₂}
use redis_counter.Dict.Types.{DictType, Dict, matches, stored_val, IsKeyed}
use redis_counter.Dict.Model.{view, IsDict}
use redis_counter.Dict.Search.{fetch_value}
use redis_counter.Dict.Search.Find.{fetch_value-view}
use redis_counter.Dict.Update.{add, replace, delete}
use redis_counter.Dict.Update.Write.{Writes}
use redis_counter.Dict.Update.Replace.{add-Writes, replace-Writes}
use redis_counter.Dict.Update.Delete.{delete-Writes}

-- A call, and what it answers.
pub data Call {ℓ} (K V : Type ℓ) : Type ℓ where
  fetch_call : K → Call K V
  add_call : K → V → Call K V
  replace_call : K → V → Call K V
  delete_call : K → Call K V

pub data Answer {ℓ} (V : Type ℓ) : Type ℓ where
  value : Option V → Answer V
  status : Bool → Answer V

module _ {ℓ} {K V : Type ℓ} (t : DictType K V) (can_resize : Bool) (junk : V) where
  unfoldable pub serve : Dict K V → Call K V → Run (Answer V × Dict K V)
  serve d (fetch_call k) = do (o, d') ← fetch_value t d k; ok (value o, d')
  serve d (add_call k v) = do (b, d') ← add t can_resize junk d k v; ok (status b, d')
  serve d (replace_call k v) = do (b, d') ← replace t can_resize junk d k v; ok (status b, d')
  serve d (delete_call k) = do (b, d') ← delete t d k; ok (status b, d')

  unfoldable pub serve_all : Dict K V → List (Call K V) → Run (List (Answer V) × Dict K V)
  serve_all d [] = ok ([], d)
  serve_all d (c ∷ cs) = do (a, d') ← serve d c; (as', d'') ← serve_all d' cs; ok (a ∷ as', d'')

module _ {ℓ} {K V : Type ℓ} (t : DictType K V) where
  unfoldable pub update : (K → Option V) → K → Option V → K → Option V
  update f k o q = if matches t q k then o else f q

  -- What a map does on a call.
  unfoldable pub expected : (K → Option V) → Call K V → Answer V × (K → Option V)
  expected f (fetch_call k) = (value (f k), f)
  expected f (add_call k v) =
      if is_some (f k) then (status false, f) else (status true, update f k (some (stored_val t v)))
  expected f (replace_call k v) = (status (not (is_some (f k))), update f k (some (stored_val t v)))
  expected f (delete_call k) =
      if is_some (f k) then (status true, update f k none) else (status false, f)

  unfoldable pub expected_all : (K → Option V) → List (Call K V) → List (Answer V) × (K → Option V)
  expected_all f [] = ([], f)
  expected_all f (c ∷ cs) =
      let r = expected f c in let rest = expected_all r.1 cs in (r.0 ∷ rest.0, rest.1)

  -- The dictionary answers as the map does, and stands for the map that results.
  pub record Serves {A : Type ℓ} (d : Dict K V) (want : A × (K → Option V)) (cost : ℕ)
      (r : A × Dict K V) : Type ℓ where
    pub valid : IsDict t r.1
    pub answer : r.0 ≡ want.0
    pub state : view t r.1 ≡ want.1
    pub total : r.1.ht0.used + r.1.ht1.used ≤ d.ht0.used + d.ht1.used + cost

module _ {ℓ} {K V : Type ℓ} (t : DictType K V) (keyed : IsKeyed t) (can_resize : Bool)
    (junk : V) where
  Writes-update :
      {d d' : Dict K V} {k : K} {o : Option V} {m n : ℕ}
      → Writes t d k o m n d'
      → view t d' ≡ update t (view t d) k o
  unfolding update
  Writes-update w = fun_ext w.reads

  serve-Serves :
      (d : Dict K V) (c : Call K V)
      → IsDict t d
      → d.ht0.used + d.ht1.used < 2 ^ 59
      → Returns (serve t can_resize junk d c) (Serves t d (expected t (view t d) c) 1)
  unfolding serve expected
  serve-Serves d (fetch_call k) v few = Returns-bind (fetch_value-view t keyed d k v) λ r p. (
    (value r.0, r.1),
    refl,
    record {
      valid = p.1.valid;
      answer = ap value p.0;
      state = fun_ext p.1.same;
      total = omega (arith, p.1.total);
    },
  )
  serve-Serves d (add_call k x) v few =
      Returns-bind (add-Writes t keyed can_resize junk d k x v few) λ r p. elim p [
        | inl (b, absent, w) ↦ (
          (status r.0, r.1),
          refl,
          rw absent (record {
            valid = w.valid;
            answer = ap status b;
            state = Writes-update w;
            total = omega (arith, w.total);
          }),
        )
        | inr (b, (old, there), kept) ↦ (
          (status r.0, r.1),
          refl,
          rw there (record {
            valid = kept.valid;
            answer = ap status b;
            state = fun_ext kept.same;
            total = omega (arith, kept.total);
          }),
        )
      ]
  serve-Serves d (replace_call k x) v few =
      Returns-bind (replace-Writes t keyed can_resize junk d k x v few) λ r p. elim p [
        | inl (b, absent, w) ↦ (
          (status r.0, r.1),
          refl,
          rw absent (record {
            valid = w.valid;
            answer = ap status b;
            state = Writes-update w;
            total = omega (arith, w.total);
          }),
        )
        | inr (b, (old, there), w) ↦ (
          (status r.0, r.1),
          refl,
          rw there (record {
            valid = w.valid;
            answer = ap status b;
            state = Writes-update w;
            total = omega (arith, w.total);
          }),
        )
      ]
  serve-Serves d (delete_call k) v few = Returns-bind (delete-Writes t keyed k d v) λ r p. elim p [
    | inl (b, absent, kept) ↦ (
      (status r.0, r.1),
      refl,
      rw absent (record {
        valid = kept.valid;
        answer = ap status b;
        state = fun_ext kept.same;
        total = omega (arith, kept.total);
      }),
    )
    | inr (b, (old, there), w) ↦ (
      (status r.0, r.1),
      refl,
      rw there (record {
        valid = w.valid;
        answer = ap status b;
        state = Writes-update w;
        total = omega (arith, w.total);
      }),
    )
  ]

  -- Any sequence of fetch, add, replace and delete calls on a well-formed dictionary with lawful
  -- key callbacks, through the incremental rehashes that it starts, returns without a crash,
  -- answers each call as a map from keys to values does, and leaves a well-formed dictionary that
  -- stands for the resulting map, while the entries and the calls together stay below 2 ^ 59.
  pub serve_all-Serves :
      (d : Dict K V) (cs : List (Call K V))
      → IsDict t d
      → d.ht0.used + d.ht1.used + length cs < 2 ^ 59
      → Returns
          (serve_all t can_resize junk d cs)
          (Serves t d (expected_all t (view t d) cs) (length cs))
  unfolding serve_all expected_all
  serve_all-Serves d [] v few =
      (([], d), refl, record { valid = v; answer = refl; state = refl; total = omega arith })
  serve_all-Serves d (c ∷ cs) v few = Returns-bind (serve-Serves d c v (omega arith)) λ r s.
      Returns-bind (serve_all-Serves r.1 cs s.valid (omega (arith, s.total))) λ r' s'. (
        (r.0 ∷ r'.0, r'.1),
        refl,
        record {
          valid = s'.valid;
          answer = ap₂ (◌∷◌) s.answer (s'.answer ∙ ap (λ f. (expected_all t f cs).0) s.state);
          state = s'.state ∙ ap (λ f. (expected_all t f cs).1) s.state;
          total = omega (arith, s.total, s'.total);
        },
      )
