-- ===== src/Base/Outcome.antt =====
-- The result of a run of C code: it returns, it crashes (an access outside an allocation, a read
-- through `NULL`, a failed `assert`), or a loop of the model runs out of fuel.
use Prim.Native.Nat.{ℕ, zero, suc, ◌<◌}
use mathlib.Core.Path.{◌≡◌, refl}
use mathlib.Core.Bool.{Bool, true, false}
use mathlib.Core.List.{List, [], ◌∷◌}
use native.Mathlib.Omega.{arith}
use redis_counter.Base.Lists.{length, get_or}

pub data Run {ℓ} (A : Type ℓ) : Type ℓ where
  ok : A → Run A
  crash : Run A
  out_of_fuel : Run A

infixl 5 ◌>>=◌ ◌>>◌
abbrev pub ◌>>=◌ {ℓ κ} : {A : Type ℓ} {B : Type κ} → Run A → (A → Run B) → Run B
ok a >>= f = f a
crash >>= f = crash
out_of_fuel >>= f = out_of_fuel

abbrev pub ◌>>◌ {ℓ} : {B : Type ℓ} → Run (Unit {0}) → Run B → Run B
m >> k = m >>= λ _. k

-- `assert(b)`
abbrev pub assert : Bool → Run (Unit {0})
assert true = ok tt
assert false = crash

-- `a[i]`
abbrev pub at {ℓ} : {A : Type ℓ} → List A → ℕ → Run A
at [] i = crash
at (x ∷ xs) zero = ok x
at (x ∷ xs) (suc i) = at xs i

-- The run returns a value of which `P` holds.
pub record Returns {ℓ κ} {A : Type ℓ} (r : Run A) (P : A → Type κ) : Type (ℓ ⊔ κ) where
  pub 0 as value : A
  pub 1 as run : r ≡ ok value
  pub 2 as holds : P value

pub Returns-bind {ℓ κ μ ν} :
    {A : Type ℓ} {B : Type κ} {P : A → Type μ} {Q : B → Type ν} {r : Run A} {f : A → Run B}
    → Returns r P
    → ((a : A) → P a → Returns (f a) Q)
    → Returns (r >>= f) Q
Returns-bind m next = let n = next m.0 m.2 in (n.0, rw m.1 n.1, n.2)

pub Returns-map {ℓ κ μ} :
    {A : Type ℓ} {P : A → Type κ} {Q : A → Type μ} {r : Run A}
    → Returns r P
    → ((a : A) → P a → Q a)
    → Returns r Q
Returns-map m next = (m.0, m.1, next m.0 m.2)

-- The rest of a run, after a step that is known
pub bind_run {ℓ κ} :
    {A : Type ℓ} {B : Type κ} {r : Run A} {a : A} {x : Run B} (f : A → Run B)
    → r ≡ ok a
    → f a ≡ x
    → (r >>= f) ≡ x
bind_run f e rest = rw e rest

pub Returns_run {ℓ κ μ} :
    {A : Type ℓ} {B : Type κ} {r : Run A} {a : A} {Q : B → Type μ} (f : A → Run B)
    → r ≡ ok a
    → Returns (f a) Q
    → Returns (r >>= f) Q
Returns_run f e rest = rw e rest

pub at-get_or {ℓ} :
    {A : Type ℓ} (cells : List A) (i : ℕ) (default : A)
    → i < length cells
    → at cells i ≡ ok (get_or cells i default)
at-get_or [] i default inside = elim inside [ ]
at-get_or (cell ∷ cells) zero default inside = refl
at-get_or (cell ∷ cells) (suc i) default inside = at-get_or cells i default (omega arith)

pub bind_assoc {ℓ κ μ} :
    {A : Type ℓ} {B : Type κ} {C : Type μ} (r : Run A) (f : A → Run B) (g : B → Run C)
    → ((r >>= f) >>= g) ≡ (r >>= λ a. f a >>= g)
bind_assoc (ok a) f g = refl
bind_assoc crash f g = refl
bind_assoc out_of_fuel f g = refl

pub bind_congr {ℓ κ} :
    {A : Type ℓ} {B : Type κ} (r : Run A) {f g : A → Run B}
    → ((a : A) → f a ≡ g a)
    → (r >>= f) ≡ (r >>= g)
bind_congr (ok a) same = same a
bind_congr crash same = refl
bind_congr out_of_fuel same = refl

pub bind-crash {ℓ κ μ} :
    {A : Type ℓ} {B : Type κ} {P : A → Type μ} {r : Run A} {f : A → Run B}
    → Returns r P
    → ((a : A) → P a → f a ≡ crash)
    → (r >>= f) ≡ crash
bind-crash m stop = rw m.1 (stop m.0 m.2)
