-- ===== src/Base/Results.antt =====
-- Fallible code. A message is kept as the format string of the source with its arguments.
use Prim.Native.Nat.{ℕ}
use Prim.Native.String.{String}
use mathlib.Core.Path.{◌≡◌, refl}
use mathlib.Core.Logic.{◌⊎◌, inl, inr}
use mathlib.Core.Bool.{Bool, true, false}
use mathlib.Core.Option.{Option, none, some}
use mathlib.Core.List.{List, [], ◌∷◌}
use sorseal.Base.Words.{Text}

pub data Arg : Type 0 where
  txt : Text → Arg
  num : ℕ → Arg

-- One call of `format!`, `anyhow!` or `bail!`.
pub data Message : Type 0 where
  msg : String → List Arg → Message

-- An `anyhow::Error`: its messages, the outermost context first.
abbrev pub Error : Type 0
Error = List Message

pub data Result {ℓ} (A : Type ℓ) : Type ℓ where
  ok : A → Result A
  err : Error → Result A
  panic : Result A

infixl 5 ◌>>=◌ ◌>>◌
-- `?`: an error or a panic ends the function.
abbrev pub ◌>>=◌ {ℓ κ} : {T : Type ℓ} {U : Type κ} → Result T → (T → Result U) → Result U
panic >>= next = panic
err e >>= next = err e
ok x >>= next = next x

abbrev pub ◌>>◌ {κ} : {U : Type κ} → Result (Unit {0}) → Result U → Result U
test >> rest = test >>= λ passed. rest

-- `anyhow!` and `bail!`.
abbrev pub bail {ℓ} : {A : Type ℓ} → String → List Arg → Result A
bail s args = err (msg s args ∷ [])

-- `if b { bail!(…) }`.
abbrev pub bail_if : Bool → String → List Arg → Result (Unit {0})
bail_if true s args = bail s args
bail_if false s args = ok tt

-- `with_context`.
abbrev pub with_context {ℓ} : {A : Type ℓ} → Result A → String → List Arg → Result A
with_context (ok a) s args = ok a
with_context (err e) s args = err (msg s args ∷ e)
with_context panic s args = panic

-- `ok_or_else`.
abbrev pub ok_or {ℓ} : {A : Type ℓ} → Option A → String → List Arg → Result A
ok_or (some a) s args = ok a
ok_or none s args = bail s args

-- `Option::and_then`, `Option::unwrap_or` and `unwrap_or_else`.
abbrev pub and_then {ℓ κ} : {A : Type ℓ} {B : Type κ} → Option A → (A → Option B) → Option B
and_then (some a) f = f a
and_then none f = none

abbrev pub unwrap_or {ℓ} : {A : Type ℓ} → Option A → A → A
unwrap_or (some a) d = a
unwrap_or none d = d

abbrev pub head? {ℓ} : {A : Type ℓ} → List A → Option A
head? [] = none
head? (x ∷ xs) = some x

-- What a chain with a value says of its first part.
pub >>=-eq-ok {ℓ κ} :
    {T : Type ℓ} {U : Type κ} (first : Result T) (next : T → Result U) {u : U}
    → (first >>= next) ≡ ok u
    → (t : T) × (first ≡ ok t) × (next t ≡ ok u)
>>=-eq-ok panic next h = cc
>>=-eq-ok (err e) next h = cc
>>=-eq-ok (ok t) next h = (t, refl, h)

-- The same for an option or a test that begins the chain.
pub ok_or_then-eq-ok {ℓ κ} :
    {T : Type ℓ} {U : Type κ} (o : Option T) (s : String) (args : List Arg) (next : T → Result U)
    {u : U}
    → (ok_or o s args >>= next) ≡ ok u
    → (t : T) × (o ≡ some t) × (next t ≡ ok u)
ok_or_then-eq-ok (some t) s args next h = (t, refl, h)
ok_or_then-eq-ok none s args next h = cc

pub bail_if_then-eq-ok {κ} :
    {U : Type κ} (b : Bool) (s : String) (args : List Arg) (rest : Result U) {u : U}
    → (bail_if b s args >> rest) ≡ ok u
    → (b ≡ false) × (rest ≡ ok u)
bail_if_then-eq-ok true s args rest h = cc
bail_if_then-eq-ok false s args rest h = (refl, h)

pub with_context-eq-ok {ℓ} :
    {A : Type ℓ} (r : Result A) (s : String) (args : List Arg) {a : A}
    → with_context r s args ≡ ok a
    → r ≡ ok a
with_context-eq-ok (ok x) s args h = h
with_context-eq-ok (err e) s args h = cc
with_context-eq-ok panic s args h = cc

pub Result-cases {ℓ} :
    {A : Type ℓ} (r : Result A)
    → ((a : A) × (r ≡ ok a)) ⊎ (((e : Error) × (r ≡ err e)) ⊎ (r ≡ panic))
Result-cases (ok a) = inl (a, refl)
Result-cases (err e) = inr (inl (e, refl))
Result-cases panic = inr (inr refl)

-- What holds of the value, where there is one.
abbrev pub Ensures {ℓ κ} : {A : Type ℓ} → (A → Type κ) → Result A → Type κ
Ensures P (ok a) = P a
Ensures P (err e) = Unit
Ensures P panic = Unit

pub Ensures-bind {ℓ κ μ} :
    {A : Type ℓ} {B : Type κ} (P : A → Type μ) (Q : B → Type μ) (m : Result A) (f : A → Result B)
    → Ensures P m
    → ((a : A) → P a → Ensures Q (f a))
    → Ensures Q (m >>= f)
Ensures-bind P Q (ok a) f h k = k a h
Ensures-bind P Q (err e) f h k = tt
Ensures-bind P Q panic f h k = tt

pub Ensures-after {ℓ κ μ} :
    {A : Type ℓ} {B : Type κ} (Q : B → Type μ) (m : Result A) (f : A → Result B)
    → ((a : A) → Ensures Q (f a))
    → Ensures Q (m >>= f)
Ensures-after Q (ok a) f k = k a
Ensures-after Q (err e) f k = tt
Ensures-after Q panic f k = tt

pub Ensures-weaken {ℓ κ μ} :
    {A : Type ℓ} (P : A → Type κ) (Q : A → Type μ) (m : Result A)
    → ((a : A) → P a → Ensures Q (ok a))
    → Ensures P m
    → Ensures Q m
Ensures-weaken P Q (ok a) k h = k a h
Ensures-weaken P Q (err e) k h = tt
Ensures-weaken P Q panic k h = tt
