-- ===== src/Prelude/Results.antt =====
-- Python's exceptions as values, and the monad of code that may raise.
use mathlib.Core.Path.{◌≡◌, refl, subst}
use mathlib.Core.Bool.{Bool, true, false}
use mathlib.Core.List.{List, [], ◌∷◌}
use mathlib.Core.Option.{Option, none, some}
use standards_control_plane.Prelude.Lists.{All}
use standards_control_plane.Prelude.Tests.{if◌then◌else◌}

pub data Error : Type 0 where
  type_error value_error key_error index_error file_not_found os_error : Error
  area_id_inference_error : Error

-- `err` when the code raises, `ok` when it returns.
pub data Result {ℓ} (A : Type ℓ) : Type ℓ where
  err : Error → Result A
  ok : A → Result A

-- `if not b: raise e`
abbrev pub guard : Bool → Error → Result (Unit {0})
guard b e = if b then ok tt else err e

infixl 5 ◌>>◌ ◌>>=◌
-- The rest of a block, once a step has returned.
abbrev pub ◌>>=◌ {ℓ κ} : {A : Type ℓ} {B : Type κ} → Result A → (A → Result B) → Result B
err raised >>= rest = err raised
ok value >>= rest = rest value

abbrev pub ◌>>◌ {ℓ κ} : {A : Type ℓ} {B : Type κ} → Result A → Result B → Result B
step >> rest = step >>= λ _. rest

-- `d[k]` on what `d.get(k)` found.
abbrev pub or_raise {ℓ} : {A : Type ℓ} → Error → Option A → Result A
or_raise e none = err e
or_raise e (some a) = ok a

-- A comprehension whose element may raise: the first error ends it.
abbrev pub traverse {ℓ κ} : {A : Type ℓ} {B : Type κ} → (A → Result B) → List A → Result (List B)
traverse f [] = ok []
traverse f (x ∷ xs) = f x >>= λ y. traverse f xs >>= λ ys. ok (y ∷ ys)

-- A block that returned: what its first step returned, and the rest at that.
pub >>=-eq-ok {ℓ κ} :
    {A : Type ℓ} {B : Type κ} (step : Result A) (rest : A → Result B) {b : B}
    → (step >>= rest) ≡ ok b
    → (value : A) × (step ≡ ok value) × (rest value ≡ ok b)
>>=-eq-ok (err raised) rest h = cc
>>=-eq-ok (ok value) rest h = (value, refl, h)

pub ok-eq {ℓ} : {A : Type ℓ} {a b : A} → ok a ≡ ok b → a ≡ b
ok-eq h = cc

pub or_raise-some {ℓ} :
    {A : Type ℓ} (e : Error) (o : Option A) {a : A} → or_raise e o ≡ ok a → o ≡ some a
or_raise-some e none h = cc
or_raise-some e (some b) h = cc

-- The same in the other direction.
pub >>=-of_ok {ℓ κ} :
    {A : Type ℓ} {B : Type κ} {step : Result A} {value : A} (rest : A → Result B)
    → step ≡ ok value
    → (step >>= rest) ≡ rest value
>>=-of_ok rest h = rw h refl

pub traverse-cons {ℓ κ} :
    {A : Type ℓ} {B : Type κ} (f : A → Result B) (x : A) (xs : List A) {y : B} {ys : List B}
    → f x ≡ ok y
    → traverse f xs ≡ ok ys
    → traverse f (x ∷ xs) ≡ ok (y ∷ ys)
traverse-cons f x xs h t = rw h (rw t refl)

-- What holds of each value that an element may give.
pub traverse-All {ℓ κ μ} :
    {A : Type ℓ} {B : Type κ} (P : B → Type μ) (f : A → Result B) (xs : List A) {ys : List B}
    → ((x : A) (y : B) → f x ≡ ok y → P y)
    → traverse f xs ≡ ok ys
    → All P ys
traverse-All P f [] each h = subst (All P) (ok-eq h) tt
traverse-All P f (x ∷ xs) each h =
    let (y, e, h1) = >>=-eq-ok (f x) _ h in
    let (ys, t, h2) = >>=-eq-ok (traverse f xs) _ h1 in
    subst (All P) (ok-eq h2) (each x y e, traverse-All P f xs each t)

pub guard-eq-ok : (b : Bool) (e : Error) {u : Unit {0}} → guard b e ≡ ok u → b ≡ true
guard-eq-ok true e h = refl
guard-eq-ok false e h = cc

-- A guard, a check and the rest, all passed.
pub passed {ℓ} :
    {A : Type ℓ} (b : Bool) (e : Error) (m : Result (Unit {0})) (r : Result A) {a : A}
    → (guard b e >> (m >> r)) ≡ ok a
    → (b ≡ true) × (m ≡ ok tt) × (r ≡ ok a)
passed true e (ok u) r h = (refl, refl, h)
passed true e (err x) r h = cc
passed false e m r h = cc

-- `P` of the value, if there is one.
abbrev pub Ensures {ℓ κ} : {A : Type ℓ} → (A → Type κ) → Result A → Type κ
Ensures P (ok a) = P a
Ensures P (err e) = Unit

-- The same as a record, for chains of steps.
pub record Gives {ℓ κ} {A : Type ℓ} (P : A → Type κ) (m : Result A) : Type (ℓ ⊔ κ) where
  pub on_ok : (a : A) → m ≡ ok a → P a

pub Gives-bind {ℓ κ μ} :
    {A : Type ℓ} {B : Type κ} {P : B → Type μ} (m : Result A) (f : A → Result B)
    → ((a : A) → m ≡ ok a → Gives P (f a))
    → Gives P (m >>= f)
Gives-bind (ok a) f h = h a refl
Gives-bind (err e) f h = record { on_ok = λ b q. cc }

pub Gives-ok {ℓ κ} : {A : Type ℓ} {P : A → Type κ} {a : A} → P a → Gives P (ok a)
Gives-ok {P = P} p = record { on_ok = λ b q. subst (Ensures P) q p }
