-- ===== src/Prelude/Result.antt =====
-- Python functions that may raise: the value, or the exception that ended the call.
use mathlib.Core.Path.{◌≡◌, refl, subst}
use mathlib.Core.Bool.{Bool, true, false}

pub data Result {ℓ} (E A : Type ℓ) : Type ℓ where
  err : E → Result E A
  ok : A → Result E A

-- The next statement, unless this one raised.
infixl 5 ◌>>=◌ ◌>>◌
abbrev pub ◌>>=◌ {ℓ} : {E A B : Type ℓ} → Result E A → (A → Result E B) → Result E B
(err raised) >>= next = err raised
(ok value) >>= next = next value

-- `if not test: raise e`
abbrev pub require {ℓ} : {E : Type ℓ} (test : Bool) (raised : E) → Result E Unit
require false raised = err raised
require true _ = ok tt

abbrev pub ◌>>◌ {ℓ} : {E B : Type ℓ} → Result E Unit → Result E B → Result E B
check >> rest = check >>= (λ passed. rest)

-- A call that returns has passed its first statement.
pub >>=-eq-ok {ℓ} :
    {E A B : Type ℓ} (first : Result E A) (next : A → Result E B) {result : B}
    → (first >>= next) ≡ ok result
    → (value : A) × (first ≡ ok value) × (next value ≡ ok result)
>>=-eq-ok (err raised) next returned = cc
>>=-eq-ok (ok value) next returned = (value, refl, returned)

-- What a call returns, if it returns, meets `P`.
abbrev pub Returns {ℓ} : {E A : Type ℓ} → (A → Type ℓ) → Result E A → Type ℓ
Returns P (err raised) = Unit
Returns P (ok value) = P value

pub bind-Returns {ℓ} :
    {E A B : Type ℓ} (P : B → Type ℓ) (first : Result E A) (next : A → Result E B)
    → ((value : A) → first ≡ ok value → Returns P (next value))
    → Returns P (first >>= next)
bind-Returns P (err raised) next h = tt
bind-Returns P (ok value) next h = h value refl

pub Returns-of_ok {ℓ} :
    {E A : Type ℓ} (P : A → Type ℓ) (r : Result E A) (value : A)
    → Returns P r
    → r ≡ ok value
    → P value
Returns-of_ok P (err raised) value h e = cc
Returns-of_ok P (ok found) value h e = subst (λ r. Returns P r) e h

pub ok_injective {ℓ} : {E A : Type ℓ} (a b : A) → ◌≡◌ {A = Result E A} (ok a) (ok b) → a ≡ b
ok_injective a b h = cc
