-- ===== src/Prelude/Raising.antt =====
-- Methods of a mutable object that may raise: the state that the call leaves, with its value, or
-- with `none` for an exception.
use mathlib.Core.Bool.{Bool, true, false}
use mathlib.Core.Option.{Option, none, some}

abbrev pub Outcome {ℓ} : Type ℓ → Type ℓ → Type ℓ
Outcome S A = S × Option A

-- The next call, from the state that the first one leaves, unless that one raised.
abbrev pub and_then {ℓ} : {S A B : Type ℓ} → Outcome S A → (A → S → Outcome S B) → Outcome S B
and_then (s, none) next = (s, none)
and_then (s, some a) next = next a s

-- An early return.
abbrev pub return_if {ℓ} : {S A : Type ℓ} → Bool → A → S → (S → Outcome S A) → Outcome S A
return_if true value s next = (s, some value)
return_if false value s next = next s

-- A result that is there, or else the result of the next call.
abbrev pub or_else {ℓ} :
    {S A : Type ℓ} → Option A → S → (S → Outcome S (Option A)) → Outcome S (Option A)
or_else none s next = next s
or_else (some a) s next = (s, some (some a))

-- `Ensures R P o`: the state meets `R` after an exception, and `P` with the value after a return.
abbrev pub Ensures {ℓ κ} : {S A : Type ℓ} → (S → Type κ) → (A → S → Type κ) → Outcome S A → Type κ
Ensures R P (s, none) = R s
Ensures R P (s, some a) = P a s

pub and_then-Ensures {ℓ κ} :
    {S A B : Type ℓ} (R : S → Type κ) (P : A → S → Type κ) (Q : B → S → Type κ) (o : Outcome S A)
    (next : A → S → Outcome S B)
    → Ensures R P o
    → ((a : A) (s : S) → P a s → Ensures R Q (next a s))
    → Ensures R Q (and_then o next)
and_then-Ensures R P Q (s, none) next h k = h
and_then-Ensures R P Q (s, some a) next h k = k a s h

-- `Always Q o`: the state meets `Q` in either case.
abbrev pub Always {ℓ κ} : {S A : Type ℓ} → (S → Type κ) → Outcome S A → Type κ
Always Q = Ensures Q (λ a s. Q s)

pub and_then-Always {ℓ κ} :
    {S A B : Type ℓ} (Q : S → Type κ) (o : Outcome S A) (next : A → S → Outcome S B)
    → Always Q o
    → ((a : A) (s : S) → Q s → Always Q (next a s))
    → Always Q (and_then o next)
and_then-Always Q o next h k = and_then-Ensures Q (λ a s. Q s) (λ a s. Q s) o next h k

pub Ensures-of_state {ℓ κ} :
    {S A : Type ℓ} (R : S → Type κ) (P : A → S → Type κ) (o : Outcome S A)
    → R o.0
    → ((a : A) → P a o.0)
    → Ensures R P o
Ensures-of_state R P (s, none) r p = r
Ensures-of_state R P (s, some a) r p = p a

pub Always-state {ℓ κ} : {S A : Type ℓ} (Q : S → Type κ) (o : Outcome S A) → Q o.0 → Always Q o
Always-state Q o h = Ensures-of_state Q (λ a s. Q s) o h (λ a. h)

-- What holds in either case holds of the state.
pub Ensures-state {ℓ κ} :
    {S A : Type ℓ} (R : S → Type κ) (o : Outcome S A) → Ensures R (λ a s. R s) o → R o.0
Ensures-state R (s, none) h = h
Ensures-state R (s, some a) h = h

pub return_if-Ensures {ℓ κ} :
    {S A : Type ℓ} (R : S → Type κ) (P : A → S → Type κ) (b : Bool) (value : A) (s : S)
    (next : S → Outcome S A)
    → P value s
    → Ensures R P (next s)
    → Ensures R P (return_if b value s next)
return_if-Ensures R P true value s next stopped going = stopped
return_if-Ensures R P false value s next stopped going = going

pub or_else-Ensures {ℓ κ} :
    {S A : Type ℓ} (R : S → Type κ) (P : Option A → S → Type κ) (r : Option A) (s : S)
    (next : S → Outcome S (Option A))
    → P r s
    → (P none s → Ensures R P (next s))
    → Ensures R P (or_else r s next)
or_else-Ensures R P none s next h going = going h
or_else-Ensures R P (some a) s next h going = h
