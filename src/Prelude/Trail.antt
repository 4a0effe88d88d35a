-- ===== src/Prelude/Trail.antt =====
-- Checks that append to a list of faults and go on, until one of them raises or returns.
use tvc.Prelude.{Bool, true, false, Option, none, some, List, [], ◌∷◌, ◌++◌, ◌≡◌, refl, ap}

-- What was appended, by checks that went through or by checks that stopped: these have a fault.
pub data Trail {ℓ} (F : Type ℓ) : Type ℓ where
  went : List F → Trail F
  stopped : F → List F → Trail F

-- Nothing appended, and nothing raised.
abbrev pub clean {ℓ} : {F : Type ℓ} → Trail F
clean = went []

abbrev pub faults_of {ℓ} : {F : Type ℓ} → Trail F → List F
faults_of (went faults) = faults
faults_of (stopped fault more) = fault ∷ more

-- `if test: errors.append(fault)`
abbrev pub fault_if {ℓ} : {F : Type ℓ} → Bool → F → Trail F
fault_if true fault = went (fault ∷ [])
fault_if false fault = clean

abbrev stopped_after {ℓ} : {F : Type ℓ} → List F → F → List F → Trail F
stopped_after [] fault more = stopped fault more
stopped_after (f ∷ fs) fault more = stopped f (fs ++ fault ∷ more)

abbrev after {ℓ} : {F : Type ℓ} → List F → Trail F → Trail F
after faults (went more) = went (faults ++ more)
after faults (stopped fault more) = stopped_after faults fault more

-- The next checks, unless these stopped.
infixr 4 ◌then_check◌
abbrev pub ◌then_check◌ {ℓ} : {F : Type ℓ} → Trail F → Trail F → Trail F
(stopped fault more) then_check next = stopped fault more
(went faults) then_check next = after faults next

-- The checks of a value that is there; the exception for a missing one is a last fault.
abbrev pub needs {ℓ} : {F A : Type ℓ} → F → Option A → (A → Trail F) → Trail F
needs fault none next = stopped fault []
needs fault (some a) next = next a

module _ {ℓ} {F : Type ℓ} where
  pub fault_if-clean : (b : Bool) (f : F) → fault_if b f ≡ clean → b ≡ false
  fault_if-clean true f h = cc
  fault_if-clean false f h = refl

  after-clean : (fs : List F) (t : Trail F) → after fs t ≡ clean → (fs ≡ []) × (t ≡ clean)
  after-clean [] (went gs) h = (refl, h)
  after-clean [] (stopped g gs) h = cc
  after-clean (f ∷ fs) (went gs) h = cc
  after-clean (f ∷ fs) (stopped g gs) h = cc

  pub then_check-clean : (a b : Trail F) → (a then_check b) ≡ clean → (a ≡ clean) × (b ≡ clean)
  then_check-clean (went fs) b h = let both = after-clean fs b h in (ap went both.0, both.1)
  then_check-clean (stopped f fs) b h = cc

  pub faults_of-clean : (t : Trail F) → faults_of t ≡ [] → t ≡ clean
  faults_of-clean (went fs) h = ap went h
  faults_of-clean (stopped f fs) h = cc

  pub needs-clean :
      {A : Type ℓ} (f : F) (o : Option A) (next : A → Trail F)
      → needs f o next ≡ clean
      → (a : A) × (o ≡ some a) × (next a ≡ clean)
  needs-clean f none next h = cc
  needs-clean f (some a) next h = (a, refl, h)
