-- ===== src/Prelude/Unique.antt =====
-- Lists whose elements have different keys.
use tvc.Prelude.{◌≡◌, ◌≢◌, List, [], ◌∷◌, ◌++◌, map}

module _ {ℓ κ} {A : Type ℓ} {K : Type κ} (key : A → K) where
  -- No element has the key `k`.
  abbrev pub IsAbsent : K → List A → Type κ
  IsAbsent k [] = Unit
  IsAbsent k (x ∷ xs) = (k ≢ key x) × IsAbsent k xs

  -- No two elements have one key.
  abbrev pub IsUnique : List A → Type κ
  IsUnique [] = Unit
  IsUnique (x ∷ xs) = IsAbsent (key x) xs × IsUnique xs

  -- No element of the one has the key of one of the other.
  abbrev pub IsApart : List A → List A → Type κ
  IsApart [] ys = Unit
  IsApart (x ∷ xs) ys = IsAbsent (key x) ys × IsApart xs ys

  pub IsAbsent-append :
      (k : K) (xs ys : List A) → IsAbsent k xs → IsAbsent k ys → IsAbsent k (xs ++ ys)
  IsAbsent-append k [] ys h g = g
  IsAbsent-append k (x ∷ xs) ys (n, h) g = (n, IsAbsent-append k xs ys h g)

  pub IsAbsent-front : (k : K) (xs ys : List A) → IsAbsent k (xs ++ ys) → IsAbsent k xs
  IsAbsent-front k [] ys h = tt
  IsAbsent-front k (x ∷ xs) ys (n, h) = (n, IsAbsent-front k xs ys h)

  pub IsUnique-append :
      (xs ys : List A) → IsUnique xs → IsUnique ys → IsApart xs ys → IsUnique (xs ++ ys)
  IsUnique-append [] ys u v w = v
  IsUnique-append (x ∷ xs) ys (n, u) v (m, w) =
      (IsAbsent-append (key x) xs ys n m, IsUnique-append xs ys u v w)

  pub IsUnique-front : (xs ys : List A) → IsUnique (xs ++ ys) → IsUnique xs
  IsUnique-front [] ys u = tt
  IsUnique-front (x ∷ xs) ys (n, u) = (IsAbsent-front (key x) xs ys n, IsUnique-front xs ys u)

-- The elements f a b of a product, row by row or column by column, where the key of f a b tells
-- that of a from that of b.
module _ {ℓ₁ ℓ₂ ℓ₃ κ₁ κ₂ κ₃} {A : Type ℓ₁} {B : Type ℓ₂} {C : Type ℓ₃} {T : Type κ₁} {K : Type κ₂}
    {L : Type κ₃} (tag : A → T) (key : B → K) (label : C → L) (f : A → B → C)
    (same_tag : (a a' : A) (b b' : B) → label (f a b) ≡ label (f a' b') → tag a ≡ tag a')
    (same_key : (a a' : A) (b b' : B) → label (f a b) ≡ label (f a' b') → key b ≡ key b') where
  pub other_tags :
      (a a' : A) (b : B) (bs : List B)
      → tag a ≢ tag a'
      → IsAbsent label (label (f a b)) (map (f a') bs)
  other_tags a a' b [] n = tt
  other_tags a a' b (b' ∷ bs) n = ((λ e. n (same_tag a a' b b' e)), other_tags a a' b bs n)

  pub other_keys :
      (a a' : A) (b : B) (bs : List B)
      → IsAbsent key (key b) bs
      → IsAbsent label (label (f a b)) (map (f a') bs)
  other_keys a a' b [] n = tt
  other_keys a a' b (b' ∷ bs) (n, m) = ((λ e. n (same_key a a' b b' e)), other_keys a a' b bs m)

  pub one_row : (a : A) (bs : List B) → IsUnique key bs → IsUnique label (map (f a) bs)
  one_row a [] u = tt
  one_row a (b ∷ bs) (n, u) = (other_keys a a b bs n, one_row a bs u)
