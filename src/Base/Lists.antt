-- ===== src/Base/Lists.antt =====
-- Lists measured by native numbers, and predicates on their elements.
use Prim.Native.Nat.{ℕ, suc, ◌+◌}
use mathlib.Core.Path.{◌≡◌, refl, ap}
use mathlib.Core.List.{List, [], ◌∷◌, ◌++◌, map}
use native.Mathlib.Omega.{arith}

module _ {ℓ} {A : Type ℓ} where
  abbrev pub length : List A → ℕ
  length [] = 0
  length (x ∷ xs) = suc (length xs)

  pub length-append : (xs ys : List A) → length (xs ++ ys) ≡ length xs + length ys
  length-append [] ys = omega arith
  length-append (x ∷ xs) ys = omega (arith, length-append xs ys)

module _ {ℓ} {A : Type ℓ} where
  pub length-map {κ} : {B : Type κ} (xs : List A) (f : A → B) → length (map f xs) ≡ length xs
  length-map [] f = refl
  length-map (x ∷ xs) f = ap suc (length-map xs f)

module _ {ℓ κ} {A : Type ℓ} (P : A → Type κ) where
  abbrev pub All : List A → Type κ
  All [] = Unit
  All (x ∷ xs) = P x × All xs

  pub All-append : (xs ys : List A) → All xs → All ys → All (xs ++ ys)
  All-append [] ys _ hy = hy
  All-append (x ∷ xs) ys (px, hx) hy = (px, All-append xs ys hx hy)

-- The empty type at every level.
pub data Never {ℓ} : Type ℓ where

module _ {ℓ κ μ} {A : Type ℓ} {B : Type κ} (R : A → B → Type μ) where
  -- Two lists of one length, related element by element.
  abbrev pub AllPairs : List A → List B → Type μ
  AllPairs [] [] = Unit
  AllPairs (x ∷ xs) (y ∷ ys) = R x y × AllPairs xs ys
  AllPairs _ _ = Never

module _ {A B : Type 0} where
  pub AllPairs-append :
      (R : A → B → Type 0) (xs xs' : List A) (ys ys' : List B)
      → AllPairs R xs ys
      → AllPairs R xs' ys'
      → AllPairs R (xs ++ xs') (ys ++ ys')
  AllPairs-append R [] xs' [] ys' _ h = h
  AllPairs-append R [] xs' (y ∷ ys) ys' p h = elim p [ ]
  AllPairs-append R (x ∷ xs) xs' [] ys' p h = elim p [ ]
  AllPairs-append R (x ∷ xs) xs' (y ∷ ys) ys' (p, ps) h = (p, AllPairs-append R xs xs' ys ys' ps h)

  pub AllPairs-map :
      (R Q : A → B → Type 0)
      → ((x : A) (y : B) → R x y → Q x y)
      → (xs : List A) (ys : List B) → AllPairs R xs ys
      → AllPairs Q xs ys
  AllPairs-map R Q f [] [] _ = tt
  AllPairs-map R Q f [] (y ∷ ys) p = elim p [ ]
  AllPairs-map R Q f (x ∷ xs) [] p = elim p [ ]
  AllPairs-map R Q f (x ∷ xs) (y ∷ ys) (p, ps) = (f x y p, AllPairs-map R Q f xs ys ps)

  pub AllPairs-length :
      (R : A → B → Type 0) (xs : List A) (ys : List B) → AllPairs R xs ys → length xs ≡ length ys
  AllPairs-length R [] [] _ = refl
  AllPairs-length R [] (y ∷ ys) p = elim p [ ]
  AllPairs-length R (x ∷ xs) [] p = elim p [ ]
  AllPairs-length R (x ∷ xs) (y ∷ ys) (p, ps) = omega (arith, AllPairs-length R xs ys ps)
