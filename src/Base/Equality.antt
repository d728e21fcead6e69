-- ===== src/Base/Equality.antt =====
-- `==` for every type whose equality can be decided, and the conditional.
use Prim.Native.Nat.{ℕ, compare, Ordering}
use mathlib.Core.Path.{◌≡◌, refl, sym, ap₂}
use mathlib.Core.Logic.{ite, dite, ◌⊎◌, inl, inr}
use mathlib.Core.Bool.{Bool, true, false, cond}
use mathlib.Core.Option.{Option, none, some}
use mathlib.Core.List.{List, [], ◌∷◌, cons-ne-nil, tail-eq_of_cons-eq, head-eq_of_cons-eq}
use native.Mathlib.Decide.{ℕ_discrete}

infix 1 if◌then◌else◌
abbrev pub if◌then◌else◌ {ℓ} : {A : Type ℓ} → Bool → A → A → A
if b then x else y = cond b x y

pub record Eq {ℓ} (A : Type ℓ) : Type ℓ where
  pub dec : Discrete A

abbrev pub ◌==◌ {ℓ} : {T : Type ℓ} ⦃eq : Eq T⦄ → T → T → Bool
◌==◌ ⦃eq⦄ x y = ite (eq.dec x y) true false

-- It does not associate.
infix 50 ◌==◌
instance unfoldable pub nat_eq : Eq ℕ
unfolding ℕ_discrete
nat_eq = record { dec = ℕ_discrete }

bytes_dec : Discrete (List ℕ)
unfolding ℕ_discrete
bytes_dec [] [] = yes refl
bytes_dec [] (b ∷ bs) = no (λ e. cons-ne-nil b bs (sym e))
bytes_dec (a ∷ as') [] = no (cons-ne-nil a as')
bytes_dec (a ∷ as') (b ∷ bs) =
    dite (ℕ_discrete a b)
      (λ p.
        dite (bytes_dec as' bs) (λ q. yes (ap₂ ◌∷◌ p q)) (λ n. no (λ e. n (tail-eq_of_cons-eq e))))
      (λ n. no (λ e. n (head-eq_of_cons-eq e)))

instance unfoldable pub bytes_eq : Eq (List ℕ)
unfolding bytes_dec
bytes_eq = record { dec = bytes_dec }

abbrev pub ltb : ℕ → ℕ → Bool
ltb a b = elim (compare a b) [ Ordering.lt ↦ true | _ ↦ false ]

abbrev pub leb : ℕ → ℕ → Bool
leb a b = elim (compare a b) [ Ordering.gt ↦ false | _ ↦ true ]

-- To split on a computed value and keep the equation.
pub Bool-cases : (b : Bool) → (b ≡ true) ⊎ (b ≡ false)
Bool-cases true = inl refl
Bool-cases false = inr refl

pub Option-cases {ℓ} : {A : Type ℓ} (o : Option A) → (o ≡ none) ⊎ ((a : A) × (o ≡ some a))
Option-cases none = inl refl
Option-cases (some a) = inr (a, refl)
