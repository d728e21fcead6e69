-- ===== src/Base/Failure.antt =====
-- What a C++ expression does: it returns, it throws an exception, or its behaviour is undefined.
-- A handler catches exceptions and nothing else.
use Prim.Native.Nat.{suc}
use mathlib.Core.Path.{◌≡◌, refl, sym, subst, ap}
use mathlib.Core.List.{List, [], ◌∷◌, map}
use feedback_ingest.Base.Lists.{length, All, AllPairs}

-- The exceptions that the program's code meets: `std::out_of_range`, `std::runtime_error`,
-- `std::filesystem::filesystem_error`, `boost::system::system_error`, and nlohmann's
-- `parse_error` and `type_error`.
pub data Exception : Type 0 where
  out_of_range runtime_error filesystem_error system_error parse_error type_error : Exception

pub data Outcome {ℓ} (A : Type ℓ) : Type ℓ where
  ok : A → Outcome A
  throws : Exception → Outcome A
  undefined : Outcome A

-- What follows an expression that returned. Where it did not, nothing follows.
abbrev pub ◌>>=◌ {ℓ μ} : {X : Type ℓ} {Y : Type μ} → Outcome X → (X → Outcome Y) → Outcome Y
throws e >>= next = throws e
undefined >>= next = undefined
ok x >>= next = next x

infixl 5 ◌>>=◌
-- If the whole returned, the first part returned, and what followed did.
pub >>=-ok {ℓ μ} :
    {X : Type ℓ} {Y : Type μ} (first : Outcome X) (next : X → Outcome Y) {y : Y}
    → (first >>= next) ≡ ok y
    → (x : X) × (first ≡ ok x) × (next x ≡ ok y)
>>=-ok (throws e) next h = cc
>>=-ok undefined next h = cc
>>=-ok (ok x) next h = (x, refl, h)

-- `ranges::views::transform(f) | ranges::to_vector`: the first element that fails ends the loop.
abbrev pub traverse {ℓ κ} : {A : Type ℓ} {B : Type κ} → (A → Outcome B) → List A → Outcome (List B)
traverse f [] = ok []
traverse f (x ∷ xs) = f x >>= λ y. traverse f xs >>= λ ys. ok (y ∷ ys)

pub ok-injective {ℓ} : {A : Type ℓ} {a b : A} → ok a ≡ ok b → a ≡ b
ok-injective h = cc

-- A successful traversal is one success for each element, in their order.
pub traverse-All {ℓ κ μ} :
    {A : Type ℓ} {B : Type κ} (P : B → Type μ) (f : A → Outcome B)
    → ((x : A) (y : B) → f x ≡ ok y → P y)
    → (xs : List A) (ys : List B) → traverse f xs ≡ ok ys
    → All P ys × (length ys ≡ length xs)
traverse-All P f h [] [] e = (tt, refl)
traverse-All P f h [] (y ∷ ys) e = absurd (cc)
traverse-All P f h (x ∷ xs) ys e =
    let (y, ey, e₁) = >>=-ok (f x) _ e in
    let (zs, ez, e₂) = >>=-ok (traverse f xs) _ e₁ in
    let (all, len) = traverse-All P f h xs zs ez in
    subst (λ (l : List _). All P l × (length l ≡ suc (length xs))) (ok-injective e₂)
      ((h x y ey, all), ap suc len)

pub traverse-AllPairs {ℓ κ μ ν} :
    {A : Type ℓ} {B : Type κ} {C : Type μ} (R : A → C → Type ν) (f : A → Outcome B) (g : C → B)
    → ((x : A) (y : C) → R x y → f x ≡ ok (g y))
    → (xs : List A) (ys : List C) → AllPairs R xs ys
    → traverse f xs ≡ ok (map g ys)
traverse-AllPairs R f g h [] [] _ = refl
traverse-AllPairs R f g h [] (y ∷ ys) p = elim p [ ]
traverse-AllPairs R f g h (x ∷ xs) [] p = elim p [ ]
traverse-AllPairs R f g h (x ∷ xs) (y ∷ ys) (p, ps) =
    rw (h x y p, traverse-AllPairs R f g h xs ys ps)

-- A successful traversal, where each success comes from a value that is related to its element.
pub traverse-related {ℓ κ μ ν} :
    {A : Type ℓ} {B : Type κ} {C : Type μ} (R : A → C → Type ν) (f : A → Outcome B) (g : C → B)
    → ((x : A) (y : B) → f x ≡ ok y → (c : C) × R x c × (y ≡ g c))
    → (xs : List A) (ys : List B) → traverse f xs ≡ ok ys
    → (cs : List C) × AllPairs R xs cs × (ys ≡ map g cs)
traverse-related R f g h [] ys e = ([], tt, sym (ok-injective e))
traverse-related R f g h (x ∷ xs) ys e =
    let (y, ey, e₁) = >>=-ok (f x) _ e in
    let (zs, ez, e₂) = >>=-ok (traverse f xs) _ e₁ in
    let (c, r, same) = h x y ey in
    let (cs, rs, rest) = traverse-related R f g h xs zs ez in
    (c ∷ cs, (r, rs), cc (ok-injective e₂))
