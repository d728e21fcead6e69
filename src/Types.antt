-- ===== src/Types.antt =====
-- The tests on types: include/timer/timer_concept.hpp, `is_awaitable` of include/coro.hpp,
-- include/data_source/operation_state_concept.hpp, and the lists of types of include/meta.hpp.
pub mod Accepted
use feedback_ingest.Base.{ℕ, Bool, true, false, Option, none, some, List, [], ◌∷◌}

-- The C++ types, as far as the tests tell them apart. `class_with` is a class other than `awaitable`
-- that has the member type `value_type`, such as a container, and `plain` is any other type; the
-- numbers are their names.
pub data Unqualified : Type 0 where
  void : Unqualified
  duration : ℕ → ℕ → Unqualified
  time_point : Unqualified
  string : Unqualified
  awaitable : Unqualified → Unqualified
  class_with : ℕ → Unqualified → Unqualified
  plain : ℕ → Unqualified

pub record CppType : Type 0 where
  pub is_const : Bool
  pub is_volatile : Bool
  pub unqualified : Unqualified

-- `detail::__is_duration`: the primary template is the last clause.
unfoldable pub is_duration_of : Bool → Bool → Unqualified → Bool
is_duration_of false false (duration rep period) = true
is_duration_of true false (duration rep period) = true
is_duration_of false true (duration rep period) = true
is_duration_of true true (duration rep period) = true
is_duration_of _ _ _ = false

-- `is_duration`
unfoldable pub is_duration : CppType → Bool
unfolding is_duration_of
is_duration t = is_duration_of t.is_const t.is_volatile t.unqualified

-- The member type `value_type`. A `std::string` is a container too.
abbrev pub value_type : Unqualified → Option Unqualified
value_type (awaitable t) = some t
value_type (class_with name t) = some t
value_type string = some (plain 0)
value_type _ = none

-- `is_awaitable`: the member type has to be there. The expression `std::same_as<…>` has to be well
-- formed, which it is for every type, and its value is not asked for.
unfoldable pub is_awaitable : Unqualified → Bool
is_awaitable t = elim (value_type t) [ none ↦ false | some v ↦ true ]

-- A class, by what the test on operation states looks at.
pub record ClassType : Type 0 where
  pub copy_constructible : Bool
  pub move_constructible : Bool
  -- the type of `t.start()`, where that is well formed
  pub start : Option Unqualified

abbrev is_void_awaitable : Unqualified → Bool
is_void_awaitable (awaitable void) = true
is_void_awaitable _ = false

-- `is_operation_state`: the two expressions on constructors have to be well formed only.
unfoldable pub is_operation_state : ClassType → Bool
is_operation_state c = elim c.start [ none ↦ false | some t ↦ is_void_awaitable t ]

-- `typelist`
abbrev pub Typelist : Type 1
Typelist = List (Type 0)

-- `typelist_apply`: the arguments of a variadic template are those of the list.
unfoldable pub typelist_apply {ℓ} : {X : Type ℓ} → (Typelist → X) → Typelist → X
typelist_apply C types = C types

-- `typelist_transform`
unfoldable pub typelist_transform : Typelist → (Type 0 → Type 0) → Typelist
typelist_transform [] Fun = []
typelist_transform (type ∷ types) Fun = Fun type ∷ typelist_transform types Fun
