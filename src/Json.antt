-- ===== src/Json.antt =====
-- nlohmann::json, a library that the program calls: its values are a parameter, with the
-- operations that the program uses and their documented behaviour.
pub mod Tree
pub mod Members
use feedback_ingest.Base.{
  ◌≡◌, ◌⊎◌, Bool, true, false, Option, none, some, List, [], ◌∷◌, ◌++◌, Bytes,
}
use feedback_ingest.Base.{
  ◌==◌, bytes_eq, if◌then◌else◌, Outcome, ok, throws, undefined, parse_error, type_error,
}
use feedback_ingest.Base.Int.{ℤ, int_eq}

pub record JsonLibrary : Type 1 where
  pub Json : Type 0
  -- `double`
  pub Real : Type 0
  -- `json::parse`, which throws where this is `none`
  pub parse : Bytes → Option Json
  -- `operator<<` and `dump`, which throw on a text that is no UTF-8
  pub dump : Json → Outcome Bytes
  pub null : Json
  pub of_string : Bytes → Json
  pub of_int : ℤ → Json
  pub of_real : Real → Json
  pub is_object : Json → Bool
  pub is_array : Json → Bool
  -- `find` and `contains`
  pub find : Json → Bytes → Option Json
  -- `j[key]` of a `const` value
  pub at : Json → Bytes → Outcome Json
  -- the value of `j[key]` where `j` is not `const`
  pub index : Json → Bytes → Outcome Json
  -- `j[key] = value`
  pub set : Json → Bytes → Json → Outcome Json
  pub push_back : Json → Json → Outcome Json
  -- what an iteration goes over
  pub elements : Json → List Json
  -- the implicit conversions, and `==` with an `int`
  pub get_string : Json → Outcome Bytes
  pub get_int : Json → Outcome ℤ
  pub get_real : Json → Outcome Real
  pub equals_int : Json → ℤ → Bool

pub record IsLawful (J : JsonLibrary) : Type 0 where
  pub get_string-of_string : (s : Bytes) → J.get_string (J.of_string s) ≡ ok s
  pub get_int-of_int : (i : ℤ) → J.get_int (J.of_int i) ≡ ok i
  pub get_real-of_real : (r : J.Real) → J.get_real (J.of_real r) ≡ ok r
  pub get_string-null : J.get_string J.null ≡ throws type_error
  pub find-null : (k : Bytes) → J.find J.null k ≡ none
  pub elements-null : J.elements J.null ≡ []
  -- `[]` throws on what is no object, and is not checked for a missing key of a `const` object.
  pub at_found : (j v : J.Json) (k : Bytes) → J.find j k ≡ some v → J.at j k ≡ ok v
  pub at_missing :
      (j : J.Json) (k : Bytes) → J.is_object j ≡ true → J.find j k ≡ none → J.at j k ≡ undefined
  pub index_found : (j v : J.Json) (k : Bytes) → J.find j k ≡ some v → J.index j k ≡ ok v
  pub index_missing :
      (j : J.Json) (k : Bytes) → J.is_object j ≡ true → J.find j k ≡ none → J.index j k ≡ ok J.null
  pub index-null : (k : Bytes) → J.index J.null k ≡ ok J.null
  pub at_no_object : (j : J.Json) (k : Bytes) → J.is_object j ≡ false → J.at j k ≡ throws type_error
  pub equals_int-of_int : (i k : ℤ) → J.equals_int (J.of_int i) k ≡ (i == k)
  -- An assignment makes `null` an object, and `push_back` makes it an array.
  pub set_total :
      (j : J.Json) (k : Bytes) (v : J.Json)
      → (j ≡ J.null) ⊎ (J.is_object j ≡ true)
      → (j' : J.Json) × (J.set j k v ≡ ok j')
        × (J.is_object j' ≡ true)
        × ((i : Bytes) → J.find j' i ≡ (if i == k then some v else J.find j i))
  pub push_back_total :
      (j v : J.Json)
      → (j ≡ J.null) ⊎ (J.is_array j ≡ true)
      → (j' : J.Json) × (J.push_back j v ≡ ok j')
        × (J.is_array j' ≡ true)
        × (J.elements j' ≡ J.elements j ++ (v ∷ []))

-- `json::parse`
unfoldable pub parse_json : (J : JsonLibrary) → Bytes → Outcome J.Json
parse_json J str = elim (J.parse str) [ none ↦ throws parse_error | some j ↦ ok j ]

-- `j.contains(key)`
unfoldable pub contains : (J : JsonLibrary) → J.Json → Bytes → Bool
contains J j key = elim (J.find j key) [ none ↦ false | some _ ↦ true ]
