-- ===== src/Json/Tree.antt =====
-- A value for the parameter: JSON values as trees, with natural numbers for `double`.
use feedback_ingest.Base.{
  ℕ, ◌≡◌, ◌≢◌, refl, ◌⊎◌, inl, inr, Bool, true, false, arith, Option, none, some, List, [], ◌∷◌,
  ◌++◌, Bytes, ap,
}
use feedback_ingest.Base.{◌==◌, bytes_eq, if◌then◌else◌, Outcome, ok, throws, undefined, type_error}
use feedback_ingest.Base.Int.{ℤ, int_eq}
use feedback_ingest.Json.{JsonLibrary, IsLawful}

mutual
  pub data Value : Type 0 where
    null : Value
    string : Bytes → Value
    int : ℤ → Value
    real : ℕ → Value
    array : Items → Value
    object : Members → Value

  pub data Items : Type 0 where
    nil : Items
    cons : Value → Items → Items

  pub data Members : Type 0 where
    end : Members
    member : Bytes → Value → Members → Members

abbrev pub find_member : Members → Bytes → Option Value
find_member end k = none
find_member (member i v ms) k = if k == i then some v else find_member ms k

abbrev set_member : Members → Bytes → Value → Members
set_member end k v = member k v end
set_member (member i w ms) k v = if k == i then member k v ms else member i w (set_member ms k v)

abbrev values : Members → List Value
values end = []
values (member i v ms) = v ∷ values ms

abbrev items : Items → List Value
items nil = []
items (cons v vs) = v ∷ items vs

abbrev append_item : Items → Value → Items
append_item nil v = cons v nil
append_item (cons w vs) v = cons w (append_item vs v)

abbrev find : Value → Bytes → Option Value
find (object ms) k = find_member ms k
find _ k = none

abbrev is_object : Value → Bool
is_object (object ms) = true
is_object _ = false

abbrev is_array : Value → Bool
is_array (array vs) = true
is_array _ = false

abbrev or_undefined : Option Value → Outcome Value
or_undefined none = undefined
or_undefined (some v) = ok v

abbrev at : Value → Bytes → Outcome Value
at (object ms) k = or_undefined (find_member ms k)
at _ k = throws type_error

abbrev or_null : Option Value → Outcome Value
or_null none = ok null
or_null (some v) = ok v

abbrev index : Value → Bytes → Outcome Value
index (object ms) k = or_null (find_member ms k)
index null k = ok null
index _ k = throws type_error

abbrev set : Value → Bytes → Value → Outcome Value
set (object ms) k v = ok (object (set_member ms k v))
set null k v = ok (object (member k v end))
set _ k v = throws type_error

abbrev push_back : Value → Value → Outcome Value
push_back (array vs) v = ok (array (append_item vs v))
push_back null v = ok (array (cons v nil))
push_back _ v = throws type_error

abbrev elements : Value → List Value
elements (array vs) = items vs
elements (object ms) = values ms
elements null = []
elements (string s) = string s ∷ []
elements (int i) = int i ∷ []
elements (real r) = real r ∷ []

abbrev get_string : Value → Outcome Bytes
get_string (string s) = ok s
get_string _ = throws type_error

abbrev get_int : Value → Outcome ℤ
get_int (int i) = ok i
get_int _ = throws type_error

abbrev get_real : Value → Outcome ℕ
get_real (real r) = ok r
get_real _ = throws type_error

abbrev equals_int : Value → ℤ → Bool
equals_int (int i) j = i == j
equals_int _ j = false

-- Only texts are written out; no theorem reads what the others give.
abbrev dump : Value → Outcome Bytes
dump (string s) = ok s
dump _ = ok []

abbrev pub tree_library : (Bytes → Option Value) → JsonLibrary
tree_library parser = record {
  Json = Value;
  Real = ℕ;
  parse = parser;
  dump = dump;
  null = null;
  of_string = string;
  of_int = int;
  of_real = real;
  is_object = is_object;
  is_array = is_array;
  find = find;
  at = at;
  index = index;
  set = set;
  push_back = push_back;
  elements = elements;
  get_string = get_string;
  get_int = get_int;
  get_real = get_real;
  equals_int = equals_int;
}

find-set_member :
    (ms : Members) (k i : Bytes) (v : Value)
    → find_member (set_member ms k v) i ≡ (if i == k then some v else find_member ms i)
find-set_member end k i v = refl
find-set_member (member j w ms) k i v = ground (arith, find-set_member ms k i v)

items-append_item : (vs : Items) (v : Value) → items (append_item vs v) ≡ items vs ++ (v ∷ [])
items-append_item nil v = refl
items-append_item (cons w vs) v = ap (λ (l : List Value). w ∷ l) (items-append_item vs v)

at_found : (j v : Value) (k : Bytes) → find j k ≡ some v → at j k ≡ ok v
at_found (object ms) v k e = rw e
at_found _ v k e = cc

at_missing : (j : Value) (k : Bytes) → is_object j ≡ true → find j k ≡ none → at j k ≡ undefined
at_missing (object ms) k h e = rw e
at_missing _ k h e = cc

index_found : (j v : Value) (k : Bytes) → find j k ≡ some v → index j k ≡ ok v
index_found (object ms) v k e = rw e
index_found _ v k e = cc

index_missing : (j : Value) (k : Bytes) → is_object j ≡ true → find j k ≡ none → index j k ≡ ok null
index_missing (object ms) k h e = rw e
index_missing _ k h e = cc

no_object :
    {A : Type 0} (j : Value)
    → (j ≡ null) ⊎ (is_object j ≡ true)
    → j ≢ null
    → is_object j ≡ false
    → A
no_object j (inl e) n f = absurd (n e)
no_object j (inr e) n f = cc

no_array :
    {A : Type 0} (j : Value) → (j ≡ null) ⊎ (is_array j ≡ true) → j ≢ null → is_array j ≡ false → A
no_array j (inl e) n f = absurd (n e)
no_array j (inr e) n f = cc

set_total :
    (j : Value) (k : Bytes) (v : Value)
    → (j ≡ null) ⊎ (is_object j ≡ true)
    → (j' : Value) × (set j k v ≡ ok j')
      × (is_object j' ≡ true)
      × ((i : Bytes) → find j' i ≡ (if i == k then some v else find j i))
set_total null k v h = (object (member k v end), refl, refl, λ i. refl)
set_total (object ms) k v h =
    (object (set_member ms k v), refl, refl, λ i. find-set_member ms k i v)
set_total j k v h = no_object j h (λ e. cc) refl

push_back_total :
    (j v : Value)
    → (j ≡ null) ⊎ (is_array j ≡ true)
    → (j' : Value) × (push_back j v ≡ ok j')
      × (is_array j' ≡ true)
      × (elements j' ≡ elements j ++ (v ∷ []))
push_back_total null v h = (array (cons v nil), refl, refl, refl)
push_back_total (array vs) v h = (array (append_item vs v), refl, refl, items-append_item vs v)
push_back_total j v h = no_array j h (λ e. cc) refl

at_no_object : (j : Value) (k : Bytes) → is_object j ≡ false → at j k ≡ throws type_error
at_no_object (object ms) k h = cc
at_no_object _ k h = refl

-- The trees behave as the documentation says, whatever text the parser accepts.
pub tree_library-IsLawful : (parser : Bytes → Option Value) → IsLawful (tree_library parser)
tree_library-IsLawful parser = record {
  get_string-of_string = λ s. refl;
  get_int-of_int = λ i. refl;
  get_real-of_real = λ r. refl;
  get_string-null = refl;
  find-null = λ k. refl;
  elements-null = refl;
  at_found = at_found;
  at_missing = at_missing;
  index_found = index_found;
  index_missing = index_missing;
  index-null = λ k. refl;
  at_no_object = at_no_object;
  equals_int-of_int = λ i k. refl;
  set_total = set_total;
  push_back_total = push_back_total;
}
