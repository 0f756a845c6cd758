-- ===== src/Json.antt =====
-- JSON values as the JSON library of src/third_party presents them. The library is not modelled: its
-- parser and its printer are parameters, and the accessors below are what its documentation says of a
-- value. `none` stands for an exception of the library. An object is a std::map, so its members are in
-- the order of their keys.
pub mod Objects
use actuator_final.Prelude.{
  ℕ, Bool, true, false, List, [], ◌∷◌, ◌++◌, map, Option, none, some, if◌then◌else◌, is_some,
}
use actuator_final.Prelude.Int.{ℤ, pos, negsuc, int_of_long, uint64_of}
use actuator_final.Text.{Text, codes}
use actuator_final.Text.Numerals.{int_to_string}
use actuator_final.Dict.{Dict, lookup, insert, merge}
use actuator_final.Value.{Floating}

-- Signed and unsigned numbers are both `integer`.
mutual
  pub data Json (F : Type 0) : Type 0 where
    null : Json F
    boolean : Bool → Json F
    integer : ℤ → Json F
    float : F → Json F
    text : Text → Json F
    array : Items F → Json F
    object : Members F → Json F

  pub data Items (F : Type 0) : Type 0 where
    nil : Items F
    cons : Json F → Items F → Items F

  pub data Members (F : Type 0) : Type 0 where
    end : Members F
    member : Text → Json F → Members F → Members F

-- json::parse, value.dump(), and two conversions of doubles: `oss << x` and static_cast<uint64_t>(x).
pub record JsonLibrary (F : Type 0) : Type 0 where
  pub parse : List ℕ → Option (Json F)
  pub dump : Json F → Text
  pub stream : F → Text
  pub to_uint64 : F → ℕ

infixl 5 ◌>>=◌
abbrev pub ◌>>=◌ : {A B : Type 0} → Option A → (A → Option B) → Option B
none >>= f = none
some a >>= f = f a

module _ {F : Type 0} where
  unfoldable pub items : Items F → List (Json F)
  items nil = []
  items (cons j rest) = j ∷ items rest

  unfoldable pub items_of : List (Json F) → Items F
  items_of [] = nil
  items_of (j ∷ js) = cons j (items_of js)

  unfoldable pub members : Members F → Dict (Json F)
  members end = []
  members (member key j rest) = (key, j) ∷ members rest

  unfoldable pub members_of : Dict (Json F) → Members F
  members_of [] = end
  members_of ((key, j) ∷ d) = member key j (members_of d)

  -- A new object that is given its members one after the other, `j[key] = value`.
  unfoldable pub object_with : Dict (Json F) → Json F
  unfolding members_of merge
  object_with assignments = object (members_of (merge [] assignments))

  -- A std::map and a std::vector of strings as JSON.
  unfoldable pub texts_of : Dict Text → Dict (Json F)
  texts_of [] = []
  texts_of ((key, value) ∷ d) = (key, text value) ∷ texts_of d

  unfoldable pub text_object : Dict Text → Json F
  unfolding members_of texts_of
  text_object d = object (members_of (texts_of d))

  unfoldable pub text_array : List Text → Json F
  unfolding items_of
  text_array ts = array (items_of (map text ts))

  unfoldable pub is_object : Json F → Bool
  is_object (object ms) = true
  is_object _ = false

  unfoldable pub is_array : Json F → Bool
  is_array (array is) = true
  is_array _ = false

  unfoldable pub get_text : Json F → Option Text
  get_text (text s) = some s
  get_text _ = none

  unfoldable pub get_bool : Json F → Option Bool
  get_bool (boolean b) = some b
  get_bool _ = none

  -- find(key) of a value that may not be an object
  unfoldable pub find_member : Text → Json F → Option (Json F)
  unfolding members
  find_member key (object ms) = lookup key (members ms)
  find_member key _ = none

  unfoldable pub has_member : Text → Json F → Bool
  unfolding find_member
  has_member key j = is_some (find_member key j)

  -- value(key, default), where `get` is get<T>
  abbrev pub or_default : {A : Type 0} → (Json F → Option A) → A → Option (Json F) → Option A
  or_default get default none = some default
  or_default get default (some j) = get j

  unfoldable pub value : {A : Type 0} → (Json F → Option A) → Text → A → Json F → Option A
  unfolding members
  value get key default (object ms) = or_default get default (lookup key (members ms))
  value get key default _ = none

  -- A range-based loop over a value: the elements of an array, the values of an object, nothing for
  -- null, and any other value itself.
  unfoldable pub values : Dict (Json F) → List (Json F)
  values [] = []
  values ((key, j) ∷ d) = j ∷ values d

  unfoldable pub elements : Json F → List (Json F)
  unfolding items members values
  elements (array is) = items is
  elements (object ms) = values (members ms)
  elements null = []
  elements j = j ∷ []

  -- A loop over iterators that calls it.key(): an exception unless the value is an object or empty.
  unfoldable pub keyed : Json F → Option (Dict (Json F))
  unfolding members
  keyed (object ms) = some (members ms)
  keyed null = some []
  keyed (array nil) = some []
  keyed _ = none

module _ {F : Type 0} ⦃fl : Floating F⦄ ⦃lib : JsonLibrary F⦄ where
  -- get<int>()
  unfoldable pub get_int : Json F → Option ℤ
  get_int (integer n) = some (int_of_long n)
  get_int (float x) = some (fl.to_int x)
  get_int (boolean b) = some (pos (if b then 1 else 0))
  get_int _ = none

  -- get<uint64_t>()
  unfoldable pub get_uint64 : Json F → Option ℕ
  unfolding uint64_of
  get_uint64 (integer n) = some (uint64_of n)
  get_uint64 (float x) = some (lib.to_uint64 x)
  get_uint64 _ = none
