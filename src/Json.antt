-- ===== src/Json.antt =====
-- include/nanovllm/json.hpp, `struct Json`: a value is its tag with the field that the tag makes
-- meaningful. A `double` is its 64-bit pattern, a string the list of its bytes, and a `std::map` the
-- list of its entries in the order of their keys.
use nano_v_llm_cpp.Base.{
  ℕ, Bool, true, false, not, ◌&&◌, ◌||◌, [], ◌∷◌, Option, none, some, ◌==◌, ltb, if◌then◌else◌,
}
use nano_v_llm_cpp.Text.{Bytes, bytes, same}

mutual
  pub data Json : Type 0 where
    null : Json
    bool : Bool → Json
    number : ℕ → Json
    string : Bytes → Json
    array : Items → Json
    object : Fields → Json

  pub data Items : Type 0 where
    nil : Items
    cons : Json → Items → Items

  pub data Fields : Type 0 where
    end : Fields
    field : Bytes → Json → Fields → Fields

-- `arr.push_back(v)`
unfoldable pub push_back : Items → Json → Items
push_back nil v = cons v nil
push_back (cons w ws) v = cons w (push_back ws v)

-- The order of two keys: that of their bytes, a prefix first.
unfoldable pub before : Bytes → Bytes → Bool
before [] [] = false
before [] (y ∷ ys) = true
before (x ∷ xs) [] = false
before (x ∷ xs) (y ∷ ys) = ltb x y || (x == y && before xs ys)

-- `obj[k] = v`
unfoldable pub set_field : Bytes → Json → Fields → Fields
set_field k v end = field k v end
set_field k v (field j w fs) =
    if same k j
    then field k v fs
    else if before k j
    then field k v (field j w fs)
    else field j w (set_field k v fs)

-- `obj.find(k)`
unfoldable pub find_field : Bytes → Fields → Option Json
find_field k end = none
find_field k (field j w fs) = if same k j then some w else find_field k fs

-- `obj` is empty where the value is not an object, and `arr` where it is not an array.
unfoldable pub as_object : Json → Fields
as_object (object fs) = fs
as_object _ = end

unfoldable pub as_array : Json → Items
as_array (array xs) = xs
as_array _ = nil

unfoldable pub is_null : Json → Bool
is_null null = true
is_null _ = false

unfoldable pub is_object : Json → Bool
is_object (object fs) = true
is_object _ = false

unfoldable pub is_array : Json → Bool
is_array (array xs) = true
is_array _ = false

unfoldable pub is_string : Json → Bool
is_string (string s) = true
is_string _ = false

unfoldable pub contains : Json → Bytes → Bool
contains j k = is_object j && elim (find_field k (as_object j)) [ none ↦ false | some v ↦ true ]

unfoldable pub at : Json → Bytes → Json
at j k = elim (find_field k (as_object j)) [ none ↦ null | some v ↦ v ]

-- `none` is the exception of a value of another type.
unfoldable pub as_string : Json → Option Bytes
as_string (string s) = some s
as_string _ = none

-- The pattern of 1.0.
abbrev one_bits : ℕ
one_bits = 0x3FF0_0000_0000_0000

unfoldable pub as_number : Json → Option ℕ
as_number (number n) = some n
as_number (bool b) = some (if b then one_bits else 0)
as_number _ = none

-- `num != 0`: neither zero.
unfoldable pub as_bool : Json → Bool
as_bool (bool b) = b
as_bool (number n) = not (n == 0 || n == 0x8000_0000_0000_0000)
as_bool (string s) = same s (bytes "true")
as_bool _ = false
