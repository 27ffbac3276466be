-- ===== src/JsonShape.antt =====
-- include/nanovllm/gen.hpp: the constraint that keeps sampled characters in the shape of a JSON
-- object. A `char` is its code below 256, a string a list of them, and a set of strings a list
-- without doubles.
pub mod Shape
pub mod Tests
use nano_v_llm_cpp.Base.{
  ℕ, zero, suc, ◌+◌, Bool, true, false, not, ◌&&◌, ◌||◌, List, [], ◌∷◌, ◌++◌, Option, none, some,
  ◌==◌, ltb, leb, if◌then◌else◌, length, is_empty,
}
use nano_v_llm_cpp.BlockManager.{same_tokens}
use nano_v_llm_cpp.Text.{is_space}

pub data State : Type 0 where
  expect_object_start expect_key_or_end in_key expect_colon : State
  expect_value_start in_value expect_comma_or_end : State

pub record JsonShapeConstraint : Type 0 where
  pub keys : List (List ℕ)
  pub state : State
  pub done : Bool
  pub current_key : List ℕ
  pub seen_keys : List (List ℕ)

abbrev pub open_brace : ℕ
open_brace = 123

abbrev pub close_brace : ℕ
close_brace = 125

abbrev pub quote : ℕ
quote = 34

abbrev pub colon : ℕ
colon = 58

abbrev pub comma : ℕ
comma = 44

-- `keys.count(key)`, as a test.
abbrev pub contains : List (List ℕ) → List ℕ → Bool
contains [] key = false
contains (k ∷ ks) key = same_tokens k key || contains ks key

pub allow : JsonShapeConstraint → ℕ → Bool
allow m ch = if m.done then ch == close_brace else if is_space ch then true else elim m.state [
  | expect_object_start ↦ ch == open_brace
  | expect_key_or_end ↦ ch == quote || ch == close_brace
  | in_key ↦ true
  | expect_colon ↦ ch == colon
  | expect_value_start ↦ ch == quote
  | in_value ↦ true
  | expect_comma_or_end ↦ ch == comma || ch == close_brace
]

-- The end of a value: a key of the list that was seen before makes the object invalid.
pub end_value : JsonShapeConstraint → JsonShapeConstraint
end_value m =
    if contains m.keys m.current_key
    then (if contains m.seen_keys m.current_key
        then record m { done = true }
        else record m { seen_keys = m.current_key ∷ m.seen_keys; state = expect_comma_or_end })
    else record m { state = expect_comma_or_end }

pub feed : JsonShapeConstraint → ℕ → JsonShapeConstraint
feed m ch = if m.done || is_space ch then m else elim m.state [
  | expect_object_start ↦ if ch == open_brace then record m { state = expect_key_or_end } else m
  | expect_key_or_end ↦
      if ch == close_brace
      then record m { done = true }
      else (if ch == quote then record m { state = in_key; current_key = [] } else m)
  | in_key ↦
      if ch == quote
      then record m { state = expect_colon }
      else record m { current_key = m.current_key ++ (ch ∷ []) }
  | expect_colon ↦ if ch == colon then record m { state = expect_value_start } else m
  | expect_value_start ↦ if ch == quote then record m { state = in_value } else m
  | in_value ↦ if ch == quote then end_value m else m
  | expect_comma_or_end ↦
      if ch == comma
      then record m { state = expect_key_or_end }
      else (if ch == close_brace then record m { done = true } else m)
]

pub reset : JsonShapeConstraint → JsonShapeConstraint
reset m = record m { state = expect_object_start; done = false; current_key = []; seen_keys = [] }

-- The loop of `json_shape` over the characters, with the list and the key so far.
pub split_keys : List ℕ → List (List ℕ) → List ℕ → Option (List (List ℕ))
split_keys [] key_list current =
    some (if is_empty current then key_list else key_list ++ (current ∷ []))
split_keys (c ∷ cs) key_list current =
    let skipped = split_keys cs key_list current in
    let ended = split_keys cs (key_list ++ (current ∷ [])) [] in
    let longer = split_keys cs key_list (current ++ (c ∷ [])) in
    if c == comma
    then (if is_empty current then none else ended)
    else if is_space c
    then skipped
    else longer

-- `unique.size() == key_list.size()`
pub all_unique : List (List ℕ) → Bool
all_unique [] = true
all_unique (k ∷ ks) = not (contains ks k) && all_unique ks

pub json_shape : List ℕ → Option JsonShapeConstraint
json_shape keys = if is_empty keys then none else elim (split_keys keys [] []) [
  | none ↦ none
  | some key_list ↦
      if is_empty key_list || not (all_unique key_list)
      then none
      else some (record {
        keys = key_list;
        state = expect_object_start;
        done = false;
        current_key = [];
        seen_keys = [];
      })
]
