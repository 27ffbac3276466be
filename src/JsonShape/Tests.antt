-- ===== src/JsonShape/Tests.antt =====
-- include/nanovllm/gen.hpp on the key list `a,b`.
use nano_v_llm_cpp.Base.{ℕ, ◌≡◌, refl, true, false, List, [], ◌∷◌, some, is_empty}
use nano_v_llm_cpp.Text.{is_space}
use nano_v_llm_cpp.JsonShape.{
  JsonShapeConstraint, expect_object_start, split_keys, all_unique, json_shape, end_value, feed,
}
use nano_v_llm_cpp.JsonShape.Shape.{Seen, feed_all, json_shape-Seen}

abbrev ab : JsonShapeConstraint
ab = record {
  keys = (97 ∷ []) ∷ (98 ∷ []) ∷ [];
  state = expect_object_start;
  done = false;
  current_key = [];
  seen_keys = [];
}

ab_parses : json_shape (97 ∷ 44 ∷ 98 ∷ []) ≡ some ab
unfolding json_shape split_keys all_unique is_space
ab_parses = refl

-- `{"a":"x"}`: the object is closed with one key of the two.
abbrev a_only : List ℕ
a_only = 123 ∷ 34 ∷ 97 ∷ 34 ∷ 58 ∷ 34 ∷ 120 ∷ 34 ∷ 125 ∷ []

closes_early : (feed_all ab a_only).done ≡ true
unfolding feed end_value is_space
closes_early = refl

json_shape-Seen_example :
    (is_empty ab.keys ≡ false)
    × (all_unique ab.keys ≡ true)
    × Seen (feed_all ab a_only)
    × ((ch : ℕ)
        → (feed_all ab a_only).done ≡ true
        → feed (feed_all ab a_only) ch ≡ feed_all ab a_only)
json_shape-Seen_example = json_shape-Seen (97 ∷ 44 ∷ 98 ∷ []) a_only {m = ab} ab_parses
