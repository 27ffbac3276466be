-- ===== src/Gguf/Lookup.antt =====
-- src/gguf.cpp: the tensors and the metadata of a loader by their names.
use nano_v_llm_cpp.Base.{
  ℕ, ◌%◌, ◌^◌, Bool, ◌||◌, List, [], ◌∷◌, Option, none, some, ◌==◌, if◌then◌else◌, is_empty, map,
}
use nano_v_llm_cpp.Text.{Bytes}
use nano_v_llm_cpp.Text.Maps.{find_key}
use nano_v_llm_cpp.Gguf.{GgufMetaValue, Double}
use nano_v_llm_cpp.Gguf.Loader.{GgufTensorMeta, GgufLoader}

unfoldable pub tensor : GgufLoader → Bytes → Option GgufTensorMeta
tensor l name = find_key name l.tensors

abbrev pub all_keys {ℓ} : {V : Type ℓ} → List (Bytes × V) → List Bytes
all_keys [] = []
all_keys ((k, v) ∷ m) = k ∷ all_keys m

unfoldable pub names : GgufLoader → List Bytes
names l = all_keys l.tensors

-- The value of a key, if its type passes a test.
unfoldable pub typed : GgufLoader → Bytes → (ℕ → Bool) → Option GgufMetaValue
typed l key test = elim (find_key key l.meta) [
  | none ↦ none
  | some v ↦ if test v.type then some v else none
]

unfoldable pub meta_u32 : GgufLoader → Bytes → Option ℕ
meta_u32 l key = elim (typed l key (λ t. t == 4 || t == 5 || t == 2 || t == 10)) [
  | none ↦ none
  | some v ↦ some (v.i % 2 ^ 32)
]

unfoldable pub meta_i64 : GgufLoader → Bytes → Option ℕ
meta_i64 l key = elim (typed l key (λ t. t == 11 || t == 5)) [ none ↦ none | some v ↦ some v.i ]

unfoldable pub meta_f64 : GgufLoader → Bytes → Option Double
meta_f64 l key = elim (typed l key (λ t. t == 6 || t == 12)) [ none ↦ none | some v ↦ some v.d ]

unfoldable pub meta_str : GgufLoader → Bytes → Option Bytes
meta_str l key = elim (typed l key (λ t. t == 8)) [ none ↦ none | some v ↦ some v.s ]

-- The arrays count as missing where they are empty.
unfoldable pub array_of {ℓ} :
    {A : Type ℓ} → GgufLoader → Bytes → (GgufMetaValue → List A) → Option (List A)
array_of l key field = elim (typed l key (λ t. t == 9)) [
  | none ↦ none
  | some v ↦ if is_empty (field v) then none else some (field v)
]

unfoldable pub meta_str_array : GgufLoader → Bytes → Option (List Bytes)
meta_str_array l key = array_of l key (λ v. v.sarr)

unfoldable pub meta_i32_array : GgufLoader → Bytes → Option (List ℕ)
meta_i32_array l key = elim (array_of l key (λ v. v.iarr)) [
  | none ↦ none
  | some xs ↦ some (map (λ n. n % 2 ^ 32) xs)
]

unfoldable pub meta_f32_array : GgufLoader → Bytes → Option (List ℕ)
meta_f32_array l key = array_of l key (λ v. v.farr)
