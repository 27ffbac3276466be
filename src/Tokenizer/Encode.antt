-- ===== src/Tokenizer/Encode.antt =====
-- `encode_text` of src/tokenizer.cpp for a loaded tokenizer with merges and without stages of a
-- pre-tokenizer, as `load_from_gguf` makes one.
use nano_v_llm_cpp.Base.{
  ℕ, zero, suc, Bool, false, not, List, [], ◌∷◌, ◌++◌, Option, none, some, ◌==◌, ltb, if◌then◌else◌,
  length, take, drop,
}
use nano_v_llm_cpp.Text.{Bytes, starts_with}
use nano_v_llm_cpp.Tokenizer.{Tokenizer, bytes_to_byte_level, encode_piece}
use nano_v_llm_cpp.Tokenizer.Split.{default_split}

-- The sort by length, the longest first.
unfoldable pub insert_longer : Bytes × ℕ → List (Bytes × ℕ) → List (Bytes × ℕ)
insert_longer sp [] = sp ∷ []
insert_longer sp (other ∷ rest) =
    if ltb (length other.0) (length sp.0) then sp ∷ other ∷ rest else other ∷ insert_longer sp rest

unfoldable pub longest_first : List (Bytes × ℕ) → List (Bytes × ℕ)
longest_first [] = []
longest_first (sp ∷ rest) = insert_longer sp (longest_first rest)

-- The first special token of the list that the text begins with.
unfoldable pub special_at : List (Bytes × ℕ) → Bytes → Option (Bytes × ℕ)
special_at [] text = none
special_at (sp ∷ rest) text = if starts_with sp.0 text then some sp else special_at rest text

-- How far the plain text goes on.
unfoldable pub span_length : List (Bytes × ℕ) → Bytes → ℕ
span_length specials [] = 0
span_length specials (c ∷ text) = elim (special_at specials (c ∷ text)) [
  | none ↦ suc (span_length specials text)
  | some sp ↦ 0
]

unfoldable pub pieces_ids : Tokenizer → List Bytes → List ℕ
pieces_ids t [] = []
pieces_ids t (piece ∷ pieces) = encode_piece t (bytes_to_byte_level piece) ++ pieces_ids t pieces

-- The outer loop; `none` is a text that `n` rounds do not reach the end of.
unfoldable pub encode_loop : Tokenizer → List (Bytes × ℕ) → ℕ → Bytes → Option (List ℕ)
encode_loop t specials n [] = some []
encode_loop t specials zero (c ∷ text) = none
encode_loop t specials (suc n) (c ∷ text) = elim (special_at specials (c ∷ text)) [
  | some sp ↦ elim (encode_loop t specials n (drop (length sp.0) (c ∷ text))) [
    | none ↦ none
    | some ids ↦ some (sp.1 ∷ ids)
  ]
  | none ↦
      let j = suc (span_length specials text) in
      elim (encode_loop t specials n (drop j (c ∷ text))) [
        | none ↦ none
        | some ids ↦ some (pieces_ids t (default_split (take j (c ∷ text))) ++ ids)
      ]
]

abbrev pub first_is : ℕ → List ℕ → Bool
first_is id [] = false
first_is id (x ∷ xs) = x == id

unfoldable pub with_bos : Tokenizer → List ℕ → List ℕ
with_bos t ids =
    if not t.add_bos
    then ids
    else elim t.bos_id [ none ↦ ids | some id ↦ if first_is id ids then ids else id ∷ ids ]

-- `none` is a loop that does not end.
unfoldable pub encode_text : Tokenizer → Bytes → Option (List ℕ)
encode_text t text = elim (encode_loop t (longest_first t.specials) (length text) text) [
  | none ↦ none
  | some ids ↦ some (with_bos t ids)
]
