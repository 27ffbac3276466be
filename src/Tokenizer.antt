-- ===== src/Tokenizer.antt =====
-- src/tokenizer.cpp: the byte-level half of the tokenizer, for one that was loaded and has merges.
-- Bytes become characters of the vocabulary, pairs of characters are merged by rank, and the pieces
-- that are left are looked up; `decode_tokens` goes back. Hash maps are functions to `Option` or lists of
-- their entries, and a token id is a natural number.
pub mod Utf8
pub mod Merge
pub mod Least
pub mod RoundTrip
pub mod Split
pub mod Encode
pub mod Whole
pub mod Ends
pub mod Tests
use nano_v_llm_cpp.Base.{
  ℕ, zero, suc, ◌+◌, ◌-◌, ◌*◌, ◌/◌, ◌%◌, ◌^◌, Bool, true, false, not, ◌&&◌, ◌||◌, List, [], ◌∷◌,
  ◌++◌, Option, none, some, ◌==◌, ltb, leb, if◌then◌else◌, length, map, get_or, get_elem?, is_empty,
}
use nano_v_llm_cpp.Text.{Bytes, bytes}
use nano_v_llm_cpp.Text.Maps.{find_key}

pub record Tokenizer : Type 0 where
  pub vocab : Bytes → Option ℕ
  pub id_to_piece : List Bytes
  pub merge_rank : Bytes → Option ℕ
  pub specials : List (Bytes × ℕ)
  pub add_bos : Bool
  pub bos_id : Option ℕ
  pub chat_auto_system : Bool

-- `special_id_`, whose entries are listed by `specials`.
unfoldable pub special_id : Tokenizer → Bytes → Option ℕ
special_id t piece = find_key piece t.specials

-- A byte that stands for itself.
abbrev pub safe : ℕ → Bool
safe b = (leb 33 b && leb b 126) || (leb 161 b && leb b 172) || (b == 174) || (b == 248)

-- The loop of `load` over the next `n` bytes from `b` on, with `remaining_idx`.
unfoldable pub codepoints_from : ℕ → ℕ → ℕ → List ℕ
codepoints_from zero b remaining_idx = []
codepoints_from (suc n) b remaining_idx = elim (safe b) [
  | true ↦ b ∷ codepoints_from n (suc b) remaining_idx
  | false ↦ (256 + remaining_idx) ∷ codepoints_from n (suc b) (suc remaining_idx)
]

unfoldable pub byte_to_codepoint : ℕ → ℕ
byte_to_codepoint b = get_or (codepoints_from 256 0 0) b 0

-- The byte that was the last to get a code point, among those from `b` on.
abbrev pub last_byte : ℕ → ℕ → List ℕ → Option ℕ
last_byte cp b [] = none
last_byte cp b (c ∷ cs) = elim (last_byte cp (suc b) cs) [
  | none ↦ if c == cp then some b else none
  | some x ↦ some x
]

unfoldable pub codepoint_to_byte : ℕ → Option ℕ
codepoint_to_byte cp = last_byte cp 0 (codepoints_from 256 0 0)

abbrev pub continuation : ℕ → ℕ
continuation n = 128 + n % 64

-- `0xC0 | (cp >> 6)` and its like are sums, since the bits do not meet; a code point has 21 bits, as
-- `decode_utf8` gives them.
unfoldable pub encode_utf8 : ℕ → Bytes
encode_utf8 cp =
    if ltb cp 128
    then cp ∷ []
    else if ltb cp 2048
    then (192 + cp / 64) ∷ continuation cp ∷ []
    else if ltb cp 65536
    then (224 + cp / 4096) ∷ continuation (cp / 64) ∷ continuation cp ∷ []
    else (240 + cp / 262144 % 8)
      ∷ continuation (cp / 4096)
      ∷ continuation (cp / 64)
      ∷ continuation cp
      ∷ []

-- The bytes that a first byte announces, and its bits of the code point.
abbrev pub extra : ℕ → ℕ
extra c =
    if ltb c 128
    then 0
    else if c / 32 == 6
    then 1
    else if c / 16 == 14
    then 2
    else if c / 8 == 30
    then 3
    else 0

abbrev pub first_bits : ℕ → ℕ
first_bits c =
    if ltb c 128
    then c
    else if c / 32 == 6
    then c % 32
    else if c / 16 == 14
    then c % 16
    else if c / 8 == 30
    then c % 8
    else 63

-- The rest of the loop, with `k` bytes of the code point `cp` to come.
unfoldable pub decode_rest : ℕ → ℕ → Bytes → List ℕ
decode_rest k cp [] = cp ∷ []
decode_rest zero cp (c ∷ s) = cp ∷ decode_rest (extra c) (first_bits c) s
decode_rest (suc k) cp (c ∷ s) = decode_rest k (cp * 64 + c % 64) s

unfoldable pub decode_utf8 : Bytes → List ℕ
decode_utf8 [] = []
decode_utf8 (c ∷ s) = decode_rest (extra c) (first_bits c) s

abbrev pub utf8_chars : Bytes → List Bytes
utf8_chars s = map encode_utf8 (decode_utf8 s)

unfoldable pub bytes_to_byte_level : Bytes → Bytes
bytes_to_byte_level [] = []
bytes_to_byte_level (b ∷ s) = encode_utf8 (byte_to_codepoint b) ++ bytes_to_byte_level s

unfoldable pub bytes_of : List ℕ → Bytes
bytes_of [] = []
bytes_of (cp ∷ cps) = elim (codepoint_to_byte cp) [
  | none ↦ encode_utf8 cp ++ bytes_of cps
  | some b ↦ b ∷ bytes_of cps
]

unfoldable pub byte_level_to_bytes : Bytes → Bytes
byte_level_to_bytes text = bytes_of (decode_utf8 text)

unfoldable pub merge_key : Bytes → Bytes → Bytes
merge_key a b = a ++ (31 ∷ b)

-- The rank and the place of the better of two pairs; the earlier one of two of equal rank.
abbrev pub better_pair : Option ℕ → ℕ → Option (ℕ × ℕ) → Option (ℕ × ℕ)
better_pair none i best = best
better_pair (some rank) i none = some (rank, i)
better_pair (some rank) i (some (best_rank, best_i)) =
    if ltb rank best_rank then some (rank, i) else some (best_rank, best_i)

-- The `for` loop of `encode_piece` from the pair at `i` on.
unfoldable pub best_from : Tokenizer → ℕ → Option (ℕ × ℕ) → List Bytes → Option (ℕ × ℕ)
best_from t i best [] = best
best_from t i best (p ∷ []) = best
best_from t i best (p ∷ (q ∷ parts)) =
    best_from t (suc i) (better_pair (t.merge_rank (merge_key p q)) i best) (q ∷ parts)

-- `parts[i] += parts[i + 1]`, and the latter is erased.
unfoldable pub merge_at {ℓ} : {A : Type ℓ} → ℕ → List (List A) → List (List A)
merge_at i [] = []
merge_at i (p ∷ []) = p ∷ []
merge_at zero (p ∷ (q ∷ parts)) = (p ++ q) ∷ parts
merge_at (suc i) (p ∷ (q ∷ parts)) = p ∷ merge_at i (q ∷ parts)

-- The `while` loop, at most `n` times.
unfoldable pub merge_parts : Tokenizer → ℕ → List Bytes → List Bytes
merge_parts t zero parts = parts
merge_parts t (suc n) parts = elim (best_from t 0 none parts) [
  | none ↦ parts
  | some (rank, i) ↦ merge_parts t n (merge_at i parts)
]

-- A part that is no piece gives the ids of its characters that are.
unfoldable pub char_ids : Tokenizer → List ℕ → List ℕ
char_ids t [] = []
char_ids t (cp ∷ cps) = elim (t.vocab (encode_utf8 cp)) [
  | none ↦ char_ids t cps
  | some id ↦ id ∷ char_ids t cps
]

unfoldable pub part_ids : Tokenizer → List Bytes → List ℕ
part_ids t [] = []
part_ids t (p ∷ parts) = elim (t.vocab p) [
  | none ↦ char_ids t (decode_utf8 p) ++ part_ids t parts
  | some id ↦ id ∷ part_ids t parts
]

unfoldable pub encode_piece : Tokenizer → Bytes → List ℕ
encode_piece t piece =
    let parts = utf8_chars piece in part_ids t (merge_parts t (length parts) parts)

-- An id that is too big, and one of a special token, say nothing.
unfoldable pub decode_token : Tokenizer → ℕ → Bytes
decode_token t id = elim (get_elem? t.id_to_piece id) [
  | none ↦ []
  | some piece ↦ elim (special_id t piece) [ none ↦ byte_level_to_bytes piece | some special ↦ [] ]
]

-- -1 is `none`.
unfoldable pub encode_special : Tokenizer → Bytes → Option ℕ
encode_special t special = elim (special_id t special) [
  | none ↦ t.vocab special
  | some id ↦ some id
]

unfoldable pub decode_tokens : Tokenizer → List ℕ → Bytes
decode_tokens t [] = []
decode_tokens t (id ∷ ids) = decode_token t id ++ decode_tokens t ids
