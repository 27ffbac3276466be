-- ===== src/Tokenizer/Tests.antt =====
-- Runs of src/tokenizer.cpp.
use nano_v_llm_cpp.Base.{
  ℕ, zero, suc, ◌+◌, ◌≤◌, ◌<◌, ◌≡◌, refl, ap, ◌∙◌, subst, true, false, List, [], ◌∷◌, ◌++◌, inl,
  inr, Bool-cases, Option, none, some, arith, if◌then◌else◌, length, length-append, get_elem?, drop,
}
use nano_v_llm_cpp.Text.{Bytes, bytes, same, starts_with}
use nano_v_llm_cpp.Text.Find.{same_iff}
use nano_v_llm_cpp.Text.Maps.{find_key}
use nano_v_llm_cpp.Tokenizer.{
  byte_to_codepoint, codepoints_from, Tokenizer, special_id, encode_utf8, bytes_to_byte_level,
  merge_key, best_from, merge_at, merge_parts, encode_piece, part_ids, char_ids, decode_utf8,
  decode_rest, decode_token, decode_tokens,
}
use nano_v_llm_cpp.Tokenizer.Utf8.{byte_to_codepoint-small}
use nano_v_llm_cpp.Tokenizer.Merge.{rank_at, merge_parts-Merged}
use nano_v_llm_cpp.Tokenizer.Least.{Before, best_from-Least}
use nano_v_llm_cpp.Tokenizer.RoundTrip.{ByteLevel}
use nano_v_llm_cpp.Tokenizer.Split.{
  encode_all, default_split, split_loop, piece_length, group_length, contraction, run_length,
}
use nano_v_llm_cpp.Tokenizer.Encode.{
  encode_text, encode_loop, longest_first, insert_longer, special_at, span_length, pieces_ids,
  with_bos,
}
use nano_v_llm_cpp.Tokenizer.Whole.{IsUtf8, AllPoints, Absent, decode_tokens-encode_text}
use nano_v_llm_cpp.Tokenizer.Ends.{NoneEmpty, encode_text-some}

abbrev index_of : Bytes → List Bytes → Option ℕ
index_of p [] = none
index_of p (q ∷ ps) =
    if same p q then some 0 else (elim (index_of p ps) [ none ↦ none | some i ↦ some (suc i) ])

index_of-get_elem? :
    (p : Bytes) (ps : List Bytes) (i : ℕ) → index_of p ps ≡ some i → get_elem? ps i ≡ some p
index_of-get_elem? p [] i e = ground (arith, e)
index_of-get_elem? p (q ∷ ps) zero e = ground (arith, e, same_iff p q)
index_of-get_elem? p (q ∷ ps) (suc i) e = ground (arith, e, same_iff p q, index_of-get_elem? p ps i)

get_elem?-index_of :
    (p : Bytes) (ps : List Bytes) (i : ℕ)
    → get_elem? ps i ≡ some p
    → (j : ℕ) × (index_of p ps ≡ some j)
get_elem?-index_of p [] i e = ground (arith, e)
get_elem?-index_of p (q ∷ ps) zero e =
    let here : same p q ≡ true = ground (arith, e, same_iff p q) in (0, rw here refl)
get_elem?-index_of p (q ∷ ps) (suc i) e =
    let (j, found) = get_elem?-index_of p ps i e in
    elim (Bool-cases (same p q)) [
      | inl here ↦ (0, rw here refl)
      | inr there ↦ (suc j, rw (there, found) refl)
    ]

unfoldable pub byte_pieces : ℕ → ℕ → List Bytes
byte_pieces zero b = []
byte_pieces (suc n) b = bytes_to_byte_level (b ∷ []) ∷ byte_pieces n (suc b)

get_elem?-byte_pieces :
    (n b i : ℕ) → i < n → get_elem? (byte_pieces n b) i ≡ some (bytes_to_byte_level ((b + i) ∷ []))
unfolding byte_pieces
get_elem?-byte_pieces zero b i h = absurd (omega (arith, h))
get_elem?-byte_pieces (suc n) b zero h = ap (λ x. some (bytes_to_byte_level (x ∷ []))) (omega arith)
get_elem?-byte_pieces (suc n) b (suc i) h =
    get_elem?-byte_pieces n (suc b) i (omega (arith, h))
    ∙ ap (λ x. some (bytes_to_byte_level (x ∷ []))) (omega arith)

abbrev pieces : List Bytes
pieces = bytes_to_byte_level (97 ∷ 98 ∷ []) ∷ byte_pieces 256 0

-- The bytes, and one merge, of "a" and "b".
abbrev pub small : Tokenizer
small = record {
  vocab = λ p. index_of p pieces;
  id_to_piece = pieces;
  merge_rank = λ k. if same k (97 ∷ 31 ∷ 98 ∷ []) then some 0 else none;
  specials = (bytes "<s>", 300) ∷ [];
  add_bos = true;
  bos_id = some 300;
  chat_auto_system = false;
}

short_plain : (p : Bytes) → length p ≤ 2 → special_id small p ≡ none
unfolding special_id find_key same
short_plain [] h = refl
short_plain (a ∷ []) h = ground arith
short_plain (a ∷ (b ∷ [])) h = ground arith
short_plain (a ∷ (b ∷ (c ∷ p))) h = absurd (omega (arith, h))

length-byte_level : (b : ℕ) → length (bytes_to_byte_level (b ∷ [])) ≤ 2
unfolding bytes_to_byte_level encode_utf8
length-byte_level b = ground (arith, byte_to_codepoint-small b)

merged_plain :
    (p q : Bytes) (rank : ℕ)
    → small.merge_rank (merge_key p q) ≡ some rank
    → special_id small (p ++ q) ≡ none
unfolding merge_key
merged_plain p q rank e =
    let key : merge_key p q ≡ (97 ∷ 31 ∷ 98 ∷ []) =
      (same_iff (merge_key p q) (97 ∷ 31 ∷ 98 ∷ [])).0 (ground (arith, e)) in
    short_plain (p ++ q) (omega (arith, ap length key, length-append p (31 ∷ q), length-append p q))

pub small-ByteLevel : ByteLevel small
small-ByteLevel = record {
  known = λ b h. get_elem?-index_of (bytes_to_byte_level (b ∷ [])) pieces (suc b) (
      get_elem?-byte_pieces 256 0 b h
      ∙ ap (λ x. some (bytes_to_byte_level (x ∷ []))) (omega arith));
  inverse = λ p id e. index_of-get_elem? p pieces id e;
  plain_byte = λ b h. short_plain (bytes_to_byte_level (b ∷ [])) (length-byte_level b);
  plain_merge = merged_plain;
}

-- "ab ab" and a letter of two bytes.
abbrev pub sample : Bytes
sample = 97 ∷ 98 ∷ 32 ∷ 97 ∷ 98 ∷ 195 ∷ 169 ∷ []

pub sample-IsUtf8 : IsUtf8 sample
unfolding IsUtf8 AllPoints encode_all encode_utf8
sample-IsUtf8 = (
  97 ∷ 98 ∷ 32 ∷ 97 ∷ 98 ∷ 233 ∷ [],
  (omega arith, (omega arith, (omega arith, (omega arith, (omega arith, (omega arith, tt)))))),
  refl,
)

nothing_left : (k : ℕ) → starts_with (bytes "<s>") (drop k []) ≡ false
unfolding starts_with
nothing_left zero = refl
nothing_left (suc k) = refl

sample_free : (k : ℕ) → starts_with (bytes "<s>") (drop k sample) ≡ false
unfolding starts_with
sample_free zero = refl
sample_free (suc zero) = refl
sample_free (suc (suc zero)) = refl
sample_free (suc (suc (suc zero))) = refl
sample_free (suc (suc (suc (suc zero)))) = refl
sample_free (suc (suc (suc (suc (suc zero))))) = refl
sample_free (suc (suc (suc (suc (suc (suc zero)))))) = refl
sample_free (suc (suc (suc (suc (suc (suc (suc k))))))) = nothing_left k

pub sample-Absent : Absent small.specials sample
unfolding Absent
sample-Absent = (sample_free, tt)

pub bos_silent : (id : ℕ) → small.bos_id ≡ some id → decode_token small id ≡ []
unfolding decode_token byte_pieces
bos_silent id e =
    let same_id : 300 ≡ id = ground (arith, e) in
    subst (λ i. decode_token small i ≡ []) same_id refl

decode_tokens-encode_text_example :
    (ids : List ℕ) × (encode_text small sample ≡ some ids) × (decode_tokens small ids ≡ sample)
decode_tokens-encode_text_example =
    decode_tokens-encode_text small small-ByteLevel sample sample-IsUtf8
      (
        omega arith,
        (
          omega arith,
          (omega arith, (omega arith, (omega arith, (omega arith, (omega arith, tt))))),
        ),
      )
      sample-Absent bos_silent

specials-NoneEmpty : NoneEmpty small.specials
unfolding NoneEmpty
specials-NoneEmpty = (omega arith, tt)

encode_text-some_example : (ids : List ℕ) × (encode_text small (bytes "<s>a") ≡ some ids)
encode_text-some_example = encode_text-some small (bytes "<s>a") specials-NoneEmpty

merge_parts-Merged_example :
    rank_at small 0 (merge_parts small 3 (bytes "b" ∷ bytes "a" ∷ bytes "b" ∷ [])) ≡ none
merge_parts-Merged_example = merge_parts-Merged small (bytes "b" ∷ bytes "a" ∷ bytes "b" ∷ []) 0

merges_ab :
    merge_parts small 3 (bytes "b" ∷ bytes "a" ∷ bytes "b" ∷ []) ≡ bytes "b" ∷ bytes "ab" ∷ []
unfolding merge_parts best_from merge_at merge_key same
merges_ab = refl

pub ab-IsUtf8 : IsUtf8 (bytes "ab")
unfolding IsUtf8 AllPoints encode_all encode_utf8
ab-IsUtf8 = (97 ∷ 98 ∷ [], (omega arith, (omega arith, tt)), refl)

ab_free : (k : ℕ) → starts_with (bytes "<s>") (drop k (bytes "ab")) ≡ false
unfolding starts_with
ab_free zero = refl
ab_free (suc zero) = refl
ab_free (suc (suc k)) = nothing_left k

pub ab-Absent : Absent small.specials (bytes "ab")
unfolding Absent
ab-Absent = (ab_free, tt)

-- "ab" is one piece, which a merge makes; the token before a text is put before it.
pub ab_ids : encode_text small (bytes "ab") ≡ some (300 ∷ 0 ∷ [])
unfolding encode_text encode_loop longest_first insert_longer special_at starts_with span_length
    pieces_ids default_split split_loop piece_length group_length contraction run_length encode_all
    decode_utf8 decode_rest encode_utf8 bytes_to_byte_level byte_to_codepoint codepoints_from
    encode_piece merge_parts best_from merge_key merge_at part_ids char_ids with_bos same
    byte_pieces
ab_ids = refl

finds_ab : best_from small 0 none (bytes "b" ∷ bytes "a" ∷ bytes "b" ∷ []) ≡ some (0, 1)
unfolding best_from merge_key same
finds_ab = refl

best_from-Least_example :
    (rank_at small 1 (bytes "b" ∷ bytes "a" ∷ bytes "b" ∷ []) ≡ some 0)
    × ((k other : ℕ)
        → rank_at small k (bytes "b" ∷ bytes "a" ∷ bytes "b" ∷ []) ≡ some other
        → Before 0 1 other k)
best_from-Least_example =
    best_from-Least small (bytes "b" ∷ bytes "a" ∷ bytes "b" ∷ []) 0 1 finds_ab
