-- ===== src/Tokenizer/Split.antt =====
-- `default_split` of src/tokenizer.cpp: a text in code points is cut into contractions, words with the
-- character in front of them, blanks, digits and single characters.
use nano_v_llm_cpp.Base.{
  ℕ, zero, suc, ◌+◌, Bool, false, not, ◌&&◌, ◌||◌, List, [], ◌∷◌, ◌++◌, Option, none, some, ◌==◌,
  leb, if◌then◌else◌, length, take, drop, min,
}
use nano_v_llm_cpp.Text.{Bytes}
use nano_v_llm_cpp.Tokenizer.{encode_utf8, decode_utf8}

abbrev is_ascii_letter : ℕ → Bool
is_ascii_letter cp = (leb 65 cp && leb cp 90) || (leb 97 cp && leb cp 122)

abbrev is_ascii_digit : ℕ → Bool
is_ascii_digit cp = leb 48 cp && leb cp 57

abbrev is_ascii_space : ℕ → Bool
is_ascii_space cp = (cp == 32) || (cp == 9) || (cp == 10) || (cp == 13)

abbrev lower_cp : ℕ → ℕ
lower_cp c = if leb 65 c && leb c 90 then c + 32 else c

-- How many code points at the front pass a test.
unfoldable pub run_length : (ℕ → Bool) → List ℕ → ℕ
run_length test [] = 0
run_length test (cp ∷ cps) = let rest = run_length test cps in if test cp then suc rest else 0

abbrev second_is : ℕ → List ℕ → Bool
second_is c [] = false
second_is c (cp ∷ cps) = lower_cp cp == c

-- The length of a contraction, from what stands behind its apostrophe.
unfoldable pub contraction : List ℕ → Option ℕ
contraction [] = none
contraction (cp ∷ cps) =
    let c = lower_cp cp in
    if c == b's' || c == b't'
    then some 2
    else if c == b'r' || c == b'v'
    then if second_is b'e' cps then some 3 else none
    else if c == b'm'
    then some 2
    else if c == b'l'
    then if second_is b'l' cps then some 3 else none
    else if c == b'd'
    then some 2
    else none

abbrev begins_word : List ℕ → Bool
begins_word [] = false
begins_word (cp ∷ cps) = is_ascii_letter cp

-- The length of the piece that begins with `cp`, where no contraction does.
unfoldable pub group_length : ℕ → List ℕ → ℕ
group_length cp cps =
    if begins_word cps && not (cp == 13) && not (cp == 10)
    then suc (run_length is_ascii_letter cps)
    else if is_ascii_space cp
    then suc (run_length is_ascii_space cps)
    else if is_ascii_letter cp
    then suc (run_length is_ascii_letter cps)
    else if is_ascii_digit cp
    then suc (min 2 (run_length is_ascii_digit cps))
    else 1

unfoldable pub piece_length : ℕ → List ℕ → ℕ
piece_length cp cps =
    if cp == 39
    then elim (contraction cps) [ none ↦ group_length cp cps | some n ↦ n ]
    else group_length cp cps

unfoldable pub encode_all : List ℕ → Bytes
encode_all [] = []
encode_all (cp ∷ cps) = encode_utf8 cp ++ encode_all cps

-- At most `n` rounds of the loop.
unfoldable pub split_loop : ℕ → List ℕ → List Bytes
split_loop zero cps = []
split_loop (suc n) [] = []
split_loop (suc n) (cp ∷ cps) =
    let k = piece_length cp cps in encode_all (take k (cp ∷ cps)) ∷ split_loop n (drop k (cp ∷ cps))

unfoldable pub default_split : Bytes → List Bytes
default_split text = let cps = decode_utf8 text in split_loop (length cps) cps
