-- ===== src/Text.antt =====
-- Texts as lists of bytes, and what the sources use of std::string and <cctype>: literals, searches
-- and character classes.
pub mod Find
pub mod Maps
use Prim.Native.Char.{code}
use Prim.Native.String.{String}
use nano_v_llm_cpp.Base.{
  ℕ, ◌+◌, ◌-◌, Bool, true, false, ◌&&◌, ◌||◌, List, [], ◌∷◌, Option, none, some, ◌==◌, ltb, leb,
  if◌then◌else◌, length, drop, is_empty,
}

abbrev pub Bytes : Type 0
Bytes = List ℕ

-- The bytes of a literal. Every literal here is ASCII.
abbrev pub bytes : String → Bytes
bytes String.[] = []
bytes (String.◌∷◌ c s) = code c ∷ bytes s

-- `std::isspace`
unfoldable pub is_space : ℕ → Bool
is_space ch = ch == 32 || (leb 9 ch && leb ch 13)

unfoldable pub is_digit : ℕ → Bool
is_digit c = leb b'0' c && leb c b'9'

-- `==` of two strings
unfoldable pub same : Bytes → Bytes → Bool
same [] [] = true
same [] (y ∷ ys) = false
same (x ∷ xs) [] = false
same (x ∷ xs) (y ∷ ys) = x == y && same xs ys

unfoldable pub starts_with : List ℕ → List ℕ → Bool
starts_with [] text = true
starts_with (n ∷ needle) [] = false
starts_with (n ∷ needle) (c ∷ text) = n == c && starts_with needle text

-- The first position from `i` on, where `text` is what stands from there.
unfoldable pub find_in : List ℕ → ℕ → List ℕ → Option ℕ
find_in needle i [] = if is_empty needle then some i else none
find_in needle i (c ∷ text) =
    let later = find_in needle (i + 1) text in
    if starts_with needle (c ∷ text) then some i else later

-- `text.find(needle, from)`
unfoldable pub find : List ℕ → ℕ → List ℕ → Option ℕ
find needle from text =
    if ltb (length text) from then none else find_in needle from (drop from text)
