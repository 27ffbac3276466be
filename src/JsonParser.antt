-- ===== src/JsonParser.antt =====
-- include/nanovllm/json.hpp, `class JsonParser`. The position `i_` is the text that is left from
-- there; the byte number in an exception's message is left out. `stod` is a parameter: it gives the
-- 64-bit pattern of the double at the front of a text, or throws (`none`).
pub mod Total
pub mod Tests
use Prim.Native.Nat.{bit_and, bit_or}
use nano_v_llm_cpp.Base.{
  ℕ, zero, suc, ◌+◌, ◌-◌, ◌*◌, ◌/◌, ◌%◌, ◌^◌, Bool, true, false, not, ◌&&◌, ◌||◌, List, [], ◌∷◌,
  ◌++◌, Option, none, some, ◌==◌, ltb, leb, if◌then◌else◌, length, take, drop,
}
use nano_v_llm_cpp.Text.{Bytes, bytes, is_space, is_digit, starts_with}
use nano_v_llm_cpp.Json
use nano_v_llm_cpp.Json.{Json, Items, Fields, push_back, set_field}

-- The messages of `fail`, and the exceptions of `std::stod` and `std::stoul`.
pub data Reason : Type 0 where
  eof unexpected_character literal no_number escape unicode in_array in_object : Reason
  bad_double bad_hex : Reason

-- A value and the text that is left. `out_of_fuel` has no counterpart in the program.
pub data Parsed {ℓ} (A : Type ℓ) : Type ℓ where
  parsed : A → Bytes → Parsed A
  failed : Reason → Parsed A
  out_of_fuel : Parsed A

abbrev pub bind {ℓ κ} : {A : Type ℓ} {B : Type κ} → Parsed A → (A → Bytes → Parsed B) → Parsed B
bind (parsed a s) f = f a s
bind (failed r) f = failed r
bind out_of_fuel f = out_of_fuel

unfoldable pub ws : Bytes → Bytes
ws [] = []
ws (c ∷ s) = let rest = ws s in if is_space c then rest else c ∷ s

-- The character is not consumed.
peek_at : Bytes → Parsed ℕ
peek_at [] = failed eof
peek_at (c ∷ s) = parsed c (c ∷ s)

unfoldable pub peek : Bytes → Parsed ℕ
unfolding peek_at
peek s = peek_at (ws s)

expect_at : ℕ → Bytes → Parsed (Unit {0})
expect_at c [] = failed unexpected_character
expect_at c (d ∷ s) = if d == c then parsed tt s else failed unexpected_character

unfoldable pub expect : ℕ → Bytes → Parsed (Unit {0})
unfolding expect_at
expect c s = expect_at c (ws s)

unfoldable pub expect_literal : Bytes → Bytes → Parsed (Unit {0})
expect_literal lit s = if starts_with lit s then parsed tt (drop (length lit) s) else failed literal

unfoldable pub boolean : Bytes → Parsed Json
boolean s = bind (peek s) λ c t.
    if c == b't'
    then bind (expect_literal (bytes "true") t) (λ _ u. parsed (Json.bool true) u)
    else bind (expect_literal (bytes "false") t) (λ _ u. parsed (Json.bool false) u)

unfoldable pub number_char : ℕ → Bool
number_char c = is_digit c || c == b'.' || c == b'e' || c == b'E' || c == b'-' || c == b'+'

-- The characters of a number at the front of a text.
unfoldable pub number_run : Bytes → Bytes
number_run [] = []
number_run (c ∷ s) = let rest = number_run s in if number_char c then c ∷ rest else []

-- The loop takes a sign in any place, and so the one at the front too.
unfoldable pub number : (Bytes → Option ℕ) → Bytes → Parsed Json
number stod s =
    let lexeme = number_run s in
    if length lexeme == 0 then failed no_number else elim (stod lexeme) [
      | none ↦ failed bad_double
      | some n ↦ parsed (Json.number n) (drop (length lexeme) s)
    ]

unfoldable pub hex_digit : ℕ → Option ℕ
unfolding is_digit
hex_digit c =
    if is_digit c
    then some (c - b'0')
    else if leb b'a' c && leb c b'f'
    then some (c - b'a' + 10)
    else if leb b'A' c && leb c b'F'
    then some (c - b'A' + 10)
    else none

-- The value of the hexadecimal digits at the front, after those that make up `acc`.
unfoldable pub hex_run : ℕ → Bytes → ℕ
hex_run acc [] = acc
hex_run acc (c ∷ s) = elim (hex_digit c) [ none ↦ acc | some d ↦ hex_run (acc * 16 + d) s ]

-- The digits of `std::stoul`, which throws where there are none.
hex_digits : Bytes → Option ℕ
unfolding hex_run hex_digit
hex_digits [] = none
hex_digits (c ∷ s) = elim (hex_digit c) [ none ↦ none | some d ↦ some (hex_run d s) ]

-- `0x` and `0X` go where a digit follows; else the 0 is the number.
hex_prefix : Bytes → Option ℕ
unfolding hex_digits
hex_prefix (z ∷ x ∷ s) =
    if z == b'0' && (x == b'x' || x == b'X')
    then elim (hex_digits s) [ none ↦ some 0 | some n ↦ some n ]
    else hex_digits (z ∷ x ∷ s)
hex_prefix s = hex_digits s

-- After the blanks and the sign. A minus wraps around at the width of `cp`.
hex_sign : Bytes → Option ℕ
unfolding hex_prefix
hex_sign [] = none
hex_sign (c ∷ s) =
    if c == b'-'
    then elim (hex_prefix s) [ none ↦ none | some n ↦ some ((2 ^ 32 - n) % 2 ^ 32) ]
    else if c == b'+'
    then hex_prefix s
    else hex_prefix (c ∷ s)

-- `unsigned int cp = std::stoul(s, nullptr, 16)` for four characters.
unfoldable pub stoul16 : Bytes → Option ℕ
unfolding hex_sign
stoul16 s = hex_sign (ws s)

-- `static_cast<char>(0x80 | (x & 0x3F))`
abbrev continuation : ℕ → ℕ
continuation x = bit_or 0x80 (bit_and x 0x3F)

-- The UTF-8 of a code point below 2^16; a larger one is cut to 8 bits in the first byte.
unfoldable pub utf8 : ℕ → Bytes
utf8 cp =
    if ltb cp 0x80
    then cp ∷ []
    else if ltb cp 0x800
    then bit_or 0xC0 (cp / 2 ^ 6) ∷ continuation cp ∷ []
    else bit_or 0xE0 (cp / 2 ^ 12) % 256 ∷ continuation (cp / 2 ^ 6) ∷ continuation cp ∷ []

unfoldable pub unicode_at : Bytes → Parsed Bytes
unicode_at s =
    if ltb (length s) 4
    then failed unicode
    else elim (stoul16 (take 4 s)) [ none ↦ failed bad_hex | some cp ↦ parsed (utf8 cp) (drop 4 s) ]

-- The switch over the character behind a backslash.
unfoldable pub escape_at : Bytes → Parsed Bytes
escape_at [] = failed escape
escape_at (e ∷ s) =
    if e == b'"' || e == b'\\' || e == b'/'
    then parsed (e ∷ []) s
    else if e == b'b'
    then parsed (8 ∷ []) s
    else if e == b'f'
    then parsed (12 ∷ []) s
    else if e == b'n'
    then parsed (10 ∷ []) s
    else if e == b'r'
    then parsed (13 ∷ []) s
    else if e == b't'
    then parsed (9 ∷ []) s
    else if e == b'u'
    then unicode_at s
    else failed escape

-- What one round of the loop of `string` appends.
unfoldable pub char_at : ℕ → Bytes → Parsed Bytes
char_at c s = if c == b'\\' then escape_at s else parsed (c ∷ []) s

-- The loop of `string`, for at most `fuel` rounds.
unfoldable pub string_loop : ℕ → Bytes → Bytes → Parsed Bytes
string_loop zero out s = out_of_fuel
string_loop (suc fuel) out [] = parsed out []
string_loop (suc fuel) out (c ∷ s) = elim (c == b'"') [
  | true ↦ parsed out (c ∷ s)
  | false ↦ bind (char_at c s) (λ more t. string_loop fuel (out ++ more) t)
]

-- Each round takes a character at least.
unfoldable pub string : Bytes → Parsed Bytes
string s = bind (expect b'"' s) λ _ t.
    bind (string_loop (suc (length t)) [] t) λ out u. bind (expect b'"' u) λ _ v. parsed out v

-- After `j.arr.push_back(value())`.
unfoldable pub after_item : (Items → Bytes → Parsed Json) → Items → Bytes → Parsed Json
after_item again xs s = bind (peek s) λ c t.
    if c == b','
    then again xs (drop 1 t)
    else if c == b']'
    then parsed (Json.array xs) (drop 1 t)
    else failed in_array

-- After `j.obj[k] = value()`.
unfoldable pub after_field : (Fields → Bytes → Parsed Json) → Fields → Bytes → Parsed Json
after_field again fs s = bind (peek s) λ c t.
    if c == b','
    then again fs (drop 1 t)
    else if c == b'}'
    then parsed (Json.object fs) (drop 1 t)
    else failed in_object

-- `[` or `{`, then the closing character at once, or the loop.
unfoldable pub opened : ℕ → ℕ → Json → (Bytes → Parsed Json) → Bytes → Parsed Json
opened open_char close_char empty loop s = bind (expect open_char s) λ _ t.
    if starts_with (close_char ∷ []) (ws t) then parsed empty (drop 1 (ws t)) else loop (ws t)

-- The key of an entry with its colon.
unfoldable pub key : Bytes → Parsed Bytes
key s = bind (string (ws s)) λ k t. bind (expect b':' t) λ _ u. parsed k u

-- The dispatch of `value`, given `array` and `object`.
unfoldable pub value_at :
    (Bytes → Option ℕ) → (Bytes → Parsed Json) → (Bytes → Parsed Json) → Bytes → Parsed Json
value_at stod array object s = bind (peek s) λ c t.
    if c == b'{'
    then object t
    else if c == b'['
    then array t
    else if c == b'"'
    then bind (string t) (λ str u. parsed (Json.string str) u)
    else if c == b't' || c == b'f'
    then boolean t
    else if c == b'n'
    then bind (expect_literal (bytes "null") t) (λ _ u. parsed Json.null u)
    else number stod t

-- The three recursive methods, for calls at most `fuel` deep: a unit for each value, item and entry.
module _ (stod : Bytes → Option ℕ) where
  unfoldable mutual
    pub value : ℕ → Bytes → Parsed Json
    value zero s = out_of_fuel
    value (suc fuel) s =
        value_at stod (opened b'[' b']' (Json.array Json.nil) (array fuel Json.nil))
          (opened b'{' b'}' (Json.object Json.end) (object fuel Json.end)) s

    pub array : ℕ → Items → Bytes → Parsed Json
    array zero xs s = out_of_fuel
    array (suc fuel) xs s = bind (value fuel s) λ v t. after_item (array fuel) (push_back xs v) t

    pub object : ℕ → Fields → Bytes → Parsed Json
    object zero fs s = out_of_fuel
    object (suc fuel) fs s =
        bind (key s)
          λ k t. bind (value fuel t) λ v u. after_field (object fuel) (set_field k v fs) u

  -- Two calls for each character are enough. What follows the value is not looked at.
  unfoldable pub parse : Bytes → Parsed Json
  parse text = bind (value (2 * length text + 1) (ws text)) λ v s. parsed v (ws s)
