-- ===== src/Http/Escape.antt =====
-- `json_escape` of include/nanovllm/http_server.hpp against the two readers of escaped texts: the
-- parser of json.hpp and the server's own loop.
use nano_v_llm_cpp.Base.{
  ℕ, zero, suc, ◌<◌, ◌≡◌, ◌≤◌, ap, ◌∙◌, refl, Bool, true, false, [], ◌∷◌, ◌++◌, none, some, arith,
  ◌==◌, ltb, if◌then◌else◌, length, take, drop, length-append,
}
use nano_v_llm_cpp.Base.Tables.{passes_to, passes_to-test}
use mathlib.Core.List.{append_assoc, append-nil}
use nano_v_llm_cpp.Text.{Bytes, is_space}
use nano_v_llm_cpp.JsonParser.{
  parsed, stoul16, utf8, unicode_at, escape_at, char_at, string_loop, string, expect, ws, hex_run,
  hex_digit,
}
use nano_v_llm_cpp.Http.{quoted, hex4, escape_char, json_escape}

-- The four hexadecimal digits of a control character are read back as that character.
abbrev reads_back : ℕ → Bool
reads_back c = elim (stoul16 (hex4 c)) [ none ↦ false | some n ↦ n == c ]

reads_back_table : passes_to reads_back 32 ≡ true
unfolding passes_to stoul16 hex4 hex_run hex_digit ws is_space
reads_back_table = refl

stoul16-hex4 : (c : ℕ) → c < 32 → stoul16 (hex4 c) ≡ some c
stoul16-hex4 c h = ground (arith, passes_to-test reads_back 32 c h reads_back_table)

utf8_ascii : (c : ℕ) → c < 32 → utf8 c ≡ c ∷ []
unfolding utf8
utf8_ascii c h = ground arith

hex4_front :
    (c : ℕ) (t : Bytes)
    → (take 4 (hex4 c ++ t) ≡ hex4 c)
      × (drop 4 (hex4 c ++ t) ≡ t)
      × (ltb (length (hex4 c ++ t)) 4 ≡ false)
unfolding hex4
hex4_front c t = (refl, refl, ground arith)

unicode_at-hex4 : (c : ℕ) (t : Bytes) → c < 32 → unicode_at (hex4 c ++ t) ≡ parsed (c ∷ []) t
unfolding unicode_at
unicode_at-hex4 c t h = ground (arith, hex4_front c t, stoul16-hex4 c h, utf8_ascii c h)

-- A round of the parser's loop reads what stands for one character.
string_loop-escape_char :
    (fuel : ℕ) (out : Bytes) (c : ℕ) (t : Bytes)
    → string_loop (suc fuel) out (escape_char c ++ t) ≡ string_loop fuel (out ++ (c ∷ [])) t
unfolding string_loop char_at escape_at escape_char
string_loop-escape_char fuel out c t = ground (arith, unicode_at-hex4 c t)

json_escape-append :
    (c : ℕ) (s rest : Bytes)
    → json_escape (c ∷ s) ++ rest ≡ escape_char c ++ (json_escape s ++ rest)
unfolding json_escape
json_escape-append c s rest = append_assoc (escape_char c) (json_escape s) rest

string_loop-json_escape :
    (s out rest : Bytes) (fuel : ℕ)
    → length s < fuel
    → string_loop fuel out (json_escape s ++ (b'"' ∷ rest)) ≡ parsed (out ++ s) (b'"' ∷ rest)
string_loop-json_escape s out rest zero h = elim h [ ]
string_loop-json_escape [] out rest (suc fuel) h = unfold string_loop json_escape in rw append-nil
string_loop-json_escape (c ∷ s) out rest (suc fuel) h =
    ap (string_loop (suc fuel) out) (json_escape-append c s (b'"' ∷ rest))
    ∙ string_loop-escape_char fuel out c (json_escape s ++ (b'"' ∷ rest))
    ∙ string_loop-json_escape s (out ++ (c ∷ [])) rest fuel (omega arith)
    ∙ ap (λ o. parsed o (b'"' ∷ rest)) (append_assoc out (c ∷ []) s)

length-escape_char : (c : ℕ) → 0 < length (escape_char c)
unfolding escape_char
length-escape_char c = ground arith

length-json_escape : (s : Bytes) → length s ≤ length (json_escape s)
unfolding json_escape
length-json_escape [] = omega arith
length-json_escape (c ∷ s) = omega (
  arith,
  length-append (escape_char c) (json_escape s),
  length-escape_char c,
  length-json_escape s,
)

-- The JSON parser reads a text that the server wrote as a JSON string back as it was, and stops
-- behind its closing quote.
pub string-json_escape :
    (s rest : Bytes) → string (b'"' ∷ (json_escape s ++ (b'"' ∷ rest))) ≡ parsed s rest
unfolding string expect ws is_space
string-json_escape s rest = rw (string_loop-json_escape s [] rest _ (enough)) refl
  where
    enough : length s < suc (length (json_escape s ++ (b'"' ∷ rest)))
    enough = omega (arith, length-append (json_escape s) (b'"' ∷ rest), length-json_escape s)

-- What the server's own loop makes of an escaped character: it drops the backslash and keeps what
-- stands behind it.
abbrev pub spelled_char : ℕ → Bytes
spelled_char c =
    if c == 10
    then b'n' ∷ []
    else if c == 13
    then b'r' ∷ []
    else if c == 9
    then b't' ∷ []
    else if ltb c 0x20
    then b'u' ∷ hex4 c
    else c ∷ []

abbrev pub spelled : Bytes → Bytes
spelled [] = []
spelled (c ∷ s) = spelled_char c ++ spelled s

quoted_plain :
    (val : Bytes) (c : ℕ) (t : Bytes)
    → (c == b'"') ≡ false
    → (c == b'\\') ≡ false
    → quoted val (c ∷ t) ≡ quoted (val ++ (c ∷ [])) t
unfolding quoted
quoted_plain val c [] h k = rw h
quoted_plain val c (d ∷ t) h k = rw (h, k)

quoted-hex4 :
    (val : Bytes) (c : ℕ) (t : Bytes) → c < 32 → quoted val (hex4 c ++ t) ≡ quoted (val ++ hex4 c) t
unfolding hex4
quoted-hex4 val c t h =
    quoted_plain _ _ _ refl refl
    ∙ quoted_plain _ _ _ refl refl
    ∙ quoted_plain _ _ _ (ground arith) (ground arith)
    ∙ quoted_plain _ _ _ (ground arith) (ground arith)
    ∙ simp append_assoc

quoted-escape_char :
    (val : Bytes) (c : ℕ) (t : Bytes)
    → quoted val (escape_char c ++ t) ≡ quoted (val ++ spelled_char c) t
unfolding quoted escape_char
quoted-escape_char val c t = ground (
  arith,
  quoted_plain val c t,
  quoted-hex4 (val ++ (b'u' ∷ [])) c t,
  append_assoc val (b'u' ∷ []) (hex4 c),
)

quoted_onto :
    (s val rest : Bytes)
    → quoted val (json_escape s ++ (b'"' ∷ rest)) ≡ (val ++ spelled s, b'"' ∷ rest)
quoted_onto [] val [] = unfold quoted json_escape in rw append-nil
quoted_onto [] val (r ∷ rest) = unfold quoted json_escape in rw append-nil
quoted_onto (c ∷ s) val rest =
    ap (quoted val) (json_escape-append c s (b'"' ∷ rest))
    ∙ quoted-escape_char val c (json_escape s ++ (b'"' ∷ rest))
    ∙ quoted_onto s (val ++ spelled_char c) rest
    ∙ ap (λ v. (v, b'"' ∷ rest)) (append_assoc val (spelled_char c) (spelled s))

-- The server's own reader takes a text that was written as a JSON string for the same text with a
-- letter `n`, `r` or `t` for each newline, return and tab, and `u` with four digits for any other
-- control character; it stops at the closing quote.
pub quoted-json_escape :
    (s rest : Bytes) → quoted [] (json_escape s ++ (b'"' ∷ rest)) ≡ (spelled s, b'"' ∷ rest)
quoted-json_escape s rest = quoted_onto s [] rest
