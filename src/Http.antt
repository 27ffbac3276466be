-- ===== src/Http.antt =====
-- include/nanovllm/http_server.hpp: the texts that the server reads and writes. A position in the
-- body is a number, and what stands from there is `drop` of it. The socket calls are left out: a
-- request is the text that was received.
pub mod Server
pub mod Escape
pub mod Respond
pub mod Tests
use nano_v_llm_cpp.Base.{
  ℕ, zero, suc, ◌+◌, ◌-◌, ◌/◌, ◌%◌, Bool, true, false, not, ◌&&◌, ◌||◌, List, [], ◌∷◌, ◌++◌, Option,
  none, some, ◌==◌, ltb, leb, if◌then◌else◌, length, take, drop, is_empty,
}
use mathlib.Core.Option
use nano_v_llm_cpp.Text.{Bytes, bytes, is_space, same, starts_with, find}

abbrev hex_char : ℕ → ℕ
hex_char d = if ltb d 10 then b'0' + d else b'a' + d - 10

-- `%04x` for a control character.
unfoldable pub hex4 : ℕ → Bytes
hex4 c = b'0' ∷ b'0' ∷ hex_char (c / 16) ∷ hex_char (c % 16) ∷ []

unfoldable pub escape_char : ℕ → Bytes
escape_char c =
    if c == b'"'
    then b'\\' ∷ b'"' ∷ []
    else if c == b'\\'
    then b'\\' ∷ b'\\' ∷ []
    else if c == 10
    then b'\\' ∷ b'n' ∷ []
    else if c == 13
    then b'\\' ∷ b'r' ∷ []
    else if c == 9
    then b'\\' ∷ b't' ∷ []
    else if ltb c 0x20
    then b'\\' ∷ b'u' ∷ hex4 c
    else c ∷ []

unfoldable pub json_escape : Bytes → Bytes
json_escape [] = []
json_escape (c ∷ s) = escape_char c ++ json_escape s

-- The loop over a quoted text, from behind its first quote: the text, and what is left from where
-- the loop stops.
unfoldable pub quoted : Bytes → Bytes → Bytes × Bytes
quoted val [] = (val, [])
quoted val (c ∷ []) = if c == b'"' then (val, c ∷ []) else (val ++ (c ∷ []), [])
quoted val (c ∷ d ∷ s) =
    let escaped = quoted (val ++ (d ∷ [])) s in
    let plain = quoted (val ++ (c ∷ [])) (d ∷ s) in
    if c == b'"' then (val, c ∷ d ∷ s) else if c == b'\\' then escaped else plain

unfoldable pub skip_blanks : Bytes → Bytes
skip_blanks [] = []
skip_blanks (c ∷ s) = let rest = skip_blanks s in if c == b' ' || c == b'\t' then rest else c ∷ s

-- What stands behind the colon that follows the first `"key"`; `none` where there is none.
unfoldable pub after_key : Bytes → Bytes → Option Bytes
after_key body key =
    let pat = (b'"' ∷ key) ++ (b'"' ∷ []) in
    elim (find pat 0 body) [
      | none ↦ none
      | some i ↦ elim (find (b':' ∷ []) (i + length pat) body) [
        | none ↦ none
        | some j ↦ some (drop (j + 1) body)
      ]
    ]

-- The text that a quote at the front opens, empty where there is no quote.
unfoldable pub opened_text : Bytes → Bytes
opened_text [] = []
opened_text (c ∷ s) = if c == b'"' then (quoted [] s).0 else []

unfoldable pub json_extract_string : Bytes → Bytes → Bytes
json_extract_string body key = elim (after_key body key) [
  | none ↦ []
  | some s ↦ opened_text (skip_blanks s)
]

-- `std::stod` and `std::stoi` are parameters, `none` where they throw.
unfoldable pub json_extract_number {ℓ} : {A : Type ℓ} → (Bytes → Option A) → Bytes → Bytes → A → A
json_extract_number convert body key def = elim (after_key body key) [
  | none ↦ def
  | some s ↦ elim (convert s) [ none ↦ def | some v ↦ v ]
]

-- The end of a round of `json_extract_last_user`, at what stands behind the colon of "content": the
-- next position, and the new `last`.
unfoldable pub content_at : Bytes → ℕ → Bytes → Bytes → ℕ × Bytes
content_at body v0 last [] = (v0, last)
content_at body v0 last (c ∷ s) =
    if c == b'"' then (length body - length (quoted [] s).1, (quoted [] s).0) else (v0, last)

-- The same from the search for "content" on, where the role is "user".
unfoldable pub content_from : Bytes → ℕ → Bytes → ℕ × Bytes
content_from body v0 last = elim (find (bytes "\"content\"") v0 body) [
  | none ↦ (v0, last)
  | some cp ↦ elim (find (b':' ∷ []) (cp + 9) body) [
    | none ↦ (v0, last)
    | some c1 ↦ content_at body v0 last (skip_blanks (drop (c1 + 1) body))
  ]
]

-- What stands at the value of a role, `s` from its first character on.
unfoldable pub role_from : Bytes → Bytes → Bytes → ℕ × Bytes
role_from body [] last = (length body, last)
role_from body (c ∷ s) last =
    if not (c == b'"')
    then (length body - length (c ∷ s), last)
    else let v0 = length body - length (quoted [] s).1 in
      if same (quoted [] s).0 (bytes "user") then content_from body v0 last else (v0, last)

-- The loop, for at most `fuel` rounds; `none` says that there are more.
unfoldable pub last_user_loop : ℕ → Bytes → ℕ → Bytes → Option Bytes
last_user_loop zero body pos last = none
last_user_loop (suc fuel) body pos last = elim (find (bytes "\"role\"") pos body) [
  | none ↦ some last
  | some rp ↦ elim (find (b':' ∷ []) (rp + 6) body) [
    | none ↦ some last
    | some c0 ↦
        let next = role_from body (skip_blanks (drop (c0 + 1) body)) last in
        last_user_loop fuel body next.0 next.1
  ]
]

-- Each round moves on by a character at least.
unfoldable pub json_extract_last_user : Bytes → Option Bytes
json_extract_last_user body = last_user_loop (suc (length body)) body 0 []
