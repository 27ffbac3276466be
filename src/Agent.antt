-- ===== src/Agent.antt =====
-- include/nanovllm/agent.hpp: tool calls in the text of a model.
pub mod Calls
pub mod Tests
use nano_v_llm_cpp.Base.{
  ℕ, zero, suc, ◌+◌, ◌-◌, Bool, true, false, ◌||◌, List, [], ◌∷◌, ◌++◌, Option, none, some, ◌==◌,
  if◌then◌else◌, length, take, drop, is_empty,
}
use nano_v_llm_cpp.Text.{Bytes, bytes, find}

pub record Tool : Type 0 where
  pub name : Bytes
  pub description : Bytes
  pub schema : Bytes

pub record Call : Type 0 where
  pub name : Bytes
  pub args : Bytes

abbrev pub no_call : Call
no_call = record { name = []; args = [] }

abbrev skip_blanks : Bytes → Bytes
skip_blanks [] = []
skip_blanks (c ∷ s) =
    let rest = skip_blanks s in
    if c == b' ' || c == b'\t' || c == 10 || c == 13 then rest else c ∷ s

-- The loop of `extract`, behind the opening quote.
unfoldable pub value_of : Bytes → Bytes → Bytes
value_of val [] = val
value_of val (c ∷ []) = if c == b'"' then val else val ++ (c ∷ [])
value_of val (c ∷ d ∷ s) =
    let escaped = value_of (val ++ (d ∷ [])) s in
    let plain = value_of (val ++ (c ∷ [])) (d ∷ s) in
    if c == b'"' then val else if c == b'\\' then escaped else plain

abbrev quoted_value : Bytes → Bytes
quoted_value [] = []
quoted_value (c ∷ s) = if c == b'"' then value_of [] s else []

-- The lambda `extract` of `parse_call`.
unfoldable pub extract : Bytes → Bytes → Bytes
extract tool_obj_json key =
    let k = (b'"' ∷ key) ++ (b'"' ∷ []) in
    elim (find k 0 tool_obj_json) [
      | none ↦ []
      | some i ↦ elim (find (b':' ∷ []) (i + length k) tool_obj_json) [
        | none ↦ []
        | some pos ↦ quoted_value (skip_blanks (drop (pos + 1) tool_obj_json))
      ]
    ]

unfoldable pub parse_call : Bytes → Call
parse_call tool_obj_json = if is_empty tool_obj_json then no_call else record {
  name = extract tool_obj_json (bytes "name");
  args = extract tool_obj_json (bytes "arguments");
}

pub record Loop : Type 0 where
  pub tools : List Tool

unfoldable pub add_tool : Loop → Tool → Loop
add_tool l t = record l { tools = l.tools ++ (t ∷ []) }

-- A line of the block, left out where its text is empty.
abbrev line_unless_empty : Bytes → Bytes → Bytes
line_unless_empty label text = if is_empty text then [] else label ++ (text ++ (10 ∷ []))

unfoldable pub tool_lines : List Tool → Bytes
tool_lines [] = []
tool_lines (t ∷ ts) =
    (bytes "- name: " ++ (t.name ++ (10 ∷ [])))
    ++ (line_unless_empty (bytes "  description: ") t.description
        ++ (line_unless_empty (bytes "  schema: ") t.schema ++ tool_lines ts))

unfoldable pub tools_system_block : Loop → Bytes
tools_system_block l =
    if is_empty l.tools then [] else bytes "Tools available:" ++ (10 ∷ tool_lines l.tools)

-- The call of a block from `start` up to `stop`, if it has a name, with the offset `off` behind it.
unfoldable pub call_in : Bytes → ℕ → ℕ → ℕ → Option (Call × ℕ)
call_in text start stop off =
    let parsed = parse_call (take (stop - start) (drop start text)) in
    if is_empty parsed.name then none else some (parsed, off)

-- The fenced block.
unfoldable pub fenced_call : Bytes → Option (Call × ℕ)
fenced_call text = elim (find (bytes "```json") 0 text) [
  | none ↦ none
  | some fence_pos ↦ elim (find (bytes "```") (fence_pos + 7) text) [
    | none ↦ none
    | some end_fence ↦ call_in text (fence_pos + 7) end_fence (end_fence + 3)
  ]
]

-- The block from a brace to the next closing one.
unfoldable pub brace_call : Bytes → ℕ → Option (Call × ℕ)
brace_call text brace_pos = elim (find (b'}' ∷ []) brace_pos text) [
  | none ↦ none
  | some end_brace ↦ call_in text brace_pos (end_brace + 1) (end_brace + 1)
]

-- The loop over the braces, from position `from` on, for at most `fuel` rounds.
unfoldable pub bare_call : ℕ → ℕ → Bytes → Option (Call × ℕ)
bare_call zero from text = none
bare_call (suc fuel) from text = elim (find (b'{' ∷ []) from text) [
  | none ↦ some (no_call, 0)
  | some brace_pos ↦ elim (brace_call text brace_pos) [
    | none ↦ bare_call fuel (brace_pos + 1) text
    | some found ↦ some found
  ]
]

-- The call and `next_off`; `none` would be a search without end.
unfoldable pub find_call : Bytes → Option (Call × ℕ)
find_call text = elim (fenced_call text) [
  | none ↦ bare_call (suc (length text)) 0 text
  | some found ↦ some found
]
