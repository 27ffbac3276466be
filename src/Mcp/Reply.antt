-- ===== src/Mcp/Reply.antt =====
-- include/nanovllm/mcp_client.hpp: how an answer is read, and the three calls.
use nano_v_llm_cpp.Base.{
  ℕ, zero, suc, ◌+◌, ◌-◌, Bool, false, not, ◌||◌, List, [], ◌∷◌, ◌++◌, Option, none, some, ◌==◌,
  if◌then◌else◌, length, take, drop, is_empty,
}
use nano_v_llm_cpp.Text.{Bytes, bytes, find}
use nano_v_llm_cpp.Mcp.{
  initialize_request, req_id, Tool, call_request, list_request, read_response, Content,
}

abbrev unescaped : ℕ → ℕ
unescaped next =
    if next == b'n' then 10 else if next == b't' then 9 else if next == b'r' then 13 else next

-- The loop of `extract_json_string`, behind the opening quote.
unfoldable pub extract_from : Bytes → Bytes → Bytes
extract_from result [] = result
extract_from result (c ∷ []) = if c == b'"' then result else result ++ (c ∷ [])
extract_from result (c ∷ d ∷ s) =
    let escaped = extract_from (result ++ (unescaped d ∷ [])) s in
    let plain = extract_from (result ++ (c ∷ [])) (d ∷ s) in
    if c == b'\\' then escaped else if c == b'"' then result else plain

unfoldable pub extract_json_string : Bytes → Bytes → Bytes
extract_json_string json key =
    let search = (b'"' ∷ key) ++ bytes "\":\"" in
    elim (find search 0 json) [
      | none ↦ []
      | some pos ↦ extract_from [] (drop (pos + length search) json)
    ]

-- The loop that looks for the end of an object or array, `depth` levels deep: what it passed over,
-- and the depth where it stopped.
unfoldable pub balanced : ℕ → ℕ → ℕ → Bytes → Bytes × ℕ
balanced opening closing depth [] = ([], depth)
balanced opening closing depth (c ∷ s) =
    let depth' = if c == opening then depth + 1 else if c == closing then depth - 1 else depth in
    let rest = balanced opening closing depth' s in
    if depth == 0 then ([], 0) else (c ∷ rest.0, rest.1)

abbrev skip_blanks : Bytes → Bytes
skip_blanks [] = []
skip_blanks (c ∷ s) = let rest = skip_blanks s in if c == b' ' || c == b'\t' then rest else c ∷ s

-- The object or array from its first character on, empty if it does not end.
unfoldable pub enclosed : ℕ → ℕ → Bytes → Bytes
enclosed opening closing s =
    let run = balanced opening closing 1 s in if run.1 == 0 then opening ∷ run.0 else []

unfoldable pub value_from : Bytes → Bytes
value_from [] = []
value_from (c ∷ s) =
    if c == b'{' then enclosed b'{' b'}' s else if c == b'[' then enclosed b'[' b']' s else []

unfoldable pub extract_json_value : Bytes → Bytes → Bytes
extract_json_value json key =
    let search = (b'"' ∷ key) ++ bytes "\":" in
    elim (find search 0 json) [
      | none ↦ []
      | some pos ↦ value_from (skip_blanks (drop (pos + length search) json))
    ]

-- The objects of an array's text, for at most `fuel` rounds of the loop.
unfoldable pub objects : ℕ → ℕ → Bytes → Option (List Bytes)
objects zero idx arr = none
objects (suc fuel) idx arr = elim (find (b'{' ∷ []) idx arr) [
  | none ↦ some []
  | some obj_start ↦
      let run = balanced b'{' b'}' 1 (drop (obj_start + 1) arr) in
      let rest = objects fuel (obj_start + 1 + length run.0) arr in
      if run.1 == 0
      then elim rest [ none ↦ none | some objs ↦ some ((b'{' ∷ run.0) ∷ objs) ]
      else some []
]

-- The text between the first bracket behind `label` and the next closing one. `resp.find(']', npos)`
-- finds nothing.
unfoldable pub array_text : Bytes → ℕ → Bytes → Option Bytes
array_text label width resp = elim (find label 0 resp) [
  | none ↦ none
  | some pos ↦ elim (find (b'[' ∷ []) (pos + width) resp) [
    | none ↦ none
    | some arr_start ↦ elim (find (b']' ∷ []) arr_start resp) [
      | none ↦ none
      | some arr_end ↦ some (take (arr_end - arr_start - 1) (drop (arr_start + 1) resp))
    ]
  ]
]

unfoldable pub array_objects : Bytes → ℕ → Bytes → Option (List Bytes)
array_objects label width resp = elim (array_text label width resp) [
  | none ↦ some []
  | some arr ↦ objects (suc (length arr)) 0 arr
]

unfoldable pub tools_of : List Bytes → List Tool
tools_of [] = []
tools_of (obj ∷ objs) =
    let name = extract_json_string obj (bytes "name") in
    let tool : Tool = record {
      name = name;
      description = extract_json_string obj (bytes "description");
      schema = extract_json_value obj (bytes "inputSchema");
    } in
    if is_empty name then tools_of objs else tool ∷ tools_of objs

unfoldable pub parse_tools : Bytes → Option (List Tool)
parse_tools resp = elim (array_objects (bytes "\"tools\":") 7 resp) [
  | none ↦ none
  | some objs ↦ some (tools_of objs)
]

unfoldable pub contents_of : List Bytes → List Content
contents_of [] = []
contents_of (obj ∷ objs) =
    let type = extract_json_string obj (bytes "type") in
    let content : Content = record { type = type; text = extract_json_string obj (bytes "text") } in
    if is_empty type then contents_of objs else content ∷ contents_of objs

unfoldable pub parse_contents : Bytes → Option (List Content)
parse_contents resp = elim (array_objects (bytes "\"content\":") 9 resp) [
  | none ↦ none
  | some objs ↦ some (contents_of objs)
]

-- A round trip to the server. `sent` tells whether the pipe took the whole request.
unfoldable pub exchange : Bytes → Bool → Bytes → Option Bytes
exchange req sent received =
    if sent
    then elim (req_id req) [ none ↦ none | some id ↦ some (read_response id [] received) ]
    else some []

unfoldable pub initialize : ℕ → Bool → Bytes → Bool
initialize id sent received = elim (exchange (initialize_request id) sent received) [
  | none ↦ false
  | some resp ↦ not (is_empty resp)
]

-- An exception leaves the lists empty; `none` is a parse without end.
unfoldable pub list_tools : ℕ → Bool → Bytes → Option (List Tool)
list_tools id sent received = elim (exchange (list_request id) sent received) [
  | none ↦ some []
  | some resp ↦ if is_empty resp then some [] else parse_tools resp
]

unfoldable pub call_tool : ℕ → Bytes → Bytes → Bool → Bytes → Option (List Content)
call_tool id name args_json sent received =
    elim (exchange (call_request id name args_json) sent received) [
      | none ↦ some []
      | some resp ↦ if is_empty resp then some [] else parse_contents resp
    ]
