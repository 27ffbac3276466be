-- ===== src/Mcp/Answers.antt =====
-- What the client of include/nanovllm/mcp_client.hpp reads: every loop over an answer ends.
use nano_v_llm_cpp.Base.{
  ℕ, zero, suc, ◌+◌, ◌-◌, ◌≤◌, ◌<◌, ◌≡◌, ◌⊎◌, inl, inr, refl, Bool, true, List, [], ◌∷◌, ◌++◌, some,
  arith, ◌==◌, if◌then◌else◌, Bool-cases, Option-cases, length, drop, is_empty,
}
use nano_v_llm_cpp.Text.{Bytes, bytes, find}
use nano_v_llm_cpp.Text.Find.{find-within}
use nano_v_llm_cpp.Mcp.{Tool, Content, validate_response, read_response, list_request, call_request}
use nano_v_llm_cpp.Mcp.Reply.{
  balanced, objects, array_text, array_objects, tools_of, contents_of, parse_tools, parse_contents,
  exchange, list_tools, call_tool,
}

length-balanced :
    (opening closing depth : ℕ) (s : Bytes) → length (balanced opening closing depth s).0 ≤ length s
unfolding balanced
length-balanced o c depth [] = omega arith
length-balanced o c depth (d ∷ s) = ground (
  arith,
  length-balanced o c (if d == o then depth + 1 else if d == c then depth - 1 else depth) s,
)

objects_ends :
    (fuel idx : ℕ) (arr : Bytes)
    → length arr - idx < fuel
    → (objs : List Bytes) × (objects fuel idx arr ≡ some objs)
unfolding objects
objects_ends zero idx arr h = elim h [ ]
objects_ends (suc fuel) idx arr h = elim (Option-cases (find (b'{' ∷ []) idx arr)) [
  | inl n ↦ ([], ground (arith, n))
  | inr (start, e) ↦
      let run = balanced b'{' b'}' 1 (drop (start + 1) arr) in
      let within = find-within _ idx arr start e in
      let (objs, r) =
        objects_ends fuel (start + 1 + length run.0) arr (omega (arith, within.0, within.1)) in
      elim (Bool-cases (run.1 == 0)) [
        | inl closed ↦ ((b'{' ∷ run.0) ∷ objs, ground (arith, e, closed, r))
        | inr more ↦ ([], ground (arith, e, more))
      ]
]

array_objects_ends :
    (label : Bytes) (width : ℕ) (resp : Bytes)
    → (objs : List Bytes) × (array_objects label width resp ≡ some objs)
unfolding array_objects
array_objects_ends label width resp = elim (Option-cases (array_text label width resp)) [
  | inl n ↦ ([], ground (arith, n))
  | inr (arr, e) ↦
      let (objs, r) = objects_ends (suc (length arr)) 0 arr (omega arith) in
      (objs, ground (arith, e, r))
]

parse_contents_ends : (resp : Bytes) → (cs : List Content) × (parse_contents resp ≡ some cs)
unfolding parse_contents
parse_contents_ends resp =
    let (objs, r) = array_objects_ends (bytes "\"content\":") 9 resp in
    (contents_of objs, ground (arith, r))

parse_tools_ends : (resp : Bytes) → (ts : List Tool) × (parse_tools resp ≡ some ts)
unfolding parse_tools
parse_tools_ends resp =
    let (objs, r) = array_objects_ends (bytes "\"tools\":") 7 resp in
    (tools_of objs, ground (arith, r))

-- Nothing, before the deadline; or a line that holds the id that was asked for.
read_response-valid :
    (id : ℕ) (buffer received : Bytes)
    → (read_response id buffer received ≡ [])
      ⊎ (validate_response (read_response id buffer received) id ≡ true)
unfolding read_response
read_response-valid id buffer [] = inl refl
read_response-valid id buffer (ch ∷ received) = ground (
  arith,
  read_response-valid id [] received,
  read_response-valid id (buffer ++ (ch ∷ [])) received,
)

module _ (id : ℕ) (sent : Bool) (received : Bytes) where
  list_tools_ends : (ts : List Tool) × (list_tools id sent received ≡ some ts)
  unfolding list_tools
  list_tools_ends = elim (Option-cases (exchange (list_request id) sent received)) [
    | inl n ↦ ([], ground (arith, n))
    | inr (resp, e) ↦ elim (Bool-cases (is_empty resp)) [
      | inl nothing ↦ ([], ground (arith, e, nothing))
      | inr some_line ↦ let (ts, r) = parse_tools_ends resp in (ts, ground (arith, e, some_line, r))
    ]
  ]

  call_tool_ends :
      (name args_json : Bytes)
      → (cs : List Content) × (call_tool id name args_json sent received ≡ some cs)
  unfolding call_tool
  call_tool_ends name args_json =
      elim (Option-cases (exchange (call_request id name args_json) sent received)) [
        | inl n ↦ ([], ground (arith, n))
        | inr (resp, e) ↦ elim (Bool-cases (is_empty resp)) [
          | inl nothing ↦ ([], ground (arith, e, nothing))
          | inr some_line ↦
              let (cs, r) = parse_contents_ends resp in (cs, ground (arith, e, some_line, r))
        ]
      ]

  -- Both calls of the client return a list, whatever the server answers: no loop over an answer runs
  -- on for ever, and no exception gets out.
  pub calls_end :
      (name args_json : Bytes)
      → ((ts : List Tool) × (list_tools id sent received ≡ some ts))
        × ((cs : List Content) × (call_tool id name args_json sent received ≡ some cs))
  calls_end name args_json = (list_tools_ends, call_tool_ends name args_json)
