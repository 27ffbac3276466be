-- ===== src/Mcp/Tests.antt =====
-- Runs of include/nanovllm/mcp_client.hpp.
use nano_v_llm_cpp.Base.{◌≡◌, refl, true, List, [], ◌∷◌, ◌++◌, some, arith}
use nano_v_llm_cpp.Text.{bytes, starts_with, find, find_in}
use nano_v_llm_cpp.Mcp.{Tool, Content, build_request, req_id, escape}
use nano_v_llm_cpp.Mcp.Reply.{
  extract_from, list_tools, call_tool, extract_json_string, extract_json_value, value_from,
  enclosed, balanced, objects, array_text, array_objects, tools_of, parse_tools,
}
use nano_v_llm_cpp.Mcp.Requests.{req_id-build_request, extract_from-escape, Surplus}
use nano_v_llm_cpp.Mcp.Answers.{calls_end}

-- A tool with a nested schema.
one_tool :
    parse_tools (bytes "{\"id\":1,\"tools\":[{\"name\":\"add\",\"inputSchema\":{\"a\":{}}}]}")
    ≡ some (record { name = bytes "add"; description = []; schema = bytes "{\"a\":{}}" } ∷ [])
unfolding parse_tools array_objects array_text objects balanced tools_of extract_json_string
    extract_from extract_json_value value_from enclosed find find_in starts_with
one_tool = refl

req_id-build_request_example :
    req_id (build_request 42 (bytes "tools/list") (bytes "{\"id\":7}")) ≡ some 42
req_id-build_request_example =
    req_id-build_request 42 (bytes "tools/list") (bytes "{\"id\":7}") (omega arith)

extract_from-escape_example :
    extract_from [] (escape (bytes "a\"b\\") ++ (b'"' ∷ bytes ",")) ≡ bytes "a\"b\\"
extract_from-escape_example = extract_from-escape (bytes "a\"b\\") (bytes ",")

no_name : Surplus 0 (escape [])
unfolding escape
no_name = refl

calls_end_example :
    ((ts : List Tool) × (list_tools 3 true (bytes "{\"id\":3,\"tools\":[{]}") ≡ some ts))
    × ((cs : List Content) × (call_tool 3
            (bytes "f")
            (bytes "{}")
            true
            (bytes "{\"id\":3,\"tools\":[{]}")
          ≡ some cs))
calls_end_example = calls_end 3 true (bytes "{\"id\":3,\"tools\":[{]}") (bytes "f") (bytes "{}")
