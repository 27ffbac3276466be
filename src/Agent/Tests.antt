-- ===== src/Agent/Tests.antt =====
-- Runs of include/nanovllm/agent.hpp.
use nano_v_llm_cpp.Base.{ℕ, ◌≡◌, refl, some}
use nano_v_llm_cpp.Text.{Bytes, bytes, starts_with, find, find_in}
use nano_v_llm_cpp.Agent.{
  Call, value_of, extract, parse_call, call_in, fenced_call, brace_call, bare_call, find_call,
}
use nano_v_llm_cpp.Agent.Calls.{FirstCall, find_call-FirstCall}

-- The block of the fence is no call; the braces behind it hold one.
abbrev text : Bytes
text = bytes "```json x ``` {} {\"name\":\"f\",\"arguments\":\"a\\\"b\"} end"

finds_bare : find_call text ≡ some (record { name = bytes "f"; args = bytes "a\"b" }, 48)
unfolding find_call fenced_call bare_call brace_call call_in parse_call extract value_of find
    find_in starts_with
finds_bare = refl

find_call-FirstCall_example :
    (found : Call × ℕ) × (find_call text ≡ some found) × FirstCall text found
find_call-FirstCall_example = find_call-FirstCall text
