-- ===== src/Mcp.antt =====
-- include/nanovllm/mcp_client.hpp: the requests that the client writes and what it reads from the
-- answers. The process and its pipes are left out. An `int` that is printed is below 2^31.
pub mod Reply
pub mod Requests
pub mod Answers
pub mod Tests
use nano_v_llm_cpp.Base.{
  ℕ, zero, suc, ◌+◌, ◌-◌, ◌*◌, ◌/◌, ◌%◌, Bool, true, false, not, ◌&&◌, ◌||◌, List, [], ◌∷◌, ◌++◌,
  Option, none, some, ◌==◌, ltb, leb, if◌then◌else◌, length, take, drop, is_empty,
}
use nano_v_llm_cpp.Text.{Bytes, bytes, is_digit, find}

pub record Tool : Type 0 where
  pub name : Bytes
  pub description : Bytes
  pub schema : Bytes

pub record Content : Type 0 where
  pub type : Bytes
  pub text : Bytes

-- `oss << id`: the decimal digits, in at most `fuel` rounds.
unfoldable pub decimal_onto : ℕ → ℕ → Bytes → Bytes
decimal_onto zero n out = out
decimal_onto (suc fuel) n out =
    let longer = decimal_onto fuel (n / 10) ((b'0' + n % 10) ∷ out) in
    if ltb n 10 then (b'0' + n) ∷ out else longer

unfoldable pub decimal : ℕ → Bytes
decimal n = decimal_onto (suc n) n []

-- `id` is the counter after it was incremented.
unfoldable pub build_request : ℕ → Bytes → Bytes → Bytes
build_request id method params =
    bytes "{\"jsonrpc\":\"2.0\",\"id\":"
    ++ (decimal id
        ++ (bytes ",\"method\":\""
            ++ (method ++ (bytes "\",\"params\":" ++ (params ++ bytes "}\n")))))

unfoldable pub escape_char : ℕ → Bytes
escape_char c =
    if c == b'"'
    then b'\\' ∷ b'"' ∷ []
    else if c == b'\\'
    then b'\\' ∷ b'\\' ∷ []
    else if c == 10
    then b'\\' ∷ b'n' ∷ []
    else if c == 13
    then b'\\' ∷ b'r' ∷ []
    else if c == 9
    then b'\\' ∷ b't' ∷ []
    else c ∷ []

unfoldable pub escape : Bytes → Bytes
escape [] = []
escape (c ∷ s) = escape_char c ++ escape s

-- The request of `call_tool`.
unfoldable pub call_request : ℕ → Bytes → Bytes → Bytes
call_request id name args_json =
    build_request id (bytes "tools/call")
      (bytes "{\"name\":\"" ++ (escape name ++ (bytes "\",\"arguments\":" ++ args_json)))

unfoldable pub initialize_request : ℕ → Bytes
initialize_request id =
    build_request id (bytes "initialize")
      (bytes "{\"protocolVersion\":\"1.0\",\"capabilities\":{}}")

unfoldable pub list_request : ℕ → Bytes
list_request id = build_request id (bytes "tools/list") (bytes "{}")

unfoldable pub digits_of : Bytes → Bytes
digits_of [] = []
digits_of (c ∷ s) = let rest = digits_of s in if is_digit c then c ∷ rest else []

-- `std::stoi` on digits; `none` where the number is above the largest `int`.
unfoldable pub number_of : ℕ → Bytes → ℕ
number_of acc [] = acc
number_of acc (c ∷ s) = number_of (acc * 10 + (c - b'0')) s

unfoldable pub stoi : Bytes → Option ℕ
stoi s = if leb (number_of 0 s) 0x7FFF_FFFF then some (number_of 0 s) else none

-- The digits behind the first `"id":`.
unfoldable pub id_digits : Bytes → Bytes
id_digits req = elim (find (bytes "\"id\":") 0 req) [
  | none ↦ []
  | some pos ↦ digits_of (drop (pos + 5) req)
]

-- `none` is the exception of a number that is too large.
unfoldable pub req_id : Bytes → Option ℕ
req_id req = if is_empty (id_digits req) then some 0 else stoi (id_digits req)

unfoldable pub validate_response : Bytes → ℕ → Bool
validate_response resp expected_id =
    if is_empty (id_digits resp)
    then false
    else elim (stoi (id_digits resp)) [ none ↦ false | some id ↦ id == expected_id ]

-- The lines that arrive, with the line so far: `read_response` returns the first that is valid. Each
-- entry of `received` is a character; a deadline ends the list.
unfoldable pub read_response : ℕ → Bytes → Bytes → Bytes
read_response expected_id buffer [] = []
read_response expected_id buffer (ch ∷ received) =
    let line = buffer ++ (ch ∷ []) in
    let next = read_response expected_id [] received in
    let more = read_response expected_id line received in
    if ch == 10 then (if validate_response line expected_id then line else next) else more
