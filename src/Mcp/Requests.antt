-- ===== src/Mcp/Requests.antt =====
-- The requests of include/nanovllm/mcp_client.hpp: their ids, their texts and their braces.
use nano_v_llm_cpp.Base.{
  ℕ, zero, suc, ◌+◌, ◌/◌, ◌%◌, ◌^◌, ◌<◌, ◌≡◌, ap, ◌∙◌, inl, inr, refl, false, [], ◌∷◌, ◌++◌, some,
  arith, ltb, Bool-cases, is_empty, count, count-append,
}
use mathlib.Core.List.{append_assoc, append-nil}
use nano_v_llm_cpp.Text.{Bytes, bytes, is_digit, starts_with, find_in, find}
use nano_v_llm_cpp.Mcp.{
  decimal_onto, decimal, build_request, escape_char, escape, call_request, digits_of, number_of,
  stoi, id_digits, req_id,
}
use nano_v_llm_cpp.Mcp.Reply.{extract_from}

number_of-decimal_onto :
    (fuel n : ℕ) (out : Bytes) → n < fuel → number_of 0 (decimal_onto fuel n out) ≡ number_of n out
unfolding decimal_onto
number_of-decimal_onto zero n out h = elim h [ ]
number_of-decimal_onto (suc fuel) n out h = elim (Bool-cases (ltb n 10)) [
  | inl e ↦ rw e (unfold number_of in ap (λ k. number_of k out) (omega arith))
  | inr e ↦ rw e (
      number_of-decimal_onto fuel (n / 10) ((b'0' + n % 10) ∷ out) (ground arith)
      ∙ unfold number_of in ap (λ k. number_of k out) (omega arith))
]

digits_of-digit :
    (d : ℕ) (s : Bytes) → d < 10 → digits_of ((b'0' + d) ∷ s) ≡ (b'0' + d) ∷ digits_of s
unfolding digits_of is_digit
digits_of-digit d s h = ground arith

digits_of-decimal_onto :
    (fuel n : ℕ) (out t : Bytes)
    → digits_of (out ++ t) ≡ out
    → digits_of (decimal_onto fuel n out ++ t) ≡ decimal_onto fuel n out
unfolding decimal_onto
digits_of-decimal_onto zero n out t h = h
digits_of-decimal_onto (suc fuel) n out t h = elim (Bool-cases (ltb n 10)) [
  | inl e ↦ rw e (digits_of-digit n (out ++ t) (ground arith) ∙ ap (λ r. (b'0' + n) ∷ r) h)
  | inr e ↦ rw e (
      digits_of-decimal_onto fuel (n / 10) ((b'0' + n % 10) ∷ out) t
        (digits_of-digit (n % 10) (out ++ t) (omega arith) ∙ ap (λ r. (b'0' + n % 10) ∷ r) h))
]

decimal-digits :
    (n : ℕ) (t : Bytes)
    → (digits_of (decimal n ++ (b',' ∷ t)) ≡ decimal n) × (number_of 0 (decimal n) ≡ n)
unfolding decimal digits_of is_digit
decimal-digits n t = (
  digits_of-decimal_onto (suc n) n [] (b',' ∷ t) refl,
  number_of-decimal_onto (suc n) n [] (omega arith) ∙ unfold number_of in refl,
)

-- The id stands first in the text of a request.
id_digits-build_request :
    (id : ℕ) (method params : Bytes) → id_digits (build_request id method params) ≡ decimal id
unfolding id_digits find find_in starts_with build_request
id_digits-build_request id method params = ground (
  arith,
  (decimal-digits id
      (bytes "\"method\":\"" ++ (method ++ (bytes "\",\"params\":" ++ (params ++ bytes "}\n"))))).0,
)

decimal_onto-ne : (fuel n d : ℕ) (out : Bytes) → is_empty (decimal_onto fuel n (d ∷ out)) ≡ false
unfolding decimal_onto
decimal_onto-ne zero n d out = refl
decimal_onto-ne (suc fuel) n d out =
    ground (arith, decimal_onto-ne fuel (n / 10) (b'0' + n % 10) (d ∷ out))

decimal-ne : (n : ℕ) → is_empty (decimal n) ≡ false
unfolding decimal decimal_onto
decimal-ne n = ground (arith, decimal_onto-ne n (n / 10) (b'0' + n % 10) [])

-- A request carries its id: the client looks for the answer to the id it has just counted, whatever
-- method and parameters it sends, up to the largest `int`.
pub req_id-build_request :
    (id : ℕ) (method params : Bytes)
    → id < 2 ^ 31
    → req_id (build_request id method params) ≡ some id
unfolding req_id stoi
req_id-build_request id method params h =
    rw (id_digits-build_request id method params)
      (ground (arith, decimal-ne id, (decimal-digits id []).1))

extract_from-escape_char :
    (result : Bytes) (c : ℕ) (t : Bytes)
    → extract_from result (escape_char c ++ t) ≡ extract_from (result ++ (c ∷ [])) t
unfolding extract_from escape_char
extract_from-escape_char result c [] = ground arith
extract_from-escape_char result c (d ∷ t) = ground arith

escape-append :
    (c : ℕ) (s rest : Bytes) → escape (c ∷ s) ++ rest ≡ escape_char c ++ (escape s ++ rest)
unfolding escape
escape-append c s rest = append_assoc (escape_char c) (escape s) rest

extract_from_onto :
    (s result rest : Bytes) → extract_from result (escape s ++ (b'"' ∷ rest)) ≡ result ++ s
extract_from_onto [] result [] = unfold extract_from escape in rw append-nil
extract_from_onto [] result (r ∷ rest) = unfold extract_from escape in rw append-nil
extract_from_onto (c ∷ s) result rest =
    ap (extract_from result) (escape-append c s (b'"' ∷ rest))
    ∙ extract_from-escape_char result c (escape s ++ (b'"' ∷ rest))
    ∙ extract_from_onto s (result ++ (c ∷ [])) rest
    ∙ append_assoc result (c ∷ []) s

-- What the client writes with `escape` between quotes, it reads back as it was.
pub extract_from-escape : (s rest : Bytes) → extract_from [] (escape s ++ (b'"' ∷ rest)) ≡ s
extract_from-escape s rest = extract_from_onto s [] rest

-- How many more braces a text opens than it closes.
abbrev pub Surplus : ℕ → Bytes → Type 0
Surplus k text = count b'{' text ≡ count b'}' text + k

Surplus-append : (j k : ℕ) (s t : Bytes) → Surplus j s → Surplus k t → Surplus (j + k) (s ++ t)
Surplus-append j k s t hs ht = omega (arith, count-append b'{' s t, count-append b'}' s t)

count-decimal_onto :
    (a fuel n : ℕ) (out : Bytes) → b'9' < a → count a (decimal_onto fuel n out) ≡ count a out
unfolding decimal_onto
count-decimal_onto a zero n out h = refl
count-decimal_onto a (suc fuel) n out h =
    ground (arith, count-decimal_onto a fuel (n / 10) ((b'0' + n % 10) ∷ out) h)

decimal-Surplus : (n : ℕ) → Surplus 0 (decimal n)
unfolding decimal
decimal-Surplus n = omega (
  arith,
  count-decimal_onto b'{' (suc n) n [] (omega arith),
  count-decimal_onto b'}' (suc n) n [] (omega arith),
)

-- A request closes the brace that it opens.
build_request-Surplus :
    (id : ℕ) (method params : Bytes) (j k : ℕ)
    → Surplus j method
    → Surplus k params
    → Surplus (j + k) (build_request id method params)
unfolding build_request
build_request-Surplus id method params j k hm hp =
    let v = bytes "}\n" in
    let u = bytes "\",\"params\":" ++ (params ++ v) in
    let t = bytes ",\"method\":\"" ++ (method ++ u) in
    omega (
      arith,
      decimal-Surplus id,
      count-append b'{' (decimal id) t,
      count-append b'}' (decimal id) t,
      count-append b'{' method u,
      count-append b'}' method u,
      count-append b'{' params v,
      count-append b'}' params v,
    )

-- The request of `call_tool` is not a JSON value: where the tool's name and the arguments close all
-- the braces that they open, it opens one that it never closes.
pub call_request-Surplus :
    (id : ℕ) (name args_json : Bytes)
    → Surplus 0 (escape name)
    → Surplus 0 args_json
    → Surplus 1 (call_request id name args_json)
unfolding call_request
call_request-Surplus id name args_json hn ha =
    build_request-Surplus id (bytes "tools/call") _ 0 1 (omega arith) (
      Surplus-append 1 0 (bytes "{\"name\":\"")
        (escape name ++ (bytes "\",\"arguments\":" ++ args_json)) (omega arith)
        (Surplus-append 0 0 (escape name) (bytes "\",\"arguments\":" ++ args_json) hn
          (Surplus-append 0 0 (bytes "\",\"arguments\":") args_json (omega arith) ha)))
