-- ===== src/Http/Server.antt =====
-- include/nanovllm/http_server.hpp: the answers of the server, and how it comes to the one it sends.
use nano_v_llm_cpp.Base.{
  ℕ, ◌+◌, ◌-◌, Bool, true, false, not, ◌&&◌, ◌||◌, List, [], ◌∷◌, ◌++◌, Option, none, some, ltb,
  leb, if◌then◌else◌, length, take, drop, is_empty,
}
use mathlib.Core.Option
use nano_v_llm_cpp.Text.{Bytes, bytes, is_space, same, find}
use nano_v_llm_cpp.Http.{
  json_extract_number, json_escape, json_extract_last_user, json_extract_string,
}

abbrev pub crlf : Bytes
crlf = 13 ∷ 10 ∷ []

abbrev ok_header : Bytes → Bytes
ok_header content_type =
    bytes "HTTP/1.1 200 OK"
    ++ (crlf
        ++ (bytes "Content-Type: "
            ++ (content_type ++ (crlf ++ (bytes "Connection: close" ++ (crlf ++ crlf))))))

abbrev json_header : Bytes
json_header = ok_header (bytes "application/json")

unfoldable pub build_chat_response : Bytes → Bytes → Bytes
build_chat_response model content =
    json_header
    ++ (bytes "{\"id\":\"chatcmpl-1\",\"object\":\"chat.completion\",\"created\":0,\"model\":\""
        ++ (json_escape model
            ++ (bytes
                  "\",\"choices\":[{\"index\":0,\"message\":{\"role\":\"assistant\",\"content\":\""
                ++ (json_escape content
                    ++ bytes
                        "\"},\"finish_reason\":\"stop\"}],\"usage\":{\"prompt_tokens\":0,\"completion_tokens\":0,\"total_tokens\":0}}"))))

unfoldable pub build_models_response : Bytes → Bytes
build_models_response model =
    json_header
    ++ (bytes "{\"object\":\"list\",\"data\":[{\"id\":\""
        ++ (json_escape model ++ bytes "\",\"object\":\"model\",\"owned_by\":\"nanovllm\"}]}"))

-- The numbers of an embedding, each as the stream prints it, with commas between.
unfoldable pub comma_list : List Bytes → Bytes
comma_list [] = []
comma_list (x ∷ []) = x
comma_list (x ∷ y ∷ xs) = x ++ (b',' ∷ comma_list (y ∷ xs))

unfoldable pub build_embedding_response : Bytes → List Bytes → Bytes
build_embedding_response model emb =
    json_header
    ++ (bytes "{\"object\":\"list\",\"model\":\""
        ++ (json_escape model
            ++ (bytes "\",\"data\":[{\"index\":0,\"object\":\"embedding\",\"embedding\":["
                ++ (comma_list emb
                    ++ bytes "]}],\"usage\":{\"prompt_tokens\":0,\"total_tokens\":0}}"))))

pub data StatusCode : Type 0 where
  bad_request not_found method_not_allowed server_error : StatusCode

abbrev status_text : StatusCode → Bytes
status_text bad_request = bytes "400 Bad Request"
status_text not_found = bytes "404 Not Found"
status_text method_not_allowed = bytes "405 Method Not Allowed"
status_text server_error = bytes "500 Internal Server Error"

unfoldable pub http_status : StatusCode → Bytes
http_status code =
    bytes "HTTP/1.1 "
    ++ (status_text code
        ++ (crlf
            ++ (bytes "Content-Length: 0"
                ++ (crlf ++ (bytes "Connection: close" ++ (crlf ++ crlf))))))

pub record ChatRequest : Type 0 where
  pub model : Bytes
  pub last_user : Bytes
  pub temperature : ℕ
  pub max_tokens : ℕ

-- The handlers, `none` where they throw, the page of `build_webui`, and the number readers. A number
-- is the pattern of its `double` or `int`; `minus_one` is that of the default temperature.
pub record Site : Type 0 where
  pub model_name : Bytes
  pub webui : Bytes
  pub h : ChatRequest → Option Bytes
  pub eh : Option (Bytes → Option (List Bytes))
  pub stod : Bytes → Option ℕ
  pub stoi : Bytes → Option ℕ
  pub minus_one : ℕ

unfoldable pub chat_request : Site → Bytes → Bytes → Option ChatRequest
chat_request site path body =
    elim (if same path (bytes "/v1/chat/completions")
      then json_extract_last_user body
      else some (json_extract_string body (bytes "prompt"))) [
        | none ↦ none
        | some user ↦ some (record {
          model = json_extract_string body (bytes "model");
          last_user = user;
          temperature = json_extract_number site.stod body (bytes "temperature") site.minus_one;
          max_tokens = json_extract_number site.stoi body (bytes "max_tokens") 0;
        })
      ]

unfoldable pub respond_chat : Site → ChatRequest → Bytes
respond_chat site cr = if is_empty cr.last_user then http_status bad_request else elim (site.h cr) [
  | none ↦ http_status server_error
  | some text ↦ build_chat_response (if is_empty cr.model then site.model_name else cr.model) text
]

unfoldable pub respond_embedding : Site → (Bytes → Option (List Bytes)) → Bytes → Bytes
respond_embedding site embed body =
    let input = json_extract_string body (bytes "input") in
    if is_empty input then http_status bad_request else elim (embed input) [
      | none ↦ http_status server_error
      | some emb ↦ build_embedding_response site.model_name emb
    ]

-- The last branch of the dispatch.
abbrev pub refuse : Bytes → Bytes
refuse method = http_status (
    if same method (bytes "GET") || same method (bytes "POST")
    then not_found
    else method_not_allowed)

-- The dispatch on method and path: the text that is sent. `none` would be a search without end.
unfoldable pub respond : Site → Bytes → Bytes → Bytes → Option Bytes
respond site method path body =
    if same method (bytes "GET") && (same path (bytes "/") || same path (bytes "/index.html"))
    then some site.webui
    else if same method (bytes "GET") && same path (bytes "/v1/models")
    then some (build_models_response site.model_name)
    else if same method (bytes "POST")
        && (same path (bytes "/v1/chat/completions") || same path (bytes "/v1/completions"))
    then Option.map (respond_chat site) (chat_request site path body)
    else if same method (bytes "POST") && same path (bytes "/v1/embeddings")
    then elim site.eh [
      | none ↦ some (refuse method)
      | some embed ↦ some (respond_embedding site embed body)
    ]
    else some (refuse method)

abbrev is_some {ℓ} : {A : Type ℓ} → Option A → Bool
is_some none = false
is_some (some a) = true

-- The loop that receives up to the end of the headers. `received` is what the calls of `recv` return,
-- empty or missing where one returns nothing. Each round looks for the end from three bytes before
-- the new ones. The buffer, whether the end was found, and the calls that are left.
unfoldable pub receive_headers : Bytes → List Bytes → Bytes × Bool × List Bytes
receive_headers buf [] = (buf, false, [])
receive_headers buf (new ∷ received) =
    let buf' = buf ++ new in
    let from = length buf - 3 in
    let more = receive_headers buf' received in
    if leb 65535 (length buf) || is_empty new
    then (buf, false, received)
    else if is_some (find (crlf ++ crlf) from buf')
    then (buf', true, received)
    else more

-- The loop that receives the rest of a body of `cl` bytes, which starts at `start`.
unfoldable pub receive_body : Bytes → ℕ → ℕ → List Bytes → Bytes
receive_body req start cl [] = req
receive_body req start cl (new ∷ received) =
    let more = receive_body (req ++ new) start cl received in
    if ltb (length req - start) cl && ltb (length req) 65535 && not (is_empty new)
    then more
    else req

-- `headers.find("Content-Length:")` and the number behind it, 0 where there is none. A negative
-- `int` makes the same tests fail as 0 does.
unfoldable pub content_length : Site → Bytes → Option ℕ
content_length site headers = elim (find (bytes "Content-Length:") 0 headers) [
  | none ↦ none
  | some p ↦ elim (site.stoi (drop (p + 15) headers)) [
    | none ↦ some 0
    | some n ↦ some (if ltb n 0x8000_0000 then n else 0)
  ]
]

-- The body, empty where it is missing or was not received whole.
unfoldable pub request_body : Site → Bytes → ℕ → List Bytes → Bytes
request_body site req header_end received = elim (content_length site (take header_end req)) [
  | none ↦ []
  | some cl ↦
      let start = header_end + 4 in
      let whole = receive_body req start cl received in
      if ltb 0 cl && leb cl 65536 && leb (start + cl) (length whole)
      then take cl (drop start whole)
      else []
]

-- `rl >> word`: the word, and the rest of the line.
unfoldable pub word : Bytes → Bytes → Bytes × Bytes
word w [] = (w, [])
word w (c ∷ s) =
    let skipped = word w s in
    let longer = word (w ++ (c ∷ [])) s in
    if is_space c then (if is_empty w then skipped else (w, c ∷ s)) else longer

unfoldable pub handle_request : Site → Bytes → List Bytes → Option Bytes
handle_request site req received = elim (find crlf 0 req) [
  | none ↦ some (http_status bad_request)
  | some line_end ↦ elim (find (crlf ++ crlf) 0 req) [
    | none ↦ some (http_status bad_request)
    | some header_end ↦
        let first = word [] (take line_end req) in
        let second = word [] first.1 in
        respond site first.0 second.0 (request_body site req header_end received)
  ]
]

-- The text that is sent back.
unfoldable pub handle_client : Site → List Bytes → Option Bytes
handle_client site received =
    let got = receive_headers [] received in
    if is_empty got.0 || not got.1
    then some (http_status bad_request)
    else handle_request site got.0 got.2
